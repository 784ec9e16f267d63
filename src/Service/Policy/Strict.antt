-- ===== src/Service/Policy/Strict.antt =====
-- The group settings of internal/risk/service.go.
use safe_road.Base.{
  Bool, true, false, sym, ap, ◌∙◌, inl, inr, Bool-cases, Option-cases, ◌≡◌, ◌↔◌, arith, Text, any,
  text_eq,
}
use safe_road.Strings.{trim_space}
use safe_road.Whitelist.{is_allowed}
use safe_road.Domain.{Platform, ok, normalize_domain, to_lower}
use safe_road.Overrides.{block, ClientGroup}
use safe_road.Verdict.{AnalysisResult, is_malicious}
use safe_road.Service.{Outside, assess, cached_only}
use safe_road.Service.Policy.Order.{policy_lem}
use safe_road.Service.Policy.{
  Service, State, ClientInfo, group_for, override_for, policy, policy_normalized, policy_assessed,
  default_group, enforce, blocks_category,
}

-- The second group has every protection of the first.
pub record IsStricter (g h : ClientGroup) : Type 0 where
  pub malware : g.strict_malware ≡ true → h.strict_malware ≡ true
  pub phishing : g.strict_phishing ≡ true → h.strict_phishing ≡ true
  pub categories :
      (f : Text → Bool) → any f g.block_categories ≡ true → any f h.block_categories ≡ true

blocks_category-categories :
    (platform : Platform) (g h : ClientGroup) (category : Text)
    → IsStricter g h
    → blocks_category platform g.block_categories category ≡ true
    → blocks_category platform h.block_categories category ≡ true
unfolding blocks_category
blocks_category-categories platform g h category st e = ground (
  arith,
  e,
  st.categories (λ c. text_eq (to_lower platform (trim_space c)) (to_lower platform category)),
)

-- A result that the settings of a group block is blocked by those of every stricter group.
enforce-IsStricter :
    (platform : Platform) (g h : ClientGroup) (r : AnalysisResult)
    → IsStricter g h
    → enforce platform g r ≡ block
    → enforce platform h r ≡ block
unfolding enforce
enforce-IsStricter platform g h r st e = ground (
  arith,
  e,
  st.malware,
  st.phishing,
  λ (p : blocks_category platform g.block_categories r.category ≡ true).
      blocks_category-categories platform g h r.category st p,
)

-- The group that a client without a mapping gets blocks exactly the malicious results.
pub enforce_default :
    (platform : Platform) (r : AnalysisResult)
    → (enforce platform default_group r ≡ block) ↔ (is_malicious r.verdict ≡ true)
unfolding enforce blocks_category
enforce_default platform r = ground arith

block-cases :
    (s : Service) (out : Outside) (st : State) (client client' : ClientInfo) (d : Text)
    → IsStricter (group_for s client) (group_for s client')
    → override_for s (group_for s client').id d ≡ override_for s (group_for s client).id d
    → (policy_normalized s out st client d).1.policy ≡ block
    → (policy_normalized s out st client' d).1.policy ≡ block
unfolding policy_normalized policy_assessed
block-cases s out st client client' d stricter same =
    elim (Option-cases (override_for s (group_for s client).id d)) [
      | inr (o, e) ↦ rw (policy_normalized, e, same ∙ e) (λ h. h)
      | inl e ↦ elim (Bool-cases (is_allowed s.whitelist d)) [
        | inl listed ↦ rw (policy_normalized, e, same ∙ e, listed) (λ h. h)
        | inr free ↦
            rw (policy_normalized, e, same ∙ e, free)
              (enforce-IsStricter s.platform (group_for s client) (group_for s client')
                (assess s.platform s.analyzer out s.settings st.cache d cached_only false).result
                stricter)
      ]
    ]

-- A domain that has a normal form and that `Policy` blocks for one client it blocks in the same state
-- for every other whose group has every protection of the first one's group, where the same override,
-- or none, applies to the domain in both groups.
pub policy-IsStricter :
    (s : Service) (out : Outside) (st : State) (client client' : ClientInfo) (domain : Text)
    {d : Text}
    → normalize_domain s.platform domain ≡ ok d
    → IsStricter (group_for s client) (group_for s client')
    → override_for s (group_for s client').id d ≡ override_for s (group_for s client).id d
    → (policy s out st domain client).1.policy ≡ block
    → (policy s out st domain client').1.policy ≡ block
policy-IsStricter s out st client client' domain {d} normal stricter same h =
    ap (λ p. p.1.policy) (policy_lem s out st client' domain normal)
    ∙ block-cases s out st client client' d stricter same
        (ap (λ p. p.1.policy) (sym (policy_lem s out st client domain normal)) ∙ h)
