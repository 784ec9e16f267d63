-- ===== src/Service/Policy/Written.antt =====
-- What an administrator's writes mean for the handlers of internal/risk/service.go: a group's
-- override of internal/store/sqlite.go, and the file of internal/risk/whitelist.go.
use safe_road.Base.{
  ℕ, Bool, true, false, none, some, List, [], ◌∷◌, ◌≡◌, refl, sym, ap, inl, inr, Bool-cases, ◌∙◌,
  Text, text_eq,
}
use safe_road.Strings.{trim_space}
use safe_road.Domain.{ok, normalize_domain, to_lower}
use safe_road.Whitelist.{Whitelist, Sizes, done, lines, load_from_file, parse_lines}
use safe_road.Whitelist.Agrees.{HasBits, covered}
use safe_road.Whitelist.Loads.{Works, load_from_file-covers}
use safe_road.Overrides.{
  Action, Override, Store, allow, parse_action, has_group, upsert_group_override,
  get_effective_override, get_group_for_client,
}
use safe_road.Overrides.Search.{with_row, upserted_row, get_effective_override-upsert_group}
use safe_road.Verdict.{is_malicious}
use safe_road.Service.{Outside}
use safe_road.Service.Policy.{
  Service, State, ClientInfo, done_or, group_for, override_for, is_block, override_result,
  whitelist_result, policy, analyze_with_options,
}
use safe_road.Service.Policy.Order.{policy_override, policy_whitelisted}

-- The service with another database.
abbrev pub reading : Service → Store → Service
reading s store = record s { store = some store }

pub over :
    (s : Service) (store : Store) (g : ℕ) (d : Text) {o : Override}
    → get_effective_override s.platform store g d ≡ done (some o)
    → override_for (reading s store) g d ≡ some o
unfolding override_for
over s store g d e = ap (done_or none) e

-- Rows of overrides do not change a client's group.
group_for-with_row :
    (s : Service) (db : Store) (client : ClientInfo) (g : ℕ) (o : Override)
    → group_for (reading s (with_row db g o)) client ≡ group_for (reading s db) client
unfolding group_for get_group_for_client
group_for-with_row s db client g o = refl

override_result-verdict :
    (s : Service) (d : Text) (o : Override)
    → is_malicious (override_result s d o).verdict ≡ is_block o.action
unfolding override_result
override_result-verdict s d o = elim (Bool-cases (is_block o.action)) [
  | inl e ↦ rw e refl
  | inr e ↦ rw e refl
]

-- The service with another whitelist.
abbrev pub listing : Service → Whitelist → Service
listing s w = record s { whitelist = w }

unlisted :
    (s : Service) (w : Whitelist) (client : ClientInfo) (d : Text)
    → override_for (listing s w) (group_for (listing s w) client).id d
      ≡ override_for s (group_for s client).id d
unfolding override_for group_for
unlisted s w client d = refl

-- After an administrator has written an override with a valid action for the normal form of a
-- domain, not empty, in lower case and without spaces at its ends, and for the group of a client,
-- with a database that answers and has the group, whether or not it enforces foreign keys: the
-- write succeeds, `Policy` for that client takes its action and leaves the cache, the result is
-- malicious exactly if it blocks, and `AnalyzeWithOptions` reports the same result and leaves the
-- same state, whatever the whitelist, the cache, the analyzer and other servers say.
pub policy-upsert_group_override :
    (keys : Bool) (s : Service) (out : Outside) (st : State) (client : ClientInfo) (domain : Text)
    (db : Store) (action reason : Text) (a : Action) (include_evidence force : Bool) {d : Text}
    → normalize_domain s.platform domain ≡ ok d
    → trim_space (to_lower s.platform d) ≡ d
    → text_eq d [] ≡ false
    → db.answers ≡ true
    → parse_action action ≡ some a
    → has_group (group_for (reading s db) client).id db.groups ≡ true
    → let g = (group_for (reading s db) client).id in
      let written = upsert_group_override keys s.platform db g d action reason in
      let p = policy (reading s written.0) out st domain client in
      let r =
        analyze_with_options (reading s written.0) out st domain client include_evidence force in
      (written.1 ≡ true)
      × (p.1.policy ≡ a)
      × (p.0.cache ≡ st.cache)
      × (is_malicious p.1.result.verdict ≡ is_block a)
      × (r.1.result ≡ p.1.result)
      × (r.0 ≡ p.0)
policy-upsert_group_override keys s out st client domain db action reason a include_evidence force
      {d} normal stable full on valid known =
    let g = (group_for (reading s db) client).id in
    let o : Override = record { domain = d; action = a; reason = reason } in
    let wrote = upserted_row keys s.platform db g d action reason a on known stable full valid in
    let effective =
      (get_effective_override-upsert_group keys s.platform db g d action reason a on known stable
        full valid).1 in
    let after = reading s (with_row db g o) in
    let found : override_for after (group_for after client).id d ≡ some o =
      ap (λ h. override_for after h.id d) (group_for-with_row s db client g o)
      ∙ over s (with_row db g o) g d
          (ap (λ w. get_effective_override s.platform w.0 g d) (sym wrote) ∙ effective) in
    let (p, result, cache, same, state) =
      policy_override after out st client domain normal o include_evidence force found in
    rw wrote (
      refl,
      p,
      cache,
      ap (λ r. is_malicious r.verdict) result ∙ override_result-verdict after d o,
      same,
      state,
    )

whitelist_result-verdict : (d : Text) → is_malicious (whitelist_result d).verdict ≡ false
unfolding whitelist_result
whitelist_result-verdict d = refl

-- After the lines of a file were loaded, into the map or into a database that works with a Bloom
-- filter of at least one bit, every domain that has no override and whose normal form the lines
-- cover is allowed by `Policy` with a result that is not malicious; the cache is left, and
-- `AnalyzeWithOptions` reports the same result and leaves the same state, whatever the threat
-- feed, the cache, the analyzer and other servers say.
pub policy-load_from_file :
    (s : Service) (out : Outside) (st : State) (client : ClientInfo) (domain : Text) (sizes : Sizes)
    (w : Whitelist) (c : ℕ) (path : Text) (ls : List Text) (include_evidence force : Bool)
    {d : Text}
    → HasBits sizes
    → Works w.db
    → normalize_domain s.platform domain ≡ ok d
    → override_for s (group_for s client).id d ≡ none
    → covered (parse_lines s.platform ls) d ≡ true
    → let after = listing s (load_from_file s.platform sizes w (c ∷ path) (lines ls)).0 in
      let p = policy after out st domain client in
      let r = analyze_with_options after out st domain client include_evidence force in
      (p.1.policy ≡ allow)
      × (p.0.cache ≡ st.cache)
      × (is_malicious p.1.result.verdict ≡ false)
      × (r.1.result ≡ p.1.result)
      × (r.0 ≡ p.0)
policy-load_from_file s out st client domain sizes w c path ls include_evidence force {d} bits works
      normal free covers =
    let after = listing s (load_from_file s.platform sizes w (c ∷ path) (lines ls)).0 in
    let listed = load_from_file-covers s.platform sizes w c path ls d bits works ∙ covers in
    let (p, result, cache, same, state) =
      policy_whitelisted after out st client domain normal include_evidence force
        (unlisted s after.whitelist client d ∙ free) listed in
    (p, cache, ap (λ r. is_malicious r.verdict) result ∙ whitelist_result-verdict d, same, state)
