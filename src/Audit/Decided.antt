-- ===== src/Audit/Decided.antt =====
-- What a block by the audit of internal/agent/audit.go means for `Policy` of
-- internal/risk/service.go.
use safe_road.Base.{ℕ, ◌≡◌, none, some, Text, lookup-insert_self, inl, inr, false}
use safe_road.Strings.{trim_space}
use safe_road.Domain.{Platform, ok, normalize_domain, to_lower}
use safe_road.Whitelist.{done}
use safe_road.Overrides.{block, get_effective_override, find_row}
use safe_road.Overrides.Search.{own_first}
use safe_road.Service.{Outside}
use safe_road.Service.Policy.{Service, State, ClientInfo, group_for, policy}
use safe_road.Service.Policy.Order.{policy_override}
use safe_road.Service.Policy.Written.{reading, over}
use safe_road.Audit.{AuditTask, AuditState, blocked, audit_domain}
use safe_road.Audit.Kept.{block_override, with_block, store-audit_domain}

-- A block is the override that applies in every group without its own for the domain.
pub effective_block :
    (platform : Platform) (t : AuditTask) (st : AuditState) (now g : ℕ) (d : Text)
    → (audit_domain t st now d).1 ≡ some blocked
    → trim_space (to_lower platform d) ≡ d
    → find_row g d st.store.group_overrides ≡ none
    → get_effective_override platform (audit_domain t st now d).0.store g d
      ≡ done (some (block_override t d))
effective_block platform t st now g d b stable row = elim (store-audit_domain t st now d) [
  | inr (same, other) ↦ absurd (other b)
  | inl (same, b', on, free) ↦ rw same (
      own_first platform (with_block t d st.store) g d (block_override t d) on stable
        (rw (row, lookup-insert_self)))
]

-- After the audit has blocked a domain in normal form, `Policy` blocks it for every client whose
-- group has no override of its own for it, whatever the whitelist, the cache and other servers say,
-- and leaves the cache as it is.
pub policy-audit_domain :
    (s : Service) (out : Outside) (pst : State) (client : ClientInfo) (domain : Text)
    (t : AuditTask) (st : AuditState) (now : ℕ) {d : Text}
    → (audit_domain t st now d).1 ≡ some blocked
    → normalize_domain s.platform domain ≡ ok d
    → trim_space (to_lower s.platform d) ≡ d
    → (let after = reading s (audit_domain t st now d).0.store in
        find_row (group_for after client).id d st.store.group_overrides ≡ none)
    → let p = policy (reading s (audit_domain t st now d).0.store) out pst domain client in
      (p.1.policy ≡ block) × (p.0.cache ≡ pst.cache)
policy-audit_domain s out pst client domain t st now {d} b normal stable row =
    let after = reading s (audit_domain t st now d).0.store in
    let g = (group_for after client).id in
    let e = effective_block s.platform t st now g d b stable row in
    let found = over s (audit_domain t st now d).0.store g d e in
    let (p, r, c, r2, st2) =
      policy_override after out pst client domain normal (block_override t d) false false found in
    (p, c)
