-- ===== src/Audit/Kept.antt =====
-- What the audit of internal/agent/audit.go leaves in the tables of overrides.
use safe_road.Base.{
  ℕ, zero, suc, ◌≡◌, refl, arith, ◌∙◌, ap, sym, Bool, true, false, ◌&&◌, Option, none, some, List,
  [], ◌∷◌, leb, if◌then◌else◌, Text, text_eq, text_eq_sound, codes, lookup, insert, lookup-insert,
  inl, inr, ◌⊎◌, Bool-cases, Option-cases, ◌≢◌,
}
use safe_road.Strings.Split.{suffixes-first}
use safe_road.Whitelist.{Outcome, done, failed}
use safe_road.Overrides.{Override, Store, block, get_override, search_local, upsert_override}
use safe_road.Verdict.{is_malicious}
use safe_road.Telemetry.{query_suspicious_domains}
use safe_road.Audit.{
  AuditTask, AuditState, AuditResult, blocked, EventType, auto_block, reviewed_event,
  audit_completed, record_agent_event, invalidate, judged, block_domain, decide, audit_domain,
  audit_all, run_audit, count_decision, finish_audit, no_result,
}

-- The override that a block writes.
abbrev pub block_override : AuditTask → Text → Override
block_override t d =
    let r = judged t d in
    record { domain = d; action = block; reason = t.describe r.score r.confidence }

abbrev pub with_block : AuditTask → Text → Store → Store
with_block t d s = record s { local_overrides = insert d (block_override t d) s.local_overrides }

store-record_agent_event :
    (now : ℕ) (kind : EventType) (d : Text) (st : AuditState)
    → (record_agent_event now kind d st).store ≡ st.store
unfolding record_agent_event
store-record_agent_event now kind d st = ground arith

store-invalidate : (d : Text) (st : AuditState) → (invalidate d st).store ≡ st.store
unfolding invalidate
store-invalidate d st = elim (Option-cases st.cache) [
  | inl h ↦ rw (h, invalidate) refl
  | inr (c, h) ↦ rw (h, invalidate) (ground arith)
]

upserted_block :
    (s : Store) (d reason : Text)
    → upsert_override s d (codes "block") reason ≡ (
        if s.answers
        then (
          record s {
            local_overrides =
                insert d (record { domain = d; action = block; reason = reason }) s.local_overrides;
          },
          true,
        )
        else (s, false))
unfolding upsert_override text_eq
upserted_block s d reason = refl

store-block_domain :
    (t : AuditTask) (st : AuditState) (now : ℕ) (d : Text)
    → let p = block_domain t st now d (judged t d) in
      ((p.0.store ≡ with_block t d st.store) × (p.1 ≡ some blocked) × (st.store.answers ≡ true))
      ⊎ ((p.0.store ≡ st.store) × (p.1 ≡ none))
unfolding block_domain
store-block_domain t st now d =
    let r = judged t d in
    let e = upserted_block st.store d (t.describe r.score r.confidence) in
    let after : Bool → Store × Bool =
      λ b. if b then (with_block t d st.store, true) else (st.store, false) in
    elim (Bool-cases st.store.answers) [
      | inl h ↦
          let st' : AuditState = record st { store = with_block t d st.store } in
          inl (
            rw (e ∙ ap after h, block_domain)
              (
                store-record_agent_event now auto_block d (invalidate d st')
                    ∙ store-invalidate d st',
                refl,
                h,
              ))
      | inr h ↦ inr (rw (e ∙ ap after h, block_domain) (refl, refl))
    ]

data OutcomeView {A : Type 0} (o : Outcome A) : Type 0 where
  failed_so : o ≡ failed → OutcomeView o
  is_done : (a : A) → o ≡ done a → OutcomeView o

Outcome-cases : {A : Type 0} (o : Outcome A) → OutcomeView o
Outcome-cases failed = failed_so refl
Outcome-cases (done a) = is_done a refl

-- What an audit of one domain does to the tables.
pub store-audit_domain :
    (t : AuditTask) (st : AuditState) (now : ℕ) (d : Text)
    → let p = audit_domain t st now d in
      ((p.0.store ≡ with_block t d st.store)
        × (p.1 ≡ some blocked)
        × (st.store.answers ≡ true)
        × (get_override st.store d ≡ done none))
      ⊎ ((p.0.store ≡ st.store) × (p.1 ≢ some blocked))
unfolding audit_domain decide
store-audit_domain t st now d = elim (Outcome-cases (get_override st.store d)) [
  | failed_so h ↦ inr (rw (h, audit_domain) (refl, λ e. cc))
  | is_done none h ↦
      let r = judged t d in
      elim (Bool-cases (is_malicious r.verdict && leb t.config.confidence_threshold r.confidence)) [
        | inr k ↦ inr (
            rw (h, audit_domain)
              (rw (k, decide) (store-record_agent_event now reviewed_event d st, λ e. cc)))
        | inl k ↦ elim (store-block_domain t st now d) [
          | inl (same, yes', on) ↦
              inl (rw (h, audit_domain) (rw (k, decide) (same, yes', on, refl)))
          | inr (same, not_so) ↦ inr (rw (h, audit_domain) (rw (k, decide) (same, λ e. cc)))
        ]
      ]
  | is_done (some o) h ↦ inr (rw (h, audit_domain) (refl, λ e. cc))
]

search_local-none :
    (s : Store) (c : Text) (cs : List Text)
    → s.answers ≡ true
    → search_local s (c ∷ cs) ≡ done none
    → lookup c s.local_overrides ≡ none
unfolding search_local
search_local-none s c cs on h = ground (arith, on, h)

get_override-none :
    (s : Store) (d : Text)
    → s.answers ≡ true
    → get_override s d ≡ done none
    → lookup d s.local_overrides ≡ none
unfolding get_override
get_override-none s d on h =
    let (ts, q) = suffixes-first d b'.' in
    search_local-none s d ts on (sym (ap (search_local s) q) ∙ h)

-- A row that stands before an audit of a domain stands after it.
row_kept :
    (t : AuditTask) (st : AuditState) (now : ℕ) (d x : Text) {o : Override}
    → lookup x st.store.local_overrides ≡ some o
    → let s' = (audit_domain t st now d).0.store in
      (lookup x s'.local_overrides ≡ some o) × (s'.group_overrides ≡ st.store.group_overrides)
row_kept t st now d x {o} e = elim (store-audit_domain t st now d) [
  | inr (same, other) ↦ rw same (e, refl)
  | inl (same, b, on, free) ↦
      let gone = get_override-none st.store d on free in
      rw same (
        lookup-insert d x (block_override t d) st.store.local_overrides
            ∙ elim (Bool-cases (text_eq d x)) [
              | inr n ↦ rw n e
              | inl y ↦
                  let clash : lookup x st.store.local_overrides ≡ none =
                    ap (λ k. lookup k st.store.local_overrides) (sym (text_eq_sound d x y))
                    ∙ gone in
                  cc
            ],
        refl,
      )
]

-- The tables keep a row and all rows of groups.
abbrev pub Keeps : Store → Store → Text → Override → Type 0
Keeps s s' x o = (lookup x s'.local_overrides ≡ some o) × (s'.group_overrides ≡ s.group_overrides)

audit_all-Keeps :
    (t : AuditTask) (st : AuditState) (now budget : ℕ) (r : AuditResult) (rows : List (Text × ℕ))
    (x : Text) {o : Override}
    → lookup x st.store.local_overrides ≡ some o
    → Keeps st.store (audit_all t st now budget r rows).0.store x o
unfolding audit_all
audit_all-Keeps t st now budget r [] x e = (e, refl)
audit_all-Keeps t st now zero r (row ∷ rows) x e = (e, refl)
audit_all-Keeps t st now (suc budget) r (row ∷ rows) x e =
    let (kept, same) = row_kept t st now row.0 x e in
    let (st', decision) = audit_domain t st now row.0 in
    let (ih, same') = audit_all-Keeps t st' now budget (count_decision r decision) rows x kept in
    (ih, same' ∙ same)

store-finish_audit :
    (now : ℕ) (st : AuditState) (r : Option AuditResult)
    → (finish_audit now (st, r)).0.store ≡ st.store
store-finish_audit now st none = refl
store-finish_audit now st (some r) = store-record_agent_event now audit_completed [] st

-- A run of the audit, whatever it finds and wherever its context ends, changes or removes no global
-- override that stands when it begins, and no override of a group.
pub run_audit-Keeps :
    (t : AuditTask) (st : AuditState) (now budget : ℕ) (x : Text) {o : Override}
    → lookup x st.store.local_overrides ≡ some o
    → Keeps st.store (run_audit t st now budget).0.store x o
unfolding run_audit
run_audit-Keeps t st now budget x {o} e =
    elim (Option-cases (
      query_suspicious_domains st.telemetry st.last_audit t.config.min_occurrences
        t.config.max_per_cycle)) [
          | inl h ↦ rw (h, run_audit) (e, refl)
          | inr ([], h) ↦ rw (h, run_audit) (e, refl)
          | inr (row ∷ rows, h) ↦
              let st' : AuditState = record st { last_audit = now } in
              let (st'', r) = audit_all t st' now budget no_result (row ∷ rows) in
              let (kept, same) = audit_all-Keeps t st' now budget no_result (row ∷ rows) x e in
              let end = store-finish_audit now st'' r in
              rw (h, run_audit)
                (
                  ap (λ s. lookup x s.local_overrides) end ∙ kept,
                  ap (λ s. s.group_overrides) end ∙ same,
                )
        ]
