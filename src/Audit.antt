-- ===== src/Audit.antt =====
-- The audit task of internal/agent/audit.go: suspicious domains that clients ask for often are
-- inspected, and blocked by a global override where they turn out to be malicious. Events stand
-- without their details, and `describe` is the text of the reason, which holds formatted floats.
pub mod Kept
pub mod Decided
use safe_road.Base.{
  ℕ, zero, suc, ◌+◌, Bool, true, false, not, ◌&&◌, ◌||◌, Option, none, some, List, [], ◌∷◌, ◌++◌,
  min, max, ltb, leb, ◌==◌, if◌then◌else◌, Text, text_eq, codes, Assoc, delete,
}
use safe_road.Whitelist.{Outcome, done, failed}
use safe_road.Overrides.{Store, get_override, upsert_override}
use safe_road.Verdict.{
  AnalysisResult, suspicious, malicious, certain, is_malicious, is_suspicious, verdict_of_score,
  confidence_of_score,
}
use safe_road.Service.{Cache, Outside, works}
use safe_road.Telemetry.{Telemetry, query_suspicious_domains}

-- A confidence counts 1/3000.
pub record AuditConfig : Type 0 where
  pub min_occurrences : ℕ
  pub max_per_cycle : ℕ
  pub confidence_threshold : ℕ

abbrev pub or_else_default : ℕ → ℕ → ℕ
or_else_default n d = if n == 0 then d else n

-- NewAuditTask
unfoldable pub new_audit_config : AuditConfig → AuditConfig
new_audit_config c = record {
  min_occurrences = or_else_default c.min_occurrences 3;
  max_per_cycle = or_else_default c.max_per_cycle 50;
  confidence_threshold = or_else_default c.confidence_threshold 2100;
}

pub data EventType : Type 0 where
  audit_completed auto_block reviewed_event feed_error feed_synced feed_parser_drift
        feedsync_completed alert_sent alert_failed :
      EventType

pub record AgentEvent : Type 0 where
  pub event_type : EventType
  pub domain : Text
  pub created_at : ℕ

-- `cache` is `none` where Redis is nil; `last_audit` starts the next window.
pub record AuditState : Type 0 where
  pub store : Store
  pub telemetry : Telemetry
  pub cache : Option Cache
  pub events : List AgentEvent
  pub last_audit : ℕ

-- `ai` is whether the client is enabled; its opinion and the findings are those of `outside`.
pub record AuditTask : Type 0 where
  pub config : AuditConfig
  pub outside : Outside
  pub ai : Bool
  pub describe : ℕ → ℕ → Text

-- An error of the INSERT is ignored.
unfoldable pub record_agent_event : ℕ → EventType → Text → AuditState → AuditState
record_agent_event now kind domain st =
    if st.store.answers
    then record st {
      events = st.events ++ record { event_type = kind; domain = domain; created_at = now } ∷ [];
    }
    else st

-- `t.redis.Delete` of the analysis of the domain
unfoldable pub invalidate : Text → AuditState → AuditState
invalidate domain st = elim st.cache [
  | none ↦ st
  | some c ↦
      if works c
      then record st { cache = some (record c { entries = delete domain c.entries }) }
      else st
]

pub data Decision : Type 0 where
  blocked skipped reviewed : Decision

-- TLS and WHOIS together.
unfoldable pub enriched : AuditTask → Text → AnalysisResult
enriched t domain =
    let tls = t.outside.inspect domain in
    let registered = t.outside.whois domain in
    let score = tls.score + registered.score in
    record {
      domain = domain;
      verdict = verdict_of_score score;
      confidence = confidence_of_score score;
      score = score;
      reasons = tls.reasons ++ registered.reasons;
      category = [];
    }

-- Only an opinion that the domain is malicious counts.
abbrev pub raise : AnalysisResult → Option AnalysisResult → AnalysisResult
raise r none = r
raise r (some o) =
    if is_malicious o.verdict
    then record r {
      verdict = malicious;
      score = max r.score o.score;
      confidence = max r.confidence o.confidence;
      reasons = r.reasons ++ o.reasons;
    }
    else r

unfoldable pub judged : AuditTask → Text → AnalysisResult
judged t domain =
    let r = enriched t domain in
    let r' = if t.ai && is_suspicious r.verdict then raise r (t.outside.refine r) else r in
    record r' { score = min 100 r'.score }

abbrev pub noted : AuditState → ℕ → Text → Store × Bool → AuditState × Option Decision
noted st now domain (store, false) = (record st { store = store }, none)
noted st now domain (store, true) = (
  record_agent_event now auto_block domain (invalidate domain (record st { store = store })),
  some blocked,
)

-- The state, and the decision or an error.
unfoldable pub block_domain :
    AuditTask → AuditState → ℕ → Text → AnalysisResult → AuditState × Option Decision
block_domain t st now domain r =
    noted st now domain
      (upsert_override st.store domain (codes "block") (t.describe r.score r.confidence))

unfoldable pub decide : AuditTask → AuditState → ℕ → Text → AuditState × Option Decision
decide t st now domain =
    let r = judged t domain in
    if is_malicious r.verdict && leb t.config.confidence_threshold r.confidence
    then block_domain t st now domain r
    else (record_agent_event now reviewed_event domain st, some reviewed)

-- A domain with a global override, its own or one of a parent, is skipped.
unfoldable pub audit_domain : AuditTask → AuditState → ℕ → Text → AuditState × Option Decision
audit_domain t st now domain = elim (get_override st.store domain) [
  | failed ↦ (st, none)
  | done (some o) ↦ (st, some skipped)
  | done none ↦ decide t st now domain
]

pub record AuditResult : Type 0 where
  pub audited : ℕ
  pub auto_blocked : ℕ
  pub skipped_count : ℕ
  pub errors : ℕ

abbrev pub count_decision : AuditResult → Option Decision → AuditResult
count_decision r none = record r { errors = suc r.errors }
count_decision r (some blocked) = record r {
  audited = suc r.audited;
  auto_blocked = suc r.auto_blocked;
}
count_decision r (some skipped) = record r {
  audited = suc r.audited;
  skipped_count = suc r.skipped_count;
}
count_decision r (some reviewed) = record r { audited = suc r.audited }

-- The context ends after `budget` domains; the result is `none` then.
unfoldable pub audit_all :
    AuditTask → AuditState → ℕ → ℕ → AuditResult → List (Text × ℕ) → AuditState × Option AuditResult
audit_all t st now budget r [] = (st, some r)
audit_all t st now zero r (row ∷ rows) = (st, none)
audit_all t st now (suc budget) r (row ∷ rows) =
    let (st', decision) = audit_domain t st now row.0 in
    audit_all t st' now budget (count_decision r decision) rows

abbrev pub no_result : AuditResult
no_result = record { audited = 0; auto_blocked = 0; skipped_count = 0; errors = 0 }

abbrev pub finish_audit : ℕ → AuditState × Option AuditResult → AuditState × Bool
finish_audit now (st, none) = (st, false)
finish_audit now (st, some r) = (record_agent_event now audit_completed [] st, true)

-- `Run` with a store: the window moves before it is queried.
unfoldable pub run_audit : AuditTask → AuditState → ℕ → ℕ → AuditState × Bool
run_audit t st now budget =
    let st' = record st { last_audit = now } in
    elim (query_suspicious_domains st.telemetry st.last_audit t.config.min_occurrences
      t.config.max_per_cycle) [
        | none ↦ (st', false)
        | some [] ↦ (st', true)
        | some (row ∷ rows) ↦ finish_audit now (audit_all t st' now budget no_result (row ∷ rows))
      ]
