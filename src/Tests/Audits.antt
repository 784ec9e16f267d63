-- ===== src/Tests/Audits.antt =====
-- internal/agent: an audit that blocks `bad.shop.vn`, whose parent an override of a group allows.
use safe_road.Base.{
  ℕ, Bool, true, false, Option, some, none, List, [], ◌∷◌, ◌≡◌, refl, arith, Text, codes, lookup,
}
use safe_road.Whitelist.{done}
use safe_road.Overrides.{Action, allow, block, Override, Store, get_effective_override, find_row}
use safe_road.Strings.{trim_space}
use safe_road.Domain.{ok, normalize_domain, to_lower}
use safe_road.Service.{Finding}
use safe_road.Service.Policy.{policy}
use safe_road.Audit.{AuditConfig, AuditState, AuditTask, blocked, audit_domain, run_audit}
use safe_road.Audit.Kept.{Keeps, run_audit-Keeps}
use safe_road.Audit.Decided.{policy-audit_domain}
use safe_road.Service.Policy.Written.{reading}
use safe_road.Tests.{ascii}
use safe_road.Tests.Decisions.{service, db, redis, quiet, fresh, laptop}

abbrev bad : Text
bad = codes "bad.shop.vn"

abbrev family_allows : Override
family_allows = record { domain = codes "shop.vn"; action = allow; reason = [] }

abbrev news_blocked : Override
news_blocked = record { domain = codes "news.vn"; action = block; reason = [] }

abbrev family_store : Store
family_store = record db {
  local_overrides = (codes "news.vn", news_blocked) ∷ [];
  group_overrides = record { group_id = 2; override = family_allows } ∷ [];
}

abbrev audit : AuditState
audit = record {
  store = family_store;
  telemetry = record { queue = []; rows = []; answers = true };
  cache = some redis;
  events = [];
  last_audit = 0;
}

abbrev high : Finding
high = record { score = 75; reasons = codes "tls: certificate expired" ∷ [] }

abbrev task : AuditTask
task = record {
  config = record { min_occurrences = 3; max_per_cycle = 50; confidence_threshold = 2100 };
  outside = record quiet { inspect = λ d. high };
  ai = false;
  describe = λ score confidence. codes "agent: auto-block";
}

run_audit-Keeps_example :
    Keeps family_store (run_audit task audit 9 5).0.store (codes "news.vn") news_blocked
unfolding lookup safe_road.Base.text_eq
run_audit-Keeps_example = run_audit-Keeps task audit 9 5 (codes "news.vn") refl

bad_blocked : (audit_domain task audit 9 bad).1 ≡ some blocked
unfolding audit_domain safe_road.Overrides.get_override safe_road.Overrides.search_local
    safe_road.Strings.suffixes safe_road.Strings.split safe_road.Audit.decide safe_road.Audit.judged
    safe_road.Audit.enriched safe_road.Verdict.verdict_of_score
    safe_road.Verdict.confidence_of_score safe_road.Audit.block_domain
    safe_road.Overrides.upsert_override safe_road.Overrides.parse_action safe_road.Base.text_eq
    lookup
bad_blocked = refl

bad_allowed : get_effective_override ascii family_store 2 bad ≡ done (some family_allows)
unfolding get_effective_override safe_road.Overrides.search_overrides safe_road.Overrides.find_row
    safe_road.Strings.suffixes safe_road.Strings.split safe_road.Strings.trim_space
    safe_road.Domain.to_lower safe_road.Base.text_eq lookup
bad_allowed = refl

bad_normal : normalize_domain ascii bad ≡ ok bad
unfolding normalize_domain safe_road.Strings.trim_space safe_road.Domain.to_lower
    safe_road.Domain.host_of_url safe_road.Strings.contains safe_road.Domain.check_runes
    safe_road.Strings.trim_suffix_rune safe_road.Domain.drop_port safe_road.Strings.count_rune
bad_normal = refl

bad_stable : trim_space (to_lower ascii bad) ≡ bad
unfolding trim_space to_lower
bad_stable = refl

no_row : (g : ℕ) → find_row g bad family_store.group_overrides ≡ none
unfolding find_row safe_road.Base.text_eq
no_row g = ground arith

policy-audit_domain_example :
    let p =
      policy (reading service (audit_domain task audit 9 bad).0.store) quiet fresh bad laptop in
    (p.1.policy ≡ block) × (p.0.cache ≡ redis)
policy-audit_domain_example =
    policy-audit_domain service quiet fresh laptop bad task audit 9 bad_blocked bad_normal
      bad_stable (no_row _)
