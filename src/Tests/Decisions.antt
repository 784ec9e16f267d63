-- ===== src/Tests/Decisions.antt =====
-- internal/risk: a service with a threat feed, a whitelist and an override, asked for decisions.
use safe_road.Base.{
  ℕ, ◌≤◌, Bool, true, false, Option, some, none, List, [], ◌∷◌, ◌≡◌, ◌↔◌, refl, Text, codes,
  text_eq,
}
use safe_road.Domain.{ok, normalize_domain}
use safe_road.Whitelist.{Whitelist, is_allowed}
use safe_road.Overrides.{Action, allow, block, Override, ClientGroup, Store}
use safe_road.Verdict.{AnalysisResult, suspicious, malicious}
use safe_road.Service.{
  Cache, Settings, Outside, Finding, cached_only, on_demand, cached_result, current_feed_revision,
  write_entry, match_threat_feed, judge, assess, assess_fresh, works,
}
use safe_road.Service.Cached.{assess_twice, cached_result-new_revision}
use safe_road.Service.Policy.{
  Service, State, ClientInfo, default_group, group_for, override_for, policy,
}
use safe_road.Service.Policy.Order.{policy_feed}
use safe_road.Service.Policy.Strict.{IsStricter}
use safe_road.Lexical.{Measures, default_analysis_config, analyze}
use safe_road.Tests.{ascii}

abbrev pub lexical : Text → AnalysisResult
lexical d = record {
  domain = d;
  verdict = suspicious;
  confidence = 2475;
  score = 45;
  reasons = [];
  category = codes "uncategorized";
}

abbrev pub nothing_found : Finding
nothing_found = record { score = 0; reasons = [] }

abbrev pub quiet : Outside
quiet = record {
  inspect = λ d. record { score = 30; reasons = codes "certificate expired" ∷ [] };
  whois = λ d. nothing_found;
  refine = λ r. none;
  cached_report = λ d. none;
  lookup_report = λ d force. record { should_block = false; evidence = [] };
}

abbrev pub settings : Settings
settings = record {
  ttl_allowed = 86400;
  ttl_suspicious = 3600;
  ttl_blocked = 604800;
  feed_revision_key = codes "feed:rev";
  enrich = true;
  ai = false;
  osint = false;
}

abbrev pub redis : Cache
redis = record {
  enabled = true;
  answers = true;
  entries = [];
  revision = codes "7";
  feed = codes "evil.vn" ∷ [];
}

abbrev pub local_list : Whitelist
local_list = record { bloom = none; db = none; allowed = codes "vtv.vn" ∷ [] }

abbrev shop_allowed : Override
shop_allowed = record { domain = codes "shop.vn"; action = allow; reason = [] }

abbrev pub db : Store
db = record {
  answers = true;
  groups = default_group ∷ [];
  client_ids = [];
  ips = [];
  cidrs = [];
  local_overrides = (codes "shop.vn", shop_allowed) ∷ [];
  group_overrides = [];
}

abbrev pub service : Service
service = record {
  platform = ascii;
  analyzer = lexical;
  classify = λ d. codes "shopping";
  in_range = λ range ip. false;
  settings = settings;
  whitelist = local_list;
  store = some db;
}

abbrev pub fresh : State
fresh = record { cache = redis; osint_evidence = []; telemetry = [] }

abbrev pub laptop : ClientInfo
laptop = record { ip = codes "10.0.0.9"; client_id = [] }

pub evil_normal : normalize_domain ascii (codes "a.evil.vn") ≡ ok (codes "a.evil.vn")
unfolding normalize_domain safe_road.Strings.trim_space safe_road.Domain.to_lower
    safe_road.Domain.host_of_url safe_road.Strings.contains safe_road.Domain.check_runes
    safe_road.Strings.trim_suffix_rune safe_road.Domain.drop_port safe_road.Strings.count_rune
evil_normal = refl

pub evil_matches : match_threat_feed redis (codes "a.evil.vn") ≡ true
unfolding match_threat_feed safe_road.Service.threat_feed_candidates safe_road.Strings.suffixes
    safe_road.Strings.split text_eq
evil_matches = refl

pub evil_uncached :
    cached_result redis (current_feed_revision settings redis) (codes "a.evil.vn") ≡ none
unfolding cached_result safe_road.Base.lookup
evil_uncached = refl

assess_twice_example :
    let first = assess ascii lexical quiet settings redis (codes "a.evil.vn") on_demand false in
    let second =
      assess ascii lexical quiet settings first.cache (codes "a.evil.vn") on_demand false in
    (first.cache_hit ≡ false) × (second.cache_hit ≡ true) × (second.result ≡ first.result)
unfolding judge text_eq safe_road.Service.feed_result match_threat_feed
    safe_road.Service.threat_feed_candidates safe_road.Strings.suffixes safe_road.Strings.split
    safe_road.Service.enrich_suspicious safe_road.Service.refine_with_ai
assess_twice_example =
    assess_twice ascii lexical quiet settings redis (codes "a.evil.vn") on_demand false refl refl
      evil_normal evil_uncached refl

cached_result-new_revision_example :
    let c' =
      record (write_entry settings redis
        (codes "7")
        (codes "shop.vn")
        (lexical (codes "shop.vn"))) { revision = codes "8" } in
    cached_result c' (current_feed_revision settings c') (codes "shop.vn") ≡ none
unfolding text_eq
cached_result-new_revision_example =
    cached_result-new_revision settings redis (codes "7") (codes "8") (codes "shop.vn")
      (lexical (codes "shop.vn")) refl refl refl refl

pub shop_normal : normalize_domain ascii (codes "pay.shop.vn") ≡ ok (codes "pay.shop.vn")
unfolding normalize_domain safe_road.Strings.trim_space safe_road.Domain.to_lower
    safe_road.Domain.host_of_url safe_road.Strings.contains safe_road.Domain.check_runes
    safe_road.Strings.trim_suffix_rune safe_road.Domain.drop_port safe_road.Strings.count_rune
shop_normal = refl

pub vtv_normal : normalize_domain ascii (codes "vtv.vn") ≡ ok (codes "vtv.vn")
unfolding normalize_domain safe_road.Strings.trim_space safe_road.Domain.to_lower
    safe_road.Domain.host_of_url safe_road.Strings.contains safe_road.Domain.check_runes
    safe_road.Strings.trim_suffix_rune safe_road.Domain.drop_port safe_road.Strings.count_rune
vtv_normal = refl

pub evil_free : override_for service (group_for service laptop).id (codes "a.evil.vn") ≡ none
unfolding override_for group_for safe_road.Overrides.get_group_for_client
    safe_road.Overrides.get_effective_override safe_road.Overrides.search_overrides
    safe_road.Overrides.find_row safe_road.Strings.suffixes safe_road.Strings.split
    safe_road.Strings.trim_space safe_road.Domain.to_lower safe_road.Base.lookup text_eq
    safe_road.Overrides.first_range safe_road.Overrides.get_group_by_name
    safe_road.Overrides.find_group
evil_free = refl

pub evil_listed : is_allowed local_list (codes "a.evil.vn") ≡ false
unfolding is_allowed safe_road.Strings.suffixes safe_road.Strings.split text_eq
evil_listed = refl

pub evil_strict : (group_for service laptop).strict_malware ≡ true
unfolding group_for safe_road.Overrides.get_group_for_client safe_road.Strings.trim_space
    safe_road.Base.lookup text_eq safe_road.Overrides.first_range
    safe_road.Overrides.get_group_by_name safe_road.Overrides.find_group
evil_strict = refl

policy_feed_example : (policy service quiet fresh (codes "a.evil.vn") laptop).1.policy ≡ block
policy_feed_example =
    policy_feed service quiet fresh laptop (codes "a.evil.vn") evil_normal evil_free evil_listed
      evil_normal evil_uncached evil_matches evil_strict

abbrev pub careful : ClientGroup
careful = record {
  id = 2;
  name = codes "kids";
  block_categories = codes "gambling" ∷ [];
  strict_phishing = true;
  strict_malware = true;
}

pub careful-IsStricter : IsStricter default_group careful
careful-IsStricter = record { malware = λ e. e; phishing = λ e. cc; categories = λ f e. cc }

abbrev condemned : AnalysisResult
condemned = record (lexical (codes "evil.vn")) { verdict = malicious }

abbrev measures : Measures
measures = record {
  is_digit_wide = λ c. false;
  to_unicode = λ s. none;
  entropy_exceeds = λ s. false;
}

abbrev lexical_service : Service
lexical_service = record service { analyzer = analyze ascii measures default_analysis_config }

abbrev portal : Text
portal = codes "dichvucong-online.vn"
