-- ===== src/Service/Policy.antt =====
-- The handlers `Policy` and `AnalyzeWithOptions` of internal/risk/service.go, with the telemetry
-- entries that they record.
pub mod Order
pub mod Strict
pub mod Protected
pub mod Written
use safe_road.Base.{
  ℕ, zero, suc, ◌+◌, Bool, true, false, not, ◌&&◌, ◌||◌, Option, none, some, List, [], ◌∷◌, ◌++◌,
  min, max, ltb, leb, ◌==◌, if◌then◌else◌, Text, text_eq, codes, any, Assoc, insert,
}
use safe_road.Strings.{trim_space, contains, has_prefix}
use safe_road.Domain.{Platform, ok, err, normalize_domain, to_lower}
use safe_road.Whitelist.{Outcome, done, failed, Whitelist, is_allowed}
use safe_road.Overrides.{
  Action, allow, block, Override, ClientGroup, Store, get_group_for_client, get_effective_override,
}
use safe_road.Verdict.{Verdict, safe, malicious, AnalysisResult, certain, is_malicious}
use safe_road.Service.{
  Cache, Outside, Settings, Assessed, LookupMode, cached_only, on_demand, assess,
  threat_feed_reason,
}

pub record ClientInfo : Type 0 where
  pub ip : Text
  pub client_id : Text

pub record PolicyResult : Type 0 where
  pub domain : Text
  pub policy : Action
  pub result : AnalysisResult
  pub cache_hit : Bool

pub data Source : Type 0 where
  from_cache from_override from_whitelist from_feed from_lexical : Source

pub record TelemetryEntry : Type 0 where
  pub result : AnalysisResult
  pub cache_hit : Bool
  pub source : Source
  pub client : ClientInfo

unfoldable pub source_of_reasons : List Text → Source
source_of_reasons [] = from_lexical
source_of_reasons (r ∷ rs) =
    if has_prefix r (codes "admin override")
    then from_override
    else if text_eq r (codes "whitelisted")
    then from_whitelist
    else if text_eq r threat_feed_reason
    then from_feed
    else source_of_reasons rs

unfoldable pub infer_source : AnalysisResult → Bool → Source
unfolding source_of_reasons
infer_source r cache_hit = if cache_hit then from_cache else source_of_reasons r.reasons

-- What the service keeps, and what it has.
pub record State : Type 0 where
  pub cache : Cache
  pub osint_evidence : Assoc (List Text)
  pub telemetry : List TelemetryEntry

-- `store` is `none` where it is nil or not enabled; `classify` is ClassifyCategory.
pub record Service : Type 0 where
  pub platform : Platform
  pub analyzer : Text → AnalysisResult
  pub classify : Text → Text
  pub in_range : Text → Text → Bool
  pub settings : Settings
  pub whitelist : Whitelist
  pub store : Option Store

abbrev pub default_group : ClientGroup
default_group = record {
  id = 1;
  name = codes "default";
  block_categories = [];
  strict_phishing = false;
  strict_malware = true;
}

abbrev pub done_or {ℓ} : {A : Type ℓ} → A → Outcome A → A
done_or a failed = a
done_or a (done b) = b

unfoldable pub group_for : Service → ClientInfo → ClientGroup
group_for s client = elim s.store [
  | none ↦ default_group
  | some db ↦ done_or default_group (get_group_for_client s.in_range db client.ip client.client_id)
]

unfoldable pub override_for : Service → ℕ → Text → Option Override
override_for s group domain = elim s.store [
  | none ↦ none
  | some db ↦ done_or none (get_effective_override s.platform db group domain)
]

abbrev pub action_name : Action → Text
action_name allow = codes "allow"
action_name block = codes "block"

abbrev pub override_reason : Override → Text
override_reason o =
    if text_eq o.reason []
    then codes "admin override: " ++ action_name o.action
    else codes "admin override: " ++ action_name o.action ++ codes " (" ++ o.reason ++ codes ")"

abbrev pub is_block : Action → Bool
is_block allow = false
is_block block = true

unfoldable pub override_result : Service → Text → Override → AnalysisResult
override_result s domain o = record {
  domain = domain;
  verdict = if is_block o.action then malicious else safe;
  confidence = certain;
  score = if is_block o.action then 100 else 0;
  reasons = override_reason o ∷ [];
  category = s.classify domain;
}

unfoldable pub whitelist_result : Text → AnalysisResult
whitelist_result domain = record {
  domain = domain;
  verdict = safe;
  confidence = certain;
  score = 0;
  reasons = codes "whitelisted" ∷ [];
  category = codes "uncategorized";
}

unfoldable pub mentions_phishing : Platform → List Text → Bool
mentions_phishing platform reasons =
    any (λ r. contains (to_lower platform r) (codes "phishing")) reasons

unfoldable pub blocks_category : Platform → List Text → Text → Bool
blocks_category platform cats category =
    not (text_eq category [])
    && not (text_eq category (codes "uncategorized"))
    && any (λ c. text_eq (to_lower platform (trim_space c)) (to_lower platform category)) cats

-- The dynamic enforcement of `Policy`.
unfoldable pub enforce : Platform → ClientGroup → AnalysisResult → Action
unfolding mentions_phishing blocks_category
enforce platform g r =
    let phishing = mentions_phishing platform r.reasons || text_eq r.category (codes "phishing") in
    if (is_malicious r.verdict && g.strict_malware)
      || (g.strict_phishing && leb 40 r.score && phishing)
      || blocks_category platform g.block_categories r.category
    then block
    else allow

unfoldable pub record_telemetry : Service → State → AnalysisResult → Bool → ClientInfo → State
record_telemetry s st r cache_hit client = elim s.store [
  | none ↦ st
  | some db ↦ record st {
    telemetry =
        record {
          result = r;
          cache_hit = cache_hit;
          source = infer_source r cache_hit;
          client = client;
        }
        ∷ st.telemetry;
  }
]

-- A decision that needs no assessment.
abbrev pub settled :
    Service → State → ClientInfo → Text → Action → AnalysisResult → State × PolicyResult
settled s st client domain a r = (
  record_telemetry s st r false client,
  record { domain = domain; policy = a; result = r; cache_hit = false },
)

unfoldable pub policy_assessed :
    Service → Outside → State → ClientInfo → ClientGroup → Text → State × PolicyResult
policy_assessed s out st client g domain =
    let a = assess s.platform s.analyzer out s.settings st.cache domain cached_only false in
    (
      record_telemetry s (record st { cache = a.cache }) a.result a.cache_hit client,
      record {
        domain = a.result.domain;
        policy = enforce s.platform g a.result;
        result = a.result;
        cache_hit = a.cache_hit;
      },
    )

unfoldable pub policy_normalized :
    Service → Outside → State → ClientInfo → Text → State × PolicyResult
policy_normalized s out st client domain =
    let g = group_for s client in
    elim (override_for s g.id domain) [
      | some o ↦ settled s st client domain o.action (override_result s domain o)
      | none ↦
          if is_allowed s.whitelist domain
          then settled s st client domain allow (whitelist_result domain)
          else policy_assessed s out st client g domain
    ]

-- `Policy`
unfoldable pub policy : Service → Outside → State → Text → ClientInfo → State × PolicyResult
policy s out st domain client = elim (normalize_domain s.platform domain) [
  | err e ↦ (
    st,
    record { domain = domain; policy = block; result = s.analyzer domain; cache_hit = false },
  )
  | ok d ↦ policy_normalized s out st client d
]

pub record Analysis : Type 0 where
  pub result : AnalysisResult
  pub cache_hit : Bool
  pub evidence : List Text

abbrev pub analysis_of : Assessed → Bool → Analysis
analysis_of a include_evidence = record {
  result = a.result;
  cache_hit = a.cache_hit;
  evidence = if include_evidence then a.evidence else [];
}

abbrev pub settled_analysis : AnalysisResult → Analysis
settled_analysis r = record { result = r; cache_hit = false; evidence = [] }

abbrev pub recorded : Service → State → ClientInfo → Analysis → State × Analysis
recorded s st client a = (record_telemetry s st a.result a.cache_hit client, a)

-- The stored evidence of a domain is replaced by what a lookup finds, if it finds some.
abbrev pub record_osint_evidence : Service → State → Text → List Text → State
record_osint_evidence s st domain [] = st
record_osint_evidence s st domain (e ∷ es) = elim s.store [
  | none ↦ st
  | some db ↦ record st { osint_evidence = insert domain (e ∷ es) st.osint_evidence }
]

unfoldable pub analyze_assessed :
    Service → Outside → State → ClientInfo → Text → Bool → Bool → State × Analysis
analyze_assessed s out st client domain include_evidence force =
    let a = assess s.platform s.analyzer out s.settings st.cache domain on_demand force in
    let st' = record_osint_evidence s (record st { cache = a.cache }) a.domain a.evidence in
    recorded s st' client (analysis_of a include_evidence)

-- `AnalyzeWithOptions`
unfoldable pub analyze_with_options :
    Service → Outside → State → Text → ClientInfo → Bool → Bool → State × Analysis
analyze_with_options s out st domain client include_evidence force =
    elim (normalize_domain s.platform domain) [
      | err e ↦ recorded s st client (settled_analysis (s.analyzer domain))
      | ok d ↦ elim (override_for s (group_for s client).id d) [
        | some o ↦ recorded s st client (settled_analysis (override_result s d o))
        | none ↦
            if is_allowed s.whitelist d
            then recorded s st client (settled_analysis (whitelist_result d))
            else analyze_assessed s out st client d include_evidence force
      ]
    ]
