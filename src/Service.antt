-- ===== src/Service.antt =====
-- The threat assessment of internal/risk/service.go: `analyze` with its cache, threat feed,
-- enrichment, AI and OSINT steps. Redis is its entries, and whether it is on and answers; what
-- other servers say is an argument.
pub mod Policy
pub mod Assess
pub mod Cached
pub mod Malicious
use safe_road.Base.{
  ℕ, zero, suc, ◌+◌, Bool, true, false, not, ◌&&◌, ◌||◌, Option, none, some, List, [], ◌∷◌, ◌++◌,
  min, max, ltb, leb, ◌==◌, if◌then◌else◌, Text, text_eq, codes, Assoc, lookup, insert, any,
}
use safe_road.Strings.{trim_space, split, suffixes, contains, has_suffix}
use safe_road.Osint.{Report, no_report, report_or_none, should_lookup, apply_report}
use safe_road.Domain.{Platform, ok, err, normalize_domain, to_lower}
use safe_road.Whitelist.{Outcome, done, failed}
use safe_road.Verdict.{
  Verdict, safe, suspicious, malicious, AnalysisResult, certain, verdict_of_score,
  confidence_of_score, is_malicious, is_suspicious,
}

pub record CacheEntry : Type 0 where
  pub result : AnalysisResult
  pub feed_revision : Text
  pub analysis_revision : Text
  pub ttl : ℕ

pub record Cache : Type 0 where
  pub enabled : Bool
  pub answers : Bool
  pub entries : Assoc CacheEntry
  pub revision : Text
  pub feed : List Text

-- Score and reasons of a TLS inspection or a WHOIS lookup.
pub record Finding : Type 0 where
  pub score : ℕ
  pub reasons : List Text

-- What answers beyond the program: `refine` is the AI's opinion, `none` an error, and the last two
-- are the cached OSINT report and that of a lookup, forced or not.
pub record Outside : Type 0 where
  pub inspect : Text → Finding
  pub whois : Text → Finding
  pub refine : AnalysisResult → Option AnalysisResult
  pub cached_report : Text → Option Report
  pub lookup_report : Text → Bool → Report

pub record Settings : Type 0 where
  pub ttl_allowed : ℕ
  pub ttl_suspicious : ℕ
  pub ttl_blocked : ℕ
  pub feed_revision_key : Text
  pub enrich : Bool
  pub ai : Bool
  pub osint : Bool

pub data LookupMode : Type 0 where
  lookup_none cached_only on_demand : LookupMode

abbrev pub analysis_algorithm_revision : Text
analysis_algorithm_revision = codes "2026-05-osint-v1"

abbrev pub threat_feed_reason : Text
threat_feed_reason = codes "matched local threat feed"

abbrev pub works : Cache → Bool
works c = c.enabled && c.answers

unfoldable pub ttl_for : Settings → Verdict → ℕ
ttl_for s malicious = s.ttl_blocked
ttl_for s suspicious = s.ttl_suspicious
ttl_for s _ = s.ttl_allowed

unfoldable pub current_feed_revision : Settings → Cache → Text
current_feed_revision s c =
    if text_eq s.feed_revision_key [] then [] else if works c then c.revision else []

unfoldable pub is_current : Text → CacheEntry → Bool
is_current revision e =
    not (text_eq e.result.domain [])
    && text_eq e.analysis_revision analysis_algorithm_revision
    && (text_eq revision [] || text_eq e.feed_revision revision)

abbrev pub keep_current : Text → Option CacheEntry → Option AnalysisResult
keep_current revision none = none
keep_current revision (some e) = if is_current revision e then some e.result else none

-- The entries are keyed by the domain: the keys of Redis have the same prefix before it.
unfoldable pub cached_result : Cache → Text → Text → Option AnalysisResult
cached_result c revision domain =
    if works c then keep_current revision (lookup domain c.entries) else none

unfoldable pub write_entry : Settings → Cache → Text → Text → AnalysisResult → Cache
write_entry s c revision domain result =
    if works c
    then record c {
      entries =
          insert domain
            (record {
              result = result;
              feed_revision = revision;
              analysis_revision = analysis_algorithm_revision;
              ttl = ttl_for s result.verdict;
            })
            c.entries;
    }
    else c

unfoldable pub drop_empty : List Text → List Text
drop_empty [] = []
drop_empty ([] ∷ cs) = drop_empty cs
drop_empty ((a ∷ c) ∷ cs) = (a ∷ c) ∷ drop_empty cs

unfoldable pub threat_feed_candidates : Text → List Text
unfolding drop_empty
threat_feed_candidates domain = drop_empty (suffixes (split domain b'.') b'.')

-- An error of Redis counts as no match.
unfoldable pub match_threat_feed : Cache → Text → Bool
unfolding threat_feed_candidates
match_threat_feed c domain =
    if works c then any (λ t. any (text_eq t) c.feed) (threat_feed_candidates domain) else false

unfoldable pub feed_result : Cache → Text → Option AnalysisResult
feed_result c domain =
    if match_threat_feed c domain
    then some (record {
      domain = domain;
      verdict = malicious;
      confidence = certain;
      score = 100;
      reasons = threat_feed_reason ∷ [];
      category = [];
    })
    else none

-- TLS and WHOIS add to a score from 20 to 69.
unfoldable pub enrich_suspicious : Settings → Outside → Text → AnalysisResult → AnalysisResult
enrich_suspicious s out domain r =
    if not s.enrich || ltb r.score 20 || leb 70 r.score
    then r
    else let tls = out.inspect domain in
      let registered = out.whois domain in
      let score = min 100 (r.score + (tls.score + registered.score)) in
      record r {
        score = score;
        reasons = r.reasons ++ tls.reasons ++ registered.reasons;
        verdict = verdict_of_score score;
        confidence = confidence_of_score score;
      }

-- The AI may only raise a suspicious result.
abbrev pub merge_opinion : AnalysisResult → Option AnalysisResult → AnalysisResult
merge_opinion r none = r
merge_opinion r (some o) =
    if is_malicious o.verdict
    then record r {
      verdict = malicious;
      score = max r.score o.score;
      confidence = max r.confidence o.confidence;
      reasons = r.reasons ++ o.reasons;
    }
    else record r { reasons = r.reasons ++ o.reasons }

unfoldable pub refine_with_ai : Settings → Outside → AnalysisResult → AnalysisResult
refine_with_ai s out r =
    if s.ai && is_suspicious r.verdict then merge_opinion r (out.refine r) else r

abbrev pub report_by_mode : Outside → LookupMode → Text → Bool → Report
report_by_mode out lookup_none domain force = no_report
report_by_mode out cached_only domain force = report_or_none (out.cached_report domain)
report_by_mode out on_demand domain force = out.lookup_report domain force

unfoldable pub lookup_osint :
    Platform → Settings → Outside → Text → AnalysisResult → LookupMode → Bool → Report
lookup_osint platform s out domain r mode force =
    if s.osint && (force || should_lookup platform domain r)
    then report_by_mode out mode domain force
    else no_report

-- A report that changes verdict or score is written to the cache at once.
unfoldable pub apply_osint :
    Settings → Cache → Text → AnalysisResult → Report → Text → Cache × AnalysisResult
apply_osint s c domain r report revision =
    if s.osint && report.should_block
    then (let updated = apply_report r report in
        if is_malicious r.verdict && updated.score == r.score
        then (c, updated)
        else (write_entry s c revision domain updated, updated))
    else (c, r)

-- `domain` is the domain that was assessed.
pub record Assessed : Type 0 where
  pub domain : Text
  pub cache : Cache
  pub result : AnalysisResult
  pub cache_hit : Bool
  pub evidence : List Text

abbrev pub or_lexical : Option AnalysisResult → AnalysisResult → AnalysisResult
or_lexical none r = r
or_lexical (some r) _ = r

module _ (platform : Platform) (analyzer : Text → AnalysisResult) (out : Outside)
    (s : Settings) where
  -- A hit: only OSINT may still change it.
  unfoldable pub assess_cached : Cache → Text → AnalysisResult → LookupMode → Bool → Assessed
  assess_cached c domain cached mode force =
      let report = lookup_osint platform s out domain cached mode force in
      let (c', updated) = apply_osint s c domain cached report (current_feed_revision s c) in
      record {
        domain = domain;
        cache = c';
        result = updated;
        cache_hit = true;
        evidence = report.evidence;
      }

  -- The steps before OSINT: feed or lexical score, enrichment, AI.
  unfoldable pub judge : Cache → Text → AnalysisResult
  judge c domain =
      refine_with_ai s out
        (enrich_suspicious s out domain (or_lexical (feed_result c domain) (analyzer domain)))

  unfoldable pub assess_fresh : Cache → Text → LookupMode → Bool → Assessed
  assess_fresh c domain mode force =
      let judged = judge c domain in
      let report = lookup_osint platform s out domain judged mode force in
      let revision = current_feed_revision s c in
      let (c', result) = apply_osint s c domain judged report revision in
      record {
        domain = domain;
        cache = write_entry s c' revision domain result;
        result = result;
        cache_hit = false;
        evidence = report.evidence;
      }

  abbrev pub assess_normalized : Cache → Text → LookupMode → Bool → Option AnalysisResult → Assessed
  assess_normalized c domain mode force none = assess_fresh c domain mode force
  assess_normalized c domain mode force (some r) = assess_cached c domain r mode force

  -- `analyze`
  unfoldable pub assess : Cache → Text → LookupMode → Bool → Assessed
  assess c domain mode force = elim (normalize_domain platform domain) [
    | err e ↦ record {
      domain = domain;
      cache = c;
      result = analyzer domain;
      cache_hit = false;
      evidence = [];
    }
    | ok d ↦ assess_normalized c d mode force (cached_result c (current_feed_revision s c) d)
  ]
