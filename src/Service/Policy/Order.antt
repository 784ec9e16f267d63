-- ===== src/Service/Policy/Order.antt =====
-- The order of precedence in internal/risk/service.go: an override, then the whitelist, then the
-- assessment, the same in `Policy` and in `AnalyzeWithOptions`.
use safe_road.Base.{Bool, true, false, none, some, ◌≡◌, refl, arith, Text}
use safe_road.Domain.{Platform, ok, normalize_domain}
use safe_road.Whitelist.{is_allowed}
use safe_road.Overrides.{allow, block, Override, ClientGroup}
use safe_road.Verdict.{AnalysisResult, is_malicious}
use safe_road.Service.{
  Outside, cached_result, current_feed_revision, match_threat_feed, cached_only,
}
use safe_road.Service.Assess.{assess-feed}
use safe_road.Service.Policy.{
  Service, State, ClientInfo, group_for, override_for, override_result, whitelist_result, enforce,
  policy, policy_normalized, policy_assessed, analyze_with_options, record_telemetry,
}

cache-record_telemetry :
    (s : Service) (st : State) (r : AnalysisResult) (hit : Bool) (client : ClientInfo)
    → (record_telemetry s st r hit client).cache ≡ st.cache
unfolding record_telemetry
cache-record_telemetry s st r hit client = ground arith

pub enforce-malicious :
    (platform : Platform) (g : ClientGroup) (r : AnalysisResult)
    → is_malicious r.verdict ≡ true
    → g.strict_malware ≡ true
    → enforce platform g r ≡ block
unfolding enforce
enforce-malicious platform g r bad strict = rw (bad, strict)

module _ (s : Service) (out : Outside) (st : State) (client : ClientInfo) (domain : Text) {d : Text}
    (normal : normalize_domain s.platform domain ≡ ok d) where
  pub policy_lem : policy s out st domain client ≡ policy_normalized s out st client d
  unfolding policy
  policy_lem = rw (normal, policy)

  -- An administrator's override that applies to the normal form of the domain in the client's
  -- group decides alone: the action is the override's, the cache is not touched, and
  -- `AnalyzeWithOptions` reports the same result and leaves the same state.
  pub policy_override :
      (o : Override) (include_evidence force : Bool)
      → override_for s (group_for s client).id d ≡ some o
      → let p = policy s out st domain client in
        let a = analyze_with_options s out st domain client include_evidence force in
        (p.1.policy ≡ o.action)
        × (p.1.result ≡ override_result s d o)
        × (p.0.cache ≡ st.cache)
        × (a.1.result ≡ p.1.result)
        × (a.0 ≡ p.0)
  unfolding policy_normalized analyze_with_options
  policy_override o include_evidence force e = rw policy_lem (
      rw (e, policy_normalized)
        (rw (normal, analyze_with_options) (rw e (refl, refl, kept, refl, refl))))
    where
      kept : (record_telemetry s st (override_result s d o) false client).cache ≡ st.cache
      kept = cache-record_telemetry s st (override_result s d o) false client

  -- Without an override, a domain whose normal form is whitelisted is allowed, whatever the threat
  -- feed, the cache or the analyzer say of it; the cache is not touched, and `AnalyzeWithOptions`
  -- reports the same result and leaves the same state.
  pub policy_whitelisted :
      (include_evidence force : Bool)
      → override_for s (group_for s client).id d ≡ none
      → is_allowed s.whitelist d ≡ true
      → let p = policy s out st domain client in
        let a = analyze_with_options s out st domain client include_evidence force in
        (p.1.policy ≡ allow)
        × (p.1.result ≡ whitelist_result d)
        × (p.0.cache ≡ st.cache)
        × (a.1.result ≡ p.1.result)
        × (a.0 ≡ p.0)
  unfolding policy_normalized analyze_with_options
  policy_whitelisted include_evidence force e w = rw policy_lem (
      rw (e, policy_normalized)
        (rw w (rw (normal, analyze_with_options) (rw e (rw w (refl, refl, kept, refl, refl))))))
    where
      kept : (record_telemetry s st (whitelist_result d) false client).cache ≡ st.cache
      kept = cache-record_telemetry s st (whitelist_result d) false client

  -- A domain whose normal form normalises to itself and has neither override nor whitelist entry,
  -- which the threat feed matches and of which the cache has no current entry, is blocked for a
  -- client whose group blocks malware, whatever other servers answer.
  pub policy_feed :
      override_for s (group_for s client).id d ≡ none
      → is_allowed s.whitelist d ≡ false
      → normalize_domain s.platform d ≡ ok d
      → cached_result st.cache (current_feed_revision s.settings st.cache) d ≡ none
      → match_threat_feed st.cache d ≡ true
      → (group_for s client).strict_malware ≡ true
      → (policy s out st domain client).1.policy ≡ block
  unfolding policy_normalized policy_assessed
  policy_feed e w again miss m strict =
      let (bad, hundred) =
        assess-feed s.platform s.analyzer out s.settings st.cache d cached_only false again miss
          m in
      rw policy_lem (
        rw (e, policy_normalized)
          (rw w (enforce-malicious s.platform (group_for s client) _ bad strict)))
