-- ===== src/Service/Malicious.antt =====
-- A lexical score that is malicious stays so through the assessment of internal/risk/service.go.
use safe_road.Base.{◌≤◌, Bool, true, none, ◌≡◌, refl, arith, Text, Bool-cases, inl, inr}
use safe_road.Domain.{Platform, ok, normalize_domain}
use safe_road.Verdict.{AnalysisResult, is_malicious}
use safe_road.Service.{
  Cache, Outside, Settings, LookupMode, match_threat_feed, feed_result, or_lexical,
  current_feed_revision, cached_result, lookup_osint, judge, assess_fresh, assess,
}
use safe_road.Service.Assess.{enrich-high, refine-malicious, apply_osint-score}

module _ (platform : Platform) (analyzer : Text → AnalysisResult) (out : Outside)
    (s : Settings) where
  base-malicious :
      (c : Cache) (d : Text)
      → 70 ≤ (analyzer d).score
      → is_malicious (analyzer d).verdict ≡ true
      → (70 ≤ (or_lexical (feed_result c d) (analyzer d)).score)
        × (is_malicious (or_lexical (feed_result c d) (analyzer d)).verdict ≡ true)
  unfolding feed_result
  base-malicious c d high bad = elim (Bool-cases (match_threat_feed c d)) [
    | inl m ↦ rw m (omega arith, refl)
    | inr m ↦ rw m (high, bad)
  ]

  judge-malicious :
      (c : Cache) (d : Text)
      → 70 ≤ (analyzer d).score
      → is_malicious (analyzer d).verdict ≡ true
      → is_malicious (judge platform analyzer out s c d).verdict ≡ true
  unfolding judge
  judge-malicious c d high bad =
      let base = or_lexical (feed_result c d) (analyzer d) in
      let (high', bad') = base-malicious c d high bad in
      rw (enrich-high s out d base high') (rw (refine-malicious s out base bad') bad')

  assess_fresh-malicious :
      (c : Cache) (d : Text) (mode : LookupMode) (force : Bool)
      → 70 ≤ (analyzer d).score
      → is_malicious (analyzer d).verdict ≡ true
      → is_malicious (assess_fresh platform analyzer out s c d mode force).result.verdict ≡ true
  unfolding assess_fresh
  assess_fresh-malicious c d mode force high bad =
      let r = judge platform analyzer out s c d in
      let report = lookup_osint platform s out d r mode force in
      (apply_osint-score s c d r report (current_feed_revision s c)).1
        (judge-malicious c d high bad)

  -- A domain in normal form that the lexical analysis calls malicious with a score of at least 70,
  -- and of which the cache has no current entry, is assessed malicious, whatever others answer.
  pub assess-malicious :
      (c : Cache) (d : Text) (mode : LookupMode) (force : Bool)
      → normalize_domain platform d ≡ ok d
      → cached_result c (current_feed_revision s c) d ≡ none
      → 70 ≤ (analyzer d).score
      → is_malicious (analyzer d).verdict ≡ true
      → is_malicious (assess platform analyzer out s c d mode force).result.verdict ≡ true
  unfolding assess
  assess-malicious c d mode force n miss high bad =
      rw (n, assess) (rw miss (assess_fresh-malicious c d mode force high bad))
