-- ===== src/Service/Assess.antt =====
-- What the assessment of internal/risk/service.go guarantees, whatever the lexical analyzer, the
-- AI, TLS, WHOIS and OSINT answer.
use safe_road.Base.{
  ◌≤◌, Bool, true, not, ◌&&◌, ◌||◌, Option, none, some, List, [], ◌∷◌, ◌≡◌, refl, arith,
  if◌then◌else◌, Text, text_eq, any, le→leb, Bool-cases, inl, inr, ◌∙◌, ap,
}
use safe_road.Strings.{split, suffixes}
use safe_road.Domain.{Platform, ok, normalize_domain}
use safe_road.Whitelist.Agrees.{covered, candidates-covered}
use safe_road.Verdict.{malicious, AnalysisResult, certain, is_malicious, is_suspicious}
use safe_road.Osint.{Report, apply_report}
use safe_road.Service.{
  Cache, Outside, Settings, LookupMode, works, threat_feed_reason, current_feed_revision,
  cached_result, drop_empty, match_threat_feed, feed_result, enrich_suspicious, refine_with_ai,
  merge_opinion, apply_osint, lookup_osint, or_lexical, judge, assess_fresh, assess,
}

any-drop_empty :
    (f : Text → Bool) (cs : List Text)
    → any f (drop_empty cs) ≡ any (λ t. not (text_eq t []) && f t) cs
unfolding drop_empty text_eq
any-drop_empty f [] = refl
any-drop_empty f ([] ∷ cs) = any-drop_empty f cs
any-drop_empty f ((a ∷ c) ∷ cs) = ap (λ b. f (a ∷ c) || b) (any-drop_empty f cs)

-- With a Redis that answers, a domain matches the threat feed exactly if the feed holds it or a
-- parent of it.
pub match_threat_feed-covered :
    (c : Cache) (d : Text) → works c ≡ true → match_threat_feed c d ≡ covered c.feed d
unfolding match_threat_feed
match_threat_feed-covered c d on = rw on (
    any-drop_empty (λ t. any (text_eq t) c.feed) (suffixes (split d b'.') b'.')
    ∙ candidates-covered c.feed d)

feed_result-match :
    (c : Cache) (d : Text)
    → match_threat_feed c d ≡ true
    → (r : AnalysisResult) × (feed_result c d ≡ some r)
      × (is_malicious r.verdict ≡ true)
      × (r.score ≡ 100)
unfolding feed_result
feed_result-match c d m = (
  record {
    domain = d;
    verdict = malicious;
    confidence = certain;
    score = 100;
    reasons = threat_feed_reason ∷ [];
    category = [];
  },
  rw m,
  refl,
  refl,
)

pub enrich-high :
    (s : Settings) (out : Outside) (d : Text) (r : AnalysisResult)
    → 70 ≤ r.score
    → enrich_suspicious s out d r ≡ r
unfolding enrich_suspicious
enrich-high s out d r h = rw (le→leb 70 r.score h) (ground arith)

pub refine-malicious :
    (s : Settings) (out : Outside) (r : AnalysisResult)
    → is_malicious r.verdict ≡ true
    → refine_with_ai s out r ≡ r
unfolding refine_with_ai
refine-malicious s out r h = ground arith

enrich-score :
    (s : Settings) (out : Outside) (d : Text) (r : AnalysisResult)
    → r.score ≤ 100
    → (r.score ≤ (enrich_suspicious s out d r).score) × ((enrich_suspicious s out d r).score ≤ 100)
unfolding enrich_suspicious
enrich-score s out d r h = ground arith

refine-score :
    (s : Settings) (out : Outside) (r : AnalysisResult) → r.score ≤ (refine_with_ai s out r).score
unfolding refine_with_ai
refine-score s out r = go (out.refine r)
  where
    merged : (o : Option AnalysisResult) → r.score ≤ (merge_opinion r o).score
    merged none = omega arith
    merged (some o) = ground arith

    go :
        (o : Option AnalysisResult)
        → r.score ≤ (if s.ai && is_suspicious r.verdict then merge_opinion r o else r).score
    go o = ground (arith, merged o)

pub apply_osint-score :
    (s : Settings) (c : Cache) (d : Text) (r : AnalysisResult) (report : Report) (revision : Text)
    → (r.score ≤ (apply_osint s c d r report revision).1.score)
      × (is_malicious r.verdict ≡ true
          → is_malicious (apply_osint s c d r report revision).1.verdict ≡ true)
unfolding apply_osint apply_report
apply_osint-score s c d r report revision = ground arith

apply_osint-hundred :
    (s : Settings) (c : Cache) (d : Text) (r : AnalysisResult) (report : Report) (revision : Text)
    → r.score ≡ 100
    → (apply_osint s c d r report revision).1.score ≡ 100
unfolding apply_osint apply_report
apply_osint-hundred s c d r report revision h = ground arith

module _ (platform : Platform) (analyzer : Text → AnalysisResult) (out : Outside)
    (s : Settings) where
  judge-feed :
      (c : Cache) (d : Text)
      → match_threat_feed c d ≡ true
      → (is_malicious (judge platform analyzer out s c d).verdict ≡ true)
        × ((judge platform analyzer out s c d).score ≡ 100)
  unfolding judge
  judge-feed c d m =
      let (r, e, bad, hundred) = feed_result-match c d m in
      rw e (
        rw (enrich-high s out d r (omega (arith, hundred)))
          (rw (refine-malicious s out r bad) (bad, hundred)))

  judge_lem :
      (c : Cache) (d : Text)
      → (judge platform analyzer out s c d).score
        ≡ (refine_with_ai s out
            (enrich_suspicious s out d (or_lexical (feed_result c d) (analyzer d)))).score
  unfolding judge
  judge_lem c d = refl

  base-score :
      (c : Cache) (d : Text)
      → (analyzer d).score ≤ 100
      → ((analyzer d).score ≤ (or_lexical (feed_result c d) (analyzer d)).score)
        × ((or_lexical (feed_result c d) (analyzer d)).score ≤ 100)
  unfolding feed_result
  base-score c d h = elim (Bool-cases (match_threat_feed c d)) [
    | inl m ↦ rw m (h, omega arith)
    | inr m ↦ rw m (omega arith, h)
  ]

  -- The lexical score of a domain that the feed does not match is never lowered.
  judge-score :
      (c : Cache) (d : Text)
      → (analyzer d).score ≤ 100
      → (analyzer d).score ≤ (judge platform analyzer out s c d).score
  judge-score c d h =
      let base = or_lexical (feed_result c d) (analyzer d) in
      let low = base-score c d h in
      omega (
        arith,
        low,
        enrich-score s out d base low.1,
        refine-score s out (enrich_suspicious s out d base),
        judge_lem c d,
      )

  -- Where the lexical score is at most 100, no step of a fresh assessment lowers it.
  pub assess_fresh-score :
      (c : Cache) (d : Text) (mode : LookupMode) (force : Bool)
      → (analyzer d).score ≤ 100
      → (analyzer d).score ≤ (assess_fresh platform analyzer out s c d mode force).result.score
  unfolding assess_fresh
  assess_fresh-score c d mode force h =
      let r = judge platform analyzer out s c d in
      let report = lookup_osint platform s out d r mode force in
      omega
        (arith, judge-score c d h, (apply_osint-score s c d r report (current_feed_revision s c)).0)

  pub assess_fresh-feed :
      (c : Cache) (d : Text) (mode : LookupMode) (force : Bool)
      → match_threat_feed c d ≡ true
      → let a = assess_fresh platform analyzer out s c d mode force in
        (is_malicious a.result.verdict ≡ true) × (a.result.score ≡ 100)
  unfolding assess_fresh
  assess_fresh-feed c d mode force m =
      let (bad, hundred) = judge-feed c d m in
      let r = judge platform analyzer out s c d in
      let report = lookup_osint platform s out d r mode force in
      let revision = current_feed_revision s c in
      (
        (apply_osint-score s c d r report revision).1 bad,
        apply_osint-hundred s c d r report revision hundred,
      )

  -- A domain in normal form that the feed matches, and of which the cache has no current entry, is
  -- assessed malicious with the full score, whatever other servers answer.
  pub assess-feed :
      (c : Cache) (d : Text) (mode : LookupMode) (force : Bool)
      → normalize_domain platform d ≡ ok d
      → cached_result c (current_feed_revision s c) d ≡ none
      → match_threat_feed c d ≡ true
      → let a = assess platform analyzer out s c d mode force in
        (is_malicious a.result.verdict ≡ true) × (a.result.score ≡ 100)
  unfolding assess
  assess-feed c d mode force n miss m =
      rw (n, assess) (rw miss (assess_fresh-feed c d mode force m))
