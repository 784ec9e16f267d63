-- ===== src/Lexical/Scores.antt =====
-- What the scores of `Analyzer.Analyze` in internal/analysis/analysis.go guarantee.
use safe_road.Base.{
  ℕ, ◌+◌, ◌≤◌, ◌∙◌, Bool, true, false, Option, none, some, List, [], ◌∷◌, ◌++◌, ◌≡◌, ◌≢◌, ◌⊎◌, inl,
  inr, Bool-cases, refl, arith, Text, ltb,
}
use safe_road.Domain.{DomainError, Platform, Result, ok, err, normalize_domain}
use safe_road.Verdict.{verdict_of_score, is_malicious}
use safe_road.Brand.Penalty.{check_brand_spoofing_penalty}
use safe_road.Brand.{Spoof, check_brand_spoofing}
use safe_road.Lexical.{
  AnalysisConfig, Measures, Tally, add_if, add_keywords, add_protected, add_spoof, first_rules,
  last_rules, tally, is_protected_abuse, suspicious_keyword_stats, analyze_normalized, analyze,
}

-- Points are never given without a reason.
data IsExplained (t : Tally) : Type 0 where
  nothing : t.score ≡ 0 → IsExplained t
  reasoned : t.reasons ≢ [] → IsExplained t

more_reasons : (rs : List Text) (r : Text) (more : List Text) → rs ++ r ∷ more ≢ []
more_reasons [] r more e = cc
more_reasons (x ∷ rs) r more e = cc

IsExplained-add_if :
    (b : Bool) (points : ℕ) (r : Text) (t : Tally)
    → IsExplained t
    → IsExplained (add_if b points r t)
unfolding add_if
IsExplained-add_if true points r t h = reasoned (more_reasons t.reasons r [])
IsExplained-add_if false points r t h = h

IsExplained-add_keywords : (k : ℕ × ℕ) (t : Tally) → IsExplained t → IsExplained (add_keywords k t)
unfolding add_keywords
IsExplained-add_keywords (count, points) t h = elim (Bool-cases (ltb 0 points)) [
  | inl e ↦ rw e (reasoned (more_reasons t.reasons _ _))
  | inr e ↦ rw e h
]

IsExplained-add_protected : (b : Bool) (t : Tally) → IsExplained t → IsExplained (add_protected b t)
unfolding add_protected
IsExplained-add_protected true t h = reasoned (more_reasons t.reasons _ [])
IsExplained-add_protected false t h = h

IsExplained-add_spoof : (s : Option Spoof) (t : Tally) → IsExplained t → IsExplained (add_spoof s t)
unfolding add_spoof
IsExplained-add_spoof none t h = h
IsExplained-add_spoof (some s) t h = reasoned (more_reasons t.reasons s.reason [])

add_if-score :
    (b : Bool) (points : ℕ) (r : Text) (t : Tally) → t.score ≤ (add_if b points r t).score
unfolding add_if
add_if-score b points r t = ground arith

add_spoof-score : (s : Option Spoof) (t : Tally) → t.score ≤ (add_spoof s t).score
unfolding add_spoof
add_spoof-score none t = omega arith
add_spoof-score (some s) t = omega arith

add_if-discount :
    (b : Bool) (points : ℕ) (r : Text) (t : Tally) → (add_if b points r t).discount ≡ t.discount
unfolding add_if
add_if-discount b points r t = ground arith

add_keywords-discount : (k : ℕ × ℕ) (t : Tally) → (add_keywords k t).discount ≡ t.discount
unfolding add_keywords
add_keywords-discount (count, points) t = ground arith

add_protected-score : (b : Bool) (t : Tally) → b ≡ true → 75 ≤ (add_protected b t).score
unfolding add_protected
add_protected-score b t h = ground (arith, h)

add_protected-discount : (b : Bool) (t : Tally) → (add_protected b t).discount ≡ t.discount
unfolding add_protected
add_protected-discount b t = ground arith

-- A report adds at least the configured score less ten.
add_spoof-total :
    (score : ℕ) (o : Option Spoof) (t : Tally)
    → ((s : Spoof) → o ≡ some s → (score ≤ s.penalty) × (s.discount ≤ 10))
    → 5 ≤ score
    → t.score + (add_spoof o t).discount ≤ (add_spoof o t).score + t.discount + 5
unfolding add_spoof
add_spoof-total score none t fair h = omega arith
add_spoof-total score (some s) t fair h =
    let (least, most) = fair s refl in omega (arith, least, most, h)

Result-cases : (r : Result Text) → ((d : Text) × (r ≡ ok d)) ⊎ ((e : DomainError) × (r ≡ err e))
Result-cases (ok d) = inl (d, refl)
Result-cases (err e) = inr (e, refl)

module _ (platform : Platform) (m : Measures) (cfg : AnalysisConfig) where
  first_rules-IsExplained : (domain : Text) → IsExplained (first_rules platform m cfg domain)
  unfolding first_rules
  first_rules-IsExplained domain = IsExplained-add_if _ _ _ _ (
      IsExplained-add_if _ _ _ _ (
        IsExplained-add_if _ _ _ _
          (IsExplained-add_if _ _ _ _ (IsExplained-add_if _ _ _ _ (nothing refl)))))

  tally-IsExplained : (domain : Text) → IsExplained (tally platform m cfg domain)
  unfolding tally last_rules
  tally-IsExplained domain = IsExplained-add_if _ _ _ _ (
      IsExplained-add_spoof _ _ (
        IsExplained-add_protected _ _
          (IsExplained-add_keywords _ _ (first_rules-IsExplained domain))))

  first_rules-discount : (domain : Text) → (first_rules platform m cfg domain).discount ≡ 0
  unfolding first_rules
  first_rules-discount domain =
      add_if-discount _ _ _ _
      ∙ add_if-discount _ _ _ _
      ∙ add_if-discount _ _ _ _
      ∙ add_if-discount _ _ _ _
      ∙ add_if-discount _ _ _ _

  tally_protected :
      (domain : Text)
      → 5 ≤ cfg.brand_spoofing_score
      → is_protected_abuse platform domain ≡ true
      → 70 + (tally platform m cfg domain).discount ≤ (tally platform m cfg domain).score
  unfolding tally last_rules
  tally_protected domain least h =
      let keywords = suspicious_keyword_stats platform cfg domain in
      let first = first_rules platform m cfg domain in
      let t = add_keywords keywords first in
      let t' = add_protected (is_protected_abuse platform domain) t in
      let spoof = check_brand_spoofing platform m.to_unicode domain cfg.brand_spoofing_score in
      omega (
        arith,
        add_protected-score (is_protected_abuse platform domain) t h,
        add_protected-discount (is_protected_abuse platform domain) t,
        add_keywords-discount keywords first,
        first_rules-discount domain,
        add_spoof-total cfg.brand_spoofing_score spoof t'
            (λ s e.
              let fair =
                check_brand_spoofing_penalty platform m.to_unicode domain cfg.brand_spoofing_score
                  e in
              (fair.0, fair.2))
            least,
        add_if-score _ cfg.entropy_score _ (add_spoof spoof t'),
        add_if-discount _ cfg.entropy_score _ (add_spoof spoof t'),
      )

  -- The score of an analysis is at most 100, for any text and any configuration.
  pub analyze-score : (input : Text) → (analyze platform m cfg input).score ≤ 100
  unfolding analyze analyze_normalized
  analyze-score input = ground arith

  normalized_explained :
      (d : Text)
      → (analyze_normalized platform m cfg d).score ≢ 0
      → (analyze_normalized platform m cfg d).reasons ≢ []
  unfolding analyze_normalized
  normalized_explained d h = elim (tally-IsExplained d) [
    | nothing z ↦ absurd (h (omega (arith, z)))
    | reasoned r ↦ r
  ]

  -- An analysis with a score above zero gives a reason, for any text and any configuration.
  pub analyze_explained :
      (input : Text)
      → (analyze platform m cfg input).score ≢ 0
      → (analyze platform m cfg input).reasons ≢ []
  unfolding analyze
  analyze_explained input = elim (Result-cases (normalize_domain platform input)) [
    | inl (d, q) ↦ rw (q, analyze) (normalized_explained d)
    | inr (e, q) ↦ rw (q, analyze) (λ h k. cc)
  ]

  -- A domain that abuses the name of the Vietnamese public-service portal is judged malicious with a
  -- score of at least 70, whatever the configuration with a brand-spoofing score of at least 5.
  pub analyze_protected :
      (input : Text) {domain : Text}
      → 5 ≤ cfg.brand_spoofing_score
      → normalize_domain platform input ≡ ok domain
      → is_protected_abuse platform domain ≡ true
      → let r = analyze platform m cfg input in
        (70 ≤ r.score) × (is_malicious r.verdict ≡ true) × (r.domain ≡ domain)
  unfolding analyze analyze_normalized verdict_of_score
  analyze_protected input {domain} least normal abuse =
      rw (normal, analyze) (ground (arith, tally_protected domain least abuse))
