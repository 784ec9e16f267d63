-- ===== src/Lexical.antt =====
-- `Analyzer.Analyze` of internal/analysis/analysis.go, with internal/config/analysis.go. The digit
-- threshold is a fraction. Scores of a configuration are natural numbers.
pub mod Scores
use safe_road.Base.{
  ℕ, zero, suc, ◌+◌, ◌-◌, ◌*◌, Bool, true, false, not, ◌&&◌, ◌||◌, Option, none, some, List, [],
  ◌∷◌, ◌++◌, map, min, max, ltb, leb, ◌==◌, if◌then◌else◌, Text, text_eq, codes, any,
}
use safe_road.Strings.{trim_space, has_prefix, has_suffix, contains, count_rune, byte_len}
use safe_road.Domain.{
  Platform, DomainError, empty_domain, unparsed_url, invalid_characters, Result, ok, err,
  normalize_domain, to_lower, is_digit, get_root_domain, get_main_label,
}
use safe_road.Verdict.{
  Verdict, invalid, malicious, AnalysisResult, certain, verdict_of_score, confidence_of_score,
  is_malicious, is_suspicious,
}
use safe_road.Category.{classify_category}
use safe_road.Brand.{Spoof, check_brand_spoofing}

pub record AnalysisConfig : Type 0 where
  pub punycode_score : ℕ
  pub long_domain_length : ℕ
  pub long_domain_score : ℕ
  pub hyphen_count_threshold : ℕ
  pub hyphen_score : ℕ
  pub digit_ratio_numerator : ℕ
  pub digit_ratio_denominator : ℕ
  pub digit_ratio_score : ℕ
  pub mixed_script_score : ℕ
  pub keywords : List Text
  pub keyword_base_score : ℕ
  pub keyword_match_score : ℕ
  pub keyword_multiple_bonus : ℕ
  pub brand_spoofing_score : ℕ
  pub entropy_score : ℕ

abbrev pub default_keywords : List Text
default_keywords =
    codes "login"
    ∷ codes "secure"
    ∷ codes "verify"
    ∷ codes "account"
    ∷ codes "update"
    ∷ codes "support"
    ∷ codes "wallet"
    ∷ codes "dichvucong"
    ∷ codes "congan"
    ∷ codes "vneid"
    ∷ codes "phatnguoi"
    ∷ codes "xulyphat"
    ∷ codes "nganhang"
    ∷ codes "xacthuc"
    ∷ codes "cungcap"
    ∷ []

abbrev pub default_analysis_config : AnalysisConfig
default_analysis_config = record {
  punycode_score = 35;
  long_domain_length = 24;
  long_domain_score = 15;
  hyphen_count_threshold = 3;
  hyphen_score = 10;
  digit_ratio_numerator = 1;
  digit_ratio_denominator = 4;
  digit_ratio_score = 10;
  mixed_script_score = 25;
  keywords = default_keywords;
  keyword_base_score = 15;
  keyword_match_score = 10;
  keyword_multiple_bonus = 10;
  brand_spoofing_score = 50;
  entropy_score = 15;
}

-- What Go's Unicode tables say of a digit beyond ASCII, golang.org/x/net/idna of a name, and
-- whether the Shannon entropy of a label, a sum of logarithms, exceeds the configured threshold.
pub record Measures : Type 0 where
  pub is_digit_wide : ℕ → Bool
  pub to_unicode : Text → Option Text
  pub entropy_exceeds : Text → Bool

-- unicode.IsDigit
unfoldable pub is_unicode_digit : Measures → ℕ → Bool
is_unicode_digit m r = if ltb r 0x80 then is_digit r else m.is_digit_wide r

unfoldable pub digit_count : Measures → Text → ℕ
unfolding is_unicode_digit
digit_count m [] = 0
digit_count m (r ∷ s) =
    let rest = digit_count m s in if is_unicode_digit m r then suc rest else rest

-- `digitRatio(domain) > a.config.DigitRatioThreshold`
unfoldable pub high_digit_ratio : Measures → AnalysisConfig → Text → Bool
unfolding digit_count
high_digit_ratio m cfg value =
    ltb (cfg.digit_ratio_numerator * byte_len value)
      (digit_count m value * cfg.digit_ratio_denominator)

abbrev pub is_neutral : Measures → ℕ → Bool
is_neutral m r = r == b'.' || r == b'-' || is_unicode_digit m r

unfoldable pub mixed_scripts : Measures → Text → Bool
unfolding is_unicode_digit
mixed_scripts m value =
    any (λ r. not (is_neutral m r) && leb r 0x80) value
    && any (λ r. not (is_neutral m r) && not (leb r 0x80)) value

-- GetKeywords
unfoldable pub get_keywords : Platform → List Text → List Text
get_keywords platform [] = default_keywords
get_keywords platform (k ∷ ks) = map (to_lower platform) (k ∷ ks)

unfoldable pub keyword_count : Text → List Text → ℕ
keyword_count value [] = 0
keyword_count value (k ∷ ks) =
    let rest = keyword_count value ks in if contains value k then suc rest else rest

-- The count and the score.
unfoldable pub suspicious_keyword_stats : Platform → AnalysisConfig → Text → ℕ × ℕ
unfolding get_keywords keyword_count
suspicious_keyword_stats platform cfg value =
    let count = keyword_count value (get_keywords platform cfg.keywords) in
    if count == 0 then (0, 0) else (
      count,
      cfg.keyword_base_score
          + count * cfg.keyword_match_score
          + (if leb 2 count then cfg.keyword_multiple_bonus else 0),
    )

unfoldable pub is_protected_abuse : Platform → Text → Bool
is_protected_abuse platform domain =
    let domain = to_lower platform (trim_space domain) in
    let root = get_root_domain platform domain in
    not (text_eq domain [] || not (contains domain (codes "dichvucong")))
    && not (
        text_eq root (codes "dichvucong.gov.vn")
        || has_suffix root (codes ".gov.vn")
        || has_suffix domain (codes ".gov.vn"))
    && contains root (codes "dichvucong")

-- The running score and reasons.
-- The score is `score` less `discount`.
pub record Tally : Type 0 where
  pub score : ℕ
  pub discount : ℕ
  pub reasons : List Text

unfoldable pub add_if : Bool → ℕ → Text → Tally → Tally
add_if b points reason t =
    if b then record t { score = t.score + points; reasons = t.reasons ++ reason ∷ [] } else t

unfoldable pub add_keywords : ℕ × ℕ → Tally → Tally
add_keywords (count, points) t =
    if ltb 0 points
    then record t {
      score = t.score + points;
      reasons =
          t.reasons
          ++ codes "phishing keyword pattern"
            ∷ (if leb 2 count then codes "multiple phishing keywords" ∷ [] else []);
    }
    else t

abbrev pub protected_public_service_reason : Text
protected_public_service_reason =
    codes "protected Vietnamese public-service keyword abuse (dichvucong)"

unfoldable pub add_protected : Bool → Tally → Tally
add_protected b t =
    if b
    then record t {
      score = max t.score 75;
      reasons = t.reasons ++ protected_public_service_reason ∷ [];
    }
    else t

unfoldable pub add_spoof : Option Spoof → Tally → Tally
add_spoof none t = t
add_spoof (some s) t = record {
  score = t.score + s.penalty;
  discount = t.discount + s.discount;
  reasons = t.reasons ++ s.reason ∷ [];
}

module _ (platform : Platform) (m : Measures) (cfg : AnalysisConfig) where
  -- The rules in their order.
  unfoldable pub first_rules : Text → Tally
  first_rules domain =
      add_if (mixed_scripts m domain) cfg.mixed_script_score (codes "mixed script characters") (
        add_if (high_digit_ratio m cfg domain) cfg.digit_ratio_score (codes "high digit ratio") (
          add_if (leb cfg.hyphen_count_threshold (count_rune domain b'-')) cfg.hyphen_score
            (codes "many hyphens")
            (add_if (ltb cfg.long_domain_length (byte_len domain)) cfg.long_domain_score
              (codes "domain is long")
              (add_if (has_prefix domain (codes "xn--") || contains domain (codes ".xn--"))
                cfg.punycode_score (codes "punycode detected")
                (record { score = 0; discount = 0; reasons = [] })))))

  unfoldable pub last_rules : Text → Tally → Tally
  last_rules domain t =
      let label = get_main_label platform domain in
      add_if (leb 8 (byte_len label) && m.entropy_exceeds label) cfg.entropy_score
        (codes "high lexical entropy")
        (add_spoof (check_brand_spoofing platform m.to_unicode domain cfg.brand_spoofing_score) t)

  unfoldable pub tally : Text → Tally
  tally domain = last_rules domain (
      add_protected (is_protected_abuse platform domain)
        (add_keywords (suspicious_keyword_stats platform cfg domain) (first_rules domain)))

  -- The category, if the domain itself has none.
  unfoldable pub category_of : Text → Verdict → List Text → Text
  category_of domain verdict reasons =
      let category = classify_category platform domain in
      if not (text_eq category (codes "uncategorized"))
      then category
      else if is_malicious verdict
      then (if any (λ r. contains (to_lower platform r) (codes "phishing")) reasons
          then codes "phishing"
          else codes "malware")
      else if is_suspicious verdict
      then codes "suspicious"
      else category

  -- A total below 0, which only a brand-spoofing score below 10 can give, counts as 0.
  unfoldable pub analyze_normalized : Text → AnalysisResult
  unfolding tally category_of
  analyze_normalized domain =
      let t = tally domain in
      let score = min 100 (t.score - t.discount) in
      let verdict = verdict_of_score score in
      record {
        domain = domain;
        verdict = verdict;
        confidence = confidence_of_score score;
        score = score;
        reasons = t.reasons;
        category = category_of domain verdict t.reasons;
      }

  abbrev pub error_message : DomainError → Text
  error_message empty_domain = codes "domain is empty"
  error_message unparsed_url = codes "domain could not be parsed from url"
  error_message invalid_characters = codes "domain contains invalid characters"

  unfoldable pub analyze : Text → AnalysisResult
  unfolding analyze_normalized
  analyze input = elim (normalize_domain platform input) [
    | ok domain ↦ analyze_normalized domain
    | err e ↦ record {
      domain = trim_space input;
      verdict = invalid;
      confidence = certain;
      score = 100;
      reasons = error_message e ∷ [];
      category = codes "uncategorized";
    }
  ]
