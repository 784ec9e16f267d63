-- ===== src/Tests/Spoofs.antt =====
-- internal/analysis: edit distances, spoofed brands and lexical scores.
use mathlib.Core.List.Memᴰ.{head}
use safe_road.Base.{
  ◌≤◌, false, Option, none, some, List, [], ◌∷◌, ◌≡◌, ◌≢◌, refl, arith, Text, codes, text_eq,
}
use safe_road.Domain.{ok, normalize_domain}
use safe_road.Distance.{levenshtein_distance, weighted_levenshtein_distance, different}
use safe_road.Distance.Scripts.{Edit, put, swap, source, target, cost}
use safe_road.Distance.Minimal.{levenshtein_distance_least}
use safe_road.Brand.{Spoof, check_brand_spoofing, names_of, is_suffix_label}
use safe_road.Brand.Tables.{Brand}
use safe_road.Brand.Found.{check_brand_spoofing_near}
use safe_road.Lexical.{
  AnalysisConfig, default_analysis_config, Measures, analyze, is_protected_abuse,
}
use safe_road.Tests.{ascii}

-- `gogle` from `google`, and an `o` for a `p`.
abbrev edits : List Edit
edits = put b'g' ∷ swap b'p' b'o' ∷ []

levenshtein_distance_least_example :
    let d = levenshtein_distance (codes "p") (codes "go") in
    (d ≤ 2)
    × ((es : List Edit) × (source es ≡ codes "p")
        × (target es ≡ codes "go")
        × (cost 1 different es ≡ d))
unfolding different
levenshtein_distance_least_example = levenshtein_distance_least edits

distances :
    (levenshtein_distance (codes "gogle") (codes "google") ≡ 1)
    × (levenshtein_distance (codes "kitten") (codes "sitting") ≡ 3)
    × (weighted_levenshtein_distance ascii (codes "gopgle") (codes "google") ≡ 1)
unfolding levenshtein_distance weighted_levenshtein_distance safe_road.Domain.lower
    safe_road.Strings.contains_rune
distances = (refl, refl, refl)

abbrev google : Brand
google = record {
  name = codes "google";
  official_domain = codes "google.com";
  alt_domains = codes "google.com.vn" ∷ codes "google.co.uk" ∷ codes "google.com.sg" ∷ [];
}

abbrev gogle_edits : List Edit
gogle_edits =
    swap b'g' b'g'
    ∷ swap b'o' b'o'
    ∷ put b'o'
    ∷ swap b'g' b'g'
    ∷ swap b'l' b'l'
    ∷ swap b'e' b'e'
    ∷ []

abbrev no_idna : Text → Option Text
no_idna s = none

check_brand_spoofing_near_example : check_brand_spoofing ascii no_idna (codes "gogle.com") 50 ≢ none
unfolding names_of safe_road.Strings.trim_space safe_road.Domain.to_lower text_eq is_suffix_label
    different safe_road.Strings.split safe_road.Domain.get_root_domain safe_road.Brand.is_official
    safe_road.Domain.is_vietnam_government_root safe_road.Strings.byte_len
    safe_road.Brand.to_skeleton safe_road.Brand.with_skeletons safe_road.Strings.has_suffix
check_brand_spoofing_near_example =
    check_brand_spoofing_near ascii no_idna (codes "gogle.com") 50 google (codes "gogle")
      gogle_edits (λ e. cc) refl (head refl) refl (head refl) refl (omega arith) (omega arith) refl
      refl (omega arith)

abbrev gogle_report : Spoof
gogle_report = record {
  reason = codes "keyboard typosquatting of google brand (gogle)";
  penalty = 50;
  discount = 0;
}

gogle_found : check_brand_spoofing ascii no_idna (codes "gogle.com") 50 ≡ some gogle_report
unfolding check_brand_spoofing safe_road.Strings.trim_space safe_road.Domain.to_lower
    safe_road.Domain.is_vietnam_government_root text_eq safe_road.Domain.get_root_domain
    safe_road.Strings.split safe_road.Strings.has_suffix safe_road.Strings.byte_len
    weighted_levenshtein_distance safe_road.Strings.contains_rune
gogle_found = refl

abbrev measures : Measures
measures = record { is_digit_wide = λ c. false; to_unicode = no_idna; entropy_exceeds = λ s. false }

gogle_score : (analyze ascii measures default_analysis_config (codes "gogle.com")).score ≡ 50
unfolding analyze normalize_domain safe_road.Strings.trim_space safe_road.Domain.to_lower
    safe_road.Domain.host_of_url safe_road.Strings.contains safe_road.Domain.check_runes
    safe_road.Strings.trim_suffix_rune safe_road.Domain.drop_port safe_road.Strings.count_rune
    safe_road.Lexical.tally safe_road.Lexical.first_rules safe_road.Lexical.last_rules
    safe_road.Lexical.add_if safe_road.Lexical.add_keywords safe_road.Lexical.add_protected
    safe_road.Strings.byte_len safe_road.Domain.get_main_label safe_road.Strings.split
    safe_road.Domain.get_root_domain safe_road.Lexical.add_spoof check_brand_spoofing
    safe_road.Lexical.high_digit_ratio safe_road.Lexical.mixed_scripts
    safe_road.Lexical.suspicious_keyword_stats safe_road.Lexical.is_protected_abuse
    safe_road.Strings.has_prefix safe_road.Strings.has_suffix
    safe_road.Domain.is_vietnam_government_root weighted_levenshtein_distance
    safe_road.Strings.contains_rune
gogle_score = refl
