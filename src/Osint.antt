-- ===== src/Osint.antt =====
-- When warnings of official sites are looked up and what they do to a result: ShouldLookup and Apply
-- of internal/osint/osint.go.
use safe_road.Base.{
  Bool, false, ◌||◌, Option, none, some, List, [], ◌∷◌, ◌++◌, max, leb, if◌then◌else◌, Text,
  text_eq, codes, any,
}
use safe_road.Strings.{contains, has_suffix}
use safe_road.Domain.{Platform, ok, err, normalize_domain}
use safe_road.Verdict.{AnalysisResult, malicious, is_suspicious}

pub record Report : Type 0 where
  pub should_block : Bool
  pub evidence : List Text

abbrev pub sensitive_domain_terms : List Text
sensitive_domain_terms =
    codes "dichvucong"
    ∷ codes "congdichvu"
    ∷ codes "nganhang"
    ∷ codes "bank"
    ∷ codes "thuethunhap"
    ∷ codes "thue"
    ∷ codes "baohiem"
    ∷ codes "bhxh"
    ∷ codes "congan"
    ∷ codes "police"
    ∷ codes "dvc"
    ∷ codes "vneid"
    ∷ codes "govvn"
    ∷ []

unfoldable pub is_gov_vn : Text → Bool
is_gov_vn d = text_eq d (codes "gov.vn") || has_suffix d (codes ".gov.vn")

-- osint.ShouldLookup
unfoldable pub should_lookup : Platform → Text → AnalysisResult → Bool
unfolding is_gov_vn
should_lookup platform domain r = elim (normalize_domain platform domain) [
  | err e ↦ false
  | ok d ↦
      if is_gov_vn d
      then false
      else any (contains d) sensitive_domain_terms || is_suspicious r.verdict || leb 35 r.score
]

abbrev pub no_report : Report
no_report = record { should_block = false; evidence = [] }

abbrev pub report_or_none : Option Report → Report
report_or_none none = no_report
report_or_none (some r) = r

abbrev pub warning_reason : Text
warning_reason = codes "public warning evidence: official/trusted source reports phishing"

-- osint.Service.Apply
unfoldable pub apply_report : AnalysisResult → Report → AnalysisResult
apply_report r report =
    if report.should_block
    then record r {
      score = max r.score 90;
      verdict = malicious;
      confidence = max r.confidence 2760;
      category = codes "phishing";
      reasons =
          if any (λ t. contains t (codes "public warning evidence")) r.reasons
          then r.reasons
          else r.reasons ++ warning_reason ∷ [];
    }
    else r
