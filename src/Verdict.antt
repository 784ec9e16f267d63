-- ===== src/Verdict.antt =====
-- The results of internal/analysis/analysis.go and how a score becomes a verdict. A confidence is
-- counted in units of 1/3000, which makes `0.45 + score/120` and 0.92 whole numbers.
use safe_road.Base.{ℕ, ◌+◌, ◌*◌, min, Bool, true, false, List, leb, if◌then◌else◌, Text}

pub data Verdict : Type 0 where
  invalid safe suspicious malicious : Verdict

pub record AnalysisResult : Type 0 where
  pub domain : Text
  pub verdict : Verdict
  pub confidence : ℕ
  pub score : ℕ
  pub reasons : List Text
  pub category : Text

abbrev pub certain : ℕ
certain = 3000

unfoldable pub verdict_of_score : ℕ → Verdict
verdict_of_score score =
    if leb 70 score then malicious else if leb 40 score then suspicious else safe

-- `math.Min(1, 0.45+float64(score)/120)`
unfoldable pub confidence_of_score : ℕ → ℕ
confidence_of_score score = min certain (1350 + 25 * score)

abbrev pub is_malicious : Verdict → Bool
is_malicious malicious = true
is_malicious _ = false

abbrev pub is_suspicious : Verdict → Bool
is_suspicious suspicious = true
is_suspicious _ = false
