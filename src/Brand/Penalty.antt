-- ===== src/Brand/Penalty.antt =====
-- The penalties of `CheckBrandSpoofing` in internal/analysis/brand.go.
use mathlib.Core.Path.{subst}
use safe_road.Base.{
  ℕ, zero, suc, ◌+◌, ◌-◌, ◌≤◌, Option, none, some, List, [], ◌∷◌, ◌≡◌, arith, Text, length,
}
use safe_road.Strings.{trim_space, split}
use safe_road.Domain.{Platform, to_lower}
use safe_road.Brand.{
  Spoof, Names, names_of, bonus, label_spoof, or_later, first_spoof, keyword_spoof, subdomain_spoof,
  brand_spoof, check_lower, check_brand_spoofing,
}
use safe_road.Brand.Tables.{Brand, trusted_brands}

-- Between the score and the score with twenty more, before at most ten are taken off.
abbrev IsFair : ℕ → Option Spoof → Type 0
IsFair score none = Unit {0}
IsFair score (some s) = (score ≤ s.penalty) × (s.penalty ≤ score + 20) × (s.discount ≤ 10)

or_later-IsFair :
    (score : ℕ) (x y : Option Spoof) → IsFair score x → IsFair score y → IsFair score (or_later x y)
or_later-IsFair score none y hx hy = hy
or_later-IsFair score (some s) y hx hy = hx

first_spoof-IsFair :
    {A : Type 0} (score : ℕ) (f : A → Option Spoof) (xs : List A)
    → ((a : A) → IsFair score (f a))
    → IsFair score (first_spoof f xs)
first_spoof-IsFair score f [] h = tt
first_spoof-IsFair score f (x ∷ xs) h =
    or_later-IsFair score (f x) (first_spoof f xs) (h x) (first_spoof-IsFair score f xs h)

label_spoof-IsFair :
    (platform : Platform) (score : ℕ) (n : Names) (b : Brand) (pair : Text × Text)
    → IsFair score (label_spoof platform score n b pair)
unfolding label_spoof bonus
label_spoof-IsFair platform score n b (label, sk) = ground arith

keyword_spoof-IsFair : (score : ℕ) (n : Names) (b : Brand) → IsFair score (keyword_spoof score n b)
unfolding keyword_spoof bonus
keyword_spoof-IsFair score n b = ground arith

subdomain_spoof-IsFair :
    (score : ℕ) (n : Names) (b : Brand) (count : ℕ) (pairs : List (Text × Text))
    → IsFair score (subdomain_spoof score n b count pairs)
unfolding subdomain_spoof bonus
subdomain_spoof-IsFair score n b zero pairs = tt
subdomain_spoof-IsFair score n b (suc count) [] = tt
subdomain_spoof-IsFair score n b (suc count) ((label, sk) ∷ pairs) =
    ground (arith, subdomain_spoof-IsFair score n b count pairs)

brand_spoof-IsFair :
    (platform : Platform) (score : ℕ) (n : Names) (b : Brand)
    → IsFair score (brand_spoof platform score n b)
unfolding brand_spoof
brand_spoof-IsFair platform score n b =
    let count = length n.labels - length (split n.root_domain b'.') in
    ground (
      arith,
      or_later-IsFair score (first_spoof (label_spoof platform score n b) n.pairs)
          (or_later (keyword_spoof score n b) (subdomain_spoof score n b count n.pairs))
          (first_spoof-IsFair score (label_spoof platform score n b) n.pairs
            (label_spoof-IsFair platform score n b))
          (or_later-IsFair score (keyword_spoof score n b) (subdomain_spoof score n b count n.pairs)
            (keyword_spoof-IsFair score n b) (subdomain_spoof-IsFair score n b count n.pairs)),
    )

check_lower-IsFair :
    (platform : Platform) (to_unicode : Text → Option Text) (score : ℕ) (domain : Text)
    → IsFair score (check_lower platform to_unicode score domain)
unfolding check_lower
check_lower-IsFair platform to_unicode score [] = tt
check_lower-IsFair platform to_unicode score (c ∷ s) = ground (
  arith,
  first_spoof-IsFair score (brand_spoof platform score (names_of platform to_unicode (c ∷ s)))
      trusted_brands (brand_spoof-IsFair platform score (names_of platform to_unicode (c ∷ s))),
)

-- The penalty of a report is at least the configured score and at most that score plus twenty, before
-- at most ten are taken off.
pub check_brand_spoofing_penalty :
    (platform : Platform) (to_unicode : Text → Option Text) (domain : Text) (score : ℕ) {s : Spoof}
    → check_brand_spoofing platform to_unicode domain score ≡ some s
    → (score ≤ s.penalty) × (s.penalty ≤ score + 20) × (s.discount ≤ 10)
unfolding check_brand_spoofing
check_brand_spoofing_penalty platform to_unicode domain score {s} h =
    subst (IsFair score) h
      (check_lower-IsFair platform to_unicode score (to_lower platform (trim_space domain)))
