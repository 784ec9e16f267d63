-- ===== src/Brand/Found.antt =====
-- What `CheckBrandSpoofing` of internal/analysis/brand.go finds, and the penalties that it gives.
use mathlib.Core.List.{Memᴰ}
use mathlib.Core.List.Memᴰ.{head, tail, not-nil}
use safe_road.Base.{
  ℕ, ◌≤◌, false, Option, none, some, List, [], ◌∷◌, ◌≡◌, ◌≢◌, refl, arith, sym, ap, ◌∙◌, Text,
  text_eq, text_eq_iff,
}
use safe_road.Strings.{trim_space, byte_len}
use safe_road.Domain.{Platform, to_lower, is_vietnam_government_root, get_root_domain}
use safe_road.Distance.{levenshtein_distance, different}
use safe_road.Distance.Scripts.{Edit, drop, put, swap, source, target, cost}
use safe_road.Distance.Minimal.{levenshtein_distance_reached, levenshtein_distance-cost}
use safe_road.Brand.{
  Spoof, Names, names_of, is_official, is_suffix_label, label_spoof, or_later, first_spoof,
  brand_spoof, check_lower, check_brand_spoofing,
}
use safe_road.Brand.Tables.{Brand, trusted_brands}

-- A script without cost changes nothing.
free_script : (es : List Edit) → cost 1 different es ≡ 0 → source es ≡ target es
unfolding different
free_script [] h = refl
free_script (drop a ∷ es) h = absurd (omega (arith, h))
free_script (put c ∷ es) h = absurd (omega (arith, h))
free_script (swap a c ∷ es) h = ground (arith, h, free_script es)

levenshtein_distance_zero : (s1 s2 : Text) → levenshtein_distance s1 s2 ≡ 0 → s1 ≡ s2
levenshtein_distance_zero s1 s2 h =
    let (es, s, t, k) = levenshtein_distance_reached s1 s2 in sym s ∙ free_script es (k ∙ h) ∙ t

or_later_first : {A : Type 0} (x y : Option A) → x ≢ none → or_later x y ≢ none
or_later_first none y h = absurd (h refl)
or_later_first (some a) y h = λ e. cc

or_later_second : {A : Type 0} (x y : Option A) → y ≢ none → or_later x y ≢ none
or_later_second none y h = h
or_later_second (some a) y h = λ e. cc

first_spoof-Memᴰ :
    {A : Type 0} (f : A → Option Spoof) (a : A) (xs : List A)
    → Memᴰ a xs
    → f a ≢ none
    → first_spoof f xs ≢ none
first_spoof-Memᴰ f a [] m h = absurd (not-nil m)
first_spoof-Memᴰ f a (x ∷ xs) (head e) h =
    or_later_first (f x) (first_spoof f xs) (λ k. h (ap f e ∙ k))
first_spoof-Memᴰ f a (x ∷ xs) (tail m) h =
    or_later_second (f x) (first_spoof f xs) (first_spoof-Memᴰ f a xs m h)

label_spoof_near :
    (platform : Platform) (score : ℕ) (n : Names) (b : Brand) (label sk : Text)
    → is_suffix_label n label ≡ false
    → 4 ≤ byte_len b.name
    → 4 ≤ byte_len sk
    → text_eq sk b.name ≡ false
    → levenshtein_distance sk b.name ≤ 2
    → label_spoof platform score n b (label, sk) ≢ none
unfolding label_spoof
label_spoof_near platform score n b label sk no_suffix long long' other near = ground (
  arith,
  no_suffix,
  long,
  long',
  other,
  near,
  levenshtein_distance_zero sk b.name,
  text_eq_iff sk b.name,
)

brand_spoof_near :
    (platform : Platform) (score : ℕ) (n : Names) (b : Brand) (label sk : Text)
    → is_official n.root_domain b ≡ false
    → Memᴰ (label, sk) n.pairs
    → label_spoof platform score n b (label, sk) ≢ none
    → brand_spoof platform score n b ≢ none
unfolding brand_spoof
brand_spoof_near platform score n b label sk foreign m h = rw foreign (
    or_later_first (first_spoof (label_spoof platform score n b) n.pairs) _
      (first_spoof-Memᴰ (label_spoof platform score n b) (label, sk) n.pairs m h))

check_lower_near :
    (platform : Platform) (to_unicode : Text → Option Text) (score : ℕ) (domain : Text) (b : Brand)
    → domain ≢ []
    → is_vietnam_government_root platform (get_root_domain platform domain) ≡ false
    → Memᴰ b trusted_brands
    → brand_spoof platform score (names_of platform to_unicode domain) b ≢ none
    → check_lower platform to_unicode score domain ≢ none
unfolding check_lower
check_lower_near platform to_unicode score [] b full private m h = absurd (full refl)
check_lower_near platform to_unicode score (c ∷ s) b full private m h = rw private (
    first_spoof-Memᴰ (brand_spoof platform score (names_of platform to_unicode (c ∷ s))) b
      trusted_brands m h)

-- A domain outside gov.vn is reported if at most two edits turn the skeleton of one of its labels
-- into the name of a trusted brand, whose domain it is not and from whose name the skeleton differs;
-- the label is not one of the suffix, and both have at least four bytes.
pub check_brand_spoofing_near :
    (platform : Platform) (to_unicode : Text → Option Text) (domain : Text) (score : ℕ) (b : Brand)
    (label : Text) (es : List Edit)
    → let lower = to_lower platform (trim_space domain) in
      let n = names_of platform to_unicode lower in
      lower ≢ []
      → is_vietnam_government_root platform (get_root_domain platform lower) ≡ false
      → Memᴰ b trusted_brands
      → is_official n.root_domain b ≡ false
      → Memᴰ (label, source es) n.pairs
      → is_suffix_label n label ≡ false
      → 4 ≤ byte_len b.name
      → 4 ≤ byte_len (source es)
      → target es ≡ b.name
      → text_eq (source es) b.name ≡ false
      → cost 1 different es ≤ 2
      → check_brand_spoofing platform to_unicode domain score ≢ none
unfolding check_brand_spoofing
check_brand_spoofing_near platform to_unicode domain score b label es full private trusted foreign
      here no_suffix long long' reaches other cheap =
    let lower = to_lower platform (trim_space domain) in
    let n = names_of platform to_unicode lower in
    let near : levenshtein_distance (source es) b.name ≤ 2 =
      omega (
        arith,
        levenshtein_distance-cost es,
        ap (levenshtein_distance (source es)) reaches,
        cheap,
      ) in
    check_lower_near platform to_unicode score lower b full private trusted (
      brand_spoof_near platform score n b label (source es) foreign here
        (label_spoof_near platform score n b label (source es) no_suffix long long' other near))
