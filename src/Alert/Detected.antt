-- ===== src/Alert/Detected.antt =====
-- The spoofed Vietnamese brands that internal/agent/alert.go reports as critical.
use safe_road.Base.{
  ◌≡◌, refl, arith, ◌∙◌, ap, ap₂, sym, ◌≢◌, Bool, true, false, ◌&&◌, ◌||◌, Option, none, some, List,
  [], ◌∷◌, Text, text_eq, text_eq_refl, any, inl, inr, Option-cases,
}
use safe_road.Domain.{Platform}
use safe_road.Brand.{check_brand_spoofing}
use safe_road.Alert.{
  SpoofResult, spoof_result, gov_brands, bank_brands, is_brand_match, matching_brand, classified,
  detect_vietnam_brand_spoof,
}

abbrev pub is_listed : SpoofResult → Text × Text → Bool
is_listed s (brand, official) = text_eq s.brand_name brand && text_eq s.official_domain official

-- The brand is in a table with its official domain, and the reason names it.
abbrev pub is_known : Platform → SpoofResult → Bool
is_known platform s =
    (any (is_listed s) gov_brands || any (is_listed s) bank_brands)
    && is_brand_match platform s.reason s.brand_name

matching_brand_sound :
    (platform : Platform) (reason : Text) (rows : List (Text × Text)) {row : Text × Text}
    → matching_brand platform reason rows ≡ some row
    → (is_brand_match platform reason row.0 ≡ true)
      × (any (λ (r : Text × Text). text_eq row.0 r.0 && text_eq row.1 r.1) rows ≡ true)
unfolding matching_brand
matching_brand_sound platform reason [] e = cc
matching_brand_sound platform reason ((brand, official) ∷ rows) {row} e = ground (
  arith,
  e,
  text_eq_refl row.0,
  text_eq_refl row.1,
  matching_brand_sound platform reason rows {row = row},
)

some_injective : {A : Type 0} {a b : A} → some a ≡ some b → a ≡ b
some_injective {a = a} e = ap (λ o. elim o [ none ↦ a | some x ↦ x ]) e

or_right : (a b : Bool) → b ≡ true → (a || b) ≡ true
or_right a b h = ground (arith, h)

classified_sound :
    (platform : Platform) (domain reason : Text) {s : SpoofResult}
    → classified platform domain reason ≡ some s
    → (s.domain ≡ domain) × (is_known platform s ≡ true)
classified_sound platform domain reason {s} e =
    elim (Option-cases (matching_brand platform reason gov_brands)) [
      | inr (row, h) ↦
          let found : classified platform domain reason
              ≡ some (spoof_result platform domain reason true row) =
            rw (h, classified) refl in
          let same = some_injective (sym found ∙ e) in
          let (named, listed) = matching_brand_sound platform reason gov_brands h in
          rw (← same) (
            refl,
            ap₂
                (λ a b.
                  (a || any (is_listed (spoof_result platform domain reason true row)) bank_brands)
                  && b)
                listed named,
          )
      | inl h ↦ elim (Option-cases (matching_brand platform reason bank_brands)) [
        | inr (row, k) ↦
            let found : classified platform domain reason
                ≡ some (spoof_result platform domain reason false row) =
              rw (h, k, classified) refl in
            let same = some_injective (sym found ∙ e) in
            let (named, listed) = matching_brand_sound platform reason bank_brands k in
            rw (← same) (
              refl,
              ap₂ ◌&&◌
                  (or_right
                    (any (is_listed (spoof_result platform domain reason false row)) gov_brands) _
                    listed)
                  named,
            )
        | inl k ↦
            let found : classified platform domain reason ≡ none = rw (h, k, classified) refl in
            absurd cc
      ]
    ]

-- A domain that is reported as critical spoofs a brand by the check with a penalty of 30, and the
-- brand that is reported stands in one of the two tables with the official domain that is reported,
-- and is the one that the reason of the check names.
pub detect_vietnam_brand_spoof_sound :
    (platform : Platform) (to_unicode : Text → Option Text) (domain : Text) {s : SpoofResult}
    → detect_vietnam_brand_spoof platform to_unicode domain ≡ some s
    → (s.domain ≡ domain)
      × (is_known platform s ≡ true)
      × (check_brand_spoofing platform to_unicode domain 30 ≢ none)
unfolding detect_vietnam_brand_spoof
detect_vietnam_brand_spoof_sound platform to_unicode domain {s} e =
    elim (Option-cases (check_brand_spoofing platform to_unicode domain 30)) [
      | inl h ↦
          let found : detect_vietnam_brand_spoof platform to_unicode domain ≡ none =
            rw (h, detect_vietnam_brand_spoof) refl in
          absurd (cc)
      | inr (sp, h) ↦
          let found : detect_vietnam_brand_spoof platform to_unicode domain
              ≡ classified platform domain sp.reason =
            rw (h, detect_vietnam_brand_spoof) refl in
          let (same, known) = classified_sound platform domain sp.reason (sym found ∙ e) in
          (same, known, λ n. cc)
    ]
