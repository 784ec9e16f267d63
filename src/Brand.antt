-- ===== src/Brand.antt =====
-- `CheckBrandSpoofing` of internal/analysis/brand.go. A `false` result is `none`. The decoder of
-- internationalised names comes from golang.org/x/net/idna and is an argument, `none` where it fails.
-- A penalty, which is negative where the configured score is below ten and a subdomain names a brand,
-- is the number `penalty` less the number `discount`.
pub mod Tables
pub mod Found
pub mod Penalty
use safe_road.Base.{
  ℕ, zero, suc, ◌+◌, ◌-◌, Bool, true, false, not, ◌&&◌, ◌||◌, Option, none, some, List, [], ◌∷◌,
  ◌++◌, map, min, ltb, leb, ◌==◌, if◌then◌else◌, Text, text_eq, codes, any, length,
}
use safe_road.Strings.{trim_space, split, contains, byte_len}
use safe_road.Domain.{Platform, to_lower, double_tlds, get_root_domain, is_vietnam_government_root}
use safe_road.Distance.{levenshtein_distance, weighted_levenshtein_distance}
use safe_road.Brand.Tables.{Brand, homoglyph_map, suspicious_tlds, trusted_brands}

pub record Spoof : Type 0 where
  pub reason : Text
  pub penalty : ℕ
  pub discount : ℕ

unfoldable pub map_rune : List (ℕ × ℕ) → ℕ → ℕ
map_rune [] r = r
map_rune ((look, mapped) ∷ rest) r =
    let later = map_rune rest r in if look == r then mapped else later

unfoldable pub to_skeleton : Text → Text
unfolding map_rune
to_skeleton s = map (map_rune homoglyph_map) s

unfoldable pub last_label : List Text → Text
last_label [] = []
last_label (l ∷ []) = l
last_label (l ∷ m ∷ ls) = last_label (m ∷ ls)

unfoldable pub second_last_label : List Text → Text
second_last_label [] = []
second_last_label (l ∷ []) = []
second_last_label (l ∷ m ∷ []) = l
second_last_label (l ∷ m ∷ n ∷ ls) = second_last_label (m ∷ n ∷ ls)

-- Each label with its skeleton, or with itself where the skeleton has fewer labels.
unfoldable pub with_skeletons : List Text → List Text → List (Text × Text)
with_skeletons [] sks = []
with_skeletons (l ∷ ls) [] = (l, l) ∷ with_skeletons ls []
with_skeletons (l ∷ ls) (sk ∷ sks) = (l, sk) ∷ with_skeletons ls sks

-- The local variables of the function.
pub record Names : Type 0 where
  pub root_domain : Text
  pub labels : List Text
  pub pairs : List (Text × Text)
  pub tld : Text
  pub skeleton_root_domain : Text
  pub is_homoglyph_spoof : Bool

unfoldable pub is_official : Text → Brand → Bool
is_official root b = text_eq root b.official_domain || any (text_eq root) b.alt_domains

-- The two `continue`s for labels that belong to the suffix.
unfoldable pub is_suffix_label : Names → Text → Bool
unfolding last_label second_last_label
is_suffix_label n label =
    (ltb 1 (length n.labels) && text_eq label (last_label n.labels))
    || (ltb 2 (length n.labels)
        && text_eq label (second_last_label n.labels)
        && any (text_eq label) double_tlds)

unfoldable pub bonus : Names → ℕ
bonus n = if any (text_eq n.tld) suspicious_tlds then 20 else 0

abbrev pub of_brand : Brand → Text → Text
of_brand b label = b.name ++ codes " brand (" ++ label ++ codes ")"

-- The typosquatting checks of one label.
unfoldable pub label_spoof : Platform → ℕ → Names → Brand → Text × Text → Option Spoof
unfolding is_suffix_label bonus
label_spoof platform score n b (label, sk) =
    let w = weighted_levenshtein_distance platform sk b.name in
    let d = levenshtein_distance sk b.name in
    if is_suffix_label n label || ltb (min (byte_len b.name) (byte_len sk)) 4
    then none
    else if text_eq sk b.name && not (text_eq label b.name) && n.is_homoglyph_spoof
    then some (record {
      reason = codes "homoglyph visual spoofing of " ++ of_brand b label;
      penalty = score + bonus n;
      discount = 0;
    })
    else if ltb 0 w && leb w 3
    then some (record {
      reason =
          (if text_eq sk label
            then codes "keyboard typosquatting of "
            else codes "homoglyph keyboard typosquatting of ")
          ++ of_brand b label;
      penalty = score + bonus n;
      discount = 0;
    })
    else if ltb 0 d && leb d 2
    then some (record {
      reason = codes "typosquatting of " ++ of_brand b label;
      penalty = score + bonus n;
      discount = 0;
    })
    else none

abbrev pub or_later {ℓ} : {A : Type ℓ} → Option A → Option A → Option A
or_later none later = later
or_later (some a) later = some a

abbrev pub first_spoof {ℓ} : {A : Type ℓ} → (A → Option Spoof) → List A → Option Spoof
first_spoof f [] = none
first_spoof f (a ∷ as') = or_later (f a) (first_spoof f as')

unfoldable pub keyword_spoof : ℕ → Names → Brand → Option Spoof
unfolding bonus
keyword_spoof score n b =
    if contains n.root_domain b.name || contains n.skeleton_root_domain b.name
    then some (record {
      reason = codes "suspicious usage of trusted brand keyword (" ++ b.name ++ codes ")";
      penalty = score + bonus n;
      discount = 0;
    })
    else none

-- The labels before those of the root domain: `count` of them are left.
unfoldable pub subdomain_spoof : ℕ → Names → Brand → ℕ → List (Text × Text) → Option Spoof
unfolding bonus
subdomain_spoof score n b zero pairs = none
subdomain_spoof score n b (suc count) [] = none
subdomain_spoof score n b (suc count) ((label, sk) ∷ pairs) =
    let later = subdomain_spoof score n b count pairs in
    if text_eq label b.name || contains label b.name || text_eq sk b.name || contains sk b.name
    then some (record {
      reason = codes "suspicious brand subdomain usage (" ++ b.name ++ codes ")";
      penalty = score + bonus n;
      discount = 10;
    })
    else later

-- The body of the loop over the brands.
unfoldable pub brand_spoof : Platform → ℕ → Names → Brand → Option Spoof
unfolding is_official label_spoof keyword_spoof subdomain_spoof
brand_spoof platform score n b =
    if is_official n.root_domain b
    then none
    else or_later (first_spoof (label_spoof platform score n b) n.pairs) (
        or_later (keyword_spoof score n b)
          (subdomain_spoof score n b (length n.labels - length (split n.root_domain b'.')) n.pairs))

abbrev pub decoded_or : Text → Option Text → Text
decoded_or domain none = domain
decoded_or domain (some d) = d

unfoldable pub tld_of : List Text → Text
unfolding last_label
tld_of root_parts = if ltb 1 (length root_parts) then last_label root_parts else []

unfoldable pub names_of : Platform → (Text → Option Text) → Text → Names
unfolding to_skeleton with_skeletons tld_of
names_of platform to_unicode domain =
    let unicode = decoded_or domain (to_unicode domain) in
    let root = get_root_domain platform domain in
    let labels = split domain b'.' in
    record {
      root_domain = root;
      labels = labels;
      pairs = with_skeletons labels (split (to_skeleton unicode) b'.');
      tld = tld_of (split root b'.');
      skeleton_root_domain = to_skeleton (get_root_domain platform unicode);
      is_homoglyph_spoof = not (text_eq (to_skeleton unicode) unicode);
    }

unfoldable pub check_lower : Platform → (Text → Option Text) → ℕ → Text → Option Spoof
unfolding brand_spoof names_of
check_lower platform to_unicode score [] = none
check_lower platform to_unicode score (c ∷ s) =
    let domain = c ∷ s in
    if is_vietnam_government_root platform (get_root_domain platform domain)
    then none
    else first_spoof (brand_spoof platform score (names_of platform to_unicode domain))
        trusted_brands

unfoldable pub check_brand_spoofing : Platform → (Text → Option Text) → Text → ℕ → Option Spoof
unfolding check_lower
check_brand_spoofing platform to_unicode domain score =
    check_lower platform to_unicode score (to_lower platform (trim_space domain))
