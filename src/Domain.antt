-- ===== src/Domain.antt =====
-- Domain names, internal/analysis: `NormalizeDomain` of analysis.go and `getRootDomain`,
-- `getMainLabel` and `isVietnamGovernmentRoot` of brand.go.
pub mod Normal
pub mod Root
pub mod Dots
use safe_road.Base.{
  ℕ, zero, suc, ◌+◌, ◌-◌, Bool, true, false, not, ◌&&◌, ◌||◌, Option, none, some, List, [], ◌∷◌,
  ◌++◌, map, ltb, leb, ◌==◌, if◌then◌else◌, Text, text_eq, codes, length, any,
}
use safe_road.Strings.{
  trim_space, has_suffix, contains, cut, split, count_rune, trim_suffix_rune, byte_len,
}

-- What the code takes from Go's Unicode tables and from net/url: the lower case of a code point
-- beyond ASCII, and the host name of a parsed URL, `none` where the parser fails.
pub record Platform : Type 0 where
  pub lower_wide : ℕ → ℕ
  pub hostname : Text → Option Text

pub data DomainError : Type 0 where
  empty_domain unparsed_url invalid_characters : DomainError

pub data Result {ℓ} (A : Type ℓ) : Type ℓ where
  ok : A → Result A
  err : DomainError → Result A

infixl 5 ◌>>=◌
abbrev pub ◌>>=◌ {ℓ κ} : {A : Type ℓ} {B : Type κ} → Result A → (A → Result B) → Result B
ok a >>= f = f a
err e >>= f = err e

abbrev pub is_digit : ℕ → Bool
is_digit c = leb b'0' c && leb c b'9'

abbrev pub is_ascii_letter : ℕ → Bool
is_ascii_letter c = (leb b'a' c && leb c b'z') || (leb b'A' c && leb c b'Z')

-- The test of the loop: below `utf8.RuneSelf` the letters and digits are those of ASCII, and what
-- lies above it is let through.
unfoldable pub is_domain_rune : ℕ → Bool
is_domain_rune c = c == b'.' || c == b'-' || is_ascii_letter c || is_digit c || ltb 0x80 c

unfoldable pub all_runes : (ℕ → Bool) → Text → Bool
all_runes p [] = true
all_runes p (c ∷ s) = p c && all_runes p s

module _ (platform : Platform) where
  unfoldable pub lower : ℕ → ℕ
  lower c =
      if ltb c 0x80 then (if leb b'A' c && leb c b'Z' then c + 32 else c) else platform.lower_wide c

  -- strings.ToLower
  unfoldable pub to_lower : Text → Text
  unfolding lower
  to_lower s = map lower s

-- The host of a URL, for a text that looks like one.
unfoldable pub host_of_url : Platform → Text → Result Text
host_of_url platform value = elim (contains value (codes "://")) [
  | false ↦ ok value
  | true ↦ elim (platform.hostname value) [
    | none ↦ err unparsed_url
    | some [] ↦ err unparsed_url
    | some (c ∷ host) ↦ ok (c ∷ host)
  ]
]

-- What stands before the only colon, unless that is nothing.
unfoldable pub drop_port : Text → Text
drop_port value = elim (count_rune value b':' == 1) [
  | false ↦ value
  | true ↦ elim (cut value b':') [
    | none ↦ value
    | some ([], port) ↦ value
    | some (c ∷ host, port) ↦ c ∷ host
  ]
]

unfoldable pub check_runes : Text → Result Text
unfolding is_domain_rune all_runes
check_runes [] = err empty_domain
check_runes (c ∷ s) =
    if all_runes is_domain_rune (c ∷ s) then ok (c ∷ s) else err invalid_characters

abbrev non_empty : Text → Result Text
non_empty [] = err empty_domain
non_empty (c ∷ s) = ok (c ∷ s)

unfoldable pub normalize_domain : Platform → Text → Result Text
normalize_domain platform input = do
  value ← non_empty (trim_space (to_lower platform input))
  host ← host_of_url platform value
  check_runes (trim_suffix_rune (drop_port host) b'.')

abbrev pub double_tlds : List Text
double_tlds =
    codes "com"
    ∷ codes "co"
    ∷ codes "net"
    ∷ codes "org"
    ∷ codes "gov"
    ∷ codes "edu"
    ∷ codes "ac"
    ∷ []

-- The last labels, nearest to the end first.
abbrev root_of_labels : Text → List Text → Text
root_of_labels domain (last ∷ second_last ∷ third_last ∷ rest) =
    if any (text_eq second_last) double_tlds && byte_len last == 2
    then third_last ++ b'.' ∷ (second_last ++ b'.' ∷ last)
    else second_last ++ b'.' ∷ last
root_of_labels domain labels = domain

unfoldable pub reverse_onto : List Text → List Text → List Text
reverse_onto [] out = out
reverse_onto (p ∷ ps) out = reverse_onto ps (p ∷ out)

unfoldable pub get_root_domain : Platform → Text → Text
unfolding reverse_onto
get_root_domain platform domain =
    let domain = to_lower platform (trim_space domain) in
    root_of_labels domain (reverse_onto (split domain b'.') [])

abbrev first_part : Text → List Text → Text
first_part domain [] = domain
first_part domain (p ∷ ps) = p

unfoldable pub get_main_label : Platform → Text → Text
get_main_label platform domain = first_part domain (split (get_root_domain platform domain) b'.')

unfoldable pub is_vietnam_government_root : Platform → Text → Bool
is_vietnam_government_root platform root =
    let root = to_lower platform (trim_space root) in
    text_eq root (codes "gov.vn") || has_suffix root (codes ".gov.vn")
