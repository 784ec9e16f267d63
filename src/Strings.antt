-- ===== src/Strings.antt =====
-- The functions of Go's `strings` package that the program calls, on valid UTF-8. A text is a list
-- of code points, and an index counts code points; `byte_len` is Go's `len`.
pub mod Split
use safe_road.Base.{
  ℕ, zero, suc, ◌+◌, ◌-◌, Bool, true, false, not, ◌&&◌, ◌||◌, Option, none, some, List, [], ◌∷◌,
  ◌++◌, ltb, leb, ◌==◌, if◌then◌else◌, Text, text_eq, codes,
}

-- unicode.IsSpace
unfoldable pub is_space : ℕ → Bool
is_space c =
    (leb 9 c && leb c 13)
    || c == 32
    || c == 0x85
    || c == 0xA0
    || c == 0x1680
    || (leb 0x2000 c && leb c 0x200A)
    || c == 0x2028
    || c == 0x2029
    || c == 0x202F
    || c == 0x205F
    || c == 0x3000

unfoldable pub trim_left : (ℕ → Bool) → Text → Text
trim_left p [] = []
trim_left p (c ∷ s) = let rest = trim_left p s in if p c then rest else c ∷ s

-- A code point before an already trimmed rest.
abbrev pub cons_trimmed : Bool → ℕ → Text → Text
cons_trimmed true c [] = []
cons_trimmed true c (d ∷ t) = c ∷ d ∷ t
cons_trimmed false c t = c ∷ t

unfoldable pub trim_right : (ℕ → Bool) → Text → Text
trim_right p [] = []
trim_right p (c ∷ s) = cons_trimmed (p c) c (trim_right p s)

-- strings.TrimSpace
unfoldable pub trim_space : Text → Text
unfolding trim_left trim_right is_space
trim_space s = trim_right is_space (trim_left is_space s)

-- strings.HasPrefix(s, prefix)
unfoldable pub has_prefix : Text → Text → Bool
has_prefix s [] = true
has_prefix [] (c ∷ p) = false
has_prefix (d ∷ s) (c ∷ p) = d == c && has_prefix s p

-- strings.HasSuffix(s, suffix)
unfoldable pub has_suffix : Text → Text → Bool
unfolding text_eq
has_suffix [] t = text_eq [] t
has_suffix (c ∷ s) t = text_eq (c ∷ s) t || has_suffix s t

-- strings.Contains(s, substr)
unfoldable pub contains : Text → Text → Bool
unfolding has_prefix
contains [] t = has_prefix [] t
contains (c ∷ s) t = has_prefix (c ∷ s) t || contains s t

-- strings.ContainsRune(s, r)
unfoldable pub contains_rune : Text → ℕ → Bool
contains_rune [] c = false
contains_rune (d ∷ s) c = d == c || contains_rune s c

-- strings.Count(s, substr) for a substr of one code point
unfoldable pub count_rune : Text → ℕ → ℕ
count_rune [] c = 0
count_rune (d ∷ s) c = let rest = count_rune s c in if d == c then suc rest else rest

abbrev pub cut_at : Bool → ℕ → Text → Option (Text × Text) → Option (Text × Text)
cut_at true d s rest = some ([], s)
cut_at false d s none = none
cut_at false d s (some (before, after)) = some (d ∷ before, after)

-- s[:i] and s[i+1:] at the first place of the code point, if there is one
unfoldable pub cut : Text → ℕ → Option (Text × Text)
cut [] c = none
cut (d ∷ s) c = cut_at (d == c) d s (cut s c)

-- The first part gets one more code point.
abbrev pub cons_first : ℕ → List Text → List Text
cons_first c [] = (c ∷ []) ∷ []
cons_first c (p ∷ ps) = (c ∷ p) ∷ ps

-- strings.Split(s, sep) for a sep of one code point
unfoldable pub split : Text → ℕ → List Text
split [] sep = [] ∷ []
split (c ∷ s) sep = let rest = split s sep in if c == sep then [] ∷ rest else cons_first c rest

-- strings.Join(parts, sep)
unfoldable pub join : List Text → ℕ → Text
join [] sep = []
join (p ∷ []) sep = p
join (p ∷ q ∷ ps) sep = p ++ sep ∷ join (q ∷ ps) sep

-- strings.TrimSuffix(s, suffix) for a suffix of one code point
unfoldable pub trim_suffix_rune : Text → ℕ → Text
trim_suffix_rune [] c = []
trim_suffix_rune (d ∷ []) c = if d == c then [] else d ∷ []
trim_suffix_rune (d ∷ e ∷ s) c = d ∷ trim_suffix_rune (e ∷ s) c

-- The bytes of a code point in UTF-8.
unfoldable pub rune_len : ℕ → ℕ
rune_len c = if ltb c 0x80 then 1 else if ltb c 0x800 then 2 else if ltb c 0x10000 then 3 else 4

-- len(s)
unfoldable pub byte_len : Text → ℕ
unfolding rune_len
byte_len [] = 0
byte_len (c ∷ s) = rune_len c + byte_len s

-- parts[i:] joined for each i in turn: a domain with its parents.
unfoldable pub suffixes : List Text → ℕ → List Text
unfolding join
suffixes [] sep = []
suffixes (p ∷ ps) sep = join (p ∷ ps) sep ∷ suffixes ps sep

-- strings.Fields(s)
unfoldable pub split_where : (ℕ → Bool) → Text → List Text
split_where p [] = [] ∷ []
split_where p (c ∷ s) = let rest = split_where p s in if p c then [] ∷ rest else cons_first c rest

unfoldable pub without_empty : List Text → List Text
without_empty [] = []
without_empty ([] ∷ parts) = without_empty parts
without_empty ((c ∷ s) ∷ parts) = (c ∷ s) ∷ without_empty parts

unfoldable pub fields : Text → List Text
unfolding is_space split_where without_empty
fields s = without_empty (split_where is_space s)
