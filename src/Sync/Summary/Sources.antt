-- ===== src/Sync/Summary/Sources.antt =====
-- What the list of feed sources of internal/feed/status.go holds.
use safe_road.Base.{
  Bool, true, false, not, ◌&&◌, ◌||◌, List, [], ◌∷◌, ◌++◌, ◌≡◌, refl, ap, ◌∙◌, arith, inl, inr,
  Bool-cases, Text, text_eq, text_eq_iff, any, if◌then◌else◌,
}
use safe_road.Strings.{trim_space, split_where, without_empty}
use safe_road.Sync.Summary.{keep_sources, parse_sources, is_separator}

-- No text twice.
abbrev pub Apart : List Text → Type 0
Apart [] = Unit {0}
Apart (s ∷ ss) = (any (λ t. text_eq t s) ss ≡ false) × Apart ss

any-snoc : (f : Text → Bool) (xs : List Text) (x : Text) → any f (xs ++ x ∷ []) ≡ any f xs || f x
any-snoc f [] x = ground arith
any-snoc f (y ∷ xs) x = ground (arith, any-snoc f xs x)

snoc-Apart :
    (ss : List Text) (s : Text) → any (text_eq s) ss ≡ false → Apart ss → Apart (ss ++ s ∷ [])
snoc-Apart [] s h a = (refl, tt)
snoc-Apart (t ∷ ss) s h (new, a) = (
  any-snoc (λ u. text_eq u t) ss s ∙ ground (arith, h, new),
  snoc-Apart ss s (ground (arith, h)) a,
)

keep_sources-Apart : (seen parts : List Text) → Apart seen → Apart (keep_sources seen parts)
unfolding keep_sources
keep_sources-Apart seen [] a = a
keep_sources-Apart seen (p ∷ ps) a =
    elim (Bool-cases (text_eq (trim_space p) [] || any (text_eq (trim_space p)) seen)) [
      | inl e ↦ rw e (keep_sources-Apart seen ps a)
      | inr e ↦ rw e (
          keep_sources-Apart (seen ++ trim_space p ∷ []) ps
            (snoc-Apart seen (trim_space p) (ground (arith, e)) a))
    ]

abbrev pub trims_to : Text → Text → Bool
trims_to d p = not (text_eq (trim_space p) []) && text_eq d (trim_space p)

known :
    (d t : Text) (seen : List Text)
    → any (text_eq t) seen ≡ true
    → text_eq d t ≡ true
    → any (text_eq d) seen ≡ true
known d t seen h e = ap (λ u. any (text_eq u) seen) ((text_eq_iff d t).0 e) ∙ h

any-if :
    (f : Text → Bool) (b : Bool) (xs ys : List Text)
    → any f (if b then xs else ys) ≡ (if b then any f xs else any f ys)
any-if f true xs ys = refl
any-if f false xs ys = refl

one :
    (blank old has same rest longer now : Bool)
    → longer ≡ has || same
    → (old ≡ true → same ≡ true → has ≡ true)
    → now ≡ (if blank || old then has else longer)
    → now || rest ≡ has || (not blank && same || rest)
one blank old has same rest longer now l k n = ground (arith, l, k, n)

-- A text is kept when it was seen or is a part that is not blank, trimmed.
keep_sources-any :
    (d : Text) (seen parts : List Text)
    → any (text_eq d) (keep_sources seen parts) ≡ any (text_eq d) seen || any (trims_to d) parts
unfolding keep_sources
keep_sources-any d seen [] = ground arith
keep_sources-any d seen (p ∷ ps) =
    let t = trim_space p in
    keep_sources-any d (if text_eq t [] || any (text_eq t) seen then seen else seen ++ t ∷ []) ps
    ∙ one (text_eq t []) (any (text_eq t) seen) (any (text_eq d) seen) (text_eq d t)
        (any (trims_to d) ps) (any (text_eq d) (seen ++ t ∷ []))
        (any (text_eq d) (if text_eq t [] || any (text_eq t) seen then seen else seen ++ t ∷ []))
        (any-snoc (text_eq d) seen t) (known d t seen)
        (any-if (text_eq d) (text_eq t [] || any (text_eq t) seen) seen (seen ++ t ∷ []))

-- ParseSources gives no source twice; they are the parts of the text, cut at commas and ends of lines
-- and trimmed, that are not blank.
pub parse_sources_lem :
    (raw d : Text)
    → Apart (parse_sources raw)
      × (any (text_eq d) (parse_sources raw)
          ≡ any (trims_to d) (without_empty (split_where is_separator raw)))
unfolding parse_sources
parse_sources_lem raw d =
    let parts = without_empty (split_where is_separator raw) in
    (keep_sources-Apart [] parts tt, keep_sources-any d [] parts)
