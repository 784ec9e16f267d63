-- ===== src/Domain/Dots.antt =====
-- Full stops at the end of a name in `NormalizeDomain` of internal/analysis/analysis.go: one is
-- dropped, so a name with two is not yet in normal form after it.
use mathlib.Core.List.{map-append}
use safe_road.Base.{
  ℕ, suc, ◌≤◌, ◌≡◌, refl, arith, Bool, true, false, inl, inr, [], ◌∷◌, ◌++◌, Text, text_eq,
  Bool-cases, length, ap, ◌∙◌, &&_iff,
}
use safe_road.Strings.{trim_space, trim_left, trim_right, is_space, cons_trimmed, trim_suffix_rune}
use safe_road.Domain.{Platform, ok, is_domain_rune, all_runes, lower, to_lower, normalize_domain}
use safe_road.Domain.Normal.{IsPlain, normalize_domain-IsPlain, check_runes-permitted}

length-trim_left : (p : ℕ → Bool) (s : Text) → length (trim_left p s) ≤ length s
unfolding trim_left
length-trim_left p [] = omega arith
length-trim_left p (c ∷ s) = ground (arith, length-trim_left p s)

length-cons_trimmed : (b : Bool) (c : ℕ) (s : Text) → length (cons_trimmed b c s) ≤ suc (length s)
length-cons_trimmed true c [] = omega arith
length-cons_trimmed true c (d ∷ s) = omega arith
length-cons_trimmed false c s = omega arith

length-trim_right : (p : ℕ → Bool) (s : Text) → length (trim_right p s) ≤ length s
unfolding trim_right
length-trim_right p [] = omega arith
length-trim_right p (c ∷ s) =
    omega (arith, length-cons_trimmed (p c) c (trim_right p s), length-trim_right p s)

-- A trimmed text does not begin with a space.
trimmed-first : (c : ℕ) (s : Text) → trim_space (c ∷ s) ≡ c ∷ s → is_space c ≡ false
unfolding trim_space trim_left
trimmed-first c s h = elim (Bool-cases (is_space c)) [
  | inl space ↦
      let shorter : trim_right is_space (trim_left is_space s) ≡ c ∷ s = rw (space) at h in
      absurd (
        omega (
          arith,
          ap length shorter,
          length-trim_right is_space (trim_left is_space s),
          length-trim_left is_space s,
        ))
  | inr solid ↦ solid
]

trim_right-append :
    (s : Text) (c : ℕ) → is_space c ≡ false → trim_right is_space (s ++ c ∷ []) ≡ s ++ c ∷ []
unfolding trim_right
trim_right-append [] c h = rw h
trim_right-append (d ∷ []) c h =
    rw h (elim (Bool-cases (is_space d)) [ inl e ↦ rw e | inr e ↦ rw e ])
trim_right-append (d ∷ e ∷ s) c h =
    rw (trim_right-append (e ∷ s) c h)
      (elim (Bool-cases (is_space d)) [ inl p ↦ rw p | inr p ↦ rw p ])

trim_space-dot :
    (s : Text)
    → text_eq s [] ≡ false
    → trim_space s ≡ s
    → trim_space (s ++ b'.' ∷ []) ≡ s ++ b'.' ∷ []
unfolding trim_space text_eq
trim_space-dot [] e h = cc
trim_space-dot (c ∷ s) e h =
    rw (trim_left_solid c (s ++ b'.' ∷ []) (trimmed-first c s h))
      (trim_right-append (c ∷ s) b'.' refl)
  where
    trim_left_solid : (c : ℕ) (s : Text) → is_space c ≡ false → trim_left is_space (c ∷ s) ≡ c ∷ s
    trim_left_solid c s h = rw h

all_runes-dot :
    (s : Text)
    → all_runes is_domain_rune s ≡ true
    → all_runes is_domain_rune (s ++ b'.' ∷ []) ≡ true
unfolding all_runes is_domain_rune
all_runes-dot [] h = refl
all_runes-dot (c ∷ s) h =
    let (p, q) = (&&_iff (is_domain_rune c) (all_runes is_domain_rune s)).0 h in
    rw (p, all_runes-dot s q)

trim_suffix-dot : (s : Text) → trim_suffix_rune (s ++ b'.' ∷ []) b'.' ≡ s
unfolding trim_suffix_rune
trim_suffix-dot [] = refl
trim_suffix-dot (c ∷ []) = refl
trim_suffix-dot (c ∷ d ∷ s) = ap (λ t. c ∷ t) (trim_suffix-dot (d ∷ s))

-- A full stop at the end keeps a text plain.
IsPlain-dot :
    (platform : Platform) (s : Text) → IsPlain platform s → IsPlain platform (s ++ b'.' ∷ [])
unfolding to_lower text_eq all_runes
IsPlain-dot platform s n = record {
  non_empty = not_empty s;
  permitted = all_runes-dot s n.permitted;
  lower_case = map-append (lower platform) s (b'.' ∷ []) ∙ ap (λ t. t ++ b'.' ∷ []) n.lower_case;
  trimmed = trim_space-dot s n.non_empty n.trimmed;
}
  where
    not_empty : (s : Text) → text_eq (s ++ b'.' ∷ []) [] ≡ false
    not_empty [] = refl
    not_empty (c ∷ s) = refl

-- Of a plain name with full stops behind it, normalising drops exactly one: after one the name is
-- left, after two a full stop stays.
pub normalize_domain-dots :
    (platform : Platform) (s : Text)
    → IsPlain platform s
    → (normalize_domain platform (s ++ b'.' ∷ []) ≡ ok s)
      × (normalize_domain platform (s ++ b'.' ∷ [] ++ b'.' ∷ []) ≡ ok (s ++ b'.' ∷ []))
normalize_domain-dots platform s n =
    let n' = IsPlain-dot platform s n in
    let n'' = IsPlain-dot platform (s ++ b'.' ∷ []) n' in
    (
      normalize_domain-IsPlain platform (s ++ b'.' ∷ []) n'
          ∙ rw (trim_suffix-dot s) (check_runes-permitted s n.non_empty n.permitted),
      normalize_domain-IsPlain platform (s ++ b'.' ∷ [] ++ b'.' ∷ []) n''
          ∙ rw (trim_suffix-dot (s ++ b'.' ∷ []))
              (check_runes-permitted (s ++ b'.' ∷ []) n'.non_empty n'.permitted),
    )
