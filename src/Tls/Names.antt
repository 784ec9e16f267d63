-- ===== src/Tls/Names.antt =====
-- Host names and wildcards: `matchHostname` of internal/tlsinspect/inspect.go.
use safe_road.Base.{
  ℕ, ◌+◌, ◌≡◌, ◌↔◌, ◌⊎◌, refl, arith, ◌∙◌, ap, sym, Bool, true, false, ◌&&◌, ◌||◌, [], ◌∷◌, ◌++◌,
  ◌==◌, Text, text_eq, text_eq_refl, text_eq_sound, codes, inl, inr, Bool-cases, ==_iff,
}
use safe_road.Strings.{has_prefix, has_suffix, count_rune, contains_rune}
use safe_road.Tls.{match_hostname}

has_suffix_split : (s t : Text) → has_suffix s t ≡ true → (p : Text) × (s ≡ p ++ t)
unfolding has_suffix
has_suffix_split [] t h = ([], text_eq_sound [] t h)
has_suffix_split (c ∷ s) t h = elim (Bool-cases (text_eq (c ∷ s) t)) [
  | inl e ↦ ([], text_eq_sound (c ∷ s) t e)
  | inr n ↦ let (p, e) = has_suffix_split s t (ground (arith, h, n)) in (c ∷ p, ap (λ l. c ∷ l) e)
]

has_suffix-append : (p t : Text) → has_suffix (p ++ t) t ≡ true
unfolding has_suffix
has_suffix-append [] [] = text_eq_refl []
has_suffix-append [] (c ∷ t) = rw (text_eq_refl (c ∷ t)) refl
has_suffix-append (c ∷ p) t = ground (arith, has_suffix-append p t)

count_rune-append : (s t : Text) (c : ℕ) → count_rune (s ++ t) c ≡ count_rune s c + count_rune t c
unfolding count_rune
count_rune-append [] t c = omega arith
count_rune-append (d ∷ s) t c = ground (arith, count_rune-append s t c)

count_rune_plain : (s : Text) (c : ℕ) → (count_rune s c ≡ 0) ↔ (contains_rune s c ≡ false)
unfolding count_rune contains_rune
count_rune_plain [] c = (λ e. refl, λ e. refl)
count_rune_plain (d ∷ s) c = ground (arith, count_rune_plain s c)

-- The host is one label, which may be empty, before the rest.
abbrev pub HasOneLabel : Text → Text → Type 0
HasOneLabel rest host =
    (label : Text) × (host ≡ label ++ b'.' ∷ rest) × (contains_rune label b'.' ≡ false)

wildcard_lem :
    (rest host : Text)
    → match_hostname (codes "*." ++ rest) host
      ≡ text_eq (codes "*." ++ rest) host
        || (has_suffix host (b'.' ∷ rest) && count_rune host b'.' == count_rune (b'.' ∷ rest) b'.')
unfolding match_hostname has_prefix
wildcard_lem rest host = ground arith

or_right : (a b : Bool) → b ≡ true → (a || b) ≡ true
or_right a b h = ground (arith, h)

other_part : (a b c : Bool) → a ≡ false → (a || (b && c)) ≡ true → (b ≡ true) × (c ≡ true)
other_part a b c n h = ground (arith, n, h)

suffix_of_label :
    (rest host : Text)
    → has_suffix host (b'.' ∷ rest) ≡ true
    → count_rune host b'.' ≡ count_rune (b'.' ∷ rest) b'.'
    → HasOneLabel rest host
suffix_of_label rest host h k =
    let (label, e) = has_suffix_split host (b'.' ∷ rest) h in
    let sum = ap (λ t. count_rune t b'.') e ∙ count_rune-append label (b'.' ∷ rest) b'.' in
    (label, e, (count_rune_plain label b'.').0 (omega (arith, sum, k)))

label_matches :
    (rest label : Text)
    → contains_rune label b'.' ≡ false
    → let host = label ++ b'.' ∷ rest in
      (has_suffix host (b'.' ∷ rest) && count_rune host b'.' == count_rune (b'.' ∷ rest) b'.')
      ≡ true
label_matches rest label plain =
    let none_there = (count_rune_plain label b'.').1 plain in
    let sum = count_rune-append label (b'.' ∷ rest) b'.' in
    rw (has_suffix-append label (b'.' ∷ rest)) ((==_iff _ _).1 (omega (arith, sum, none_there)))

-- A wildcard pattern matches itself and the names of one more label before its rest, and no other:
-- neither the rest itself nor a name with a further dot.
pub match_hostname_wildcard :
    (rest host : Text)
    → (match_hostname (codes "*." ++ rest) host ≡ true)
      ↔ ((host ≡ codes "*." ++ rest) ⊎ HasOneLabel rest host)
match_hostname_wildcard rest host = (
  to,
  λ w. elim w [
    | inl e ↦
        wildcard_lem rest host
        ∙ ap
            (λ b.
              b
              || (has_suffix host (b'.' ∷ rest)
                  && count_rune host b'.' == count_rune (b'.' ∷ rest) b'.'))
            (ap (text_eq (codes "*." ++ rest)) e ∙ text_eq_refl (codes "*." ++ rest))
    | inr (label, e, plain) ↦
        wildcard_lem rest host
        ∙ or_right (text_eq (codes "*." ++ rest) host) _ (
            ap
              (λ t.
                has_suffix t (b'.' ∷ rest) && count_rune t b'.' == count_rune (b'.' ∷ rest) b'.')
              e
            ∙ label_matches rest label plain)
  ],
)
  where
    to :
        match_hostname (codes "*." ++ rest) host ≡ true
        → (host ≡ codes "*." ++ rest) ⊎ HasOneLabel rest host
    to h = elim (Bool-cases (text_eq (codes "*." ++ rest) host)) [
      | inl e ↦ inl (sym (text_eq_sound _ _ e))
      | inr n ↦
          let both = other_part _ _ _ n (sym (wildcard_lem rest host) ∙ h) in
          inr (suffix_of_label rest host both.0 ((==_iff _ _).0 both.1))
    ]
