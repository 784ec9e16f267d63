-- ===== src/Domain/Root.antt =====
-- The registrable domain of internal/analysis/brand.go is a parent of the domain.
use mathlib.Core.List.{append-nil, append_assoc}
use safe_road.Base.{
  ◌&&◌, List, [], ◌∷◌, ◌++◌, ◌≡◌, refl, ◌==◌, Bool-cases, ◌⊎◌, inl, inr, Text, text_eq, any, sym,
  ◌∙◌, ap,
}
use safe_road.Strings.{split, join, trim_space, byte_len}
use safe_road.Strings.Split.{join-split}
use safe_road.Domain.{
  Platform, to_lower, reverse_onto, root_of_labels, double_tlds, get_root_domain,
}

-- The second text is the first one, or what follows a full stop in it up to the end.
abbrev pub IsParentOf : Text → Text → Type 0
IsParentOf parent d = (d ≡ parent) ⊎ ((pre : Text) × (d ≡ pre ++ b'.' ∷ parent))

join-cons : (p q : Text) (ps : List Text) → join (p ∷ q ∷ ps) b'.' ≡ p ++ b'.' ∷ join (q ∷ ps) b'.'
unfolding join
join-cons p q ps = refl

reverse_onto-reverse_onto :
    (xs ys zs : List Text) → reverse_onto (reverse_onto xs ys) zs ≡ reverse_onto ys (xs ++ zs)
unfolding reverse_onto
reverse_onto-reverse_onto [] ys zs = refl
reverse_onto-reverse_onto (x ∷ xs) ys zs = reverse_onto-reverse_onto xs (x ∷ ys) zs

reversed : (xs : List Text) → reverse_onto (reverse_onto xs []) [] ≡ xs
unfolding reverse_onto
reversed xs = reverse_onto-reverse_onto xs [] [] ∙ append-nil xs

-- Labels before others only put more labels in front.
join-reverse_onto :
    (rest : List Text) (p : Text) (ps : List Text)
    → IsParentOf (join (p ∷ ps) b'.') (join (reverse_onto rest (p ∷ ps)) b'.')
unfolding reverse_onto
join-reverse_onto [] p ps = inl refl
join-reverse_onto (r ∷ rest) p ps = elim (join-reverse_onto rest r (p ∷ ps)) [
  | inl e ↦ inr (r, e ∙ join-cons r p ps)
  | inr (pre, e) ↦ inr (
    pre ++ b'.' ∷ r,
    e
        ∙ ap (λ t. pre ++ b'.' ∷ t) (join-cons r p ps)
        ∙ sym (append_assoc pre (b'.' ∷ r) (b'.' ∷ join (p ∷ ps) b'.')),
  )
]

root_of_labels-parent :
    (d : Text) (labels : List Text)
    → join (reverse_onto labels []) b'.' ≡ d
    → IsParentOf (root_of_labels d labels) d
unfolding reverse_onto join
root_of_labels-parent d [] e = inl refl
root_of_labels-parent d (l ∷ []) e = inl refl
root_of_labels-parent d (l ∷ s ∷ []) e = inl refl
root_of_labels-parent d (l ∷ s ∷ t ∷ rest) e =
    elim (Bool-cases (any (text_eq s) double_tlds && byte_len l == 2)) [
      | inl three ↦ rw (three, ← e) (join-reverse_onto rest t (s ∷ l ∷ []))
      | inr two ↦ rw (two, ← e) (join-reverse_onto (t ∷ rest) s (l ∷ []))
    ]

-- The root of a domain is the domain itself, trimmed and in lower case, or what follows one of its
-- full stops.
pub get_root_domain-parent :
    (platform : Platform) (d : Text)
    → IsParentOf (get_root_domain platform d) (to_lower platform (trim_space d))
unfolding get_root_domain
get_root_domain-parent platform d =
    let lowered = to_lower platform (trim_space d) in
    root_of_labels-parent lowered (reverse_onto (split lowered b'.') [])
      (ap (λ l. join l b'.') (reversed (split lowered b'.')) ∙ join-split lowered b'.')
