-- ===== src/Strings/Split.antt =====
-- `strings.Split` and `strings.Join` undo one another, and the joined tails of a split text are the
-- text and what follows its separators.
use mathlib.Core.List.{tail}
use safe_road.Base.{
  ℕ, Bool, ◌||◌, List, [], ◌∷◌, ◌≡◌, refl, ◌==◌, ==_iff, Bool-cases, inl, inr, Text, text_eq, ap,
  ◌∙◌, sym, any,
}
use safe_road.Strings.{split, join, cons_first, has_suffix, suffixes}

-- A split text has a first part.
pub split-cons : (s : Text) (sep : ℕ) → (p : Text) × (ps : List Text) × (split s sep ≡ p ∷ ps)
unfolding split
split-cons [] sep = ([], [], refl)
split-cons (c ∷ s) sep =
    let (p, ps, e) = split-cons s sep in
    elim (Bool-cases (c == sep)) [
      | inl same ↦ ([], p ∷ ps, rw (same, e))
      | inr other ↦ (c ∷ p, ps, rw (other, e))
    ]

join-cons_first :
    (c sep : ℕ) (p : Text) (ps : List Text) → join ((c ∷ p) ∷ ps) sep ≡ c ∷ join (p ∷ ps) sep
unfolding join
join-cons_first c sep p [] = refl
join-cons_first c sep p (q ∷ ps) = refl

join-cons_empty :
    (sep : ℕ) (p : Text) (ps : List Text) → join ([] ∷ p ∷ ps) sep ≡ sep ∷ join (p ∷ ps) sep
unfolding join
join-cons_empty sep p ps = refl

pub join-split : (s : Text) (sep : ℕ) → join (split s sep) sep ≡ s
unfolding split
join-split [] sep = join_one sep
  where
    join_one : (sep : ℕ) → join ([] ∷ []) sep ≡ []
    join_one sep = unfold join in refl
join-split (c ∷ s) sep =
    let (p, ps, e) = split-cons s sep in
    let ih : join (p ∷ ps) sep ≡ s = rw (← e) (join-split s sep) in
    elim (Bool-cases (c == sep)) [
      | inl same ↦ rw (same, e) (rw (join-cons_empty, ih, (==_iff c sep).0 same))
      | inr other ↦ rw (other, e) (rw join-cons_first (ap (λ t. c ∷ t) ih))
    ]

abbrev is_at : Text → Text → Bool
is_at c t = text_eq t c

-- The joined tails begin with the whole text.
pub any-suffixes :
    (s c : Text) (sep : ℕ)
    → any (is_at c) (suffixes (split s sep) sep)
      ≡ text_eq s c || any (is_at c) (suffixes (tail (split s sep)) sep)
any-suffixes s c sep =
    let (p, ps, e) = split-cons s sep in
    rw e (
      unfold suffixes in
      ap (λ t. text_eq t c || any (is_at c) (suffixes ps sep))
        (ap (λ l. join l sep) (sym e) ∙ join-split s sep))

tail-cons_first :
    (c : ℕ) (l : List Text) (p : Text) (ps : List Text)
    → l ≡ p ∷ ps
    → tail (cons_first c l) ≡ tail l
tail-cons_first c l p ps e = rw e

suffixes-tail :
    (s c : Text) (sep : ℕ)
    → any (is_at c) (suffixes (tail (split s sep)) sep) ≡ has_suffix s (sep ∷ c)
unfolding split has_suffix
suffixes-tail [] c sep = unfold suffixes in refl
suffixes-tail (x ∷ s) c sep =
    let (p, ps, e) = split-cons s sep in
    let ih = suffixes-tail s c sep in
    elim (Bool-cases (x == sep)) [
      | inl same ↦ rw same (any-suffixes s c sep ∙ ap (λ b. text_eq s c || b) ih)
      | inr other ↦ rw other (rw (tail-cons_first x (split s sep) p ps e) ih)
    ]

-- A text is among the joined tails of another exactly if it is that text or follows one of its
-- separators up to the end.
pub suffixes-has_suffix :
    (s c : Text) (sep : ℕ)
    → any (is_at c) (suffixes (split s sep) sep) ≡ text_eq s c || has_suffix s (sep ∷ c)
suffixes-has_suffix s c sep =
    any-suffixes s c sep ∙ ap (λ b. text_eq s c || b) (suffixes-tail s c sep)

-- The first of the joined tails is the whole text.
pub suffixes-first : (s : Text) (sep : ℕ) → (ts : List Text) × (suffixes (split s sep) sep ≡ s ∷ ts)
suffixes-first s sep =
    let (p, ps, e) = split-cons s sep in
    (
      suffixes ps sep,
      rw e (
          unfold suffixes in
          ap (λ t. t ∷ suffixes ps sep) (ap (λ l. join l sep) (sym e) ∙ join-split s sep)),
    )
