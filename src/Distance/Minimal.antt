-- ===== src/Distance/Minimal.antt =====
-- The loops of internal/analysis/brand.go find the least cost of an edit script.
use safe_road.Base.{
  ℕ, suc, ◌+◌, ◌*◌, ◌≤◌, List, [], ◌∷◌, ◌≡◌, refl, arith, Text, length, inl, inr, ap, ap₂, sym, ◌∙◌,
}
use safe_road.Domain.{Platform}
use safe_road.Distance.{
  edit_distance, different, levenshtein_distance, keyboard_incr, weighted_levenshtein_distance,
}
use safe_road.Distance.Cells.{least_nil, least_right, edit_distance-least}
use safe_road.Distance.Scripts.{
  Edit, drop, put, swap, source, target, backwards, source-backwards, target-backwards,
  backwards_twice, min_of_three-cases, cost, cost-backwards, least,
}

module _ (gap : ℕ) (incr : ℕ → ℕ → ℕ) where
  suc_mul : (n : ℕ) → suc n * gap ≡ gap + n * gap
  suc_mul n = omega arith

  least-drop : (a : ℕ) (p q : Text) → least gap incr (a ∷ p) q ≤ gap + least gap incr p q
  unfolding least
  least-drop a p [] = go p
    where
      go : (p : Text) → length (a ∷ p) * gap ≤ gap + least gap incr p []
      go [] = omega (arith, suc_mul 0)
      go (b ∷ p) = omega (arith, suc_mul (suc (length p)))
  least-drop a p (c ∷ q) = omega (
    arith,
    min_of_three-cases (least gap incr (a ∷ p) q + gap) (least gap incr p (c ∷ q) + gap)
        (least gap incr p q + incr a c),
  )

  least-put : (c : ℕ) (p q : Text) → least gap incr p (c ∷ q) ≤ gap + least gap incr p q
  unfolding least
  least-put c [] q = omega (arith, suc_mul (length q))
  least-put c (a ∷ p) q = omega (
    arith,
    min_of_three-cases (least gap incr (a ∷ p) q + gap) (least gap incr p (c ∷ q) + gap)
        (least gap incr p q + incr a c),
  )

  least-swap :
      (a c : ℕ) (p q : Text) → least gap incr (a ∷ p) (c ∷ q) ≤ incr a c + least gap incr p q
  unfolding least
  least-swap a c p q = omega (
    arith,
    min_of_three-cases (least gap incr (a ∷ p) q + gap) (least gap incr p (c ∷ q) + gap)
        (least gap incr p q + incr a c),
  )

  least-cost : (es : List Edit) → least gap incr (source es) (target es) ≤ cost gap incr es
  least-cost [] = omega (arith, least_nil gap incr [])
  least-cost (drop a ∷ es) = omega (arith, least-cost es, least-drop a (source es) (target es))
  least-cost (put c ∷ es) = omega (arith, least-cost es, least-put c (source es) (target es))
  least-cost (swap a c ∷ es) = omega (arith, least-cost es, least-swap a c (source es) (target es))

  script :
      (p q : Text)
      → (es : List Edit) × (source es ≡ p)
        × (target es ≡ q)
        × (cost gap incr es ≡ least gap incr p q)
  unfolding least
  script [] [] = ([], refl, refl, omega arith)
  script [] (c ∷ q) =
      let (es, s, t, k) = script [] q in
      (put c ∷ es, s, ap (λ t. c ∷ t) t, omega (arith, k, least_nil gap incr q, suc_mul (length q)))
  script (a ∷ p) [] =
      let (es, s, t, k) = script p [] in
      (
        drop a ∷ es,
        ap (λ t. a ∷ t) s,
        t,
        omega (arith, k, least_right gap incr p, suc_mul (length p)),
      )
  script (a ∷ p) (c ∷ q) =
      elim (min_of_three-cases (least gap incr (a ∷ p) q + gap) (least gap incr p (c ∷ q) + gap)
        (least gap incr p q + incr a c)).0 [
          | inl m ↦
              let (es, s, t, k) = script (a ∷ p) q in
              (put c ∷ es, s, ap (λ t. c ∷ t) t, omega (arith, m, k))
          | inr (inl m) ↦
              let (es, s, t, k) = script p (c ∷ q) in
              (drop a ∷ es, ap (λ t. a ∷ t) s, t, omega (arith, m, k))
          | inr (inr m) ↦
              let (es, s, t, k) = script p q in
              (swap a c ∷ es, ap (λ t. a ∷ t) s, ap (λ t. c ∷ t) t, omega (arith, m, k))
        ]

  edit_distance_reached :
      (s1 s2 : Text)
      → (es : List Edit) × (source es ≡ s1)
        × (target es ≡ s2)
        × (cost gap incr es ≡ edit_distance gap incr s1 s2)
  edit_distance_reached s1 s2 =
      let (es, s, t, k) = script (backwards s1) (backwards s2) in
      (
        backwards es,
        source-backwards es ∙ ap backwards s ∙ backwards_twice s1,
        target-backwards es ∙ ap backwards t ∙ backwards_twice s2,
        cost-backwards gap incr es ∙ k ∙ sym (edit_distance-least gap incr s1 s2),
      )

  edit_distance-cost :
      (es : List Edit) → edit_distance gap incr (source es) (target es) ≤ cost gap incr es
  edit_distance-cost es = omega (
    arith,
    edit_distance-least gap incr (source es) (target es),
    least-cost (backwards es),
    ap₂ (least gap incr) (source-backwards es) (target-backwards es),
    cost-backwards gap incr es,
  )

pub levenshtein_distance_reached :
    (s1 s2 : Text)
    → (es : List Edit) × (source es ≡ s1)
      × (target es ≡ s2)
      × (cost 1 different es ≡ levenshtein_distance s1 s2)
unfolding levenshtein_distance
levenshtein_distance_reached s1 s2 = edit_distance_reached 1 different s1 s2

pub levenshtein_distance-cost :
    (es : List Edit) → levenshtein_distance (source es) (target es) ≤ cost 1 different es
unfolding levenshtein_distance
levenshtein_distance-cost es = edit_distance-cost 1 different es

-- LevenshteinDistance is the least cost of an edit script, where dropping, adding and changing a code
-- point cost one: no script costs less than it for the texts that it connects, and some script
-- between them costs just that.
pub levenshtein_distance_least :
    (fs : List Edit)
    → let d = levenshtein_distance (source fs) (target fs) in
      (d ≤ cost 1 different fs)
      × ((es : List Edit) × (source es ≡ source fs)
          × (target es ≡ target fs)
          × (cost 1 different es ≡ d))
levenshtein_distance_least fs =
    (levenshtein_distance-cost fs, levenshtein_distance_reached (source fs) (target fs))

-- WeightedLevenshteinDistance is the least cost of an edit script, where a change of a code point
-- into one beside it on the keyboard costs half: some script reaches it, and none costs less.
pub weighted_levenshtein_distance_least :
    (platform : Platform) (fs : List Edit)
    → let d = weighted_levenshtein_distance platform (source fs) (target fs) in
      (d ≤ cost 2 (keyboard_incr platform) fs)
      × ((es : List Edit) × (source es ≡ source fs)
          × (target es ≡ target fs)
          × (cost 2 (keyboard_incr platform) es ≡ d))
unfolding weighted_levenshtein_distance
weighted_levenshtein_distance_least platform fs = (
  edit_distance-cost 2 (keyboard_incr platform) fs,
  edit_distance_reached 2 (keyboard_incr platform) (source fs) (target fs),
)

keyboard-different :
    (platform : Platform) (a c : ℕ) → keyboard_incr platform a c ≤ 2 * different a c
unfolding keyboard_incr different
keyboard-different platform a c = ground arith

cost_halves :
    (platform : Platform) (es : List Edit)
    → cost 2 (keyboard_incr platform) es ≤ 2 * cost 1 different es
cost_halves platform [] = omega arith
cost_halves platform (drop a ∷ es) = omega (arith, cost_halves platform es)
cost_halves platform (put c ∷ es) = omega (arith, cost_halves platform es)
cost_halves platform (swap a c ∷ es) =
    omega (arith, cost_halves platform es, keyboard-different platform a c)

-- In halves, the weighted distance is at most twice the classic one.
pub weighted_levenshtein_distance_le :
    (platform : Platform) (s1 s2 : Text)
    → weighted_levenshtein_distance platform s1 s2 ≤ 2 * levenshtein_distance s1 s2
unfolding weighted_levenshtein_distance
weighted_levenshtein_distance_le platform s1 s2 =
    let (es, s, t, k) = levenshtein_distance_reached s1 s2 in
    omega (
      arith,
      ap₂ (edit_distance 2 (keyboard_incr platform)) s t,
      edit_distance-cost 2 (keyboard_incr platform) es,
      cost_halves platform es,
      k,
    )
