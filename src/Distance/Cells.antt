-- ===== src/Distance/Cells.antt =====
-- What the loops over columns in internal/analysis/brand.go compute, cell by cell.
use safe_road.Base.{
  ℕ, ◌+◌, ◌*◌, List, [], ◌∷◌, ◌++◌, ◌≡◌, refl, arith, Text, length, length-append, ap, ap₂, sym,
  ◌∙◌,
}
use safe_road.Distance.{first_column, next_cells, last_column, last_cell, edit_distance}
use safe_road.Distance.Scripts.{backwards, least}

length-backwards : (s : Text) → length (backwards s) ≡ length s
length-backwards [] = refl
length-backwards (c ∷ s) = omega (arith, length-append (backwards s) (c ∷ []), length-backwards s)

-- A text before another one that is backwards.
abbrev onto : Text → Text → Text
onto p [] = p
onto p (c ∷ r) = onto (c ∷ p) r

onto-backwards : (p r : Text) → onto p r ≡ backwards r ++ p
onto-backwards p [] = refl
onto-backwards p (c ∷ r) = onto-backwards (c ∷ p) r ∙ shift (backwards r) c p
  where
    shift : (x : Text) (c : ℕ) (y : Text) → x ++ c ∷ y ≡ (x ++ c ∷ []) ++ y
    shift [] c y = refl
    shift (a ∷ x) c y = ap (λ z. a ∷ z) (shift x c y)

onto_nil : (r : Text) → onto [] r ≡ backwards r
onto_nil r = onto-backwards [] r ∙ strip (backwards r)
  where
    strip : (x : Text) → x ++ [] ≡ x
    strip [] = refl
    strip (a ∷ x) = ap (λ z. a ∷ z) (strip x)

module _ (gap : ℕ) (incr : ℕ → ℕ → ℕ) where
  -- The cells of a column: the least costs for the prefixes that end in each of the code points.
  abbrev cells : Text → Text → Text → List ℕ
  cells p [] q = []
  cells p (a ∷ r) q = least gap incr (a ∷ p) q ∷ cells (a ∷ p) r q

  next_cells-cells :
      (c : ℕ) (p r q : Text)
      → next_cells gap incr c r (least gap incr p q) (least gap incr p (c ∷ q)) (cells p r q)
        ≡ cells p r (c ∷ q)
  unfolding next_cells least
  next_cells-cells c p [] q = refl
  next_cells-cells c p (a ∷ r) q =
      ap (λ rest. least gap incr (a ∷ p) (c ∷ q) ∷ rest) (next_cells-cells c (a ∷ p) r q)

  pub least_nil : (q : Text) → least gap incr [] q ≡ length q * gap
  unfolding least
  least_nil q = refl

  last_column-cells :
      (x : ℕ) (r1 q r2 : Text)
      → x ≡ length q
      → last_column gap incr x r1 r2 (cells [] r1 q) ≡ cells [] r1 (onto q r2)
  unfolding last_column
  last_column-cells x r1 q [] h = refl
  last_column-cells x r1 q (c ∷ r2) h =
      ap (λ column. last_column gap incr (x + 1) r1 r2 column)
        (rw (left, right) (next_cells-cells c [] r1 q))
      ∙ last_column-cells (x + 1) r1 (c ∷ q) r2 (omega (arith, h))
    where
      left : x * gap ≡ least gap incr [] q
      left = rw h (sym (least_nil q))

      right : (x + 1) * gap ≡ least gap incr [] (c ∷ q)
      right = rw h (ap (λ n. n * gap) (omega arith) ∙ sym (least_nil (c ∷ q)))

  first_column-cells :
      (p r : Text) (y : ℕ) → y ≡ length p + 1 → first_column gap incr y r ≡ cells p r []
  unfolding first_column least
  first_column-cells p [] y h = refl
  first_column-cells p (a ∷ r) y h =
      ap₂ (λ n ns. n ∷ ns) (rw h (ap (λ n. n * gap) (omega arith)))
        (first_column-cells (a ∷ p) r (y + 1) (omega (arith, h)))

  last_cell-cells :
      (p r q : Text)
      → last_cell gap incr (least gap incr p q) (cells p r q) ≡ least gap incr (onto p r) q
  unfolding last_cell
  last_cell-cells p [] q = refl
  last_cell-cells p (a ∷ r) q = last_cell-cells (a ∷ p) r q

  pub least_right : (p : Text) → least gap incr p [] ≡ length p * gap
  unfolding least
  least_right [] = refl
  least_right (a ∷ p) = refl

  pub edit_distance-least :
      (s1 s2 : Text) → edit_distance gap incr s1 s2 ≡ least gap incr (backwards s1) (backwards s2)
  unfolding edit_distance
  edit_distance-least [] s2 =
      sym (least_nil (backwards s2) ∙ ap (λ n. n * gap) (length-backwards s2))
  edit_distance-least (a ∷ s1) [] =
      sym (least_right (backwards (a ∷ s1)) ∙ ap (λ n. n * gap) (length-backwards (a ∷ s1)))
  edit_distance-least (a ∷ s1) (c ∷ s2) =
      ap (λ column. last_cell gap incr (length (c ∷ s2) * gap) column)
        (ap (λ column. last_column gap incr 0 (a ∷ s1) (c ∷ s2) column)
            (first_column-cells [] (a ∷ s1) 1 (omega arith))
          ∙ last_column-cells 0 (a ∷ s1) [] (c ∷ s2) refl)
      ∙ ap (λ n. last_cell gap incr n (cells [] (a ∷ s1) (onto [] (c ∷ s2)))) corner
      ∙ last_cell-cells [] (a ∷ s1) (onto [] (c ∷ s2))
      ∙ ap₂ (least gap incr) (onto_nil (a ∷ s1)) (onto_nil (c ∷ s2))
    where
      corner : length (c ∷ s2) * gap ≡ least gap incr [] (onto [] (c ∷ s2))
      corner = sym (
          least_nil (onto [] (c ∷ s2))
          ∙ ap (λ n. n * gap) (ap length (onto_nil (c ∷ s2)) ∙ length-backwards (c ∷ s2)))
