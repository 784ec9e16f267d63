-- ===== src/Distance.antt =====
-- The edit distances of internal/analysis/brand.go. `WeightedLevenshteinDistance` counts halves:
-- its costs are doubled, so that 0.5 is 1 and 1.5 is 3. Both functions run the same loops, which
-- stand here once, over the cost of a gap and the cost of putting one code point for another.
pub mod Scripts
pub mod Cells
pub mod Minimal
use safe_road.Base.{
  ℕ, zero, suc, ◌+◌, ◌*◌, Bool, true, false, ◌||◌, Option, none, some, List, [], ◌∷◌, ltb, ◌==◌,
  if◌then◌else◌, Text, codes, length, get_or,
}
use safe_road.Strings.{contains_rune}
use safe_road.Domain.{Platform, lower}

-- `minInt` and `minFloat`
unfoldable pub min_of_three : ℕ → ℕ → ℕ → ℕ
min_of_three a b c = if ltb a b then (if ltb a c then a else c) else if ltb b c then b else c

module _ (gap : ℕ) (incr : ℕ → ℕ → ℕ) where
  -- The first column: `column[y] = y` from `y` on.
  unfoldable pub first_column : ℕ → Text → List ℕ
  first_column y [] = []
  first_column y (a ∷ r1) = y * gap ∷ first_column (y + 1) r1

  -- The inner loop over `y`: `last` is `lastkey` and `before` is `column[y-1]`.
  unfoldable pub next_cells : ℕ → Text → ℕ → ℕ → List ℕ → List ℕ
  unfolding min_of_three
  next_cells c (a ∷ r1) last before (old ∷ column) =
      let cell = min_of_three (old + gap) (before + gap) (last + incr a c) in
      cell ∷ next_cells c r1 old cell column
  next_cells c r1 last before column = []

  -- The outer loop over `x`, on the column without `column[0]`.
  unfoldable pub last_column : ℕ → Text → Text → List ℕ → List ℕ
  unfolding next_cells
  last_column x r1 [] column = column
  last_column x r1 (c ∷ r2) column =
      last_column (x + 1) r1 r2 (next_cells c r1 (x * gap) ((x + 1) * gap) column)

  -- `column[len1]`
  unfoldable pub last_cell : ℕ → List ℕ → ℕ
  last_cell d [] = d
  last_cell d (cell ∷ column) = last_cell cell column

  unfoldable pub edit_distance : Text → Text → ℕ
  unfolding first_column last_column last_cell
  edit_distance [] s2 = length s2 * gap
  edit_distance (a ∷ s1) [] = length (a ∷ s1) * gap
  edit_distance (a ∷ s1) (c ∷ s2) =
      last_cell (length (c ∷ s2) * gap) (last_column 0 (a ∷ s1) (c ∷ s2) (first_column 1 (a ∷ s1)))

unfoldable pub different : ℕ → ℕ → ℕ
different a c = if a == c then 0 else 1

unfoldable pub levenshtein_distance : Text → Text → ℕ
unfolding edit_distance different
levenshtein_distance s1 s2 = edit_distance 1 different s1 s2

abbrev pub keyboard_adjacency : List (ℕ × Text)
keyboard_adjacency =
    (b'a', codes "qwsz")
    ∷ (b'b', codes "vghn")
    ∷ (b'c', codes "xdfv")
    ∷ (b'd', codes "ersfxc")
    ∷ (b'e', codes "wsdr34")
    ∷ (b'f', codes "rtgvcd")
    ∷ (b'g', codes "tyhbvf")
    ∷ (b'h', codes "yujnbg")
    ∷ (b'i', codes "ujko89")
    ∷ (b'j', codes "uikmnh")
    ∷ (b'k', codes "ijlm09")
    ∷ (b'l', codes "okp")
    ∷ (b'm', codes "njk")
    ∷ (b'n', codes "bhjm")
    ∷ (b'o', codes "iklp90")
    ∷ (b'p', codes "ol0")
    ∷ (b'q', codes "w12a")
    ∷ (b'r', codes "edft45")
    ∷ (b's', codes "wedxza")
    ∷ (b't', codes "rfgy56")
    ∷ (b'u', codes "yhji78")
    ∷ (b'v', codes "cfgb")
    ∷ (b'w', codes "qase23")
    ∷ (b'x', codes "zsdc")
    ∷ (b'y', codes "tghu67")
    ∷ (b'z', codes "asx")
    ∷ []

-- `if adj, ok := keyboardAdjacency[a]; ok && strings.ContainsRune(adj, c)`
unfoldable pub is_adjacent : List (ℕ × Text) → ℕ → ℕ → Bool
is_adjacent [] a c = false
is_adjacent ((key, adj) ∷ rest) a c =
    let later = is_adjacent rest a c in if key == a then contains_rune adj c else later

unfoldable pub keyboard_incr : Platform → ℕ → ℕ → ℕ
unfolding is_adjacent
keyboard_incr platform a c =
    let low = lower platform a in
    let low' = lower platform c in
    if a == c
    then 0
    else if is_adjacent keyboard_adjacency low low' || is_adjacent keyboard_adjacency low' low
    then 1
    else 2

unfoldable pub weighted_levenshtein_distance : Platform → Text → Text → ℕ
unfolding edit_distance keyboard_incr
weighted_levenshtein_distance platform s1 s2 = edit_distance 2 (keyboard_incr platform) s1 s2
