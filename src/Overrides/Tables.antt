-- ===== src/Overrides/Tables.antt =====
-- The override tables of internal/store/sqlite.go as maps.
use safe_road.Base.{
  ℕ, ◌&&◌, none, some, List, [], ◌∷◌, ◌≡◌, refl, arith, ◌==◌, if◌then◌else◌, Text, text_eq,
  text_eq_iff, text_eq_refl, ◌∙◌,
}
use safe_road.Overrides.{Override, GroupRow, find_row, put_row, drop_row}

-- A row that is put is found under its group and domain, and no other changes.
pub find_row-put_row :
    (g h : ℕ) (d : Text) (o : Override) (rs : List GroupRow)
    → find_row h d (put_row g o rs)
      ≡ (if g == h && text_eq o.domain d then some o else find_row h d rs)
unfolding find_row put_row
find_row-put_row g h d o [] = refl
find_row-put_row g h d o (r ∷ rs) = ground (
  arith,
  find_row-put_row g h d o rs,
  text_eq_iff o.domain d,
  text_eq_iff r.override.domain d,
  text_eq_iff r.override.domain o.domain,
)

pub find_row-drop_row :
    (g h : ℕ) (d c : Text) (rs : List GroupRow)
    → find_row h d (drop_row g c rs) ≡ (if g == h && text_eq c d then none else find_row h d rs)
unfolding find_row drop_row
find_row-drop_row g h d c [] = ground arith
find_row-drop_row g h d c (r ∷ rs) = ground (
  arith,
  find_row-drop_row g h d c rs,
  text_eq_iff c d,
  text_eq_iff r.override.domain d,
  text_eq_iff r.override.domain c,
)

pub find_row-put_row_self :
    (g : ℕ) (o : Override) (rs : List GroupRow) → find_row g o.domain (put_row g o rs) ≡ some o
find_row-put_row_self g o rs =
    find_row-put_row g g o.domain o rs ∙ ground (arith, text_eq_refl o.domain)
