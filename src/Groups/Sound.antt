-- ===== src/Groups/Sound.antt =====
-- What holds of the tables of groups and mappings in internal/store/sqlite.go, and how the rows of a
-- table are found, replaced and dropped.
use safe_road.Base.{
  ℕ, ◌≡◌, refl, arith, Bool, true, ◌&&◌, ◌||◌, some, List, [], ◌∷◌, ◌++◌, ltb, ◌==◌, Text, text_eq,
  codes, any, all, filter, lookup, inl, inr, Bool-cases,
}
use safe_road.Overrides.{ClientGroup, find_group}
use safe_road.Groups.{MappingType, ClientMapping, GroupDb, rows_of, has_group, update_rows}

abbrev pub is_default_row : ClientGroup → Bool
is_default_row g = g.id == 1 && text_eq g.name (codes "default")

abbrev pub is_mapped : List ClientGroup → ClientMapping → Bool
is_mapped gs m = has_group m.group_id gs

-- Group 1 has the name `default`, each mapping leads to a group, keys are below the next one, and
-- foreign keys are enforced.
pub record IsSound (d : GroupDb) : Type 0 where
  pub has_default : any is_default_row d.store.groups ≡ true
  pub mapped : all (is_mapped d.store.groups) d.mappings ≡ true
  pub below : all (λ g. ltb g.id d.next_group) d.store.groups ≡ true
  pub enforced : d.foreign_keys ≡ true

-- Each range of the cache leads to a group.
abbrev pub IsCurrent : GroupDb → Type 0
IsCurrent d = all (λ row. has_group row.1 d.store.groups) d.store.cidrs ≡ true

module _ {ℓ} {A : Type ℓ} where
  pub any-append : (p : A → Bool) (xs ys : List A) → any p (xs ++ ys) ≡ any p xs || any p ys
  any-append p [] ys = refl
  any-append p (x ∷ xs) ys = ground (arith, any-append p xs ys)

  pub all-append : (p : A → Bool) (xs ys : List A) → all p (xs ++ ys) ≡ all p xs && all p ys
  all-append p [] ys = refl
  all-append p (x ∷ xs) ys = ground (arith, all-append p xs ys)

  pub all_mono :
      (p q : A → Bool) (xs : List A)
      → ((x : A) → p x ≡ true → q x ≡ true)
      → all p xs ≡ true
      → all q xs ≡ true
  all_mono p q [] h k = refl
  all_mono p q (x ∷ xs) h k = ground (arith, k, h x, all_mono p q xs h)

  pub all-filter :
      (p q r : A → Bool) (xs : List A)
      → ((x : A) → p x ≡ true → r x ≡ true → q x ≡ true)
      → all p xs ≡ true
      → all q (filter r xs) ≡ true
  unfolding filter
  all-filter p q r [] h k = refl
  all-filter p q r (x ∷ xs) h k = ground (arith, k, h x, all-filter p q r xs h)

  pub any-filter :
      (p r : A → Bool) (xs : List A)
      → ((x : A) → p x ≡ true → r x ≡ true)
      → any p (filter r xs) ≡ any p xs
  unfolding filter
  any-filter p r [] h = refl
  any-filter p r (x ∷ xs) h = ground (arith, h x, any-filter p r xs h)

pub has_group-update_rows :
    (u : ClientGroup) (id : ℕ) (gs : List ClientGroup)
    → has_group id (update_rows u gs) ≡ has_group id gs
unfolding update_rows
has_group-update_rows u id [] = refl
has_group-update_rows u id (g ∷ gs) = ground (arith, has_group-update_rows u id gs)

pub default-update_rows :
    (u : ClientGroup) (gs : List ClientGroup)
    → ((u.id == 1) ≡ true → text_eq u.name (codes "default") ≡ true)
    → any is_default_row gs ≡ true
    → any is_default_row (update_rows u gs) ≡ true
unfolding update_rows
default-update_rows u [] h k = k
default-update_rows u (g ∷ gs) h k = ground (arith, h, k, default-update_rows u gs h)

pub below-update_rows :
    (n : ℕ) (u : ClientGroup) (gs : List ClientGroup)
    → all (λ g. ltb g.id n) gs ≡ true
    → all (λ g. ltb g.id n) (update_rows u gs) ≡ true
unfolding update_rows
below-update_rows n u [] h = refl
below-update_rows n u (g ∷ gs) h = ground (arith, h, below-update_rows n u gs)

-- A search that some group passes finds one.
pub find_group-any :
    (p : ClientGroup → Bool) (gs : List ClientGroup)
    → any p gs ≡ true
    → (g : ClientGroup) × (find_group p gs ≡ some g) × (p g ≡ true)
unfolding find_group
find_group-any p (g ∷ gs) h = elim (Bool-cases (p g)) [
  | inl e ↦ rw e (g, refl, e)
  | inr e ↦ rw e (find_group-any p gs (ground (arith, h, e)))
]
find_group-any p [] h = cc

pub lookup-rows_of :
    (gs : List ClientGroup) (t : MappingType) (value : Text) (ms : List ClientMapping) {id : ℕ}
    → all (is_mapped gs) ms ≡ true
    → lookup value (rows_of t ms) ≡ some id
    → has_group id gs ≡ true
unfolding rows_of lookup
lookup-rows_of gs t value [] h e = cc
lookup-rows_of gs t value (m ∷ ms) {id} h e =
    ground (arith, h, e, lookup-rows_of gs t value ms {id = id})

pub all-rows_of :
    (gs : List ClientGroup) (t : MappingType) (ms : List ClientMapping)
    → all (is_mapped gs) ms ≡ true
    → all (λ row. has_group row.1 gs) (rows_of t ms) ≡ true
unfolding rows_of
all-rows_of gs t [] h = refl
all-rows_of gs t (m ∷ ms) h = ground (arith, h, all-rows_of gs t ms)
