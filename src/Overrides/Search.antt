-- ===== src/Overrides/Search.antt =====
-- Which override applies to a domain, and what an administrator's change does to it
-- (internal/store/sqlite.go).
use safe_road.Base.{
  ℕ, Bool, true, false, not, ◌&&◌, ◌||◌, Option, none, some, List, [], ◌∷◌, ◌≡◌, ◌≢◌, refl, arith,
  Text, text_eq, text_eq_sound, text_eq_refl, lookup, insert, lookup-insert_self, any, Bool-cases,
  inl, inr, sym, ◌∙◌,
}
use safe_road.Strings.{trim_space, split, suffixes, has_suffix}
use safe_road.Strings.Split.{suffixes-has_suffix, suffixes-first}
use safe_road.Domain.{Platform, to_lower}
use safe_road.Whitelist.{done}
use safe_road.Overrides.{
  Action, Override, Store, find_row, search_overrides, get_effective_override, upsert_override,
  has_group, upsert_group_override, parse_action, put_row,
}
use safe_road.Overrides.Tables.{find_row-put_row_self}

-- The override of exactly this domain: that of the group comes before the global one.
abbrev pub or_else {ℓ} : {A : Type ℓ} → Option A → Option A → Option A
or_else none b = b
or_else (some a) b = some a

abbrev pub own : Store → ℕ → Text → Option Override
own s g c = or_else (find_row g c s.group_overrides) (lookup c s.local_overrides)

abbrev pub first_of {ℓ κ} : {A : Type ℓ} {B : Type κ} → (A → Option B) → List A → Option B
first_of f [] = none
first_of f (x ∷ xs) = or_else (f x) (first_of f xs)

search-first :
    (s : Store) (g : ℕ) (cs : List Text)
    → s.answers ≡ true
    → search_overrides s g cs ≡ done (first_of (own s g) cs)
unfolding search_overrides
search-first s g [] on = refl
search-first s g (c ∷ cs) on = ground (arith, on, search-first s g cs on)

first_of_sound :
    (s : Store) (g : ℕ) (cs : List Text) {o : Override}
    → first_of (own s g) cs ≡ some o
    → (c : Text) × (own s g c ≡ some o) × (any (λ t. text_eq t c) cs ≡ true)
first_of_sound s g [] h = cc
first_of_sound s g (c ∷ cs) {o} h = go (own s g c) refl h (first_of_sound s g cs {o = o})
  where
    go :
        (w : Option Override)
        → own s g c ≡ w
        → or_else w (first_of (own s g) cs) ≡ some o
        → (first_of (own s g) cs ≡ some o
            → (c' : Text) × (own s g c' ≡ some o) × (any (λ t. text_eq t c') cs ≡ true))
        → (c' : Text) × (own s g c' ≡ some o) × (any (λ t. text_eq t c') (c ∷ cs) ≡ true)
    go none e k ih = let (c', p, q) = ih k in (c', p, ground (arith, q))
    go (some v) e k ih = (c, e ∙ k, rw (text_eq_refl c))

or_else-none : {A : Type 0} (a b : Option A) → or_else a b ≡ none → (a ≡ none) × (b ≡ none)
or_else-none none b h = (refl, h)
or_else-none (some a) b h = cc

first_of_complete :
    (s : Store) (g : ℕ) (cs : List Text) (c : Text)
    → any (λ t. text_eq t c) cs ≡ true
    → own s g c ≢ none
    → first_of (own s g) cs ≢ none
first_of_complete s g [] c m h = cc
first_of_complete s g (t ∷ cs) c m h = elim (Bool-cases (text_eq t c)) [
  | inl same ↦ λ e. h (rw (← text_eq_sound t c same) (or_else-none _ _ e).0)
  | inr other ↦ λ e. first_of_complete s g cs c (rw other at m) h (or_else-none _ _ e).1
]

-- The domain, trimmed and in lower case, is this one or below it.
abbrev pub IsUnder : Platform → Text → Text → Type 0
IsUnder platform domain c =
    let d = trim_space (to_lower platform domain) in (text_eq d c || has_suffix d (b'.' ∷ c)) ≡ true

-- With a database that answers, an override that applies to a domain stands at the domain or at a
-- parent of it, in the group or globally.
pub get_effective_override_sound :
    (platform : Platform) (s : Store) (g : ℕ) (domain : Text) {o : Override}
    → s.answers ≡ true
    → get_effective_override platform s g domain ≡ done (some o)
    → (c : Text) × IsUnder platform domain c × (own s g c ≡ some o)
unfolding get_effective_override
get_effective_override_sound platform s g domain {o} on h =
    let d = trim_space (to_lower platform domain) in
    let cs = suffixes (split d b'.') b'.' in
    let e : done (first_of (own s g) cs) ≡ done (some o) = sym (search-first s g cs on) ∙ h in
    let (c, p, q) = first_of_sound s g cs (done_injective _ _ e) in
    (c, sym (suffixes-has_suffix d c b'.') ∙ q, p)
  where
    done_injective : (a b : Option Override) → done a ≡ done b → a ≡ b
    done_injective a b e = cc

-- With a database that answers, a domain that has an override, or a parent with one, is never
-- without.
pub get_effective_override_complete :
    (platform : Platform) (s : Store) (g : ℕ) (domain c : Text)
    → s.answers ≡ true
    → IsUnder platform domain c
    → own s g c ≢ none
    → get_effective_override platform s g domain ≢ done none
unfolding get_effective_override
get_effective_override_complete platform s g domain c on under h e =
    let d = trim_space (to_lower platform domain) in
    let cs = suffixes (split d b'.') b'.' in
    first_of_complete s g cs c (suffixes-has_suffix d c b'.' ∙ under) h
      (done_injective _ _ (sym (search-first s g cs on) ∙ e))
  where
    done_injective : (a b : Option Override) → done a ≡ done b → a ≡ b
    done_injective a b e = cc

-- The own override of a domain comes before those of its parents.
pub own_first :
    (platform : Platform) (s : Store) (g : ℕ) (d : Text) (o : Override)
    → s.answers ≡ true
    → trim_space (to_lower platform d) ≡ d
    → own s g d ≡ some o
    → get_effective_override platform s g d ≡ done (some o)
unfolding get_effective_override
own_first platform s g d o on stable e =
    let (ts, q) = suffixes-first d b'.' in rw (stable, q) (search-first s g (d ∷ ts) on ∙ rw e)

abbrev with_local : Store → Override → Store
with_local s o = record s { local_overrides = insert o.domain o s.local_overrides }

abbrev pub with_row : Store → ℕ → Override → Store
with_row s g o = record s { group_overrides = put_row g o s.group_overrides }

upserted :
    (s : Store) (d action reason : Text) (a : Action)
    → s.answers ≡ true
    → parse_action action ≡ some a
    → upsert_override s d action reason
      ≡ (with_local s (record { domain = d; action = a; reason = reason }), true)
unfolding upsert_override
upserted s d action reason a on e = rw (e, on, upsert_override)

not_and : (b c : Bool) → c ≡ true → b && not c ≡ false
not_and b c h = ground (arith, h)

pub upserted_row :
    (keys : Bool) (platform : Platform) (s : Store) (g : ℕ) (d action reason : Text) (a : Action)
    → s.answers ≡ true
    → has_group g s.groups ≡ true
    → trim_space (to_lower platform d) ≡ d
    → text_eq d [] ≡ false
    → parse_action action ≡ some a
    → upsert_group_override keys platform s g d action reason
      ≡ (with_row s g (record { domain = d; action = a; reason = reason }), true)
unfolding upsert_group_override
upserted_row keys platform s g d action reason a on known stable full e =
    rw (e, on, stable, upsert_group_override)
      (rw full (rw (not_and keys (has_group g s.groups) known) refl))

-- With a database that answers, a global override with a valid action that is written for a domain
-- in lower case and without spaces at its ends is the one that applies to it, in every group
-- without an override of its own for the domain.
pub get_effective_override-upsert :
    (platform : Platform) (s : Store) (g : ℕ) (d action reason : Text) (a : Action)
    → s.answers ≡ true
    → trim_space (to_lower platform d) ≡ d
    → parse_action action ≡ some a
    → find_row g d s.group_overrides ≡ none
    → let result = upsert_override s d action reason in
      (result.1 ≡ true)
      × (get_effective_override platform result.0 g d
          ≡ done (some (record { domain = d; action = a; reason = reason })))
get_effective_override-upsert platform s g d action reason a on stable e row =
    let o : Override = record { domain = d; action = a; reason = reason } in
    rw (upserted s d action reason a on e)
      (refl, own_first platform (with_local s o) g d o on stable (rw (row, lookup-insert_self)))

-- With a database that answers, an override with a valid action that is written for a group of the
-- table and a domain in lower case, not empty and without spaces at its ends, applies to the
-- domain in that group, whatever the global ones say.
pub get_effective_override-upsert_group :
    (keys : Bool) (platform : Platform) (s : Store) (g : ℕ) (d action reason : Text) (a : Action)
    → s.answers ≡ true
    → has_group g s.groups ≡ true
    → trim_space (to_lower platform d) ≡ d
    → text_eq d [] ≡ false
    → parse_action action ≡ some a
    → let result = upsert_group_override keys platform s g d action reason in
      (result.1 ≡ true)
      × (get_effective_override platform result.0 g d
          ≡ done (some (record { domain = d; action = a; reason = reason })))
get_effective_override-upsert_group keys platform s g d action reason a on known stable full e =
    let o : Override = record { domain = d; action = a; reason = reason } in
    rw (upserted_row keys platform s g d action reason a on known stable full e) (
      refl,
      own_first platform (with_row s g o) g d o on stable
          (rw (find_row-put_row_self g o s.group_overrides)),
    )
