-- ===== src/Overrides.antt =====
-- Policy groups and overrides of internal/store/sqlite.go. The tables are lists of rows; SQLite is
-- also whether it answers. A returned error is `failed`, or `false` beside the state.
pub mod Search
pub mod Tables
use safe_road.Base.{
  ℕ, zero, suc, Bool, true, false, not, ◌&&◌, ◌||◌, Option, none, some, List, [], ◌∷◌, ltb, leb,
  ◌==◌, if◌then◌else◌, Text, text_eq, codes, any, Assoc, lookup, insert, delete,
}
use safe_road.Strings.{trim_space, split, suffixes}
use safe_road.Domain.{Platform, to_lower}
use safe_road.Whitelist.{Outcome, done, failed}

-- The CHECK constraints of the tables admit no other action.
pub data Action : Type 0 where
  allow block : Action

pub record Override : Type 0 where
  pub domain : Text
  pub action : Action
  pub reason : Text

pub record ClientGroup : Type 0 where
  pub id : ℕ
  pub name : Text
  pub block_categories : List Text
  pub strict_phishing : Bool
  pub strict_malware : Bool

-- A row of `group_overrides`, whose key is the group and the domain.
pub record GroupRow : Type 0 where
  pub group_id : ℕ
  pub override : Override

-- `client_ids` and `ips` are the rows of `client_mappings` of these two types, `cidrs` the cache of
-- those of the third.
pub record Store : Type 0 where
  pub answers : Bool
  pub groups : List ClientGroup
  pub client_ids : Assoc ℕ
  pub ips : Assoc ℕ
  pub cidrs : List (Text × ℕ)
  pub local_overrides : Assoc Override
  pub group_overrides : List GroupRow

abbrev pub found {ℓ} : {A : Type ℓ} → Option A → Outcome A
found none = failed
found (some a) = done a

unfoldable pub find_group : (ClientGroup → Bool) → List ClientGroup → Option ClientGroup
find_group p [] = none
find_group p (g ∷ gs) = if p g then some g else find_group p gs

-- No row is an error here.
unfoldable pub get_group : Store → ℕ → Outcome ClientGroup
unfolding find_group
get_group s id = if s.answers then found (find_group (λ g. g.id == id) s.groups) else failed

unfoldable pub get_group_by_name : Store → Text → Outcome ClientGroup
unfolding find_group
get_group_by_name s name =
    if s.answers then found (find_group (λ g. text_eq g.name name) s.groups) else failed

-- A query that fails is taken for one without rows.
abbrev pub query {ℓ} : {A : Type ℓ} → Store → Option A → Option A
query s o = if s.answers then o else none

-- The number of the first range that holds the address; `in_range` stands for net.ParseIP and
-- IPNet.Contains.
unfoldable pub first_range : (Text → Text → Bool) → List (Text × ℕ) → Text → ℕ
first_range in_range [] ip = 0
first_range in_range ((range, id) ∷ rest) ip =
    if in_range range ip then id else first_range in_range rest ip

unfoldable pub get_group_for_client :
    (Text → Text → Bool) → Store → Text → Text → Outcome ClientGroup
unfolding first_range get_group get_group_by_name
get_group_for_client in_range s client_ip client_id =
    let id = trim_space client_id in
    let ip = trim_space client_ip in
    let by_id = if text_eq id [] then none else query s (lookup id s.client_ids) in
    let by_ip = if text_eq ip [] then none else query s (lookup ip s.ips) in
    let range = if text_eq ip [] then 0 else first_range in_range s.cidrs ip in
    elim by_id [
      | some g ↦ get_group s g
      | none ↦ elim by_ip [
        | some g ↦ get_group s g
        | none ↦ if ltb 0 range then get_group s range else get_group_by_name s (codes "default")
      ]
    ]

abbrev pub is_row : ℕ → Text → GroupRow → Bool
is_row g d r = r.group_id == g && text_eq r.override.domain d

unfoldable pub find_row : ℕ → Text → List GroupRow → Option Override
find_row g d [] = none
find_row g d (r ∷ rs) = if is_row g d r then some r.override else find_row g d rs

-- `INSERT … ON CONFLICT(group_id, domain) DO UPDATE`
unfoldable pub put_row : ℕ → Override → List GroupRow → List GroupRow
put_row g o [] = record { group_id = g; override = o } ∷ []
put_row g o (r ∷ rs) =
    if is_row g o.domain r then record { group_id = g; override = o } ∷ rs else r ∷ put_row g o rs

unfoldable pub drop_row : ℕ → Text → List GroupRow → List GroupRow
drop_row g d [] = []
drop_row g d (r ∷ rs) = let rest = drop_row g d rs in if is_row g d r then rest else r ∷ rest

-- The loop of `GetEffectiveOverride` over the domain and its parents: at each the group's row comes
-- before the global one.
unfoldable pub search_overrides : Store → ℕ → List Text → Outcome (Option Override)
unfolding find_row
search_overrides s g [] = done none
search_overrides s g (c ∷ cs) =
    let rest = search_overrides s g cs in
    if s.answers
    then elim (find_row g c s.group_overrides) [
      | some o ↦ done (some o)
      | none ↦ elim (lookup c s.local_overrides) [ some o ↦ done (some o) | none ↦ rest ]
    ]
    else failed

unfoldable pub get_effective_override : Platform → Store → ℕ → Text → Outcome (Option Override)
get_effective_override platform s g domain =
    search_overrides s g (suffixes (split (trim_space (to_lower platform domain)) b'.') b'.')

unfoldable pub search_local : Store → List Text → Outcome (Option Override)
search_local s [] = done none
search_local s (c ∷ cs) =
    let rest = search_local s cs in
    if s.answers
    then elim (lookup c s.local_overrides) [ some o ↦ done (some o) | none ↦ rest ]
    else failed

-- Global overrides only.
unfoldable pub get_override : Store → Text → Outcome (Option Override)
unfolding search_local
get_override s domain = search_local s (suffixes (split domain b'.') b'.')

unfoldable pub parse_action : Text → Option Action
parse_action a =
    if text_eq a (codes "allow")
    then some allow
    else if text_eq a (codes "block")
    then some block
    else none

unfoldable pub upsert_override : Store → Text → Text → Text → Store × Bool
unfolding parse_action
upsert_override s domain action reason = elim (parse_action action) [
  | none ↦ (s, false)
  | some a ↦
      if s.answers
      then (
        record s {
          local_overrides =
              insert domain (record { domain = domain; action = a; reason = reason })
                s.local_overrides;
        },
        true,
      )
      else (s, false)
]

-- Deleting what is not there is an error.
unfoldable pub delete_override : Store → Text → Store × Bool
delete_override s domain =
    if s.answers
    then elim (lookup domain s.local_overrides) [
      | none ↦ (s, false)
      | some o ↦ (record s { local_overrides = delete domain s.local_overrides }, true)
    ]
    else (s, false)

abbrev pub has_group : ℕ → List ClientGroup → Bool
has_group id gs = any (λ g. g.id == id) gs

-- The first argument is whether the connection enforces the foreign key of the group.
unfoldable pub upsert_group_override :
    Bool → Platform → Store → ℕ → Text → Text → Text → Store × Bool
unfolding parse_action put_row
upsert_group_override foreign_keys platform s g domain action reason =
    let d = trim_space (to_lower platform domain) in
    elim (parse_action action) [
      | none ↦ (s, false)
      | some a ↦
          if text_eq d [] || not s.answers || (foreign_keys && not (has_group g s.groups))
          then (s, false)
          else (
            record s {
              group_overrides =
                  put_row g (record { domain = d; action = a; reason = reason }) s.group_overrides;
            },
            true,
          )
    ]

unfoldable pub delete_group_override : Platform → Store → ℕ → Text → Store × Bool
unfolding find_row drop_row
delete_group_override platform s g domain =
    let d = trim_space (to_lower platform domain) in
    if s.answers
    then elim (find_row g d s.group_overrides) [
      | none ↦ (s, false)
      | some o ↦ (record s { group_overrides = drop_row g d s.group_overrides }, true)
    ]
    else (s, false)
