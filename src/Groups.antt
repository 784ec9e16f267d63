-- ===== src/Groups.antt =====
-- Client groups and client mappings of internal/store/sqlite.go: the operations that change them,
-- over the rows of `client_groups` and `client_mappings`, and the store that `GetGroupForClient`
-- reads. Descriptions and times are left out. Rows keep the order in which they were inserted; SQL
-- leaves the order of the rows of a query without ORDER BY open.
pub mod Sound
pub mod Kept
pub mod Clients
pub mod Stale
use safe_road.Base.{
  ℕ, zero, suc, ◌+◌, Bool, true, false, not, ◌&&◌, ◌||◌, Option, none, some, List, [], ◌∷◌, ◌++◌,
  map, ltb, leb, ◌==◌, if◌then◌else◌, Text, text_eq, codes, Assoc, any, filter,
}
use safe_road.Strings.{trim_space}
use safe_road.Domain.{Platform, to_lower}
pub use safe_road.Overrides.{has_group}
use safe_road.Overrides.{ClientGroup, GroupRow, Override, Store, find_group}

-- The CHECK constraint of the table admits no other type.
pub data MappingType : Type 0 where
  by_ip by_cidr by_client_id : MappingType

pub record ClientMapping : Type 0 where
  pub id : ℕ
  pub mapping_type : MappingType
  pub value : Text
  pub group_id : ℕ

-- `next_group` and `next_mapping` are the next AUTOINCREMENT keys. The pragma `foreign_keys` holds
-- for a connection, so whether it holds for the one that runs a statement is a field.
pub record GroupDb : Type 0 where
  pub store : Store
  pub mappings : List ClientMapping
  pub next_group : ℕ
  pub next_mapping : ℕ
  pub foreign_keys : Bool

-- net.ParseIP and net.ParseCIDR, as far as they accept a text.
pub record Net : Type 0 where
  pub parses_ip : Text → Bool
  pub parses_cidr : Text → Bool

unfoldable pub same_type : MappingType → MappingType → Bool
same_type by_ip by_ip = true
same_type by_cidr by_cidr = true
same_type by_client_id by_client_id = true
same_type s t = false

-- The rows of one type, value and group.
unfoldable pub rows_of : MappingType → List ClientMapping → Assoc ℕ
rows_of t [] = []
rows_of t (m ∷ ms) =
    let rest = rows_of t ms in
    if same_type m.mapping_type t then (m.value, m.group_id) ∷ rest else rest

-- The store with the mappings of clients and addresses; the ranges are those of the cache.
unfoldable pub view : GroupDb → Store
unfolding rows_of
view d = record d.store {
  client_ids = rows_of by_client_id d.mappings;
  ips = rows_of by_ip d.mappings;
}

-- A failed query keeps the old cache; a range that does not parse is left out.
unfoldable pub load_cidr_cache : Net → GroupDb → GroupDb
load_cidr_cache net d =
    if d.store.answers
    then record d {
      store = record d.store {
        cidrs = filter (λ row. net.parses_cidr row.0) (rows_of by_cidr d.mappings);
      };
    }
    else d

abbrev pub has_name : Text → List ClientGroup → Bool
has_name name gs = any (λ g. text_eq g.name name) gs

abbrev pub with_groups : GroupDb → List ClientGroup → GroupDb
with_groups d gs = record d { store = record d.store { groups = gs } }

-- The INSERT, which the UNIQUE constraint on names may refuse, and its new key.
unfoldable pub insert_group : GroupDb → Text → List Text → Bool → Bool → GroupDb × Option ℕ
insert_group d name block_categories strict_phishing strict_malware =
    if not d.store.answers || has_name name d.store.groups
    then (d, none)
    else let g : ClientGroup = record {
      id = d.next_group;
      name = name;
      block_categories = block_categories;
      strict_phishing = strict_phishing;
      strict_malware = strict_malware;
    } in
      (
        record (with_groups d (d.store.groups ++ g ∷ [])) { next_group = suc d.next_group },
        some d.next_group,
      )

-- Whether there is no error, beside the state.
unfoldable pub create_default_groups : GroupDb → GroupDb × Bool
create_default_groups d =
    if not d.store.answers
    then (d, false)
    else if has_name (codes "default") d.store.groups
    then (d, true)
    else let (d', id) = insert_group d (codes "default") [] false true in
      (d', elim id [ none ↦ false | some id ↦ true ])

unfoldable pub create_group : GroupDb → Text → List Text → Bool → Bool → GroupDb × Option ℕ
unfolding insert_group
create_group d name block_categories strict_phishing strict_malware =
    insert_group d name block_categories strict_phishing strict_malware

abbrev pub protected_name : ℕ → Text → Text
protected_name id name = if id == 1 then codes "default" else name

unfoldable pub update_rows : ClientGroup → List ClientGroup → List ClientGroup
update_rows u [] = []
update_rows u (g ∷ gs) = (if g.id == u.id then u else g) ∷ update_rows u gs

abbrev pub is_clash : ClientGroup → ClientGroup → Bool
is_clash u g = not (g.id == u.id) && text_eq g.name u.name

-- The UPDATE of a key that no row has changes nothing and is no error.
unfoldable pub update_group : GroupDb → ℕ → Text → List Text → Bool → Bool → GroupDb × Bool
unfolding update_rows
update_group d id name block_categories strict_phishing strict_malware =
    let u : ClientGroup = record {
      id = id;
      name = protected_name id name;
      block_categories = block_categories;
      strict_phishing = strict_phishing;
      strict_malware = strict_malware;
    } in
    if not d.store.answers || (has_group id d.store.groups && any (is_clash u) d.store.groups)
    then (d, false)
    else (with_groups d (update_rows u d.store.groups), true)

-- ON DELETE CASCADE
unfoldable pub cascade : GroupDb → ℕ → GroupDb
cascade d id =
    if d.foreign_keys
    then record d {
      store = record d.store {
        group_overrides = filter (λ r. not (r.group_id == id)) d.store.group_overrides;
      };
      mappings = filter (λ m. not (m.group_id == id)) d.mappings;
    }
    else d

unfoldable pub delete_group : GroupDb → ℕ → GroupDb × Bool
unfolding cascade
delete_group d id =
    if id == 1 || not d.store.answers || not (has_group id d.store.groups)
    then (d, false)
    else (cascade (with_groups d (filter (λ g. not (g.id == id)) d.store.groups)) id, true)

unfoldable pub parse_mapping_type : Text → Option MappingType
parse_mapping_type t =
    if text_eq t (codes "ip")
    then some by_ip
    else if text_eq t (codes "cidr")
    then some by_cidr
    else if text_eq t (codes "client_id")
    then some by_client_id
    else none

abbrev pub is_valid : Net → MappingType → Text → Bool
is_valid net by_ip value = net.parses_ip value
is_valid net by_cidr value = net.parses_cidr value
is_valid net by_client_id value = true

abbrev pub is_mapping : MappingType → Text → ClientMapping → Bool
is_mapping t value m = same_type m.mapping_type t && text_eq m.value value

-- The constraint UNIQUE(mapping_type, value), and the foreign key.
unfoldable pub refuses_mapping : GroupDb → MappingType → Text → ℕ → Bool
refuses_mapping d t value group_id =
    not d.store.answers
    || any (is_mapping t value) d.mappings
    || (d.foreign_keys && not (has_group group_id d.store.groups))

abbrev pub reload_if_cidr : Net → MappingType → GroupDb → GroupDb
reload_if_cidr net by_cidr d = load_cidr_cache net d
reload_if_cidr net t d = d

unfoldable pub insert_mapping : Net → GroupDb → MappingType → Text → ℕ → GroupDb × Option ℕ
unfolding refuses_mapping load_cidr_cache
insert_mapping net d t value group_id =
    if refuses_mapping d t value group_id
    then (d, none)
    else let m : ClientMapping = record {
      id = d.next_mapping;
      mapping_type = t;
      value = value;
      group_id = group_id;
    } in
      (
        reload_if_cidr net t
            (record d { mappings = d.mappings ++ m ∷ []; next_mapping = suc d.next_mapping }),
        some d.next_mapping,
      )

-- `AddMappingInt`
unfoldable pub add_mapping : Platform → Net → GroupDb → Text → Text → ℕ → GroupDb × Option ℕ
unfolding parse_mapping_type
add_mapping platform net d mapping_type value group_id =
    elim (parse_mapping_type (trim_space (to_lower platform mapping_type))) [
      | none ↦ (d, none)
      | some t ↦
          let value = trim_space value in
          if text_eq value [] || not (is_valid net t value)
          then (d, none)
          else insert_mapping net d t value group_id
    ]

unfoldable pub delete_mapping : Net → GroupDb → ℕ → GroupDb × Bool
unfolding load_cidr_cache
delete_mapping net d id =
    if not d.store.answers || not (any (λ m. m.id == id) d.mappings) then (d, false) else (
      load_cidr_cache net (record d { mappings = filter (λ m. not (m.id == id)) d.mappings }),
      true,
    )

-- The rows of a table with an error as `none`.
unfoldable pub list_groups : GroupDb → Option (List ClientGroup)
list_groups d = if d.store.answers then some d.store.groups else none

abbrev pub joined : List ClientGroup → ClientMapping → List (ClientMapping × Text)
joined gs m = elim (find_group (λ g. g.id == m.group_id) gs) [
  | none ↦ []
  | some g ↦ (m, g.name) ∷ []
]

-- The newest first.
unfoldable pub join_rows : List ClientGroup → List ClientMapping → List (ClientMapping × Text)
join_rows gs [] = []
join_rows gs (m ∷ ms) = join_rows gs ms ++ joined gs m

unfoldable pub list_mappings : GroupDb → Option (List (ClientMapping × Text))
unfolding join_rows
list_mappings d = if d.store.answers then some (join_rows d.store.groups d.mappings) else none
