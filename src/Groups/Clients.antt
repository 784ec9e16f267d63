-- ===== src/Groups/Clients.antt =====
-- The group of a client, `GetGroupForClient` of internal/store/sqlite.go, over the tables that the
-- operations on groups and mappings leave.
use safe_road.Base.{
  ℕ, suc, ◌≡◌, refl, arith, ◌∙◌, ap, sym, Bool, true, false, Option, none, some, List, [], ◌∷◌,
  ◌++◌, ltb, ◌==◌, if◌then◌else◌, Text, text_eq, text_eq_refl, codes, any, all, inl, inr,
  Bool-cases, Option-cases, lookup,
}
use safe_road.Domain.{Platform, to_lower}
use safe_road.Strings.{trim_space}
use safe_road.Whitelist.{Outcome, done}
use safe_road.Overrides.{
  ClientGroup, Store, get_group, get_group_by_name, first_range, query, get_group_for_client,
}
use safe_road.Groups.{
  MappingType, by_client_id, ClientMapping, GroupDb, Net, view, rows_of, has_group, same_type,
  refuses_mapping, insert_mapping, add_mapping, parse_mapping_type, is_mapping,
}
use safe_road.Groups.Sound.{IsSound, IsCurrent, is_default_row, find_group-any, lookup-rows_of}

-- The call returns a group.
abbrev pub Returns : Outcome ClientGroup → Type 0
Returns o = (g : ClientGroup) × (o ≡ done g)

get_group-Returns :
    (s : Store) (id : ℕ)
    → s.answers ≡ true
    → has_group id s.groups ≡ true
    → Returns (get_group s id)
unfolding get_group
get_group-Returns s id a h =
    let (g, e, p) = find_group-any (λ g. g.id == id) s.groups h in
    (g, rw (a, get_group) (rw e refl))

has_name-default :
    (gs : List ClientGroup)
    → any is_default_row gs ≡ true
    → any (λ g. text_eq g.name (codes "default")) gs ≡ true
has_name-default [] h = h
has_name-default (g ∷ gs) h = ground (arith, h, has_name-default gs)

default-Returns :
    (s : Store)
    → s.answers ≡ true
    → any is_default_row s.groups ≡ true
    → Returns (get_group_by_name s (codes "default"))
unfolding get_group_by_name
default-Returns s a h =
    let named = has_name-default s.groups h in
    let (g, e, p) = find_group-any (λ g. text_eq g.name (codes "default")) s.groups named in
    (g, rw (a, get_group_by_name) (rw e refl))

first_range-has_group :
    (in_range : Text → Text → Bool) (gs : List ClientGroup) (rows : List (Text × ℕ)) (ip : Text)
    → all (λ row. has_group row.1 gs) rows ≡ true
    → ltb 0 (first_range in_range rows ip) ≡ true
    → has_group (first_range in_range rows ip) gs ≡ true
unfolding first_range
first_range-has_group in_range gs [] ip h e = cc
first_range-has_group in_range gs ((range, id) ∷ rows) ip h e =
    ground (arith, h, e, first_range-has_group in_range gs rows ip)

query-some :
    (s : Store) (b : Bool) (o : Option ℕ) {id : ℕ}
    → (if b then none else query s o) ≡ some id
    → o ≡ some id
query-some s b o e = ground (arith, e)

range-has_group :
    (in_range : Text → Text → Bool) (d : GroupDb) (ip : Text) (b : Bool)
    → IsCurrent d
    → ltb 0 (if b then 0 else first_range in_range d.store.cidrs ip) ≡ true
    → has_group (if b then 0 else first_range in_range d.store.cidrs ip) d.store.groups ≡ true
range-has_group in_range d ip true c n = ground (arith, n)
range-has_group in_range d ip false c n =
    first_range-has_group in_range d.store.groups d.store.cidrs ip c n

-- In sound tables whose cached ranges lead to groups, every client has a group: the call returns one
-- for any address and identifier, as long as SQLite answers.
pub get_group_for_client-Returns :
    (in_range : Text → Text → Bool) (d : GroupDb) (client_ip client_id : Text)
    → IsSound d
    → IsCurrent d
    → d.store.answers ≡ true
    → Returns (get_group_for_client in_range (view d) client_ip client_id)
unfolding get_group_for_client view
get_group_for_client-Returns in_range d client_ip client_id s current a =
    let id = trim_space client_id in
    let ip = trim_space client_ip in
    let by_id = if text_eq id [] then none else query (view d) (lookup id (view d).client_ids) in
    let by_ip = if text_eq ip [] then none else query (view d) (lookup ip (view d).ips) in
    let range = if text_eq ip [] then 0 else first_range in_range d.store.cidrs ip in
    elim (Option-cases by_id) [
      | inr (g, h) ↦
          rw (h, get_group_for_client)
            (get_group-Returns (view d) g a (
              lookup-rows_of d.store.groups by_client_id id d.mappings s.mapped
                (query-some (view d) (text_eq id []) _ h)))
      | inl h ↦ elim (Option-cases by_ip) [
        | inr (g, k) ↦
            rw (h, get_group_for_client)
              (rw k (
                get_group-Returns (view d) g a (
                  lookup-rows_of d.store.groups MappingType.by_ip ip d.mappings s.mapped
                    (query-some (view d) (text_eq ip []) _ k))))
        | inl k ↦ elim (Bool-cases (ltb 0 range)) [
          | inr n ↦
              rw (h, get_group_for_client) (rw k (rw n (default-Returns (view d) a s.has_default)))
          | inl n ↦
              rw (h, get_group_for_client)
                (rw k (
                  rw n (
                    get_group-Returns (view d) range a
                      (range-has_group in_range d ip (text_eq ip []) current n))))
        ]
      ]
    ]

lookup-rows_of_new :
    (t : MappingType) (value : Text) (ms : List ClientMapping) (m : ClientMapping)
    → any (is_mapping t value) ms ≡ false
    → same_type m.mapping_type t ≡ true
    → m.value ≡ value
    → lookup value (rows_of t (ms ++ m ∷ [])) ≡ some m.group_id
unfolding rows_of lookup
lookup-rows_of_new t value [] m n same e = rw (same, e) (rw (text_eq_refl value) refl)
lookup-rows_of_new t value (r ∷ ms) m n same e =
    ground (arith, n, lookup-rows_of_new t value ms m (ground (arith, n)) same e)

inserted :
    (net : Net) (d : GroupDb) (t : MappingType) (value : Text) (group_id : ℕ) {id : ℕ}
    → (insert_mapping net d t value group_id).1 ≡ some id
    → refuses_mapping d t value group_id ≡ false
unfolding insert_mapping
inserted net d t value group_id e = ground (arith, e)

added :
    (platform : Platform) (net : Net) (d : GroupDb) (t value : Text) (group_id : ℕ) {id : ℕ}
    → parse_mapping_type (trim_space (to_lower platform t)) ≡ some by_client_id
    → (add_mapping platform net d t value group_id).1 ≡ some id
    → (text_eq (trim_space value) [] ≡ false)
      × (add_mapping platform net d t value group_id
          ≡ insert_mapping net d by_client_id (trim_space value) group_id)
unfolding add_mapping
added platform net d t value group_id {id} h e = elim (Bool-cases (text_eq (trim_space value) [])) [
  | inr k ↦ (k, rw (h, add_mapping) (rw k refl))
  | inl k ↦
      let refused : (add_mapping platform net d t value group_id).1 ≡ none =
        rw (h, add_mapping) (rw k refl) in
      cc
]

group_by_id :
    (in_range : Text → Text → Bool) (st : Store) (client_ip client_id : Text) {g : ℕ}
    → text_eq (trim_space client_id) [] ≡ false
    → st.answers ≡ true
    → lookup (trim_space client_id) st.client_ids ≡ some g
    → get_group_for_client in_range st client_ip client_id ≡ get_group st g
unfolding get_group_for_client
group_by_id in_range st client_ip client_id {g} k a e =
    let by_id : (if text_eq (trim_space client_id) []
          then none
          else query st (lookup (trim_space client_id) st.client_ids))
        ≡ some g =
      rw k (ground (arith, a, e)) in
    rw (by_id, get_group_for_client) refl

refuses-answers :
    (d : GroupDb) (t : MappingType) (value : Text) (group_id : ℕ)
    → refuses_mapping d t value group_id ≡ false
    → (d.store.answers ≡ true) × (any (is_mapping t value) d.mappings ≡ false)
unfolding refuses_mapping
refuses-answers d t value group_id r = ground (arith, r)

-- A client identifier that is mapped to a group without error leads to that group afterwards,
-- whatever the client's address is.
pub get_group_for_client-add_mapping :
    (platform : Platform) (net : Net) (in_range : Text → Text → Bool) (d : GroupDb)
    (t client_id client_ip : Text) (group_id : ℕ) {id : ℕ}
    → parse_mapping_type (trim_space (to_lower platform t)) ≡ some by_client_id
    → (add_mapping platform net d t client_id group_id).1 ≡ some id
    → let d' = (add_mapping platform net d t client_id group_id).0 in
      get_group_for_client in_range (view d') client_ip client_id ≡ get_group d.store group_id
unfolding insert_mapping get_group view same_type
get_group_for_client-add_mapping platform net in_range d t client_id client_ip group_id {id} h e =
    let v = trim_space client_id in
    let (k, same) = added platform net d t client_id group_id h e in
    let r = inserted net d by_client_id v group_id (ap (λ p. p.1) (sym same) ∙ e) in
    let (a, free) = refuses-answers d by_client_id v group_id r in
    let m : ClientMapping = record {
      id = d.next_mapping;
      mapping_type = by_client_id;
      value = v;
      group_id = group_id;
    } in
    let after : GroupDb = record d {
      mappings = d.mappings ++ m ∷ [];
      next_mapping = suc d.next_mapping;
    } in
    let done_so : (add_mapping platform net d t client_id group_id).0 ≡ after =
      ap (λ p. p.0) same ∙ rw (r, insert_mapping) refl in
    ap (λ x. get_group_for_client in_range (view x) client_ip client_id) done_so
    ∙ group_by_id in_range (view after) client_ip client_id k a
        (lookup-rows_of_new by_client_id v d.mappings m free refl refl)
