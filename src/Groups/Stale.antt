-- ===== src/Groups/Stale.antt =====
-- `DeleteGroup` of internal/store/sqlite.go and the cache of address ranges, and the group that
-- `Policy` of internal/risk/service.go takes then.
use safe_road.Base.{
  ℕ, ◌≡◌, refl, arith, ◌∙◌, ap, Bool, true, false, not, ◌||◌, none, some, List, [], ◌∷◌, ltb, ◌==◌,
  if◌then◌else◌, Text, text_eq, inl, inr, Bool-cases, lookup, filter,
}
use safe_road.Strings.{trim_space}
use safe_road.Whitelist.{failed}
use safe_road.Overrides.{
  ClientGroup, Store, find_group, get_group, first_range, query, get_group_for_client,
}
use safe_road.Service.Policy.{Service, ClientInfo, group_for, default_group}
use safe_road.Groups.{
  MappingType, by_ip, ClientMapping, GroupDb, view, rows_of, has_group, cascade, with_groups,
  delete_group,
}

find_group_gone :
    (id : ℕ) (gs : List ClientGroup)
    → find_group (λ g. g.id == id) (filter (λ g. not (g.id == id)) gs) ≡ none
unfolding find_group filter
find_group_gone id [] = refl
find_group_gone id (g ∷ gs) = elim (Bool-cases (g.id == id)) [
  | inl h ↦ rw h (find_group_gone id gs)
  | inr h ↦ rw h (rw h (find_group_gone id gs))
]

lookup-rows_of_kept :
    (t : MappingType) (value : Text) (id : ℕ) (ms : List ClientMapping)
    → lookup value (rows_of t ms) ≡ none
    → lookup value (rows_of t (filter (λ m. not (m.group_id == id)) ms)) ≡ none
unfolding lookup rows_of filter
lookup-rows_of_kept t value id [] h = refl
lookup-rows_of_kept t value id (m ∷ ms) h = ground (arith, h, lookup-rows_of_kept t value id ms)

-- A store without rows for a client whose first range leads to a group that is gone.
lost :
    (in_range : Text → Text → Bool) (st : Store) (client_ip client_id : Text)
    → text_eq (trim_space client_id) [] ≡ true
    → text_eq (trim_space client_ip) [] ≡ false
    → lookup (trim_space client_ip) st.ips ≡ none
    → ltb 0 (first_range in_range st.cidrs (trim_space client_ip)) ≡ true
    → get_group st (first_range in_range st.cidrs (trim_space client_ip)) ≡ failed
    → get_group_for_client in_range st client_ip client_id ≡ failed
unfolding get_group_for_client
lost in_range st client_ip client_id j k n r f =
    let by_ip : (if text_eq (trim_space client_ip) []
          then none
          else query st (lookup (trim_space client_ip) st.ips))
        ≡ none =
      rw k (rw n (ground arith)) in
    rw (j, get_group_for_client) (rw by_ip (rw k (rw r f)))

abbrev without_group : GroupDb → ℕ → GroupDb
without_group d id = with_groups d (filter (λ g. not (g.id == id)) d.store.groups)

deleted :
    (d : GroupDb) (id : ℕ)
    → (delete_group d id).1 ≡ true
    → ((delete_group d id).0 ≡ cascade (without_group d id) id) × (d.store.answers ≡ true)
unfolding delete_group
deleted d id h =
    elim (Bool-cases (id == 1 || not d.store.answers || not (has_group id d.store.groups))) [
      | inl k ↦ let same : (delete_group d id).1 ≡ false = rw (k, delete_group) refl in cc
      | inr k ↦ (rw (k, delete_group) refl, ground (arith, k))
    ]

-- The parts of the tables that the look-up of a client by its address reads.
cascade_store :
    (d : GroupDb) (id : ℕ)
    → d.foreign_keys ≡ true
    → let st = view (cascade d id) in
      (st.answers ≡ d.store.answers)
      × (st.groups ≡ d.store.groups)
      × (st.cidrs ≡ d.store.cidrs)
      × (st.ips ≡ rows_of by_ip (filter (λ m. not (m.group_id == id)) d.mappings))
unfolding view cascade
cascade_store d id e = rw (e, cascade) (refl, refl, refl, refl)

get_group-gone :
    (st : Store) (gs : List ClientGroup) (id : ℕ)
    → st.groups ≡ filter (λ g. not (g.id == id)) gs
    → get_group st id ≡ failed
unfolding get_group
get_group-gone st gs id e =
    let gone : find_group (λ g. g.id == id) st.groups ≡ none = rw e (find_group_gone id gs) in
    rw gone (ground arith)

-- Deleting a group whose range is cached leaves the cache as it was: a client that only that range
-- maps, by the first cached range that holds its address, then has no group, an error, and `Policy`
-- takes its own settings for such a client, not those of the stored default group.
pub group_for-delete_group :
    (s : Service) (d : GroupDb) (client : ClientInfo) (id : ℕ)
    → d.foreign_keys ≡ true
    → (delete_group d id).1 ≡ true
    → text_eq (trim_space client.client_id) [] ≡ true
    → text_eq (trim_space client.ip) [] ≡ false
    → lookup (trim_space client.ip) (rows_of by_ip d.mappings) ≡ none
    → first_range s.in_range d.store.cidrs (trim_space client.ip) ≡ id
    → ltb 0 id ≡ true
    → let st = view (delete_group d id).0 in
      (get_group_for_client s.in_range st client.ip client.client_id ≡ failed)
      × (group_for (record s { store = some st }) client ≡ default_group)
unfolding group_for
group_for-delete_group s d client id e h j k n r p =
    let (after, a) = deleted d id h in
    let st = view (delete_group d id).0 in
    let (same, groups, cidrs, ips) = cascade_store (without_group d id) id e in
    let via = ap (λ x. view x) after in
    let cidrs' : st.cidrs ≡ d.store.cidrs = ap (λ x. x.cidrs) via ∙ cidrs in
    let range : first_range s.in_range st.cidrs (trim_space client.ip) ≡ id = rw cidrs' r in
    let f : get_group_for_client s.in_range st client.ip client.client_id ≡ failed =
      lost s.in_range st client.ip client.client_id j k
        (rw (ap (λ x. x.ips) via ∙ ips)
          (lookup-rows_of_kept by_ip (trim_space client.ip) id d.mappings n))
        (rw range p)
        (rw range (get_group-gone st d.store.groups id (ap (λ x. x.groups) via ∙ groups))) in
    (f, rw (f, group_for) refl)
