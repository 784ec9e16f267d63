-- ===== src/Groups/Kept.antt =====
-- Each operation on groups and mappings in internal/store/sqlite.go keeps the tables sound.
use safe_road.Base.{
  ℕ, suc, ◌≡◌, refl, arith, Bool, true, false, not, ◌&&◌, ◌||◌, List, [], ◌∷◌, ◌++◌, ltb, ◌==◌,
  Text, text_eq, text_eq_refl, codes, any, filter, inl, inr, Bool-cases, Option-cases, ◌∙◌,
}
use safe_road.Domain.{Platform, to_lower}
use safe_road.Strings.{trim_space}
use safe_road.Overrides.{ClientGroup}
use safe_road.Groups.{
  MappingType, by_ip, by_cidr, by_client_id, GroupDb, Net, has_group, has_name, update_rows,
  insert_group, create_default_groups, create_group, update_group, delete_group, cascade,
  insert_mapping, refuses_mapping, add_mapping, delete_mapping, load_cidr_cache, parse_mapping_type,
  is_valid, reload_if_cidr, is_clash, protected_name,
}
use safe_road.Groups.Sound.{
  IsSound, is_default_row, is_mapped, any-append, all-append, all_mono, all-filter, any-filter,
  has_group-update_rows, default-update_rows, below-update_rows,
}

insert_group-IsSound :
    (d : GroupDb) (name : Text) (cats : List Text) (sp sm : Bool)
    → IsSound d
    → IsSound (insert_group d name cats sp sm).0
unfolding insert_group
insert_group-IsSound d name cats sp sm s =
    elim (Bool-cases (not d.store.answers || has_name name d.store.groups)) [
      | inl h ↦ rw (h, insert_group) s
      | inr h ↦
          let g : ClientGroup = record {
            id = d.next_group;
            name = name;
            block_categories = cats;
            strict_phishing = sp;
            strict_malware = sm;
          } in
          rw (h, insert_group)
            (record {
              has_default =
                  rw (any-append is_default_row d.store.groups (g ∷ []), s.has_default) refl;
              mapped =
                  all_mono (is_mapped d.store.groups) (is_mapped (d.store.groups ++ g ∷ []))
                    d.mappings
                    (λ m k.
                      rw (any-append (λ g. g.id == m.group_id) d.store.groups (g ∷ []), k) refl)
                    s.mapped;
              below = rw (all-append (λ g. ltb g.id (suc d.next_group)) d.store.groups (g ∷ [])) (
                  ground (
                    arith,
                    all_mono (λ (g : ClientGroup). ltb g.id d.next_group)
                        (λ g. ltb g.id (suc d.next_group)) d.store.groups
                        (λ (g : ClientGroup) (k : ltb g.id d.next_group ≡ true). ground arith)
                        s.below,
                  ));
              enforced = s.enforced;
            })
    ]

protected-default :
    (id : ℕ) (name : Text)
    → (id == 1) ≡ true
    → text_eq (protected_name id name) (codes "default") ≡ true
protected-default id name e = rw e (text_eq_refl (codes "default"))

pub update_group-IsSound :
    (d : GroupDb) (id : ℕ) (name : Text) (cats : List Text) (sp sm : Bool)
    → IsSound d
    → IsSound (update_group d id name cats sp sm).0
unfolding update_group
update_group-IsSound d id name cats sp sm s =
    let u : ClientGroup = record {
      id = id;
      name = protected_name id name;
      block_categories = cats;
      strict_phishing = sp;
      strict_malware = sm;
    } in
    elim (Bool-cases
      (not d.store.answers || (has_group id d.store.groups && any (is_clash u) d.store.groups))) [
        | inl h ↦ rw (h, update_group) s
        | inr h ↦
            rw (h, update_group)
              (record {
                has_default =
                    default-update_rows u d.store.groups (protected-default id name) s.has_default;
                mapped =
                    all_mono (is_mapped d.store.groups) (is_mapped (update_rows u d.store.groups))
                      d.mappings (λ m k. rw (has_group-update_rows u m.group_id d.store.groups) k)
                      s.mapped;
                below = below-update_rows d.next_group u d.store.groups s.below;
                enforced = s.enforced;
              })
      ]

pub delete_group-IsSound : (d : GroupDb) (id : ℕ) → IsSound d → IsSound (delete_group d id).0
unfolding delete_group
delete_group-IsSound d id s =
    elim (Bool-cases (id == 1 || not d.store.answers || not (has_group id d.store.groups))) [
      | inl h ↦ rw (h, delete_group) s
      | inr h ↦
          let kept = filter (λ (g : ClientGroup). not (g.id == id)) d.store.groups in
          rw (h, delete_group)
            (rw (s.enforced, cascade)
              (record {
                has_default =
                    any-filter is_default_row (λ g. not (g.id == id)) d.store.groups
                      (λ (g : ClientGroup) k. ground (arith, k, h))
                    ∙ s.has_default;
                mapped =
                    all-filter (is_mapped d.store.groups) (is_mapped kept)
                      (λ m. not (m.group_id == id)) d.mappings
                      (λ m k n.
                        any-filter (λ g. g.id == m.group_id) (λ g. not (g.id == id)) d.store.groups
                          (λ (g : ClientGroup) j. ground (arith, j, n))
                        ∙ k)
                      s.mapped;
                below =
                    all-filter (λ (g : ClientGroup). ltb g.id d.next_group)
                      (λ (g : ClientGroup). ltb g.id d.next_group) (λ g. not (g.id == id))
                      d.store.groups (λ g k n. k) s.below;
                enforced = refl;
              }))
    ]

load_cidr_cache-IsSound : (net : Net) (d : GroupDb) → IsSound d → IsSound (load_cidr_cache net d)
unfolding load_cidr_cache
load_cidr_cache-IsSound net d s = elim (Bool-cases d.store.answers) [
  | inl h ↦
      rw (h, load_cidr_cache)
        (record {
          has_default = s.has_default;
          mapped = s.mapped;
          below = s.below;
          enforced = s.enforced;
        })
  | inr h ↦
      rw (h, load_cidr_cache)
        (record {
          has_default = s.has_default;
          mapped = s.mapped;
          below = s.below;
          enforced = s.enforced;
        })
]

reload_if_cidr-IsSound :
    (net : Net) (t : MappingType) (d : GroupDb) → IsSound d → IsSound (reload_if_cidr net t d)
reload_if_cidr-IsSound net by_ip d s = s
reload_if_cidr-IsSound net by_cidr d s = load_cidr_cache-IsSound net d s
reload_if_cidr-IsSound net by_client_id d s = s

has_target :
    (d : GroupDb) (t : MappingType) (value : Text) (group_id : ℕ)
    → d.foreign_keys ≡ true
    → refuses_mapping d t value group_id ≡ false
    → (has_group group_id d.store.groups && true) ≡ true
unfolding refuses_mapping
has_target d t value group_id e h = ground (arith, h, e)

insert_mapping-IsSound :
    (net : Net) (d : GroupDb) (t : MappingType) (value : Text) (group_id : ℕ)
    → IsSound d
    → IsSound (insert_mapping net d t value group_id).0
unfolding insert_mapping
insert_mapping-IsSound net d t value group_id s =
    elim (Bool-cases (refuses_mapping d t value group_id)) [
      | inl h ↦ rw (h, insert_mapping) s
      | inr h ↦
          rw (h, insert_mapping)
            (reload_if_cidr-IsSound net t _ (record {
              has_default = s.has_default;
              mapped =
                  rw (all-append (is_mapped d.store.groups) d.mappings (_ ∷ []), s.mapped)
                    (has_target d t value group_id s.enforced h);
              below = s.below;
              enforced = s.enforced;
            }))
    ]

add_mapping-IsSound :
    (platform : Platform) (net : Net) (d : GroupDb) (t value : Text) (group_id : ℕ)
    → IsSound d
    → IsSound (add_mapping platform net d t value group_id).0
unfolding add_mapping
add_mapping-IsSound platform net d t value group_id s =
    elim (Option-cases (parse_mapping_type (trim_space (to_lower platform t)))) [
      | inl h ↦ rw (h, add_mapping) s
      | inr (kind, h) ↦
          let v = trim_space value in
          elim (Bool-cases (text_eq v [] || not (is_valid net kind v))) [
            | inl k ↦ rw (h, add_mapping) (rw k s)
            | inr k ↦ rw (h, add_mapping) (rw k (insert_mapping-IsSound net d kind v group_id s))
          ]
    ]

delete_mapping-IsSound :
    (net : Net) (d : GroupDb) (id : ℕ) → IsSound d → IsSound (delete_mapping net d id).0
unfolding delete_mapping
delete_mapping-IsSound net d id s =
    elim (Bool-cases (not d.store.answers || not (any (λ m. m.id == id) d.mappings))) [
      | inl h ↦ rw (h, delete_mapping) s
      | inr h ↦
          rw (h, delete_mapping)
            (load_cidr_cache-IsSound net
              (record d { mappings = filter (λ m. not (m.id == id)) d.mappings })
              (record {
                has_default = s.has_default;
                mapped =
                    all-filter (is_mapped d.store.groups) (is_mapped d.store.groups)
                      (λ m. not (m.id == id)) d.mappings (λ m k n. k) s.mapped;
                below = s.below;
                enforced = s.enforced;
              }))
    ]

create_default_groups-IsSound : (d : GroupDb) → IsSound d → IsSound (create_default_groups d).0
unfolding create_default_groups
create_default_groups-IsSound d s = elim (Bool-cases (not d.store.answers)) [
  | inl h ↦ rw (h, create_default_groups) s
  | inr h ↦ elim (Bool-cases (has_name (codes "default") d.store.groups)) [
    | inl k ↦ rw (h, create_default_groups) (rw k s)
    | inr k ↦
        rw (h, create_default_groups)
          (rw k (insert_group-IsSound d (codes "default") [] false true s))
  ]
]

-- A call of an operation on groups or mappings.
pub data GroupOp : Type 0 where
  ensure_default : GroupOp
  add_group : Text → List Text → Bool → Bool → GroupOp
  change_group : ℕ → Text → List Text → Bool → Bool → GroupOp
  drop_group : ℕ → GroupOp
  map_client : Text → Text → ℕ → GroupOp
  unmap_client : ℕ → GroupOp

unfoldable pub apply_op : Platform → Net → GroupDb → GroupOp → GroupDb
apply_op platform net d ensure_default = (create_default_groups d).0
apply_op platform net d (add_group name cats sp sm) = (create_group d name cats sp sm).0
apply_op platform net d (change_group id name cats sp sm) = (update_group d id name cats sp sm).0
apply_op platform net d (drop_group id) = (delete_group d id).0
apply_op platform net d (map_client t value id) = (add_mapping platform net d t value id).0
apply_op platform net d (unmap_client id) = (delete_mapping net d id).0

unfoldable pub apply_all : Platform → Net → GroupDb → List GroupOp → GroupDb
unfolding apply_op
apply_all platform net d [] = d
apply_all platform net d (op ∷ ops) = apply_all platform net (apply_op platform net d op) ops

apply_op-IsSound :
    (platform : Platform) (net : Net) (d : GroupDb) (op : GroupOp)
    → IsSound d
    → IsSound (apply_op platform net d op)
unfolding apply_op create_group
apply_op-IsSound platform net d ensure_default s = create_default_groups-IsSound d s
apply_op-IsSound platform net d (add_group name cats sp sm) s =
    insert_group-IsSound d name cats sp sm s
apply_op-IsSound platform net d (change_group id name cats sp sm) s =
    update_group-IsSound d id name cats sp sm s
apply_op-IsSound platform net d (drop_group id) s = delete_group-IsSound d id s
apply_op-IsSound platform net d (map_client t value id) s =
    add_mapping-IsSound platform net d t value id s
apply_op-IsSound platform net d (unmap_client id) s = delete_mapping-IsSound net d id s

-- Whatever groups and mappings are created, changed and deleted, with errors or not, group 1 keeps
-- the name `default`, each mapping leads to a group and the keys of groups stay below the next
-- one, where foreign keys are enforced.
pub apply_all-IsSound :
    (platform : Platform) (net : Net) (d : GroupDb) (ops : List GroupOp)
    → IsSound d
    → IsSound (apply_all platform net d ops)
unfolding apply_all
apply_all-IsSound platform net d [] s = s
apply_all-IsSound platform net d (op ∷ ops) s =
    apply_all-IsSound platform net (apply_op platform net d op) ops
      (apply_op-IsSound platform net d op s)
