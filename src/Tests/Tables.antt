-- ===== src/Tests/Tables.antt =====
-- internal/store: groups and mappings that change, and telemetry that is written and queried.
use safe_road.Base.{
  ℕ, ◌+◌, ◌-◌, ◌*◌, ◌≤◌, Bool, true, false, Option, some, none, List, [], ◌∷◌, ◌++◌, ◌≡◌, refl,
  arith, Text, codes, all, ◌&&◌, ◌==◌, leb,
}
use safe_road.Whitelist.{failed}
use safe_road.Overrides.{ClientGroup, Store, get_group, get_group_for_client}
use safe_road.Service.Policy.{default_group, group_for, Service, from_lexical}
use safe_road.Groups.{
  GroupDb, ClientMapping, Net, by_cidr, by_client_id, view, add_mapping, delete_group,
}
use safe_road.Groups.Sound.{IsSound}
use safe_road.Groups.Kept.{
  GroupOp, add_group, change_group, drop_group, map_client, unmap_client, ensure_default, apply_all,
  apply_all-IsSound,
}
use safe_road.Groups.Clients.{
  Returns, get_group_for_client-Returns, get_group_for_client-add_mapping,
}
use safe_road.Groups.Stale.{group_for-delete_group}
use safe_road.Telemetry.{LogRow, Telemetry, drain}
use safe_road.Telemetry.Buffer.{
  TelemetryStep, enqueue, write_one, run_steps, accepted, drain-run_steps,
}
use safe_road.Tests.{ascii}
use safe_road.Tests.Decisions.{service, db, laptop, lexical}

abbrev net : Net
net = record { parses_ip = λ t. true; parses_cidr = λ t. true }

abbrev kids : ClientGroup
kids = record {
  id = 2;
  name = codes "kids";
  block_categories = codes "gambling" ∷ [];
  strict_phishing = true;
  strict_malware = true;
}

-- The range of the children's devices is mapped and cached.
abbrev tables : GroupDb
tables = record {
  store = record db { groups = default_group ∷ kids ∷ []; cidrs = (codes "10.0.0.0/24", 2) ∷ [] };
  mappings =
      record { id = 1; mapping_type = by_cidr; value = codes "10.0.0.0/24"; group_id = 2 } ∷ [];
  next_group = 3;
  next_mapping = 2;
  foreign_keys = true;
}

tables-IsSound : IsSound tables
unfolding safe_road.Base.text_eq
tables-IsSound = record { has_default = refl; mapped = refl; below = refl; enforced = refl }

abbrev operations : List GroupOp
operations =
    ensure_default
    ∷ add_group (codes "guests") [] false true
    ∷ change_group 1 (codes "renamed") [] true true
    ∷ map_client (codes " Client_ID") (codes "tablet") 2
    ∷ drop_group 2
    ∷ unmap_client 1
    ∷ []

apply_all-IsSound_example : IsSound (apply_all ascii net tables operations)
apply_all-IsSound_example = apply_all-IsSound ascii net tables operations tables-IsSound

get_group_for_client-Returns_example :
    Returns
      (get_group_for_client (λ range ip. true) (view tables) (codes "10.0.0.9") (codes "tablet"))
get_group_for_client-Returns_example =
    get_group_for_client-Returns (λ range ip. true) tables (codes "10.0.0.9") (codes "tablet")
      tables-IsSound refl refl

get_group_for_client-add_mapping_example :
    let d' = (add_mapping ascii net tables (codes "client_id") (codes "tablet") 2).0 in
    get_group_for_client (λ range ip. true) (view d') (codes "10.0.0.9") (codes "tablet")
    ≡ get_group tables.store 2
unfolding safe_road.Groups.parse_mapping_type safe_road.Base.text_eq safe_road.Strings.trim_space
    safe_road.Domain.to_lower add_mapping safe_road.Groups.insert_mapping safe_road.Groups.same_type
get_group_for_client-add_mapping_example =
    get_group_for_client-add_mapping ascii net (λ range ip. true) tables (codes "client_id")
      (codes "tablet") (codes "10.0.0.9") 2 refl refl

abbrev ranged : Service
ranged = record service { in_range = λ range ip. true }

group_for-delete_group_example :
    let st = view (delete_group tables 2).0 in
    (get_group_for_client ranged.in_range st laptop.ip laptop.client_id ≡ failed)
    × (group_for (record ranged { store = some st }) laptop ≡ default_group)
unfolding delete_group safe_road.Base.text_eq safe_road.Strings.trim_space safe_road.Base.lookup
    safe_road.Groups.rows_of safe_road.Groups.same_type safe_road.Overrides.first_range
group_for-delete_group_example =
    group_for-delete_group ranged tables laptop 2 refl refl refl refl refl refl refl

abbrev seen : ℕ → LogRow
seen at = record {
  entry = record {
    result = lexical (codes "shop.vn");
    cache_hit = false;
    source = from_lexical;
    client = laptop;
  };
  analyzed_at = at;
}

abbrev log : Telemetry
log = record { queue = seen 3 ∷ []; rows = seen 1 ∷ seen 2 ∷ seen 2 ∷ []; answers = true }

abbrev steps : List TelemetryStep
steps = enqueue (seen 4) ∷ write_one ∷ enqueue (seen 5) ∷ []

drain-run_steps_example :
    let t' = drain (run_steps log steps) in
    (t'.rows ≡ log.rows ++ (log.queue ++ accepted log steps)) × (t'.queue ≡ [])
drain-run_steps_example = drain-run_steps log steps refl
