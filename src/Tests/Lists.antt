-- ===== src/Tests/Lists.antt =====
-- internal/risk and internal/store: a whitelist in a database, and overrides of two levels.
use safe_road.Base.{
  ℕ, ◌<◌, ◌≢◌, Bool, true, false, Option, some, none, List, [], ◌∷◌, ◌≡◌, refl, arith, Text, codes,
  text_eq, ◌==◌, if◌then◌else◌, inr, ◌||◌,
}
use safe_road.Strings.{has_suffix}
use safe_road.Bloom.{BloomFilter, new_bloom_filter, test, has_bit, set_bit}
use safe_road.Whitelist.{
  Db, Sizes, Whitelist, new_whitelist, lines, missing, load_from_db, load_from_file, parse_lines,
  is_allowed, done,
}
use safe_road.Whitelist.Agrees.{covered, HasBits, IsFresh, is_allowed-IsFresh, load_from_db-IsFresh}
use safe_road.Whitelist.Loads.{load_from_file-covers, load_from_file_missing}
use safe_road.Overrides.{
  Action, allow, block, Override, Store, get_effective_override, upsert_override,
  upsert_group_override, find_row,
}
use safe_road.Overrides.Search.{own}
use safe_road.Tests.{ascii}

abbrev pub small : Sizes
small = record { bit_count = λ n. 10; hash_count = λ n. 3 }

pub small-HasBits : HasBits small
small-HasBits n = omega arith

abbrev google : List Text
google = codes "google.com" ∷ codes "vtv.vn" ∷ []

abbrev pub open_db : Db
open_db = record { enabled = true; answers = true; writes = true; domains = google }

abbrev loaded : Whitelist
loaded = (load_from_db small (new_whitelist (some open_db))).0

loaded-IsFresh : IsFresh small loaded open_db
unfolding new_whitelist
loaded-IsFresh = load_from_db-IsFresh small (new_whitelist (some open_db)) open_db refl refl refl

is_allowed-IsFresh_example :
    is_allowed loaded (codes "mail.google.com") ≡ covered google (codes "mail.google.com")
is_allowed-IsFresh_example =
    is_allowed-IsFresh small loaded open_db (codes "mail.google.com") small-HasBits loaded-IsFresh

mail_covered : covered google (codes "mail.google.com") ≡ true
unfolding covered text_eq has_suffix
mail_covered = refl

mail_allowed : is_allowed loaded (codes "mail.google.com") ≡ true
unfolding is_allowed safe_road.Strings.suffixes safe_road.Strings.split load_from_db new_whitelist
    test safe_road.Bloom.add new_bloom_filter safe_road.Bloom.add_from set_bit
    safe_road.Bloom.bit_index safe_road.Bloom.hash safe_road.Bloom.test_from has_bit text_eq
mail_allowed = refl

abbrev pub ranked : List Text
ranked = codes "# rank,domain" ∷ codes "1,Google.com" ∷ codes "vtv.vn" ∷ codes "3,a b" ∷ []

pub ranked_domains : parse_lines ascii ranked ≡ google
unfolding parse_lines text_eq safe_road.Strings.trim_space safe_road.Strings.has_prefix
    safe_road.Domain.normalize_domain safe_road.Domain.to_lower safe_road.Strings.split
    safe_road.Domain.host_of_url safe_road.Strings.contains safe_road.Domain.check_runes
    safe_road.Strings.trim_suffix_rune safe_road.Domain.drop_port safe_road.Strings.count_rune
ranked_domains = refl

load_from_file-covers_example :
    is_allowed
      (load_from_file ascii small (new_whitelist (some open_db)) (codes "f") (lines ranked)).0
      (codes "vtv.vn")
    ≡ covered (parse_lines ascii ranked) (codes "vtv.vn")
unfolding new_whitelist
load_from_file-covers_example =
    load_from_file-covers ascii small (new_whitelist (some open_db)) b'f' [] ranked (codes "vtv.vn")
      small-HasBits (inr (refl, refl, refl))

load_from_file_missing_example :
    let result = load_from_file ascii small (new_whitelist (some open_db)) (codes "f") missing in
    (result.1 ≡ true) × (is_allowed result.0 (codes "google.com") ≡ false)
load_from_file_missing_example =
    load_from_file_missing ascii small open_db b'f' [] (codes "google.com") refl

abbrev shop_blocked : Override
shop_blocked = record { domain = codes "shop.vn"; action = block; reason = codes "fraud" }

abbrev admin_store : Store
admin_store = record {
  answers = true;
  groups = [];
  client_ids = [];
  ips = [];
  cidrs = [];
  local_overrides = (codes "shop.vn", shop_blocked) ∷ [];
  group_overrides = [];
}

shop_override :
    get_effective_override ascii admin_store 1 (codes "a.shop.vn") ≡ done (some shop_blocked)
unfolding get_effective_override safe_road.Overrides.search_overrides safe_road.Strings.suffixes
    safe_road.Strings.split safe_road.Strings.trim_space safe_road.Domain.to_lower
    safe_road.Base.lookup text_eq
shop_override = refl

shop_own : own admin_store 1 (codes "shop.vn") ≢ none
unfolding find_row safe_road.Base.lookup text_eq
shop_own e = cc
