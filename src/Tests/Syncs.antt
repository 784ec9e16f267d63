-- ===== src/Tests/Syncs.antt =====
-- internal/feed/sync.go and internal/agent/feedsync.go: a feed of one domain and a source of two.
use safe_road.Base.{
  ℕ, Bool, true, false, Option, none, some, List, [], ◌∷◌, ◌≡◌, refl, Text, codes, lookup, text_eq,
  any, suc, ◌+◌, ◌==◌, if◌then◌else◌,
}
use safe_road.Feed.{Parsing}
use safe_road.Feed.Tidy.{IsTidy}
use safe_road.Sync.{
  Redis, SyncOptions, SyncReport, members, add_members, revision_key, count_of, staging_key,
  with_key, sync,
}
use safe_road.Sync.Replaced.{Replaces, sync_replaced}
use safe_road.Sync.Task.{FeedSyncConfig, Turn, run_feedsync}
use safe_road.Sync.Task.Counted.{key_of, run_feedsync_keeps}
use safe_road.Strings.{trim_space}
use safe_road.Sync.Revised.{sync_revised}

abbrev pub options : Bool → SyncOptions
options replace = record {
  source = codes "hosts";
  redis_addr = codes "redis";
  key = codes "feed";
  dry_run = false;
  replace = replace;
  drift_ratio = 0;
  drift_min_invalid = 0;
  invalidation_min_writes = 0;
}

abbrev pub redis : List Bool → Redis
redis calls = record {
  sets = (codes "feed", codes "old.vn" ∷ []) ∷ [];
  counters = [];
  statuses = [];
  calls = calls;
}

abbrev pub two_domains : Parsing
two_domains = record {
  stats = record { valid = 2; invalid = 1; duplicates = 0; skipped = 0 };
  seen = codes "b.vn" ∷ codes "a.vn" ∷ [];
  domains = codes "a.vn" ∷ codes "b.vn" ∷ [];
}

two_domains-IsTidy : IsTidy two_domains
unfolding safe_road.Base.text_eq safe_road.Strings.contains_rune
two_domains-IsTidy = record {
  distinct = (refl, refl, (refl, refl, tt));
  in_order = refl;
  counted = refl;
}

not_staged : lookup (staging_key (with_key (options true)).key (codes "1")) (redis []).sets ≡ none
unfolding lookup staging_key safe_road.Strings.trim_space safe_road.Base.text_eq
not_staged = refl

-- The call of RENAME fails.
abbrev no_rename : List Bool
no_rename = true ∷ false ∷ []

sync_replaced_example :
    Replaces
      (with_key (options true)).key
      (redis no_rename)
      two_domains
      true
      (sync (redis no_rename) (options true) (codes "1") 60 (some (two_domains, true)))
sync_replaced_example =
    sync_replaced (redis no_rename) (options true) (codes "1") 60 two_domains true refl refl
      not_staged two_domains-IsTidy

abbrev pub report : SyncReport
report = record {
  stats = two_domains.stats;
  written = 2;
  parser_drift = false;
  cache_invalidated = true;
  feed_revision = 1;
}

pub replaced :
    (sync (redis []) (options true) (codes "1") 60 (some (two_domains, true))).1 ≡ some report
unfolding sync safe_road.Base.text_eq safe_road.Strings.trim_space safe_road.Sync.write_feed
    safe_road.Sync.replace_feed safe_road.Sync.write_domains safe_road.Sync.send_domains
    safe_road.Sync.flush safe_road.Sync.set_add safe_road.Sync.swap_feed safe_road.Sync.rename_set
    lookup safe_road.Base.insert staging_key safe_road.Sync.finish_sync safe_road.Sync.add_members
    safe_road.Sync.increment safe_road.Sync.fail_sync safe_road.Sync.record_sync_failure
    safe_road.Base.delete safe_road.Sync.set_status safe_road.Sync.store_report
    safe_road.Sync.record_sync_success safe_road.Sync.extend_feed safe_road.Sync.parser_drift_status
replaced = refl

sync_revised_example :
    let key = revision_key (with_key (options true)).key in
    (report.cache_invalidated ≡ true)
    × (lookup key
          (sync (redis []) (options true) (codes "1") 60 (some (two_domains, true))).0.counters
        ≡ some report.feed_revision)
    × (report.feed_revision ≡ suc (count_of (lookup key (redis []).counters)))
sync_revised_example =
    sync_revised (redis []) (options true) (codes "1") 60 (some (two_domains, true)) report refl
      replaced refl

-- When INCR fails after the swap, the sync fails with the new feed in place and the old revision.
increment_fails :
    let f =
      sync
        (redis (true ∷ true ∷ false ∷ []))
        (options true)
        (codes "1")
        60
        (some (two_domains, true)) in
    (f.1 ≡ none) × (lookup (codes "feed") f.0.sets ≡ some two_domains.domains) × (f.0.counters ≡ [])
unfolding sync safe_road.Base.text_eq safe_road.Strings.trim_space safe_road.Sync.write_feed
    safe_road.Sync.replace_feed safe_road.Sync.write_domains safe_road.Sync.send_domains
    safe_road.Sync.flush safe_road.Sync.set_add safe_road.Sync.swap_feed safe_road.Sync.rename_set
    lookup safe_road.Base.insert staging_key safe_road.Sync.finish_sync safe_road.Sync.add_members
    safe_road.Sync.increment safe_road.Sync.fail_sync safe_road.Sync.record_sync_failure
    safe_road.Base.delete safe_road.Sync.set_status
increment_fails = (refl, refl, refl)

-- When the source breaks off before a batch is full, the sync fails and the feed is left.
broken_off :
    let f = sync (redis []) (options false) (codes "1") 60 (some (two_domains, false)) in
    (f.1 ≡ none)
    × (lookup (codes "feed") f.0.sets ≡ some (codes "old.vn" ∷ []))
    × (f.0.counters ≡ [])
unfolding sync safe_road.Base.text_eq safe_road.Strings.trim_space safe_road.Sync.write_feed
    safe_road.Sync.extend_feed safe_road.Sync.fail_sync lookup safe_road.Sync.record_sync_failure
    safe_road.Sync.set_status safe_road.Sync.write_domains safe_road.Sync.send_domains
    safe_road.Sync.flush safe_road.Sync.set_add safe_road.Base.insert safe_road.Sync.add_members
broken_off = (refl, refl, refl)

abbrev config : FeedSyncConfig
config = record {
  sources = codes "a" ∷ codes " " ∷ codes "b" ∷ [];
  redis_addr = codes "redis";
  feed_key = codes "feed";
  drift_ratio = 0;
  drift_min_invalid = 0;
  invalidation_min_writes = 0;
}

-- The first source opens, the others do not.
abbrev turns : ℕ → Turn
turns n = record {
  done = false;
  stamp = codes "1";
  now = 60 + n;
  opened = if n == 0 then some (two_domains, true) else none;
}

present : any (text_eq (codes "old.vn")) (members (key_of config) (redis no_rename).sets) ≡ true
unfolding lookup text_eq trim_space
present = refl

run_feedsync_keeps_example :
    any
      (text_eq (codes "old.vn"))
      (members (key_of config) (run_feedsync config turns true (redis no_rename)).0.redis.sets)
    ≡ true
run_feedsync_keeps_example =
    run_feedsync_keeps config turns true (redis no_rename) (codes "old.vn") present
