-- ===== src/Sync/Task.antt =====
-- The task of internal/agent/feedsync.go, which adds every source of the threat feed to it. The events
-- that it records have no details but the source or the counts.
pub mod Counted
use safe_road.Base.{
  ℕ, suc, ◌+◌, Bool, true, false, ◌&&◌, Option, none, some, List, [], ◌∷◌, ◌++◌, ltb, ◌==◌,
  if◌then◌else◌, Text, text_eq, codes,
}
use safe_road.Strings.{trim_space}
use safe_road.Feed.{Parsing}
use safe_road.Sync.{Redis, SyncOptions, SyncReport, sync}

pub record FeedSyncConfig : Type 0 where
  pub sources : List Text
  pub redis_addr : Text
  pub feed_key : Text
  pub drift_ratio : ℕ
  pub drift_min_invalid : ℕ
  pub invalidation_min_writes : ℕ

unfoldable pub new_feed_sync_task : FeedSyncConfig → FeedSyncConfig
new_feed_sync_task c = record c {
  feed_key = if text_eq c.feed_key [] then codes "safe-road:threat:feed" else c.feed_key;
}

pub data SyncEvent : Type 0 where
  feed_error feed_synced feed_parser_drift : Text → SyncEvent
  feedsync_completed : ℕ → ℕ → ℕ → SyncEvent

-- What a turn of the loop meets: whether the context is done, the time, and what opens.
pub record Turn : Type 0 where
  pub done : Bool
  pub stamp : Text
  pub now : ℕ
  pub opened : Option (Parsing × Bool)

-- `recording` is whether the store is enabled.
pub record Cycle : Type 0 where
  pub redis : Redis
  pub recording : Bool
  pub events : List SyncEvent
  pub sources_ok : ℕ
  pub sources_failed : ℕ
  pub total_written : ℕ

abbrev pub record_event : SyncEvent → Cycle → Cycle
record_event e c = record c { events = if c.recording then c.events ++ e ∷ [] else c.events }

abbrev pub source_options : FeedSyncConfig → Text → SyncOptions
source_options t source = record {
  source = source;
  redis_addr = t.redis_addr;
  key = t.feed_key;
  dry_run = false;
  replace = false;
  drift_ratio = t.drift_ratio;
  drift_min_invalid = t.drift_min_invalid;
  invalidation_min_writes = t.invalidation_min_writes;
}

abbrev pub after_sync : Text → Cycle → Redis × Option SyncReport → Cycle
after_sync source c (r, none) =
    record_event (feed_error source) (record c { redis = r; sources_failed = suc c.sources_failed })
after_sync source c (r, some report) =
    let synced = record_event (feed_synced source) (record c {
      redis = r;
      sources_ok = suc c.sources_ok;
      total_written = c.total_written + report.written;
    }) in
    if report.parser_drift then record_event (feed_parser_drift source) synced else synced

unfoldable pub sync_one : FeedSyncConfig → Turn → Text → Cycle → Cycle
sync_one t turn source c =
    after_sync source c (sync c.redis (source_options t source) turn.stamp turn.now turn.opened)

-- The loop over the sources, and whether it came to its end.
unfoldable pub sync_sources : FeedSyncConfig → (ℕ → Turn) → ℕ → List Text → Cycle → Cycle × Bool
sync_sources t turns n [] c = (c, true)
sync_sources t turns n (s ∷ ss) c = elim (text_eq (trim_space s) []) [
  | true ↦ sync_sources t turns (suc n) ss c
  | false ↦ elim (turns n).done [
    | true ↦ (c, false)
    | false ↦ sync_sources t turns (suc n) ss (sync_one t (turns n) (trim_space s) c)
  ]
]

pub data CycleError : Type 0 where
  cycle_cancelled : CycleError
  all_sources_failed : ℕ → CycleError

abbrev pub close_cycle : Cycle × Bool → Cycle × Option CycleError
close_cycle (c, false) = (c, some cycle_cancelled)
close_cycle (c, true) = (
  record_event (feedsync_completed c.sources_ok c.sources_failed c.total_written) c,
  if ltb 0 c.sources_failed && c.sources_ok == 0
      then some (all_sources_failed c.sources_failed)
      else none,
)

abbrev new_cycle : Redis → Bool → Cycle
new_cycle r recording = record {
  redis = r;
  recording = recording;
  events = [];
  sources_ok = 0;
  sources_failed = 0;
  total_written = 0;
}

-- FeedSyncTask.Run
unfoldable pub run_feedsync : FeedSyncConfig → (ℕ → Turn) → Bool → Redis → Cycle × Option CycleError
run_feedsync t turns recording r = elim t.sources [
  | [] ↦ (new_cycle r recording, none)
  | s ∷ ss ↦
      if text_eq (trim_space t.redis_addr) []
      then (new_cycle r recording, none)
      else close_cycle (sync_sources t turns 0 (s ∷ ss) (new_cycle r recording))
]
