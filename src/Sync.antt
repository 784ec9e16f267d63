-- ===== src/Sync.antt =====
-- The synchronisation of a threat feed with Redis, internal/feed/sync.go, with the statuses of
-- sources of internal/feed/status.go. The parser's result stands with whether it reached the end of
-- the source; the texts of errors are left out, times count seconds, and a ratio counts hundredths.
pub mod Sets
pub mod Replaced
pub mod Added
pub mod Revised
pub mod Task
pub mod Summary
use safe_road.Base.{
  ℕ, zero, suc, ◌+◌, ◌-◌, ◌*◌, Bool, true, false, not, ◌&&◌, ◌||◌, Option, none, some, List, [],
  ◌∷◌, ◌++◌, ltb, leb, ◌==◌, if◌then◌else◌, Text, text_eq, codes, Assoc, lookup, insert, delete,
  any, length,
}
use safe_road.Strings.{trim_space}
use safe_road.Feed.{ParseStats, Parsing}

pub data SourceState : Type 0 where
  ok_state error_state never_synced : SourceState

-- A time of 0 is one that is missing. The fields that repeat a report's name, key and flags are left
-- out.
pub record SourceStatus : Type 0 where
  pub status : SourceState
  pub last_attempt_at : ℕ
  pub last_success_at : ℕ
  pub last_failure_at : ℕ
  pub stats : ParseStats
  pub written : ℕ
  pub parser_drift : Bool
  pub feed_revision : ℕ
  pub stale : Bool

-- `calls` says of the next calls whether they succeed; those after them do.
pub record Redis : Type 0 where
  pub sets : Assoc (List Text)
  pub counters : Assoc ℕ
  pub statuses : Assoc SourceStatus
  pub calls : List Bool

abbrev next_call : List Bool → Bool
next_call [] = true
next_call (b ∷ bs) = b

abbrev later_calls : List Bool → List Bool
later_calls [] = []
later_calls (b ∷ bs) = bs

abbrev pub called : Redis → Redis
called r = record r { calls = later_calls r.calls }

abbrev pub call_works : Redis → Bool
call_works r = next_call r.calls

abbrev pub members_of : Option (List Text) → List Text
members_of none = []
members_of (some ds) = ds

abbrev pub members : Text → Assoc (List Text) → List Text
members key sets = members_of (lookup key sets)

-- SADD: the set with the new members, and how many they are.
unfoldable pub add_members : List Text → List Text → List Text
add_members set [] = set
add_members set (d ∷ ds) = add_members (if any (text_eq d) set then set else set ++ d ∷ []) ds

abbrev pub grown : List Text → List Text → ℕ
grown before after = length after - length before

unfoldable pub set_add : Redis → Text → List Text → Redis × Option ℕ
set_add r key [] = (r, some 0)
set_add r key (d ∷ ds) =
    let before = members key r.sets in
    let after = add_members before (d ∷ ds) in
    if call_works r
    then (record (called r) { sets = insert key after r.sets }, some (grown before after))
    else (called r, none)

unfoldable pub delete_set : Redis → Text → Redis × Bool
delete_set r key =
    if call_works r
    then (record (called r) { sets = delete key r.sets }, true)
    else (called r, false)

-- RENAME of a key that does not exist is an error.
abbrev pub move_set : Redis → Text → Text → Option (List Text) → Redis × Bool
move_set r from to none = (called r, false)
move_set r from to (some ds) =
    if call_works r
    then (record (called r) { sets = insert to ds (delete from r.sets) }, true)
    else (called r, false)

unfoldable pub rename_set : Redis → Text → Text → Redis × Bool
rename_set r from to = move_set r from to (lookup from r.sets)

abbrev pub count_of : Option ℕ → ℕ
count_of none = 0
count_of (some n) = n

unfoldable pub increment : Redis → Text → Redis × Option ℕ
increment r key =
    let n = suc (count_of (lookup key r.counters)) in
    if call_works r
    then (record (called r) { counters = insert key n r.counters }, some n)
    else (called r, none)

-- A key that is missing or does not answer counts as 0.
unfoldable pub get_int64 : Redis → Text → Redis × ℕ
get_int64 r key = (called r, if call_works r then count_of (lookup key r.counters) else 0)

unfoldable pub normalized_feed_key : Text → Text
normalized_feed_key key =
    let k = trim_space key in if text_eq k [] then codes "safe-road:threat:feed" else k

unfoldable pub revision_key : Text → Text
revision_key key = normalized_feed_key key ++ codes ":revision"

-- The key of a source's status; the source stands for its digest.
unfoldable pub status_key : Text → Text → Text
status_key key source = normalized_feed_key key ++ codes ":status:" ++ trim_space source

pub record SyncOptions : Type 0 where
  pub source : Text
  pub redis_addr : Text
  pub key : Text
  pub dry_run : Bool
  pub replace : Bool
  pub drift_ratio : ℕ
  pub drift_min_invalid : ℕ
  pub invalidation_min_writes : ℕ

abbrev pub or_value : ℕ → ℕ → ℕ
or_value n d = if n == 0 then d else n

-- parserDriftStatus
unfoldable pub parser_drift_status : ParseStats → ℕ → ℕ → Bool
parser_drift_status stats ratio min_invalid =
    not (ltb stats.invalid (or_value min_invalid 25))
    && not (stats.valid + stats.invalid == 0)
    && leb (or_value ratio 20 * (stats.valid + stats.invalid)) (100 * stats.invalid)

abbrev pub no_status : SourceStatus
no_status = record {
  status = ok_state;
  last_attempt_at = 0;
  last_success_at = 0;
  last_failure_at = 0;
  stats = record { valid = 0; invalid = 0; duplicates = 0; skipped = 0 };
  written = 0;
  parser_drift = false;
  feed_revision = 0;
  stale = false;
}

-- The status that is stored, if the call answers.
abbrev pub known_status : Redis → Text → SourceStatus
known_status r key =
    if call_works r
    then (elim (lookup key r.statuses) [ none ↦ no_status | some s ↦ s ])
    else no_status

unfoldable pub set_status : Redis → Text → SourceStatus → Redis × Bool
set_status r key s =
    if call_works r
    then (record (called r) { statuses = insert key s r.statuses }, true)
    else (called r, false)

unfoldable pub record_sync_failure : Redis → SyncOptions → ℕ → Redis
record_sync_failure r o now =
    let key = status_key o.key o.source in
    let s = record (known_status r key) {
      status = error_state;
      last_attempt_at = now;
      last_failure_at = now;
      stale = true;
    } in
    (set_status (called r) key s).0

pub record SyncReport : Type 0 where
  pub stats : ParseStats
  pub written : ℕ
  pub parser_drift : Bool
  pub cache_invalidated : Bool
  pub feed_revision : ℕ

abbrev pub ok_status : ℕ → SyncReport → SourceStatus
ok_status now report = record {
  status = ok_state;
  last_attempt_at = now;
  last_success_at = now;
  last_failure_at = 0;
  stats = report.stats;
  written = report.written;
  parser_drift = report.parser_drift;
  feed_revision = report.feed_revision;
  stale = false;
}

unfoldable pub record_sync_success : Redis → SyncOptions → ℕ → SyncReport → Redis × Bool
record_sync_success r o now report = set_status r (status_key o.key o.source) (ok_status now report)

abbrev pub redis_batch_size : ℕ
redis_batch_size = 1000

-- `flush`: what is written, or an error.
unfoldable pub flush : Redis → Text → List Text → ℕ → Redis × Option ℕ
flush r target [] written = (r, some written)
flush r target (d ∷ ds) written =
    let (r', n) = set_add r target (d ∷ ds) in
    (r', elim n [ none ↦ none | some n ↦ some (written + n) ])

-- The domains that the parser hands on, each batch written when it is full: what is left of the batch
-- and what is written, or an error.
unfoldable pub send_domains :
    Redis → Text → List Text → ℕ → List Text → Redis × Option (List Text × ℕ)
send_domains r target batch written [] = (r, some (batch, written))
send_domains r target batch written (d ∷ ds) =
    elim (leb redis_batch_size (length (batch ++ d ∷ []))) [
      | false ↦ send_domains r target (batch ++ d ∷ []) written ds
      | true ↦
          let (r', n) = flush r target (batch ++ d ∷ []) written in
          elim n [ none ↦ (r', none) | some w ↦ send_domains r' target [] w ds ]
    ]

-- The last flush, which an error of the parser or of a batch leaves out.
abbrev pub flush_rest : Bool → Redis → Text → Option (List Text × ℕ) → Redis × Option ℕ
flush_rest complete r target none = (r, none)
flush_rest false r target (some (batch, written)) = (r, none)
flush_rest true r target (some (batch, written)) = flush r target batch written

unfoldable pub write_domains : Redis → Text → List Text → Bool → Redis × Option ℕ
write_domains r target ds complete =
    let (r', rest) = send_domains r target [] 0 ds in flush_rest complete r' target rest

unfoldable pub staging_key : Text → Text → Text
staging_key key stamp = key ++ codes ":staging:" ++ stamp

-- The staged set takes the place of the feed; an empty feed is deleted.
unfoldable pub swap_feed : Redis → Text → Text → ℕ → Redis × Bool
swap_feed r staging key valid = elim (valid == 0) [
  | false ↦
      let (r', renamed) = rename_set r staging key in
      if renamed then (r', true) else ((delete_set r' staging).0, false)
  | true ↦ let (r', deleted) = delete_set r key in ((delete_set r' staging).0, deleted)
]

unfoldable pub fail_sync : Redis → SyncOptions → ℕ → Redis × Option SyncReport
fail_sync r o now = (record_sync_failure r o now, none)

abbrev pub drifts : SyncOptions → ParseStats → Bool
drifts o stats = parser_drift_status stats o.drift_ratio o.drift_min_invalid

abbrev pub report_of : SyncOptions → ParseStats → ℕ → Bool → ℕ → SyncReport
report_of o stats written invalidated revision = record {
  stats = stats;
  written = written;
  parser_drift = drifts o stats;
  cache_invalidated = invalidated;
  feed_revision = revision;
}

unfoldable pub store_report : Redis → SyncOptions → ℕ → SyncReport → Redis × Option SyncReport
store_report r o now report =
    let (r', stored) = record_sync_success r o now report in
    if stored then (r', some report) else fail_sync r' o now

-- The report, the revision and the status.
unfoldable pub finish_sync : Redis → SyncOptions → ℕ → ParseStats → ℕ → Redis × Option SyncReport
finish_sync r o now stats written =
    elim (leb (or_value o.invalidation_min_writes 1) written || o.replace) [
      | true ↦
          let (r', revision) = increment r (revision_key o.key) in
          elim revision [
            | none ↦ fail_sync r' o now
            | some n ↦ store_report r' o now (report_of o stats written true n)
          ]
      | false ↦
          let (r', n) = get_int64 r (revision_key o.key) in
          store_report r' o now (report_of o stats written false n)
    ]

unfoldable pub replace_feed :
    Redis → SyncOptions → Text → ℕ → Parsing → Option ℕ → Redis × Option SyncReport
replace_feed r o stamp now p none = fail_sync (delete_set r (staging_key o.key stamp)).0 o now
replace_feed r o stamp now p (some w) =
    let (r', swapped) = swap_feed r (staging_key o.key stamp) o.key p.stats.valid in
    if swapped then finish_sync r' o now p.stats w else fail_sync r' o now

unfoldable pub extend_feed :
    Redis → SyncOptions → ℕ → Parsing → Option ℕ → Redis × Option SyncReport
extend_feed r o now p none = fail_sync r o now
extend_feed r o now p (some w) = finish_sync r o now p.stats w

abbrev pub write_as :
    Bool → Redis → SyncOptions → Text → ℕ → Parsing → Bool → Redis × Option SyncReport
write_as true r o stamp now p complete =
    let (r', written) = write_domains r (staging_key o.key stamp) p.domains complete in
    replace_feed r' o stamp now p written
write_as false r o stamp now p complete =
    let (r', written) = write_domains r o.key p.domains complete in extend_feed r' o now p written

-- The part of `Sync` that writes; `complete` is whether the parser reached the end of the source.
unfoldable pub write_feed :
    Redis → SyncOptions → Text → ℕ → Parsing → Bool → Redis × Option SyncReport
write_feed r o stamp now p complete = write_as o.replace r o stamp now p complete

abbrev pub with_key : SyncOptions → SyncOptions
with_key o = record o {
  key = if text_eq (trim_space o.key) [] then codes "safe-road:threat:feed" else o.key;
}

abbrev pub sync_source :
    Redis → SyncOptions → Text → ℕ → Option (Parsing × Bool) → Redis × Option SyncReport
sync_source r o stamp now none = fail_sync r o now
sync_source r o stamp now (some (p, complete)) = write_feed r o stamp now p complete

abbrev pub dry_report : SyncOptions → Option (Parsing × Bool) → Option SyncReport
dry_report o none = none
dry_report o (some (p, complete)) =
    if o.dry_run && complete then some (report_of o p.stats 0 false 0) else none

-- `Sync`; the source is what opens and is parsed, if it opens.
unfoldable pub sync :
    Redis → SyncOptions → Text → ℕ → Option (Parsing × Bool) → Redis × Option SyncReport
sync r o stamp now opened =
    if text_eq (trim_space o.source) []
    then (r, none)
    else if o.dry_run || text_eq (trim_space o.redis_addr) []
    then (r, dry_report o opened)
    else sync_source r (with_key o) stamp now opened
