-- ===== src/Sync/Summary.antt =====
-- The sources of the threat feed and the summary of their statuses, internal/feed/status.go. A status
-- is read from Redis, or the read fails; times count seconds, and 0 is a time that is missing.
pub mod Fresh
pub mod Synced
pub mod Sources
use safe_road.Base.{
  ℕ, ◌+◌, ◌-◌, Bool, true, false, not, ◌&&◌, ◌||◌, Option, none, some, List, [], ◌∷◌, ◌++◌, ltb,
  leb, ◌==◌, any, lookup, map, if◌then◌else◌, Text, text_eq, codes,
}
use safe_road.Strings.{trim_space, split_where, without_empty}
use safe_road.Domain.{Platform, to_lower}
use safe_road.Sync.{
  Redis, SourceState, ok_state, error_state, never_synced, SourceStatus, no_status, or_value,
  called, call_works, count_of, normalized_feed_key, revision_key, status_key,
}

-- What ParseSources keeps of the parts of a text, in their order.
unfoldable pub keep_sources : List Text → List Text → List Text
keep_sources seen [] = seen
keep_sources seen (part ∷ parts) =
    let s = trim_space part in
    keep_sources (if text_eq s [] || any (text_eq s) seen then seen else seen ++ s ∷ []) parts

abbrev pub is_separator : ℕ → Bool
is_separator c = c == b',' || c == 10 || c == 13

unfoldable pub parse_sources : Text → List Text
parse_sources raw = keep_sources [] (without_empty (split_where is_separator raw))

abbrev production_free_sources : List Text
production_free_sources =
    codes "https://urlhaus.abuse.ch/downloads/csv_recent/"
    ∷ codes "https://raw.githubusercontent.com/openphish/public_feed/refs/heads/main/feed.txt"
    ∷ []

abbrev preset_sources : Text → Option (List Text)
preset_sources preset =
    if text_eq preset []
    then some []
    else if text_eq preset (codes "production-free")
    then some production_free_sources
    else none

-- An error when the preset is unknown.
unfoldable pub resolve_sources : Platform → Text → Text → Option (List Text)
resolve_sources platform raw preset = elim (parse_sources raw) [
  | [] ↦ preset_sources (to_lower platform (trim_space preset))
  | s ∷ ss ↦ some (s ∷ ss)
]

-- laterTimestamp
abbrev later_timestamp : ℕ → ℕ → ℕ
later_timestamp candidate current =
    if not (candidate == 0) && (current == 0 || ltb current candidate) then candidate else current

-- `unavailable` is Redis off or not answering for the revision.
pub data SummaryState : Type 0 where
  disabled unavailable stale warning fine : SummaryState

pub record StatusSummary : Type 0 where
  pub state : SummaryState
  pub stale : Bool
  pub parser_drift : Bool
  pub revision : ℕ
  pub last_attempt_at : ℕ
  pub last_success_at : ℕ
  pub sources : List SourceStatus

-- What GetJSON leaves in a status: an error, nothing found, or what is stored.
abbrev pub read_state : Option (Option SourceStatus) → SourceStatus
read_state none = record no_status { status = error_state }
read_state (some none) = record no_status { status = never_synced }
read_state (some (some s)) = s

abbrev pub stale_at : ℕ → ℕ → SourceStatus → Bool
stale_at now after s =
    s.last_success_at == 0 || ltb (or_value after 129600) (now - s.last_success_at)

unfoldable pub apply_staleness : ℕ → ℕ → SourceStatus → SourceStatus
apply_staleness now after s = record s { stale = stale_at now after s }

abbrev is_error : SourceState → Bool
is_error ok_state = false
is_error error_state = true
is_error never_synced = false

abbrev pub warns : SourceStatus → Bool
warns s = is_error s.status || s.parser_drift

abbrev pub read_source : Redis → Text → ℕ → ℕ → Text → SourceStatus
read_source r key now after source =
    apply_staleness now after
      (read_state (if call_works r then some (lookup (status_key key source) r.statuses) else none))

abbrev pub add_source : SourceStatus → StatusSummary → StatusSummary
add_source s sum = record sum {
  stale = s.stale || sum.stale;
  parser_drift = s.parser_drift || sum.parser_drift;
  last_attempt_at = later_timestamp s.last_attempt_at sum.last_attempt_at;
  last_success_at = later_timestamp s.last_success_at sum.last_success_at;
  sources = sum.sources ++ s ∷ [];
}

-- The loop over the sources with `hasWarning`, and then the state.
unfoldable pub read_sources :
    Redis → Text → ℕ → ℕ → List Text → Bool → StatusSummary → StatusSummary
read_sources r key now after [] has_warning sum = record sum {
  state = if sum.stale then stale else if has_warning then warning else fine;
}
read_sources r key now after (source ∷ ss) has_warning sum =
    let s = read_source r key now after source in
    read_sources (called r) key now after ss (warns s || has_warning) (add_source s sum)

abbrev pub empty_summary : SummaryState → ℕ → StatusSummary
empty_summary state revision = record {
  state = state;
  stale = false;
  parser_drift = false;
  revision = revision;
  last_attempt_at = 0;
  last_success_at = 0;
  sources = [];
}

-- buildDefaultSourceStatuses, and the summary without Redis.
abbrev unavailable_summary : ℕ → ℕ → List Text → StatusSummary
unavailable_summary now after sources = record (empty_summary unavailable 0) {
  stale = true;
  sources =
      map (λ s. apply_staleness now after (record no_status { status = never_synced })) sources;
}

-- ReadStatusSummary; no Redis is one that is off.
unfoldable pub read_status_summary : Option Redis → Text → List Text → ℕ → ℕ → StatusSummary
read_status_summary redis key [] now after = empty_summary disabled 0
read_status_summary none key (s ∷ ss) now after = unavailable_summary now after (s ∷ ss)
read_status_summary (some r) key (s ∷ ss) now after =
    if call_works r
    then read_sources (called r) (normalized_feed_key key) now after (s ∷ ss) false (
        empty_summary unavailable
          (count_of (lookup (revision_key (normalized_feed_key key)) r.counters)))
    else unavailable_summary now after (s ∷ ss)
