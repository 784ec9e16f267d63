-- ===== src/Telemetry.antt =====
-- The telemetry of internal/store/sqlite.go: the buffered writer, the retention of the log and the
-- queries over it. Times are seconds; rows stand in the order of their keys.
pub mod Buffer
pub mod Queries
use safe_road.Base.{
  ℕ, zero, suc, ◌+◌, ◌-◌, ◌*◌, Bool, true, false, not, ◌&&◌, ◌||◌, Option, none, some, List, [],
  ◌∷◌, ◌++◌, map, ltb, leb, ◌==◌, if◌then◌else◌, Text, text_eq, Assoc, any, filter, take, length,
}
use safe_road.Verdict.{Verdict, safe, suspicious, malicious, is_malicious, is_suspicious}
use safe_road.Service.Policy.{TelemetryEntry}

pub record LogRow : Type 0 where
  pub entry : TelemetryEntry
  pub analyzed_at : ℕ

-- `queue` is the channel, `rows` the table; an insert that fails is logged and lost.
pub record Telemetry : Type 0 where
  pub queue : List LogRow
  pub rows : List LogRow
  pub answers : Bool

abbrev pub telemetry_buffer_size : ℕ
telemetry_buffer_size = 1000

-- What does not fit is dropped.
unfoldable pub record_analysis : Telemetry → LogRow → Telemetry
record_analysis t r =
    if ltb (length t.queue) telemetry_buffer_size then record t { queue = t.queue ++ r ∷ [] } else t

unfoldable pub write_entry : Telemetry → LogRow → Telemetry
write_entry t r = if t.answers then record t { rows = t.rows ++ r ∷ [] } else t

abbrev pub take_next : Telemetry → List LogRow → Telemetry
take_next t [] = t
take_next t (r ∷ rest) = write_entry (record t { queue = rest }) r

-- One round of `telemetryWriter` that receives an entry.
unfoldable pub write_next : Telemetry → Telemetry
unfolding write_entry
write_next t = take_next t t.queue

unfoldable pub write_all : List LogRow → Telemetry → Telemetry
unfolding write_entry
write_all [] t = t
write_all (r ∷ rs) t = write_all rs (write_entry t r)

-- `Close`: the writer empties the channel before it exits.
unfoldable pub drain : Telemetry → Telemetry
unfolding write_all
drain t = write_all t.queue (record t { queue = [] })

abbrev pub day : ℕ
day = 86_400

unfoldable pub cleanup : ℕ → Telemetry → ℕ → Telemetry
cleanup retention_days t now =
    if t.answers
    then record t {
      rows = filter (λ r. not (ltb r.analyzed_at (now - retention_days * day))) t.rows;
    }
    else t

abbrev pub drop_rows : ℕ → List LogRow → List LogRow
drop_rows zero rs = rs
drop_rows (suc n) [] = []
drop_rows (suc n) (r ∷ rs) = drop_rows n rs

unfoldable pub newest_first : List LogRow → List LogRow → List LogRow
newest_first [] out = out
newest_first (r ∷ rs) out = newest_first rs (r ∷ out)

abbrev pub or_default : ℕ → ℕ → ℕ
or_default n d = if n == 0 then d else n

-- A limit that is not positive is 50; `none` is an error.
unfoldable pub query_recent : Telemetry → ℕ → ℕ → Option (List LogRow)
unfolding newest_first
query_recent t limit offset =
    if t.answers
    then some (take (or_default limit 50) (drop_rows offset (newest_first t.rows [])))
    else none

pub record Stats : Type 0 where
  pub total : ℕ
  pub safe_count : ℕ
  pub suspicious_count : ℕ
  pub malicious_count : ℕ
  pub cache_hits : ℕ

abbrev pub is_since : ℕ → LogRow → Bool
is_since since r = leb since r.analyzed_at

unfoldable pub count_if : (LogRow → Bool) → List LogRow → ℕ
count_if p [] = 0
count_if p (r ∷ rs) = (if p r then 1 else 0) + count_if p rs

abbrev pub is_safe : Verdict → Bool
is_safe safe = true
is_safe v = false

unfoldable pub stats_of : List LogRow → Stats
unfolding count_if
stats_of rs = record {
  total = count_if (λ r. true) rs;
  safe_count = count_if (λ r. is_safe r.entry.result.verdict) rs;
  suspicious_count = count_if (λ r. is_suspicious r.entry.result.verdict) rs;
  malicious_count = count_if (λ r. is_malicious r.entry.result.verdict) rs;
  cache_hits = count_if (λ r. r.entry.cache_hit) rs;
}

unfoldable pub query_stats : Telemetry → ℕ → Option Stats
unfolding stats_of
query_stats t since = if t.answers then some (stats_of (filter (is_since since) t.rows)) else none

-- `GROUP BY domain` with `COUNT(*)`
abbrev pub bump_row : Text → Text × ℕ → Text × ℕ
bump_row d (k, n) = if text_eq k d then (k, suc n) else (k, n)

abbrev pub has_key : Text → Assoc ℕ → Bool
has_key d counts = any (λ row. text_eq row.0 d) counts

abbrev pub bump : Text → Assoc ℕ → Assoc ℕ
bump d counts = if has_key d counts then map (bump_row d) counts else (d, 1) ∷ counts

unfoldable pub domain_counts : List LogRow → Assoc ℕ
domain_counts [] = []
domain_counts (r ∷ rs) = bump r.entry.result.domain (domain_counts rs)

-- `ORDER BY cnt DESC`
unfoldable pub insert_count : Text × ℕ → Assoc ℕ → Assoc ℕ
insert_count row [] = row ∷ []
insert_count row (r ∷ rows) =
    let rest = insert_count row rows in if ltb r.1 row.1 then row ∷ r ∷ rows else r ∷ rest

unfoldable pub by_count : Assoc ℕ → Assoc ℕ
unfolding insert_count
by_count [] = []
by_count (row ∷ rows) = insert_count row (by_count rows)

unfoldable pub query_suspicious_domains : Telemetry → ℕ → ℕ → ℕ → Option (Assoc ℕ)
unfolding domain_counts by_count
query_suspicious_domains t since min_occurrences limit =
    let counts =
      domain_counts
        (filter (λ r. is_suspicious r.entry.result.verdict && is_since since r) t.rows) in
    if t.answers
    then some (
        take (or_default limit 50)
          (by_count (filter (λ row. leb (or_default min_occurrences 3) row.1) counts)))
    else none

abbrev is_allowed_or_suspicious : Verdict → Bool
is_allowed_or_suspicious v = is_safe v || is_suspicious v

unfoldable pub query_recent_allowed_or_suspicious_domains : Telemetry → ℕ → ℕ → Option (Assoc ℕ)
unfolding domain_counts by_count
query_recent_allowed_or_suspicious_domains t since limit =
    let counts =
      domain_counts (
        filter (λ r. is_allowed_or_suspicious r.entry.result.verdict && is_since since r) t.rows) in
    if t.answers then some (take (or_default limit 50) (by_count counts)) else none
