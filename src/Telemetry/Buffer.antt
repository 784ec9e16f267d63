-- ===== src/Telemetry/Buffer.antt =====
-- The channel between `RecordAnalysis` and `telemetryWriter` of internal/store/sqlite.go.
use safe_road.Base.{
  ◌≤◌, ◌≡◌, refl, arith, true, List, [], ◌∷◌, ◌++◌, ltb, if◌then◌else◌, length, length-append, inl,
  inr, Bool-cases, ltb→lt, ap, ap₂, ◌∙◌, sym,
}
use mathlib.Core.List.{append-nil, append_assoc}
use safe_road.Telemetry.{
  LogRow, Telemetry, telemetry_buffer_size, record_analysis, write_entry, write_next, take_next,
  write_all, drain,
}

pub data TelemetryStep : Type 0 where
  enqueue : LogRow → TelemetryStep
  write_one : TelemetryStep

unfoldable pub run_step : Telemetry → TelemetryStep → Telemetry
run_step t (enqueue r) = record_analysis t r
run_step t write_one = write_next t

unfoldable pub run_steps : Telemetry → List TelemetryStep → Telemetry
unfolding run_step
run_steps t [] = t
run_steps t (s ∷ ss) = run_steps (run_step t s) ss

-- The entries that find room in the channel, in the order in which they come.
unfoldable pub accepted : Telemetry → List TelemetryStep → List LogRow
unfolding run_step
accepted t [] = []
accepted t (enqueue r ∷ ss) =
    let rest = accepted (record_analysis t r) ss in
    if ltb (length t.queue) telemetry_buffer_size then r ∷ rest else rest
accepted t (write_one ∷ ss) = accepted (write_next t) ss

answers-write_entry : (t : Telemetry) (r : LogRow) → (write_entry t r).answers ≡ t.answers
unfolding write_entry
answers-write_entry t r = ground arith

rows-write_entry :
    (t : Telemetry) (r : LogRow) → t.answers ≡ true → (write_entry t r).rows ≡ t.rows ++ r ∷ []
unfolding write_entry
rows-write_entry t r a = rw (a, write_entry) refl

queue-write_entry : (t : Telemetry) (r : LogRow) → (write_entry t r).queue ≡ t.queue
unfolding write_entry
queue-write_entry t r = ground arith

write_all-rows :
    (rs : List LogRow) (t : Telemetry)
    → t.answers ≡ true
    → ((write_all rs t).rows ≡ t.rows ++ rs) × ((write_all rs t).queue ≡ t.queue)
unfolding write_all
write_all-rows [] t a = (sym (append-nil t.rows), refl)
write_all-rows (r ∷ rs) t a =
    let (ih, same) = write_all-rows rs (write_entry t r) (answers-write_entry t r ∙ a) in
    (
      ih ∙ ap (λ l. l ++ rs) (rows-write_entry t r a) ∙ append_assoc t.rows (r ∷ []) rs,
      same ∙ queue-write_entry t r,
    )

drained :
    (t : Telemetry)
    → t.answers ≡ true
    → ((drain t).rows ≡ t.rows ++ t.queue) × ((drain t).queue ≡ [])
unfolding drain
drained t a = write_all-rows t.queue (record t { queue = [] }) a

take_next_lem :
    (t : Telemetry) (queue : List LogRow)
    → t.answers ≡ true
    → t.queue ≡ queue
    → let t' = take_next t queue in (t'.answers ≡ true) × (t'.rows ++ t'.queue ≡ t.rows ++ queue)
take_next_lem t [] a q = (a, ap (λ l. t.rows ++ l) q)
take_next_lem t (r ∷ rest) a q =
    let u : Telemetry = record t { queue = rest } in
    (
      answers-write_entry u r ∙ a,
      ap₂ ◌++◌ (rows-write_entry u r a) (queue-write_entry u r) ∙ append_assoc t.rows (r ∷ []) rest,
    )

record_analysis_lem :
    (t : Telemetry) (r : LogRow) (rest : List LogRow)
    → let t' = record_analysis t r in
      (t'.answers ≡ t.answers)
      × (t'.rows ≡ t.rows)
      × (t'.queue ++ rest
          ≡ t.queue ++ (if ltb (length t.queue) telemetry_buffer_size then r ∷ rest else rest))
unfolding record_analysis
record_analysis_lem t r rest = elim (Bool-cases (ltb (length t.queue) telemetry_buffer_size)) [
  | inl h ↦ rw (h, record_analysis) (refl, refl, append_assoc t.queue (r ∷ []) rest)
  | inr h ↦ rw (h, record_analysis) (refl, refl, refl)
]

-- However entries are recorded and written while SQLite answers, after `Close` the table holds what
-- it held before, then what waited, then the entries that found room in the channel, each once and
-- in the order in which they came, and nothing waits.
pub drain-run_steps :
    (t : Telemetry) (ss : List TelemetryStep)
    → t.answers ≡ true
    → let t' = drain (run_steps t ss) in
      (t'.rows ≡ t.rows ++ (t.queue ++ accepted t ss)) × (t'.queue ≡ [])
unfolding run_steps accepted run_step write_next
drain-run_steps t [] a =
    let (rows, queue) = drained t a in
    (rows ∙ ap (λ l. t.rows ++ l) (sym (append-nil t.queue)), queue)
drain-run_steps t (enqueue r ∷ ss) a =
    let t' = record_analysis t r in
    let (same, rows, queue) = record_analysis_lem t r (accepted t' ss) in
    let (ih, empty) = drain-run_steps t' ss (same ∙ a) in (ih ∙ ap₂ ◌++◌ rows queue, empty)
drain-run_steps t (write_one ∷ ss) a =
    let t' = write_next t in
    let rest = accepted t' ss in
    let (on, same) = take_next_lem t t.queue a refl in
    let (ih, empty) = drain-run_steps t' ss on in
    (
      ih
          ∙ sym (append_assoc t'.rows t'.queue rest)
          ∙ ap (λ l. l ++ rest) same
          ∙ append_assoc t.rows t.queue rest,
      empty,
    )

-- The channel never holds more than its thousand entries.
pub length-run_steps :
    (t : Telemetry) (ss : List TelemetryStep)
    → length t.queue ≤ telemetry_buffer_size
    → length (run_steps t ss).queue ≤ telemetry_buffer_size
unfolding run_steps run_step write_next record_analysis
length-run_steps t [] h = h
length-run_steps t (enqueue r ∷ ss) h =
    length-run_steps (record_analysis t r) ss
      (elim (Bool-cases (ltb (length t.queue) telemetry_buffer_size)) [
        | inl k ↦ rw k (omega (arith, length-append t.queue (r ∷ []), ltb→lt _ _ k))
        | inr k ↦ rw k h
      ])
length-run_steps t (write_one ∷ ss) h =
    length-run_steps (write_next t) ss (shorter t t.queue refl h)
  where
    shorter :
        (t : Telemetry) (queue : List LogRow)
        → t.queue ≡ queue
        → length t.queue ≤ telemetry_buffer_size
        → length (take_next t queue).queue ≤ telemetry_buffer_size
    shorter t [] q h = h
    shorter t (r ∷ rest) q h =
        omega (arith, h, ap length q, ap length (queue-write_entry (record t { queue = rest }) r))
