-- ===== src/Sync/Summary/Fresh.antt =====
-- When the summary of internal/feed/status.go calls the threat feed fine.
use safe_road.Base.{
  ℕ, suc, ◌+◌, ◌-◌, Bool, true, false, not, ◌&&◌, ◌||◌, Option, none, some, List, [], ◌∷◌, ◌++◌,
  ◌≡◌, ◌↔◌, refl, sym, ap, ◌∙◌, arith, Text, all, length, leb, ◌==◌, lookup, if◌then◌else◌,
}
use safe_road.Sync.{
  Redis, SourceStatus, called, call_works, next_call, later_calls, or_value, normalized_feed_key,
  revision_key, status_key, count_of,
}
use safe_road.Sync.Summary.{
  StatusSummary, SummaryState, disabled, unavailable, stale, warning, fine, empty_summary, is_error,
  stale_at, warns, read_state, read_source, apply_staleness, add_source, read_sources,
  read_status_summary,
}

-- The last success of a source is no older than the limit, its last sync did not fail, and the parser
-- did not drift.
abbrev pub is_healthy : ℕ → ℕ → SourceStatus → Bool
is_healthy now after s =
    not (s.last_success_at == 0)
    && leb (now - s.last_success_at) (or_value after 129600)
    && not (is_error s.status)
    && not s.parser_drift

abbrev pub healthy_status : ℕ → ℕ → Option SourceStatus → Bool
healthy_status now after none = false
healthy_status now after (some s) = is_healthy now after s

-- What is stored of the source is healthy.
abbrev pub is_healthy_source : Redis → Text → ℕ → ℕ → Text → Bool
is_healthy_source r key now after source =
    healthy_status now after (lookup (status_key key source) r.statuses)

-- No call fails.
abbrev pub AllWork : Redis → Type 0
AllWork r = all (λ b. b) r.calls ≡ true

all_next :
    (bs : List Bool)
    → all (λ b. b) bs ≡ true
    → (next_call bs ≡ true) × (all (λ b. b) (later_calls bs) ≡ true)
all_next [] h = (refl, refl)
all_next (b ∷ bs) h = ground (arith, h)

abbrev is_fine : SummaryState → Bool
is_fine fine = true
is_fine stale = false
is_fine warning = false
is_fine unavailable = false
is_fine disabled = false

is_fine-lem : (s : SummaryState) → (s ≡ fine) ↔ (is_fine s ≡ true)
is_fine-lem fine = (λ h. refl, λ h. refl)
is_fine-lem stale = (λ h. absurd cc, λ h. absurd cc)
is_fine-lem warning = (λ h. absurd cc, λ h. absurd cc)
is_fine-lem unavailable = (λ h. absurd cc, λ h. absurd cc)
is_fine-lem disabled = (λ h. absurd cc, λ h. absurd cc)

is_fine-if :
    (b c : Bool) → is_fine (if b then stale else if c then warning else fine) ≡ not (b || c)
is_fine-if b c = ground arith

healthy-warns :
    (now after : ℕ) (s : SourceStatus)
    → not (stale_at now after s) && not (warns s) ≡ is_healthy now after s
healthy-warns now after s = ground arith

healthy-read_state :
    (now after : ℕ) (o : Option SourceStatus)
    → let s = apply_staleness now after (read_state (some o)) in
      not s.stale && not (warns s) ≡ healthy_status now after o
unfolding apply_staleness
healthy-read_state now after none = refl
healthy-read_state now after (some s) = healthy-warns now after s

healthy-read_source :
    (r : Redis) (key : Text) (now after : ℕ) (source : Text)
    → call_works r ≡ true
    → let s = read_source r key now after source in
      not s.stale && not (warns s) ≡ is_healthy_source r key now after source
healthy-read_source r key now after source e =
    ap
      (λ b.
        let s =
          apply_staleness now after
            (read_state (if b then some (lookup (status_key key source) r.statuses) else none)) in
        not s.stale && not (warns s))
      e
    ∙ healthy-read_state now after (lookup (status_key key source) r.statuses)

both :
    (a b c d e f : Bool)
    → not a && not b ≡ e
    → not ((a || c) || (b || d)) && f ≡ not (c || d) && (e && f)
both a b c d e f h = ground (arith, h)

read_sources-fine :
    (r : Redis) (key : Text) (now after : ℕ) (ss : List Text) (w : Bool) (sum : StatusSummary)
    → AllWork r
    → is_fine (read_sources r key now after ss w sum).state
      ≡ not (sum.stale || w) && all (is_healthy_source r key now after) ss
unfolding read_sources
read_sources-fine r key now after [] w sum h = ground (arith, is_fine-if sum.stale w)
read_sources-fine r key now after (s ∷ ss) w sum h =
    let (works, rest) = all_next r.calls h in
    let state = read_source r key now after s in
    read_sources-fine (called r) key now after ss (warns state || w) (add_source state sum) rest
    ∙ both state.stale (warns state) sum.stale w (is_healthy_source r key now after s)
        (all (is_healthy_source r key now after) ss) (healthy-read_source r key now after s works)

length-snoc : (xs : List SourceStatus) (x : SourceStatus) → length (xs ++ x ∷ []) ≡ suc (length xs)
length-snoc [] x = refl
length-snoc (y ∷ xs) x = omega (arith, length-snoc xs x)

read_sources-length :
    (r : Redis) (key : Text) (now after : ℕ) (ss : List Text) (w : Bool) (sum : StatusSummary)
    → length (read_sources r key now after ss w sum).sources ≡ length sum.sources + length ss
unfolding read_sources
read_sources-length r key now after [] w sum = omega arith
read_sources-length r key now after (s ∷ ss) w sum =
    let state = read_source r key now after s in
    omega (
      arith,
      length-snoc sum.sources state,
      read_sources-length (called r) key now after ss (warns state || w) (add_source state sum),
    )

-- When there is a source and no call of Redis fails, the summary lists a status for each source, and
-- it is fine exactly when what Redis holds of every source is healthy: its last success is no older than
-- the limit (36 hours by default), its last sync did not fail, and the parser did not drift.
pub read_status_summary_fine :
    (r : Redis) (key s : Text) (ss : List Text) (now after : ℕ)
    → AllWork r
    → let f = read_status_summary (some r) key (s ∷ ss) now after in
      (length f.sources ≡ suc (length ss))
      × ((f.state ≡ fine)
          ↔ (all (is_healthy_source r (normalized_feed_key key) now after) (s ∷ ss) ≡ true))
unfolding read_status_summary
read_status_summary_fine r key s ss now after h =
    let (works, rest) = all_next r.calls h in
    let start =
      empty_summary unavailable
        (count_of (lookup (revision_key (normalized_feed_key key)) r.counters)) in
    let k = normalized_feed_key key in
    let e = read_sources-fine (called r) k now after (s ∷ ss) false start rest in
    let iff = is_fine-lem (read_sources (called r) k now after (s ∷ ss) false start).state in
    rw works (
      omega (arith, read_sources-length (called r) k now after (s ∷ ss) false start),
      (λ f. sym e ∙ iff.0 f, λ f. iff.1 (e ∙ f)),
    )
