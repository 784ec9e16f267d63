-- ===== src/Sync/Summary/Synced.antt =====
-- What a summary of internal/feed/status.go says of a source that internal/feed/sync.go has synced.
use safe_road.Base.{
  ℕ, ◌+◌, ◌<◌, ◌≤◌, Bool, true, false, not, ◌||◌, Option, none, some, [], ◌≡◌, sym, ap, ◌∙◌, arith,
  inl, inr, Bool-cases, Text, text_eq, lookup, lookup-insert_self, leb, if◌then◌else◌,
}
use safe_road.Strings.{trim_space}
use safe_road.Feed.{Parsing, ParseStats}
use safe_road.Sync.{
  Redis, SyncOptions, SyncReport, called, call_works, status_key, ok_status, set_status,
  record_sync_success, fail_sync, store_report, finish_sync, swap_feed, staging_key, replace_feed,
  extend_feed, write_as, write_feed, with_key, sync_source, sync, or_value, increment, get_int64,
  revision_key, report_of,
}
use safe_road.Sync.Replaced.{dry_report-none, some-none}
use safe_road.Sync.Summary.{read_state, read_source, apply_staleness}
use safe_road.Sync.Summary.Fresh.{is_healthy}

-- After a success the status of the source is stored.
abbrev pub Stores : SyncOptions → ℕ → Redis × Option SyncReport → Type 0
Stores o now f =
    (report : SyncReport)
    → f.1 ≡ some report
    → lookup (status_key o.key o.source) f.0.statuses ≡ some (ok_status now report)

fail_sync-Stores : (r : Redis) (o : SyncOptions) (now : ℕ) → Stores o now (fail_sync r o now)
unfolding fail_sync
fail_sync-Stores r o now report h = absurd cc

some-inj : (a b : SyncReport) → some a ≡ some b → a ≡ b
some-inj a b h = cc

store_report-Stores :
    (r : Redis) (o : SyncOptions) (now : ℕ) (report : SyncReport)
    → Stores o now (store_report r o now report)
unfolding store_report record_sync_success set_status fail_sync
store_report-Stores r o now report = elim (Bool-cases (call_works r)) [
  | inl e ↦
      rw (e, store_report)
        (λ report' h.
          lookup-insert_self (status_key o.key o.source) (ok_status now report) r.statuses
          ∙ ap (λ x. some (ok_status now x)) (some-inj report report' h))
  | inr e ↦ rw (e, store_report) (λ report' h. absurd cc)
]

finish_sync-Stores :
    (r : Redis) (o : SyncOptions) (now : ℕ) (stats : ParseStats) (w : ℕ)
    → Stores o now (finish_sync r o now stats w)
unfolding finish_sync get_int64
finish_sync-Stores r o now stats w =
    elim (Bool-cases (leb (or_value o.invalidation_min_writes 1) w || o.replace)) [
      | inl e ↦ rw (e, finish_sync) (go (increment r (revision_key o.key)))
      | inr e ↦ rw (e, finish_sync) (store_report-Stores (called r) o now _)
    ]
  where
    go :
        (f : Redis × Option ℕ)
        → Stores o now (elim f.1 as (λ x. Redis × Option SyncReport) [
          | none ↦ fail_sync f.0 o now
          | some n ↦ store_report f.0 o now (report_of o stats w true n)
        ])
    go (r', none) = fail_sync-Stores r' o now
    go (r', some n) = store_report-Stores r' o now (report_of o stats w true n)

replace_feed-Stores :
    (r : Redis) (o : SyncOptions) (stamp : Text) (now : ℕ) (p : Parsing) (written : Option ℕ)
    → Stores o now (replace_feed r o stamp now p written)
unfolding replace_feed
replace_feed-Stores r o stamp now p none = fail_sync-Stores _ o now
replace_feed-Stores r o stamp now p (some w) =
    let f = swap_feed r (staging_key o.key stamp) o.key p.stats.valid in
    elim (Bool-cases f.1) [
      | inl e ↦ rw (e, replace_feed) (finish_sync-Stores f.0 o now p.stats w)
      | inr e ↦ rw (e, replace_feed) (fail_sync-Stores f.0 o now)
    ]

extend_feed-Stores :
    (r : Redis) (o : SyncOptions) (now : ℕ) (p : Parsing) (written : Option ℕ)
    → Stores o now (extend_feed r o now p written)
unfolding extend_feed
extend_feed-Stores r o now p none = fail_sync-Stores r o now
extend_feed-Stores r o now p (some w) = finish_sync-Stores r o now p.stats w

write_as-Stores :
    (b : Bool) (r : Redis) (o : SyncOptions) (stamp : Text) (now : ℕ) (p : Parsing)
    (complete : Bool)
    → Stores o now (write_as b r o stamp now p complete)
write_as-Stores true r o stamp now p complete = replace_feed-Stores _ o stamp now p _
write_as-Stores false r o stamp now p complete = extend_feed-Stores _ o now p _

sync-Stores :
    (r : Redis) (o : SyncOptions) (stamp : Text) (now : ℕ) (opened : Option (Parsing × Bool))
    → o.dry_run ≡ false
    → Stores (with_key o) now (sync r o stamp now opened)
unfolding sync write_feed
sync-Stores r o stamp now opened real = elim (Bool-cases (text_eq (trim_space o.source) [])) [
  | inl e ↦ rw e (λ report h. absurd cc)
  | inr e ↦ rw e (elim (Bool-cases (o.dry_run || text_eq (trim_space o.redis_addr) [])) [
    | inl f ↦ rw f (λ report h. absurd (some-none report (sym h ∙ dry_report-none o opened real)))
    | inr f ↦ rw f (go opened)
  ])
]
  where
    go :
        (source : Option (Parsing × Bool))
        → Stores (with_key o) now (sync_source r (with_key o) stamp now source)
    go none = fail_sync-Stores r (with_key o) now
    go (some (p, complete)) = write_as-Stores o.replace r (with_key o) stamp now p complete

ok_status-healthy :
    (now later after : ℕ) (report : SyncReport)
    → 0 < now
    → later ≤ now + or_value after 129600
    → is_healthy later after (ok_status now report) ≡ not report.parser_drift
ok_status-healthy now later after report h k = ground (arith, h, k)

-- A source whose sync, no dry run, has reported success at a time after 0 is healthy at every time up
-- to the limit of staleness later, read with Redis as the sync left it, unless the parser drifted.
pub read_source-sync :
    (r : Redis) (o : SyncOptions) (stamp : Text) (now later after : ℕ)
    (opened : Option (Parsing × Bool)) (report : SyncReport)
    → o.dry_run ≡ false
    → (sync r o stamp now opened).1 ≡ some report
    → call_works (sync r o stamp now opened).0 ≡ true
    → 0 < now
    → later ≤ now + or_value after 129600
    → is_healthy later after
        (read_source (sync r o stamp now opened).0 (with_key o).key later after o.source)
      ≡ not report.parser_drift
unfolding apply_staleness
read_source-sync r o stamp now later after opened report real success answers h k =
    let f = sync r o stamp now opened in
    let stored = lookup (status_key (with_key o).key o.source) f.0.statuses in
    ap
      (λ b.
        is_healthy later after
          (apply_staleness later after (read_state (if b then some stored else none))))
      answers
    ∙ ap (λ x. is_healthy later after (apply_staleness later after (read_state (some x))))
        (sync-Stores r o stamp now opened real report success)
    ∙ ok_status-healthy now later after report h k
