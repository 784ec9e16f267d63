-- ===== src/Sync/Revised.antt =====
-- The revision of the feed that a synchronisation of internal/feed/sync.go leaves.
use safe_road.Base.{
  ◌∷◌, ℕ, suc, ◌||◌, Bool, true, false, Option, none, some, List, [], ◌≡◌, refl, sym, ap, ◌∙◌, inl,
  inr, Bool-cases, Text, text_eq, lookup, lookup-insert_self, leb, ◌==◌,
}
use safe_road.Strings.{trim_space}
use safe_road.Feed.{Parsing, ParseStats}
use safe_road.Sync.{
  Redis, SyncOptions, SyncReport, call_works, called, count_of, set_add, delete_set, move_set,
  rename_set, swap_feed, increment, get_int64, set_status, record_sync_success, write_domains,
  fail_sync, store_report, finish_sync, report_of, replace_feed, extend_feed, write_as, write_feed,
  with_key, sync, sync_source, revision_key, staging_key, or_value,
}
use safe_road.Sync.Sets.{write_domains-relates}
use safe_road.Sync.Replaced.{dry_report-none, some-none}

set_add-counters :
    (r : Redis) (t : Text) (ds : List Text) → (set_add r t ds).0.counters ≡ r.counters
unfolding set_add
set_add-counters r t [] = refl
set_add-counters r t (d ∷ ds) = elim (Bool-cases (call_works r)) [
  | inl e ↦ rw e refl
  | inr e ↦ rw e refl
]

delete_set-counters : (r : Redis) (t : Text) → (delete_set r t).0.counters ≡ r.counters
unfolding delete_set
delete_set-counters r t = elim (Bool-cases (call_works r)) [ inl e ↦ rw e refl | inr e ↦ rw e refl ]

move_set-counters :
    (r : Redis) (from to : Text) (o : Option (List Text))
    → (move_set r from to o).0.counters ≡ r.counters
move_set-counters r from to none = refl
move_set-counters r from to (some ds) = elim (Bool-cases (call_works r)) [
  | inl e ↦ rw e refl
  | inr e ↦ rw e refl
]

write_domains-counters :
    (r : Redis) (t : Text) (ds : List Text) (complete : Bool)
    → (write_domains r t ds complete).0.counters ≡ r.counters
write_domains-counters r t ds complete =
    write_domains-relates t (λ q q'. q'.counters ≡ q.counters) (λ q. refl) (λ q q' q'' a b. b ∙ a)
      (λ q bs. set_add-counters q t bs) r ds complete

swap_feed-counters :
    (r : Redis) (staging key : Text) (valid : ℕ)
    → (swap_feed r staging key valid).1 ≡ true
    → (swap_feed r staging key valid).0.counters ≡ r.counters
unfolding swap_feed rename_set
swap_feed-counters r staging key valid = elim (Bool-cases (valid == 0)) [
  | inl e ↦
      rw (e, swap_feed)
        (λ h. delete_set-counters (delete_set r key).0 staging ∙ delete_set-counters r key)
  | inr e ↦
      let m = move_set r staging key (lookup staging r.sets) in
      elim (Bool-cases m.1) [
        | inl f ↦
            rw (e, swap_feed, f) (λ h. move_set-counters r staging key (lookup staging r.sets))
        | inr f ↦ rw (e, swap_feed, f) (λ h. absurd cc)
      ]
]

-- What a success says of the revision.
abbrev pub Revised : SyncOptions → Redis → Redis × Option SyncReport → Type 0
Revised o r f =
    (report : SyncReport)
    → f.1 ≡ some report
    → (report.cache_invalidated
        ≡ (leb (or_value o.invalidation_min_writes 1) report.written || o.replace))
      × (report.cache_invalidated ≡ true
          → (lookup (revision_key o.key) f.0.counters ≡ some report.feed_revision)
            × (report.feed_revision ≡ suc (count_of (lookup (revision_key o.key) r.counters))))

store_report-success :
    (r : Redis) (o : SyncOptions) (now : ℕ) (report report' : SyncReport)
    → (store_report r o now report).1 ≡ some report'
    → (report' ≡ report) × ((store_report r o now report).0.counters ≡ r.counters)
unfolding store_report fail_sync record_sync_success set_status
store_report-success r o now report report' = elim (Bool-cases (call_works r)) [
  | inl e ↦ rw (e, store_report) (λ h. (cc, refl))
  | inr e ↦ rw (e, store_report) (λ h. absurd cc)
]

increment-success :
    (r : Redis) (key : Text) (n : ℕ)
    → (increment r key).1 ≡ some n
    → (lookup key (increment r key).0.counters ≡ some n)
      × (n ≡ suc (count_of (lookup key r.counters)))
unfolding increment
increment-success r key n = elim (Bool-cases (call_works r)) [
  | inl e ↦ rw (e, increment) (λ h. (lookup-insert_self key _ r.counters ∙ h, cc))
  | inr e ↦ rw (e, increment) (λ h. absurd cc)
]

invalidates :
    (o : SyncOptions) (stats : ParseStats) (w n : ℕ) (b : Bool) (report : SyncReport)
    → report ≡ report_of o stats w b n
    → leb (or_value o.invalidation_min_writes 1) w || o.replace ≡ b
    → report.cache_invalidated
      ≡ (leb (or_value o.invalidation_min_writes 1) report.written || o.replace)
invalidates o stats w n b report s c =
    ap (λ x. x.cache_invalidated) s
    ∙ sym c
    ∙ ap (λ x. leb (or_value o.invalidation_min_writes 1) x.written || o.replace) (sym s)

fail_sync-Revised : (o : SyncOptions) (r r' : Redis) (now : ℕ) → Revised o r (fail_sync r' o now)
unfolding fail_sync
fail_sync-Revised o r r' now report e = absurd cc

finish_sync-Revised :
    (r : Redis) (o : SyncOptions) (now : ℕ) (stats : ParseStats) (w : ℕ)
    → Revised o r (finish_sync r o now stats w)
unfolding finish_sync get_int64
finish_sync-Revised r o now stats w =
    elim (Bool-cases (leb (or_value o.invalidation_min_writes 1) w || o.replace)) [
      | inl e ↦
          rw (e, finish_sync)
            (go e (increment r (revision_key o.key)) (increment-success r (revision_key o.key)))
      | inr e ↦
          rw (e, finish_sync)
            (λ report h.
              let s = (store_report-success (called r) o now _ report h).0 in
              let same : report.cache_invalidated ≡ false = ap (λ x. x.cache_invalidated) s in
              (invalidates o stats w _ false report s e, λ i. absurd cc))
    ]
  where
    go :
        leb (or_value o.invalidation_min_writes 1) w || o.replace ≡ true
        → (f : Redis × Option ℕ)
        → ((n : ℕ)
            → f.1 ≡ some n
            → (lookup (revision_key o.key) f.0.counters ≡ some n)
              × (n ≡ suc (count_of (lookup (revision_key o.key) r.counters))))
        → Revised o r (elim f.1 as (λ x. Redis × Option SyncReport) [
          | none ↦ fail_sync f.0 o now
          | some n ↦ store_report f.0 o now (report_of o stats w true n)
        ])
    go e (r', none) raised = fail_sync-Revised o r r' now
    go e (r', some n) raised = λ report h.
        let s = store_report-success r' o now (report_of o stats w true n) report h in
        let revision : report.feed_revision ≡ n = ap (λ x. x.feed_revision) s.0 in
        (
          invalidates o stats w n true report s.0 e,
          λ i. (
            ap (λ counters. lookup (revision_key o.key) counters) s.1
                ∙ (raised n refl).0
                ∙ ap (λ m. some m) (sym revision),
            revision ∙ (raised n refl).1,
          ),
        )

Revised-counters :
    (o : SyncOptions) (r r' : Redis) (f : Redis × Option SyncReport)
    → r'.counters ≡ r.counters
    → Revised o r' f
    → Revised o r f
Revised-counters o r r' f same h report e =
    let (c, raised) = h report e in
    (
      c,
      λ i. (
        (raised i).0,
        (raised i).1 ∙ ap (λ counters. suc (count_of (lookup (revision_key o.key) counters))) same,
      ),
    )

replace_feed-Revised :
    (r : Redis) (o : SyncOptions) (stamp : Text) (now : ℕ) (p : Parsing) (written : Option ℕ)
    → Revised o r (replace_feed r o stamp now p written)
unfolding replace_feed
replace_feed-Revised r o stamp now p none = fail_sync-Revised o r _ now
replace_feed-Revised r o stamp now p (some w) =
    let f = swap_feed r (staging_key o.key stamp) o.key p.stats.valid in
    elim (Bool-cases f.1) [
      | inl e ↦
          rw (e, replace_feed)
            (Revised-counters o r f.0 (finish_sync f.0 o now p.stats w)
              (swap_feed-counters r (staging_key o.key stamp) o.key p.stats.valid e)
              (finish_sync-Revised f.0 o now p.stats w))
      | inr e ↦ rw (e, replace_feed) (fail_sync-Revised o r f.0 now)
    ]

extend_feed-Revised :
    (r : Redis) (o : SyncOptions) (now : ℕ) (p : Parsing) (written : Option ℕ)
    → Revised o r (extend_feed r o now p written)
unfolding extend_feed
extend_feed-Revised r o now p none = fail_sync-Revised o r r now
extend_feed-Revised r o now p (some w) = finish_sync-Revised r o now p.stats w

write_as-Revised :
    (b : Bool) (r : Redis) (o : SyncOptions) (stamp : Text) (now : ℕ) (p : Parsing)
    (complete : Bool)
    → Revised o r (write_as b r o stamp now p complete)
write_as-Revised true r o stamp now p complete =
    let f = write_domains r (staging_key o.key stamp) p.domains complete in
    Revised-counters o r f.0 (replace_feed f.0 o stamp now p f.1)
      (write_domains-counters r (staging_key o.key stamp) p.domains complete)
      (replace_feed-Revised f.0 o stamp now p f.1)
write_as-Revised false r o stamp now p complete =
    let f = write_domains r o.key p.domains complete in
    Revised-counters o r f.0 (extend_feed f.0 o now p f.1)
      (write_domains-counters r o.key p.domains complete) (extend_feed-Revised f.0 o now p f.1)

write_feed-Revised :
    (r : Redis) (o : SyncOptions) (stamp : Text) (now : ℕ) (p : Parsing) (complete : Bool)
    → Revised o r (write_feed r o stamp now p complete)
unfolding write_feed
write_feed-Revised r o stamp now p complete = write_as-Revised o.replace r o stamp now p complete

sync-Revised :
    (r : Redis) (o : SyncOptions) (stamp : Text) (now : ℕ) (opened : Option (Parsing × Bool))
    → o.dry_run ≡ false
    → Revised (with_key o) r (sync r o stamp now opened)
unfolding sync
sync-Revised r o stamp now opened real = elim (Bool-cases (text_eq (trim_space o.source) [])) [
  | inl e ↦ rw e (λ report h. absurd cc)
  | inr e ↦ rw e (elim (Bool-cases (o.dry_run || text_eq (trim_space o.redis_addr) [])) [
    | inl f ↦ rw f (λ report h. absurd (some-none report (sym h ∙ dry_report-none o opened real)))
    | inr f ↦ rw f (go opened)
  ])
]
  where
    go :
        (source : Option (Parsing × Bool))
        → Revised (with_key o) r (sync_source r (with_key o) stamp now source)
    go none = fail_sync-Revised (with_key o) r r now
    go (some (p, complete)) = write_feed-Revised r (with_key o) stamp now p complete

-- A sync that is no dry run, reports success, and replaced the feed or wrote at least the least number
-- of new domains (1 by default) has invalidated the cached results: the revision of the feed is one
-- more than before, stored and reported.
pub sync_revised :
    (r : Redis) (o : SyncOptions) (stamp : Text) (now : ℕ) (opened : Option (Parsing × Bool))
    (report : SyncReport)
    → o.dry_run ≡ false
    → (sync r o stamp now opened).1 ≡ some report
    → leb (or_value o.invalidation_min_writes 1) report.written || o.replace ≡ true
    → let key = revision_key (with_key o).key in
      (report.cache_invalidated ≡ true)
      × (lookup key (sync r o stamp now opened).0.counters ≡ some report.feed_revision)
      × (report.feed_revision ≡ suc (count_of (lookup key r.counters)))
sync_revised r o stamp now opened report real success wrote =
    let (c, raised) = sync-Revised r o stamp now opened real report success in
    let (stored, more) = raised (c ∙ wrote) in (c ∙ wrote, stored, more)
