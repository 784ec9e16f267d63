-- ===== src/Tests/Summaries.antt =====
-- internal/feed/status.go: sources and the statuses that a sync leaves.
use safe_road.Base.{
  ℕ, suc, ◌+◌, ◌≡◌, ◌↔◌, refl, arith, Bool, true, false, not, none, some, List, [], ◌∷◌, Text,
  codes, all, length,
}
use safe_road.Sync.{normalized_feed_key, sync, with_key, Redis, call_works}
use safe_road.Sync.Summary.{
  parse_sources, resolve_sources, read_status_summary, read_source, fine, SummaryState, stale,
}
use safe_road.Sync.Summary.Fresh.{is_healthy, is_healthy_source, read_status_summary_fine}
use safe_road.Sync.Summary.Synced.{read_source-sync}
use safe_road.Tests.Syncs.{options, redis, two_domains, report, replaced}

two_sources : parse_sources (codes "a, b,,a\n") ≡ codes "a" ∷ codes "b" ∷ []
unfolding parse_sources safe_road.Sync.Summary.keep_sources safe_road.Strings.without_empty
    safe_road.Strings.split_where safe_road.Base.text_eq safe_road.Strings.trim_space
two_sources = refl

read_status_summary_fine_example :
    let f = read_status_summary (some (redis [])) (codes "feed") (codes "a" ∷ []) 100 0 in
    (length f.sources ≡ 1)
    × ((f.state ≡ fine) ↔ (
        all
          (is_healthy_source (redis []) (normalized_feed_key (codes "feed")) 100 0)
          (codes "a" ∷ [])
        ≡ true))
read_status_summary_fine_example =
    read_status_summary_fine (redis []) (codes "feed") (codes "a") [] 100 0 refl

abbrev synced : Redis
synced = (sync (redis []) (options true) (codes "1") 60 (some (two_domains, true))).0

synced_works : call_works synced ≡ true
unfolding sync safe_road.Base.text_eq safe_road.Strings.trim_space safe_road.Sync.write_feed
    safe_road.Sync.replace_feed safe_road.Sync.write_domains safe_road.Sync.send_domains
    safe_road.Sync.flush safe_road.Sync.set_add safe_road.Sync.swap_feed safe_road.Sync.rename_set
    safe_road.Base.lookup safe_road.Base.insert safe_road.Sync.staging_key
    safe_road.Sync.finish_sync safe_road.Sync.add_members safe_road.Sync.increment
    safe_road.Sync.fail_sync safe_road.Sync.record_sync_failure safe_road.Base.delete
    safe_road.Sync.set_status safe_road.Sync.store_report safe_road.Sync.record_sync_success
    safe_road.Sync.extend_feed safe_road.Sync.parser_drift_status
synced_works = refl

read_source-sync_example :
    is_healthy 100 0 (
      read_source
        (sync (redis []) (options true) (codes "1") 60 (some (two_domains, true))).0
        (with_key (options true)).key
        100
        0
        (options true).source)
    ≡ not report.parser_drift
read_source-sync_example =
    read_source-sync (redis []) (options true) (codes "1") 60 100 0 (some (two_domains, true))
      report refl replaced synced_works (omega arith) (omega arith)

-- A source that was never synced makes the summary stale.
never : (read_status_summary (some (redis [])) (codes "feed") (codes "a" ∷ []) 100 0).state ≡ stale
unfolding read_status_summary safe_road.Sync.Summary.read_sources
    safe_road.Sync.Summary.apply_staleness safe_road.Base.lookup
never = refl
