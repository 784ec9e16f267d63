-- ===== src/Sync/Task/Counted.antt =====
-- What a cycle of internal/agent/feedsync.go leaves in the feed, and what it counts.
use safe_road.Base.{
  ℕ, suc, ◌+◌, Bool, true, false, not, Option, none, some, List, [], ◌∷◌, ◌≡◌, refl, ap, ◌∙◌, inl,
  inr, Bool-cases, List-cases, Text, text_eq, any, filter,
}
use safe_road.Strings.{trim_space}
use safe_road.Sync.{Redis, SyncReport, members, with_key, sync}
use safe_road.Sync.Added.{Keeps, sync-Keeps}
use safe_road.Sync.Task.{
  FeedSyncConfig, Turn, Cycle, source_options, after_sync, sync_one, sync_sources, close_cycle,
  new_cycle, run_feedsync,
}

-- The key of the feed of a task.
abbrev pub key_of : FeedSyncConfig → Text
key_of t = (with_key (source_options t [])).key

after_sync-redis :
    (s : Text) (c : Cycle) (f : Redis × Option SyncReport) → (after_sync s c f).redis ≡ f.0
after_sync-redis s c (r, none) = refl
after_sync-redis s c (r, some report) = elim (Bool-cases report.parser_drift) [
  | inl e ↦ rw e refl
  | inr e ↦ rw e refl
]

sync_one-Keeps :
    (t : FeedSyncConfig) (turn : Turn) (s : Text) (c : Cycle) (d : Text)
    → Keeps (key_of t) d c.redis (sync_one t turn s c).redis
unfolding sync_one
sync_one-Keeps t turn s c d h =
    let o = source_options t s in
    ap (λ r. any (text_eq d) (members (key_of t) r.sets))
      (after_sync-redis s c (sync c.redis o turn.stamp turn.now turn.opened))
    ∙ sync-Keeps c.redis o turn.stamp turn.now turn.opened refl refl d h

sync_sources-Keeps :
    (t : FeedSyncConfig) (turns : ℕ → Turn) (n : ℕ) (ss : List Text) (c : Cycle) (d : Text)
    → Keeps (key_of t) d c.redis (sync_sources t turns n ss c).0.redis
unfolding sync_sources
sync_sources-Keeps t turns n [] c d = λ h. h
sync_sources-Keeps t turns n (s ∷ ss) c d = elim (Bool-cases (text_eq (trim_space s) [])) [
  | inl e ↦ rw (e, sync_sources) (sync_sources-Keeps t turns (suc n) ss c d)
  | inr e ↦ elim (Bool-cases (turns n).done) [
    | inl f ↦ rw (e, sync_sources, f) (λ h. h)
    | inr f ↦
        rw (e, sync_sources, f)
          (λ h.
            sync_sources-Keeps t turns (suc n) ss (sync_one t (turns n) (trim_space s) c) d
              (sync_one-Keeps t (turns n) (trim_space s) c d h))
  ]
]

close_cycle-redis : (f : Cycle × Bool) → (close_cycle f).0.redis ≡ f.0.redis
close_cycle-redis (c, true) = refl
close_cycle-redis (c, false) = refl

feedsync-Keeps :
    (t : FeedSyncConfig) (turns : ℕ → Turn) (recording : Bool) (r : Redis) (d : Text)
    → Keeps (key_of t) d r (run_feedsync t turns recording r).0.redis
unfolding run_feedsync
feedsync-Keeps t turns recording r d = elim (List-cases t.sources) [
  | inl e ↦ rw (e, run_feedsync) (λ h. h)
  | inr (s, ss, e) ↦
      rw (e, run_feedsync)
        (elim (Bool-cases (text_eq (trim_space t.redis_addr) [])) [
          | inl f ↦ rw f (λ h. h)
          | inr f ↦ rw f (λ h.
              ap (λ q. any (text_eq d) (members (key_of t) q.sets))
                (close_cycle-redis (sync_sources t turns 0 (s ∷ ss) (new_cycle r recording)))
              ∙ sync_sources-Keeps t turns 0 (s ∷ ss) (new_cycle r recording) d h)
        ])
]

-- A cycle of the feed task keeps every domain of the feed, whichever sources do not open or break off,
-- whichever calls of Redis fail, and wherever the cycle is cancelled.
pub run_feedsync_keeps :
    (t : FeedSyncConfig) (turns : ℕ → Turn) (recording : Bool) (r : Redis) (d : Text)
    → any (text_eq d) (members (key_of t) r.sets) ≡ true
    → any (text_eq d) (members (key_of t) (run_feedsync t turns recording r).0.redis.sets) ≡ true
run_feedsync_keeps t turns recording r d = feedsync-Keeps t turns recording r d

-- The sources that a cycle tries.
abbrev pub named : List Text → List Text
named ss = filter (λ s. not (text_eq (trim_space s) [])) ss

tried : Cycle → ℕ
tried c = c.sources_ok + c.sources_failed
