-- ===== src/Sync/Added.antt =====
-- What an additive synchronisation of internal/feed/sync.go keeps of the feed.
use mathlib.Core.Path.{subst}
use safe_road.Base.{
  ◌∷◌, ℕ, ◌||◌, Bool, true, false, Option, none, some, List, [], ◌≡◌, refl, sym, ap, ◌∙◌, inl, inr,
  Bool-cases, Text, text_eq, any,
}
use safe_road.Strings.{trim_space}
use safe_road.Feed.{Parsing}
use safe_road.Sync.{
  Redis, SyncOptions, SyncReport, members, call_works, add_members, set_add, write_domains,
  fail_sync, extend_feed, write_as, write_feed, with_key, sync,
}
use safe_road.Sync.Sets.{
  add_members-keeps, write_domains-relates, write_domains-members, fail_sync-sets, finish_sync-sets,
  members-insert,
}
use safe_road.Sync.Replaced.{some-none, dry_report-none}

abbrev pub Keeps : Text → Text → Redis → Redis → Type 0
Keeps t d r r' =
    any (text_eq d) (members t r.sets) ≡ true → any (text_eq d) (members t r'.sets) ≡ true

set_add-Keeps : (r : Redis) (t d : Text) (ds : List Text) → Keeps t d r (set_add r t ds).0
unfolding set_add
set_add-Keeps r t d [] = λ h. h
set_add-Keeps r t d (b ∷ ds) = elim (Bool-cases (call_works r)) [
  | inl e ↦ rw e (λ h.
      ap (λ s. any (text_eq d) s)
        (members-insert t (add_members (members t r.sets) (b ∷ ds)) r.sets)
      ∙ add_members-keeps d (members t r.sets) (b ∷ ds) h)
  | inr e ↦ rw e (λ h. h)
]

write_domains-Keeps :
    (r : Redis) (t d : Text) (ds : List Text) (complete : Bool)
    → Keeps t d r (write_domains r t ds complete).0
write_domains-Keeps r t d ds complete =
    write_domains-relates t (Keeps t d) (λ q h. h) (λ q q' q'' a b h. b (a h))
      (λ q bs. set_add-Keeps q t d bs) r ds complete

extend_feed-sets :
    (r : Redis) (o : SyncOptions) (now : ℕ) (p : Parsing) (written : Option ℕ)
    → (extend_feed r o now p written).0.sets ≡ r.sets
unfolding extend_feed
extend_feed-sets r o now p none = fail_sync-sets r o now
extend_feed-sets r o now p (some w) = finish_sync-sets r o now p.stats w

extend_feed-some :
    (r : Redis) (o : SyncOptions) (now : ℕ) (p : Parsing) (written : Option ℕ) (report : SyncReport)
    → (extend_feed r o now p written).1 ≡ some report
    → (w : ℕ) × (written ≡ some w)
unfolding extend_feed fail_sync
extend_feed-some r o now p none report h = absurd cc
extend_feed-some r o now p (some w) report h = (w, refl)

-- Every domain of the feed is kept; after a success the source was read to its end, and its domains
-- are what was added.
abbrev pub Adds : Text → Redis → Parsing → Bool → Redis × Option SyncReport → Type 0
Adds key r p complete f =
    ((d : Text) → Keeps key d r f.0)
    × ((report : SyncReport)
        → f.1 ≡ some report
        → (complete ≡ true) × (members key f.0.sets ≡ add_members (members key r.sets) p.domains))

write_as-Adds :
    (r : Redis) (o : SyncOptions) (stamp : Text) (now : ℕ) (p : Parsing) (complete : Bool)
    → Adds o.key r p complete (write_as false r o stamp now p complete)
write_as-Adds r o stamp now p complete =
    let f = write_domains r o.key p.domains complete in
    let same = ap (λ sets. members o.key sets) (extend_feed-sets f.0 o now p f.1) in
    (
      λ d h. ap (λ s. any (text_eq d) s) same ∙ write_domains-Keeps r o.key d p.domains complete h,
      λ report h.
          let (w, e) = extend_feed-some f.0 o now p f.1 report h in
          let c = write_domains-members r o.key p.domains complete w e in (c.0, same ∙ c.1),
    )

pub sync-Adds :
    (r : Redis) (o : SyncOptions) (stamp : Text) (now : ℕ) (p : Parsing) (complete : Bool)
    → o.dry_run ≡ false
    → o.replace ≡ false
    → Adds (with_key o).key r p complete (sync r o stamp now (some (p, complete)))
unfolding sync write_feed
sync-Adds r o stamp now p complete real adds =
    elim (Bool-cases (text_eq (trim_space o.source) [])) [
      | inl e ↦ rw e (λ d h. h, λ report h. absurd cc)
      | inr e ↦ rw e (elim (Bool-cases (o.dry_run || text_eq (trim_space o.redis_addr) [])) [
        | inl f ↦ rw f (
          λ d h. h,
          λ report h.
              absurd (some-none report (sym h ∙ dry_report-none o (some (p, complete)) real)),
        )
        | inr f ↦ rw f (
            subst
              (λ b.
                Adds (with_key o).key r p complete (write_as b r (with_key o) stamp now p complete))
              (sym adds) (write_as-Adds r (with_key o) stamp now p complete))
      ])
    ]

-- The same of domains alone, also of a source that does not open.
pub sync-Keeps :
    (r : Redis) (o : SyncOptions) (stamp : Text) (now : ℕ) (opened : Option (Parsing × Bool))
    → o.dry_run ≡ false
    → o.replace ≡ false
    → (d : Text) → Keeps (with_key o).key d r (sync r o stamp now opened).0
unfolding sync
sync-Keeps r o stamp now (some (p, complete)) real adds d =
    (sync-Adds r o stamp now p complete real adds).0 d
sync-Keeps r o stamp now none real adds d = elim (Bool-cases (text_eq (trim_space o.source) [])) [
  | inl e ↦ rw e (λ h. h)
  | inr e ↦ rw e (elim (Bool-cases (o.dry_run || text_eq (trim_space o.redis_addr) [])) [
    | inl f ↦ rw f (λ h. h)
    | inr f ↦ rw f (λ h.
        ap (λ sets. any (text_eq d) (members (with_key o).key sets))
          (fail_sync-sets r (with_key o) now)
        ∙ h)
  ])
]

-- A sync that neither replaces nor is a dry run, of a source that opens, and that reports success has
-- read the source to its end, and the feed is the old one with the source's domains added.
pub sync_added :
    (r : Redis) (o : SyncOptions) (stamp : Text) (now : ℕ) (p : Parsing) (complete : Bool)
    (report : SyncReport)
    → o.dry_run ≡ false
    → o.replace ≡ false
    → (sync r o stamp now (some (p, complete))).1 ≡ some report
    → (complete ≡ true)
      × (members (with_key o).key (sync r o stamp now (some (p, complete))).0.sets
          ≡ add_members (members (with_key o).key r.sets) p.domains)
sync_added r o stamp now p complete report real adds =
    (sync-Adds r o stamp now p complete real adds).1 report
