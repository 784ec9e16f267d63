-- ===== src/Sync/Replaced.antt =====
-- What a replacing synchronisation of internal/feed/sync.go leaves in the feed.
use mathlib.Core.List.{append_assoc}
use mathlib.Core.Path.{subst}
use safe_road.Base.{
  ℕ, ◌&&◌, Bool, true, false, ◌||◌, Option, none, some, List, [], ◌∷◌, ◌++◌, ◌≡◌, ◌⊎◌, refl, sym,
  ap, ◌∙◌, arith, inl, inr, Bool-cases, Text, text_eq, text_eq_refl, lookup, delete, lookup-delete,
  length, length-append, if◌then◌else◌, ◌==◌, ==_iff, codes,
}
use safe_road.Distance.Scripts.{backwards}
use safe_road.Strings.{trim_space}
use safe_road.Feed.{Parsing}
use safe_road.Feed.Tidy.{IsTidy}
use safe_road.Sync.{
  Redis, SyncOptions, SyncReport, members_of, members, call_works, add_members, delete_set,
  move_set, rename_set, swap_feed, write_domains, fail_sync, replace_feed, write_as, write_feed,
  staging_key, with_key, sync, dry_report, report_of,
}
use safe_road.Sync.Sets.{
  add_members-Distinct, delete_set-other, write_domains-other, write_domains-members,
  fail_sync-sets, finish_sync-sets, members-insert,
}

text_eq-longer : (k s : Text) (c : ℕ) → text_eq (k ++ c ∷ s) k ≡ false
unfolding text_eq
text_eq-longer [] s c = refl
text_eq-longer (a ∷ k) s c = ground (arith, text_eq-longer k s c)

staging_key-new : (key stamp : Text) → text_eq (staging_key key stamp) key ≡ false
unfolding staging_key
staging_key-new key stamp =
    ap (λ t. text_eq t key) (append_assoc key (codes ":staging:") stamp)
    ∙ text_eq-longer key (codes "staging:" ++ stamp) 58

move_set-sets :
    (r : Redis) (from to : Text) (o : Option (List Text))
    → ((move_set r from to o).1 ≡ false → (move_set r from to o).0.sets ≡ r.sets)
      × ((move_set r from to o).1 ≡ true → members to (move_set r from to o).0.sets ≡ members_of o)
move_set-sets r from to none = (λ h. refl, λ h. absurd cc)
move_set-sets r from to (some ds) = elim (Bool-cases (call_works r)) [
  | inl e ↦ rw e (λ h. absurd cc, λ h. members-insert to ds (delete from r.sets))
  | inr e ↦ rw e (λ h. refl, λ h. absurd cc)
]

delete_set-kept :
    (r : Redis) (key : Text) → (delete_set r key).1 ≡ false → (delete_set r key).0.sets ≡ r.sets
unfolding delete_set
delete_set-kept r key h = elim (Bool-cases (call_works r)) [ inl e ↦ absurd cc | inr e ↦ rw e refl ]

delete_set-members :
    (r : Redis) (key : Text)
    → (delete_set r key).1 ≡ true
    → members key (delete_set r key).0.sets ≡ []
unfolding delete_set
delete_set-members r key h = elim (Bool-cases (call_works r)) [
  | inr e ↦ absurd cc
  | inl e ↦ rw e (
      ap (λ o. members_of o)
        (lookup-delete key key r.sets
          ∙ ap (λ b. if b then none else lookup key r.sets) (text_eq_refl key)))
]

-- A swap that fails leaves the feed; one that succeeds leaves in it what was staged, or nothing when
-- nothing was valid.
swap_feed-sets :
    (r : Redis) (staging key : Text) (valid : ℕ)
    → text_eq staging key ≡ false
    → ((swap_feed r staging key valid).1 ≡ false
        → lookup key (swap_feed r staging key valid).0.sets ≡ lookup key r.sets)
      × ((swap_feed r staging key valid).1 ≡ true
          → members key (swap_feed r staging key valid).0.sets
            ≡ (if valid == 0 then [] else members staging r.sets))
unfolding swap_feed delete_set lookup rename_set
swap_feed-sets r staging key valid new = elim (Bool-cases (valid == 0)) [
  | inl e ↦
      let d = delete_set r key in
      rw (e, swap_feed)
        (
          λ h.
              delete_set-other d.0 staging key new
              ∙ ap (λ sets. lookup key sets) (delete_set-kept r key h),
          λ h.
              ap (λ o. members_of o) (delete_set-other d.0 staging key new)
              ∙ delete_set-members r key h,
        )
  | inr e ↦
      let m = rename_set r staging key in
      let moved = move_set-sets r staging key (lookup staging r.sets) in
      elim (Bool-cases m.1) [
        | inl f ↦ rw (e, swap_feed, f) (λ h. absurd cc, λ h. moved.1 f)
        | inr f ↦
            rw (e, swap_feed, f)
              (
                λ h.
                    delete_set-other m.0 staging key new ∙ ap (λ sets. lookup key sets) (moved.0 f),
                λ h. absurd cc,
              )
      ]
]

-- Every outcome of what follows the batches.
replace_feed-sets :
    (r : Redis) (o : SyncOptions) (stamp : Text) (now : ℕ) (p : Parsing) (written : Option ℕ)
    → ((lookup o.key (replace_feed r o stamp now p written).0.sets ≡ lookup o.key r.sets)
        × ((replace_feed r o stamp now p written).1 ≡ none))
      ⊎ ((w : ℕ) × (written ≡ some w)
          × (members o.key (replace_feed r o stamp now p written).0.sets
              ≡ (if p.stats.valid == 0 then [] else members (staging_key o.key stamp) r.sets)))
unfolding replace_feed fail_sync
replace_feed-sets r o stamp now p none = inl (
  ap (λ sets. lookup o.key sets) (fail_sync-sets (delete_set r (staging_key o.key stamp)).0 o now)
      ∙ delete_set-other r (staging_key o.key stamp) o.key (staging_key-new o.key stamp),
  refl,
)
replace_feed-sets r o stamp now p (some w) =
    let f = swap_feed r (staging_key o.key stamp) o.key p.stats.valid in
    let sets =
      swap_feed-sets r (staging_key o.key stamp) o.key p.stats.valid
        (staging_key-new o.key stamp) in
    elim (Bool-cases f.1) [
      | inl e ↦ rw e (
          inr (
            w,
            refl,
            ap (λ sets. members o.key sets) (finish_sync-sets f.0 o now p.stats w) ∙ sets.1 e,
          ))
      | inr e ↦
          rw e (inl (ap (λ sets. lookup o.key sets) (fail_sync-sets f.0 o now) ∙ sets.0 e, refl))
    ]

length-backwards : (xs : List Text) → length (backwards xs) ≡ length xs
length-backwards [] = refl
length-backwards (x ∷ xs) =
    omega (arith, length-append (backwards xs) (x ∷ []), length-backwards xs)

length-zero : (xs : List Text) → length xs ≡ 0 → xs ≡ []
length-zero [] h = refl
length-zero (x ∷ xs) h = absurd (omega (arith, h))

-- What was staged from nothing are the domains that the parser handed on.
staged :
    (p : Parsing)
    → IsTidy p
    → (if p.stats.valid == 0 then [] else add_members [] p.domains) ≡ p.domains
staged p tidy = elim (Bool-cases (p.stats.valid == 0)) [
  | inl e ↦ rw e (
      sym (
        length-zero p.domains (
          ap (λ ds. length ds) tidy.in_order
          ∙ length-backwards p.seen
          ∙ sym tidy.counted
          ∙ (==_iff p.stats.valid 0).0 e)))
  | inr e ↦ rw e (
      ap (λ ds. add_members [] ds) tidy.in_order
      ∙ add_members-Distinct p.seen tidy.distinct
      ∙ sym tidy.in_order)
]

-- The feed after a replacement is the old one, and the replacement fails, or the source was read to
-- its end and the feed is its domains.
abbrev pub Replaces : Text → Redis → Parsing → Bool → Redis × Option SyncReport → Type 0
Replaces key r p complete f =
    ((lookup key f.0.sets ≡ lookup key r.sets) × (f.1 ≡ none))
    ⊎ ((complete ≡ true) × (members key f.0.sets ≡ p.domains))

write_as-Replaces :
    (r : Redis) (o : SyncOptions) (stamp : Text) (now : ℕ) (p : Parsing) (complete : Bool)
    → lookup (staging_key o.key stamp) r.sets ≡ none
    → IsTidy p
    → Replaces o.key r p complete (write_as true r o stamp now p complete)
write_as-Replaces r o stamp now p complete new tidy =
    let k = staging_key o.key stamp in
    let f = write_domains r k p.domains complete in
    elim (replace_feed-sets f.0 o stamp now p f.1) [
      | inl (same, fails) ↦ inl (
        same ∙ write_domains-other r k o.key p.domains complete (staging_key-new o.key stamp),
        fails,
      )
      | inr (w, e, sets) ↦
          let c = write_domains-members r k p.domains complete w e in
          inr (
            c.0,
            sets
                ∙ ap (λ ds. if p.stats.valid == 0 then [] else ds)
                    (c.1 ∙ ap (λ x. add_members (members_of x) p.domains) new)
                ∙ staged p tidy,
          )
    ]

pub some-none : (report : SyncReport) → some report ≡ none → ⊥
some-none report h = absurd cc

pub dry_report-none :
    (o : SyncOptions) (opened : Option (Parsing × Bool))
    → o.dry_run ≡ false
    → dry_report o opened ≡ none
dry_report-none o none h = refl
dry_report-none o (some (p, complete)) h =
    ap (λ b. if b && complete then some (report_of o p.stats 0 false 0) else none) h

-- A replacing sync that is not a dry run, of a source that opens and parses to tidy domains, whose
-- staging key is new, leaves the feed as it was and fails, or has read the whole source and leaves
-- exactly its domains, whichever calls of Redis fail.
pub sync_replaced :
    (r : Redis) (o : SyncOptions) (stamp : Text) (now : ℕ) (p : Parsing) (complete : Bool)
    → o.dry_run ≡ false
    → o.replace ≡ true
    → lookup (staging_key (with_key o).key stamp) r.sets ≡ none
    → IsTidy p
    → Replaces (with_key o).key r p complete (sync r o stamp now (some (p, complete)))
unfolding sync write_feed
sync_replaced r o stamp now p complete real replaces new tidy =
    elim (Bool-cases (text_eq (trim_space o.source) [])) [
      | inl e ↦ rw e (inl (refl, refl))
      | inr e ↦ rw e (elim (Bool-cases (o.dry_run || text_eq (trim_space o.redis_addr) [])) [
        | inl f ↦ rw f (inl (refl, dry_report-none o (some (p, complete)) real))
        | inr f ↦ rw f (
            subst
              (λ b.
                Replaces (with_key o).key r p complete
                  (write_as b r (with_key o) stamp now p complete))
              (sym replaces) (write_as-Replaces r (with_key o) stamp now p complete new tidy))
      ])
    ]
