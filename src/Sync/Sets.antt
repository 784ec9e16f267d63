-- ===== src/Sync/Sets.antt =====
-- What the calls of a synchronisation, internal/feed/sync.go, do to the sets of Redis.
use mathlib.Core.List.{append_assoc, append-nil}
use safe_road.Base.{
  ℕ, Bool, true, false, ◌||◌, Option, none, some, List, [], ◌∷◌, ◌++◌, ◌≡◌, refl, sym, ap, ◌∙◌,
  arith, inl, inr, Bool-cases, Option-cases, Text, text_eq, Assoc, lookup, insert, lookup-insert,
  lookup-insert_self, lookup-delete, any, leb, length, if◌then◌else◌,
}
use safe_road.Distance.Scripts.{backwards}
use safe_road.Feed.Tidy.{Distinct}
use safe_road.Sync.{
  Redis, SyncOptions, SyncReport, members_of, members, call_works, add_members, set_add, delete_set,
  increment, get_int64, set_status, record_sync_failure, record_sync_success, flush, send_domains,
  flush_rest, write_domains, fail_sync, store_report, finish_sync, called, SourceStatus, or_value,
  redis_batch_size, report_of, revision_key,
}
use safe_road.Feed.{ParseStats}

pub add_members-append :
    (s xs ys : List Text) → add_members s (xs ++ ys) ≡ add_members (add_members s xs) ys
unfolding add_members
add_members-append s [] ys = refl
add_members-append s (x ∷ xs) ys =
    add_members-append (if any (text_eq x) s then s else s ++ x ∷ []) xs ys

any-append : (f : Text → Bool) (xs ys : List Text) → any f (xs ++ ys) ≡ any f xs || any f ys
any-append f [] ys = refl
any-append f (x ∷ xs) ys = ground (arith, any-append f xs ys)

pub add_members-keeps :
    (d : Text) (s xs : List Text)
    → any (text_eq d) s ≡ true
    → any (text_eq d) (add_members s xs) ≡ true
unfolding add_members
add_members-keeps d s [] h = h
add_members-keeps d s (x ∷ xs) h = elim (Bool-cases (any (text_eq x) s)) [
  | inl e ↦ rw e (add_members-keeps d s xs h)
  | inr e ↦ rw e (
      add_members-keeps d (s ++ x ∷ []) xs
        (any-append (text_eq d) s (x ∷ []) ∙ ap (λ b. b || any (text_eq d) (x ∷ [])) h))
]

any-backwards : (f : Text → Bool) (xs : List Text) → any f (backwards xs) ≡ any f xs
any-backwards f [] = refl
any-backwards f (x ∷ xs) = ground (arith, any-append f (backwards xs) (x ∷ []), any-backwards f xs)

-- Distinct members are all added, in their order.
pub add_members-Distinct :
    (ds : List Text) → Distinct ds → add_members [] (backwards ds) ≡ backwards ds
unfolding add_members
add_members-Distinct [] h = refl
add_members-Distinct (d ∷ ds) (new, dot, h) =
    add_members-append [] (backwards ds) (d ∷ [])
    ∙ ap (λ s. add_members s (d ∷ [])) (add_members-Distinct ds h)
    ∙ ap (λ b. if b then backwards ds else backwards ds ++ d ∷ [])
        (any-backwards (text_eq d) ds ∙ new)

pub set_add-other :
    (r : Redis) (key j : Text) (ds : List Text)
    → text_eq key j ≡ false
    → lookup j (set_add r key ds).0.sets ≡ lookup j r.sets
unfolding set_add
set_add-other r key j [] h = refl
set_add-other r key j (d ∷ ds) h = elim (Bool-cases (call_works r)) [
  | inl e ↦ rw e (rw (lookup-insert, h) refl)
  | inr e ↦ rw e refl
]

pub delete_set-other :
    (r : Redis) (key j : Text)
    → text_eq key j ≡ false
    → lookup j (delete_set r key).0.sets ≡ lookup j r.sets
unfolding delete_set
delete_set-other r key j h = elim (Bool-cases (call_works r)) [
  | inl e ↦ rw e (rw (lookup-delete, h) refl)
  | inr e ↦ rw e refl
]

-- A relation that holds of each SADD holds of all the batches.
module _ (t : Text) (R : Redis → Redis → Type 0) (same : (r : Redis) → R r r)
    (join : (r r' r'' : Redis) → R r r' → R r' r'' → R r r'')
    (adds : (r : Redis) (ds : List Text) → R r (set_add r t ds).0) where
  flush-relates : (r : Redis) (batch : List Text) (w : ℕ) → R r (flush r t batch w).0
  unfolding flush
  flush-relates r [] w = same r
  flush-relates r (d ∷ ds) w = adds r (d ∷ ds)

  pub send_domains-relates :
      (r : Redis) (batch : List Text) (w : ℕ) (ds : List Text) → R r (send_domains r t batch w ds).0
  unfolding send_domains
  send_domains-relates r batch w [] = same r
  send_domains-relates r batch w (d ∷ ds) =
      elim (Bool-cases (leb redis_batch_size (length (batch ++ d ∷ [])))) [
        | inr e ↦ rw (e, send_domains) (send_domains-relates r (batch ++ d ∷ []) w ds)
        | inl e ↦
            rw (e, send_domains)
              (go (flush r t (batch ++ d ∷ []) w) (λ r' n. send_domains-relates r' [] n ds)
                (flush-relates r (batch ++ d ∷ []) w))
      ]
    where
      go :
          (f : Redis × Option ℕ)
          → ((r' : Redis) (n : ℕ) → R r' (send_domains r' t [] n ds).0)
          → R r f.0
          → R r
              (elim f.1 as (λ o. Redis × Option (List Text × ℕ)) [
                | none ↦ (f.0, none)
                | some n ↦ send_domains f.0 t [] n ds
              ]).0
      go (r', none) again first = first
      go (r', some n) again first = join r r' _ first (again r' n)

  flush_rest-relates :
      (complete : Bool) (r r' : Redis) (rest : Option (List Text × ℕ))
      → R r r'
      → R r (flush_rest complete r' t rest).0
  flush_rest-relates complete r r' none h = h
  flush_rest-relates false r r' (some (batch, w)) h = h
  flush_rest-relates true r r' (some (batch, w)) h = join r r' _ h (flush-relates r' batch w)

  pub write_domains-relates :
      (r : Redis) (ds : List Text) (complete : Bool) → R r (write_domains r t ds complete).0
  unfolding write_domains
  write_domains-relates r ds complete =
      let f = send_domains r t [] 0 ds in
      flush_rest-relates complete r f.0 f.1 (send_domains-relates r [] 0 ds)

-- The batches change no set but theirs.
pub write_domains-other :
    (r : Redis) (t j : Text) (ds : List Text) (complete : Bool)
    → text_eq t j ≡ false
    → lookup j (write_domains r t ds complete).0.sets ≡ lookup j r.sets
write_domains-other r t j ds complete h =
    write_domains-relates t (λ q q'. lookup j q'.sets ≡ lookup j q.sets) (λ q. refl)
      (λ q q' q'' a b. b ∙ a) (λ q bs. set_add-other q t j bs h) r ds complete

pub members-insert :
    (key : Text) (ds : List Text) (sets : Assoc (List Text)) → members key (insert key ds sets) ≡ ds
members-insert key ds sets = ap (λ o. members_of o) (lookup-insert_self key ds sets)

set_add-members :
    (r : Redis) (key : Text) (ds : List Text) (n : ℕ)
    → (set_add r key ds).1 ≡ some n
    → members key (set_add r key ds).0.sets ≡ add_members (members key r.sets) ds
unfolding set_add add_members
set_add-members r key [] n h = refl
set_add-members r key (d ∷ ds) n h = elim (Bool-cases (call_works r)) [
  | inl e ↦ rw e (members-insert key _ r.sets)
  | inr e ↦ absurd cc
]

flush-members :
    (r : Redis) (t : Text) (batch : List Text) (w n : ℕ)
    → (flush r t batch w).1 ≡ some n
    → members t (flush r t batch w).0.sets ≡ add_members (members t r.sets) batch
unfolding flush add_members
flush-members r t [] w n h = refl
flush-members r t (d ∷ ds) w n h = elim (Option-cases (set_add r t (d ∷ ds)).1) [
  | inl e ↦ absurd cc
  | inr (k, e) ↦ set_add-members r t (d ∷ ds) k e
]

some-fst :
    (a b : List Text) (m n : ℕ)
    → ◌≡◌ {A = Option (List Text × ℕ)} (some (a, m)) (some (b, n))
    → a ≡ b
some-fst a b m n h = cc

-- Batches that are all written add, with what is left, the batch that was begun and the domains.
send_domains-members :
    (r : Redis) (t : Text) (batch : List Text) (w : ℕ) (ds rest : List Text) (n : ℕ)
    → (send_domains r t batch w ds).1 ≡ some (rest, n)
    → add_members (members t (send_domains r t batch w ds).0.sets) rest
      ≡ add_members (members t r.sets) (batch ++ ds)
unfolding send_domains
send_domains-members r t batch w [] rest n = λ h.
    ap (add_members (members t r.sets)) (sym (some-fst batch rest w n h) ∙ sym (append-nil batch))
send_domains-members r t batch w (d ∷ ds) rest n =
    elim (Bool-cases (leb redis_batch_size (length (batch ++ d ∷ [])))) [
      | inr e ↦
          rw (e, send_domains)
            (λ h.
              send_domains-members r t (batch ++ d ∷ []) w ds rest n h
              ∙ ap (add_members (members t r.sets)) (append_assoc batch (d ∷ []) ds))
      | inl e ↦
          rw (e, send_domains)
            (go (flush r t (batch ++ d ∷ []) w) (λ r' k. send_domains-members r' t [] k ds rest n)
              (flush-members r t (batch ++ d ∷ []) w))
    ]
  where
    go :
        (f : Redis × Option ℕ)
        → ((r' : Redis) (k : ℕ)
            → (send_domains r' t [] k ds).1 ≡ some (rest, n)
            → add_members (members t (send_domains r' t [] k ds).0.sets) rest
              ≡ add_members (members t r'.sets) ds)
        → ((k : ℕ)
            → f.1 ≡ some k
            → members t f.0.sets ≡ add_members (members t r.sets) (batch ++ d ∷ []))
        → (elim f.1 as (λ o. Redis × Option (List Text × ℕ)) [
          | none ↦ (f.0, none)
          | some k ↦ send_domains f.0 t [] k ds
        ]).1
          ≡ some (rest, n)
        → add_members
            (members t
              (elim f.1 as (λ o. Redis × Option (List Text × ℕ)) [
                | none ↦ (f.0, none)
                | some k ↦ send_domains f.0 t [] k ds
              ]).0.sets)
            rest
          ≡ add_members (members t r.sets) (batch ++ d ∷ ds)
    go (r', none) again begun h = absurd cc
    go (r', some k) again begun h =
        again r' k h
        ∙ ap (λ s. add_members s ds) (begun k refl)
        ∙ sym (add_members-append (members t r.sets) (batch ++ d ∷ []) ds)
        ∙ ap (add_members (members t r.sets)) (append_assoc batch (d ∷ []) ds)

-- What is written in the end is all, and the parser reached its end.
pub write_domains-members :
    (r : Redis) (t : Text) (ds : List Text) (complete : Bool) (n : ℕ)
    → (write_domains r t ds complete).1 ≡ some n
    → (complete ≡ true)
      × (members t (write_domains r t ds complete).0.sets ≡ add_members (members t r.sets) ds)
unfolding write_domains
write_domains-members r t ds complete n =
    go complete (send_domains r t [] 0 ds) (send_domains-members r t [] 0 ds)
  where
    go :
        (b : Bool) (f : Redis × Option (List Text × ℕ))
        → ((rest : List Text) (k : ℕ)
            → f.1 ≡ some (rest, k)
            → add_members (members t f.0.sets) rest ≡ add_members (members t r.sets) ds)
        → (flush_rest b f.0 t f.1).1 ≡ some n
        → (b ≡ true)
          × (members t (flush_rest b f.0 t f.1).0.sets ≡ add_members (members t r.sets) ds)
    go b (r', none) all h = absurd cc
    go false (r', some (rest, k)) all h = absurd cc
    go true (r', some (rest, k)) all h = (refl, flush-members r' t rest k n h ∙ all rest k refl)

set_status-sets : (r : Redis) (key : Text) (s : SourceStatus) → (set_status r key s).0.sets ≡ r.sets
unfolding set_status
set_status-sets r key s = elim (Bool-cases (call_works r)) [ inl e ↦ rw e refl | inr e ↦ rw e refl ]

-- A failure is recorded outside the sets.
pub fail_sync-sets : (r : Redis) (o : SyncOptions) (now : ℕ) → (fail_sync r o now).0.sets ≡ r.sets
unfolding fail_sync record_sync_failure
fail_sync-sets r o now = set_status-sets (called r) _ _

store_report-sets :
    (r : Redis) (o : SyncOptions) (now : ℕ) (report : SyncReport)
    → (store_report r o now report).0.sets ≡ r.sets
unfolding store_report record_sync_success
store_report-sets r o now report =
    let a = record_sync_success r o now report in
    let same : a.0.sets ≡ r.sets = set_status-sets r _ _ in
    elim (Bool-cases a.1) [ inl e ↦ rw e same | inr e ↦ rw e (fail_sync-sets a.0 o now ∙ same) ]

increment-sets : (r : Redis) (key : Text) → (increment r key).0.sets ≡ r.sets
unfolding increment
increment-sets r key = elim (Bool-cases (call_works r)) [ inl e ↦ rw e refl | inr e ↦ rw e refl ]

-- What follows the writes leaves the sets.
pub finish_sync-sets :
    (r : Redis) (o : SyncOptions) (now : ℕ) (stats : ParseStats) (w : ℕ)
    → (finish_sync r o now stats w).0.sets ≡ r.sets
unfolding finish_sync get_int64
finish_sync-sets r o now stats w =
    elim (Bool-cases (leb (or_value o.invalidation_min_writes 1) w || o.replace)) [
      | inr e ↦ rw (e, finish_sync) (store_report-sets (called r) o now _)
      | inl e ↦
          rw (e, finish_sync)
            (go (increment r (revision_key o.key)) (increment-sets r (revision_key o.key)))
    ]
  where
    go :
        (f : Redis × Option ℕ)
        → f.0.sets ≡ r.sets
        → (elim f.1 as (λ o. Redis × Option SyncReport) [
          | none ↦ fail_sync f.0 o now
          | some n ↦ store_report f.0 o now (report_of o stats w true n)
        ]).0.sets
          ≡ r.sets
    go (r', none) same = fail_sync-sets r' o now ∙ same
    go (r', some n) same = store_report-sets r' o now (report_of o stats w true n) ∙ same
