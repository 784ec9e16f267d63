-- ===== src/Alert/Sorted.antt =====
-- `ORDER BY created_at ASC` in the query of agent events, internal/store/sqlite.go.
use mathlib.Core.List.{Perm}
use mathlib.Core.List.Perm
use safe_road.Base.{
  ℕ, suc, ◌≤◌, Bool, true, ◌&&◌, List, [], ◌∷◌, ◌≡◌, refl, arith, leb, all, filter, length,
  Bool-cases, inl, inr,
}
use safe_road.Audit.{AgentEvent}
use safe_road.Alert.{is_alertable, insert_event, by_time}

-- Each event is no later than those after it.
abbrev pub IsAscending : List AgentEvent → Type 0
IsAscending [] = Unit {0}
IsAscending (e ∷ es) = (all (λ f. leb e.created_at f.created_at) es ≡ true) × IsAscending es

-- The alertable events from a time on.
abbrev pub alertable_since : List AgentEvent → ℕ → List AgentEvent
alertable_since events since = filter (λ e. leb since e.created_at && is_alertable e) events

-- All of these events, each as often as it is there, in the order of time.
pub record IsWaiting (events : List AgentEvent) (since : ℕ) (waiting : List AgentEvent)
    : Type 0 where
  pub same : Perm waiting (alertable_since events since)
  pub ascending : IsAscending waiting

module _ (p : AgentEvent → Bool) where
  all-insert_event :
      (e : AgentEvent) (es : List AgentEvent)
      → p e ≡ true
      → all p es ≡ true
      → all p (insert_event e es) ≡ true
  unfolding insert_event
  all-insert_event e [] k h = ground (arith, k)
  all-insert_event e (f ∷ fs) k h = ground (arith, k, h, all-insert_event e fs k)

  pub all-by_time : (es : List AgentEvent) → all p es ≡ true → all p (by_time es) ≡ true
  unfolding by_time
  all-by_time [] h = refl
  all-by_time (e ∷ es) h =
      let k : (p e ≡ true) × (all p es ≡ true) = ground (arith, h) in
      all-insert_event e (by_time es) k.0 (all-by_time es k.1)

all_later :
    (a b : ℕ) (es : List AgentEvent)
    → a ≤ b
    → all (λ f. leb b f.created_at) es ≡ true
    → all (λ f. leb a f.created_at) es ≡ true
all_later a b [] h k = refl
all_later a b (e ∷ es) h k = ground (arith, h, k, all_later a b es h)

insert_event-IsAscending :
    (e : AgentEvent) (es : List AgentEvent) → IsAscending es → IsAscending (insert_event e es)
unfolding insert_event
insert_event-IsAscending e [] h = (refl, tt)
insert_event-IsAscending e (f ∷ fs) (first, h) = elim (Bool-cases (leb e.created_at f.created_at)) [
  | inl early ↦
      rw (early, insert_event)
        (ground (arith, early, all_later e.created_at f.created_at fs, first), (first, h))
  | inr late ↦
      rw (late, insert_event)
        (
          all-insert_event (λ g. leb f.created_at g.created_at) e fs (ground (arith, late)) first,
          insert_event-IsAscending e fs h,
        )
]

by_time-IsAscending : (es : List AgentEvent) → IsAscending (by_time es)
unfolding by_time
by_time-IsAscending [] = tt
by_time-IsAscending (e ∷ es) = insert_event-IsAscending e (by_time es) (by_time-IsAscending es)

perm-insert_event : (e : AgentEvent) (es : List AgentEvent) → Perm (insert_event e es) (e ∷ es)
unfolding insert_event
perm-insert_event e [] = Perm.rfl
perm-insert_event e (f ∷ fs) = elim (Bool-cases (leb e.created_at f.created_at)) [
  | inl early ↦ rw (early, insert_event) Perm.rfl
  | inr late ↦
      rw (late, insert_event) (Perm.trans (Perm.cons f (perm-insert_event e fs)) (Perm.swap e f fs))
]

perm-by_time : (es : List AgentEvent) → Perm (by_time es) es
unfolding by_time
perm-by_time [] = Perm.rfl
perm-by_time (e ∷ es) =
    Perm.trans (perm-insert_event e (by_time es)) (Perm.cons e (perm-by_time es))

pub by_time-IsWaiting :
    (events : List AgentEvent) (since : ℕ)
    → IsWaiting events since (by_time (alertable_since events since))
by_time-IsWaiting events since = record {
  same = perm-by_time (alertable_since events since);
  ascending = by_time-IsAscending (alertable_since events since);
}

length-insert_event :
    (e : AgentEvent) (es : List AgentEvent) → length (insert_event e es) ≡ suc (length es)
unfolding insert_event
length-insert_event e [] = refl
length-insert_event e (f ∷ fs) = ground (arith, length-insert_event e fs)

pub length-by_time : (es : List AgentEvent) → length (by_time es) ≡ length es
unfolding by_time
length-by_time [] = refl
length-by_time (e ∷ es) = omega (arith, length-insert_event e (by_time es), length-by_time es)
