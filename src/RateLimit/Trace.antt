-- ===== src/RateLimit/Trace.antt =====
-- Runs of the limiter of internal/ratelimit/limiter.go: requests of any keys and rounds of the
-- cleanup loop, in the order in which they take the mutex, each with the time that it reads.
use safe_road.Base.{
  ℕ, ◌+◌, ◌-◌, ◌*◌, ◌≤◌, ◌<◌, List, [], ◌∷◌, ◌≡◌, arith, ◌&&◌, if◌then◌else◌, Bool-cases, inl, inr,
  Text, text_eq, text_eq_sound, ap,
}
use safe_road.RateLimit.{token, idle_threshold, Limiter, capacity, allow, cleanup, on_tick}
use safe_road.RateLimit.Level.{
  level, level-le-capacity, allow-rate, reply-allow, level-allow_self, level-allow_ne,
  level-on_tick, level_rises,
}

pub data Event : Type 0 where
  request : ℕ → Text → Event
  tick : ℕ → Event

abbrev pub time : Event → ℕ
time (request now key) = now
time (tick now) = now

unfoldable pub step : Limiter → Event → Limiter
step l (request now key) = (allow l key now).0
step l (tick now) = on_tick l now

-- How many of the events are requests of the key that are served.
unfoldable pub served : Limiter → Text → Event → ℕ
served l key (request now j) = if text_eq j key && (allow l j now).1 then 1 else 0
served l key (tick now) = 0

unfoldable pub admitted : Limiter → Text → List Event → ℕ
unfolding step served
admitted l key [] = 0
admitted l key (e ∷ es) = served l key e + admitted (step l e) key es

-- The times do not fall, from the first one on.
abbrev pub Ordered : ℕ → List Event → Type 0
Ordered now [] = Unit {0}
Ordered now (e ∷ es) = (now ≤ time e) × Ordered (time e) es

abbrev pub finish : ℕ → List Event → ℕ
finish now [] = now
finish now (e ∷ es) = finish (time e) es

-- The limiter is on, and ten minutes refill a bucket.
pub record IsPrompt (l : Limiter) : Type 0 where
  pub is_on : 0 < l.rate
  pub refills : capacity l ≤ idle_threshold * l.rate

pub on_tick-rate :
    (l : Limiter) (now : ℕ) → ((on_tick l now).rate ≡ l.rate) × ((on_tick l now).burst ≡ l.burst)
unfolding on_tick cleanup
on_tick-rate l now = ground arith

pub step-rate :
    (l : Limiter) (e : Event) → ((step l e).rate ≡ l.rate) × ((step l e).burst ≡ l.burst)
unfolding step
step-rate l (request now key) = ground (arith, allow-rate l key now)
step-rate l (tick now) = on_tick-rate l now

pub step-IsPrompt : (l : Limiter) (e : Event) → IsPrompt l → IsPrompt (step l e)
step-IsPrompt l e p = ground (arith, step-rate l e)

-- What a step serves to a key it takes from the level of the key.
served-level :
    (l : Limiter) (key : Text) (e : Event)
    → IsPrompt l
    → served l key e * token + level (step l e) key (time e) ≤ level l key (time e)
unfolding served step
served-level l key (tick now) p = omega (arith, level-on_tick l key now now p.refills (omega arith))
served-level l key (request now j) p = elim (Bool-cases (text_eq j key)) [
  | inl same ↦
      let e = text_eq_sound j key same in
      rw same (
        ground (
          arith,
          e,
          reply-allow l j now p.is_on,
          level-allow_self l j now now p.is_on,
          ap (λ k. level l k now) e,
          ap (λ k. level (allow l j now).0 k now) e,
        ))
  | inr other ↦ rw other (omega (arith, level-allow_ne l j key now now p.is_on other))
]

finish-le : (now : ℕ) (es : List Event) → Ordered now es → now ≤ finish now es
finish-le now [] h = omega arith
finish-le now (e ∷ es) h = omega (arith, finish-le (time e) es h.1)

spans : (a b c r : ℕ) → a ≤ b → b ≤ c → (b - a) * r + (c - b) * r ≡ (c - a) * r
spans a b c r h k = grind (arith, ap (λ (t : ℕ). t * r) (parts a b c h k))
  where
    parts : (x y z : ℕ) → x ≤ y → y ≤ z → y - x + (z - y) ≡ z - x
    parts x y z p q = omega arith

admitted-le-level :
    (l : Limiter) (key : Text) (now : ℕ) (es : List Event)
    → IsPrompt l
    → Ordered now es
    → admitted l key es * token ≤ level l key now + (finish now es - now) * l.rate
unfolding admitted
admitted-le-level l key now [] p o = omega arith
admitted-le-level l key now (e ∷ es) p o =
    let ih = admitted-le-level (step l e) key (time e) es (step-IsPrompt l e p) o.1 in
    grind (
      arith,
      ih,
      step-rate l e,
      served-level l key e p,
      level_rises l key now (time e),
      spans now (time e) (finish (time e) es) l.rate o.0 (finish-le (time e) es o.1),
    )

-- However requests of any keys and rounds of the cleanup loop interleave, from a limiter that is on
-- and whose full bucket refills in ten minutes, the tokens that one key is served between two times
-- are at most the burst and what the rate adds in between.
pub admitted-le :
    (l : Limiter) (key : Text) (now : ℕ) (es : List Event)
    → IsPrompt l
    → Ordered now es
    → admitted l key es * token ≤ l.burst * token + (finish now es - now) * l.rate
admitted-le l key now es p o =
    omega (arith, admitted-le-level l key now es p o, level-le-capacity l key now)
