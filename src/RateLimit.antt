-- ===== src/RateLimit.antt =====
-- The token bucket limiter of internal/ratelimit/limiter.go and the tier selection of
-- internal/ratelimit/middleware.go. Time is a count of nanoseconds on the monotonic clock. Tokens
-- are counted exactly, in units of 1 / (60 * 10^9) of a token, so that a rate of `r` requests per
-- minute adds `r` units in each nanosecond; the floats of the source are these numbers, rounded.
pub mod Level
pub mod Trace
pub mod Sweeps
pub mod Tiers
pub mod Retry
pub mod Paths
use safe_road.Base.{
  ℕ, zero, suc, ◌+◌, ◌-◌, ◌*◌, ◌/◌, min, max, Bool, true, false, Option, none, some, List, [], ◌∷◌,
  ◌≡◌, refl, arith, ltb, leb, ◌||◌, if◌then◌else◌, Text, Assoc, lookup, insert, delete_where,
  length,
}

abbrev pub second : ℕ
second = 1_000_000_000

-- One whole token.
abbrev pub token : ℕ
token = 60_000_000_000

-- `10 * time.Minute`
abbrev pub idle_threshold : ℕ
idle_threshold = 600_000_000_000

pub record Bucket : Type 0 where
  pub tokens : ℕ
  pub last_check : ℕ

pub record Limiter : Type 0 where
  pub buckets : Assoc Bucket
  pub rate : ℕ
  pub burst : ℕ
  pub closed : Bool

unfoldable pub new : ℕ → ℕ → Limiter
new rate burst = record { buckets = []; rate = rate; burst = burst; closed = false }

abbrev pub capacity : Limiter → ℕ
capacity l = l.burst * token

-- The bucket of a key, a full one if there is none.
unfoldable pub bucket_at : Limiter → Text → ℕ → Bucket
bucket_at l key now = elim (lookup key l.buckets) [
  | none ↦ record { tokens = capacity l; last_check = now }
  | some b ↦ b
]

unfoldable pub refill : Limiter → Bucket → ℕ → ℕ
refill l b now = min (b.tokens + (now - b.last_check) * l.rate) (capacity l)

abbrev pub store_bucket : Limiter → Text → ℕ → ℕ → Limiter
store_bucket l key tokens now = record l {
  buckets = insert key (record { tokens = tokens; last_check = now }) l.buckets;
}

-- The limiter after the call, and the reply.
unfoldable pub allow : Limiter → Text → ℕ → Limiter × Bool
unfolding bucket_at refill
allow l key now =
    if leb l.rate 0
    then (l, true)
    else let tokens = refill l (bucket_at l key now) now in
      if ltb tokens token
      then (store_bucket l key tokens now, false)
      else (store_bucket l key (tokens - token) now, true)

-- The seconds are the fraction of the two numbers: `deficit / l.rate`.
pub record Seconds : Type 0 where
  pub numerator : ℕ
  pub denominator : ℕ

unfoldable pub seconds_until_next_token : Limiter → Text → Seconds
seconds_until_next_token l key =
    if leb l.rate 0
    then record { numerator = 0; denominator = 1 }
    else elim (lookup key l.buckets) [
      | none ↦ record { numerator = 0; denominator = 1 }
      | some b ↦
          if leb token b.tokens
          then record { numerator = 0; denominator = 1 }
          else record { numerator = token - b.tokens; denominator = l.rate * second }
    ]

unfoldable pub cleanup : Limiter → ℕ → Limiter
cleanup l now = record l {
  buckets = delete_where (λ b. ltb (b.last_check + idle_threshold) now) l.buckets;
}

-- One round of `cleanupLoop`, which runs from `New` until `Close` if the rate is positive.
unfoldable pub on_tick : Limiter → ℕ → Limiter
unfolding cleanup
on_tick l now = if l.closed || leb l.rate 0 then l else cleanup l now

-- `l.once.Do(func() { close(l.done) })`
unfoldable pub close : Limiter → Limiter
close l = record l { closed = true }

unfoldable pub len : Limiter → ℕ
len l = length l.buckets
