-- ===== src/RateLimit/Level.antt =====
-- The abstract view of the limiter of internal/ratelimit/limiter.go: how many tokens a key could
-- spend at a time. The operations are described by what they do to it.
use safe_road.Base.{
  ℕ, ◌+◌, ◌-◌, ◌*◌, ◌≤◌, ◌<◌, min, true, false, Option, none, some, ◌≡◌, refl, arith, ltb, leb,
  if◌then◌else◌, Text, lookup, keep, text_eq, lookup-insert, lookup-delete_where, text_eq_refl,
}
use safe_road.RateLimit.{
  token, idle_threshold, Bucket, Limiter, capacity, bucket_at, refill, allow, store_bucket, cleanup,
  on_tick,
}

-- The tokens of a stored or absent bucket at a time.
abbrev tokens_at : ℕ → ℕ → ℕ → Option Bucket → ℕ
tokens_at cap rate now none = cap
tokens_at cap rate now (some b) = min (b.tokens + (now - b.last_check) * rate) cap

unfoldable pub level : Limiter → Text → ℕ → ℕ
level l key now = tokens_at (capacity l) l.rate now (lookup key l.buckets)

-- No bucket was last used after the time.
pub record IsPast (l : Limiter) (now : ℕ) : Type 0 where
  pub before : (key : Text) (b : Bucket) → lookup key l.buckets ≡ some b → b.last_check ≤ now

pub level-le-capacity : (l : Limiter) (key : Text) (now : ℕ) → level l key now ≤ capacity l
unfolding level
level-le-capacity l key now = ground arith

pub refill-eq-level :
    (l : Limiter) (key : Text) (now : ℕ) → refill l (bucket_at l key now) now ≡ level l key now
unfolding level refill bucket_at
refill-eq-level l key now = ground arith

-- A limiter that is on answers by the level.
pub allow_by_level :
    (l : Limiter) (key : Text) (now : ℕ)
    → 0 < l.rate
    → allow l key now ≡ (
        if ltb (level l key now) token
        then (store_bucket l key (level l key now) now, false)
        else (store_bucket l key (level l key now - token) now, true))
unfolding allow
allow_by_level l key now h = ground (arith, refill-eq-level l key now)

abbrev pub spent : ℕ → ℕ
spent amount = if ltb amount token then 0 else token

store_bucket-level :
    (l : Limiter) (key : Text) (tokens now t : ℕ)
    → level (store_bucket l key tokens now) key t ≡ min (tokens + (t - now) * l.rate) (capacity l)
unfolding level
store_bucket-level l key tokens now t = simp (lookup-insert, text_eq_refl)

store_bucket-level_ne :
    (l : Limiter) (key j : Text) (tokens now t : ℕ)
    → text_eq key j ≡ false
    → level (store_bucket l key tokens now) j t ≡ level l j t
unfolding level
store_bucket-level_ne l key j tokens now t h = simp (lookup-insert, h)

pub allow-rate :
    (l : Limiter) (key : Text) (now : ℕ)
    → ((allow l key now).0.rate ≡ l.rate)
      × ((allow l key now).0.burst ≡ l.burst)
      × ((allow l key now).0.closed ≡ l.closed)
unfolding allow
allow-rate l key now = ground arith

-- A key is served exactly when a whole token is there.
pub reply-allow :
    (l : Limiter) (key : Text) (now : ℕ)
    → 0 < l.rate
    → (allow l key now).1 ≡ leb token (level l key now)
reply-allow l key now h = rw (allow_by_level l key now h) (ground arith)

pub level-allow_self :
    (l : Limiter) (key : Text) (now t : ℕ)
    → 0 < l.rate
    → level (allow l key now).0 key t
      ≡ min (level l key now - spent (level l key now) + (t - now) * l.rate) (capacity l)
level-allow_self l key now t h = rw (allow_by_level l key now h) (
    ground (
      arith,
      store_bucket-level l key (level l key now) now t,
      store_bucket-level l key (level l key now - token) now t,
    ))

pub level-allow_ne :
    (l : Limiter) (key j : Text) (now t : ℕ)
    → 0 < l.rate
    → text_eq key j ≡ false
    → level (allow l key now).0 j t ≡ level l j t
level-allow_ne l key j now t h e = rw (allow_by_level l key now h) (
    ground (
      arith,
      store_bucket-level_ne l key j (level l key now) now t e,
      store_bucket-level_ne l key j (level l key now - token) now t e,
    ))

refills_idle : (d rate cap : ℕ) → cap ≤ idle_threshold * rate → idle_threshold ≤ d → cap ≤ d * rate
refills_idle d rate cap h k = grind arith

-- Where ten minutes refill a bucket, dropping the idle ones shows in no level.
pub level-cleanup :
    (l : Limiter) (key : Text) (now t : ℕ)
    → capacity l ≤ idle_threshold * l.rate
    → now ≤ t
    → level (cleanup l now) key t ≡ level l key t
unfolding level cleanup
level-cleanup l key now t h le =
    rw (lookup-delete_where _ key l.buckets) (go (lookup key l.buckets))
  where
    go :
        (o : Option Bucket)
        → tokens_at (capacity l) l.rate t (keep (λ b. ltb (b.last_check + idle_threshold) now) o)
          ≡ tokens_at (capacity l) l.rate t o
    go none = refl
    go (some b) = ground (arith, refills_idle (t - b.last_check) l.rate (capacity l) h)

pub level-on_tick :
    (l : Limiter) (key : Text) (now t : ℕ)
    → capacity l ≤ idle_threshold * l.rate
    → now ≤ t
    → level (on_tick l now) key t ≡ level l key t
unfolding on_tick
level-on_tick l key now t h le = ground (arith, level-cleanup l key now t h le)

elapsed : (a b c r : ℕ) → (c - a) * r ≤ (b - a) * r + (c - b) * r
elapsed a b c r = grind (arith, mul_mono (c - a) (b - a + (c - b)) r (omega arith))
  where
    mul_mono : (x y z : ℕ) → x ≤ y → x * z ≤ y * z
    mul_mono x y z h = grind arith

-- A level rises by at most the rate.
pub level_rises :
    (l : Limiter) (key : Text) (now t : ℕ) → level l key t ≤ level l key now + (t - now) * l.rate
unfolding level
level_rises l key now t = go (lookup key l.buckets)
  where
    go :
        (o : Option Bucket)
        → tokens_at (capacity l) l.rate t o
          ≤ tokens_at (capacity l) l.rate now o + (t - now) * l.rate
    go none = omega arith
    go (some b) = omega (arith, elapsed b.last_check now t l.rate)
