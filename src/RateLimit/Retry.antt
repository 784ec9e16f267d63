-- ===== src/RateLimit/Retry.antt =====
-- The Retry-After header of internal/ratelimit/middleware.go.
use safe_road.Base.{
  ℕ, ◌+◌, ◌-◌, ◌*◌, ◌/◌, ◌≤◌, ◌<◌, false, ◌≡◌, arith, leb, Text, lookup-insert_self, ◌∙◌, ap,
}
use native.Mathlib.Nat.{div-add-mod}
use safe_road.RateLimit.{token, second, Limiter, store_bucket, allow, seconds_until_next_token}
use safe_road.RateLimit.Level.{level, allow-rate, reply-allow, allow_by_level, level-allow_self}
use safe_road.RateLimit.Tiers.{retry_after}

ceil-le-le : (a b n : ℕ) → 0 < b → (a + b - 1) / b ≤ n → a ≤ n * b
ceil-le-le a b n h k = grind (arith, div-add-mod (a + b - 1) b)

le-ceil-le : (a b n : ℕ) → 0 < b → a ≤ n * b → (a + b - 1) / b ≤ n
le-ceil-le a b n h k = grind (arith, div-add-mod (a + b - 1) b)

-- Rounding up keeps the comparison with a whole number.
ceil-le : (a b n : ℕ) → 0 < b → leb ((a + b - 1) / b) n ≡ leb a (n * b)
ceil-le a b n h = ground (arith, ceil-le-le a b n h, le-ceil-le a b n h)

-- The state and the waiting time after a refusal.
refused :
    (l : Limiter) (key : Text) (now : ℕ)
    → 0 < l.rate
    → (allow l key now).1 ≡ false
    → (level l key now < token) × ((allow l key now).0 ≡ store_bucket l key (level l key now) now)
refused l key now on no_token = ground (arith, allow_by_level l key now on)

seconds-store_bucket :
    (l : Limiter) (key : Text) (tokens now : ℕ)
    → 0 < l.rate
    → tokens < token
    → seconds_until_next_token (store_bucket l key tokens now) key
      ≡ record { numerator = token - tokens; denominator = l.rate * second }
unfolding seconds_until_next_token
seconds-store_bucket l key tokens now on few = rw lookup-insert_self (ground arith)

retry_after-le :
    (l : Limiter) (key : Text) (tokens now n : ℕ)
    → 0 < l.rate
    → tokens < token
    → leb (retry_after (store_bucket l key tokens now) key) n
      ≡ leb token (tokens + n * second * l.rate)
unfolding retry_after
retry_after-le l key tokens now n on few = rw (seconds-store_bucket l key tokens now on few) (
    grind (
      arith,
      ceil-le (token - tokens) (l.rate * second) n,
      ceil-le (token - tokens) (l.rate * second) 0,
    ))

-- After a refusal, a limiter that is on and whose burst is not 0 serves the key again, with no
-- other request of it in between, exactly from the whole second on that Retry-After names.
pub retry_after-exact :
    (l : Limiter) (key : Text) (now n : ℕ)
    → 0 < l.rate
    → 0 < l.burst
    → (allow l key now).1 ≡ false
    → (allow (allow l key now).0 key (now + n * second)).1
      ≡ leb (retry_after (allow l key now).0 key) n
retry_after-exact l key now n on burst no_token =
    let (few, after) = refused l key now on no_token in
    reply-allow (allow l key now).0 key (now + n * second) (omega (arith, allow-rate l key now))
    ∙ ground (
      arith,
      level-allow_self l key now (now + n * second) on,
      retry_after-le l key (level l key now) now n on few,
      ap (λ m. leb (retry_after m key) n) after,
    )
