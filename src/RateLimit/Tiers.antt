-- ===== src/RateLimit/Tiers.antt =====
-- internal/ratelimit/middleware.go: the limiter of a path, the client's address and the reply to a
-- request. Limiters are shared by pointer, so they stand in a store and tiers hold their numbers.
use safe_road.Base.{
  ℕ, ◌+◌, ◌-◌, ◌/◌, Bool, true, false, ◌&&◌, ◌||◌, not, Option, none, some, List, [], ◌∷◌, ◌++◌,
  ltb, ◌==◌, if◌then◌else◌, Text, text_eq, get_or, set,
}
use safe_road.Strings.{has_prefix, trim_space, cut, contains_rune}
use safe_road.RateLimit.{Limiter, Seconds, allow, seconds_until_next_token}

pub record Tier : Type 0 where
  pub path_prefix : Text
  pub limiter : ℕ

pub record TieredMiddleware : Type 0 where
  pub tiers : List Tier
  pub fallback : ℕ

unfoldable pub limiter_in : List Tier → ℕ → Text → ℕ
limiter_in [] fallback path = fallback
limiter_in (t ∷ ts) fallback path =
    if has_prefix path t.path_prefix then t.limiter else limiter_in ts fallback path

unfoldable pub limiter_for : TieredMiddleware → Text → ℕ
unfolding limiter_in
limiter_for tm path = limiter_in tm.tiers tm.fallback path

pub record Request : Type 0 where
  pub path : Text
  pub forwarded_for : Text
  pub real_ip : Text
  pub remote_addr : Text

-- What stands before and behind the last colon.
abbrev cut_last_at : ℕ → Text → Option (Text × Text) → Option (Text × Text)
cut_last_at c s none = if c == b':' then some ([], s) else none
cut_last_at c s (some (before, after)) = some (c ∷ before, after)

unfoldable pub cut_last_colon : Text → Option (Text × Text)
cut_last_colon [] = none
cut_last_colon (c ∷ s) = cut_last_at c s (cut_last_colon s)

-- The address of a bracketed host: the text must be `[host]:port`.
abbrev bracketed : Text → Text → Option Text
bracketed rest port = elim (cut rest b']') [
  | none ↦ none
  | some (host, after) ↦
      if contains_rune host b'[' || contains_rune after b'[' || contains_rune after b']'
      then none
      else if text_eq after (b':' ∷ port)
      then some host
      else none
]

-- net.SplitHostPort without the port; `none` is its error.
unfoldable pub split_host_port : Text → Option Text
unfolding cut_last_colon
split_host_port s = elim (cut_last_colon s) [
  | none ↦ none
  | some ([], port) ↦ if contains_rune port b'[' || contains_rune port b']' then none else some []
  | some (c ∷ host, port) ↦
      if c == b'['
      then bracketed (host ++ b':' ∷ port) port
      else if contains_rune (c ∷ host) b':'
          || contains_rune host b'['
          || contains_rune port b'['
          || contains_rune (c ∷ host) b']'
          || contains_rune port b']'
      then none
      else some (c ∷ host)
]

-- `xff[:idx]` up to the first comma.
abbrev first_of_list : Text → Text
first_of_list s = elim (cut s b',') [ none ↦ s | some (before, after) ↦ before ]

unfoldable pub client_ip : Request → Text
unfolding split_host_port
client_ip r =
    let forwarded = trim_space (first_of_list r.forwarded_for) in
    let real = trim_space r.real_ip in
    let remote : Text = elim (split_host_port r.remote_addr) [
      | none ↦ r.remote_addr
      | some host ↦ host
    ] in
    if not (text_eq r.forwarded_for []) && not (text_eq forwarded [])
    then forwarded
    else if not (text_eq r.real_ip []) && not (text_eq real [])
    then real
    else remote

-- math.Ceil of the fraction.
unfoldable pub ceil : Seconds → ℕ
ceil s = (s.numerator + s.denominator - 1) / s.denominator

unfoldable pub retry_after : Limiter → Text → ℕ
unfolding ceil
retry_after l ip = let secs = ceil (seconds_until_next_token l ip) in if ltb secs 1 then 1 else secs

-- `too_many secs` is the 429 response with its Retry-After header.
pub data Response : Type 0 where
  next : Response
  too_many : ℕ → Response

-- A limiter that the store lacks is a nil pointer, which allows everything.
abbrev pub disabled : Limiter
disabled = record { buckets = []; rate = 0; burst = 0; closed = false }

abbrev pub respond : Limiter × Bool → Text → Response
respond (l, true) ip = next
respond (l, false) ip = too_many (retry_after l ip)

-- One request through the handler that `Wrap` returns: the store after it, and the response.
unfoldable pub wrap : TieredMiddleware → List Limiter → Request → ℕ → List Limiter × Response
unfolding limiter_for client_ip retry_after
wrap tm limiters r now =
    let i = limiter_for tm r.path in
    let ip = client_ip r in
    let result = allow (get_or limiters i disabled) ip now in
    (set limiters i result.0, respond result ip)
