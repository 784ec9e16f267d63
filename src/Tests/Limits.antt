-- ===== src/Tests/Limits.antt =====
-- internal/ratelimit: five requests a minute with a burst of two.
use safe_road.Base.{
  ℕ, ◌+◌, ◌-◌, ◌*◌, ◌≤◌, ◌≢◌, ◌↔◌, Bool, true, false, some, none, List, [], ◌∷◌, ◌++◌, ◌≡◌, refl,
  arith, leb, Text, codes, get_or,
}
use safe_road.RateLimit.{Limiter, new, token, second, allow, capacity}
use safe_road.RateLimit.Trace.{
  Event, request, tick, admitted, finish, Ordered, IsPrompt, admitted-le,
}
use safe_road.RateLimit.Sweeps.{replies, without_ticks, replies-without_ticks}
use safe_road.RateLimit.Tiers.{Tier, Request, retry_after, client_ip, split_host_port}

abbrev pub slow : Limiter
slow = record { buckets = []; rate = 5; burst = 2; closed = false }

pub slow-IsPrompt : IsPrompt slow
slow-IsPrompt = omega arith

abbrev busy : List Event
busy =
    request 0 (codes "a")
    ∷ request 0 (codes "b")
    ∷ request 0 (codes "a")
    ∷ request 1_000_000_000 (codes "a")
    ∷ tick 700_000_000_000
    ∷ request 700_000_000_000 (codes "a")
    ∷ []

busy-replies : replies slow busy ≡ true ∷ true ∷ true ∷ false ∷ true ∷ []
unfolding replies allow safe_road.Base.lookup safe_road.RateLimit.Trace.step safe_road.Base.insert
    safe_road.Base.text_eq safe_road.RateLimit.on_tick safe_road.Base.delete_where
    safe_road.Base.delete
busy-replies = refl

admitted-le_example :
    admitted slow (codes "a") busy * token ≤ slow.burst * token + (finish 0 busy - 0) * slow.rate
admitted-le_example = admitted-le slow (codes "a") 0 busy slow-IsPrompt (omega arith)

replies-without_ticks_example : replies slow busy ≡ replies slow (without_ticks busy)
replies-without_ticks_example = replies-without_ticks slow 0 busy slow-IsPrompt (omega arith)

abbrev empty_bucket : Limiter
empty_bucket = record slow { buckets = (codes "a", record { tokens = 0; last_check = 0 }) ∷ [] }

twelve_seconds : retry_after (allow empty_bucket (codes "a") 0).0 (codes "a") ≡ 12
unfolding retry_after allow safe_road.RateLimit.seconds_until_next_token safe_road.Base.lookup
    safe_road.Base.text_eq safe_road.Base.insert
twelve_seconds = refl

host_ports :
    (split_host_port (codes "10.0.0.1:80") ≡ some (codes "10.0.0.1"))
    × (split_host_port (codes "[::1]:80") ≡ some (codes "::1"))
    × (split_host_port (codes "::1:80") ≡ none)
    × (split_host_port (codes "host") ≡ none)
unfolding split_host_port safe_road.Strings.contains_rune safe_road.Strings.cut
    safe_road.Base.text_eq
host_ports = (refl, refl, refl, refl)

abbrev from_proxy : Request
from_proxy = record {
  path = codes "/v1/analyze";
  forwarded_for = codes " 10.0.0.1 , 10.0.0.2";
  real_ip = [];
  remote_addr = codes "127.0.0.1:1234";
}

proxy_client : client_ip from_proxy ≡ codes "10.0.0.1"
unfolding client_ip safe_road.Base.text_eq safe_road.Strings.trim_space safe_road.Strings.cut
proxy_client = refl

abbrev health_tier : Tier
health_tier = record { path_prefix = codes "/healthz"; limiter = 0 }

abbrev analyze_tier : Tier
analyze_tier = record { path_prefix = codes "/v1/analyze"; limiter = 1 }
