-- ===== src/RateLimit/Paths.antt =====
-- Which limiter a request of internal/ratelimit/middleware.go spends, and when it is let through.
use safe_road.Base.{
  ℕ, zero, suc, ◌≤◌, ◌<◌, Bool, true, false, List, [], ◌∷◌, ◌++◌, ◌≡◌, ◌≢◌, ◌↔◌, refl, arith, Text,
  get_or, set, ap, leb→le, le→leb, sym, ◌∙◌,
}
use safe_road.Strings.{has_prefix}
use safe_road.RateLimit.{token, Limiter, allow}
use safe_road.RateLimit.Level.{level, reply-allow}
use safe_road.RateLimit.Tiers.{
  Tier, TieredMiddleware, Request, next, disabled, respond, limiter_in, limiter_for, client_ip,
  wrap,
}

abbrev NoneMatches : Text → List Tier → Type 0
NoneMatches path [] = Unit {0}
NoneMatches path (t ∷ ts) = (has_prefix path t.path_prefix ≡ false) × NoneMatches path ts

-- The first tier whose prefix the path has decides.
pub limiter_in-append :
    (before after : List Tier) (t : Tier) (fallback : ℕ) (path : Text)
    → NoneMatches path before
    → has_prefix path t.path_prefix ≡ true
    → limiter_in (before ++ t ∷ after) fallback path ≡ t.limiter
unfolding limiter_in
limiter_in-append [] after t fallback path h e = rw e
limiter_in-append (b ∷ before) after t fallback path h e =
    rw h.0 (limiter_in-append before after t fallback path h.1 e)

get_or-set_ne {ℓ} :
    {A : Type ℓ} (xs : List A) (i j : ℕ) (v d : A) → i ≢ j → get_or (set xs i v) j d ≡ get_or xs j d
get_or-set_ne [] i j v d h = refl
get_or-set_ne (x ∷ xs) zero zero v d h = absurd (h refl)
get_or-set_ne (x ∷ xs) zero (suc j) v d h = refl
get_or-set_ne (x ∷ xs) (suc i) zero v d h = refl
get_or-set_ne (x ∷ xs) (suc i) (suc j) v d h = get_or-set_ne xs i j v d (λ e. h (ap suc e))

respond-next : (r : Limiter × Bool) (ip : Text) → (respond r ip ≡ next) ↔ (r.1 ≡ true)
respond-next (l, true) ip = ground arith
respond-next (l, false) ip = ground arith

-- Where the limiter of the first tier that matches the path is on, a request is let through exactly
-- if the client's address has a whole token there, and no other limiter of the store changes.
pub wrap_first_tier :
    (before after : List Tier) (t : Tier) (fallback : ℕ) (limiters : List Limiter) (r : Request)
    (now : ℕ)
    → NoneMatches r.path before
    → has_prefix r.path t.path_prefix ≡ true
    → 0 < (get_or limiters t.limiter disabled).rate
    → let tm : TieredMiddleware = record { tiers = before ++ t ∷ after; fallback = fallback } in
      (((wrap tm limiters r now).1 ≡ next)
        ↔ (token ≤ level (get_or limiters t.limiter disabled) (client_ip r) now))
      × ((j : ℕ)
          → t.limiter ≢ j
          → get_or (wrap tm limiters r now).0 j disabled ≡ get_or limiters j disabled)
unfolding wrap limiter_for
wrap_first_tier before after t fallback limiters r now h e on =
    rw (limiter_in-append before after t fallback r.path h e) (
      let l = get_or limiters t.limiter disabled in
          let ip = client_ip r in
          let iff = respond-next (allow l ip now) ip in
          let reply = reply-allow l ip now on in
          (
            λ x. leb→le token (level l ip now) (sym reply ∙ iff.0 x),
            λ x. iff.1 (reply ∙ le→leb token (level l ip now) x),
          ),
      λ j ne.
          get_or-set_ne limiters t.limiter j
            (allow (get_or limiters t.limiter disabled) (client_ip r) now).0 disabled ne,
    )
