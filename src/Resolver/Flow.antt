-- ===== src/Resolver/Flow.antt =====
-- The limiter of internal/ratelimit/limiter.go in front of `dotHandler` of
-- cmd/dns-resolver/main.go, over runs of queries from any clients.
use safe_road.Base.{
  ℕ, ◌+◌, ◌-◌, ◌*◌, ◌≤◌, some, List, [], ◌∷◌, map, length, ◌≡◌, refl, ◌∙◌, inl, inr, Bool-cases,
  Option-cases, arith, if◌then◌else◌, Text, text_eq,
}
use safe_road.RateLimit.{token, Limiter, allow}
use safe_road.RateLimit.Trace.{
  Event, request, step, served, admitted, Ordered, finish, IsPrompt, admitted-le,
}
use safe_road.Resolver.{
  Message, App, Resolver, Wire, Question, admit, ask, forward_doh, count_failure, dot_handler,
  dot_client, dot_client_ip, dot_query, dot_questions, dot_forward,
}
use safe_road.Service.Policy.{ClientInfo}
use safe_road.Resolver.Forwarding.{Action-cases, action_on, dot_handler-forwarded}

pub record Arrival : Type 0 where
  pub remote_addr : Text
  pub query : Message
  pub now : ℕ

abbrev pub request_of : Arrival → Event
request_of e = request e.now (dot_client_ip e.remote_addr)

-- How many messages the queries of one address send to the upstream server.
unfoldable pub forwarded_for : App → Resolver → Text → List Arrival → ℕ
forwarded_for a st ip [] = 0
forwarded_for a st ip (e ∷ es) =
    let st' = (dot_handler a st e.remote_addr e.query e.now).0 in
    let sent = length st'.forwarded - length st.forwarded in
    (if text_eq (dot_client_ip e.remote_addr) ip then sent else 0) + forwarded_for a st' ip es

limiter-forward_doh :
    (a : App) (st : Resolver) (wire : Wire) → (forward_doh a st wire).0.dot_limiter ≡ st.dot_limiter
unfolding forward_doh
limiter-forward_doh a st wire = ground arith

limiter-dot_forward :
    (a : App) (st : Resolver) (query : Message)
    → (dot_forward a st query).0.dot_limiter ≡ st.dot_limiter
unfolding dot_forward count_failure
limiter-dot_forward a st query = elim (Option-cases (a.dns.pack query)) [
  | inl h ↦ rw (h, dot_forward) refl
  | inr (wire, h) ↦ rw (h, dot_forward) (ground (arith, limiter-forward_doh a st wire))
]

limiter-dot_questions :
    (a : App) (st : Resolver) (client : ClientInfo) (query : Message) (qs : List Question)
    → (dot_questions a st client query qs).0.dot_limiter ≡ st.dot_limiter
unfolding dot_questions dot_query
limiter-dot_questions a st client query [] = refl
limiter-dot_questions a st client query (q ∷ qs) = elim (Action-cases (action_on a st client q)) [
  | inl h ↦ rw (h, dot_query) (limiter-dot_forward a (ask a st client q).0 query)
  | inr h ↦ rw (h, dot_query) refl
]

limiter-dot_handler :
    (a : App) (st : Resolver) (e : Arrival)
    → (dot_handler a st e.remote_addr e.query e.now).0.dot_limiter
      ≡ (admit st (dot_client_ip e.remote_addr) e.now).0.dot_limiter
unfolding dot_handler
limiter-dot_handler a st e =
    let ip = dot_client_ip e.remote_addr in
    let st' = (admit st ip e.now).0 in
    elim (Bool-cases (admit st ip e.now).1) [
      | inr h ↦ rw (h, dot_handler) refl
      | inl h ↦
          rw (h, dot_handler)
            (limiter-dot_questions a st' (dot_client e.remote_addr) e.query e.query.question)
    ]

admit-allow :
    (st : Resolver) (ip : Text) (now : ℕ) {l : Limiter}
    → st.dot_limiter ≡ some l
    → ((admit st ip now).0.dot_limiter ≡ some (allow l ip now).0)
      × ((admit st ip now).1 ≡ (allow l ip now).1)
unfolding admit
admit-allow st ip now h = rw (h, admit) (refl, refl)

-- One query sends at most one message, and none that the limiter does not serve.
sent-le :
    (a : App) (st : Resolver) (e : Arrival)
    → length (dot_handler a st e.remote_addr e.query e.now).0.forwarded - length st.forwarded
      ≤ (if (admit st (dot_client_ip e.remote_addr) e.now).1 then 1 else 0)
sent-le a st e = elim (dot_handler-forwarded a st e.remote_addr e.query e.now) [
  | inl same ↦ rw same (omega arith)
  | inr (wire, q, qs, packed, admitted, n, may, sent) ↦ rw (sent, admitted) (omega arith)
]

forwarded_for-le-admitted :
    (a : App) (st : Resolver) (ip : Text) (es : List Arrival) {l : Limiter}
    → st.dot_limiter ≡ some l
    → forwarded_for a st ip es ≤ admitted l ip (map request_of es)
unfolding forwarded_for admitted served step
forwarded_for-le-admitted a st ip [] h = omega arith
forwarded_for-le-admitted a st ip (e ∷ es) {l} h =
    let (rest, same) = admit-allow st (dot_client_ip e.remote_addr) e.now h in
    let st' = (dot_handler a st e.remote_addr e.query e.now).0 in
    let ih = forwarded_for-le-admitted a st' ip es (limiter-dot_handler a st e ∙ rest) in
    ground (arith, ih, same, sent-le a st e)

-- However the queries of any clients interleave, if the limiter for DNS over TLS is on and refills
-- in ten minutes, what the queries of one address send to the upstream server between two times is
-- at most the burst and what the rate adds in between, counted in tokens.
pub forwarded_for-le :
    (a : App) (st : Resolver) (ip : Text) (now : ℕ) (es : List Arrival) {l : Limiter}
    → st.dot_limiter ≡ some l
    → IsPrompt l
    → Ordered now (map request_of es)
    → forwarded_for a st ip es * token
      ≤ l.burst * token + (finish now (map request_of es) - now) * l.rate
forwarded_for-le a st ip now es {l} h p o =
    let few = forwarded_for-le-admitted a st ip es h in
    let bound = admitted-le l ip now (map request_of es) p o in omega (arith, few, bound)
