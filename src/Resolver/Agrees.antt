-- ===== src/Resolver/Agrees.antt =====
-- `dohHandler` and `dotHandler` of cmd/dns-resolver/main.go on the same query of the same client.
use safe_road.Base.{true, false, none, some, ◌≡◌, refl, Text}
use safe_road.Domain.{ok, normalize_domain}
use safe_road.Whitelist.{is_allowed}
use safe_road.Service.{cached_result, current_feed_revision, match_threat_feed}
use safe_road.Service.Policy.{ClientInfo, group_for, override_for}
use safe_road.Service.Policy.Order.{policy_feed}
use safe_road.Resolver.{
  Wire, Question, Message, App, Resolver, HttpReply, dns_message, packed_or, question_domain,
  doh_query, dot_query, servfail, blocked_dns_message,
}

-- The replies to a query over HTTPS and over TLS: the block message to both; SERVFAIL to both
-- where no answer comes from the upstream; or the upstream's bytes over HTTPS, and over TLS the
-- message that they are, or SERVFAIL where they are none.
pub data Corresponds (a : App) (query : Message) (h : HttpReply) (m : Message) : Type 0 where
  both_blocked :
      h ≡ packed_or 500 (a.dns.pack (blocked_dns_message a query))
      → m ≡ blocked_dns_message a query
      → Corresponds a query h m
  both_failed :
      h ≡ packed_or 502 (a.dns.pack (servfail a query))
      → m ≡ servfail a query
      → Corresponds a query h m
  relayed : (w : Wire) → h ≡ dns_message w → a.dns.unpack w ≡ some m → Corresponds a query h m
  unreadable :
      (w : Wire)
      → h ≡ dns_message w
      → a.dns.unpack w ≡ none
      → m ≡ servfail a query
      → Corresponds a query h m

-- A query whose first name the threat feed matches is answered with the block message over HTTPS
-- and over TLS, and nothing is sent to the upstream server, under the conditions of the policy: the
-- client's group blocks malware, the name has a normal form that normalises to itself, and neither
-- an override nor the whitelist nor a current entry of the cache has it.
pub doh_query-feed :
    (a : App) (st : Resolver) (client : ClientInfo) (wire : Wire) (query : Message) (q : Question)
    {d : Text}
    → normalize_domain a.service.platform (question_domain q) ≡ ok d
    → override_for a.service (group_for a.service client).id d ≡ none
    → is_allowed a.service.whitelist d ≡ false
    → normalize_domain a.service.platform d ≡ ok d
    → (let c = st.state.cache in
        cached_result c (current_feed_revision a.service.settings c) d ≡ none)
    → match_threat_feed st.state.cache d ≡ true
    → (group_for a.service client).strict_malware ≡ true
    → let doh = doh_query a st client wire query q in
      let dot = dot_query a st client query q in
      (doh.0.forwarded ≡ st.forwarded)
      × (dot.0.forwarded ≡ st.forwarded)
      × (dot.1 ≡ blocked_dns_message a query)
      × (doh.1 ≡ packed_or 500 (a.dns.pack (blocked_dns_message a query)))
unfolding doh_query dot_query
doh_query-feed a st client wire query q {d} normal free w again miss m strict =
    let h =
      policy_feed a.service a.outside st.state client (question_domain q) normal free w again miss m
        strict in
    rw (h, doh_query, dot_query) (refl, refl, refl, refl)
