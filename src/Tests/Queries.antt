-- ===== src/Tests/Queries.antt =====
-- cmd/dns-resolver: a query for a domain of the threat feed, and one for another.
use safe_road.Base.{
  ℕ, ◌+◌, ◌-◌, ◌*◌, ◌≤◌, Bool, true, false, Option, some, none, List, [], ◌∷◌, ◌++◌, ◌≡◌, ◌⊎◌, refl,
  arith, Text, codes, map, filter,
}
use safe_road.Overrides.{allow}
use safe_road.RateLimit.{token}
use safe_road.RateLimit.Trace.{finish}
use safe_road.RateLimit.Tiers.{Request}
use safe_road.Resolver.{
  Wire, Question, Message, Dns, App, Resolver, type_a, type_aaaa, packed_or, admit, doh_query,
  dot_query, dot_handler, dot_client, dot_client_ip, blocked_dns_message,
}
use safe_road.Resolver.Client.{DohRequest, extract_client_info, read_dns_message, doh_handler}
use safe_road.Resolver.Blocked.{IsReplying, null_answer, is_address, blocked_dns_message-nullip}
use safe_road.Resolver.Forwarding.{action_on, doh_handler-forwarded, dot_handler-forwarded}
use safe_road.Resolver.Flow.{Arrival, request_of, forwarded_for, forwarded_for-le}
use safe_road.Resolver.Agrees.{doh_query-feed}
use safe_road.Tests.Decisions.{
  service, quiet, fresh, laptop, evil_normal, evil_matches, evil_uncached, evil_free, evil_listed,
  evil_strict,
}
use safe_road.Tests.Limits.{slow, slow-IsPrompt}

abbrev evil_question : Question
evil_question = record { name = codes "a.evil.vn."; qtype = type_a; qclass = 1 }

abbrev evil_query : Message
evil_query = record {
  id = 7;
  rcode = 0;
  authoritative = false;
  recursion_available = false;
  question = evil_question ∷ record evil_question { qtype = 16 } ∷ [];
  answer = [];
}

-- A message packs to its code and its number; the bytes unpack to the query.
abbrev dns : Dns
dns = record {
  pack = λ m. some (m.id ∷ m.rcode ∷ []);
  unpack = λ w. some evil_query;
  set_reply = λ m. record m { rcode = 0; answer = [] };
  set_rcode = λ m code. record m { rcode = code; answer = [] };
}

dns-IsReplying : IsReplying dns
dns-IsReplying = record { no_answer = λ m. refl; no_error = λ m. refl }

abbrev app : App
app = record {
  service = service;
  outside = quiet;
  dns = dns;
  decode_base64 = λ t. some t;
  parse_ip = λ t. some 0xffff_7f00_0001;
  url_parses = true;
  exchange = λ w. some (record { status = 200; body = some (9 ∷ []) });
  block_page_ip = codes "127.0.0.1";
  block_strategy = codes "nullip";
  dns_ttl = 60;
}

abbrev resolver : Resolver
resolver = record { state = fresh; dot_limiter = some slow; failures = some 0; forwarded = [] }

blocked_dns_message-nullip_example :
    let m = blocked_dns_message app evil_query in
    (m.answer ≡ map (null_answer app) (filter is_address evil_query.question)) × (m.rcode ≡ 0)
blocked_dns_message-nullip_example = blocked_dns_message-nullip app evil_query dns-IsReplying refl

doh_query-feed_example :
    let doh = doh_query app resolver laptop (7 ∷ 0 ∷ []) evil_query evil_question in
    let dot = dot_query app resolver laptop evil_query evil_question in
    (doh.0.forwarded ≡ [])
    × (dot.0.forwarded ≡ [])
    × (dot.1 ≡ blocked_dns_message app evil_query)
    × (doh.1 ≡ packed_or 500 (dns.pack (blocked_dns_message app evil_query)))
unfolding safe_road.Resolver.question_domain safe_road.Strings.trim_suffix_rune
doh_query-feed_example =
    doh_query-feed app resolver laptop (7 ∷ 0 ∷ []) evil_query evil_question evil_normal evil_free
      evil_listed evil_normal evil_uncached evil_matches evil_strict

abbrev get_request : DohRequest
get_request = record {
  headers = record {
    path = codes "/dns-query/tablet";
    forwarded_for = [];
    real_ip = [];
    remote_addr = codes "10.0.0.9:4711";
  };
  method = codes "GET";
  dns = codes "AAAA";
  client_id = [];
  body = none;
}

tablet_client : (extract_client_info get_request).ip ≡ codes "10.0.0.9"
unfolding extract_client_info safe_road.Base.text_eq safe_road.Resolver.trim_brackets
    safe_road.RateLimit.Tiers.cut_last_colon
tablet_client = refl

tablet_id : (extract_client_info get_request).client_id ≡ codes "tablet"
unfolding extract_client_info safe_road.Base.text_eq safe_road.Strings.split
    safe_road.Strings.trim_right safe_road.Strings.trim_left
tablet_id = refl

doh_handler-forwarded_example :
    let st' = (doh_handler app resolver get_request).0 in
    (st'.forwarded ≡ [])
    ⊎ ((wire : Wire) × (query : Message) × (q : Question) × (qs : List Question) × (read_dns_message
            app get_request
          ≡ some wire)
        × (dns.unpack wire ≡ some query)
        × (query.question ≡ q ∷ qs)
        × (action_on app resolver (extract_client_info get_request) q ≡ allow)
        × (st'.forwarded ≡ wire ∷ []))
doh_handler-forwarded_example = doh_handler-forwarded app resolver get_request

dot_handler-forwarded_example :
    let st' = (dot_handler app resolver (codes "10.0.0.9:4711") evil_query 5).0 in
    (st'.forwarded ≡ [])
    ⊎ ((wire : Wire) × (q : Question) × (qs : List Question) × (dns.pack evil_query ≡ some wire)
        × ((admit resolver (dot_client_ip (codes "10.0.0.9:4711")) 5).1 ≡ true)
        × (evil_query.question ≡ q ∷ qs)
        × (action_on app resolver (dot_client (codes "10.0.0.9:4711")) q ≡ allow)
        × (st'.forwarded ≡ wire ∷ []))
dot_handler-forwarded_example =
    dot_handler-forwarded app resolver (codes "10.0.0.9:4711") evil_query 5

abbrev arrivals : List Arrival
arrivals =
    record { remote_addr = codes "10.0.0.9:4711"; query = evil_query; now = 0 }
    ∷ record { remote_addr = codes "10.0.0.8:80"; query = evil_query; now = 1_000_000_000 }
    ∷ []

forwarded_for-le_example :
    forwarded_for app resolver (codes "10.0.0.9") arrivals * token
    ≤ slow.burst * token + (finish 0 (map request_of arrivals) - 0) * slow.rate
forwarded_for-le_example =
    forwarded_for-le app resolver (codes "10.0.0.9") 0 arrivals refl slow-IsPrompt (omega arith)
