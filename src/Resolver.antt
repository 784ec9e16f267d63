-- ===== src/Resolver.antt =====
-- The handlers of cmd/dns-resolver/main.go: a query over HTTPS (`dohHandler`) or over TLS
-- (`dotHandler`) asks `Policy` and is answered by a block message or by the upstream server. The
-- DNS library, base64, net.ParseIP and the upstream are arguments, the record App; the texts of HTTP
-- errors, log lines and deadlines are left out.
pub mod Client
pub mod Blocked
pub mod Forwarding
pub mod Flow
pub mod Agrees
use safe_road.Base.{
  ℕ, zero, suc, ◌+◌, ◌*◌, ◌^◌, ◌/◌, ◌%◌, Bool, true, false, not, ◌&&◌, ◌||◌, Option, none, some,
  List, [], ◌∷◌, ◌++◌, ltb, leb, ◌==◌, if◌then◌else◌, Text, text_eq, codes, take, length,
}
use safe_road.Strings.{trim_suffix_rune, trim_left, trim_right}
use safe_road.RateLimit.{Limiter, allow}
use safe_road.RateLimit.Tiers.{split_host_port}
use safe_road.Overrides.{Action}
use safe_road.Service.{Outside}
use safe_road.Service.Policy.{Service, State, ClientInfo, policy, is_block}

-- The bytes of a message.
abbrev pub Wire : Type 0
Wire = List ℕ

pub record Question : Type 0 where
  pub name : Text
  pub qtype : ℕ
  pub qclass : ℕ

-- `data` is the address of an A or AAAA record as a number.
pub record Answer : Type 0 where
  pub name : Text
  pub rrtype : ℕ
  pub class : ℕ
  pub ttl : ℕ
  pub data_of : ℕ

pub record Message : Type 0 where
  pub id : ℕ
  pub rcode : ℕ
  pub authoritative : Bool
  pub recursion_available : Bool
  pub question : List Question
  pub answer : List Answer

-- Pack, Unpack, SetReply and SetRcode of github.com/miekg/dns.
pub record Dns : Type 0 where
  pub pack : Message → Option Wire
  pub unpack : Wire → Option Message
  pub set_reply : Message → Message
  pub set_rcode : Message → ℕ → Message

-- What the upstream server answers; the body is `none` where reading it fails.
pub record Upstream : Type 0 where
  pub status : ℕ
  pub body : Option Wire

-- `parse_ip` gives the 16 bytes of net.ParseIP as a number, `exchange` is `none` where the client
-- fails, and `url_parses` is whether the URL of the upstream makes a request.
pub record App : Type 0 where
  pub service : Service
  pub outside : Outside
  pub dns : Dns
  pub decode_base64 : Text → Option Wire
  pub parse_ip : Text → Option ℕ
  pub url_parses : Bool
  pub exchange : Wire → Option Upstream
  pub block_page_ip : Text
  pub block_strategy : Text
  pub dns_ttl : ℕ

-- `failures` counts failed exchanges where there is a registry, and `forwarded` holds what was sent
-- to the upstream, the last first.
pub record Resolver : Type 0 where
  pub state : State
  pub dot_limiter : Option Limiter
  pub failures : Option ℕ
  pub forwarded : List Wire

abbrev pub type_a : ℕ
type_a = 1

abbrev pub type_aaaa : ℕ
type_aaaa = 28

abbrev pub format_error : ℕ
format_error = 1

abbrev pub server_failure : ℕ
server_failure = 2

abbrev pub name_error : ℕ
name_error = 3

abbrev pub refused : ℕ
refused = 5

unfoldable pub valid_block_strategy : Text → Bool
valid_block_strategy strategy =
    text_eq strategy (codes "sinkhole")
    || text_eq strategy (codes "nxdomain")
    || text_eq strategy (codes "refused")
    || text_eq strategy (codes "nullip")

unfoldable pub effective_block_strategy : App → Text
effective_block_strategy a =
    if text_eq a.block_strategy [] then codes "sinkhole" else a.block_strategy

-- IP.To4: the last four bytes of an address below ::ffff:0:0/96.
unfoldable pub to4 : ℕ → Option ℕ
to4 ip = if ip / 2 ^ 32 == 0xffff then some (ip % 2 ^ 32) else none

abbrev pub to4_of : Option ℕ → Option ℕ
to4_of none = none
to4_of (some ip) = to4 ip

unfoldable pub block_ipv4 : App → Option ℕ
unfolding effective_block_strategy to4
block_ipv4 a =
    if text_eq (effective_block_strategy a) (codes "nullip")
    then some 0
    else to4_of (a.parse_ip a.block_page_ip)

unfoldable pub block_ipv6 : App → Option ℕ
unfolding effective_block_strategy
block_ipv6 a =
    if text_eq (effective_block_strategy a) (codes "nullip")
    then some 0
    else a.parse_ip a.block_page_ip

abbrev pub address_record : App → Question → Option ℕ → List Answer
address_record a q none = []
address_record a q (some ip) =
    record { name = q.name; rrtype = q.qtype; class = q.qclass; ttl = a.dns_ttl; data_of = ip } ∷ []

-- One round of the loop over the questions.
unfoldable pub answers_to : App → Question → List Answer
answers_to a q =
    if q.qtype == type_a
    then address_record a q (block_ipv4 a)
    else if q.qtype == type_aaaa
    then address_record a q (block_ipv6 a)
    else []

unfoldable pub block_answers : App → List Question → List Answer
unfolding answers_to
block_answers a [] = []
block_answers a (q ∷ qs) = answers_to a q ++ block_answers a qs

-- The error that the source returns beside the message is always nil.
unfoldable pub blocked_dns_message : App → Message → Message
blocked_dns_message a query =
    let response = record (a.dns.set_reply query) {
      authoritative = true;
      recursion_available = true;
    } in
    let strategy = effective_block_strategy a in
    if text_eq strategy (codes "nxdomain")
    then record response { rcode = name_error }
    else if text_eq strategy (codes "refused")
    then record response { rcode = refused }
    else record response { answer = response.answer ++ block_answers a query.question }

unfoldable pub servfail : App → Message → Message
servfail a query = record (a.dns.set_rcode query server_failure) { recursion_available = true }

abbrev pub limited_body : Upstream → Option Wire
limited_body u =
    if ltb u.status 200 || leb 300 u.status
    then none
    else elim u.body [ none ↦ none | some body ↦ some (take 65535 body) ]

-- The resolver after the call, and the upstream's message if there is one.
unfoldable pub forward_doh : App → Resolver → Wire → Resolver × Option Wire
forward_doh a st wire = elim a.url_parses [
  | false ↦ (st, none)
  | true ↦ (
    record st { forwarded = wire ∷ st.forwarded },
    elim (a.exchange wire) [ none ↦ none | some u ↦ limited_body u ],
  )
]

-- `a.metrics.IncCounter("upstream_doh_failures_total")`
unfoldable pub count_failure : Resolver → Resolver
count_failure st = elim st.failures [ none ↦ st | some n ↦ record st { failures = some (suc n) } ]

unfoldable pub doh_failure_count : Resolver → ℕ
doh_failure_count st = elim st.failures [ none ↦ 0 | some n ↦ n ]

unfoldable pub question_domain : Question → Text
question_domain q = trim_suffix_rune q.name b'.'

abbrev pub ask : App → Resolver → ClientInfo → Question → Resolver × Action
ask a st client q =
    let p = policy a.service a.outside st.state (question_domain q) client in
    (record st { state = p.0 }, p.1.policy)

-- What an HTTP client is sent: a message, or the status of an error.
pub data HttpReply : Type 0 where
  dns_message : Wire → HttpReply
  http_error : ℕ → HttpReply

abbrev pub packed_or : ℕ → Option Wire → HttpReply
packed_or status none = http_error status
packed_or status (some wire) = dns_message wire

unfoldable pub doh_forward : App → Resolver → Wire → Message → Resolver × HttpReply
doh_forward a st wire query =
    let (st', response) = forward_doh a st wire in
    elim response [
      | none ↦ (count_failure st', packed_or 502 (a.dns.pack (servfail a query)))
      | some w ↦ (st', dns_message w)
    ]

unfoldable pub doh_query :
    App → Resolver → ClientInfo → Wire → Message → Question → Resolver × HttpReply
doh_query a st client wire query q =
    let (st', action) = ask a st client q in
    elim (is_block action) [
      | true ↦ (st', packed_or 500 (a.dns.pack (blocked_dns_message a query)))
      | false ↦ doh_forward a st' wire query
    ]

unfoldable pub dot_forward : App → Resolver → Message → Resolver × Message
dot_forward a st query = elim (a.dns.pack query) [
  | none ↦ (st, servfail a query)
  | some wire ↦
      let (st', response) = forward_doh a st wire in
      elim response [
        | none ↦ (count_failure st', servfail a query)
        | some w ↦ elim (a.dns.unpack w) [
          | none ↦ (st', servfail a query)
          | some message ↦ (st', message)
        ]
      ]
]

unfoldable pub dot_query : App → Resolver → ClientInfo → Message → Question → Resolver × Message
dot_query a st client query q =
    let (st', action) = ask a st client q in
    elim (is_block action) [
      | true ↦ (st', blocked_dns_message a query)
      | false ↦ dot_forward a st' query
    ]

-- `a.dotLimiter != nil && !a.dotLimiter.Allow(clientIP)`, negated
unfoldable pub admit : Resolver → Text → ℕ → Resolver × Bool
admit st ip now = elim st.dot_limiter [
  | none ↦ (st, true)
  | some l ↦ let result = allow l ip now in (record st { dot_limiter = some result.0 }, result.1)
]

abbrev pub is_bracket : ℕ → Bool
is_bracket c = c == b'[' || c == b']'

-- strings.Trim(s, "[]")
unfoldable pub trim_brackets : Text → Text
unfolding trim_left trim_right
trim_brackets s = trim_right is_bracket (trim_left is_bracket s)

unfoldable pub dot_client_ip : Text → Text
unfolding split_host_port trim_brackets
dot_client_ip remote_addr =
    trim_brackets (elim (split_host_port remote_addr) [ none ↦ remote_addr | some host ↦ host ])

-- The query is decided by the first of its questions.
unfoldable pub dot_questions :
    App → Resolver → ClientInfo → Message → List Question → Resolver × Message
dot_questions a st client query [] = (st, a.dns.set_rcode query format_error)
dot_questions a st client query (q ∷ qs) = dot_query a st client query q

abbrev pub dot_client : Text → ClientInfo
dot_client remote_addr = record { ip = dot_client_ip remote_addr; client_id = [] }

unfoldable pub dot_handler : App → Resolver → Text → Message → ℕ → Resolver × Message
dot_handler a st remote_addr query now =
    let (st', admitted) = admit st (dot_client_ip remote_addr) now in
    elim admitted [
      | false ↦ (st', a.dns.set_rcode query refused)
      | true ↦ dot_questions a st' (dot_client remote_addr) query query.question
    ]
