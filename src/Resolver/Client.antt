-- ===== src/Resolver/Client.antt =====
-- `extractClientInfo`, `readDNSMessage` and `dohHandler` of cmd/dns-resolver/main.go: from an HTTP
-- request to the query and the client that asks it.
use safe_road.Base.{
  ℕ, Bool, not, ◌&&◌, Option, none, some, List, [], ◌∷◌, leb, ◌==◌, if◌then◌else◌, Text, text_eq,
  codes, length,
}
use safe_road.Strings.{trim_space, split, trim_left, trim_right}
use safe_road.RateLimit.Tiers.{Request, cut_last_colon}
use safe_road.Service.Policy.{ClientInfo}
use safe_road.Resolver.{Wire, App, Resolver, HttpReply, http_error, doh_query, trim_brackets}

-- `headers` are the path, the proxies' headers and the remote address; `dns` and `client_id` are
-- parameters of the query, `body` is `none` where reading it fails.
pub record DohRequest : Type 0 where
  pub headers : Request
  pub method : Text
  pub dns : Text
  pub client_id : Text
  pub body : Option Wire

-- parts[0]
abbrev pub first_of : List Text → Text
first_of [] = []
first_of (p ∷ ps) = p

-- The remote address up to the last colon.
abbrev pub before_port : Text → Text
before_port remote_addr = elim (cut_last_colon remote_addr) [
  | none ↦ remote_addr
  | some (host, port) ↦ host
]

unfoldable pub proxied_ip : Request → Text
proxied_ip r =
    let forwarded =
      if text_eq r.forwarded_for []
      then []
      else trim_space (first_of (split r.forwarded_for b',')) in
    if text_eq forwarded [] && not (text_eq r.real_ip []) then trim_space r.real_ip else forwarded

abbrev pub is_slash : ℕ → Bool
is_slash c = c == b'/'

abbrev pub id_of_parts : List Text → Text
id_of_parts [] = []
id_of_parts (p ∷ []) = if text_eq p (codes "dns-query") then [] else p
id_of_parts (p ∷ q ∷ ps) = if text_eq p (codes "dns-query") then q else []

unfoldable pub id_of_path : Text → Text
id_of_path path = id_of_parts (split (trim_right is_slash (trim_left is_slash path)) b'/')

unfoldable pub extract_client_info : DohRequest → ClientInfo
unfolding proxied_ip id_of_path
extract_client_info r =
    let proxied = proxied_ip r.headers in
    record {
      ip =
          if text_eq proxied [] then trim_brackets (before_port r.headers.remote_addr) else proxied;
      client_id = if text_eq r.client_id [] then id_of_path r.headers.path else r.client_id;
    }

-- `none` is an error; http.MaxBytesReader refuses a longer body.
unfoldable pub read_dns_message : App → DohRequest → Option Wire
read_dns_message a r =
    if text_eq r.method (codes "GET")
    then (if text_eq r.dns [] then none else a.decode_base64 r.dns)
    else if text_eq r.method (codes "POST")
    then (elim r.body [
      | none ↦ none
      | some body ↦ if leb (length body) 65535 then some body else none
    ])
    else none

unfoldable pub doh_handler : App → Resolver → DohRequest → Resolver × HttpReply
doh_handler a st r = elim (read_dns_message a r) [
  | none ↦ (st, http_error 400)
  | some wire ↦ elim (a.dns.unpack wire) [
    | none ↦ (st, http_error 400)
    | some query ↦ elim query.question [
      | [] ↦ (st, http_error 400)
      | q ∷ qs ↦ doh_query a st (extract_client_info r) wire query q
    ]
  ]
]
