-- ===== src/Resolver/Blocked.antt =====
-- The reply to a blocked query, `blockedDNSMessage` of cmd/dns-resolver/main.go.
use safe_road.Base.{
  ℕ, Bool, ◌||◌, List, [], ◌∷◌, ◌==◌, if◌then◌else◌, map, filter, Text, text_eq, codes, ◌≡◌, refl,
  ap, ◌⊎◌, inl, inr, arith, Bool-cases,
}
use safe_road.Resolver.{
  Question, Answer, Message, Dns, App, type_a, type_aaaa, name_error, refused, block_ipv4,
  block_ipv6, answers_to, block_answers, blocked_dns_message, effective_block_strategy,
}

-- What the DNS library promises of a fresh reply.
pub record IsReplying (dns : Dns) : Type 0 where
  pub no_answer : (query : Message) → (dns.set_reply query).answer ≡ []
  pub no_error : (query : Message) → (dns.set_reply query).rcode ≡ 0

abbrev pub is_address : Question → Bool
is_address q = q.qtype == type_a || q.qtype == type_aaaa

-- The answer with an address of zeros.
abbrev pub null_answer : App → Question → Answer
null_answer a q = record {
  name = q.name;
  rrtype = q.qtype;
  class = q.qclass;
  ttl = a.dns_ttl;
  data_of = 0;
}

strategy_lem :
    (a : App) {c : ℕ} {s : Text} → a.block_strategy ≡ c ∷ s → effective_block_strategy a ≡ c ∷ s
unfolding effective_block_strategy text_eq
strategy_lem a e = ap (λ t. if text_eq t [] then codes "sinkhole" else t) e

nullip_answers_to :
    (a : App) (q : Question)
    → a.block_strategy ≡ codes "nullip"
    → answers_to a q ≡ (if is_address q then null_answer a q ∷ [] else [])
unfolding answers_to block_ipv4 block_ipv6 effective_block_strategy text_eq
nullip_answers_to a q e = rw e (ground arith)

nullip_answers :
    (a : App) (qs : List Question)
    → a.block_strategy ≡ codes "nullip"
    → block_answers a qs ≡ map (null_answer a) (filter is_address qs)
unfolding block_answers filter
nullip_answers a [] e = refl
nullip_answers a (q ∷ qs) e =
    rw (nullip_answers_to a q e, nullip_answers a qs e)
      (elim (Bool-cases (is_address q)) [ inl h ↦ rw h refl | inr h ↦ rw h refl ])

-- With the strategy `nullip`, and a DNS library whose fresh replies are empty and without error, the
-- reply to a blocked query has no error and answers the address questions of the query, each with
-- its name, type and class, the configured time to live and an address of zeros, and no other.
pub blocked_dns_message-nullip :
    (a : App) (query : Message)
    → IsReplying a.dns
    → a.block_strategy ≡ codes "nullip"
    → let m = blocked_dns_message a query in
      (m.answer ≡ map (null_answer a) (filter is_address query.question)) × (m.rcode ≡ 0)
unfolding blocked_dns_message text_eq
blocked_dns_message-nullip a query d e =
    rw (strategy_lem a e, d.no_answer query, d.no_error query)
      (nullip_answers a query.question e, refl)

-- With the strategies `nxdomain` and `refused`, and a DNS library whose fresh replies are empty, the
-- reply to a blocked query carries no address: it has no answer, and its code is that of the strategy.
pub blocked_dns_message_refuses :
    (a : App) (query : Message)
    → IsReplying a.dns
    → (a.block_strategy ≡ codes "nxdomain") ⊎ (a.block_strategy ≡ codes "refused")
    → let m = blocked_dns_message a query in
      (m.answer ≡ [])
      × (m.rcode ≡ (if text_eq a.block_strategy (codes "nxdomain") then name_error else refused))
unfolding blocked_dns_message text_eq
blocked_dns_message_refuses a query d (inl e) =
    rw (strategy_lem a e) (rw (ap (λ t. text_eq t (codes "nxdomain")) e) (d.no_answer query, refl))
blocked_dns_message_refuses a query d (inr e) =
    rw (strategy_lem a e) (rw (ap (λ t. text_eq t (codes "nxdomain")) e) (d.no_answer query, refl))
