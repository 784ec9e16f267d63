-- ===== src/Resolver/Forwarding.antt =====
-- What the handlers of cmd/dns-resolver/main.go send to the upstream server.
use safe_road.Base.{
  ℕ, true, some, List, [], ◌∷◌, ◌≡◌, refl, ◌⊎◌, inl, inr, Bool-cases, Option-cases, List-cases, sym,
  Text, ap, ◌∙◌, arith,
}
use safe_road.Overrides.{Action, allow, block}
use safe_road.Service.Policy.{ClientInfo, policy}
use safe_road.Resolver.{
  Wire, Question, Message, App, Resolver, ask, admit, question_domain, forward_doh, count_failure,
  doh_forward, doh_query, dot_forward, dot_query, dot_handler, dot_client_ip, dot_client,
  dot_questions,
}
use safe_road.Resolver.Client.{DohRequest, extract_client_info, read_dns_message, doh_handler}

-- The action of `Policy` on the name of a question.
abbrev pub action_on : App → Resolver → ClientInfo → Question → Action
action_on a st client q = (policy a.service a.outside st.state (question_domain q) client).1.policy

-- Nothing is sent, or the action is to allow and one message is.
abbrev pub Sends : Resolver → Resolver → Action → Wire → Type 0
Sends st st' action wire =
    (st'.forwarded ≡ st.forwarded) ⊎ ((action ≡ allow) × (st'.forwarded ≡ wire ∷ st.forwarded))

forwarded-count_failure : (st : Resolver) → (count_failure st).forwarded ≡ st.forwarded
unfolding count_failure
forwarded-count_failure st = ground arith

abbrev Forwards : Resolver → Resolver → Wire → Type 0
Forwards st st' wire = (st'.forwarded ≡ st.forwarded) ⊎ (st'.forwarded ≡ wire ∷ st.forwarded)

forwarded-forward_doh :
    (a : App) (st : Resolver) (wire : Wire) → Forwards st (forward_doh a st wire).0 wire
unfolding forward_doh
forwarded-forward_doh a st wire = elim (Bool-cases a.url_parses) [
  | inl h ↦ rw h (inr refl)
  | inr h ↦ rw h (inl refl)
]

forwarded-doh_forward :
    (a : App) (st : Resolver) (wire : Wire) (query : Message)
    → Forwards st (doh_forward a st wire query).0 wire
unfolding doh_forward
forwarded-doh_forward a st wire query =
    ground
      (arith, forwarded-forward_doh a st wire, forwarded-count_failure (forward_doh a st wire).0)

pub Action-cases : (action : Action) → (action ≡ allow) ⊎ (action ≡ block)
Action-cases allow = inl refl
Action-cases block = inr refl

pub doh_query-forwarded :
    (a : App) (st : Resolver) (client : ClientInfo) (wire : Wire) (query : Message) (q : Question)
    → Sends st (doh_query a st client wire query q).0 (action_on a st client q) wire
unfolding doh_query
doh_query-forwarded a st client wire query q = elim (Action-cases (action_on a st client q)) [
  | inr h ↦ rw (h, doh_query) (inl refl)
  | inl h ↦
      rw (h, doh_query)
        (elim (forwarded-doh_forward a (ask a st client q).0 wire query) [
          | inl same ↦ inl same
          | inr sent ↦ inr (refl, sent)
        ])
]

-- What the handler over TLS may have sent: the packed query.
abbrev pub Packs : App → Resolver → Resolver → Message → Action → Type 0
Packs a st st' query action =
    (st'.forwarded ≡ st.forwarded)
    ⊎ ((wire : Wire) × (a.dns.pack query ≡ some wire)
        × (action ≡ allow)
        × (st'.forwarded ≡ wire ∷ st.forwarded))

forwarded-dot_exchange :
    (a : App) (st : Resolver) (query : Message) (wire : Wire)
    → a.dns.pack query ≡ some wire
    → Forwards st (dot_forward a st query).0 wire
unfolding dot_forward
forwarded-dot_exchange a st query wire e =
    rw (e, dot_forward)
      (ground
        (arith, forwarded-forward_doh a st wire, forwarded-count_failure (forward_doh a st wire).0))

forwarded-dot_forward :
    (a : App) (st : Resolver) (query : Message) → Packs a st (dot_forward a st query).0 query allow
unfolding dot_forward
forwarded-dot_forward a st query = elim (Option-cases (a.dns.pack query)) [
  | inl h ↦ inl (rw (h, dot_forward) refl)
  | inr (wire, h) ↦ elim (forwarded-dot_exchange a st query wire h) [
    | inl same ↦ inl same
    | inr sent ↦ inr (wire, h, refl, sent)
  ]
]

pub dot_query-forwarded :
    (a : App) (st : Resolver) (client : ClientInfo) (query : Message) (q : Question)
    → Packs a st (dot_query a st client query q).0 query (action_on a st client q)
unfolding dot_query
dot_query-forwarded a st client query q = elim (Action-cases (action_on a st client q)) [
  | inr h ↦ rw (h, dot_query) (inl refl)
  | inl h ↦ rw (h, dot_query) (forwarded-dot_forward a (ask a st client q).0 query)
]

-- `dohHandler` sends at most one message to the upstream server: the message that the request holds,
-- and only where that unpacks to a query with a question for whose first name `Policy` says to allow
-- it to the client of the request.
pub doh_handler-forwarded :
    (a : App) (st : Resolver) (r : DohRequest)
    → let st' = (doh_handler a st r).0 in
      (st'.forwarded ≡ st.forwarded)
      ⊎ ((wire : Wire) × (query : Message) × (q : Question) × (qs : List Question)
          × (read_dns_message a r ≡ some wire)
          × (a.dns.unpack wire ≡ some query)
          × (query.question ≡ q ∷ qs)
          × (action_on a st (extract_client_info r) q ≡ allow)
          × (st'.forwarded ≡ wire ∷ st.forwarded))
unfolding doh_handler
doh_handler-forwarded a st r = elim (Option-cases (read_dns_message a r)) [
  | inl h ↦ rw (h, doh_handler) (inl refl)
  | inr (wire, h) ↦ elim (Option-cases (a.dns.unpack wire)) [
    | inl k ↦ rw (h, doh_handler) (rw k (inl refl))
    | inr (query, k) ↦ elim (List-cases query.question) [
      | inl n ↦ rw (h, doh_handler) (rw k (rw n (inl refl)))
      | inr (q, qs, n) ↦
          rw (h, doh_handler)
            (rw k (
              rw n (elim (doh_query-forwarded a st (extract_client_info r) wire query q) [
                | inl same ↦ inl same
                | inr (may, sent) ↦ inr (wire, query, q, qs, refl, k, n, may, sent)
              ])))
    ]
  ]
]

state-admit :
    (st : Resolver) (ip : Text) (now : ℕ)
    → ((admit st ip now).0.forwarded ≡ st.forwarded) × ((admit st ip now).0.state ≡ st.state)
unfolding admit
state-admit st ip now = elim (Option-cases st.dot_limiter) [
  | inl h ↦ rw (h, admit) (refl, refl)
  | inr (l, h) ↦ rw (h, admit) (refl, refl)
]

dot_questions-forwarded :
    (a : App) (st : Resolver) (client : ClientInfo) (query : Message) (qs : List Question)
    → let st' = (dot_questions a st client query qs).0 in
      (st'.forwarded ≡ st.forwarded)
      ⊎ ((wire : Wire) × (q : Question) × (rest : List Question) × (a.dns.pack query ≡ some wire)
          × (qs ≡ q ∷ rest)
          × (action_on a st client q ≡ allow)
          × (st'.forwarded ≡ wire ∷ st.forwarded))
unfolding dot_questions
dot_questions-forwarded a st client query [] = inl refl
dot_questions-forwarded a st client query (q ∷ rest) =
    elim (dot_query-forwarded a st client query q) [
      | inl same ↦ inl same
      | inr (wire, packed, may, sent) ↦ inr (wire, q, rest, packed, refl, may, sent)
    ]

-- `dotHandler` sends at most one message to the upstream server: the packed query, and only where
-- the limiter admits the remote address, the query has a question, and `Policy` says to allow its
-- first name to a client with that address and no identifier.
pub dot_handler-forwarded :
    (a : App) (st : Resolver) (remote_addr : Text) (query : Message) (now : ℕ)
    → let st' = (dot_handler a st remote_addr query now).0 in
      (st'.forwarded ≡ st.forwarded)
      ⊎ ((wire : Wire) × (q : Question) × (qs : List Question) × (a.dns.pack query ≡ some wire)
          × ((admit st (dot_client_ip remote_addr) now).1 ≡ true)
          × (query.question ≡ q ∷ qs)
          × (action_on a st (dot_client remote_addr) q ≡ allow)
          × (st'.forwarded ≡ wire ∷ st.forwarded))
unfolding dot_handler
dot_handler-forwarded a st remote_addr query now =
    let ip = dot_client_ip remote_addr in
    let client = dot_client remote_addr in
    let (sent_before, state_before) = state-admit st ip now in
    let st' = (admit st ip now).0 in
    elim (Bool-cases (admit st ip now).1) [
      | inr h ↦ rw (h, dot_handler) (inl sent_before)
      | inl h ↦
          rw (h, dot_handler)
            (elim (dot_questions-forwarded a st' client query query.question) [
              | inl same ↦ inl (same ∙ sent_before)
              | inr (wire, q, qs, packed, n, may, sent) ↦ inr (
                wire,
                q,
                qs,
                packed,
                refl,
                n,
                ap (λ s. (policy a.service a.outside s (question_domain q) client).1.policy)
                      (sym state_before)
                    ∙ may,
                sent ∙ ap (λ ws. wire ∷ ws) sent_before,
              )
            ])
    ]
