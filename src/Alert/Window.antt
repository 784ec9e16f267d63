-- ===== src/Alert/Window.antt =====
-- The window of events that `Run` of internal/agent/alert.go alerts about, and how it moves.
use safe_road.Base.{
  ℕ, zero, suc, ◌≡◌, refl, arith, ◌∙◌, ap, Bool, true, false, not, ◌&&◌, List, [], ◌∷◌, ◌++◌,
  Option, ltb, leb, ◌==◌, if◌then◌else◌, Text, text_eq, all, filter, take, length, ◌⊎◌, inl, inr,
  Bool-cases, ◌≤◌, ◌<◌, ap₂, ltb→lt,
}
use mathlib.Core.List.{append_assoc}
use safe_road.Strings.{trim_space}
use safe_road.Domain.{Platform}
use safe_road.Audit.{AgentEvent}
use safe_road.Alert.Sorted.{
  IsWaiting, alertable_since, all-by_time, by_time-IsWaiting, length-by_time,
}
use safe_road.Alert.{
  AlertConfig, AlertState, Notice, webhook_notice, is_alertable, by_time, query_agent_events,
  has_channel, critical_events, critical_notices, send_alerts, run_alert,
}

pending : List AgentEvent → ℕ → List AgentEvent
pending events since = by_time (alertable_since events since)

module _ (p : AgentEvent → Bool) where
  all-take : (n : ℕ) (es : List AgentEvent) → all p es ≡ true → all p (take n es) ≡ true
  all-take zero es h = refl
  all-take (suc n) [] h = refl
  all-take (suc n) (e ∷ es) h = ground (arith, h, all-take n es)

all-filter_since :
    (since : ℕ) (es : List AgentEvent)
    → all (λ e. leb since e.created_at) (filter (λ e. leb since e.created_at && is_alertable e) es)
      ≡ true
unfolding filter
all-filter_since since [] = refl
all-filter_since since (e ∷ es) = ground (arith, all-filter_since since es)

-- No query returns an event from before its window.
query-since :
    (es : List AgentEvent) (since limit : ℕ)
    → all (λ e. leb since e.created_at) (query_agent_events es since limit) ≡ true
unfolding query_agent_events
query-since es since limit =
    all-take (λ e. leb since e.created_at) (if limit == 0 then 100 else limit) _
      (all-by_time (λ e. leb since e.created_at) _ (all-filter_since since es))

take_all : (n : ℕ) (es : List AgentEvent) → length es ≤ n → take n es ≡ es
take_all zero [] h = refl
take_all zero (e ∷ es) h = absurd (omega (arith, h))
take_all (suc n) [] h = refl
take_all (suc n) (e ∷ es) h = ap (λ l. e ∷ l) (take_all n es (omega (arith, h)))

length-take : (n : ℕ) (es : List AgentEvent) → n ≤ length es → length (take n es) ≡ n
length-take zero es h = refl
length-take (suc n) [] h = absurd (omega (arith, h))
length-take (suc n) (e ∷ es) h = ap suc (length-take n es (omega (arith, h)))

not_less : (m n : ℕ) → ltb m n ≡ false → n ≤ m
not_less m n h = ground arith

not_below : (m n : ℕ) → n ≤ m → ltb m n ≡ false
not_below m n h = ground arith

has_channel-webhook :
    (c : AlertConfig) → text_eq (trim_space c.webhook_url) [] ≡ false → has_channel c ≡ true
unfolding has_channel
has_channel-webhook c h = rw h refl

-- What a run of a task with a webhook hands to it, and where the window starts afterwards.
abbrev pub Alerts : AlertConfig → AlertState → AlertState → ℕ → List AgentEvent → Type 0
Alerts c st st' now events =
    ((critical : List Notice) × (st'.sent ≡ st.sent ++ (webhook_notice events ∷ critical)))
    × (st'.last_alert ≡ now)

module _ (platform : Platform) (to_unicode : Text → Option Text) (c : AlertConfig)
    (posted : List AgentEvent → Bool) (st : AlertState) (now : ℕ)
    (webhook : text_eq (trim_space c.webhook_url) [] ≡ false) where
  -- The message to the webhook and what else a run hands on.
  abbrev outcome : Bool → List AgentEvent → AlertState × Bool
  outcome few events =
      if few
      then (st, true)
      else send_alerts c posted st now events (critical_events platform to_unicode events)

  run_alert_lem :
      st.answers ≡ true
      → let events = query_agent_events st.events st.last_alert 100 in
        run_alert platform to_unicode c posted st now
        ≡ outcome (ltb (length events) c.min_events) events
  unfolding run_alert
  run_alert_lem a =
      let events = query_agent_events st.events st.last_alert 100 in
      ap₂
        (λ (b d : Bool).
          if not b
          then (st, true)
          else if not d
          then (st, false)
          else outcome (ltb (length events) c.min_events) events)
        channel a
    where
      channel : has_channel c ≡ true
      channel = has_channel-webhook c webhook

  sends : (events : List AgentEvent) → Alerts c st (outcome false events).0 now events
  unfolding send_alerts
  sends events =
      let critical = critical_notices c (critical_events platform to_unicode events) in
      let hook : Bool → List Notice = λ b. if not b then webhook_notice events ∷ [] else [] in
      (
        (
          critical,
          ap (λ b. (st.sent ++ hook b) ++ critical) webhook
              ∙ append_assoc st.sent (webhook_notice events ∷ []) critical,
        ),
        refl,
      )

  -- A run with a webhook and a store that answers, while at most 100 alertable events have come
  -- since the window began: those that wait are all of these events in the order of time; where
  -- fewer wait than the least number, everything is left as it is, and otherwise the webhook is
  -- handed exactly those that wait, and the next window starts now.
  pub run_alert-pending :
      st.answers ≡ true
      → length (alertable_since st.events st.last_alert) ≤ 100
      → let st' = (run_alert platform to_unicode c posted st now).0 in
        (waiting : List AgentEvent) × IsWaiting st.events st.last_alert waiting
        × (((length waiting < c.min_events) × (st' ≡ st))
            ⊎ ((c.min_events ≤ length waiting) × Alerts c st st' now waiting))
  unfolding query_agent_events pending
  run_alert-pending a h =
      let waiting = pending st.events st.last_alert in
      let few_enough : length waiting ≤ 100 =
        omega (arith, h, length-by_time (alertable_since st.events st.last_alert)) in
      let all_of : query_agent_events st.events st.last_alert 100 ≡ waiting =
        take_all 100 waiting few_enough in
      let e = run_alert_lem a ∙ ap (λ es. outcome (ltb (length es) c.min_events) es) all_of in
      (
        waiting,
        by_time-IsWaiting st.events st.last_alert,
        elim (Bool-cases (ltb (length waiting) c.min_events)) [
          | inl few ↦ inl (
            ltb→lt (length waiting) c.min_events few,
            ap (λ p. p.0) (e ∙ ap (λ b. outcome b waiting) few),
          )
          | inr enough ↦ inr (
            not_less (length waiting) c.min_events enough,
            rw (e ∙ ap (λ b. outcome b waiting) enough) (sends waiting),
          )
        ],
      )

  -- Where more than 100 alertable events have come since the window began and the least number is
  -- at most 100, a run with a webhook and a store that answers hands the webhook the first 100 in
  -- the order of time of those that wait, and starts the next window now; whatever the store holds
  -- later, no query of that window returns an event from before now.
  pub run_alert_overflow :
      (later : List AgentEvent) (limit : ℕ)
      → st.answers ≡ true
      → 100 < length (alertable_since st.events st.last_alert)
      → c.min_events ≤ 100
      → let st' = (run_alert platform to_unicode c posted st now).0 in
        (waiting : List AgentEvent) × IsWaiting st.events st.last_alert waiting
        × Alerts c st st' now (take 100 waiting)
        × (all (λ e. leb now e.created_at) (query_agent_events later st'.last_alert limit) ≡ true)
  unfolding query_agent_events pending
  run_alert_overflow later limit a more least =
      let waiting = pending st.events st.last_alert in
      let first = take 100 waiting in
      let many : 100 ≤ length waiting =
        omega (arith, more, length-by_time (alertable_since st.events st.last_alert)) in
      let enough : ltb (length first) c.min_events ≡ false =
        ap (λ n. ltb n c.min_events) (length-take 100 waiting many)
        ∙ not_below 100 c.min_events least in
      let e = run_alert_lem a ∙ ap (λ b. outcome b first) enough in
      let alerts : Alerts c st (run_alert platform to_unicode c posted st now).0 now first =
        rw e (sends first) in
      (
        waiting,
        by_time-IsWaiting st.events st.last_alert,
        alerts,
        rw (alerts.1) (query-since later now limit),
      )
