-- ===== src/Tests/Alerts.antt =====
-- internal/agent/alert.go: two events that wait, and more than a hundred.
use safe_road.Base.{
  ℕ, ◌≤◌, ◌<◌, ◌≡◌, ◌⊎◌, refl, arith, Bool, true, false, some, none, List, [], ◌∷◌, Text, codes,
  leb, all, take, length, replicate,
}
use safe_road.Audit.{AgentEvent, auto_block}
use safe_road.Alert.{AlertConfig, AlertState, query_agent_events, run_alert}
use safe_road.Alert.Sorted.{IsWaiting}
use safe_road.Alert.Window.{Alerts, run_alert-pending, run_alert_overflow}
use safe_road.Tests.{ascii}

abbrev config : AlertConfig
config = record {
  webhook_url = codes "https://hooks";
  min_events = 1;
  telegram_enabled = true;
  telegram_token = [];
  telegram_chat_id = [];
  slack_enabled = false;
  slack_webhook_url = [];
  email_enabled = false;
  email_smtp_host = [];
  email_smtp_port = 0;
  email_smtp_username = [];
  email_from = [];
  email_password = [];
  email_to = [];
}

abbrev blocked_at : ℕ → AgentEvent
blocked_at at = record { event_type = auto_block; domain = codes "evil.vn"; created_at = at }

abbrev two_wait : AlertState
two_wait = record {
  answers = true;
  events = blocked_at 5 ∷ blocked_at 4 ∷ [];
  last_alert = 4;
  sent = [];
}

run_alert-pending_example :
    let st' = (run_alert ascii (λ d. none) config (λ es. false) two_wait 9).0 in
    (waiting : List AgentEvent) × IsWaiting two_wait.events 4 waiting
    × (((length waiting < 1) × (st' ≡ two_wait))
        ⊎ ((1 ≤ length waiting) × Alerts config two_wait st' 9 waiting))
unfolding safe_road.Base.text_eq safe_road.Strings.trim_space safe_road.Base.filter
run_alert-pending_example =
    run_alert-pending ascii (λ d. none) config (λ es. false) two_wait 9 refl refl (omega arith)

abbrev many_wait : AlertState
many_wait = record two_wait { events = replicate 101 (blocked_at 5) }

run_alert_overflow_example :
    let st' = (run_alert ascii (λ d. none) config (λ es. true) many_wait 9).0 in
    (waiting : List AgentEvent) × IsWaiting many_wait.events 4 waiting
    × Alerts config many_wait st' 9 (take 100 waiting)
    × (all (λ e. leb 9 e.created_at) (query_agent_events two_wait.events st'.last_alert 50) ≡ true)
unfolding safe_road.Base.text_eq safe_road.Strings.trim_space safe_road.Base.filter
run_alert_overflow_example =
    run_alert_overflow ascii (λ d. none) config (λ es. true) many_wait 9 refl two_wait.events 50
      refl (omega arith) (omega arith)
