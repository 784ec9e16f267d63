-- ===== src/Alert.antt =====
-- The alert task of internal/agent/alert.go: `Run`, `detectVietnamBrandSpoof` and the guards of the
-- senders, over the agent events of internal/store/sqlite.go. What a server answers to a message is
-- an argument; the texts of messages and events' details are left out. Times are seconds.
pub mod Sorted
pub mod Window
pub mod Detected
use safe_road.Base.{
  ℕ, zero, suc, ◌+◌, ◌-◌, Bool, true, false, not, ◌&&◌, ◌||◌, Option, none, some, List, [], ◌∷◌,
  ◌++◌, ltb, leb, ◌==◌, if◌then◌else◌, Text, text_eq, codes, any, filter, take, length,
}
use safe_road.Strings.{trim_space, contains}
use safe_road.Domain.{Platform, to_lower}
use safe_road.Brand.{Spoof, check_brand_spoofing}
use safe_road.Audit.{EventType, auto_block, feed_error, alert_sent, alert_failed, AgentEvent}

pub record AlertConfig : Type 0 where
  pub webhook_url : Text
  pub min_events : ℕ
  pub telegram_enabled : Bool
  pub telegram_token : Text
  pub telegram_chat_id : Text
  pub slack_enabled : Bool
  pub slack_webhook_url : Text
  pub email_enabled : Bool
  pub email_smtp_host : Text
  pub email_smtp_port : ℕ
  pub email_smtp_username : Text
  pub email_from : Text
  pub email_password : Text
  pub email_to : Text

-- NewAlertTask
unfoldable pub new_alert_config : AlertConfig → AlertConfig
new_alert_config c = record c {
  min_events = if c.min_events == 0 then 1 else c.min_events;
  email_smtp_username =
      if text_eq c.email_smtp_username [] then c.email_from else c.email_smtp_username;
}

abbrev pub is_type : EventType → EventType → Bool
is_type auto_block auto_block = true
is_type feed_error feed_error = true
is_type s t = false

abbrev pub is_alertable : AgentEvent → Bool
is_alertable e = is_type auto_block e.event_type || is_type feed_error e.event_type

-- `ORDER BY created_at ASC`
unfoldable pub insert_event : AgentEvent → List AgentEvent → List AgentEvent
insert_event e [] = e ∷ []
insert_event e (f ∷ fs) =
    let rest = insert_event e fs in if leb e.created_at f.created_at then e ∷ f ∷ fs else f ∷ rest

unfoldable pub by_time : List AgentEvent → List AgentEvent
by_time [] = []
by_time (e ∷ es) = insert_event e (by_time es)

-- `QueryAgentEvents` for the two types that alerts are about.
unfoldable pub query_agent_events : List AgentEvent → ℕ → ℕ → List AgentEvent
query_agent_events events since limit =
    take (if limit == 0 then 100 else limit)
      (by_time (filter (λ e. leb since e.created_at && is_alertable e) events))

pub record SpoofResult : Type 0 where
  pub domain : Text
  pub brand_name : Text
  pub official_domain : Text
  pub is_government : Bool
  pub reason : Text

abbrev pub gov_brands : List (Text × Text)
gov_brands =
    (codes "chinhphu", codes "chinhphu.vn")
    ∷ (codes "bocongan", codes "bocongan.gov.vn")
    ∷ (codes "baohiemxahoi", codes "baohiemxahoi.gov.vn")
    ∷ (codes "vtv", codes "vtv.vn")
    ∷ []

abbrev pub bank_brands : List (Text × Text)
bank_brands =
    (codes "vietcombank", codes "vietcombank.com.vn")
    ∷ (codes "techcombank", codes "techcombank.com.vn")
    ∷ (codes "bidv", codes "bidv.com.vn")
    ∷ (codes "vietinbank", codes "vietinbank.vn")
    ∷ (codes "mbbank", codes "mbbank.com.vn")
    ∷ (codes "agribank", codes "agribank.com.vn")
    ∷ (codes "vpbank", codes "vpbank.com.vn")
    ∷ (codes "acb", codes "acb.com.vn")
    ∷ (codes "sacombank", codes "sacombank.com.vn")
    ∷ (codes "tpbank", codes "tpb.vn")
    ∷ (codes "vib", codes "vib.com.vn")
    ∷ (codes "hdbank", codes "hdbank.com.vn")
    ∷ (codes "shb", codes "shb.com.vn")
    ∷ (codes "scb", codes "scb.com.vn")
    ∷ []

module _ (platform : Platform) where
  unfoldable pub is_brand_match : Text → Text → Bool
  is_brand_match reason brand =
      let r = to_lower platform reason in
      let b = to_lower platform brand in
      contains r (codes "of " ++ b ++ codes " brand")
      || contains r (codes "keyword (" ++ b ++ codes ")")
      || contains r (codes "subdomain usage (" ++ b ++ codes ")")

  -- The range over a Go map has no fixed order; here it is that of the table.
  unfoldable pub matching_brand : Text → List (Text × Text) → Option (Text × Text)
  matching_brand reason [] = none
  matching_brand reason ((brand, official) ∷ rest) =
      if is_brand_match reason brand then some (brand, official) else matching_brand reason rest

  abbrev pub spoof_result : Text → Text → Bool → Text × Text → SpoofResult
  spoof_result domain reason government (brand, official) = record {
    domain = domain;
    brand_name = brand;
    official_domain = official;
    is_government = government;
    reason = reason;
  }

  abbrev pub classified : Text → Text → Option SpoofResult
  classified domain reason = elim (matching_brand reason gov_brands) [
    | some row ↦ some (spoof_result domain reason true row)
    | none ↦ elim (matching_brand reason bank_brands) [
      | some row ↦ some (spoof_result domain reason false row)
      | none ↦ none
    ]
  ]

  unfoldable pub detect_vietnam_brand_spoof : (Text → Option Text) → Text → Option SpoofResult
  detect_vietnam_brand_spoof to_unicode domain =
      elim (check_brand_spoofing platform to_unicode domain 30) [
        | none ↦ none
        | some s ↦ classified domain s.reason
      ]

  abbrev pub cons_some {ℓ} : {A : Type ℓ} → Option A → List A → List A
  cons_some none as' = as'
  cons_some (some a) as' = a ∷ as'

  unfoldable pub critical_events : (Text → Option Text) → List AgentEvent → List SpoofResult
  critical_events to_unicode [] = []
  critical_events to_unicode (e ∷ es) =
      let rest = critical_events to_unicode es in
      if is_type auto_block e.event_type
      then cons_some (detect_vietnam_brand_spoof to_unicode e.domain) rest
      else rest

pub data Channel : Type 0 where
  telegram slack email : Channel

-- A message that is handed to a sender.
pub data Notice : Type 0 where
  webhook_notice : List AgentEvent → Notice
  critical_notice : Channel → List SpoofResult → Notice

-- `sent` holds what `Run` hands to the senders, the first first.
pub record AlertState : Type 0 where
  pub answers : Bool
  pub events : List AgentEvent
  pub last_alert : ℕ
  pub sent : List Notice

unfoldable pub has_channel : AlertConfig → Bool
has_channel c =
    not (text_eq (trim_space c.webhook_url) [])
    || c.telegram_enabled
    || c.slack_enabled
    || c.email_enabled

-- A sender refuses to work without its settings.
unfoldable pub is_configured : AlertConfig → Channel → Bool
is_configured c telegram = not (text_eq c.telegram_token []) && not (text_eq c.telegram_chat_id [])
is_configured c slack = not (text_eq c.slack_webhook_url [])
is_configured c email =
    not (text_eq c.email_smtp_host [])
    && ltb 0 c.email_smtp_port
    && not (text_eq c.email_from [])
    && not (text_eq c.email_to [])
    && not (text_eq c.email_smtp_username [])
    && not (text_eq c.email_password [])

-- `sendSMTP` knows two ports.
unfoldable pub is_smtp_port : ℕ → Bool
is_smtp_port port = port == 465 || port == 587

unfoldable pub is_discord_webhook : Text → Bool
is_discord_webhook url =
    contains url (codes "discord.com/api/webhooks")
    || contains url (codes "discordapp.com/api/webhooks")

-- The events that a Discord message lists, and how many more it mentions.
unfoldable pub discord_events : List AgentEvent → List AgentEvent × ℕ
discord_events events = (take 10 events, if ltb 10 (length events) then length events - 10 else 0)

abbrev pub critical_notices : AlertConfig → List SpoofResult → List Notice
critical_notices c [] = []
critical_notices c (s ∷ ss) =
    let to : Channel → Notice = λ ch. critical_notice ch (s ∷ ss) in
    (if c.telegram_enabled then to telegram ∷ [] else [])
    ++ (if c.slack_enabled then to slack ∷ [] else [])
    ++ (if c.email_enabled then to email ∷ [] else [])

abbrev pub event_now : ℕ → EventType → AgentEvent
event_now now kind = record { event_type = kind; domain = []; created_at = now }

-- `posted` is whether the webhook takes the events; the state, and whether there is no error.
unfoldable pub send_alerts :
    AlertConfig
    → (List AgentEvent → Bool)
    → AlertState
    → ℕ
    → List AgentEvent
    → List SpoofResult
    → AlertState × Bool
send_alerts c posted st now events critical =
    let has_webhook = not (text_eq (trim_space c.webhook_url) []) in
    let failed = has_webhook && not (posted events) in
    (
      record st {
        last_alert = now;
        sent =
            st.sent
            ++ (if has_webhook then webhook_notice events ∷ [] else [])
            ++ critical_notices c critical;
        events =
            st.events
            ++ event_now now alert_sent ∷ (if failed then event_now now alert_failed ∷ [] else []);
      },
      not failed,
    )

unfoldable pub run_alert :
    Platform
    → (Text → Option Text)
    → AlertConfig
    → (List AgentEvent → Bool)
    → AlertState
    → ℕ
    → AlertState × Bool
run_alert platform to_unicode c posted st now =
    let events = query_agent_events st.events st.last_alert 100 in
    if not (has_channel c)
    then (st, true)
    else if not st.answers
    then (st, false)
    else if ltb (length events) c.min_events
    then (st, true)
    else send_alerts c posted st now events (critical_events platform to_unicode events)
