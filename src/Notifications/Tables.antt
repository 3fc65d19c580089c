-- ===== src/Notifications/Tables.antt =====
-- The tables beside those of alerts that the notification loop and the subscription handlers use,
-- and the statements of sql/alerts.sql and sql/notifications.sql on them, with the functions of
-- alertsdb.go and notificationsdb.go that call them.
use statusnook.Prelude.{
  Bool, List, Option, String, [], false, find, if◌then◌else◌, keep, nat_eq, none, rewrite, some,
  string_eq, ℕ, ◌&&◌, ◌==◌, ◌∷◌,
}
use statusnook.World.{Answer, err, fault, no_rows, ok, or_error}
use statusnook.Alerts.Tables.{AlertNotification, AlertSubscription, AlertTables}

pub record AlertSetting : Type 0 where
  pub name : String
  pub value : String

-- A row of notification_channel: its details are JSON.
pub record ChannelRow : Type 0 where
  pub id : ℕ
  pub slug : String
  pub name : String
  pub kind : String
  pub details : String

-- `smtp_setting` holds the notification_channel_id column of alert_setting_smtp_notification.
pub record NotificationTables : Type 0 where
  pub alerts : AlertTables
  pub settings : List AlertSetting
  pub smtp_setting : List ℕ
  pub channels : List ChannelRow

pub record SmtpDetails : Type 0 where
  pub host : String
  pub port : ℕ
  pub username : String
  pub password : String
  pub from : String
  pub headers : List (String × String)
  pub misc : List (String × String)

-- NotificationChannel.Details: `any`, which a channel of an unknown type leaves nil.
pub data Details : Type 0 where
  smtp : SmtpDetails → Details
  slack : String → Details
  unknown : Details

pub record NotificationChannel : Type 0 where
  pub id : ℕ
  pub slug : String
  pub name : String
  pub kind : String
  pub details : Details

-- json.Unmarshal of the details column, and strconv.ParseBool.
pub record Codec : Type 0 where
  pub read_smtp : String → Option SmtpDetails
  pub read_slack : String → Option String
  pub parse_bool : String → Option Bool

pub record AlertSettings : Type 0 where
  pub slack_install_url : String
  pub slack_client_secret : String
  pub managed_subscriptions : Bool

abbrev pub no_settings : AlertSettings
no_settings = record {
  slack_install_url = "";
  slack_client_secret = "";
  managed_subscriptions = false;
}

abbrev pub first : {A : Type 0} → List A → Option A
first [] = none
first (x ∷ xs) = some x

-- GetAlertSMTPNotificationSetting
unfoldable pub get_smtp_setting : NotificationTables → Answer NotificationTables ℕ
get_smtp_setting t = or_error no_rows t (first t.smtp_setting)

-- ListActiveAlertEmailSubscriptions
unfoldable pub list_active_email_subscriptions :
    NotificationTables → Answer NotificationTables (List AlertSubscription)
list_active_email_subscriptions t =
    ok (keep (λ (s : AlertSubscription). s.kind == "email" && s.active) t.alerts.subscriptions) t

-- UpdateAlertSentAtByID
unfoldable pub mark_sent : ℕ → ℕ → NotificationTables → NotificationTables
mark_sent now id t = record t {
  alerts = record (t.alerts) {
    notifications =
        rewrite (λ (n : AlertNotification). n.id == id) (λ n. record n { sent_at = some now })
          t.alerts.notifications;
  };
}

unfoldable pub update_sent_at : ℕ → ℕ → NotificationTables → Answer NotificationTables (Unit {0})
unfolding mark_sent
update_sent_at now id t = ok tt (mark_sent now id t)

with_details : ChannelRow → Details → NotificationChannel
with_details row d = record {
  id = row.id;
  slug = row.slug;
  name = row.name;
  kind = row.kind;
  details = d;
}

module _ (codec : Codec) where
  unfoldable pub decode_channel : ChannelRow → Option NotificationChannel
  unfolding with_details
  decode_channel row =
      if row.kind == "smtp"
      then elim (codec.read_smtp row.details) [
        | none ↦ none
        | some d ↦ some (with_details row (smtp d))
      ]
      else if row.kind == "slack"
      then elim (codec.read_slack row.details) [
        | none ↦ none
        | some u ↦ some (with_details row (slack u))
      ]
      else some (with_details row unknown)

  abbrev pub decoded :
      NotificationTables → Option ChannelRow → Answer NotificationTables NotificationChannel
  decoded t none = err no_rows
  decoded t (some row) = or_error fault t (decode_channel row)

  -- GetNotificationChannelByID, and its decoding
  unfoldable pub get_channel :
      ℕ → NotificationTables → Answer NotificationTables NotificationChannel
  get_channel id t = decoded t (find (λ (c : ChannelRow). c.id == id) t.channels)

  -- The switch of getAlertSettings, over the rows of ListAlertSettings.
  unfoldable pub read_settings : List AlertSetting → AlertSettings → Option AlertSettings
  read_settings [] s = some s
  read_settings (r ∷ rows) s =
      let url = read_settings rows (record s { slack_install_url = r.value }) in
      let secret = read_settings rows (record s { slack_client_secret = r.value }) in
      let other = read_settings rows s in
      let managed : Option AlertSettings = elim (codec.parse_bool r.value) [
        | none ↦ none
        | some b ↦ read_settings rows (record s { managed_subscriptions = b })
      ] in
      if r.name == "slack-install-url"
      then url
      else if r.name == "slack-client-secret"
      then secret
      else if r.name == "managed-subscriptions"
      then managed
      else other

  unfoldable pub get_alert_settings : NotificationTables → Answer NotificationTables AlertSettings
  unfolding read_settings
  get_alert_settings t = or_error fault t (read_settings t.settings no_settings)
