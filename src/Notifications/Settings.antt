-- ===== src/Notifications/Settings.antt =====
-- postAlertNotifications of alerts2.go, and the functions of alertsdb.go that it stores with.
use statusnook.Prelude.{
  Bool, List, Option, String, [], any, if◌then◌else◌, nat_eq, not, rewrite, some, string_eq, ℕ,
  ◌&&◌, ◌++◌, ◌==◌, ◌||◌, ◌∷◌,
}
use statusnook.World.{
  Answer, Env, H, Response, Result, attempt, bad, bad_request, begin, commit, constraint, demand,
  err, exec, fault, good, hx_location, internal_error, no_rows, ok, pure, refuse_if, reply, ◌>>=◌,
  ◌>>◌,
}
use statusnook.Text.{atoi, negsuc, pos, ℤ}
use statusnook.Notifications.Tables.{
  AlertSetting, ChannelRow, Codec, NotificationChannel, NotificationTables, get_channel, unknown,
}

-- The form of /admin/alerts/notifications.
pub record SettingsForm : Type 0 where
  pub slack_install_url : String
  pub slack_client_secret : String
  pub smtp_channel : String
  pub managed_subscriptions : String

-- url.ParseRequestURI with String of its result, and strconv.FormatBool.
pub record Writer : Type 0 where
  pub request_uri : String → Option String
  pub format_bool : Bool → String

abbrev pub named : String → AlertSetting → Bool
named name r = r.name == name

-- UpsertAlertSetting
unfoldable pub upsert_setting : String → String → List AlertSetting → List AlertSetting
upsert_setting name value rows =
    if any (named name) rows
    then rewrite (named name) (λ r. record r { value = value }) rows
    else rows ++ record { name = name; value = value } ∷ []

unfoldable pub put_setting :
    String → String → NotificationTables → Answer NotificationTables (Unit {0})
put_setting name value t = ok tt (record t { settings = upsert_setting name value t.settings })

-- DeleteAlertSMTPNotificationSetting
unfoldable pub delete_smtp_setting : NotificationTables → Answer NotificationTables (Unit {0})
delete_smtp_setting t = ok tt (record t { smtp_setting = [] })

-- CreateAlertSMTPNotificationSetting: the column is unique and names a channel.
unfoldable pub create_smtp_setting : ℕ → NotificationTables → Answer NotificationTables (Unit {0})
create_smtp_setting id t =
    if any (λ n. n == id) t.smtp_setting || not (any (λ (c : ChannelRow). c.id == id) t.channels)
    then err constraint
    else ok tt (record t { smtp_setting = t.smtp_setting ++ id ∷ [] })

-- GetNotificationChannelByID on a parsed id.
unfoldable pub get_parsed_channel :
    Codec → ℤ → NotificationTables → Answer NotificationTables NotificationChannel
get_parsed_channel codec (pos n) t = get_channel codec n t
get_parsed_channel codec (negsuc n) t = err no_rows

abbrev pub SettingsHandler : Type 0 → Type 0
SettingsHandler A = H NotificationTables (Unit {0}) A

-- The zero value of a channel that is not found.
abbrev pub no_channel : NotificationChannel
no_channel = record { id = 0; slug = ""; name = ""; kind = ""; details = unknown }

unfoldable pub found_channel : Result NotificationChannel → SettingsHandler NotificationChannel
found_channel (good channel) = pure channel
found_channel (bad no_rows) = pure no_channel
found_channel (bad constraint) = reply internal_error
found_channel (bad fault) = reply internal_error

-- Two fields that are parsed only when they are given.
abbrev pub install_url : Writer → SettingsForm → Option String
install_url writer form =
    if form.slack_install_url == "" then some "" else writer.request_uri form.slack_install_url

abbrev pub channel_id : SettingsForm → Option ℤ
channel_id form = if form.smtp_channel == "" then some (pos 0) else atoi form.smtp_channel

module _ (env : Env) where
  unfoldable pub update_smtp_setting : ℕ → SettingsHandler (Unit {0})
  update_smtp_setting id = do
    exec env delete_smtp_setting
    if id == 0 then pure tt else exec env (create_smtp_setting id)

  unfoldable pub update_alert_settings :
      Writer → String → String → Bool → SettingsHandler (Unit {0})
  update_alert_settings writer url secret managed = do
    exec env (put_setting "slack-install-url" url)
    exec env (put_setting "slack-client-secret" secret)
    exec env (put_setting "managed-subscriptions" (writer.format_bool managed))

  -- `config_file` is metaConfigFileEnabled.Load().
  unfoldable pub post_alert_notifications :
      (config_file : Bool) → Codec → Writer → SettingsForm → SettingsHandler Response
  unfolding found_channel update_smtp_setting update_alert_settings
  post_alert_notifications config_file codec writer form = do
    refuse_if config_file bad_request
    url ← demand (install_url writer form) bad_request
    id ← demand (channel_id form) bad_request
    begin env
    row ← attempt env (get_parsed_channel codec id)
    channel ← found_channel row
    refuse_if (not (channel.id == 0) && not (channel.kind == "smtp")) bad_request
    update_smtp_setting channel.id
    update_alert_settings writer url form.slack_client_secret (form.managed_subscriptions == "on")
    commit env
    pure (hx_location "/admin/alerts")
