-- ===== src/Tests/NotificationExamples.antt =====
-- The theorems on the notification loop and the subscriptions at concrete tables.
use statusnook.Prelude.{
  Bool, [], all, any, false, if◌then◌else◌, nat_eq, none, refl, some, string_eq, true, ◌==◌, ◌∷◌,
  ◌≡◌,
}
use statusnook.World.{redirect, serve, start, status_only, ◌>>=◌}
use statusnook.World.Reads.{left}
use statusnook.Notifications.Tables.{
  Codec, NotificationTables, SmtpDetails, decode_channel, get_alert_settings, get_channel,
  get_smtp_setting, read_settings, smtp,
}
use statusnook.Notifications.Queue.{unsent_rows}
use statusnook.Notifications.Drain.{Carrier, drain}
use statusnook.Notifications.DrainLaws.{drain-Pass}
use statusnook.Notifications.Passes.{Pass}
use statusnook.Notifications.IdlePasses.{Idle, drain-Idle}
use statusnook.Notifications.DrainRuns.{Ready, deliverable, drain-drain}
use statusnook.World.Hoare.{Outcome}
use statusnook.Notifications.Subscribe.{
  Postmark, confirm_pending, get_pending_email, get_subscription_by_email, insert_subscription,
  post_subscribe_email_confirm,
}
use statusnook.Notifications.SubscribeLaws.{Confirmed, subscriptions_of}
use statusnook.Notifications.ConfirmLaws.{post_subscribe_email_confirm-Confirmed}
use statusnook.Notifications.Unsubscribe.{
  after_resubscribe, after_unsubscribe, post_unsubscribe-post_resubscribe, receives,
}
use statusnook.Notifications.Request.{MailService, RequestMemory, post_subscribe_email, sent}
use statusnook.Notifications.RequestLaws.{Requested, post_subscribe_email-Requested}
use statusnook.Notifications.Settings.{SettingsForm, Writer, post_alert_notifications}
use statusnook.Notifications.SettingsRoundTrip.{Stored, post_alert_notifications-Stored}
use statusnook.Tests.Data.{alert_tables, engine, env, faulty}

abbrev details : SmtpDetails
details = record {
  host = "smtp.example.com";
  port = 587;
  username = "u";
  password = "p";
  from = "status@example.com";
  headers = [];
  misc = [];
}

abbrev codec : Codec
codec = record {
  read_smtp = λ _. some details;
  read_slack = λ url. some url;
  parse_bool = λ s. some (s == "true");
}

abbrev tables : NotificationTables
tables = record {
  alerts = alert_tables;
  settings = record { name = "managed-subscriptions"; value = "true" } ∷ [];
  smtp_setting = 1 ∷ [];
  channels = record { id = 1; slug = "mail"; name = "Mail"; kind = "smtp"; details = "{}" } ∷ [];
}

abbrev unset_tables : NotificationTables
unset_tables = record tables { smtp_setting = [] }

abbrev working_carrier : Carrier
working_carrier = record { post = λ _ _. some 200; mail = λ _ _. true }

abbrev broken_carrier : Carrier
broken_carrier = record { post = λ _ _. some 404; mail = λ _ _. false }

drain-Pass_example : Pass tables (left (drain faulty broken_carrier codec (start tables [])))
drain-Pass_example = drain-Pass faulty broken_carrier codec tables

ready : Ready codec tables
unfolding get_smtp_setting get_channel decode_channel get_alert_settings read_settings
ready = record {
  channel_id = 1;
  channel = record { id = 1; slug = "mail"; name = "Mail"; kind = "smtp"; details = smtp details };
  details = details;
  settings = record {
    slack_install_url = "";
    slack_client_secret = "";
    managed_subscriptions = true;
  };
  is_set = refl;
  is_channel = refl;
  is_smtp = refl;
  are_settings = refl;
}

all-deliverable : all deliverable (unsent_rows tables) ≡ true
unfolding unsent_rows
all-deliverable = refl

drain-drain_example :
    (unsent_rows (left (drain env working_carrier codec (start tables []))).committed ≡ [])
    × ((left (
          drain faulty broken_carrier codec
            (start (left (drain env working_carrier codec (start tables []))).committed []))).memory
        ≡ [])
drain-drain_example =
    drain-drain env (λ _. refl) working_carrier (λ _ _. refl) (λ _ _. refl) codec tables ready
      all-deliverable faulty broken_carrier

drain-Idle_example :
    Idle unset_tables (left (drain env working_carrier codec (start unset_tables [])))
drain-Idle_example = drain-Idle env working_carrier codec unset_tables refl

abbrev pending_tables : NotificationTables
pending_tables = record tables {
  alerts = record alert_tables {
    pending =
        record { id = 1; token = "t"; email = "b@example.com"; created_at = 1; confirmed_at = none }
        ∷ [];
  };
}

abbrev postmark : Postmark
postmark = record { is_postmark = λ _. false; suppression_fails = λ _ _. true }

post_subscribe_email_confirm-Confirmed_example :
    Outcome (Confirmed engine "t" env.now pending_tables) pending_tables (
      serve
        (post_subscribe_email_confirm env codec postmark engine "t" (some "m2"))
        pending_tables
        tt)
post_subscribe_email_confirm-Confirmed_example =
    post_subscribe_email_confirm-Confirmed env engine "t" pending_tables codec postmark (some "m2")

post_unsubscribe-post_resubscribe_example :
    (any (receives "m") (subscriptions_of (after_unsubscribe env "m" (status_only 200) tables))
      ≡ false)
    × (after_resubscribe env "m"
          (status_only 200)
          (after_unsubscribe env "m" (status_only 200) tables)
        ≡ tables)
post_unsubscribe-post_resubscribe_example =
    post_unsubscribe-post_resubscribe env (status_only 200) "m" tables (λ _. refl) refl refl

-- The pending subscription is confirmed, and the redirect tells so.
confirmed_reply :
    (serve
      (post_subscribe_email_confirm env codec postmark engine "t" (some "m2"))
      pending_tables
      tt).sent
    ≡ redirect "/?email_subscribed=1"
unfolding post_subscribe_email_confirm ◌>>=◌ get_smtp_setting get_channel decode_channel
    get_pending_email get_subscription_by_email get_alert_settings confirm_pending
    insert_subscription
confirmed_reply = refl

abbrev mail_service : MailService
mail_service = record { is_address = λ _. true; suppressions = λ _. none; send = λ _. sent }

abbrev request_memory : RequestMemory
request_memory = record { last_sync = env.now; mails = [] }

post_subscribe_email-Requested_example :
    Requested engine "c@example.com" env.now tables request_memory
      (serve
        (post_subscribe_email env engine codec postmark mail_service "c@example.com" (some "t3"))
        tables
        request_memory).tables
      (serve
        (post_subscribe_email env engine codec postmark mail_service "c@example.com" (some "t3"))
        tables
        request_memory).kept
post_subscribe_email-Requested_example =
    post_subscribe_email-Requested env engine codec postmark mail_service "c@example.com" tables
      request_memory (some "t3") refl

abbrev settings_form : SettingsForm
settings_form = record {
  slack_install_url = "https://slack.example.com/install";
  slack_client_secret = "shh";
  smtp_channel = "1";
  managed_subscriptions = "on";
}

abbrev writer : Writer
writer = record { request_uri = λ url. some url; format_bool = λ b. if b then "true" else "false" }

written : (b : Bool) → codec.parse_bool (writer.format_bool b) ≡ some b
written true = refl
written false = refl

post_alert_notifications-Stored_example :
    Outcome
      (λ _ t'. Stored codec writer settings_form tables t')
      tables
      (serve (post_alert_notifications env false codec writer settings_form) tables tt)
post_alert_notifications-Stored_example =
    post_alert_notifications-Stored env codec tables writer settings_form written false
