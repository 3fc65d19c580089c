-- ===== src/Notifications/Drain.antt =====
-- drainNotificationQueue of notifications.go: one pass over the unsent notifications. A `return`
-- after log.Printf stops the pass, with a reply that nobody reads.
use statusnook.Prelude.{
  Bool, List, Option, String, [], false, if◌then◌else◌, nat_eq, none, not, some, string_eq, ℕ, ◌++◌,
  ◌==◌, ◌∷◌,
}
use statusnook.World.{
  Env, H, Run, begin, commit, done, exec, internal_error, pure, recall, refuse_if, remember, reply,
  stop, ◌>>=◌, ◌>>◌,
}
use statusnook.Alerts.Tables.{AlertSubscription}
use statusnook.Notifications.Tables.{
  AlertSettings, Codec, NotificationChannel, NotificationTables, SmtpDetails, get_alert_settings,
  get_channel, get_smtp_setting, list_active_email_subscriptions, slack, smtp, unknown,
  update_sent_at,
}
use statusnook.Notifications.Queue.{Unsent, list_unsent}

-- What the email of one notification is built from.
pub record Email : Type 0 where
  pub details : SmtpDetails
  pub notification : Unsent
  pub managed_subscriptions : Bool
  pub sub_token : String

-- A message handed over, and whether the other side took it.
pub data Delivery : Type 0 where
  posted : Unsent → Bool → Delivery
  mailed : Email → Bool → Delivery

abbrev pub delivered_id : Delivery → ℕ
delivered_id (posted u took) = u.id
delivered_id (mailed e took) = e.notification.id

abbrev pub was_taken : Delivery → Bool
was_taken (posted u took) = took
was_taken (mailed e took) = took

-- The outside of the loop, after the deliveries so far: the status of http.Post of the rendered
-- Slack template, when every step up to reading the body succeeds; and whether the email template
-- and smtp.SendMail succeed.
pub record Carrier : Type 0 where
  pub post : List Delivery → Unsent → Option ℕ
  pub mail : List Delivery → Email → Bool

-- subTokensEmailMap[destination]: the last subscription wins, and a missing key is "".
abbrev pub sub_token : List AlertSubscription → String → String → String
sub_token [] destination found = found
sub_token (s ∷ subs) destination found =
    sub_token subs destination
      (if s.destination == destination then elim s.meta [ none ↦ "" | some m ↦ m ] else found)

abbrev pub LoopStep : Type 0 → Type 0
LoopStep A = H NotificationTables (List Delivery) A

-- The closure called for each notification: its `return` ends the closure only.
abbrev pub resumed :
    Run NotificationTables (List Delivery) (Unit {0})
    → Run NotificationTables (List Delivery) (Unit {0})
resumed (done _ w) = done tt w
resumed (stop _ w) = done tt w

unfoldable pub isolated : LoopStep (Unit {0}) → LoopStep (Unit {0})
isolated m w = resumed (m w)

abbrev pub took_post : Option ℕ → Bool
took_post none = false
took_post (some status) = status == 200

-- The transaction that stamps sent_at.
unfoldable pub stamp : Env → ℕ → LoopStep (Unit {0})
stamp env id = do begin env; exec env (update_sent_at env.now id); commit env

module _ (env : Env) (carrier : Carrier) where
  unfoldable pub send_slack : Unsent → LoopStep (Unit {0})
  unfolding stamp
  send_slack u = do
    log ← recall
    let took = took_post (carrier.post log u)
    remember (log ++ posted u took ∷ [])
    refuse_if (not took) internal_error
    stamp env u.id

  unfoldable pub send_email : Email → LoopStep (Unit {0})
  unfolding stamp
  send_email e = do
    log ← recall
    let took = carrier.mail log e
    remember (log ++ mailed e took ∷ [])
    refuse_if (not took) internal_error
    stamp env e.notification.id

  -- The type assertion `notificationChannel.Details.(SMTPNotificationDetails)`
  unfoldable pub send_by_channel :
      NotificationChannel → AlertSettings → List AlertSubscription → Unsent → LoopStep (Unit {0})
  unfolding send_email
  send_by_channel channel settings subs u = elim channel.details [
    | smtp d ↦ send_email (record {
      details = d;
      notification = u;
      managed_subscriptions = settings.managed_subscriptions;
      sub_token = sub_token subs u.destination "";
    })
    | slack _ ↦ reply internal_error
    | unknown ↦ reply internal_error
  ]

  unfoldable pub deliver :
      NotificationChannel → AlertSettings → List AlertSubscription → Unsent → LoopStep (Unit {0})
  unfolding send_slack send_by_channel
  deliver channel settings subs u =
      if u.kind == "slack"
      then send_slack u
      else if u.kind == "email"
      then send_by_channel channel settings subs u
      else pure tt

  unfoldable pub deliver_all :
      NotificationChannel
      → AlertSettings
      → List AlertSubscription
      → List Unsent
      → LoopStep (Unit {0})
  unfolding isolated deliver
  deliver_all channel settings subs [] = pure tt
  deliver_all channel settings subs (u ∷ us) = do
    isolated (deliver channel settings subs u)
    deliver_all channel settings subs us

  -- The second read transaction, and the loop.
  unfoldable pub deliver_batch : Codec → List Unsent → LoopStep (Unit {0})
  unfolding deliver_all
  deliver_batch codec [] = pure tt
  deliver_batch codec (u ∷ us) = do
    begin env
    channel_id ← exec env get_smtp_setting
    channel ← exec env (get_channel codec channel_id)
    settings ← exec env (get_alert_settings codec)
    subs ← exec env list_active_email_subscriptions
    commit env
    deliver_all channel settings subs (u ∷ us)

  unfoldable pub drain : Codec → LoopStep (Unit {0})
  unfolding deliver_batch
  drain codec = do begin env; unsent ← exec env list_unsent; commit env; deliver_batch codec unsent
