-- ===== src/Notifications/Request.antt =====
-- postSubscribeEmail of notifications2.go: the request for a subscription by email, with the
-- suppressions that it reads from Postmark every ten seconds.
use statusnook.Prelude.{
  Bool, List, Option, String, [], any, false, if◌then◌else◌, leb, ltb, map, nat_eq, none, not,
  rewrite, string_eq, ℕ, ◌&&◌, ◌*◌, ◌++◌, ◌+◌, ◌/◌, ◌==◌, ◌∷◌,
}
use statusnook.World.{
  Answer, Env, H, Response, Result, attempt, bad, bad_request, begin, commit, constraint, demand,
  exec, fault, good, internal_error, no_rows, ok, pure, recall, refuse_if, remember, reply,
  status_only, ◌>>=◌, ◌>>◌,
}
use statusnook.Engine.{Engine}
use statusnook.Auth.Tables.{second}
use statusnook.Alerts.Tables.{AlertSubscription, PendingSubscription}
use statusnook.Notifications.Tables.{
  Codec, NotificationTables, SmtpDetails, get_alert_settings, get_channel, get_smtp_setting,
}
use statusnook.Notifications.Subscribe.{
  Postmark, get_subscription_by_email, is_subscription, smtp_of, subscription_active,
  with_subscriptions,
}

-- The mail with the link that confirms.
pub record ConfirmationMail : Type 0 where
  pub email : String
  pub token : String
  pub details : SmtpDetails

-- lastSuppressionSync, and the mails handed to smtp.SendMail.
pub record RequestMemory : Type 0 where
  pub last_sync : ℕ
  pub mails : List ConfirmationMail

-- The mail's template fails, or smtp.SendMail fails, or takes the mail.
pub data Sending : Type 0 where
  unbuilt refused sent : Sending

-- mail.ParseAddress, the answer of postmarkDumpSupressions, and what becomes of a mail.
pub record MailService : Type 0 where
  pub is_address : String → Bool
  pub suppressions : SmtpDetails → Option (List String)
  pub send : ConfirmationMail → Sending

abbrev pub RequestHandler : Type 0 → Type 0
RequestHandler A = H NotificationTables RequestMemory A

abbrev pub with_pending : List PendingSubscription → NotificationTables → NotificationTables
with_pending pending t = record t { alerts = record (t.alerts) { pending = pending } }

-- datetime(?, '-10 minutes') drops the fraction of a second.
unfoldable pub is_recent : Engine → String → ℕ → PendingSubscription → Bool
is_recent eng email now p =
    eng.nocase p.email email && leb (now / second * second) (p.created_at + 10 * 60 * second)

-- CheckHasRecentPendingEmailAlertSubscription
unfoldable pub has_recent_pending :
    Engine → String → ℕ → NotificationTables → Answer NotificationTables Bool
unfolding is_recent
has_recent_pending eng email now t = ok (any (is_recent eng email now) t.alerts.pending) t

abbrev pub new_pending :
    Engine → String → String → ℕ → List PendingSubscription → PendingSubscription
new_pending eng token email now pending = record {
  id = eng.fresh (map (λ (p : PendingSubscription). p.id) pending);
  token = token;
  email = email;
  created_at = now;
  confirmed_at = none;
}

-- CreatePendingEmailAlertSubscription
unfoldable pub insert_pending :
    Engine → String → String → ℕ → NotificationTables → Answer NotificationTables (Unit {0})
insert_pending eng token email now t =
    ok tt
      (with_pending (t.alerts.pending ++ new_pending eng token email now t.alerts.pending ∷ []) t)

-- UpdateEmailAlertSubscriptionActiveByEmail
unfoldable pub set_active_by_email :
    Engine → String → Bool → NotificationTables → Answer NotificationTables (Unit {0})
set_active_by_email eng email active t = ok tt (
    with_subscriptions
      (rewrite (is_subscription eng "email" email) (λ s. record s { active = active })
        t.alerts.subscriptions)
      t)

-- `sub.ID != 0`, where sql.ErrNoRows leaves the zero value.
unfoldable pub subscription_known : Result AlertSubscription → RequestHandler Bool
subscription_known (good s) = pure (not (s.id == 0))
subscription_known (bad no_rows) = pure false
subscription_known (bad constraint) = reply internal_error
subscription_known (bad fault) = reply internal_error

-- The modal of a request that was accepted, or told off.
abbrev pub accepted : Response
accepted = status_only 200

unfoldable pub hand_over : ConfirmationMail → RequestHandler (Unit {0})
hand_over mail = do m ← recall; remember (record m { mails = m.mails ++ mail ∷ [] })

-- From the headers of the mail to the reply.
unfoldable pub send_confirmation : ConfirmationMail → Sending → RequestHandler Response
unfolding hand_over
send_confirmation mail unbuilt = pure internal_error
send_confirmation mail refused = hand_over mail >> pure internal_error
send_confirmation mail sent = hand_over mail >> pure accepted

module _ (env : Env) (eng : Engine) where
  unfoldable pub deactivate : String → Bool → RequestHandler (Unit {0})
  deactivate email known = if known then exec env (set_active_by_email eng email false) else pure tt

  -- One transaction for each suppressed address.
  unfoldable pub suppress_all : List String → RequestHandler (Unit {0})
  unfolding subscription_known deactivate
  suppress_all [] = pure tt
  suppress_all (email ∷ emails) = do
    begin env
    row ← attempt env (get_subscription_by_email eng email)
    known ← subscription_known row
    deactivate email known
    commit env
    suppress_all emails

  module _ (codec : Codec) (postmark : Postmark) (mail : MailService) where
    unfoldable pub fetch_suppressions : Bool → SmtpDetails → RequestHandler (Unit {0})
    unfolding suppress_all
    fetch_suppressions needed details =
        if needed
        then (demand (mail.suppressions details) internal_error >>= λ emails. suppress_all emails)
        else pure tt

    -- The block that supressionSyncMu guards.
    unfoldable pub sync_suppressions : RequestHandler (Unit {0})
    unfolding fetch_suppressions
    sync_suppressions = do
      begin env
      channel_id ← exec env get_smtp_setting
      channel ← exec env (get_channel codec channel_id)
      details ← demand (smtp_of channel) internal_error
      settings ← exec env (get_alert_settings codec)
      commit env
      fetch_suppressions (not settings.managed_subscriptions && postmark.is_postmark details)
          details
      m ← recall
      remember (record m { last_sync = env.now })

    unfoldable pub sync_if_due : Bool → RequestHandler (Unit {0})
    unfolding sync_suppressions
    sync_if_due due = if due then sync_suppressions else pure tt

    -- From the random bytes to the reply.
    unfoldable pub store_pending : String → Option String → RequestHandler Response
    unfolding send_confirmation
    store_pending email random = do
      token ← demand random internal_error
      exec env (insert_pending eng token email env.now)
      channel_id ← exec env get_smtp_setting
      channel ← exec env (get_channel codec channel_id)
      details ← demand (smtp_of channel) internal_error
      commit env
      let message : ConfirmationMail = record { email = email; token = token; details = details }
      send_confirmation message (mail.send message)

    -- `if hasRecentPendingSub { … return }`
    unfoldable pub unless_done : Bool → RequestHandler Response → RequestHandler Response
    unless_done over rest = if over then pure accepted else rest

    -- The transaction of the request.
    unfoldable pub request_subscription : String → Option String → RequestHandler Response
    unfolding subscription_active unless_done store_pending
    request_subscription email random = do
      begin env
      row ← attempt env (get_subscription_by_email eng email)
      active ← subscription_active row
      unless_done active (do
        recent ← exec env (has_recent_pending eng email env.now)
        unless_done recent (store_pending email random))

    unfoldable pub post_subscribe_email : String → Option String → RequestHandler Response
    unfolding sync_if_due request_subscription
    post_subscribe_email email random = do
      refuse_if (not (mail.is_address email)) bad_request
      m ← recall
      sync_if_due (ltb (m.last_sync + 10 * second) env.now)
      request_subscription email random
