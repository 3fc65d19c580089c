-- ===== src/Notifications/Subscribe.antt =====
-- The subscriptions by email of notifications2.go: the confirmation of a pending one, the link that
-- ends one and the one that takes it up again, with their statements of sql/alerts.sql.
use statusnook.Prelude.{
  Bool, List, Option, String, [], any, false, find, if◌then◌else◌, ltb, map, nat_eq, none, not,
  rewrite, some, string_eq, true, ℕ, ◌&&◌, ◌*◌, ◌++◌, ◌+◌, ◌==◌, ◌∷◌,
}
use statusnook.World.{
  Answer, Env, H, Response, Result, attempt, bad, bad_request, begin, commit, constraint, demand,
  exec, fault, good, internal_error, no_rows, ok, or_error, pure, redirect, refuse_if, reply,
  status_only, ◌>>=◌, ◌>>◌,
}
use statusnook.Engine.{Engine}
use statusnook.Auth.Tables.{second}
use statusnook.Alerts.Tables.{AlertSubscription, PendingSubscription}
use statusnook.Notifications.Tables.{
  Codec, NotificationChannel, NotificationTables, SmtpDetails, get_alert_settings, get_channel,
  get_smtp_setting, slack, smtp, unknown,
}

abbrev pub pending_subscription_lifetime : ℕ
pending_subscription_lifetime = 24 * 3600 * second

abbrev pub with_subscriptions : List AlertSubscription → NotificationTables → NotificationTables
with_subscriptions subs t = record t { alerts = record (t.alerts) { subscriptions = subs } }

-- A destination is compared without regard to case.
abbrev pub is_subscription : Engine → String → String → AlertSubscription → Bool
is_subscription eng kind destination s = s.kind == kind && eng.nocase s.destination destination

-- GetAlertSubscriptionByEmail
unfoldable pub get_subscription_by_email :
    Engine → String → NotificationTables → Answer NotificationTables AlertSubscription
get_subscription_by_email eng email t =
    or_error no_rows t (find (is_subscription eng "email" email) t.alerts.subscriptions)

-- `created_at` is later than the lifetime before `now`.
abbrev pub is_open : String → ℕ → PendingSubscription → Bool
is_open token now p =
    p.token == token
    && (elim p.confirmed_at [ none ↦ true | some _ ↦ false ]
        && ltb now (p.created_at + pending_subscription_lifetime))

abbrev pub email_of : Option PendingSubscription → Option String
email_of none = none
email_of (some p) = some p.email

-- GetPendingEmailAlertSubscriptionEmailByToken
unfoldable pub get_pending_email :
    String → ℕ → NotificationTables → Answer NotificationTables String
get_pending_email token now t =
    or_error no_rows t (email_of (find (is_open token now) t.alerts.pending))

-- UpdatePendingEmailAlertSubscription
unfoldable pub confirm_pending :
    ℕ → String → NotificationTables → Answer NotificationTables (Unit {0})
confirm_pending now token t = ok tt (record t {
  alerts = record (t.alerts) {
    pending =
        rewrite (λ (p : PendingSubscription). p.token == token)
          (λ p. record p { confirmed_at = some now }) t.alerts.pending;
  };
})

-- nullif(?, '')
abbrev pub null_if_empty : String → Option String
null_if_empty s = if s == "" then none else some s

abbrev pub new_subscription :
    Engine → String → String → String → List AlertSubscription → AlertSubscription
new_subscription eng kind destination meta subs = record {
  id = eng.fresh (map (λ (s : AlertSubscription). s.id) subs);
  kind = kind;
  destination = destination;
  meta = null_if_empty meta;
  active = true;
}

-- CreateAlertSubscription: `on conflict(type, destination) do update set active = true`
unfoldable pub insert_subscription :
    Engine → String → String → String → NotificationTables → Answer NotificationTables (Unit {0})
insert_subscription eng kind destination meta t =
    let subs = t.alerts.subscriptions in
    ok tt (
      with_subscriptions
        (if any (is_subscription eng kind destination) subs
          then rewrite (is_subscription eng kind destination) (λ s. record s { active = true }) subs
          else subs ++ new_subscription eng kind destination meta subs ∷ [])
        t)

abbrev pub has_meta : String → AlertSubscription → Bool
has_meta meta s = s.kind == "email" && elim s.meta [ none ↦ false | some m ↦ m == meta ]

-- UpdateEmailAlertSubscriptionActiveByMeta
unfoldable pub set_active_by_meta :
    String → Bool → NotificationTables → Answer NotificationTables (Unit {0})
set_active_by_meta meta active t = ok tt (
    with_subscriptions
      (rewrite (has_meta meta) (λ s. record s { active = active }) t.alerts.subscriptions) t)

abbrev pub SubscriptionHandler : Type 0 → Type 0
SubscriptionHandler A = H NotificationTables (Unit {0}) A

-- postmarkDeleteSuppression, for a host that is Postmark's: whether it fails.
pub record Postmark : Type 0 where
  pub is_postmark : SmtpDetails → Bool
  pub suppression_fails : String → SmtpDetails → Bool

-- `sub.Active`, where sql.ErrNoRows leaves the zero value.
unfoldable pub subscription_active :
    {M : Type 0} → Result AlertSubscription → H NotificationTables M Bool
subscription_active (good s) = pure s.active
subscription_active (bad no_rows) = pure false
subscription_active (bad constraint) = reply internal_error
subscription_active (bad fault) = reply internal_error

abbrev pub smtp_of : NotificationChannel → Option SmtpDetails
smtp_of channel = elim channel.details [ smtp d ↦ some d | slack _ ↦ none | unknown ↦ none ]

module _ (env : Env) where
  -- The transaction of postSubscribeEmailConfirm that writes.
  unfoldable pub store_subscription :
      Engine → String → String → Option String → SubscriptionHandler Response
  store_subscription eng token email random = do
    begin env
    exec env (confirm_pending env.now token)
    meta ← demand random internal_error
    exec env (insert_subscription eng "email" email meta)
    commit env
    pure (redirect "/?email_subscribed=1")

  unfoldable pub confirm_email :
      Codec
      → Postmark
      → Engine
      → NotificationChannel
      → String
      → String
      → Option String
      → SubscriptionHandler Response
  unfolding store_subscription
  confirm_email codec postmark eng channel token email random = do
    details ← demand (smtp_of channel) internal_error
    settings ← exec env (get_alert_settings codec)
    commit env
    refuse_if
        (not settings.managed_subscriptions
          && (postmark.is_postmark details && postmark.suppression_fails email details))
        internal_error
    store_subscription eng token email random

  -- `if sub.Active { return }`
  unfoldable pub unless_active : Bool → SubscriptionHandler Response → SubscriptionHandler Response
  unless_active active rest = if active then pure (status_only 200) else rest

  unfoldable pub post_subscribe_email_confirm :
      Codec → Postmark → Engine → String → Option String → SubscriptionHandler Response
  unfolding subscription_active confirm_email unless_active
  post_subscribe_email_confirm codec postmark eng token random = do
    refuse_if (token == "") bad_request
    begin env
    channel_id ← exec env get_smtp_setting
    channel ← exec env (get_channel codec channel_id)
    email ← exec env (get_pending_email token env.now)
    row ← attempt env (get_subscription_by_email eng email)
    active ← subscription_active row
    unless_active active (confirm_email codec postmark eng channel token email random)

  -- The transaction of postUnsubscribe and postResubscribe; the page rendered after it is `page`.
  unfoldable pub set_active : Bool → String → Response → SubscriptionHandler Response
  set_active active token page = do
    refuse_if (token == "") bad_request
    begin env
    exec env (set_active_by_meta token active)
    commit env
    pure page

  unfoldable pub post_unsubscribe : String → String → Response → SubscriptionHandler Response
  unfolding set_active
  post_unsubscribe form_token query_token page =
      set_active false (if form_token == "" then query_token else form_token) page

  unfoldable pub post_resubscribe : String → Response → SubscriptionHandler Response
  unfolding set_active
  post_resubscribe form_token page = set_active true form_token page
