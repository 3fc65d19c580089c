-- ===== src/Notifications/ConfirmLaws.antt =====
-- The handler of a confirmation, whatever database calls fail.
use mathlib.Core.Path.{subst}
use statusnook.Prelude.{Bool, Option, String, arith, false, sym, true, ◌≡◌}
use statusnook.World.{Answer, Env, Response, internal_error, ok, pure, serve, status_only}
use statusnook.World.Hoare.{
  Gives, Outcome, Serves, Serves-bind, Serves-commit, Serves-serve, Serves-weaken, Triple-begin,
  Triple-demand, Triple-exec, Triple-refuse_if,
}
use statusnook.Engine.{Engine}
use statusnook.Notifications.Tables.{
  Codec, NotificationChannel, NotificationTables, get_alert_settings, get_channel, get_smtp_setting,
}
use statusnook.Notifications.ReadLaws.{
  get_alert_settings-same, get_channel-same, get_smtp_setting-same,
}
use statusnook.Notifications.Subscribe.{
  Postmark, confirm_email, confirm_pending, get_pending_email, get_subscription_by_email,
  post_subscribe_email_confirm, smtp_of, store_subscription, unless_active,
}
use statusnook.World.Attempts.{Answers, Serves-given, Triple-attempt, Triple-commit_same}
use statusnook.Notifications.SubscribeLaws.{
  Answers-get_subscription_by_email, Confirmed, Confirming, FoundSubscription,
  Gives-get_pending_email, Subscribed, already, confirm_pending-Confirming, has_active,
  insert_subscription-Subscribed, stored, subscription_active-found,
}

-- A statement that reads, from tables known to be `t`.
pub reads :
    {A : Type 0} {t : NotificationTables} (Q : A → NotificationTables → Type 0)
    (statement : NotificationTables → Answer NotificationTables A)
    → Gives Q (statement t)
    → (s : NotificationTables) → s ≡ t
    → Gives Q (statement s)
reads Q statement h s e = subst (λ x. Gives Q (statement x)) (sym e) h

module _ (env : Env) (eng : Engine) (token : String) (t : NotificationTables) where
  abbrev Good : Response → NotificationTables → Type 0
  Good r s = Confirmed eng token env.now t r s

  store-Serves :
      {P : NotificationTables → Type 0} (email : String) (random : Option String)
      → get_pending_email token env.now t ≡ ok email t
      → has_active eng email t ≡ false
      → Serves {M = Unit {0}} t P (store_subscription env eng token email random) Good
  unfolding store_subscription
  store-Serves email random e inactive = Serves-bind _ _ (Triple-begin env) λ _.
      Serves-bind _ _
        (Triple-exec env {Q = λ _ s. Confirming token env.now t s} _ (
          reads (λ _ s. Confirming token env.now t s) (confirm_pending env.now token)
            (confirm_pending-Confirming token env.now t)))
        λ _.
          Serves-bind _ _
            (Triple-demand {Q = λ _ s. Confirming token env.now t s} random internal_error
              (omega arith) λ _ _ s h. h)
            λ meta.
              Serves-bind _ _
                (Triple-exec env {Q = λ _ s. Subscribed eng token env.now t s} _ λ s h.
                  insert_subscription-Subscribed eng token env.now t email meta s e inactive h)
                λ _. Serves-commit env _ λ s h. stored h

  module _ (codec : Codec) (postmark : Postmark) where
    confirm-Serves :
        (channel : NotificationChannel) (email : String) (random : Option String)
        → get_pending_email token env.now t ≡ ok email t
        → has_active eng email t ≡ false
        → Serves t
            (λ s. s ≡ t)
            (confirm_email env codec postmark eng channel token email random)
            Good
    unfolding confirm_email
    confirm-Serves channel email random e inactive =
        Serves-bind _ _
          (Triple-demand {Q = λ _ s. s ≡ t} (smtp_of channel) internal_error (omega arith)
            λ _ _ s h. h)
          λ details.
            Serves-bind _ _
              (Triple-exec env {Q = λ _ s. s ≡ t} _
                (reads (λ _ s. s ≡ t) (get_alert_settings codec) (get_alert_settings-same codec t)))
              λ settings. Serves-bind _ _ (Triple-commit_same env λ s h. h) λ _.
                Serves-bind _ _ (Triple-refuse_if {Q = λ _ s. s ≡ t} _ _ (omega arith) λ _ s h. h)
                  λ _. store-Serves email random e inactive

    unless_active-Serves :
        (active : Bool) (channel : NotificationChannel) (email : String) (random : Option String)
        → get_pending_email token env.now t ≡ ok email t
        → has_active eng email t ≡ active
        → Serves t
            (λ s. s ≡ t)
            (unless_active env active
              (confirm_email env codec postmark eng channel token email random))
            Good
    unfolding unless_active pure
    unless_active-Serves false channel email random e inactive =
        confirm-Serves channel email random e inactive
    unless_active-Serves true channel email random e active = record {
      at = λ w c h. subst (Good (status_only 200)) (sym c) (already e active);
    }

    -- A confirmation is refused and changes no table; or the address of the open pending
    -- subscription has an active subscription and no table changes; or it has none, and
    -- then it has one afterwards, the subscriptions of other addresses are as they were,
    -- and the token is spent. So whatever database calls fail.
    pub post_subscribe_email_confirm-Confirmed :
        (random : Option String)
        → Outcome
            (Confirmed eng token env.now t)
            t
            (serve (post_subscribe_email_confirm env codec postmark eng token random) t tt)
    unfolding post_subscribe_email_confirm FoundSubscription
    post_subscribe_email_confirm-Confirmed random = Serves-serve Good _ t tt (
        Serves-bind _ _ (Triple-refuse_if {Q = λ _ s. s ≡ t} _ _ (omega arith) λ _ s h. h) λ _.
          Serves-bind _ _ (Triple-begin env) λ _.
            Serves-bind _ _
              (Triple-exec env {Q = λ _ s. s ≡ t} _
                (reads (λ _ s. s ≡ t) get_smtp_setting (get_smtp_setting-same t)))
              λ channel_id.
                Serves-bind _ _
                  (Triple-exec env {Q = λ _ s. s ≡ t} _ (
                    reads (λ _ s. s ≡ t) (get_channel codec channel_id)
                      (get_channel-same codec channel_id t)))
                  λ channel.
                    Serves-bind _ _
                      (Triple-exec env
                        {Q = λ email s. (s ≡ t) × (get_pending_email token env.now t ≡ ok email t)}
                        _
                        (reads
                          (λ email s. (s ≡ t) × (get_pending_email token env.now t ≡ ok email t))
                          (get_pending_email token env.now)
                          (Gives-get_pending_email eng token env.now t)))
                      λ email.
                        Serves-given (λ s h. h.1)
                          λ e.
                            Serves-bind _ _
                              (Triple-attempt
                                {Q = λ row s. (s ≡ t) × FoundSubscription eng email t row} env _
                                λ s h. (answers email s h.0, (h.0, tt)))
                              λ row.
                                Serves-bind _ _ (subscription_active-found eng t email row)
                                  λ active.
                                    Serves-given (λ s h. h.1)
                                      λ f.
                                        Serves-weaken
                                          (unless_active-Serves active channel email random e f)
                                          λ s h. h.0)
      where
        answers :
            (email : String) (s : NotificationTables)
            → s ≡ t
            → Answers
                (λ row x. (x ≡ t) × FoundSubscription eng email t row)
                s
                (get_subscription_by_email eng email s)
        answers email s h =
            subst
              (λ x.
                Answers (λ row y. (y ≡ t) × FoundSubscription eng email t row) x
                  (get_subscription_by_email eng email x))
              (sym h) (Answers-get_subscription_by_email eng t email)
