-- ===== src/Notifications/RequestLaws.antt =====
-- A request for a subscription stores one pending row at most, and mails no other token.
use mathlib.Core.Path.{subst}
use statusnook.Prelude.{
  Bool, Option, String, [], any, ap, arith, false, find, found, inl, inr, ltb, none, refl, some,
  sym, true, ℕ, ◌*◌, ◌++◌, ◌+◌, ◌∙◌, ◌∷◌, ◌≡◌, ◌⊎◌,
}
use statusnook.World.{
  Env, Response, Result, World, bad, constraint, done, fault, good, internal_error, no_rows,
  or_error, pure, reply, serve, ◌>>=◌, ◌>>◌,
}
use statusnook.World.Hoare.{Gives, Triple, Triple-pure}
use statusnook.World.Stores.{
  Forgetful, Forgetful-attempt, Stores, Stores-begin, Stores-bind, Stores-commit, Stores-demand,
  Stores-exec, Stores-given, Stores-pure, Stores-recall, Stores-refuse_if, Stores-serve,
  Stores-weaken,
}
use statusnook.Engine.{Engine}
use statusnook.Alerts.Tables.{AlertSubscription}
use statusnook.Notifications.Tables.{
  Codec, NotificationTables, SmtpDetails, get_channel, get_smtp_setting,
}
use statusnook.Notifications.ReadLaws.{get_channel-same, get_smtp_setting-same}
use statusnook.Notifications.Subscribe.{
  Postmark, get_subscription_by_email, is_subscription, subscription_active,
}
use statusnook.Notifications.SubscribeLaws.{is_active, subscriptions_of}
use statusnook.Notifications.ConfirmLaws.{reads}
use statusnook.Notifications.Request.{
  ConfirmationMail, MailService, RequestHandler, RequestMemory, Sending, accepted, hand_over,
  has_recent_pending, insert_pending, is_recent, new_pending, post_subscribe_email, refused,
  request_subscription, send_confirmation, sent, store_pending, sync_if_due, unbuilt, unless_done,
  with_pending,
}
use statusnook.Auth.Tables.{second}
use statusnook.World.Attempts.{Answers, Triple-attempt, Triple-reply}

-- Whether the address has an active subscription.
abbrev pub subscribed : Engine → String → NotificationTables → Bool
subscribed eng email t =
    found is_active (find (is_subscription eng "email" email) (subscriptions_of t))

-- What a request changed: nothing, or one pending row, and one mail at most, with the row's token.
pub data Requested (eng : Engine) (email : String) (now : ℕ) (t : NotificationTables)
    (m : RequestMemory) : NotificationTables → RequestMemory → Type 0 where
  unchanged : Requested eng email now t m t m
  requested :
      (token : String) (details : SmtpDetails) {m' : RequestMemory}
      → subscribed eng email t ≡ false
      → any (is_recent eng email now) t.alerts.pending ≡ false
      → (m'.mails ≡ m.mails)
        ⊎ (m'.mails ≡ m.mails ++ record { email = email; token = token; details = details } ∷ [])
      → Requested eng email now t m
          (with_pending
            (t.alerts.pending ++ new_pending eng token email now t.alerts.pending ∷ [])
            t)
          m'

Forgetful-subscription_active :
    (r : Result AlertSubscription) → Forgetful (subscription_active {M = RequestMemory} r)
unfolding subscription_active pure reply
Forgetful-subscription_active (good s) = record { at = λ w. refl }
Forgetful-subscription_active (bad no_rows) = record { at = λ w. refl }
Forgetful-subscription_active (bad constraint) = record { at = λ w. refl }
Forgetful-subscription_active (bad fault) = record { at = λ w. refl }

-- The memory after a mail's sending.
after_sending : ConfirmationMail → Sending → RequestMemory → RequestMemory
after_sending mail unbuilt m = m
after_sending mail refused m = record m { mails = m.mails ++ mail ∷ [] }
after_sending mail sent m = record m { mails = m.mails ++ mail ∷ [] }

reply_of : Sending → Response
reply_of unbuilt = internal_error
reply_of refused = internal_error
reply_of sent = accepted

send_confirmation-run :
    (mail : ConfirmationMail) (x : Sending) (w : World NotificationTables RequestMemory)
    → send_confirmation mail x w
      ≡ done (reply_of x) (record w { memory = after_sending mail x w.memory })
unfolding send_confirmation hand_over pure ◌>>=◌ reply_of after_sending
send_confirmation-run mail unbuilt w = refl
send_confirmation-run mail refused w = refl
send_confirmation-run mail sent w = refl

after_sending-mails :
    (mail : ConfirmationMail) (x : Sending) (m : RequestMemory)
    → ((after_sending mail x m).mails ≡ m.mails)
      ⊎ ((after_sending mail x m).mails ≡ m.mails ++ mail ∷ [])
unfolding after_sending
after_sending-mails mail unbuilt m = inl refl
after_sending-mails mail refused m = inr refl
after_sending-mails mail sent m = inr refl

Gives-insert_pending :
    (eng : Engine) (token email : String) (now : ℕ) (t : NotificationTables)
    → Gives
        (λ _ s.
          s
          ≡ with_pending
              (t.alerts.pending ++ new_pending eng token email now t.alerts.pending ∷ [])
              t)
        (insert_pending eng token email now t)
unfolding insert_pending
Gives-insert_pending eng token email now t = refl

Gives-has_recent_pending :
    (eng : Engine) (email : String) (now : ℕ) (t : NotificationTables)
    → Gives
        (λ b s. (s ≡ t) × (any (is_recent eng email now) t.alerts.pending ≡ b))
        (has_recent_pending eng email now t)
unfolding has_recent_pending
Gives-has_recent_pending eng email now t = (refl, refl)

module _ (env : Env) (eng : Engine) (codec : Codec) (postmark : Postmark) (mail : MailService)
    (email : String) (t : NotificationTables) (m : RequestMemory) where
  abbrev Good : Response → NotificationTables → RequestMemory → Type 0
  Good _ s m' = Requested eng email env.now t m s m'

  store_pending-Requested :
      (random : Option String)
      → subscribed eng email t ≡ false
      → any (is_recent eng email env.now) t.alerts.pending ≡ false
      → Stores t m (λ s. s ≡ t) (store_pending env eng codec postmark mail email random) Good
  unfolding store_pending
  store_pending-Requested random off fresh = Stores-demand _ _ _ (omega arith) λ token _.
      Stores-exec (λ _ s. s ≡ after token) env _ _
        (reads (λ _ s. s ≡ after token) (insert_pending eng token email env.now)
          (Gives-insert_pending eng token email env.now t))
        λ _.
          Stores-exec (λ _ s. s ≡ after token) env _ _
            (reads (λ _ s. s ≡ after token) get_smtp_setting (get_smtp_setting-same (after token)))
            λ channel_id.
              Stores-exec (λ _ s. s ≡ after token) env _ _
                (reads (λ _ s. s ≡ after token) (get_channel codec channel_id)
                  (get_channel-same codec channel_id (after token)))
                λ channel. Stores-demand _ _ _ (omega arith) λ details _.
                  Stores-commit env _
                    (after_sending (message token details) (mail.send (message token details)))
                    (reply_of (mail.send (message token details)))
                    (send_confirmation-run (message token details)
                      (mail.send (message token details)))
                    λ s e.
                      subst (λ x. Requested eng email env.now t m x (memory token details)) (sym e)
                        (requested token details {m' = memory token details} off fresh (
                          after_sending-mails (message token details)
                            (mail.send (message token details)) m))
    where
      after : String → NotificationTables
      after token =
          with_pending
            (t.alerts.pending ++ new_pending eng token email env.now t.alerts.pending ∷ []) t

      memory : String → SmtpDetails → RequestMemory
      memory token details =
          after_sending (record { email = email; token = token; details = details })
            (mail.send (record { email = email; token = token; details = details })) m

      message : String → SmtpDetails → ConfirmationMail
      message token details = record { email = email; token = token; details = details }

  -- What the lookup of the subscription says.
  Known : Result AlertSubscription → Type 0
  Known (good s) = subscribed eng email t ≡ s.active
  Known (bad no_rows) = subscribed eng email t ≡ false
  Known (bad constraint) = Unit
  Known (bad fault) = Unit

  Answers-Known : Answers (λ r s. (s ≡ t) × Known r) t (get_subscription_by_email eng email t)
  unfolding get_subscription_by_email Known
  Answers-Known = go (find (is_subscription eng "email" email) t.alerts.subscriptions) refl
    where
      go :
          (o : Option AlertSubscription)
          → find (is_subscription eng "email" email) t.alerts.subscriptions ≡ o
          → Answers (λ r s. (s ≡ t) × Known r) t (or_error no_rows t o)
      go none e = (refl, ap (found is_active) e)
      go (some s) e = (refl, ap (found is_active) e)

  Triple-subscription_active-Known :
      (r : Result AlertSubscription)
      → Triple {M = RequestMemory} t
          (λ s. (s ≡ t) × Known r)
          (subscription_active r)
          (λ a s. (s ≡ t) × (subscribed eng email t ≡ a))
  unfolding subscription_active Known
  Triple-subscription_active-Known (good s) = Triple-pure s.active λ x h. h
  Triple-subscription_active-Known (bad no_rows) = Triple-pure false λ x h. h
  Triple-subscription_active-Known (bad constraint) = Triple-reply internal_error (omega arith)
  Triple-subscription_active-Known (bad fault) = Triple-reply internal_error (omega arith)

  unless_done-Requested :
      {P : NotificationTables → Type 0} (over : Bool) (k : RequestHandler Response)
      → (over ≡ false → Stores t m P k Good)
      → Stores t m P (unless_done env eng codec postmark mail over k) Good
  unfolding unless_done
  unless_done-Requested true k h = Stores-pure accepted unchanged
  unless_done-Requested false k h = h refl

  request_subscription-Stores :
      (random : Option String)
      → Stores t m (λ s. s ≡ t) (request_subscription env eng codec postmark mail email random) Good
  unfolding request_subscription Known
  request_subscription-Stores random = Stores-begin env _ (
      Stores-bind _ _ (Forgetful-attempt env _)
        (Triple-attempt {Q = λ r s. (s ≡ t) × Known r} env _ λ s e. (answers s e, (e, tt)))
        λ row.
          Stores-bind _ _ (Forgetful-subscription_active row) (Triple-subscription_active-Known row)
            λ active.
              Stores-given (λ s h. h.1)
                λ off. unless_done-Requested active _ λ a.
                  Stores-exec
                    (λ b s. (s ≡ t) × (any (is_recent eng email env.now) t.alerts.pending ≡ b)) env
                    _ _
                    (λ s h.
                      reads
                        (λ b s. (s ≡ t) × (any (is_recent eng email env.now) t.alerts.pending ≡ b))
                        (has_recent_pending eng email env.now)
                        (Gives-has_recent_pending eng email env.now t) s h.0)
                    λ recent.
                      Stores-given (λ s h. h.1)
                        λ fresh. unless_done-Requested recent _ λ b.
                          Stores-weaken (λ s h. h.0)
                            (store_pending-Requested random (off ∙ a) (fresh ∙ b)))
    where
      answers :
          (s : NotificationTables)
          → s ≡ t
          → Answers (λ r s'. (s' ≡ t) × Known r) s (get_subscription_by_email eng email s)
      answers s e =
          subst
            (λ x. Answers (λ r s'. (s' ≡ t) × Known r) x (get_subscription_by_email eng email x))
            (sym e) Answers-Known

  not_due-Stores :
      {P : NotificationTables → Type 0} (due : Bool) (k : RequestHandler Response)
      → due ≡ false
      → Stores t m P k Good
      → Stores t m P (sync_if_due env eng codec postmark mail due >> k) Good
  unfolding sync_if_due pure ◌>>=◌
  not_due-Stores true k e h = absurd (ground (arith, e))
  not_due-Stores false k e h = record { at = λ w c x p. h.at w c x p }

  -- While no reading of the suppressions is due, a request for a subscription changes
  -- nothing, or the address had neither an active subscription nor a recent request, exactly
  -- one pending row is added, and one mail at most is handed over, with the token of that
  -- row; so whatever fails.
  pub post_subscribe_email-Requested :
      (random : Option String)
      → ltb (m.last_sync + 10 * second) env.now ≡ false
      → Requested eng email env.now t m
          (serve (post_subscribe_email env eng codec postmark mail email random) t m).tables
          (serve (post_subscribe_email env eng codec postmark mail email random) t m).kept
  unfolding post_subscribe_email
  post_subscribe_email-Requested random synced =
      Stores-serve {Good = Good} _
        (Stores-refuse_if _ _ _ (omega arith)
          λ _. Stores-recall _ (not_due-Stores _ _ synced (request_subscription-Stores random)))
        (λ _ _. unchanged)
