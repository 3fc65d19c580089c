-- ===== src/Notifications/DrainRuns.antt =====
-- A pass of drainNotificationQueue in which nothing fails: every listed notification is stamped.
use mathlib.Core.Path.{subst}
use statusnook.Prelude.{
  Bool, Bool-cases, List, [], all, any, ap, arith, false, if◌then◌else◌, inl, inr, keep, nat_eq,
  not, refl, rewrite, some, string_eq, sym, true, ℕ, ◌&&◌, ◌++◌, ◌+◌, ◌==◌, ◌||◌, ◌∙◌, ◌∷◌, ◌≡◌,
  ◌⊎◌,
}
use statusnook.Alerts.Tables.{AlertNotification, AlertSubscription}
use statusnook.Notifications.Queue.{
  Unsent, is_unsent, list_unsent, lists, unsent_rows, unsent_rows-lists, unsent_rows-sent,
}
use statusnook.World.{Env, done, ok, pure, start, stop, ◌>>=◌}
use statusnook.World.Steps.{NoFaults, and_then, begin-bind_ok, commit-bind_ok, exec-bind_ok}
use statusnook.Notifications.Drain.{
  Carrier, Delivery, Email, deliver, deliver_all, deliver_batch, delivered_id, drain, isolated,
  mailed, posted, resumed, send_by_channel, send_email, send_slack, stamp,
}
use statusnook.Notifications.Tables.{
  AlertSettings, Codec, NotificationChannel, NotificationTables, SmtpDetails, get_alert_settings,
  get_channel, get_smtp_setting, list_active_email_subscriptions, mark_sent, smtp, update_sent_at,
}
use statusnook.Notifications.DrainLaws.{drain-Pass}
use statusnook.Notifications.Stamps.{LoopRun, LoopWorld}
use statusnook.Notifications.Passes.{queue}
use statusnook.World.Reads.{left}

waits : ℕ → AlertNotification → Bool
waits id n = is_unsent n && n.id == id

stamped : ℕ → ℕ → List AlertNotification → List AlertNotification
stamped now id q =
    rewrite (λ (n : AlertNotification). n.id == id) (λ n. record n { sent_at = some now }) q

any-stamped :
    (now k id : ℕ) (q : List AlertNotification)
    → any (waits id) (stamped now k q) ≡ (any (waits id) q && not (k == id))
unfolding waits stamped
any-stamped now k id [] = refl
any-stamped now k id (n ∷ q) =
    ap (λ b. b || any (waits id) (stamped now k q)) (step (n.id == k))
    ∙ ground (arith, any-stamped now k id q)
  where
    step :
        (b : Bool)
        → waits id (if b then record n { sent_at = some now } else n) ≡ (waits id n && not b)
    step true = ground arith
    step false = ground arith

-- The unsent notifications are all still to be delivered.
Remaining : List Unsent → List AlertNotification → Type 0
Remaining us q = (id : ℕ) → any (waits id) q ≡ true → lists us id ≡ true

Remaining-stamped :
    (now : ℕ) (u : Unsent) (us : List Unsent) (q : List AlertNotification)
    → Remaining (u ∷ us) q
    → Remaining us (stamped now u.id q)
unfolding Remaining
Remaining-stamped now u us q h id e = ground (arith, h id, e, any-stamped now u.id id q)

Remaining-mark_sent :
    (now : ℕ) (u : Unsent) (us : List Unsent) (t : NotificationTables)
    → Remaining (u ∷ us) (queue t)
    → Remaining us (queue (mark_sent now u.id t))
unfolding mark_sent stamped
Remaining-mark_sent now u us t = Remaining-stamped now u us (queue t)

none-Remaining : (q : List AlertNotification) → Remaining [] q → any is_unsent q ≡ false
unfolding Remaining waits
none-Remaining [] h = refl
none-Remaining (n ∷ q) h = ground (arith, h n.id, none-Remaining q λ id e. h id (ground (arith, e)))

module _ (env : Env) (quiet : NoFaults env) where
  stamp_ok :
      (id : ℕ) (w : LoopWorld)
      → (left (stamp env id w)).committed ≡ mark_sent env.now id w.committed
  unfolding stamp ◌>>=◌ update_sent_at
  stamp_ok id w = rw (quiet w.calls, quiet (w.calls + 1), quiet (w.calls + 1 + 1), left) refl

  module _ (carrier : Carrier)
      (posts : (log : List Delivery) (u : Unsent) → carrier.post log u ≡ some 200)
      (mails : (log : List Delivery) (e : Email) → carrier.mail log e ≡ true) where
    send_slack_ok :
        (u : Unsent) (w : LoopWorld)
        → (left (send_slack env carrier u w)).committed ≡ mark_sent env.now u.id w.committed
    unfolding send_slack ◌>>=◌
    send_slack_ok u w =
        rw (posts w.memory u, left)
          (stamp_ok u.id (record w { memory = w.memory ++ posted u true ∷ [] }))

    send_email_ok :
        (e : Email) (w : LoopWorld)
        → (left (send_email env carrier e w)).committed
          ≡ mark_sent env.now e.notification.id w.committed
    unfolding send_email ◌>>=◌
    send_email_ok e w =
        rw (mails w.memory e, left)
          (stamp_ok e.notification.id (record w { memory = w.memory ++ mailed e true ∷ [] }))

    module _ (channel : NotificationChannel) (details : SmtpDetails)
        (is_smtp : channel.details ≡ smtp details) (settings : AlertSettings)
        (subs : List AlertSubscription) where
      deliver_ok :
          (u : Unsent) (w : LoopWorld)
          → (u.kind == "slack" || u.kind == "email") ≡ true
          → (left (deliver env carrier channel settings subs u w)).committed
            ≡ mark_sent env.now u.id w.committed
      unfolding deliver send_by_channel
      deliver_ok u w k = go (Bool-cases (u.kind == "slack")) (Bool-cases (u.kind == "email"))
        where
          go :
              ((u.kind == "slack") ≡ true) ⊎ ((u.kind == "slack") ≡ false)
              → ((u.kind == "email") ≡ true) ⊎ ((u.kind == "email") ≡ false)
              → (left (deliver env carrier channel settings subs u w)).committed
                ≡ mark_sent env.now u.id w.committed
          go (inl a) b = rw (a, left) (send_slack_ok u w)
          go (inr a) (inl b) = rw (a, b, is_smtp, left) (send_email_ok _ w)
          go (inr a) (inr b) = absurd (ground (arith, a, b, k))

      deliver_all_ok :
          (us : List Unsent) (w : LoopWorld)
          → all (λ (u : Unsent). u.kind == "slack" || u.kind == "email") us ≡ true
          → Remaining us (queue w.committed)
          → Remaining []
              (queue (left (deliver_all env carrier channel settings subs us w)).committed)
      unfolding deliver_all isolated pure ◌>>=◌
      deliver_all_ok [] w k h = h
      deliver_all_ok (u ∷ us) w k h =
          go (deliver env carrier channel settings subs u w) (deliver_ok u w (ground (arith, k)))
            λ w' e. deliver_all_ok us w' (ground (arith, k)) (
              subst (λ s. Remaining us (queue s)) (sym e)
                (Remaining-mark_sent env.now u us w.committed h))
        where
          go :
              (r : LoopRun (Unit {0}))
              → (left r).committed ≡ mark_sent env.now u.id w.committed
              → ((w' : LoopWorld)
                  → w'.committed ≡ mark_sent env.now u.id w.committed
                  → Remaining [] (
                      queue (left (deliver_all env carrier channel settings subs us w')).committed))
              → Remaining [] (
                  queue
                    (left (
                      and_then
                        (resumed r)
                        λ _. deliver_all env carrier channel settings subs us)).committed)
          go (done _ w') e next = next w' e
          go (stop _ w') e next = next w' e

abbrev pub deliverable : Unsent → Bool
deliverable u = u.kind == "slack" || u.kind == "email"

-- The rows that the loop reads before it delivers anything.
pub record Ready (codec : Codec) (t : NotificationTables) : Type 0 where
  pub channel_id : ℕ
  pub channel : NotificationChannel
  pub details : SmtpDetails
  pub settings : AlertSettings
  pub is_set : get_smtp_setting t ≡ ok channel_id t
  pub is_channel : get_channel codec channel_id t ≡ ok channel t
  pub is_smtp : channel.details ≡ smtp details
  pub are_settings : get_alert_settings codec t ≡ ok settings t

module _ (env : Env) (quiet : NoFaults env) (carrier : Carrier)
    (posts : (log : List Delivery) (u : Unsent) → carrier.post log u ≡ some 200)
    (mails : (log : List Delivery) (e : Email) → carrier.mail log e ≡ true) (codec : Codec)
    (t : NotificationTables) (ready : Ready codec t) where
  at_tables : NotificationTables → List Delivery → ℕ → LoopWorld
  at_tables work log n = record { committed = t; working = work; memory = log; calls = n }

  abbrev list_active : NotificationTables → List AlertSubscription
  list_active s =
      keep (λ (s : AlertSubscription). s.kind == "email" && s.active) s.alerts.subscriptions

  deliver_batch_run :
      (u : Unsent) (us : List Unsent) (log : List Delivery) (n : ℕ)
      → deliver_batch env carrier codec (u ∷ us) (at_tables t log n)
        ≡ deliver_all env carrier ready.channel ready.settings
            (list_active t)
            (u ∷ us)
            (at_tables t log (n + 1 + 1 + 1 + 1 + 1 + 1))
  unfolding deliver_batch at_tables list_active_email_subscriptions
  deliver_batch_run u us log n =
      begin-bind_ok env _ _ (quiet _)
      ∙ exec-bind_ok env _ _ _ _ _ (quiet _) ready.is_set
      ∙ exec-bind_ok env _ _ _ _ _ (quiet _) ready.is_channel
      ∙ exec-bind_ok env _ _ _ _ _ (quiet _) ready.are_settings
      ∙ exec-bind_ok env _ _ _ _ _ (quiet _) refl
      ∙ commit-bind_ok env _ _ (quiet _)

  deliver_batch_ok :
      (us : List Unsent) (log : List Delivery) (n : ℕ)
      → all deliverable us ≡ true
      → Remaining us (queue t)
      → Remaining []
          (queue (left (deliver_batch env carrier codec us (at_tables t log n))).committed)
  unfolding deliver_batch pure at_tables
  deliver_batch_ok [] log n k h = h
  deliver_batch_ok (u ∷ us) log n k h =
      subst (λ r. Remaining [] (queue (left r).committed)) (sym (deliver_batch_run u us log n))
        (deliver_all_ok env quiet carrier posts mails ready.channel ready.details ready.is_smtp
          ready.settings (list_active t) (u ∷ us) (at_tables t log (n + 1 + 1 + 1 + 1 + 1 + 1)) k h)

  drain_run :
      drain env carrier codec (start t [])
      ≡ deliver_batch env carrier codec (unsent_rows t) (at_tables t [] 3)
  unfolding drain list_unsent at_tables
  drain_run =
      begin-bind_ok env _ _ (quiet _)
      ∙ exec-bind_ok env _ _ _ _ _ (quiet _) refl
      ∙ commit-bind_ok env _ _ (quiet _)

  -- The pass after an undisturbed one finds nothing.
  drain-unsent :
      all deliverable (unsent_rows t) ≡ true
      → unsent_rows (left (drain env carrier codec (start t []))).committed ≡ []
  unfolding Remaining waits
  drain-unsent k =
      subst (λ r. unsent_rows (left r).committed ≡ []) (sym drain_run)
        (unsent_rows-sent _ (
          none-Remaining
            (queue
              (left (deliver_batch env carrier codec (unsent_rows t) (at_tables t [] 3))).committed)
            (deliver_batch_ok (unsent_rows t) [] 3 k (unsent_rows-lists t))))

-- A pass over an empty queue hands nothing over.
all-none : {A : Type 0} (xs : List A) → all (λ _. false) xs ≡ true → xs ≡ []
all-none [] h = refl
all-none (x ∷ xs) h = absurd (ground (arith, h))

drain-nothing :
    (env : Env) (carrier : Carrier) (codec : Codec) (t : NotificationTables)
    → unsent_rows t ≡ []
    → (left (drain env carrier codec (start t []))).memory ≡ []
drain-nothing env carrier codec t e = all-none _ (
    subst
      (λ us.
        all (λ d. lists us (delivered_id d)) (left (drain env carrier codec (start t []))).memory
        ≡ true)
      e (drain-Pass env carrier codec t).listed_rows)

-- When no database call fails, the channel and the settings are found, every message is taken
-- and the unsent notifications are for Slack or email, a pass leaves none unsent, and the next
-- pass, whatever fails in it, hands nothing over.
pub drain-drain :
    (env : Env) (quiet : NoFaults env) (carrier : Carrier)
    (posts : (log : List Delivery) (u : Unsent) → carrier.post log u ≡ some 200)
    (mails : (log : List Delivery) (e : Email) → carrier.mail log e ≡ true) (codec : Codec)
    (t : NotificationTables)
    → Ready codec t
    → all deliverable (unsent_rows t) ≡ true
    → (later : Env) (other : Carrier)
    → (unsent_rows (left (drain env carrier codec (start t []))).committed ≡ [])
      × ((left (
            drain later other codec
              (start (left (drain env carrier codec (start t []))).committed []))).memory
          ≡ [])
drain-drain env quiet carrier posts mails codec t ready k later other =
    (sent, drain-nothing later other codec _ sent)
  where
    sent : unsent_rows (left (drain env carrier codec (start t []))).committed ≡ []
    sent = drain-unsent env quiet carrier posts mails codec t ready k
