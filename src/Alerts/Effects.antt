-- ===== src/Alerts/Effects.antt =====
-- What a new message queues for the subscribers, and what deleting an alert leaves behind.
use statusnook.Prelude.{
  All, Bool, Bool-cases, List, Option, String, [], any, ap, arith, eq_iff, false, inl, inr, keep,
  map, nat_eq, none, not, refl, some, string_eq, sym, ℕ, ◌++◌, ◌==◌, ◌∙◌, ◌∷◌, ◌≡◌, ◌≢◌,
}
use statusnook.Text.{atoi, names_row, ℤ}
use statusnook.World.{Env, Response, final, serve, status_only}
use statusnook.World.Steps.{
  NoFaults, begin-bind_ok, commit-bind_ok, demand-bind_some, exec-bind_ok, pure-run,
}
use statusnook.World.Rules.{Serves-Quiet}
use statusnook.World.Hoare.{
  Anything, Gives, Outcome, Serves-bind, Serves-commit, Serves-serve, Triple-begin, Triple-exec,
}
use statusnook.Engine.{Engine}
use statusnook.Alerts.Tables.{
  Alert, AlertMessage, AlertNotification, AlertService, AlertSubscription, AlertTables,
}
use statusnook.Alerts.Queries.{
  delete_alert_row, drop_messages, has_alert, has_message, insert_message, insert_notifications,
  is_ongoing, queue_rows,
}
use statusnook.Alerts.Severity.{is_severity, worst}
use statusnook.Alerts.SeverityLaws.{SeverityIsCurrent}
use statusnook.Alerts.Handlers.{delete_alert, parse_id, post_add_alert_message}
use statusnook.Alerts.Kept.{Keeps-parse_id}
use mathlib.Core.Path.{ap₂}
use mathlib.Core.List.{append-nil, append_assoc, map-append}

-- A queued notification, its own id left out: the subscription, the message, and when it was sent.
abbrev pub queued : AlertNotification → ℕ × ℕ × Option ℕ
queued n = (n.subscription_id, n.message_id, n.sent_at)

abbrev pub unsent : ℕ → AlertSubscription → ℕ × ℕ × Option ℕ
unsent message_id s = (s.id, message_id, none)

abbrev pub is_active : AlertSubscription → Bool
is_active s = s.active

queue_rows-queued :
    (eng : Engine) (now id : ℕ) (subs : List AlertSubscription) (queue : List AlertNotification)
    → map queued (queue_rows eng now id subs queue)
      ≡ map queued queue ++ map (unsent id) (keep is_active subs)
unfolding queue_rows
queue_rows-queued eng now id [] queue = sym (append-nil _)
queue_rows-queued eng now id (s ∷ subs) queue = elim (Bool-cases s.active) [
  | inl e ↦ rw e (queue_rows-queued eng now id subs _ ∙ simp (map-append, append_assoc))
  | inr e ↦ rw e (queue_rows-queued eng now id subs queue)
]

-- The queue after a message: the old one, and an unsent notification of the message for each
-- active subscription, in order, and for no other.
abbrev pub Queues : AlertTables → Response → AlertTables → Type 0
Queues t _ t' =
    (id : ℕ) × (any (λ (m : AlertMessage). m.id == id) t.messages ≡ false)
    × (map queued t'.notifications
        ≡ map queued t.notifications ++ map (unsent id) (keep is_active t.subscriptions))

any-map_id :
    (id : ℕ) (ms : List AlertMessage)
    → any (λ i. i == id) (map (λ (m : AlertMessage). m.id) ms)
      ≡ any (λ (m : AlertMessage). m.id == id) ms
any-map_id id [] = refl
any-map_id id (m ∷ ms) = rw (any-map_id id ms)

-- Between the two statements: a message of the new id, and the queue and subscriptions as before.
abbrev Inserted : AlertTables → ℕ → AlertTables → Type 0
Inserted t id s =
    (any (λ (m : AlertMessage). m.id == id) t.messages ≡ false)
    × (s.notifications ≡ t.notifications)
    × (s.subscriptions ≡ t.subscriptions)

insert_message-Inserted :
    (eng : Engine) (id : ℤ) (content : String) (now : ℕ) (t s : AlertTables)
    → s ≡ t
    → Gives (Inserted t) (insert_message eng id content now s)
unfolding insert_message
insert_message-Inserted eng id content now t s e = rw e (elim (Bool-cases (has_alert t id)) [
  | inl h ↦ rw h (sym (any-map_id _ t.messages) ∙ eng.fresh_unused _, refl, refl)
  | inr h ↦ rw h tt
])

insert_notifications-Queues :
    (eng : Engine) (now m : ℕ) (r : Response) (t s : AlertTables)
    → Inserted t m s
    → Gives (λ _ s'. Queues t r s') (insert_notifications eng now m s)
unfolding insert_notifications
insert_notifications-Queues eng now m r t s (new, same_n, same_s) =
    elim (Bool-cases (has_message s m)) [
      | inl h ↦ rw h (
        m,
        new,
        queue_rows-queued eng now m s.subscriptions s.notifications
            ∙ ap₂ (λ ns subs. map queued ns ++ map (unsent m) (keep is_active subs)) same_n same_s,
      )
      | inr h ↦ rw h tt
    ]

-- Adding a message to an alert: an error reply and unchanged tables, or the queue has exactly one
-- new notification, unsent and of a new message, for each active subscription.
pub post_add_alert_message-Queues :
    (eng : Engine) (env : Env) (id_param message : String) (t : AlertTables)
    → Outcome (Queues t) t (serve (post_add_alert_message eng env id_param message) t tt)
unfolding post_add_alert_message
post_add_alert_message-Queues eng env id_param message t = Serves-serve (Queues t) _ t tt (
    Serves-Quiet _ _ (Keeps-parse_id Anything id_param) λ id.
      Serves-bind _ _ (Triple-begin env) λ _.
        Serves-bind _ _
          (Triple-exec env {Q = Inserted t} _ (insert_message-Inserted eng id message env.now t))
          λ m.
            Serves-bind _ _
              (Triple-exec env {Q = λ _ s. Queues t (status_only 200) s} _
                (insert_notifications-Queues eng env.now m (status_only 200) t))
              λ _. Serves-commit env _ (λ s q. q))

worst-ne-red : (rows : List Alert) → any (is_severity "red") rows ≡ false → "red" ≢ worst rows
unfolding worst
worst-ne-red rows h = ground (arith, eq_iff "red" "blue")

-- The tables after a deletion.
abbrev pub without_alert : ℤ → AlertTables → AlertTables
without_alert id t =
    drop_messages (λ m. names_row id m.alert_id)
      (record t {
        alerts = keep (λ (a : Alert). not (names_row id a.id)) t.alerts;
        alert_services =
            keep (λ (l : AlertService). not (names_row id l.alert_id)) t.alert_services;
      })

delete_alert_lem :
    (env : Env) (id_param : String) (id : ℤ) (t : AlertTables)
    → NoFaults env
    → atoi id_param ≡ some id
    → (serve (delete_alert env id_param) t tt).tables ≡ without_alert id t
unfolding delete_alert parse_id delete_alert_row
delete_alert_lem env id_param id t ok_calls parsed =
    ap (λ r. (final r).committed)
      (demand-bind_some _ id _ _ _ parsed
        ∙ begin-bind_ok env _ _ (ok_calls 0)
        ∙ exec-bind_ok env _ _ _ _ _ (ok_calls 1) refl
        ∙ commit-bind_ok env _ _ (ok_calls 2)
        ∙ pure-run _ _)

-- Deleting an alert, when no database call fails, does not recompute the severity: where the page is
-- red and no red alert is left ongoing, it stays red, which is then not the worst severity among the
-- ongoing alerts.
pub delete_alert-severity_stale :
    (env : Env) (id_param : String) (id : ℤ) (t : AlertTables)
    → NoFaults env
    → atoi id_param ≡ some id
    → t.severity ≡ "red" ∷ []
    → any
        (is_severity "red")
        (keep is_ongoing (keep (λ (a : Alert). not (names_row id a.id)) t.alerts))
      ≡ false
    → ((serve (delete_alert env id_param) t tt).tables.severity ≡ "red" ∷ [])
      × (¬ SeverityIsCurrent (serve (delete_alert env id_param) t tt).tables)
unfolding drop_messages
delete_alert-severity_stale env id_param id t ok_calls parsed red none_left = (
  ap (λ r. r.severity) (delete_alert_lem env id_param id t ok_calls parsed) ∙ red,
  λ current.
      let now_current : SeverityIsCurrent (without_alert id t) =
        rw (delete_alert_lem env id_param id t ok_calls parsed) at current in
      let shown : All (λ s. s ≡ worst (keep is_ongoing (without_alert id t).alerts)) ("red" ∷ []) =
        rw red at now_current in
      worst-ne-red _ none_left shown.0,
)
