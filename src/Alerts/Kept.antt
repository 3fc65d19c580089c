-- ===== src/Alerts/Kept.antt =====
-- An invariant of the tables through the parts that the handlers of alerts share: it is kept by each
-- statement on the alerts that it allows.
use statusnook.Prelude.{List, Option, String, [], arith, some, ℕ, ◌∷◌, ◌≡◌}
use statusnook.Text.{atoi, pos, ℤ}
use statusnook.World.{Env, Response, bad_request, ◌>>=◌}
use statusnook.World.Hoare.{
  Gives, Serves, Serves-bind, Serves-weaken, Triple, Triple-bind, Triple-demand, Triple-exec,
  Triple-pure, Triple-weaken,
}
use statusnook.World.Rules.{Keeps, Keeps-bind, Keeps-demand, Keeps-pure}
use statusnook.World.Attempts.{Serves-given, Triple-given}
use statusnook.Engine.{Engine}
use statusnook.Alerts.Tables.{AlertTables}
use statusnook.Alerts.Queries.{
  add_alert_service, delete_alert_row, delete_alert_services, delete_message, insert_alert,
  insert_message, insert_notifications, set_ended_at, update_alert, update_message, update_severity,
}
use statusnook.Alerts.Severity.{
  list_ongoing_alert_messages, list_ongoing_alert_services, list_ongoing_alerts, refresh_severity,
}
use statusnook.Alerts.Handlers.{
  AlertHandler, add_alert_services, create_alert, edit_alert, parse_id, parse_services,
}

pub Keeps-parse_id :
    {S M : Type 0} {s₀ : S} (P : S → Type 0) (s : String) → Keeps {M = M} s₀ P (parse_id s)
unfolding parse_id
Keeps-parse_id P s = Keeps-demand P _ _ (omega arith)

-- The statements of the handlers on an alert that is `Allowed` keep `I`; a new alert is allowed.
pub record StatementLaws (eng : Engine) (I : AlertTables → Type 0) (Allowed : ℤ → Type 0)
    : Type 0 where
  pub on_insert_alert :
      (s : AlertTables) (title kind severity : String) (now : ℕ)
      → I s
      → Gives (λ id s'. Allowed (pos id) × I s') (insert_alert eng title kind severity now s)
  pub on_add_service :
      (s : AlertTables) (id service : ℤ)
      → Allowed id
      → I s
      → Gives (λ _. I) (add_alert_service eng id service s)
  pub on_insert_message :
      (s : AlertTables) (id : ℤ) (content : String) (now : ℕ)
      → Allowed id
      → I s
      → Gives (λ _. I) (insert_message eng id content now s)
  pub on_queue :
      (s : AlertTables) (now message : ℕ)
      → I s
      → Gives (λ _. I) (insert_notifications eng now message s)
  pub on_update_alert :
      (s : AlertTables) (id : ℤ) (title kind severity : String)
      → Allowed id
      → I s
      → Gives (λ _. I) (update_alert id title kind severity s)
  pub on_delete_services :
      (s : AlertTables) (id : ℤ) → Allowed id → I s → Gives (λ _. I) (delete_alert_services id s)
  pub on_set_ended :
      (s : AlertTables) (id : ℤ) (ended : Option ℕ)
      → Allowed id
      → I s
      → Gives (λ _. I) (set_ended_at id ended s)
  pub on_severity :
      (s : AlertTables) (severity : String) → I s → Gives (λ _. I) (update_severity severity s)
  pub on_delete_alert :
      (s : AlertTables) (id : ℤ) → Allowed id → I s → Gives (λ _. I) (delete_alert_row id s)
  pub on_delete_message :
      (s : AlertTables) (id message : ℤ)
      → Allowed id
      → I s
      → Gives (λ _. I) (delete_message id message s)
  pub on_update_message :
      (s : AlertTables) (id message : ℤ) (content : String) (now : ℕ)
      → Allowed id
      → I s
      → Gives (λ _. I) (update_message id message content now s)

module _ {t₀ : AlertTables} {I : AlertTables → Type 0} where
  pub Keeps-parse_services :
      (services : List String) → Keeps {M = Unit {0}} t₀ I (parse_services services)
  unfolding parse_services
  Keeps-parse_services [] = Keeps-pure I []
  Keeps-parse_services (s ∷ services) =
      Keeps-bind I _ _ (Keeps-parse_id I s) (λ num.
        Keeps-bind I _ _ (Keeps-parse_services services) (λ rest. Keeps-pure I (num ∷ rest)))

  -- A path id that names an alert that is allowed.
  pub Serves-parse_id :
      {Allowed : ℤ → Type 0} {Good : Response → AlertTables → Type 0} (id : String)
      (f : ℤ → AlertHandler Response)
      → ((n : ℤ) → atoi id ≡ some n → Allowed n)
      → ((n : ℤ) → Allowed n → Serves t₀ I (f n) Good)
      → Serves t₀ I (parse_id id >>= f) Good
  unfolding parse_id
  Serves-parse_id {Allowed} id f allowed k =
      Serves-bind _ _
        (Triple-demand {Q = λ n s. Allowed n × I s} (atoi id) bad_request (omega arith)
          λ n e s i. (allowed n e, i))
        λ n. Serves-given (λ s h. h.0) λ a. Serves-weaken (k n a) λ s h. h.1

module _ {t₀ : AlertTables} {I : AlertTables → Type 0} {Allowed : ℤ → Type 0} (eng : Engine)
    (laws : StatementLaws eng I Allowed) (env : Env) where
  pub Keeps-refresh_severity : Keeps {M = Unit {0}} t₀ I (refresh_severity env)
  unfolding refresh_severity list_ongoing_alerts list_ongoing_alert_messages
      list_ongoing_alert_services
  Keeps-refresh_severity =
      Keeps-bind I _ _
        (Keeps-bind I _ _ (Triple-exec env _ (λ t i. i)) (λ rows.
          Keeps-bind I _ _ (Triple-exec env _ (λ t i. i))
            (λ ms. Keeps-bind I _ _ (Triple-exec env _ (λ t i. i)) (λ ls. Keeps-pure I _))))
        (λ alerts. Triple-exec env _ (λ t i. laws.on_severity t _ i))

  Keeps-add_alert_services :
      (id : ℤ) (services : List ℤ)
      → Allowed id
      → Keeps {M = Unit {0}} t₀ I (add_alert_services eng env id services)
  unfolding add_alert_services
  Keeps-add_alert_services id [] a = Keeps-pure I tt
  Keeps-add_alert_services id (s ∷ services) a =
      Keeps-bind I _ _ (Triple-exec env _ (λ t i. laws.on_add_service t id s a i))
        (λ _. Keeps-add_alert_services id services a)

  pub create_alert-allowed :
      (title : String) (services : List ℤ) (kind severity : String)
      → Triple {M = Unit {0}} t₀ I
          (create_alert eng env title services kind severity)
          (λ id s. Allowed (pos id) × I s)
  unfolding create_alert
  create_alert-allowed title services kind severity =
      Triple-bind _ _
        (Triple-exec env {Q = λ id s. Allowed (pos id) × I s} _
          (λ t i. laws.on_insert_alert t title kind severity env.now i))
        (λ id.
          Triple-given (λ s h. h.0)
            λ a.
              Triple-bind _ _
                (Triple-weaken (Keeps-add_alert_services (pos id) services a) (λ s h. h.1))
                (λ _. Triple-pure id (λ s i. (a, i))))

  pub Keeps-edit_alert :
      (id : ℤ) (title : String) (services : List ℤ) (kind severity : String)
      → Allowed id
      → Keeps {M = Unit {0}} t₀ I (edit_alert eng env id title services kind severity)
  unfolding edit_alert
  Keeps-edit_alert id title services kind severity a =
      Keeps-bind I _ _
        (Triple-exec env _ (λ t i. laws.on_update_alert t id title kind severity a i))
        (λ _.
          Keeps-bind I _ _ (Triple-exec env _ (λ t i. laws.on_delete_services t id a i))
            (λ _. Keeps-add_alert_services id services a))
