-- ===== src/Alerts/Handlers.antt =====
-- The handlers of alerts3.go and alerts4.go that change alerts. A handler takes the {id} of its
-- path as text, and the form's values.
use statusnook.Prelude.{
  Bool, List, String, [], false, if◌then◌else◌, nat_eq, none, not, some, string_eq, true, ℕ, ◌&&◌,
  ◌==◌, ◌∷◌,
}
use statusnook.Text.{atoi, concat, pos, ℤ}
use statusnook.World.{
  Env, H, Response, bad_request, begin, commit, demand, exec, hx_location, pure, refuse_if, ◌>>=◌,
  ◌>>◌,
}
use statusnook.Engine.{Engine}
use statusnook.Alerts.Tables.{AlertTables}
use statusnook.Alerts.Queries.{
  add_alert_service, delete_alert_row, delete_alert_services, delete_message, insert_alert,
  insert_message, insert_notifications, set_ended_at, update_alert, update_message,
}
use statusnook.Alerts.Severity.{refresh_severity}

pub record AlertForm : Type 0 where
  pub title : String
  pub message : String
  pub services : List String
  pub kind : String
  pub severity : String

abbrev pub AlertHandler : Type 0 → Type 0
AlertHandler A = H AlertTables (Unit {0}) A

-- strconv.Atoi of a path parameter or a form value, answered by 400 if it is no number.
unfoldable pub parse_id : {S M : Type 0} → String → H S M ℤ
parse_id s = demand (atoi s) bad_request

unfoldable pub parse_services : List String → AlertHandler (List ℤ)
parse_services [] = pure []
parse_services (s ∷ rest) = do
  num ← parse_id s
  services ← parse_services rest
  pure (num ∷ services)

-- The checks that postCreateAlert and postEditAlert share after the title.
abbrev pub bad_kind : AlertForm → Bool
bad_kind form = not (form.kind == "incident") && not (form.kind == "maintenance")

abbrev pub bad_severity : AlertForm → Bool
bad_severity form =
    form.kind == "incident" && (not (form.severity == "red") && not (form.severity == "amber"))

abbrev pub stored_kind : AlertForm → String
stored_kind form = if form.kind == "incident" then form.kind else "maintenance"

abbrev pub is_empty {ℓ} : {A : Type ℓ} → List A → Bool
is_empty [] = true
is_empty (_ ∷ _) = false

module _ (eng : Engine) (env : Env) where
  unfoldable pub add_alert_services : ℤ → List ℤ → AlertHandler (Unit {0})
  add_alert_services alert_id [] = pure tt
  add_alert_services alert_id (s ∷ services) = do
    exec env (add_alert_service eng alert_id s)
    add_alert_services alert_id services

  unfoldable pub create_alert : String → List ℤ → String → String → AlertHandler ℕ
  create_alert title services kind severity = do
    alert_id ← exec env (insert_alert eng title kind severity env.now)
    add_alert_services (pos alert_id) services
    pure alert_id

  unfoldable pub edit_alert : ℤ → String → List ℤ → String → String → AlertHandler (Unit {0})
  edit_alert id title services kind severity = do
    exec env (update_alert id title kind severity)
    exec env (delete_alert_services id)
    add_alert_services id services

  unfoldable pub post_create_alert : AlertForm → AlertHandler Response
  post_create_alert form = do
    refuse_if (form.title == "") bad_request
    refuse_if (form.message == "") bad_request
    services ← parse_services form.services
    refuse_if (is_empty services) bad_request
    refuse_if (bad_kind form) bad_request
    refuse_if (bad_severity form) bad_request
    begin env
    alert_id ← create_alert form.title services (stored_kind form) form.severity
    message_id ← exec env (insert_message eng (pos alert_id) form.message env.now)
    refresh_severity env
    exec env (insert_notifications eng env.now message_id)
    commit env
    pure (hx_location "/admin/alerts")

  unfoldable pub post_edit_alert : String → AlertForm → AlertHandler Response
  post_edit_alert id_param form = do
    id ← parse_id id_param
    refuse_if (form.title == "") bad_request
    services ← parse_services form.services
    refuse_if (is_empty services) bad_request
    refuse_if (bad_kind form) bad_request
    refuse_if (bad_severity form) bad_request
    begin env
    edit_alert id form.title services (stored_kind form) form.severity
    refresh_severity env
    commit env
    pure (hx_location "/admin/alerts")

  unfoldable pub post_add_alert_message : String → String → AlertHandler Response
  post_add_alert_message id_param message = do
    id ← parse_id id_param
    begin env
    message_id ← exec env (insert_message eng id message env.now)
    exec env (insert_notifications eng env.now message_id)
    commit env
    pure (hx_location (concat "/admin/alerts/" id_param))

module _ (env : Env) where
  unfoldable pub post_resolve_alert : String → AlertHandler Response
  post_resolve_alert id_param = do
    id ← parse_id id_param
    begin env
    exec env (set_ended_at id (some env.now))
    refresh_severity env
    commit env
    pure (hx_location (concat "/admin/alerts/" id_param))

  unfoldable pub post_unresolve_alert : String → AlertHandler Response
  post_unresolve_alert id_param = do
    id ← parse_id id_param
    begin env
    exec env (set_ended_at id none)
    refresh_severity env
    commit env
    pure (hx_location (concat "/admin/alerts/" id_param))

  unfoldable pub delete_alert : String → AlertHandler Response
  delete_alert id_param = do
    id ← parse_id id_param
    begin env
    exec env (delete_alert_row id)
    commit env
    pure (hx_location "/admin/alerts")

  unfoldable pub delete_alert_message : String → String → AlertHandler Response
  delete_alert_message alert_id_param message_id_param = do
    alert_id ← parse_id alert_id_param
    message_id ← parse_id message_id_param
    begin env
    exec env (delete_message alert_id message_id)
    commit env
    pure (hx_location (concat "/admin/alerts/" alert_id_param))

  unfoldable pub post_edit_alert_message : String → String → String → AlertHandler Response
  post_edit_alert_message alert_id_param message_id_param message = do
    alert_id ← parse_id alert_id_param
    message_id ← parse_id message_id_param
    refuse_if (message == "") bad_request
    begin env
    exec env (update_message alert_id message_id message env.now)
    commit env
    pure (hx_location (concat "/admin/alerts/" alert_id_param))
