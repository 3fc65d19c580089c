-- ===== src/Alerts/SeverityRequests.antt =====
-- The page severity after the requests of router.go's /admin/alerts routes that recompute it.
use statusnook.Prelude.{Bool, arith, false, true, ◌≡◌}
use statusnook.World.{Env, serve}
use statusnook.World.Hoare.{Outcome}
use statusnook.Engine.{Engine}
use statusnook.Alerts.Tables.{AlertTables}
use statusnook.Alerts.SeverityLaws.{
  SeverityIsCurrent, post_create_alert-SeverityIsCurrent, post_edit_alert-SeverityIsCurrent,
  post_resolve_alert-SeverityIsCurrent, post_unresolve_alert-SeverityIsCurrent,
}
use statusnook.Alerts.Requests.{
  AlertRequest, add_message, create, edit, edit_message, handle, remove, remove_message, resolve,
  unresolve,
}

-- The requests that change which alerts are ongoing or how severe they are, a deletion excepted.
abbrev pub changes_severity : AlertRequest → Bool
changes_severity (create form) = true
changes_severity (edit id form) = true
changes_severity (remove id) = false
changes_severity (resolve id) = true
changes_severity (unresolve id) = true
changes_severity (add_message id message) = false
changes_severity (remove_message id message_id) = false
changes_severity (edit_message id message_id message) = false

-- Creating, editing, resolving or reopening an alert: either an error reply and unchanged tables,
-- or the page severity is the worst severity among the alerts that are then ongoing; whatever
-- database call fails.
pub handle-SeverityIsCurrent :
    (eng : Engine) (env : Env) (request : AlertRequest) (t : AlertTables)
    → changes_severity request ≡ true
    → Outcome (λ _ t'. SeverityIsCurrent t') t (serve (handle eng env request) t tt)
unfolding handle
handle-SeverityIsCurrent eng env (create form) t h =
    post_create_alert-SeverityIsCurrent eng env form t
handle-SeverityIsCurrent eng env (edit id form) t h =
    post_edit_alert-SeverityIsCurrent eng env id form t
handle-SeverityIsCurrent eng env (remove id) t h = ground (arith, h)
handle-SeverityIsCurrent eng env (resolve id) t h = post_resolve_alert-SeverityIsCurrent env id t
handle-SeverityIsCurrent eng env (unresolve id) t h =
    post_unresolve_alert-SeverityIsCurrent env id t
handle-SeverityIsCurrent eng env (add_message id message) t h = ground (arith, h)
handle-SeverityIsCurrent eng env (remove_message id message_id) t h = ground (arith, h)
handle-SeverityIsCurrent eng env (edit_message id message_id message) t h = ground (arith, h)
