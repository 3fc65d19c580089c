-- ===== src/Alerts/Success.antt =====
-- The whole effect of resolving and reopening an alert when no database call fails.
use statusnook.Prelude.{Option, String, ap, keep, map, none, refl, rewrite, some, ℕ, ◌∙◌, ◌≡◌}
use statusnook.World.{
  Env, H, Response, World, begin, commit, exec, hx_location, pure, serve, start, tick, ◌>>=◌, ◌>>◌,
}
use statusnook.World.Steps.{
  NoFaults, begin-bind_ok, bind_assoc, commit-bind_ok, demand-bind_some, exec-bind_ok, pure-bind,
  pure-run, served,
}
use statusnook.Alerts.Tables.{Alert, AlertTables}
use statusnook.Alerts.Queries.{is_ongoing, set_ended_at, update_severity}
use statusnook.Alerts.Severity.{
  get_ongoing_alerts, list_ongoing_alert_messages, list_ongoing_alert_services, list_ongoing_alerts,
  refresh_severity, worst,
}
use statusnook.Text.{atoi, concat, names_row, ℤ}
use statusnook.Alerts.SeverityLaws.{new_severity-by_severity}
use statusnook.Alerts.Handlers.{parse_id, post_resolve_alert, post_unresolve_alert}

-- The tables with the severity row set from the ongoing alerts.
abbrev pub with_current_severity : AlertTables → AlertTables
with_current_severity t = record t {
  severity = map (λ _. worst (keep is_ongoing t.alerts)) t.severity;
}

refresh_severity-bind :
    {M B : Type 0} (env : Env) (f : Unit {0} → H AlertTables M B) (w : World AlertTables M)
    → NoFaults env
    → (refresh_severity env >>= f) w
      ≡ f tt (record (tick (tick (tick (tick w)))) { working = with_current_severity w.working })
unfolding refresh_severity get_ongoing_alerts list_ongoing_alerts list_ongoing_alert_messages
    list_ongoing_alert_services update_severity
refresh_severity-bind env f w ok_calls =
    bind_assoc _ _ f w
    ∙ bind_assoc _ _ _ w
    ∙ exec-bind_ok env _ _ _ _ w (ok_calls _) refl
    ∙ bind_assoc _ _ _ _
    ∙ exec-bind_ok env _ _ _ _ _ (ok_calls _) refl
    ∙ bind_assoc _ _ _ _
    ∙ exec-bind_ok env _ _ _ _ _ (ok_calls _) refl
    ∙ pure-bind _ _ _
    ∙ exec-bind_ok env _ _ _ _ _ (ok_calls _) refl
    ∙ rw (new_severity-by_severity (keep is_ongoing w.working.alerts)) refl

-- Resolving or reopening alert `id` with no failing call.
abbrev pub ended_at_time : ℤ → Option ℕ → AlertTables → AlertTables
ended_at_time id ended t = with_current_severity (record t {
  alerts = rewrite (λ (a : Alert). names_row id a.id) (λ a. record a { ended_at = ended }) t.alerts;
})

set_ended_at-served :
    (env : Env) (id : ℤ) (ended : Option ℕ) (r : Response) (t : AlertTables)
    → NoFaults env
    → served (
        (begin env
            >> (exec env (set_ended_at id ended)
                >> (refresh_severity env >> (commit env >> pure r))))
          (start t tt))
      ≡ record { sent = r; tables = ended_at_time id ended t; kept = tt }
unfolding set_ended_at
set_ended_at-served env id ended r t ok_calls = ap served (
    begin-bind_ok env _ _ (ok_calls _)
    ∙ exec-bind_ok env _ _ _ _ _ (ok_calls _) refl
    ∙ refresh_severity-bind env _ _ ok_calls
    ∙ commit-bind_ok env _ _ (ok_calls _)
    ∙ pure-run _ _)

-- Resolving an alert whose path id is a number, with no failing database call: the reply leads to
-- the alert's page, the alerts of that id have now as their end, the severity is the worst of the
-- alerts that are left ongoing, and nothing else has changed.
pub post_resolve_alert-resolves :
    (env : Env) (id_param : String) (id : ℤ) (t : AlertTables)
    → NoFaults env
    → atoi id_param ≡ some id
    → serve (post_resolve_alert env id_param) t tt ≡ record {
      sent = hx_location (concat "/admin/alerts/" id_param);
      tables = ended_at_time id (some env.now) t;
      kept = tt;
    }
unfolding post_resolve_alert parse_id
post_resolve_alert-resolves env id_param id t ok_calls parsed =
    ap served (demand-bind_some _ id _ _ _ parsed)
    ∙ set_ended_at-served env id (some env.now) _ t ok_calls

-- Reopening an alert whose path id is a number, with no failing database call: the reply leads to
-- the alert's page, the alerts of that id have no end, the severity is the worst of the alerts that
-- are then ongoing, and nothing else has changed.
pub post_unresolve_alert-reopens :
    (env : Env) (id_param : String) (id : ℤ) (t : AlertTables)
    → NoFaults env
    → atoi id_param ≡ some id
    → serve (post_unresolve_alert env id_param) t tt ≡ record {
      sent = hx_location (concat "/admin/alerts/" id_param);
      tables = ended_at_time id none t;
      kept = tt;
    }
unfolding post_unresolve_alert parse_id
post_unresolve_alert-reopens env id_param id t ok_calls parsed =
    ap served (demand-bind_some _ id _ _ _ parsed) ∙ set_ended_at-served env id none _ t ok_calls
