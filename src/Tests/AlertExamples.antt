-- ===== src/Tests/AlertExamples.antt =====
-- The theorems on alerts at concrete tables.
use mathlib.Core.Path.{subst}
use statusnook.Alerts.Frames.{Untouched, handle-Untouched}
use statusnook.Text.{atoi, names_row, pos, ℤ}
use statusnook.Prelude.{Option, [], false, none, refl, some, sym, ◌∙◌, ◌∷◌, ◌≡◌}
use statusnook.World.{hx_location, serve}
use statusnook.World.Hoare.{Outcome}
use statusnook.Alerts.Severity.{attach_alert_details, new_severity_from, worst}
use statusnook.Alerts.SeverityLaws.{SeverityIsCurrent, new_severity-worst}
use statusnook.Alerts.Handlers.{
  AlertForm, delete_alert, post_add_alert_message, post_resolve_alert, post_unresolve_alert,
}
use statusnook.Alerts.SeverityRequests.{handle-SeverityIsCurrent}
use statusnook.Alerts.Requests.{edit, handle, remove}
use statusnook.Alerts.Effects.{Queues, delete_alert-severity_stale, post_add_alert_message-Queues}
use statusnook.Alerts.Success.{
  ended_at_time, post_resolve_alert-resolves, post_unresolve_alert-reopens,
}
use statusnook.Tests.Data.{alert_tables, engine, env}

abbrev form : AlertForm
form = record {
  title = "Disk";
  message = "Full";
  services = "7" ∷ [];
  kind = "incident";
  severity = "amber";
}

new_severity-worst_example :
    new_severity_from "blue" (attach_alert_details alert_tables.alerts alert_tables.messages [])
    ≡ worst alert_tables.alerts
new_severity-worst_example = new_severity-worst alert_tables.alerts alert_tables.messages []

handle-SeverityIsCurrent_example :
    Outcome
      (λ _ t'. SeverityIsCurrent t')
      alert_tables
      (serve (handle engine env (edit "3" form)) alert_tables tt)
handle-SeverityIsCurrent_example =
    handle-SeverityIsCurrent engine env (edit "3" form) alert_tables refl

three : atoi "3" ≡ some (pos 3)
unfolding atoi
three = refl

post_add_alert_message-Queues_example :
    Outcome
      (Queues alert_tables)
      alert_tables
      (serve (post_add_alert_message engine env "3" "Fixed") alert_tables tt)
post_add_alert_message-Queues_example =
    post_add_alert_message-Queues engine env "3" "Fixed" alert_tables

post_resolve_alert-resolves_example : serve (post_resolve_alert env "3") alert_tables tt ≡ record {
  sent = hx_location "/admin/alerts/3";
  tables = ended_at_time (pos 3) (some env.now) alert_tables;
  kept = tt;
}
post_resolve_alert-resolves_example =
    post_resolve_alert-resolves env "3" (pos 3) alert_tables (λ _. refl) three

post_unresolve_alert-reopens_example :
    serve (post_unresolve_alert env "3") alert_tables tt ≡ record {
      sent = hx_location "/admin/alerts/3";
      tables = ended_at_time (pos 3) none alert_tables;
      kept = tt;
    }
post_unresolve_alert-reopens_example =
    post_unresolve_alert-reopens env "3" (pos 3) alert_tables (λ _. refl) three

delete_alert-severity_stale_example :
    ((serve (delete_alert env "3") alert_tables tt).tables.severity ≡ "red" ∷ [])
    × (¬ SeverityIsCurrent (serve (delete_alert env "3") alert_tables tt).tables)
delete_alert-severity_stale_example =
    delete_alert-severity_stale env "3" (pos 3) alert_tables (λ _. refl) three refl refl

IsApart : Option ℤ → Type 0
IsApart none = Unit
IsApart (some n) = names_row n 4 ≡ false

three_apart : (n : ℤ) → atoi "3" ≡ some n → names_row n 4 ≡ false
unfolding IsApart
three_apart n e = subst IsApart (sym three ∙ e) refl

handle-Untouched_example :
    Untouched 4 alert_tables (serve (handle engine env (remove "3")) alert_tables tt).tables
handle-Untouched_example = handle-Untouched engine env (remove "3") 4 alert_tables refl three_apart
