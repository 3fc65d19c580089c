-- ===== src/Alerts/SeverityLaws.antt =====
-- The severity shown is the worst of the ongoing alerts, after every handler that recomputes it.
use statusnook.Prelude.{
  All, Bool, Bool-cases, List, String, [], any, ap, arith, eq_iff, if◌then◌else◌, inl, inr, keep,
  map, nat_eq, refl, string_eq, ℕ, ◌==◌, ◌||◌, ◌∙◌, ◌∷◌, ◌≡◌,
}
use statusnook.World.Rules.{
  Quiet, Quiet-begin, Quiet-bind, Quiet-demand, Quiet-exec, Quiet-pure, Quiet-refuse_if,
  Serves-Quiet,
}
use statusnook.World.Hoare.{
  Anything, Gives, Outcome, Serves, Serves-bind, Serves-commit, Serves-serve, Triple, Triple-bind,
  Triple-exec, Triple-pure,
}
use statusnook.World.{Env, Response, commit, pure, serve, ◌>>◌}
use statusnook.Alerts.Tables.{Alert, AlertMessage, AlertTables}
use statusnook.Alerts.Queries.{has_message, insert_notifications, is_ongoing, update_severity}
use statusnook.Alerts.Severity.{
  AlertServiceRow, attach_alert_details, by_severity, get_ongoing_alerts, insert_by, is_severity,
  list_ongoing_alert_messages, list_ongoing_alert_services, list_ongoing_alerts, new_severity_from,
  refresh_severity, sort_by, worst,
}
use statusnook.Alerts.Handlers.{
  AlertForm, add_alert_services, create_alert, edit_alert, parse_id, parse_services,
  post_create_alert, post_edit_alert, post_resolve_alert, post_unresolve_alert,
}
use statusnook.Engine.{Engine}
use statusnook.Text.{pos, ℤ}

-- Every row of the severity table is the worst severity among the ongoing alerts.
abbrev pub SeverityIsCurrent : AlertTables → Type 0
SeverityIsCurrent t = All (λ s. s ≡ worst (keep is_ongoing t.alerts)) t.severity

any-insert_by :
    {A : Type 0} (p : A → Bool) (before : A → A → Bool) (x : A) (ys : List A)
    → any p (insert_by before x ys) ≡ (p x || any p ys)
unfolding insert_by
any-insert_by p before x [] = refl
any-insert_by p before x (y ∷ ys) = ground (arith, any-insert_by p before x ys)

any-sort_by :
    {A : Type 0} (p : A → Bool) (before : A → A → Bool) (xs : List A)
    → any p (sort_by before xs) ≡ any p xs
unfolding sort_by
any-sort_by p before [] = refl
any-sort_by p before (x ∷ xs) =
    any-insert_by p before x (sort_by before xs) ∙ ap (λ b. p x || b) (any-sort_by p before xs)

new_severity_from_lem :
    (s : String) (rows : List Alert) (ms : List AlertMessage) (ls : List AlertServiceRow)
    → new_severity_from s (attach_alert_details rows ms ls) ≡ (
        if any (is_severity "red") rows
        then "red"
        else if any (is_severity "amber") rows
        then "amber"
        else s)
unfolding new_severity_from attach_alert_details
new_severity_from_lem s [] ms ls = refl
new_severity_from_lem s (a ∷ rows) ms ls = ground (
  arith,
  new_severity_from_lem (if a.severity == "amber" then "amber" else s) rows ms ls,
  eq_iff a.severity "amber",
  eq_iff a.severity "red",
)

-- The loop over the alerts of any list, in whatever order they come and with whatever messages and
-- services attached, finds red if one is red, else amber if one is amber, else blue.
pub new_severity-worst :
    (rows : List Alert) (ms : List AlertMessage) (ls : List AlertServiceRow)
    → new_severity_from "blue" (attach_alert_details rows ms ls) ≡ worst rows
unfolding worst
new_severity-worst rows ms ls = new_severity_from_lem "blue" rows ms ls

-- The order in which the rows are listed does not matter for the worst of them.
worst-by_severity : (rows : List Alert) → worst (by_severity rows) ≡ worst rows
unfolding by_severity worst
worst-by_severity rows = simp any-sort_by

pub new_severity-by_severity :
    (rows : List Alert) (ms : List AlertMessage) (ls : List AlertServiceRow)
    → new_severity_from "blue" (attach_alert_details (by_severity rows) ms ls) ≡ worst rows
new_severity-by_severity rows ms ls =
    new_severity-worst (by_severity rows) ms ls ∙ worst-by_severity rows

All-map_const : (s : String) (xs : List String) → All (λ x. x ≡ s) (map (λ _. s) xs)
All-map_const s [] = tt
All-map_const s (x ∷ xs) = (refl, All-map_const s xs)

update_severity-SeverityIsCurrent :
    (t : AlertTables) (s : String)
    → s ≡ worst (keep is_ongoing t.alerts)
    → Gives (λ _ t'. SeverityIsCurrent t') (update_severity s t)
unfolding update_severity
update_severity-SeverityIsCurrent t s e = rw (← e) (All-map_const s t.severity)

-- The insertions after it leave the severity alone.
insert_notifications-SeverityIsCurrent :
    (eng : Engine) (now id : ℕ) (t : AlertTables)
    → SeverityIsCurrent t
    → Gives (λ _ t'. SeverityIsCurrent t') (insert_notifications eng now id t)
unfolding insert_notifications
insert_notifications-SeverityIsCurrent eng now id t c = elim (Bool-cases (has_message t id)) [
  | inl e ↦ rw e c
  | inr e ↦ rw e tt
]

module _ {M : Type 0} {t₀ : AlertTables} (env : Env) where
  get_ongoing_alerts-worst :
      Triple {M = M} t₀ Anything
        (get_ongoing_alerts env)
        (λ alerts t. new_severity_from "blue" alerts ≡ worst (keep is_ongoing t.alerts))
  unfolding get_ongoing_alerts list_ongoing_alerts list_ongoing_alert_messages
      list_ongoing_alert_services
  get_ongoing_alerts-worst =
      Triple-bind _ _
        (Triple-exec env {Q = λ rows t. rows ≡ by_severity (keep is_ongoing t.alerts)}
          list_ongoing_alerts (λ t _. refl))
        (λ rows.
          Triple-bind _ _
            (Triple-exec env {Q = λ _ t. rows ≡ by_severity (keep is_ongoing t.alerts)}
              list_ongoing_alert_messages (λ t e. e))
            (λ ms.
              Triple-bind _ _
                (Triple-exec env {Q = λ _ t. rows ≡ by_severity (keep is_ongoing t.alerts)}
                  list_ongoing_alert_services (λ t e. e))
                (λ ls. Triple-pure _ (λ t e. rw e (new_severity-by_severity _ ms ls)))))

  -- After the shared lines the severity is current.
  pub refresh_severity_lem :
      Triple {M = M} t₀ Anything (refresh_severity env) (λ _ t. SeverityIsCurrent t)
  unfolding refresh_severity
  refresh_severity_lem =
      Triple-bind _ _ get_ongoing_alerts-worst
        (λ alerts. Triple-exec env _ (λ t e. update_severity-SeverityIsCurrent t _ e))

  -- The end of a handler that recomputes the severity and commits.
  refresh_and_commit :
      (r : Response)
      → Serves {M = M} t₀ Anything
          (refresh_severity env >> (commit env >> pure r))
          (λ _ t. SeverityIsCurrent t)
  refresh_and_commit r = Serves-bind _ _ refresh_severity_lem (λ _. Serves-commit env r (λ t c. c))

Quiet-parse_id : {t₀ : AlertTables} (s : String) → Quiet {M = Unit {0}} t₀ (parse_id s)
unfolding parse_id
Quiet-parse_id s = Quiet-demand _ _ (omega arith)

Quiet-parse_services :
    {t₀ : AlertTables} (services : List String) → Quiet t₀ (parse_services services)
unfolding parse_services
Quiet-parse_services [] = Quiet-pure []
Quiet-parse_services (s ∷ services) =
    Quiet-bind _ _ (Quiet-parse_id s)
      (λ num. Quiet-bind _ _ (Quiet-parse_services services) (λ rest. Quiet-pure (num ∷ rest)))

module _ {t₀ : AlertTables} (eng : Engine) (env : Env) where
  Quiet-add_alert_services :
      (id : ℤ) (services : List ℤ) → Quiet t₀ (add_alert_services eng env id services)
  unfolding add_alert_services
  Quiet-add_alert_services id [] = Quiet-pure tt
  Quiet-add_alert_services id (s ∷ services) =
      Quiet-bind _ _ (Quiet-exec env _) (λ _. Quiet-add_alert_services id services)

  Quiet-create_alert :
      (title : String) (services : List ℤ) (kind severity : String)
      → Quiet t₀ (create_alert eng env title services kind severity)
  unfolding create_alert
  Quiet-create_alert title services kind severity =
      Quiet-bind _ _ (Quiet-exec env _)
        (λ id. Quiet-bind _ _ (Quiet-add_alert_services (pos id) services) (λ _. Quiet-pure id))

  Quiet-edit_alert :
      (id : ℤ) (title : String) (services : List ℤ) (kind severity : String)
      → Quiet t₀ (edit_alert eng env id title services kind severity)
  unfolding edit_alert
  Quiet-edit_alert id title services kind severity =
      Quiet-bind _ _ (Quiet-exec env _)
        (λ _. Quiet-bind _ _ (Quiet-exec env _) (λ _. Quiet-add_alert_services id services))

abbrev Current : Response → AlertTables → Type 0
Current _ t = SeverityIsCurrent t

-- Resolving an alert: either an error reply and unchanged tables, or the page severity is the worst
-- severity among the alerts that are then ongoing; whatever database call fails.
pub post_resolve_alert-SeverityIsCurrent :
    (env : Env) (id_param : String) (t : AlertTables)
    → Outcome (λ _ t'. SeverityIsCurrent t') t (serve (post_resolve_alert env id_param) t tt)
unfolding post_resolve_alert
post_resolve_alert-SeverityIsCurrent env id_param t = Serves-serve Current _ t tt (
    Serves-Quiet _ _ (Quiet-parse_id id_param) λ id.
      Serves-Quiet _ _ (Quiet-begin env)
        λ _. Serves-Quiet _ _ (Quiet-exec env _) λ _. refresh_and_commit env _)

-- Reopening an alert: either an error reply and unchanged tables, or the page
-- severity is the worst severity among the alerts that are then ongoing; whatever database call
-- fails.
pub post_unresolve_alert-SeverityIsCurrent :
    (env : Env) (id_param : String) (t : AlertTables)
    → Outcome (λ _ t'. SeverityIsCurrent t') t (serve (post_unresolve_alert env id_param) t tt)
unfolding post_unresolve_alert
post_unresolve_alert-SeverityIsCurrent env id_param t = Serves-serve Current _ t tt (
    Serves-Quiet _ _ (Quiet-parse_id id_param) λ id.
      Serves-Quiet _ _ (Quiet-begin env)
        λ _. Serves-Quiet _ _ (Quiet-exec env _) λ _. refresh_and_commit env _)

-- Editing an alert: either an error reply and unchanged tables, or the page
-- severity is the worst severity among the alerts that are then ongoing; whatever database call
-- fails.
pub post_edit_alert-SeverityIsCurrent :
    (eng : Engine) (env : Env) (id_param : String) (form : AlertForm) (t : AlertTables)
    → Outcome (λ _ t'. SeverityIsCurrent t') t (serve (post_edit_alert eng env id_param form) t tt)
unfolding post_edit_alert
post_edit_alert-SeverityIsCurrent eng env id_param form t = Serves-serve Current _ t tt (
    Serves-Quiet _ _ (Quiet-parse_id id_param) λ id.
      Serves-Quiet _ _ (Quiet-refuse_if _ _ (omega arith)) λ _.
        Serves-Quiet _ _ (Quiet-parse_services form.services) λ services.
          Serves-Quiet _ _ (Quiet-refuse_if _ _ (omega arith)) λ _.
            Serves-Quiet _ _ (Quiet-refuse_if _ _ (omega arith)) λ _.
              Serves-Quiet _ _ (Quiet-refuse_if _ _ (omega arith)) λ _.
                Serves-Quiet _ _ (Quiet-begin env) λ _.
                  Serves-Quiet _ _ (Quiet-edit_alert eng env id _ services _ _)
                    λ _. refresh_and_commit env _)

-- Creating an alert: either an error reply and unchanged tables, or the page
-- severity is the worst severity among the alerts that are then ongoing; whatever database call
-- fails.
pub post_create_alert-SeverityIsCurrent :
    (eng : Engine) (env : Env) (form : AlertForm) (t : AlertTables)
    → Outcome (λ _ t'. SeverityIsCurrent t') t (serve (post_create_alert eng env form) t tt)
unfolding post_create_alert
post_create_alert-SeverityIsCurrent eng env form t = Serves-serve Current _ t tt (
    Serves-Quiet _ _ (Quiet-refuse_if _ _ (omega arith)) λ _.
      Serves-Quiet _ _ (Quiet-refuse_if _ _ (omega arith)) λ _.
        Serves-Quiet _ _ (Quiet-parse_services form.services) λ services.
          Serves-Quiet _ _ (Quiet-refuse_if _ _ (omega arith)) λ _.
            Serves-Quiet _ _ (Quiet-refuse_if _ _ (omega arith)) λ _.
              Serves-Quiet _ _ (Quiet-refuse_if _ _ (omega arith)) λ _.
                Serves-Quiet _ _ (Quiet-begin env) λ _.
                  Serves-Quiet _ _ (Quiet-create_alert eng env _ services _ _) λ id.
                    Serves-Quiet _ _ (Quiet-exec env _) λ m.
                      Serves-bind _ _ (refresh_severity_lem env) λ _.
                        Serves-bind _ _
                          (Triple-exec env _ (insert_notifications-SeverityIsCurrent eng env.now m))
                          λ _. Serves-commit env _ (λ t c. c))
