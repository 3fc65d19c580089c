-- ===== src/Alerts/Severity.antt =====
-- The colour of the status page: getOngoingAlerts of alertsdb.go, and the loop over its alerts
-- that postCreateAlert, postEditAlert, postResolveAlert and postUnresolveAlert of alerts3.go share.
use statusnook.Prelude.{
  Bool, List, Option, String, [], any, find, if◌then◌else◌, keep, ltb, map, nat_eq, none, some,
  string_eq, ℕ, ◌&&◌, ◌==◌, ◌∷◌,
}
use statusnook.World.{Answer, Env, H, exec, ok, pure, ◌>>=◌}
use statusnook.Alerts.Tables.{Alert, AlertMessage, AlertService, AlertTables, Service}
use statusnook.Alerts.Queries.{is_ongoing, update_severity}

pub record AlertDetailMessage : Type 0 where
  pub id : ℕ
  pub content : String
  pub created_at : ℕ
  pub last_updated_at : Option ℕ

pub record AlertDetailService : Type 0 where
  pub id : ℕ
  pub name : String
  pub helper_text : String

pub record AlertDetail : Type 0 where
  pub id : ℕ
  pub title : String
  pub alert_type : String
  pub severity : String
  pub created_at : ℕ
  pub ended_at : Option ℕ
  pub messages : List AlertDetailMessage
  pub services : List AlertDetailService

-- `order by`: a stable insertion sort (SQLite leaves the order of equal keys open).
unfoldable pub insert_by : {A : Type 0} → (A → A → Bool) → A → List A → List A
insert_by before x [] = x ∷ []
insert_by before x (y ∷ ys) = if before y x then y ∷ insert_by before x ys else x ∷ y ∷ ys

unfoldable pub sort_by : {A : Type 0} → (A → A → Bool) → List A → List A
sort_by before [] = []
sort_by before (x ∷ xs) = insert_by before x (sort_by before xs)

unfoldable pub severity_rank : String → ℕ
severity_rank s = if s == "red" then 1 else if s == "amber" then 2 else 3

unfoldable pub by_severity : List Alert → List Alert
by_severity = sort_by (λ (a b : Alert). ltb (severity_rank a.severity) (severity_rank b.severity))

-- ListOngoingAlerts: the most severe first.
unfoldable pub list_ongoing_alerts : AlertTables → Answer AlertTables (List Alert)
list_ongoing_alerts t = ok (by_severity (keep is_ongoing t.alerts)) t

unfoldable pub ongoing_id : AlertTables → ℕ → Bool
ongoing_id t id = any (λ (a : Alert). is_ongoing a && a.id == id) t.alerts

-- ListOngoingAlertMessages: the newest first.
unfoldable pub list_ongoing_alert_messages : AlertTables → Answer AlertTables (List AlertMessage)
list_ongoing_alert_messages t =
    ok
      (sort_by (λ (a b : AlertMessage). ltb b.created_at a.created_at)
        (keep (λ (m : AlertMessage). ongoing_id t m.alert_id) t.messages))
      t

-- A row of the left join of alert_service with service.
pub record AlertServiceRow : Type 0 where
  pub alert_id : ℕ
  pub service : Option Service

-- ListOngoingAlertServices
unfoldable pub list_ongoing_alert_services : AlertTables → Answer AlertTables (List AlertServiceRow)
list_ongoing_alert_services t =
    ok
      (map
        (λ (l : AlertService). record {
          alert_id = l.alert_id;
          service = find (λ (s : Service). s.id == l.service_id) t.services;
        })
        (keep (λ (l : AlertService). ongoing_id t l.alert_id) t.alert_services))
      t

unfoldable pub message_details : ℕ → List AlertMessage → List AlertDetailMessage
message_details id rows =
    map
      (λ (m : AlertMessage). record {
        id = m.id;
        content = m.content;
        created_at = m.created_at;
        last_updated_at = m.last_updated_at;
      })
      (keep (λ (m : AlertMessage). m.alert_id == id) rows)

-- A row whose service is gone carries zero values.
unfoldable pub service_details : ℕ → List AlertServiceRow → List AlertDetailService
service_details id rows =
    map
      (λ (r : AlertServiceRow). elim r.service [
        | none ↦ record { id = 0; name = ""; helper_text = "" }
        | some s ↦ record { id = s.id; name = s.name; helper_text = s.helper_text }
      ])
      (keep (λ (r : AlertServiceRow). r.alert_id == id) rows)

-- alertDetailsFromRows and attachAlertDetails
unfoldable pub attach_alert_details :
    List Alert → List AlertMessage → List AlertServiceRow → List AlertDetail
attach_alert_details [] messages services = []
attach_alert_details (a ∷ rows) messages services =
    record {
      id = a.id;
      title = a.title;
      alert_type = a.kind;
      severity = a.severity;
      created_at = a.created_at;
      ended_at = a.ended_at;
      messages = message_details a.id messages;
      services = service_details a.id services;
    }
    ∷ attach_alert_details rows messages services

-- The loop: amber is kept and the loop goes on, red ends it.
unfoldable pub new_severity_from : String → List AlertDetail → String
new_severity_from new_severity [] = new_severity
new_severity_from new_severity (a ∷ alerts) =
    let rest = new_severity_from (if a.severity == "amber" then "amber" else new_severity) alerts in
    if a.severity == "amber" then rest else if a.severity == "red" then "red" else rest

-- What the page has to show, whatever the order of the alerts.
abbrev pub is_severity : String → Alert → Bool
is_severity s a = a.severity == s

unfoldable pub worst : List Alert → String
worst alerts =
    if any (is_severity "red") alerts
    then "red"
    else if any (is_severity "amber") alerts
    then "amber"
    else "blue"

module _ (env : Env) where
  unfoldable pub get_ongoing_alerts : {M : Type 0} → H AlertTables M (List AlertDetail)
  get_ongoing_alerts = do
    rows ← exec env list_ongoing_alerts
    messages ← exec env list_ongoing_alert_messages
    services ← exec env list_ongoing_alert_services
    pure (attach_alert_details rows messages services)

  -- The lines of each handler from getOngoingAlerts to updateSeverity.
  unfoldable pub refresh_severity : {M : Type 0} → H AlertTables M (Unit {0})
  unfolding get_ongoing_alerts
  refresh_severity = do
    alerts ← get_ongoing_alerts
    exec env (update_severity (new_severity_from "blue" alerts))
