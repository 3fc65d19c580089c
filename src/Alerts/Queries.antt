-- ===== src/Alerts/Queries.antt =====
-- The statements of sql/alerts.sql as alertsdb.go calls them, over the tables of schema.sql with
-- their foreign keys: a row that names a missing parent is a constraint error, and a delete
-- cascades to the rows that name it.
use statusnook.Prelude.{
  Bool, List, Option, String, [], any, false, if◌then◌else◌, keep, map, nat_eq, none, not, rewrite,
  some, string_eq, true, ℕ, ◌&&◌, ◌++◌, ◌==◌, ◌∷◌,
}
use statusnook.Text.{names_row, ℤ}
use statusnook.World.{Answer, constraint, err, no_rows, ok}
use statusnook.Engine.{Engine}
use statusnook.Alerts.Tables.{
  Alert, AlertMessage, AlertNotification, AlertService, AlertSubscription, AlertTables, Service,
}

abbrev pub has_alert : AlertTables → ℤ → Bool
has_alert t id = any (λ (a : Alert). names_row id a.id) t.alerts

abbrev pub has_service : AlertTables → ℤ → Bool
has_service t id = any (λ (s : Service). names_row id s.id) t.services

abbrev pub has_message : AlertTables → ℕ → Bool
has_message t id = any (λ (m : AlertMessage). m.id == id) t.messages

abbrev pub is_ongoing : Alert → Bool
is_ongoing a = elim a.ended_at [ none ↦ true | some _ ↦ false ]

-- `pos n` names the row n; a negative id names none, and never passes a foreign key.
abbrev pub row_id : ℤ → ℕ
row_id (ℤ.pos n) = n
row_id (ℤ.negsuc _) = 0

module _ (eng : Engine) where
  -- CreateAlert
  unfoldable pub insert_alert : String → String → String → ℕ → AlertTables → Answer AlertTables ℕ
  insert_alert title kind severity now t =
      let id = eng.fresh (map (λ (a : Alert). a.id) t.alerts) in
      ok id (record t {
        alerts =
            t.alerts
            ++ record {
              id = id;
              title = title;
              kind = kind;
              severity = severity;
              created_at = now;
              ended_at = none;
            }
              ∷ [];
      })

  -- AddAlertService
  unfoldable pub add_alert_service : ℤ → ℤ → AlertTables → Answer AlertTables (Unit {0})
  add_alert_service alert_id service_id t =
      if has_alert t alert_id && has_service t service_id
      then ok tt (record t {
        alert_services =
            t.alert_services
            ++ record {
              id = eng.fresh (map (λ (l : AlertService). l.id) t.alert_services);
              alert_id = row_id alert_id;
              service_id = row_id service_id;
            }
              ∷ [];
      })
      else err constraint

  -- CreateAlertMessage
  unfoldable pub insert_message : ℤ → String → ℕ → AlertTables → Answer AlertTables ℕ
  insert_message alert_id content now t =
      let id = eng.fresh (map (λ (m : AlertMessage). m.id) t.messages) in
      if has_alert t alert_id
      then ok id (record t {
        messages =
            t.messages
            ++ record {
              id = id;
              content = content;
              created_at = now;
              last_updated_at = none;
              alert_id = row_id alert_id;
            }
              ∷ [];
      })
      else err constraint

  -- The rows of CreateAlertMessageNotifications: one for each active subscription.
  unfoldable pub queue_rows :
      ℕ → ℕ → List AlertSubscription → List AlertNotification → List AlertNotification
  queue_rows now message_id [] queue = queue
  queue_rows now message_id (s ∷ subs) queue = queue_rows now message_id subs (
      if s.active
      then queue
        ++ record {
          id = eng.fresh (map (λ (n : AlertNotification). n.id) queue);
          created_at = now;
          sent_at = none;
          subscription_id = s.id;
          message_id = message_id;
        }
          ∷ []
      else queue)

  -- CreateAlertMessageNotifications
  unfoldable pub insert_notifications : ℕ → ℕ → AlertTables → Answer AlertTables (Unit {0})
  insert_notifications now message_id t =
      if has_message t message_id
      then ok tt
          (record t { notifications = queue_rows now message_id t.subscriptions t.notifications })
      else err constraint

-- EditAlert
unfoldable pub update_alert :
    ℤ → String → String → String → AlertTables → Answer AlertTables (Unit {0})
update_alert id title kind severity t = ok tt (record t {
  alerts =
      rewrite (λ (a : Alert). names_row id a.id)
        (λ a. record a { title = title; kind = kind; severity = severity }) t.alerts;
})

-- DeleteAlertServicesByAlertID
unfoldable pub delete_alert_services : ℤ → AlertTables → Answer AlertTables (Unit {0})
delete_alert_services id t = ok tt (record t {
  alert_services = keep (λ (l : AlertService). not (names_row id l.alert_id)) t.alert_services;
})

-- ResolveAlert and UnresolveAlert
unfoldable pub set_ended_at : ℤ → Option ℕ → AlertTables → Answer AlertTables (Unit {0})
set_ended_at id ended t = ok tt (record t {
  alerts = rewrite (λ (a : Alert). names_row id a.id) (λ a. record a { ended_at = ended }) t.alerts;
})

-- `on delete cascade`: a notification goes with its message.
unfoldable pub drop_messages : (AlertMessage → Bool) → AlertTables → AlertTables
drop_messages gone t =
    let left = keep (λ m. not (gone m)) t.messages in
    record t {
      messages = left;
      notifications =
          keep
            (λ (n : AlertNotification).
              not (any (λ (m : AlertMessage). gone m && m.id == n.message_id) t.messages))
            t.notifications;
    }

-- DeleteAlertByID, with the rows that reference the alert.
unfoldable pub delete_alert_row : ℤ → AlertTables → Answer AlertTables (Unit {0})
delete_alert_row id t = ok tt (
    drop_messages (λ m. names_row id m.alert_id)
      (record t {
        alerts = keep (λ (a : Alert). not (names_row id a.id)) t.alerts;
        alert_services =
            keep (λ (l : AlertService). not (names_row id l.alert_id)) t.alert_services;
      }))

-- DeleteAlertMessageByID
unfoldable pub delete_message : ℤ → ℤ → AlertTables → Answer AlertTables (Unit {0})
delete_message alert_id id t =
    ok tt
      (drop_messages (λ (m : AlertMessage). names_row alert_id m.alert_id && names_row id m.id) t)

abbrev pub is_message : ℤ → ℤ → AlertMessage → Bool
is_message alert_id id m = names_row alert_id m.alert_id && names_row id m.id

abbrev pub with_content : String → ℕ → AlertMessage → AlertMessage
with_content content now m = record m { content = content; last_updated_at = some now }

-- EditAlertMessage
unfoldable pub update_message : ℤ → ℤ → String → ℕ → AlertTables → Answer AlertTables (Unit {0})
update_message alert_id id content now t =
    ok tt (record t {
      messages = rewrite (is_message alert_id id) (with_content content now) t.messages;
    })

-- UpdateSeverity and GetSeverity
unfoldable pub update_severity : String → AlertTables → Answer AlertTables (Unit {0})
update_severity severity t = ok tt (record t { severity = map (λ _. severity) t.severity })

unfoldable pub get_severity : AlertTables → Answer AlertTables String
get_severity t = elim t.severity [ [] ↦ err no_rows | s ∷ _ ↦ ok s t ]
