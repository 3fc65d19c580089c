-- ===== src/Notifications/Queue.antt =====
-- ListUnsentAlertNotifications of sql/alerts.sql: the unsent notifications, each joined with its
-- subscription, message and alert, the oldest message first.
use statusnook.Prelude.{
  Bool, Bool-cases, List, Option, String, [], any, arith, false, find, if◌then◌else◌, inl, inr, ltb,
  nat_eq, none, refl, some, string_eq, true, ℕ, ◌&&◌, ◌==◌, ◌||◌, ◌∷◌, ◌≡◌, ◌⊎◌,
}
use statusnook.Text.{concat}
use statusnook.World.{Answer, ok}
use statusnook.Alerts.Tables.{
  Alert, AlertMessage, AlertNotification, AlertService, AlertSubscription, AlertTables, Service,
}
use statusnook.Notifications.Tables.{NotificationTables}

-- UnsentAlertNotification, with the time that the query orders by.
pub record Unsent : Type 0 where
  pub id : ℕ
  pub destination : String
  pub content : String
  pub kind : String
  pub message_id : ℕ
  pub title : String
  pub alert_type : String
  pub severity : String
  pub services : String
  pub message_time : ℕ

abbrev pub is_unsent : AlertNotification → Bool
is_unsent n = elim n.sent_at [ none ↦ true | some _ ↦ false ]

-- group_concat(service.name, ' • ')
abbrev joined : List String → String
joined [] = ""
joined (x ∷ xs) = elim xs [ [] ↦ x | _ ∷ _ ↦ concat x (concat " • " (joined xs)) ]

-- service.name for the rows of alert_service that name the alert.
service_names : AlertTables → ℕ → List AlertService → List String
service_names t alert_id [] = []
service_names t alert_id (l ∷ ls) =
    let rest = service_names t alert_id ls in
    if l.alert_id == alert_id
    then elim (find (λ (s : Service). s.id == l.service_id) t.services) [
      | none ↦ rest
      | some s ↦ s.name ∷ rest
    ]
    else rest

-- A column of a left join, where it finds no row.
text_of : {A : Type 0} → Option A → (A → String) → String
text_of none f = ""
text_of (some a) f = f a

number_of : {A : Type 0} → Option A → (A → ℕ) → ℕ
number_of none f = 0
number_of (some a) f = f a

alert_of : AlertTables → Option AlertMessage → Option Alert
alert_of t none = none
alert_of t (some m) = find (λ (a : Alert). a.id == m.alert_id) t.alerts

joined_row : AlertTables → AlertNotification → Unsent
unfolding text_of number_of alert_of service_names
joined_row t n =
    let subscription =
      find (λ (s : AlertSubscription). s.id == n.subscription_id) t.subscriptions in
    let message = find (λ (m : AlertMessage). m.id == n.message_id) t.messages in
    let alert = alert_of t message in
    record {
      id = n.id;
      destination = text_of subscription λ s. s.destination;
      content = text_of message λ m. m.content;
      kind = text_of subscription λ s. s.kind;
      message_id = number_of message λ m. m.id;
      title = text_of alert λ a. a.title;
      alert_type = text_of alert λ a. a.kind;
      severity = text_of alert λ a. a.severity;
      services = text_of message λ m. joined (service_names t m.alert_id t.alert_services);
      message_time = number_of message λ m. m.created_at;
    }

-- `order by alert_message.created_at asc`: rows of one message stay in the table's order.
insert_by_time : Unsent → List Unsent → List Unsent
insert_by_time u [] = u ∷ []
insert_by_time u (v ∷ vs) =
    let rest = insert_by_time u vs in
    if ltb v.message_time u.message_time then v ∷ rest else u ∷ v ∷ vs

rows_of : AlertTables → List AlertNotification → List Unsent
unfolding joined_row insert_by_time
rows_of t [] = []
rows_of t (n ∷ ns) =
    let rest = rows_of t ns in if is_unsent n then insert_by_time (joined_row t n) rest else rest

unfoldable pub unsent_rows : NotificationTables → List Unsent
unfolding rows_of
unsent_rows t = rows_of t.alerts t.alerts.notifications

unfoldable pub list_unsent : NotificationTables → Answer NotificationTables (List Unsent)
list_unsent t = ok (unsent_rows t) t

abbrev pub lists : List Unsent → ℕ → Bool
lists batch id = any (λ (u : Unsent). u.id == id) batch

lists-insert_by_time :
    (u : Unsent) (us : List Unsent) (id : ℕ)
    → lists (insert_by_time u us) id ≡ (u.id == id || lists us id)
unfolding insert_by_time
lists-insert_by_time u [] id = refl
lists-insert_by_time u (v ∷ vs) id = ground (arith, lists-insert_by_time u vs id)

-- Every unsent row of the table is listed.
lists-rows_of :
    (t : AlertTables) (id : ℕ) (ns : List AlertNotification)
    → any (λ (n : AlertNotification). is_unsent n && n.id == id) ns ≡ true
    → lists (rows_of t ns) id ≡ true
unfolding rows_of joined_row
lists-rows_of t id [] h = ground (arith, h)
lists-rows_of t id (n ∷ ns) h = go (Bool-cases (is_unsent n)) (lists-rows_of t id ns)
  where
    go :
        (is_unsent n ≡ true) ⊎ (is_unsent n ≡ false)
        → (any (λ (n : AlertNotification). is_unsent n && n.id == id) ns ≡ true
            → lists (rows_of t ns) id ≡ true)
        → lists (rows_of t (n ∷ ns)) id ≡ true
    go (inl e) k =
        rw (e, lists-insert_by_time (joined_row t n) (rows_of t ns) id) ground (arith, h, e, k)
    go (inr e) k = rw (e) (k (ground (arith, h, e)))

rows_of-sent :
    (t : AlertTables) (ns : List AlertNotification) → any is_unsent ns ≡ false → rows_of t ns ≡ []
unfolding rows_of
rows_of-sent t [] h = refl
rows_of-sent t (n ∷ ns) h = ground (arith, h, rows_of-sent t ns)

pub unsent_rows-lists :
    (t : NotificationTables) (id : ℕ)
    → any (λ (n : AlertNotification). is_unsent n && n.id == id) t.alerts.notifications ≡ true
    → lists (unsent_rows t) id ≡ true
unfolding unsent_rows
unsent_rows-lists t id = lists-rows_of t.alerts id t.alerts.notifications

pub unsent_rows-sent :
    (t : NotificationTables) → any is_unsent t.alerts.notifications ≡ false → unsent_rows t ≡ []
unfolding unsent_rows
unsent_rows-sent t = rows_of-sent t.alerts t.alerts.notifications
