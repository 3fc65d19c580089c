-- ===== src/Alerts/Tables.antt =====
-- The tables of schema.sql that alerts and their subscribers live in, and the page's severity row.
-- Times are nanoseconds; a nullable column is an `Option`.
use statusnook.Prelude.{ℕ, Bool, String, Option, List}

pub record Service : Type 0 where
  pub id : ℕ
  pub slug : String
  pub name : String
  pub helper_text : String

pub record Alert : Type 0 where
  pub id : ℕ
  pub title : String
  pub kind : String
  pub severity : String
  pub created_at : ℕ
  pub ended_at : Option ℕ

pub record AlertMessage : Type 0 where
  pub id : ℕ
  pub content : String
  pub created_at : ℕ
  pub last_updated_at : Option ℕ
  pub alert_id : ℕ

pub record AlertService : Type 0 where
  pub id : ℕ
  pub alert_id : ℕ
  pub service_id : ℕ

pub record AlertSubscription : Type 0 where
  pub id : ℕ
  pub kind : String
  pub destination : String
  pub meta : Option String
  pub active : Bool

pub record AlertNotification : Type 0 where
  pub id : ℕ
  pub created_at : ℕ
  pub sent_at : Option ℕ
  pub subscription_id : ℕ
  pub message_id : ℕ

pub record PendingSubscription : Type 0 where
  pub id : ℕ
  pub token : String
  pub email : String
  pub created_at : ℕ
  pub confirmed_at : Option ℕ

pub record AlertTables : Type 0 where
  pub services : List Service
  pub severity : List String
  pub alerts : List Alert
  pub messages : List AlertMessage
  pub alert_services : List AlertService
  pub subscriptions : List AlertSubscription
  pub notifications : List AlertNotification
  pub pending : List PendingSubscription
