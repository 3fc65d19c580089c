-- ===== src/Tests/Data.antt =====
-- A row id and collation of SQLite's kind, and an instance with an administrator and one alert.
use statusnook.Prelude.{
  List, String, [], any, arith, eq_iff, false, nat_eq, none, refl, some, string_eq, true, ℕ, ◌*◌,
  ◌+◌, ◌<◌, ◌==◌, ◌∷◌, ◌≡◌,
}
use statusnook.World.{Env}
use statusnook.Engine.{Engine}
use statusnook.Alerts.Tables.{AlertTables}
use statusnook.Auth.Tables.{AuthTables, Crypto, Memory, second}

abbrev pub total : List ℕ → ℕ
total [] = 0
total (i ∷ ids) = i + total ids

pub total-unused : (n : ℕ) (ids : List ℕ) → total ids < n → any (λ i. i == n) ids ≡ false
total-unused n [] h = refl
total-unused n (i ∷ ids) h = ground (arith, total-unused n ids)

pub same_text-sym : (s t : String) → (s == t) ≡ (t == s)
same_text-sym s t = ground (arith, eq_iff s t, eq_iff t s)

abbrev pub engine : Engine
engine = record {
  fresh = λ ids. total ids + 1;
  fresh_unused = λ ids. total-unused (total ids + 1) ids (omega arith);
  nocase = λ s t. s == t;
  nocase_refl = λ s. (eq_iff s s).1 refl;
  nocase_sym = same_text-sym;
}

abbrev pub env : Env
env = record { fails = λ _. false; now = 5000 * second }

-- The third database call fails.
abbrev pub faulty : Env
faulty = record { fails = λ n. n == 2; now = 5000 * second }

abbrev pub alert_tables : AlertTables
alert_tables = record {
  services = record { id = 7; slug = "api"; name = "API"; helper_text = "" } ∷ [];
  severity = "red" ∷ [];
  alerts =
      record {
        id = 3;
        title = "Down";
        kind = "incident";
        severity = "red";
        created_at = 1;
        ended_at = none;
      }
      ∷ record {
        id = 4;
        title = "Slow";
        kind = "incident";
        severity = "amber";
        created_at = 2;
        ended_at = none;
      }
      ∷ [];
  messages =
      record {
        id = 5;
        content = "Looking into it";
        created_at = 1;
        last_updated_at = none;
        alert_id = 3;
      }
      ∷ [];
  alert_services = record { id = 1; alert_id = 3; service_id = 7 } ∷ [];
  subscriptions =
      record {
        id = 2;
        kind = "email";
        destination = "a@example.com";
        meta = some "m";
        active = true;
      }
      ∷ [];
  notifications =
      record { id = 1; created_at = 1; sent_at = none; subscription_id = 2; message_id = 5 } ∷ [];
  pending = [];
}

pub stored-matches : (p h : String) → some p ≡ some h → (h == p) ≡ true
stored-matches p h e = ground (arith, eq_iff h p)

-- The password itself as its hash.
abbrev pub crypto : Crypto
crypto = record { hash = λ p. some p; matches = λ h p. h == p; matches-hash = stored-matches }

abbrev pub auth_tables : AuthTables
auth_tables = record {
  users =
      record { id = 1; username = "ada"; password = "correct horse" }
      ∷ record { id = 2; username = "bob"; password = "battery staple" }
      ∷ [];
  sessions =
      record { id = 1; token = "t1"; csrf_token = "c1"; created_at = 4000 * second; user_id = 1 }
      ∷ [];
  invitations = record { id = 9; token = "invite"; created_at = 4000 * second } ∷ [];
}

abbrev pub memory : Memory
memory = record {
  limiter = ("10.0.0.1", record { count = 3; first = 4900 * second }) ∷ [];
  tokens = ("cross", record { user_id = 1; issued_at = 4980 * second }) ∷ [];
}
