-- ===== src/Auth/Tables.antt =====
-- The tables of schema.sql for users, sessions and invitations, the process memory of loginlimit.go
-- and users.go, and the lifetimes.
use statusnook.Prelude.{Bool, List, Option, String, some, true, ℕ, ◌*◌, ◌≡◌}

pub record User : Type 0 where
  pub id : ℕ
  pub username : String
  pub password : String

pub record Session : Type 0 where
  pub id : ℕ
  pub token : String
  pub csrf_token : String
  pub created_at : ℕ
  pub user_id : ℕ

pub record UserInvitation : Type 0 where
  pub id : ℕ
  pub token : String
  pub created_at : ℕ

pub record AuthTables : Type 0 where
  pub users : List User
  pub sessions : List Session
  pub invitations : List UserInvitation

pub record LoginFailures : Type 0 where
  pub count : ℕ
  pub first : ℕ

pub record CrossAuthToken : Type 0 where
  pub user_id : ℕ
  pub issued_at : ℕ

-- loginLimiter and crossAuthTokens, maps by client address and by token.
pub record Memory : Type 0 where
  pub limiter : List (String × LoginFailures)
  pub tokens : List (String × CrossAuthToken)

-- golang.org/x/crypto/bcrypt: `hash` may refuse a password (longer than 72 bytes), and a hash
-- matches the password that it was made from.
pub record Crypto : Type 0 where
  pub hash : String → Option String
  pub matches : String → String → Bool
  pub matches-hash : (p h : String) → hash p ≡ some h → matches h p ≡ true

-- Nanoseconds, as time.Duration.
abbrev pub second : ℕ
second = 1000000000

abbrev pub login_max_failures : ℕ
login_max_failures = 10

abbrev pub login_window : ℕ
login_window = 15 * 60 * second

abbrev pub cross_auth_token_ttl : ℕ
cross_auth_token_ttl = 60 * second

abbrev pub session_lifetime : ℕ
session_lifetime = 30 * 24 * 3600 * second

abbrev pub user_invitation_lifetime : ℕ
user_invitation_lifetime = 24 * 3600 * second
