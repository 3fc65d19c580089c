-- ===== src/World.antt =====
-- What a request handler runs in: the *sql.Tx calls of db.go's `db` and `rwDB` around a snapshot of
-- the tables, the process memory, and the reply written to http.ResponseWriter. Any database call
-- may fail: `Env.fails n` says whether the n-th call of the request does.
pub mod Hoare
pub mod Rules
pub mod Steps
pub mod Attempts
pub mod Reads
pub mod Stores
use statusnook.Prelude.{Bool, Option, String, if◌then◌else◌, none, some, ℕ, ◌+◌}

-- The errors that the handlers tell apart: sql.ErrNoRows, sqlite3.ErrConstraint, and any other.
pub data DbError : Type 0 where
  no_rows constraint fault : DbError

-- A statement's answer over the tables `S`: its rows and the tables after it, or an error that
-- leaves the tables as they were.
pub data Answer (S A : Type 0) : Type 0 where
  ok : A → S → Answer S A
  err : DbError → Answer S A

-- A query's row, or the error of finding none.
abbrev pub or_error : {S A : Type 0} → DbError → S → Option A → Answer S A
or_error e t none = err e
or_error e t (some a) = ok a t

-- A statement that the handler goes on after, whether it failed or not.
pub data Result (A : Type 0) : Type 0 where
  good : A → Result A
  bad : DbError → Result A

-- The status, the HX-Location or Location header, and the value of the session cookie set.
pub record Response : Type 0 where
  pub status : ℕ
  pub location : Option String
  pub cookie : Option String

-- w.WriteHeader(code)
abbrev pub status_only : ℕ → Response
status_only code = record { status = code; location = none; cookie = none }

-- w.Header().Add("HX-Location", path), with the implicit 200
abbrev pub hx_location : String → Response
hx_location path = record { status = 200; location = some path; cookie = none }

-- http.Redirect(w, r, path, http.StatusFound)
abbrev pub redirect : String → Response
redirect path = record { status = 302; location = some path; cookie = none }

abbrev pub bad_request : Response
bad_request = status_only 400

abbrev pub internal_error : Response
internal_error = status_only 500

-- `committed` is the database as other connections see it, `working` the open transaction's view.
pub record World (S M : Type 0) : Type 0 where
  pub committed : S
  pub working : S
  pub memory : M
  pub calls : ℕ

-- The outside of one request: which database calls fail, and time.Now().UTC(), in nanoseconds.
pub record Env : Type 0 where
  pub fails : ℕ → Bool
  pub now : ℕ

pub data Run (S M A : Type 0) : Type 0 where
  done : A → World S M → Run S M A
  stop : Response → World S M → Run S M A

abbrev pub H : Type 0 → Type 0 → Type 0 → Type 0
H S M A = World S M → Run S M A

abbrev pub tick : {S M : Type 0} → World S M → World S M
tick w = record w { calls = w.calls + 1 }

unfoldable pub pure : {S M A : Type 0} → A → H S M A
pure a w = done a w

-- An early `return` after the reply was written.
unfoldable pub reply : {S M A : Type 0} → Response → H S M A
reply r w = stop r w

-- `if cond { w.WriteHeader(…); return }`
pub refuse_if : {S M : Type 0} → Bool → Response → H S M (Unit {0})
refuse_if b r w = if b then stop r w else done tt w

-- A value that a parser or rand.Read may fail to give: the reply of the failing branch.
pub demand : {S M A : Type 0} → Option A → Response → H S M A
demand o r w = elim o [ none ↦ stop r w | some a ↦ done a w ]

-- A read and a write of the process memory.
pub recall : {S M : Type 0} → H S M M
recall w = done w.memory w

pub remember : {S M : Type 0} → M → H S M (Unit {0})
remember m w = done tt (record w { memory = m })

module _ {S M : Type 0} (env : Env) where
  -- db.Begin() and rwDB.Begin(), whose error is answered by 500.
  pub begin : H S M (Unit {0})
  begin w =
      if env.fails w.calls
      then stop internal_error (tick w)
      else done tt (record (tick w) { working = w.committed })

  -- tx.Commit(), whose error is answered by 500.
  pub commit : H S M (Unit {0})
  commit w =
      if env.fails w.calls
      then stop internal_error (tick w)
      else done tt (record (tick w) { committed = w.working })

  -- A statement whose every error is answered by 500.
  pub exec : {A : Type 0} → (S → Answer S A) → H S M A
  exec statement w =
      if env.fails w.calls then stop internal_error (tick w) else elim (statement w.working) [
        | ok a s ↦ done a (record (tick w) { working = s })
        | err e ↦ stop internal_error (tick w)
      ]

  -- A statement whose error the handler looks at.
  pub attempt : {A : Type 0} → (S → Answer S A) → H S M (Result A)
  attempt statement w =
      if env.fails w.calls then done (bad fault) (tick w) else elim (statement w.working) [
        | ok a s ↦ done (good a) (record (tick w) { working = s })
        | err e ↦ done (bad e) (tick w)
      ]

-- Opening this opens the actions above too.
infixl 5 ◌>>=◌ ◌>>◌
unfoldable pub ◌>>=◌ : {S M A B : Type 0} → H S M A → (A → H S M B) → H S M B
unfolding pure reply refuse_if demand recall remember begin commit exec attempt
◌>>=◌ m f w = elim (m w) [ done a w' ↦ f a w' | stop r w' ↦ stop r w' ]

abbrev pub ◌>>◌ : {S M B : Type 0} → H S M (Unit {0}) → H S M B → H S M B
m >> k = m >>= λ _. k

module _ {S M : Type 0} where
  abbrev pub start : S → M → World S M
  start s m = record { committed = s; working = s; memory = m; calls = 0 }

  abbrev pub final : Run S M Response → World S M
  final (done r w) = w
  final (stop r w) = w

  abbrev pub response : Run S M Response → Response
  response (done r w) = r
  response (stop r w) = r

-- A handler run to its end on the committed tables `s`: the reply, the tables that other
-- connections see afterwards (`defer tx.Rollback()` drops the rest), and the memory.
pub record Served (S M : Type 0) : Type 0 where
  pub sent : Response
  pub tables : S
  pub kept : M

abbrev pub serve : {S M : Type 0} → H S M Response → S → M → Served S M
serve h s m =
    let r = h (start s m) in
    record { sent = response r; tables = (final r).committed; kept = (final r).memory }
