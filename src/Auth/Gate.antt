-- ===== src/Auth/Gate.antt =====
-- The middleware of router.go and users.go in front of the routes of /admin: the session lookup,
-- csrfMiddleware, and the guard that sends a request without a session to the login page.
use statusnook.Prelude.{
  Bool, Option, String, if◌then◌else◌, nat_eq, none, some, string_eq, ℕ, ◌==◌, ◌||◌,
}
use statusnook.World.{
  Env, Response, Result, attempt, bad, begin, commit, constraint, fault, good, no_rows, redirect,
  reply, status_only, ◌>>=◌, ◌>>◌,
}
use statusnook.Auth.Queries.{SessionRow, validate_session}
use statusnook.Auth.Login.{AuthHandler}

-- What the middleware reads of a request.
pub record Request : Type 0 where
  pub method : String
  pub session_cookie : Option String
  pub csrf_header : String

pub record AuthCtx : Type 0 where
  pub id : ℕ
  pub csrf_token : String

-- getAuthCtx of a request without a session
abbrev pub no_auth : AuthCtx
no_auth = record { id = 0; csrf_token = "" }

abbrev pub AuthMiddleware : Type 0
AuthMiddleware = (AuthCtx → AuthHandler Response) → AuthHandler Response

module _ (env : Env) where
  -- The answer of validateSession.
  unfoldable pub with_session : Result SessionRow → AuthMiddleware
  with_session (good row) next =
      commit env >> next (record { id = row.id; csrf_token = row.csrf_token })
  with_session (bad no_rows) next = next no_auth
  with_session (bad constraint) next = reply (status_only 401)
  with_session (bad fault) next = reply (status_only 401)

  unfoldable pub session_middleware : Option String → AuthMiddleware
  unfolding with_session
  session_middleware none next = begin env >> next no_auth
  session_middleware (some token) next = do
    begin env
    row ← attempt env (validate_session token env.now)
    with_session row next

abbrev pub is_safe : String → Bool
is_safe method = method == "GET" || (method == "HEAD" || method == "OPTIONS")

unfoldable pub csrf_middleware : Request → AuthCtx → AuthHandler Response → AuthHandler Response
csrf_middleware r ctx next =
    if is_safe r.method
    then next
    else if r.csrf_header == ctx.csrf_token
    then next
    else reply (status_only 403)

unfoldable pub admin_middleware : AuthCtx → AuthHandler Response → AuthHandler Response
admin_middleware ctx next = if ctx.id == 0 then reply (redirect "/login") else next

-- A request for a route of /admin.
unfoldable pub admin : Env → Request → AuthMiddleware
unfolding session_middleware csrf_middleware admin_middleware
admin env r next =
    session_middleware env r.session_cookie
      (λ ctx. csrf_middleware r ctx (admin_middleware ctx (next ctx)))
