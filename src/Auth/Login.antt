-- ===== src/Auth/Login.antt =====
-- users.go: the handlers that start a session. A handler takes the request's values, the
-- limiter's key, and the base64 texts of what rand.Read gave it, if it did.
use statusnook.Prelude.{
  Bool, Option, String, false, if◌then◌else◌, ltb, nat_eq, not, some, string_eq, true, ℕ, ◌==◌,
}
use statusnook.Text.{byte_length, pos}
use statusnook.World.{
  Env, H, Response, Result, attempt, bad, bad_request, begin, commit, constraint, demand, exec,
  fault, good, internal_error, no_rows, pure, recall, redirect, refuse_if, remember, reply,
  status_only, ◌>>=◌, ◌>>◌,
}
use statusnook.Engine.{Engine}
use statusnook.Auth.Tables.{AuthTables, Crypto, Memory, User}
use statusnook.Auth.Limiter.{clear_login_failures, login_rate_limited, record_login_failure}
use statusnook.Auth.CrossTokens.{redeem_cross_auth_token}
use statusnook.Auth.Queries.{
  create_session, create_user, delete_user_invitation, get_password_hash,
  validate_user_invitation_token,
}

abbrev pub AuthHandler : Type 0 → Type 0
AuthHandler A = H AuthTables Memory A

-- The two tokens of a new session.
pub record Randoms : Type 0 where
  pub token : Option String
  pub csrf_token : Option String

-- http.SetCookie with the session's token, and the HX-Location header.
abbrev pub logged_in : String → Response
logged_in token = record { status = 200; location = some "/admin/alerts"; cookie = some token }

abbrev pub too_many_requests : Response
too_many_requests = status_only 429

-- The error branches of validateUserInvitationToken, and those of createUser.
unfoldable pub known_invitation : Result ℕ → AuthHandler ℕ
known_invitation (good id) = pure id
known_invitation (bad no_rows) = reply bad_request
known_invitation (bad constraint) = reply internal_error
known_invitation (bad fault) = reply internal_error

unfoldable pub unless_taken : {A : Type 0} → Result A → AuthHandler A
unless_taken (good a) = pure a
unless_taken (bad constraint) = reply bad_request
unless_taken (bad no_rows) = reply internal_error
unless_taken (bad fault) = reply internal_error

module _ (env : Env) where
  unfoldable pub check_rate_limit : String → AuthHandler (Unit {0})
  check_rate_limit key = do
    m ← recall
    remember (record m { limiter = (login_rate_limited key env.now m.limiter).0 })
    refuse_if (login_rate_limited key env.now m.limiter).1 too_many_requests

  unfoldable pub note_failure : String → AuthHandler (Unit {0})
  note_failure key = do
    m ← recall
    remember (record m { limiter = record_login_failure key env.now m.limiter })

  unfoldable pub note_success : String → AuthHandler (Unit {0})
  note_success key = do
    m ← recall
    remember (record m { limiter = clear_login_failures key m.limiter })

  -- The error branches of getPasswordHash.
  unfoldable pub known_user : String → Result User → AuthHandler User
  unfolding note_failure
  known_user key (good u) = pure u
  known_user key (bad no_rows) = note_failure key >> reply bad_request
  known_user key (bad constraint) = reply internal_error
  known_user key (bad fault) = reply internal_error

  -- The answer of bcrypt.CompareHashAndPassword.
  unfoldable pub check_password : String → Bool → AuthHandler (Unit {0})
  unfolding note_failure
  check_password key true = pure tt
  check_password key false = note_failure key >> reply bad_request

module _ (eng : Engine) (env : Env) where
  -- From the two reads of random bytes to the reply.
  unfoldable pub start_session : Randoms → ℕ → (String → Response) → AuthHandler Response
  start_session randoms user_id done_with = do
    token ← demand randoms.token internal_error
    csrf_token ← demand randoms.csrf_token internal_error
    exec env (create_session eng token csrf_token user_id env.now)
    commit env
    pure (done_with token)

module _ (eng : Engine) (crypto : Crypto) (env : Env) where
  unfoldable pub post_login : String → String → String → Randoms → AuthHandler Response
  unfolding check_rate_limit known_user check_password note_success start_session
  post_login key username password randoms = do
    check_rate_limit env key
    refuse_if (username == "") bad_request
    refuse_if (password == "") bad_request
    begin env
    row ← attempt env (get_password_hash username)
    user ← known_user env key row
    check_password env key (crypto.matches user.password password)
    note_success env key
    start_session eng env randoms user.id logged_in

  unfoldable pub post_invitation :
      String → String → String → String → Randoms → AuthHandler Response
  unfolding known_invitation unless_taken start_session
  post_invitation invite_token username password password_confirmation randoms = do
    refuse_if (invite_token == "") bad_request
    begin env
    row ← attempt env (validate_user_invitation_token invite_token env.now)
    id ← known_invitation row
    exec env (delete_user_invitation (pos id))
    refuse_if (username == "") bad_request
    refuse_if (not (password == password_confirmation)) bad_request
    refuse_if (ltb (byte_length password) 8) bad_request
    pw_hash ← demand (crypto.hash password) internal_error
    created ← attempt env (create_user eng username pw_hash)
    user_id ← unless_taken created
    start_session eng env randoms user_id logged_in

module _ (eng : Engine) (env : Env) where
  -- getCrossAuth without a session, from the token on.
  unfoldable pub cross_auth : String → String → Randoms → AuthHandler Response
  cross_auth redirect_url token_param randoms = do
    m ← recall
    refuse_if (token_param == "") bad_request
    remember (record m { tokens = (redeem_cross_auth_token token_param env.now m.tokens).0 })
    user_id ← demand (redeem_cross_auth_token token_param env.now m.tokens).1 bad_request
    token ← demand randoms.token internal_error
    csrf_token ← demand randoms.csrf_token internal_error
    begin env
    exec env (create_session eng token csrf_token user_id env.now)
    commit env
    pure (record { status = 302; location = some redirect_url; cookie = some token })

  -- `id` is the session's user id, 0 without a session, and `redirect_url` the page of the status
  -- domain to go on to.
  unfoldable pub get_cross_auth : ℕ → String → String → Randoms → AuthHandler Response
  unfolding cross_auth
  get_cross_auth id redirect_url token_param randoms =
      if id == 0 then cross_auth redirect_url token_param randoms else pure (redirect redirect_url)
