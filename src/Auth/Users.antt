-- ===== src/Auth/Users.antt =====
-- users2.go: the handlers that change users and invitations, and the logout. `id` is the user id
-- of the request's session.
use statusnook.Prelude.{
  Option, String, if◌then◌else◌, ltb, nat_eq, none, not, some, string_eq, ℕ, ◌&&◌, ◌==◌,
}
use statusnook.Text.{atoi, byte_length, names_row, ℤ}
use statusnook.World.{
  Env, Response, Result, attempt, bad, bad_request, begin, commit, constraint, demand, exec, fault,
  good, hx_location, internal_error, no_rows, pure, refuse_if, reply, status_only, ◌>>=◌, ◌>>◌,
}
use statusnook.Engine.{Engine}
use statusnook.Auth.Tables.{Crypto}
use statusnook.Auth.Queries.{
  create_user_invitation, delete_all_sessions_by_user_id, delete_session, delete_user_by_id,
  delete_user_invitation, edit_user, get_username_by_id,
}
use statusnook.Auth.Login.{AuthHandler, unless_taken}

-- The session cookie emptied, and the HX-Location header.
abbrev pub logged_out : Response
logged_out = record { status = 200; location = some "/"; cookie = some "" }

-- The error branches of getUsernameByID.
unfoldable pub known_username : Result String → AuthHandler (Unit {0})
known_username (good _) = pure tt
known_username (bad no_rows) = reply (status_only 404)
known_username (bad constraint) = reply internal_error
known_username (bad fault) = reply internal_error

module _ (crypto : Crypto) (env : Env) where
  -- The two branches of postEditUser: "retain" keeps the password and the sessions.
  unfoldable pub store_user : ℤ → String → String → AuthHandler (Unit {0})
  store_user id username password =
      if password == "retain"
      then (attempt env (edit_user id username none) >>= λ r. unless_taken r)
      else do
        pw_hash ← demand (crypto.hash password) internal_error
        edited ← attempt env (edit_user id username (some pw_hash))
        unless_taken edited
        exec env (delete_all_sessions_by_user_id id)

  unfoldable pub post_edit_user : ℕ → String → String → String → AuthHandler Response
  unfolding known_username store_user
  post_edit_user auth_id id_param username password = do
    id ← demand (atoi id_param) bad_request
    refuse_if (username == "") bad_request
    refuse_if (password == "") bad_request
    refuse_if (not (password == "retain") && ltb (byte_length password) 8) bad_request
    begin env
    row ← attempt env (get_username_by_id id)
    known_username row
    store_user id username password
    commit env
    pure (
        hx_location (
          if names_row id auth_id && not (password == "retain")
          then "/login"
          else "/admin/settings"))

module _ (env : Env) where
  unfoldable pub delete_user : ℕ → String → AuthHandler Response
  delete_user auth_id id_param = do
    id ← demand (atoi id_param) bad_request
    refuse_if (names_row id auth_id) bad_request
    begin env
    exec env (delete_user_by_id id)
    commit env
    pure (status_only 200)

  unfoldable pub post_delete_invite : String → AuthHandler Response
  post_delete_invite id_param = do
    id ← demand (atoi id_param) bad_request
    begin env
    exec env (delete_user_invitation id)
    commit env
    pure (status_only 200)

  unfoldable pub post_invite_user : Engine → Option String → AuthHandler Response
  post_invite_user eng random = do
    begin env
    token ← demand random internal_error
    exec env (create_user_invitation eng token env.now)
    commit env
    pure (status_only 200)

  -- The session cookie, if the request has one.
  unfoldable pub logout : Option String → AuthHandler Response
  logout session_token = do
    begin env
    token ← demand session_token (status_only 401)
    exec env (delete_session token)
    commit env
    pure logged_out
