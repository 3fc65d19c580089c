-- ===== src/Auth/Queries.antt =====
-- The statements of sql/users.sql as usersdb.go calls them, over the tables of schema.sql with
-- their unique columns and the foreign key of session, which cascades on delete.
use statusnook.Prelude.{
  Bool, Option, String, [], any, find, if◌then◌else◌, keep, ltb, map, nat_eq, none, not, rewrite,
  some, string_eq, ℕ, ◌&&◌, ◌++◌, ◌+◌, ◌==◌, ◌||◌, ◌∷◌,
}
use statusnook.Text.{names_row, ℤ}
use statusnook.World.{Answer, constraint, err, no_rows, ok}
use statusnook.Engine.{Engine}
use statusnook.Auth.Tables.{
  AuthTables, Session, User, UserInvitation, session_lifetime, user_invitation_lifetime,
}

abbrev pub has_user : AuthTables → ℕ → Bool
has_user t id = any (λ (u : User). u.id == id) t.users

abbrev pub is_user : ℤ → User → Bool
is_user id u = names_row id u.id

abbrev pub has_username : String → User → Bool
has_username username u = u.username == username

abbrev pub has_token : String → Session → Bool
has_token token s = s.token == token

abbrev pub has_csrf_token : String → Session → Bool
has_csrf_token csrf_token s = s.csrf_token == csrf_token

abbrev pub is_session_of : ℤ → Session → Bool
is_session_of id s = names_row id s.user_id

-- user.id and session.csrf_token of the join.
pub record SessionRow : Type 0 where
  pub id : ℕ
  pub csrf_token : String

-- A session counts while created_at is after time.Now() less its lifetime.
abbrev pub is_valid : AuthTables → String → ℕ → Session → Bool
is_valid t token now s =
    s.token == token && (ltb now (s.created_at + session_lifetime) && has_user t s.user_id)

-- ValidateSession
unfoldable pub validate_session : String → ℕ → AuthTables → Answer AuthTables SessionRow
validate_session token now t = elim (find (is_valid t token now) t.sessions) [
  | none ↦ err no_rows
  | some s ↦ ok (record { id = s.user_id; csrf_token = s.csrf_token }) t
]

-- GetPasswordHash
unfoldable pub get_password_hash : String → AuthTables → Answer AuthTables User
get_password_hash username t = elim (find (has_username username) t.users) [
  | none ↦ err no_rows
  | some u ↦ ok u t
]

-- GetUsernameByID
unfoldable pub get_username_by_id : ℤ → AuthTables → Answer AuthTables String
get_username_by_id id t = elim (find (is_user id) t.users) [
  | none ↦ err no_rows
  | some u ↦ ok u.username t
]

abbrev pub is_active_invitation : String → ℕ → UserInvitation → Bool
is_active_invitation token now i =
    i.token == token && ltb now (i.created_at + user_invitation_lifetime)

-- ValidateUserInvitationToken, with the minimal time of the handlers.
unfoldable pub validate_user_invitation_token : String → ℕ → AuthTables → Answer AuthTables ℕ
validate_user_invitation_token token now t =
    elim (find (is_active_invitation token now) t.invitations) [
      | none ↦ err no_rows
      | some i ↦ ok i.id t
    ]

-- DeleteUserInvitation
unfoldable pub delete_user_invitation : ℤ → AuthTables → Answer AuthTables (Unit {0})
delete_user_invitation id t = ok tt (record t {
  invitations = keep (λ (i : UserInvitation). not (names_row id i.id)) t.invitations;
})

-- DeleteSession
unfoldable pub delete_session : String → AuthTables → Answer AuthTables (Unit {0})
delete_session token t =
    ok tt (record t { sessions = keep (λ (s : Session). not (has_token token s)) t.sessions })

-- DeleteAllSessionsByUserID
unfoldable pub delete_all_sessions_by_user_id : ℤ → AuthTables → Answer AuthTables (Unit {0})
delete_all_sessions_by_user_id id t =
    ok tt (record t { sessions = keep (λ (s : Session). not (is_session_of id s)) t.sessions })

-- DeleteUserByID, with the rows that reference the user.
unfoldable pub delete_user_by_id : ℤ → AuthTables → Answer AuthTables (Unit {0})
delete_user_by_id id t = ok tt (record t {
  users = keep (λ (u : User). not (is_user id u)) t.users;
  sessions = keep (λ (s : Session). not (is_session_of id s)) t.sessions;
})

-- A new username collides with the one of another user.
abbrev pub is_taken : ℤ → String → User → Bool
is_taken id username u = not (is_user id u) && has_username username u

-- EditUser, and EditUserUsername where no password hash is given: the unique column refuses the
-- name of another user, if the id names a row.
unfoldable pub edit_user : ℤ → String → Option String → AuthTables → Answer AuthTables (Unit {0})
edit_user id username pw_hash t =
    if any (is_user id) t.users && any (is_taken id username) t.users
    then err constraint
    else ok tt (record t {
      users =
          rewrite (is_user id)
            (λ u. record u {
              username = username;
              password = elim pw_hash [ none ↦ u.password | some h ↦ h ];
            })
            t.users;
    })

module _ (eng : Engine) where
  -- CreateSession
  unfoldable pub create_session :
      String → String → ℕ → ℕ → AuthTables → Answer AuthTables (Unit {0})
  create_session token csrf_token user_id now t =
      if any (has_token token) t.sessions
        || (any (has_csrf_token csrf_token) t.sessions || not (has_user t user_id))
      then err constraint
      else ok tt (record t {
        sessions =
            t.sessions
            ++ record {
              id = eng.fresh (map (λ (s : Session). s.id) t.sessions);
              token = token;
              csrf_token = csrf_token;
              created_at = now;
              user_id = user_id;
            }
              ∷ [];
      })

  -- CreateUser
  unfoldable pub create_user : String → String → AuthTables → Answer AuthTables ℕ
  create_user username pw_hash t =
      let id = eng.fresh (map (λ (u : User). u.id) t.users) in
      if any (has_username username) t.users
      then err constraint
      else ok id (record t {
        users = t.users ++ record { id = id; username = username; password = pw_hash } ∷ [];
      })

  -- CreateUserInvitation
  unfoldable pub create_user_invitation : String → ℕ → AuthTables → Answer AuthTables (Unit {0})
  create_user_invitation token now t =
      if any (λ (i : UserInvitation). i.token == token) t.invitations
      then err constraint
      else ok tt (record t {
        invitations =
            t.invitations
            ++ record {
              id = eng.fresh (map (λ (i : UserInvitation). i.id) t.invitations);
              token = token;
              created_at = now;
            }
              ∷ [];
      })
