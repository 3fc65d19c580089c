-- ===== src/Auth/DeletionLaws.antt =====
-- What deleting a user and logging out do to the users and sessions.
use statusnook.Prelude.{
  String, any, any-keep_not, arith, false, find, find-keep, keep, keep-keep, not, not-not, refl,
  some, true, ℕ, ◌≡◌,
}
use statusnook.Text.{atoi, names_row, negsuc, pos, ℤ}
use statusnook.World.{Env, serve}
use statusnook.World.Hoare.{
  Gives, Outcome, Serves-bind, Serves-commit, Serves-serve, Triple-demand, Triple-exec,
  Triple-refuse_if,
}
use statusnook.Auth.Tables.{AuthTables, Memory}
use statusnook.Auth.Queries.{delete_user_by_id, is_session_of, is_user}
use statusnook.Auth.Users.{delete_user}
use statusnook.World.Attempts.{Triple-begin_fact}

-- No session of the user is left.
abbrev pub HasNoSession : ℤ → AuthTables → Type 0
HasNoSession id t = any (is_session_of id) t.sessions ≡ false

-- Another id than the one deleted.
abbrev pub Deletes : ℕ → AuthTables → ℤ → AuthTables → Type 0
Deletes auth_id t id t' =
    (names_row id auth_id ≡ false)
    × (find (is_user (pos auth_id)) t'.users ≡ find (is_user (pos auth_id)) t.users)
    × (keep (is_session_of (pos auth_id)) t'.sessions
        ≡ keep (is_session_of (pos auth_id)) t.sessions)
    × (any (is_user id) t'.users ≡ false)
    × HasNoSession id t'

names_row-apart :
    (id : ℤ) (auth_id x : ℕ)
    → names_row id auth_id ≡ false
    → names_row (pos auth_id) x ≡ true
    → not (names_row id x) ≡ true
names_row-apart (pos n) auth_id x h k = ground arith
names_row-apart (negsuc n) auth_id x h k = refl

delete_user_by_id-Deletes :
    (auth_id : ℕ) (id : ℤ) (t : AuthTables)
    → names_row id auth_id ≡ false
    → Gives (λ _. Deletes auth_id t id) (delete_user_by_id id t)
unfolding delete_user_by_id
delete_user_by_id-Deletes auth_id id t other = (
  other,
  find-keep (is_user (pos auth_id)) (λ u. not (is_user id u))
      (λ u. names_row-apart id auth_id u.id other) t.users,
  keep-keep (is_session_of (pos auth_id)) (λ s. not (is_session_of id s))
      (λ s. names_row-apart id auth_id s.user_id other) t.sessions,
  any-keep_not (is_user id) (λ u. not (is_user id u)) (λ u. not-not (is_user id u)) t.users,
  any-keep_not (is_session_of id) (λ s. not (is_session_of id s))
      (λ s. not-not (is_session_of id s)) t.sessions,
)

-- Deleting a user: an error reply and unchanged tables, or the id of the path is not the one of the
-- request's own session, whose user's row and sessions stay as they were, and no row and no session
-- of the deleted user is left.
pub delete_user-Deletes :
    (env : Env) (auth_id : ℕ) (id_param : String) (t : AuthTables) (m : Memory)
    → Outcome
        (λ r t'. (id : ℤ) × (atoi id_param ≡ some id) × Deletes auth_id t id t')
        t
        (serve (delete_user env auth_id id_param) t m)
unfolding delete_user delete_user_by_id
delete_user-Deletes env auth_id id_param t m =
    Serves-serve (λ r t'. (id : ℤ) × (atoi id_param ≡ some id) × Deletes auth_id t id t') _ t m
      (Serves-bind _ _
        (Triple-demand {Q = λ id _. atoi id_param ≡ some id} _ _ (omega arith) (λ id e _ _. e))
        λ id.
          Serves-bind _ _
            (Triple-refuse_if
              {Q = λ _ _. (atoi id_param ≡ some id) × (names_row id auth_id ≡ false)} _ _
              (omega arith) (λ e s p. (p, e)))
            λ _.
              Serves-bind _ _
                (Triple-begin_fact {F = (atoi id_param ≡ some id) × (names_row id auth_id ≡ false)}
                  env)
                λ _.
                  Serves-bind _ _
                    (Triple-exec env
                      {Q = λ _ t'. (i : ℤ) × (atoi id_param ≡ some i) × Deletes auth_id t i t'} _
                      (λ s p. rw p.0 (id, (p.1).0, delete_user_by_id-Deletes auth_id id t (p.1).1)))
                    λ _. Serves-commit env _ (λ s q. q))
