-- ===== src/Auth/LoginAccepts.antt =====
-- What a login with the right password leaves for every later session lookup.
use statusnook.Prelude.{
  Bool, Bool-cases, List, Option, String, [], any, ap, arith, false, find, found, inl, inr, map,
  nat_eq, none, refl, some, string_eq, sym, true, ℕ, ◌++◌, ◌==◌, ◌∷◌, ◌≡◌,
}
use mathlib.Core.Path.{subst}
use statusnook.World.Hoare.{Gives}
use statusnook.Auth.Logout.{session_of}
use statusnook.Auth.SessionLaws.{OpensSession, create_session-OpensSession}
use statusnook.World.{Env, Served, ok, serve}
use statusnook.World.Steps.{NoFaults}
use statusnook.Engine.{Engine}
use statusnook.Auth.Tables.{AuthTables, Crypto, Memory, Session, User}
use statusnook.Auth.Limiter.{clear_login_failures}
use statusnook.Auth.Queries.{create_session, has_user, has_username, is_valid}
use statusnook.Auth.Login.{logged_in, post_login}
use statusnook.Auth.LoginRuns.{IsConsidered, IsUnused, post_login-run, swept}

find-append_other :
    {A : Type 0} (p : A → Bool) (xs : List A) (x : A)
    → p x ≡ false
    → find p (xs ++ x ∷ []) ≡ find p xs
find-append_other p [] x h = ground (arith, h)
find-append_other p (y ∷ ys) x h = elim (Bool-cases (p y)) [
  | inl e ↦ rw e refl
  | inr e ↦ rw e (find-append_other p ys x h)
]

id_of : Option User → ℕ
id_of none = 0
id_of (some u) = u.id

find-has_user :
    (username : String) (u : User) (users : List User)
    → find (has_username username) users ≡ some u
    → any (λ (x : User). x.id == u.id) users ≡ true
unfolding id_of
find-has_user username u [] h = ground (arith, h)
find-has_user username u (x ∷ users) h = elim (Bool-cases (has_username username x)) [
  | inl e ↦ let same_id : x.id ≡ u.id = ap id_of (rw e at h) in ground (arith, same_id)
  | inr e ↦ ground (arith, e, h, find-has_user username u users)
]

-- The tables with one session more.
abbrev with_session : Engine → String → String → ℕ → ℕ → AuthTables → AuthTables
with_session eng token csrf_token user_id now t = record t {
  sessions =
      t.sessions
      ++ record {
        id = eng.fresh (map (λ (s : Session). s.id) t.sessions);
        token = token;
        csrf_token = csrf_token;
        created_at = now;
        user_id = user_id;
      }
        ∷ [];
}

create_session-with :
    (eng : Engine) (token csrf_token : String) (user_id now : ℕ) (t : AuthTables)
    → IsUnused token csrf_token t
    → has_user t user_id ≡ true
    → create_session eng token csrf_token user_id now t
      ≡ ok tt (with_session eng token csrf_token user_id now t)
unfolding create_session
create_session-with eng token csrf_token user_id now t (unused, unused_csrf) known =
    rw (unused, unused_csrf, known) refl

-- What a login leaves for the sessions: the new token opens one of the user for thirty days, and
-- every other token finds what it found before.
pub record Accepted (token csrf_token : String) (user_id now : ℕ) (t t' : AuthTables) : Type 0 where
  pub opens : OpensSession token csrf_token user_id now t'
  pub others :
      (other : String) (later : ℕ)
      → (token == other) ≡ false
      → session_of other later t' ≡ session_of other later t
  pub users : t'.users ≡ t.users

with_session-Accepted :
    (eng : Engine) (token csrf_token : String) (user_id now : ℕ) (t : AuthTables)
    → IsUnused token csrf_token t
    → has_user t user_id ≡ true
    → Accepted token csrf_token user_id now t (with_session eng token csrf_token user_id now t)
with_session-Accepted eng token csrf_token user_id now t unused known = record {
  opens = opened.0;
  others = λ other later differ.
      find-append_other (is_valid t other later) t.sessions _ (rw differ refl);
  users = refl;
}
  where
    opened :
        OpensSession token csrf_token user_id now (with_session eng token csrf_token user_id now t)
        × (t.users ≡ t.users)
        × (t.invitations ≡ t.invitations)
    opened =
        subst
          (Gives λ _ t'.
            OpensSession token csrf_token user_id now t'
            × (t'.users ≡ t.users)
            × (t'.invitations ≡ t.invitations))
          (create_session-with eng token csrf_token user_id now t unused known)
          (create_session-OpensSession eng token csrf_token user_id now t)

-- A login with the right password, from an address that is not limited, with no failing
-- database call and two tokens that no session has: the reply sets the cookie, its token opens
-- a session of the user for thirty days and no longer, every other token finds the session
-- that it found before, and the failures of the address are forgotten.
pub post_login-accepts :
    (eng : Engine) (crypto : Crypto) (env : Env) (t : AuthTables) (m : Memory)
    (key username password token csrf_token : String) (u : User)
    → NoFaults env
    → IsConsidered env key username password m
    → find (has_username username) t.users ≡ some u
    → crypto.matches u.password password ≡ true
    → IsUnused token csrf_token t
    → let r =
        serve
          (post_login eng crypto env key username password
            (record { token = some token; csrf_token = some csrf_token }))
          t
          m in
      (r.sent ≡ logged_in token)
      × Accepted token csrf_token u.id env.now t r.tables
      × (r.kept ≡ record m { limiter = clear_login_failures key (swept env key m) })
post_login-accepts eng crypto env t m key username password token csrf_token u ok_calls considered
      found right unused =
    let known : has_user t u.id ≡ true = find-has_user username u t.users found in
    let run =
      post_login-run eng crypto env t m key username password token csrf_token u
        (with_session eng token csrf_token u.id env.now t) ok_calls considered found right
        (create_session-with eng token csrf_token u.id env.now t unused known) in
    (
      ap (λ r. r.sent) run,
      subst (λ (r : Served AuthTables Memory). Accepted token csrf_token u.id env.now t r.tables)
          (sym run) (with_session-Accepted eng token csrf_token u.id env.now t unused known),
      ap (λ r. r.kept) run,
    )
