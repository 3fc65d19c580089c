-- ===== src/Auth/Logout.antt =====
-- The whole effect of logging out and of deleting a user when no database call fails.
use mathlib.Core.Path.{subst}
use statusnook.Prelude.{
  Bool, Bool-cases, List, Option, String, [], any, ap, arith, eq_iff, false, find, find-keep, inl,
  inr, keep, ltb, nat_eq, none, not, not-not, refl, some, string_eq, sym, true, ℕ, ◌&&◌, ◌+◌, ◌==◌,
  ◌||◌, ◌∙◌, ◌∷◌, ◌≡◌,
}
use statusnook.Text.{atoi, names_row, names_row-other, ℤ}
use statusnook.World.{Env, Served, serve, status_only}
use statusnook.World.Steps.{
  NoFaults, begin-bind_ok, commit-bind_ok, demand-bind_some, exec-bind_ok, pure-run,
  refuse_if-bind_false, served,
}
use statusnook.Auth.Tables.{AuthTables, Memory, Session, User, session_lifetime}
use statusnook.Auth.Queries.{
  delete_session, delete_user_by_id, has_token, has_username, is_session_of, is_user, is_valid,
}
use statusnook.Auth.Users.{delete_user, logged_out, logout}

abbrev pub session_of : String → ℕ → AuthTables → Option Session
session_of token now t = find (is_valid t token now) t.sessions

-- The tables without the sessions of a token.
abbrev pub without_token : String → AuthTables → AuthTables
without_token token t = record t {
  sessions = keep (λ (s : Session). not (has_token token s)) t.sessions;
}

-- The tables without the rows of a user.
abbrev pub without_user : ℤ → AuthTables → AuthTables
without_user id t = record t {
  users = keep (λ (u : User). not (is_user id u)) t.users;
  sessions = keep (λ (s : Session). not (is_session_of id s)) t.sessions;
}

logout_lem :
    (env : Env) (token : String) (t : AuthTables) (m : Memory)
    → NoFaults env
    → serve (logout env (some token)) t m
      ≡ record { sent = logged_out; tables = without_token token t; kept = m }
unfolding logout delete_session
logout_lem env token t m ok_calls = ap served (
    begin-bind_ok env _ _ (ok_calls _)
    ∙ demand-bind_some _ token _ _ _ refl
    ∙ exec-bind_ok env _ _ _ _ _ (ok_calls _) refl
    ∙ commit-bind_ok env _ _ (ok_calls _)
    ∙ pure-run _ _)

find-gone :
    (t : AuthTables) (token : String) (now : ℕ) (sessions : List Session)
    → find (is_valid t token now) (keep (λ (s : Session). not (has_token token s)) sessions) ≡ none
find-gone t token now [] = refl
find-gone t token now (s ∷ sessions) = ground (arith, find-gone t token now sessions)

-- Logging out with a session cookie, with no failing database call: the cookie is emptied, its token
-- opens no session any more at any time, and every other token finds the session that it found
-- before.
pub logout-closes :
    (env : Env) (token : String) (t : AuthTables) (m : Memory)
    → NoFaults env
    → ((serve (logout env (some token)) t m).sent ≡ logged_out)
      × ((later : ℕ) → session_of token later (serve (logout env (some token)) t m).tables ≡ none)
      × ((other : String) (later : ℕ)
          → (token == other) ≡ false
          → session_of other later (serve (logout env (some token)) t m).tables
            ≡ session_of other later t)
logout-closes env token t m ok_calls =
    let ended = logout_lem env token t m ok_calls in
    (
      ap (λ r. r.sent) ended,
      λ later.
          ap (λ (r : Served AuthTables Memory). session_of token later r.tables) ended
          ∙ find-gone (without_token token t) token later t.sessions,
      λ other later differ.
          ap (λ (r : Served AuthTables Memory). session_of other later r.tables) ended
          ∙ find-keep (is_valid t other later) (λ s. not (has_token token s))
              (λ s valid.
                ground (arith, eq_iff token other, eq_iff s.token token, eq_iff s.token other))
              t.sessions,
    )

delete_user-run :
    (env : Env) (auth_id : ℕ) (id_param : String) (id : ℤ) (t : AuthTables) (m : Memory)
    → NoFaults env
    → atoi id_param ≡ some id
    → names_row id auth_id ≡ false
    → serve (delete_user env auth_id id_param) t m
      ≡ record { sent = status_only 200; tables = without_user id t; kept = m }
unfolding delete_user delete_user_by_id
delete_user-run env auth_id id_param id t m ok_calls parsed other = ap served (
    demand-bind_some _ id _ _ _ parsed
    ∙ refuse_if-bind_false _ _ _ _ other
    ∙ begin-bind_ok env _ _ (ok_calls _)
    ∙ exec-bind_ok env _ _ _ _ _ (ok_calls _) refl
    ∙ commit-bind_ok env _ _ (ok_calls _)
    ∙ pure-run _ _)

value_or : {A : Type 0} → A → Option A → A
value_or y o = elim o [ none ↦ y | some x ↦ x ]

module _ {A : Type 0} (p p' q : A → Bool) where
  -- What is found among the kept ones is kept.
  find_holds : (xs : List A) (x : A) → find p (keep q xs) ≡ some x → q x ≡ true
  unfolding value_or
  find_holds [] x h = ground (arith, h)
  find_holds (y ∷ ys) x h = elim (Bool-cases (q y)) [
    | inl e ↦ elim (Bool-cases (p y)) [
      | inl f ↦ subst (λ v. q v ≡ true) (ap (value_or y) (rw (e, f) at h)) e
      | inr f ↦ find_holds ys x (rw (e, f) at h)
    ]
    | inr e ↦ find_holds ys x (rw e at h)
  ]

  -- The first that is found stays the first where it is kept and the tests agree on what is kept.
  find_kept :
      ((x : A) → q x ≡ true → p' x ≡ p x)
      → (xs : List A) (x : A) → find p xs ≡ some x
      → q x ≡ true
      → find p' (keep q xs) ≡ some x
  unfolding value_or
  find_kept agree [] x h k = h
  find_kept agree (y ∷ ys) x h k = elim (Bool-cases (q y)) [
    | inl e ↦ elim (Bool-cases (p y)) [
      | inl f ↦ rw (e, agree y e ∙ f) (rw f at h)
      | inr f ↦ rw (e, agree y e ∙ f) (find_kept agree ys x (rw f at h) k)
    ]
    | inr e ↦ elim (Bool-cases (p y)) [
      | inl f ↦ ground (arith, e, k, ap q (ap (value_or y) (rw f at h)))
      | inr f ↦ rw e (find_kept agree ys x (rw f at h) k)
    ]
  ]

has_user-without :
    (id : ℤ) (user_id : ℕ) (users : List User)
    → names_row id user_id ≡ false
    → any (λ (u : User). u.id == user_id) (keep (λ (u : User). not (is_user id u)) users)
      ≡ any (λ (u : User). u.id == user_id) users
has_user-without id user_id [] h = refl
has_user-without id user_id (u ∷ users) h = elim (Bool-cases (is_user id u)) [
  | inl e ↦ rw e (
      has_user-without id user_id users h
      ∙ ap (λ b. b || any (λ (v : User). v.id == user_id) users)
          (sym (names_row-other id u.id user_id e h)))
  | inr e ↦ rw e (ap (λ b. u.id == user_id || b) (has_user-without id user_id users h))
]

-- Who can still be found by the tokens and names after the deletion of the user `id`.
pub record UserGone (id : ℤ) (t t' : AuthTables) : Type 0 where
  pub no_session :
      (token : String) (later : ℕ) (s : Session)
      → session_of token later t' ≡ some s
      → is_session_of id s ≡ false
  pub sessions :
      (token : String) (later : ℕ) (s : Session)
      → session_of token later t ≡ some s
      → is_session_of id s ≡ false
      → session_of token later t' ≡ some s
  pub no_name :
      (username : String) (u : User)
      → find (has_username username) t'.users ≡ some u
      → is_user id u ≡ false
  pub names :
      (username : String) (u : User)
      → find (has_username username) t.users ≡ some u
      → is_user id u ≡ false
      → find (has_username username) t'.users ≡ some u

without_user-UserGone : (id : ℤ) (t : AuthTables) → UserGone id t (without_user id t)
without_user-UserGone id t = record {
  no_session = λ token later s h. not-not _ (
      find_holds (is_valid (without_user id t) token later) (λ _. true)
        (λ s. not (is_session_of id s)) t.sessions s h);
  sessions = λ token later s h other.
      find_kept (is_valid t token later) (is_valid (without_user id t) token later)
        (λ s. not (is_session_of id s))
        (λ x kept.
          ap (λ b. x.token == token && (ltb later (x.created_at + session_lifetime) && b))
            (has_user-without id x.user_id t.users (not-not _ kept)))
        t.sessions s h (ap not other);
  no_name = λ username u h.
      not-not _
        (find_holds (has_username username) (λ _. true) (λ u. not (is_user id u)) t.users u h);
  names = λ username u h other.
      find_kept (has_username username) (has_username username) (λ u. not (is_user id u))
        (λ x kept. refl) t.users u h (ap not other);
}

-- Deleting another user, whose path id is a number, with no failing database call: the reply
-- is 200; no token opens a session of that user any more and no name finds that user, and
-- every token and name that found a session or a row of another user finds it still.
pub delete_user-UserGone :
    (env : Env) (auth_id : ℕ) (id_param : String) (id : ℤ) (t : AuthTables) (m : Memory)
    → NoFaults env
    → atoi id_param ≡ some id
    → names_row id auth_id ≡ false
    → ((serve (delete_user env auth_id id_param) t m).sent ≡ status_only 200)
      × UserGone id t (serve (delete_user env auth_id id_param) t m).tables
delete_user-UserGone env auth_id id_param id t m ok_calls parsed other =
    let run = delete_user-run env auth_id id_param id t m ok_calls parsed other in
    (
      ap (λ r. r.sent) run,
      subst (λ (r : Served AuthTables Memory). UserGone id t r.tables) (sym run)
          (without_user-UserGone id t),
    )
