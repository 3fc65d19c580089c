-- ===== src/Auth/SessionLaws.antt =====
-- Who gets a session from login, invitation and cross-auth, and how long it lasts.
use statusnook.Prelude.{
  Bool, Bool-cases, List, Option, String, [], any, ap, arith, eq_iff, false, find, if◌then◌else◌,
  inl, inr, ltb, map, nat_eq, none, not, refl, some, string_eq, true, ℕ, ◌++◌, ◌+◌, ◌==◌, ◌||◌, ◌∙◌,
  ◌∷◌, ◌≡◌,
}
use statusnook.World.{
  Answer, Env, Response, Result, bad, bad_request, constraint, err, fault, good, internal_error,
  no_rows, ok, reply, serve, ◌>>◌,
}
use statusnook.World.Rules.{Quiet, Quiet-refuse_if, Serves-Quiet}
use statusnook.World.Hoare.{
  Anything, Gives, Outcome, Serves, Serves-bind, Serves-commit, Serves-serve, Triple, Triple-begin,
  Triple-bind, Triple-demand, Triple-exec, Triple-pure,
}
use statusnook.Engine.{Engine}
use statusnook.Auth.Tables.{AuthTables, Crypto, Memory, Session, User, session_lifetime}
use statusnook.Auth.Queries.{
  SessionRow, create_session, get_password_hash, has_csrf_token, has_token, has_user, has_username,
  is_valid, validate_session,
}
use statusnook.Auth.Login.{
  Randoms, check_password, check_rate_limit, known_user, logged_in, note_failure, note_success,
  post_login, start_session,
}
use statusnook.World.Attempts.{
  Answers, Triple-attempt, Triple-recall, Triple-remember, Triple-reply,
}

find-append_none :
    {A : Type 0} (p : A → Bool) (xs : List A) (x : A)
    → find p xs ≡ none
    → find p (xs ++ x ∷ []) ≡ (if p x then some x else none)
find-append_none p [] x h = refl
find-append_none p (y ∷ ys) x h = elim (Bool-cases (p y)) [
  | inl e ↦ ground arith
  | inr e ↦ ground (arith, find-append_none p ys x)
]

find-token_none :
    (t : AuthTables) (token : String) (now : ℕ) (sessions : List Session)
    → any (has_token token) sessions ≡ false
    → find (is_valid t token now) sessions ≡ none
find-token_none t token now [] h = refl
find-token_none t token now (s ∷ sessions) h = elim (Bool-cases (s.token == token)) [
  | inl e ↦ ground arith
  | inr e ↦ ground (arith, find-token_none t token now sessions)
]

-- The token opens a session of the user until its lifetime has passed, and no longer.
abbrev pub OpensSession : String → String → ℕ → ℕ → AuthTables → Type 0
OpensSession token csrf_token user_id now t =
    (later : ℕ)
    → validate_session token later t ≡ (
        if ltb later (now + session_lifetime)
        then ok (record { id = user_id; csrf_token = csrf_token }) t
        else err no_rows)

pub create_session-OpensSession :
    (eng : Engine) (token csrf_token : String) (user_id now : ℕ) (t : AuthTables)
    → Gives
        (λ _ t'.
          OpensSession token csrf_token user_id now t'
          × (t'.users ≡ t.users)
          × (t'.invitations ≡ t.invitations))
        (create_session eng token csrf_token user_id now t)
unfolding create_session validate_session
create_session-OpensSession eng token csrf_token user_id now t =
    go (any (has_token token) t.sessions) (any (has_csrf_token csrf_token) t.sessions)
      (has_user t user_id) refl refl
  where
    new : Session
    new = record {
      id = eng.fresh (map (λ (s : Session). s.id) t.sessions);
      token = token;
      csrf_token = csrf_token;
      created_at = now;
      user_id = user_id;
    }

    after : AuthTables
    after = record t { sessions = t.sessions ++ new ∷ [] }

    -- What the lookup of the token answers, given what it finds.
    answer : Option Session → Answer AuthTables SessionRow
    answer o = elim o [
      | none ↦ err no_rows
      | some s ↦ ok (record { id = s.user_id; csrf_token = s.csrf_token }) after
    ]

    same_token : (token == token) ≡ true
    same_token = (eq_iff token token).1 refl

    opens :
        any (has_token token) t.sessions ≡ false
        → has_user t user_id ≡ true
        → (later : ℕ) (alive : Bool) → ltb later (now + session_lifetime) ≡ alive
        → answer (find (is_valid after token later) after.sessions) ≡ (
            if alive
            then ok (record { id = user_id; csrf_token = csrf_token }) after
            else err no_rows)
    opens e f later true h =
        ap answer (
          find-append_none (is_valid after token later) t.sessions new
            (find-token_none after token later t.sessions e))
        ∙ rw (same_token, f, h) refl
    opens e f later false h =
        ap answer (
          find-append_none (is_valid after token later) t.sessions new
            (find-token_none after token later t.sessions e))
        ∙ rw (same_token, f, h) refl

    go :
        (a b c : Bool)
        → any (has_token token) t.sessions ≡ a
        → has_user t user_id ≡ c
        → Gives
            (λ _ t'.
              OpensSession token csrf_token user_id now t'
              × (t'.users ≡ t.users)
              × (t'.invitations ≡ t.invitations))
            (if a || (b || not c) then err constraint else ok tt after)
    go true b c e f = tt
    go false true c e f = tt
    go false false false e f = tt
    go false false true e f =
        (λ later. opens e f later (ltb later (now + session_lifetime)) refl, refl, refl)

module _ (eng : Engine) (env : Env) (t : AuthTables) where
  -- The end of the three handlers, from an open transaction that satisfies `P`.
  pub start_session-Serves :
      {P : AuthTables → Type 0} {Good : Response → AuthTables → Type 0} (randoms : Randoms)
      (user_id : ℕ) (done_with : String → Response)
      → ((token csrf_token : String) (s s' : AuthTables)
          → P s
          → OpensSession token csrf_token user_id env.now s'
          → s'.users ≡ s.users
          → s'.invitations ≡ s.invitations
          → Good (done_with token) s')
      → Serves {M = Memory} t P (start_session eng env randoms user_id done_with) Good
  unfolding start_session
  start_session-Serves {P} {Good} randoms user_id done_with k =
      Serves-bind _ _
        (Triple-demand {P = P} {Q = λ _. P} randoms.token internal_error (omega arith)
          (λ _ _ _ p. p))
        λ token.
          Serves-bind _ _
            (Triple-demand {P = P} {Q = λ _. P} randoms.csrf_token internal_error (omega arith)
              (λ _ _ _ p. p))
            λ csrf_token.
              Serves-bind _ _
                (Triple-exec env {P = P} {Q = λ _. Good (done_with token)} _ (λ s p.
                  committed token csrf_token s p
                    (create_session eng token csrf_token user_id env.now s)
                    (create_session-OpensSession eng token csrf_token user_id env.now s)))
                λ _. Serves-commit env (done_with token) (λ s g. g)
    where
      committed :
          (token csrf_token : String) (s : AuthTables)
          → P s
          → (a : Answer AuthTables (Unit {0}))
          → Gives
              (λ _ t'.
                OpensSession token csrf_token user_id env.now t'
                × (t'.users ≡ s.users)
                × (t'.invitations ≡ s.invitations))
              a
          → Gives (λ _. Good (done_with token)) a
      committed token csrf_token s p (ok u s') (o, e, f) = k token csrf_token s s' p o e f
      committed token csrf_token s p (err x) g = tt

module _ (eng : Engine) (crypto : Crypto) (env : Env) (t : AuthTables) where
  -- The reply sets the token of a new session of the user whom the username names and whose
  -- password hash the password matches.
  abbrev pub LogsIn : String → String → Response → AuthTables → Type 0
  LogsIn username password r t' =
      (u : User) × (token : String) × (csrf_token : String) × (find (has_username username) t.users
        ≡ some u)
      × (crypto.matches u.password password ≡ true)
      × (r ≡ logged_in token)
      × OpensSession token csrf_token u.id env.now t'

  abbrev Found : String → Result User → AuthTables → Type 0
  Found username (good u) s = find (has_username username) t.users ≡ some u
  Found username (bad e) s = Unit

  get_password_hash-Found :
      (username : String) (s : AuthTables)
      → s ≡ t
      → Answers (Found username) s (get_password_hash username s) × Found username (bad fault) s
  unfolding get_password_hash
  get_password_hash-Found username s e = rw e (go (find (has_username username) t.users) refl, tt)
    where
      go :
          (o : Option User)
          → find (has_username username) t.users ≡ o
          → Answers (Found username) t (elim o [ none ↦ err no_rows | some u ↦ ok u t ])
      go none found = tt
      go (some u) found = found

  note_failure-reply :
      {A : Type 0} {P : AuthTables → Type 0} {Q : A → AuthTables → Type 0} (key : String)
      → Triple {M = Memory} t P (note_failure env key >> reply bad_request) Q
  unfolding note_failure
  note_failure-reply {P} key =
      Triple-bind _ _ (Triple-bind {Q = λ _. P} _ _ Triple-recall (λ m. Triple-remember {P = P} _))
        (λ _. Triple-reply bad_request (omega arith))

  note_success-Triple :
      {P : AuthTables → Type 0} (key : String)
      → Triple {M = Memory} t P (note_success env key) (λ _. P)
  unfolding note_success
  note_success-Triple {P} key =
      Triple-bind {Q = λ _. P} _ _ Triple-recall (λ m. Triple-remember {P = P} _)

  check_rate_limit-Quiet : (key : String) → Quiet t (check_rate_limit env key)
  unfolding check_rate_limit
  check_rate_limit-Quiet key = Triple-bind {Q = λ _. Anything} _ _ Triple-recall λ m.
      Triple-bind {Q = λ _. Anything} _ _ (Triple-remember _) λ _. Quiet-refuse_if _ _ (omega arith)

  known_user-Found :
      (key username : String) (row : Result User)
      → Triple {M = Memory} t
          (Found username row)
          (known_user env key row)
          (λ u. Found username (good u))
  unfolding known_user
  known_user-Found key username (good u) = Triple-pure u (λ s p. p)
  known_user-Found key username (bad no_rows) = note_failure-reply key
  known_user-Found key username (bad constraint) = Triple-reply internal_error (omega arith)
  known_user-Found key username (bad fault) = Triple-reply internal_error (omega arith)

  check_password-matches :
      (key : String) (right : Bool) {P : AuthTables → Type 0}
      → Triple {M = Memory} t P (check_password env key right) (λ _ s. P s × (right ≡ true))
  unfolding check_password
  check_password-matches key true = Triple-pure tt (λ s p. (p, refl))
  check_password-matches key false {P} = note_failure-reply key

  -- A login: an error reply and unchanged tables, or the cookie of a session, valid for thirty days
  -- from now and no longer, of the user of that name, whose password hash the password matches.
  pub post_login-LogsIn :
      (key username password : String) (randoms : Randoms) (m : Memory)
      → Outcome
          (LogsIn username password)
          t
          (serve (post_login eng crypto env key username password randoms) t m)
  unfolding post_login
  post_login-LogsIn key username password randoms m =
      Serves-serve (LogsIn username password) _ t m (
        Serves-Quiet _ _ (check_rate_limit-Quiet key) λ _.
          Serves-Quiet _ _ (Quiet-refuse_if _ _ (omega arith)) λ _.
            Serves-Quiet _ _ (Quiet-refuse_if _ _ (omega arith)) λ _.
              Serves-bind _ _ (Triple-begin env) λ _.
                Serves-bind _ _
                  (Triple-attempt {Q = Found username} env _ (get_password_hash-Found username))
                  λ row. Serves-bind _ _ (known_user-Found key username row) λ u.
                    Serves-bind _ _
                      (check_password-matches key (crypto.matches u.password password)
                        {P = Found username (good u)})
                      λ _. Serves-bind _ _ (note_success-Triple key) λ _.
                        start_session-Serves eng env t randoms u.id logged_in
                          λ token csrf_token s s' p o _ _.
                            (u, token, csrf_token, p.0, p.1, refl, o))
