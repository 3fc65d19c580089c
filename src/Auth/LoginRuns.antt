-- ===== src/Auth/LoginRuns.antt =====
-- The whole effect of a login when no database call fails.
use statusnook.Prelude.{
  Bool, Option, Option-cases, String, any, ap, false, find, found, inl, inr, nat_eq, none, refl,
  some, string_eq, true, ◌==◌, ◌∙◌, ◌≡◌,
}
use statusnook.World.{
  Answer, Env, Response, Result, World, attempt, bad, bad_request, err, good, no_rows, ok, reply,
  serve, start, stop, tick, ◌>>=◌, ◌>>◌,
}
use statusnook.World.Steps.{
  NoFaults, attempt-bind_err, attempt-bind_ok, begin-bind_ok, bind_assoc, commit-bind_ok,
  demand-bind_some, exec-bind_ok, pure-bind, pure-run, recall-bind, refuse_if-bind_false,
  remember-bind, reply-bind, served,
}
use statusnook.Engine.{Engine}
use statusnook.Auth.Tables.{AuthTables, Crypto, Memory, User}
use statusnook.Auth.Limiter.{
  Limiter, clear_login_failures, login_rate_limited, record_login_failure,
}
use statusnook.Auth.Queries.{
  create_session, get_password_hash, has_csrf_token, has_token, has_username,
}
use statusnook.Auth.Login.{
  AuthHandler, Randoms, check_password, check_rate_limit, known_user, logged_in, note_failure,
  note_success, post_login, start_session,
}

-- The limiter after the check at the start of a login.
abbrev pub swept : Env → String → Memory → Limiter
swept env key m = (login_rate_limited key env.now m.limiter).0

-- The form is filled in and the address is not limited.
abbrev pub IsConsidered : Env → String → String → String → Memory → Type 0
IsConsidered env key username password m =
    ((login_rate_limited key env.now m.limiter).1 ≡ false)
    × ((username == "") ≡ false)
    × ((password == "") ≡ false)

module _ {B : Type 0} (env : Env) (key : String) where
  note_failure-bind :
      (f : Unit {0} → AuthHandler B) (w : World AuthTables Memory)
      → (note_failure env key >>= f) w
        ≡ f tt (record w {
          memory = record w.memory { limiter = record_login_failure key env.now w.memory.limiter };
        })
  unfolding note_failure
  note_failure-bind f w = bind_assoc _ _ f w ∙ recall-bind _ w ∙ remember-bind _ _ w

  note_success-bind :
      (f : Unit {0} → AuthHandler B) (w : World AuthTables Memory)
      → (note_success env key >>= f) w
        ≡ f tt (record w {
          memory = record w.memory { limiter = clear_login_failures key w.memory.limiter };
        })
  unfolding note_success
  note_success-bind f w = bind_assoc _ _ f w ∙ recall-bind _ w ∙ remember-bind _ _ w

  -- A failure that is noted and answered.
  refused-bind :
      {A : Type 0} (f : A → AuthHandler B) (w : World AuthTables Memory)
      → ((note_failure env key >> reply bad_request) >>= f) w
        ≡ stop bad_request (record w {
          memory = record w.memory { limiter = record_login_failure key env.now w.memory.limiter };
        })
  refused-bind f w = bind_assoc _ _ f w ∙ note_failure-bind _ w ∙ reply-bind bad_request f _

  check_password-bind_true :
      (right : Bool) (f : Unit {0} → AuthHandler B) (w : World AuthTables Memory)
      → right ≡ true
      → (check_password env key right >>= f) w ≡ f tt w
  unfolding check_password
  check_password-bind_true right f w e = rw e (pure-bind tt f w)

module _ (username : String) (t : AuthTables) where
  abbrev answered : AuthTables → Option User → Answer AuthTables User
  answered s o = elim o [ none ↦ err no_rows | some u ↦ ok u s ]

  lookup_answer :
      (o : Option User) (s : AuthTables)
      → find (has_username username) t.users ≡ o
      → s ≡ t
      → get_password_hash username s ≡ answered s o
  unfolding get_password_hash
  lookup_answer o s e same = rw same (ap (answered t) e)

module _ (eng : Engine) (crypto : Crypto) (env : Env) (t : AuthTables) (m : Memory) where
  check_rate_limit-bind :
      {B : Type 0} (key : String) (f : Unit {0} → AuthHandler B) (w : World AuthTables Memory)
      → (login_rate_limited key env.now w.memory.limiter).1 ≡ false
      → (check_rate_limit env key >>= f) w
        ≡ f tt (record w { memory = record w.memory { limiter = swept env key w.memory } })
  unfolding check_rate_limit
  check_rate_limit-bind key f w free =
      bind_assoc _ _ f w
      ∙ recall-bind _ w
      ∙ bind_assoc _ _ f w
      ∙ remember-bind _ _ w
      ∙ refuse_if-bind_false _ _ f _ free

  -- A login up to the answer of the password lookup.
  post_login-lookup :
      (key username password : String) (randoms : Randoms) (row : Result User)
      → NoFaults env
      → IsConsidered env key username password m
      → ((f : Result User → AuthHandler Response) (w : World AuthTables Memory)
          → w.working ≡ t
          → (attempt env (get_password_hash username) >>= f) w ≡ f row (tick w))
      → post_login eng crypto env key username password randoms (start t m)
        ≡ (known_user env key row >>= λ user.
              check_password env key (crypto.matches user.password password)
              >> (note_success env key >> start_session eng env randoms user.id logged_in))
            (record {
              committed = t;
              working = t;
              memory = record m { limiter = swept env key m };
              calls = 2;
            })
  unfolding post_login
  post_login-lookup key username password randoms row ok_calls (free, named, filled) answer =
      check_rate_limit-bind key _ _ free
      ∙ refuse_if-bind_false _ _ _ _ named
      ∙ refuse_if-bind_false _ _ _ _ filled
      ∙ begin-bind_ok env _ _ (ok_calls _)
      ∙ answer _ _ refl

  -- A login with a wrong name or password, from an address that is not limited, with no failing
  -- database call: the reply is the same 400 for an unknown name and for a wrong password, the
  -- tables are unchanged, and the address has one failure more.
  pub post_login-rejects :
      (key username password : String) (randoms : Randoms)
      → NoFaults env
      → IsConsidered env key username password m
      → ((u : User)
          → find (has_username username) t.users ≡ some u
          → crypto.matches u.password password ≡ false)
      → serve (post_login eng crypto env key username password randoms) t m ≡ record {
        sent = bad_request;
        tables = t;
        kept = record m { limiter = record_login_failure key env.now (swept env key m) };
      }
  unfolding known_user check_password
  post_login-rejects key username password randoms ok_calls considered wrong =
      elim (Option-cases (find (has_username username) t.users)) [
        | inl none_found ↦ ap served (
            post_login-lookup key username password randoms (bad no_rows) ok_calls considered
              (λ f w e.
                attempt-bind_err env _ no_rows f w (ok_calls _)
                  (lookup_answer username t none w.working none_found e))
            ∙ unknown)
        | inr (u, found) ↦ ap served (
            post_login-lookup key username password randoms (good u) ok_calls considered (λ f w e.
              attempt-bind_ok env _ u w.working f w (ok_calls _)
                (lookup_answer username t (some u) w.working found e))
            ∙ known u (wrong u found))
      ]
    where
      rest : User → AuthHandler Response
      rest user = note_success env key >> start_session eng env randoms user.id logged_in

      before : World AuthTables Memory
      before = record {
        committed = t;
        working = t;
        memory = record m { limiter = swept env key m };
        calls = 2;
      }

      after : World AuthTables Memory
      after = record before {
        memory = record m { limiter = record_login_failure key env.now (swept env key m) };
      }

      unknown :
          (known_user env key (bad no_rows) >>= λ user.
          check_password env key (crypto.matches user.password password) >> rest user)
            before
          ≡ stop bad_request after
      unknown = refused-bind env key _ before

      known :
          (u : User)
          → crypto.matches u.password password ≡ false
          → (known_user env key (good u) >>= λ user.
                check_password env key (crypto.matches user.password password) >> rest user)
              before
            ≡ stop bad_request after
      known u wrong_password =
          pure-bind _ _ before ∙ rw wrong_password (refused-bind env key _ before)

  pub post_login-run :
      (key username password token csrf_token : String) (u : User) (t' : AuthTables)
      → NoFaults env
      → IsConsidered env key username password m
      → find (has_username username) t.users ≡ some u
      → crypto.matches u.password password ≡ true
      → create_session eng token csrf_token u.id env.now t ≡ ok tt t'
      → serve
          (post_login eng crypto env key username password
            (record { token = some token; csrf_token = some csrf_token }))
          t
          m
        ≡ record {
          sent = logged_in token;
          tables = t';
          kept = record m { limiter = clear_login_failures key (swept env key m) };
        }
  unfolding known_user start_session
  post_login-run key username password token csrf_token u t' ok_calls considered found right
        created =
      ap served (
        post_login-lookup key username password _ (good u) ok_calls considered (λ f w e.
          attempt-bind_ok env _ u w.working f w (ok_calls _)
            (lookup_answer username t (some u) w.working found e))
        ∙ pure-bind _ _ _
        ∙ check_password-bind_true env key _ _ _ right
        ∙ note_success-bind env key _ _
        ∙ demand-bind_some _ token _ _ _ refl
        ∙ demand-bind_some _ csrf_token _ _ _ refl
        ∙ exec-bind_ok env _ _ t' _ _ (ok_calls _) created
        ∙ commit-bind_ok env _ _ (ok_calls _)
        ∙ pure-run _ _)

-- No session has the two tokens.
abbrev pub IsUnused : String → String → AuthTables → Type 0
IsUnused token csrf_token t =
    (any (has_token token) t.sessions ≡ false)
    × (any (has_csrf_token csrf_token) t.sessions ≡ false)
