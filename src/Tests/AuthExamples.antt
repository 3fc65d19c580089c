-- ===== src/Tests/AuthExamples.antt =====
-- The theorems on logins, sessions and users at concrete tables.
use statusnook.Prelude.{
  Bool, Option, String, [], ap, arith, false, leb, nat_eq, none, refl, some, string_eq, sym, ℕ, ◌*◌,
  ◌-◌, ◌<◌, ◌==◌, ◌∷◌, ◌≡◌,
}
use statusnook.Text.{atoi, pos, ℤ}
use statusnook.World.{Response, Served, bad_request, serve, start, status_only}
use statusnook.World.Hoare.{Outcome}
use statusnook.Auth.Tables.{
  AuthTables, LoginFailures, Memory, User, login_max_failures, login_window, second,
}
use statusnook.Auth.Limiter.{
  clear_login_failures, login_rate_limited, lookup, record_login_failure, sweep,
}
use statusnook.Auth.LimiterLaws.{
  HasUniqueKeys, login_rate_limited-forgets, login_rate_limited-independent, record_failures,
  record_failures-limited,
}
use statusnook.Auth.CrossTokens.{redeem_cross_auth_token}
use statusnook.Auth.Login.{
  AuthHandler, Randoms, get_cross_auth, logged_in, post_invitation, post_login,
}
use statusnook.Auth.Users.{delete_user, logged_out, logout, post_edit_user}
use statusnook.Auth.Gate.{AuthCtx, Request, admin}
use statusnook.Auth.GateLaws.{Fate, admin-IsAuthorised}
use statusnook.Auth.SessionLaws.{LogsIn, post_login-LogsIn}
use statusnook.Auth.LoginRuns.{IsConsidered, post_login-rejects, swept}
use statusnook.Auth.LoginAccepts.{Accepted, post_login-accepts}
use statusnook.Auth.CrossTokenLaws.{
  CrossesOver, get_cross_auth-CrossesOver, issued_to, redeem_cross_auth_token-once,
}
use statusnook.Auth.InvitationLaws.{Joins, post_invitation-Joins}
use statusnook.Auth.DeletionLaws.{Deletes, delete_user-Deletes}
use statusnook.Auth.Logout.{UserGone, delete_user-UserGone, logout-closes, session_of}
use statusnook.Auth.UserLaws.{Edits, post_edit_user-Edits}
use statusnook.Tests.Data.{auth_tables, crypto, engine, env, memory}

abbrev randoms : Randoms
randoms = record { token = some "t2"; csrf_token = some "c2" }

abbrev request : Request
request = record { method = "POST"; session_cookie = some "t1"; csrf_header = "c1" }

-- An action of the administration: it deletes the user 2.
abbrev page : AuthCtx → AuthHandler Response
page ctx = delete_user env ctx.id "2"

admin-IsAuthorised_example :
    Fate env request auth_tables page (admin env request page (start auth_tables memory))
admin-IsAuthorised_example = admin-IsAuthorised env request auth_tables memory page

post_login-LogsIn_example :
    Outcome (LogsIn engine crypto env auth_tables "ada" "correct horse") auth_tables (
      serve
        (post_login engine crypto env "10.0.0.1" "ada" "correct horse" randoms)
        auth_tables
        memory)
post_login-LogsIn_example =
    post_login-LogsIn engine crypto env auth_tables "10.0.0.1" "ada" "correct horse" randoms memory

IsConsidered-right : IsConsidered env "10.0.0.1" "ada" "correct horse" memory
unfolding login_rate_limited lookup sweep
IsConsidered-right = (refl, refl, refl)

IsConsidered-wrong : IsConsidered env "10.0.0.1" "ada" "guess" memory
unfolding login_rate_limited lookup sweep
IsConsidered-wrong = (refl, refl, refl)

-- Whether the guess is the password of the user found.
abbrev opens_with_guess : Option User → Bool
opens_with_guess none = false
opens_with_guess (some u) = u.password == "guess"

post_login-rejects_example :
    serve (post_login engine crypto env "10.0.0.1" "ada" "guess" randoms) auth_tables memory
    ≡ record {
      sent = bad_request;
      tables = auth_tables;
      kept = record memory {
        limiter = record_login_failure "10.0.0.1" env.now (swept env "10.0.0.1" memory);
      };
    }
post_login-rejects_example =
    post_login-rejects engine crypto env auth_tables memory "10.0.0.1" "ada" "guess" randoms
      (λ _. refl) IsConsidered-wrong (λ u e. sym (ap opens_with_guess e))

abbrev ada : User
ada = record { id = 1; username = "ada"; password = "correct horse" }

abbrev login : Served AuthTables Memory
login =
    serve (post_login engine crypto env "10.0.0.1" "ada" "correct horse" randoms) auth_tables memory

post_login-accepts_example :
    (login.sent ≡ logged_in "t2")
    × Accepted "t2" "c2" 1 env.now auth_tables login.tables
    × (login.kept
        ≡ record memory { limiter = clear_login_failures "10.0.0.1" (swept env "10.0.0.1" memory) })
post_login-accepts_example =
    post_login-accepts engine crypto env auth_tables memory "10.0.0.1" "ada" "correct horse" "t2"
      "c2" ada (λ _. refl) IsConsidered-right refl refl (refl, refl)

one_limiter-HasUniqueKeys : HasUniqueKeys memory.limiter
unfolding lookup
one_limiter-HasUniqueKeys = (refl, tt)

one_token-HasUniqueKeys : HasUniqueKeys memory.tokens
unfolding lookup
one_token-HasUniqueKeys = (refl, tt)

not_seen : lookup "10.0.0.2" memory.limiter ≡ none
unfolding lookup
not_seen = refl

record_failures-limited_example :
    (login_rate_limited "10.0.0.2" (11 * second) (
      record_failures "10.0.0.2"
        (1 * second
          ∷ 2 * second
          ∷ 3 * second
          ∷ 4 * second
          ∷ 5 * second
          ∷ 6 * second
          ∷ 7 * second
          ∷ 8 * second
          ∷ 9 * second
          ∷ 10 * second
          ∷ [])
        memory.limiter)).1
    ≡ leb login_max_failures 10
record_failures-limited_example =
    record_failures-limited "10.0.0.2" (1 * second)
      (2 * second
        ∷ 3 * second
        ∷ 4 * second
        ∷ 5 * second
        ∷ 6 * second
        ∷ 7 * second
        ∷ 8 * second
        ∷ 9 * second
        ∷ 10 * second
        ∷ [])
      (11 * second) memory.limiter one_limiter-HasUniqueKeys not_seen
      (
        omega arith,
        (
          omega arith,
          (
            omega arith,
            (
              omega arith,
              (omega arith, (omega arith, (omega arith, (omega arith, (omega arith, tt))))),
            ),
          ),
        ),
      )
      (omega arith)

login_rate_limited-forgets_example :
    ((v : LoginFailures)
      → lookup "10.0.0.1" memory.limiter ≡ some v
      → login_window < env.now - v.first
      → (login_rate_limited "10.0.0.1" env.now memory.limiter).1 ≡ false)
    × ((login_rate_limited "10.0.0.1" env.now (clear_login_failures "10.0.0.1" memory.limiter)).1
        ≡ false)
login_rate_limited-forgets_example =
    login_rate_limited-forgets "10.0.0.1" env.now memory.limiter one_limiter-HasUniqueKeys

login_rate_limited-independent_example :
    ((login_rate_limited "10.0.0.1" env.now
        (record_login_failure "10.0.0.2" env.now memory.limiter)).1
      ≡ (login_rate_limited "10.0.0.1" env.now memory.limiter).1)
    × ((login_rate_limited "10.0.0.1" env.now (clear_login_failures "10.0.0.2" memory.limiter)).1
        ≡ (login_rate_limited "10.0.0.1" env.now memory.limiter).1)
login_rate_limited-independent_example =
    login_rate_limited-independent "10.0.0.2" "10.0.0.1" env.now env.now memory.limiter
      one_limiter-HasUniqueKeys refl

post_invitation-Joins_example :
    Outcome (Joins engine crypto env auth_tables "invite" "eve" "long enough") auth_tables (
      serve
        (post_invitation engine crypto env "invite" "eve" "long enough" "long enough" randoms)
        auth_tables
        memory)
post_invitation-Joins_example =
    post_invitation-Joins engine crypto env auth_tables "invite" "eve" "long enough" "long enough"
      randoms memory

redeem_cross_auth_token-once_example :
    ((redeem_cross_auth_token "cross" env.now memory.tokens).1
      ≡ issued_to env.now (lookup "cross" memory.tokens))
    × ((redeem_cross_auth_token "cross" env.now
          (redeem_cross_auth_token "cross" env.now memory.tokens).0).1
        ≡ none)
redeem_cross_auth_token-once_example =
    redeem_cross_auth_token-once "cross" env.now env.now memory.tokens one_token-HasUniqueKeys

get_cross_auth-CrossesOver_example :
    Outcome (CrossesOver env "https://status.example.com/" "cross" memory) auth_tables (
      serve
        (get_cross_auth engine env 0 "https://status.example.com/" "cross" randoms)
        auth_tables
        memory)
get_cross_auth-CrossesOver_example =
    get_cross_auth-CrossesOver engine env "https://status.example.com/" "cross" randoms auth_tables
      memory one_token-HasUniqueKeys

post_edit_user-Edits_example :
    Outcome
      (λ r t'.
        (id : ℤ) × (atoi "2" ≡ some id) × Edits crypto id "bob" "new password" auth_tables t')
      auth_tables
      (serve (post_edit_user crypto env 1 "2" "bob" "new password") auth_tables memory)
post_edit_user-Edits_example =
    post_edit_user-Edits crypto env 1 "2" "bob" "new password" auth_tables memory

delete_user-Deletes_example :
    Outcome
      (λ r t'. (id : ℤ) × (atoi "2" ≡ some id) × Deletes 1 auth_tables id t')
      auth_tables
      (serve (delete_user env 1 "2") auth_tables memory)
delete_user-Deletes_example = delete_user-Deletes env 1 "2" auth_tables memory

two : atoi "2" ≡ some (pos 2)
unfolding atoi
two = refl

delete_user-UserGone_example :
    ((serve (delete_user env 1 "2") auth_tables memory).sent ≡ status_only 200)
    × UserGone (pos 2) auth_tables (serve (delete_user env 1 "2") auth_tables memory).tables
delete_user-UserGone_example =
    delete_user-UserGone env 1 "2" (pos 2) auth_tables memory (λ _. refl) two refl

logout-closes_example :
    ((serve (logout env (some "t1")) auth_tables memory).sent ≡ logged_out)
    × ((later : ℕ)
        → session_of "t1" later (serve (logout env (some "t1")) auth_tables memory).tables ≡ none)
    × ((other : String) (later : ℕ)
        → ("t1" == other) ≡ false
        → session_of other later (serve (logout env (some "t1")) auth_tables memory).tables
          ≡ session_of other later auth_tables)
logout-closes_example = logout-closes env "t1" auth_tables memory (λ _. refl)
