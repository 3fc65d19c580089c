-- ===== src/Auth/GateLaws.antt =====
-- Who gets through the middleware of /admin.
use statusnook.Prelude.{
  Bool, Option, String, ap, arith, eq_iff, false, find, if◌then◌else◌, inl, inr, nat_eq, none, refl,
  some, string_eq, true, ◌==◌, ◌≡◌, ◌≢◌, ◌≤◌, ◌⊎◌,
}
use statusnook.World.Hoare.{Anything, Ends, Triple, Triple-begin}
use statusnook.World.Attempts.{Answers, Triple-attempt, Triple-commit_same}
use statusnook.World.{
  Answer, Env, Response, Result, Run, World, attempt, bad, begin, commit, constraint, done, err,
  fault, final, good, no_rows, ok, redirect, reply, response, start, status_only, stop, ◌>>=◌,
}
use statusnook.Auth.Tables.{AuthTables, Memory, Session}
use statusnook.Auth.Queries.{SessionRow, is_valid, validate_session}
use statusnook.Auth.Login.{AuthHandler}
use statusnook.Auth.Gate.{
  AuthCtx, Request, admin, admin_middleware, csrf_middleware, is_safe, no_auth, session_middleware,
  with_session,
}

-- The request carries a valid session's token and, where its method changes things, that session's
-- CSRF token, and the handler got that session's user.
abbrev pub IsAuthorised : Env → Request → AuthTables → AuthCtx → Type 0
IsAuthorised env r t ctx =
    (token : String) × (r.session_cookie ≡ some token)
    × (validate_session token env.now t
        ≡ ok (record { id = ctx.id; csrf_token = ctx.csrf_token }) t)
    × (ctx.id ≢ 0)
    × ((is_safe r.method ≡ true) ⊎ (r.csrf_header ≡ ctx.csrf_token))

-- The handler was not run, and the tables are as they were.
abbrev pub TurnedAway : AuthTables → Run AuthTables Memory Response → Type 0
TurnedAway t run = ((final run).committed ≡ t) × (302 ≤ (response run).status)

-- The handler's own run, on the committed tables.
abbrev pub Reached :
    Env
    → Request
    → AuthTables
    → (AuthCtx → AuthHandler Response)
    → Run AuthTables Memory Response
    → Type 0
Reached env r t next run =
    (ctx : AuthCtx) × (w : World AuthTables Memory) × (w.committed ≡ t)
    × (run ≡ next ctx w)
    × IsAuthorised env r t ctx

abbrev pub Fate :
    Env
    → Request
    → AuthTables
    → (AuthCtx → AuthHandler Response)
    → Run AuthTables Memory Response
    → Type 0
Fate env r t next run = TurnedAway t run ⊎ Reached env r t next run

module _ (env : Env) (r : Request) (t : AuthTables) (next : AuthCtx → AuthHandler Response) where
  guarded : AuthCtx → AuthHandler Response
  guarded ctx = csrf_middleware r ctx (admin_middleware ctx (next ctx))

  IsSessionOf : AuthCtx → Type 0
  IsSessionOf ctx =
      (token : String) × (r.session_cookie ≡ some token)
      × (validate_session token env.now t
          ≡ ok (record { id = ctx.id; csrf_token = ctx.csrf_token }) t)

  -- The two middlewares after the session lookup.
  guarded-Fate :
      (ctx : AuthCtx) (w : World AuthTables Memory)
      → w.committed ≡ t
      → (ctx.id ≡ 0) ⊎ IsSessionOf ctx
      → Fate env r t next (guarded ctx w)
  unfolding guarded IsSessionOf csrf_middleware admin_middleware ◌>>=◌
  guarded-Fate ctx w c valid =
      at_csrf (is_safe r.method) refl (r.csrf_header == ctx.csrf_token) refl
    where
      at_id :
          (zero_id : Bool)
          → (ctx.id == 0) ≡ zero_id
          → (ctx.id ≡ 0) ⊎ IsSessionOf ctx
          → (is_safe r.method ≡ true) ⊎ (r.csrf_header ≡ ctx.csrf_token)
          → Fate env r t next ((if zero_id then reply (redirect "/login") else next ctx) w)
      at_id true e v csrf = inl (c, omega arith)
      at_id false e (inl z) csrf = ground arith
      at_id false e (inr (token, sent, found)) csrf =
          inr (ctx, w, c, refl, (token, sent, found, ground arith, csrf))

      at_csrf :
          (safe : Bool)
          → is_safe r.method ≡ safe
          → (same : Bool) → (r.csrf_header == ctx.csrf_token) ≡ same
          → Fate env r t next (
              (if safe
                  then admin_middleware ctx (next ctx)
                  else if same
                  then admin_middleware ctx (next ctx)
                  else reply (status_only 403))
                w)
      at_csrf true e same f = at_id (ctx.id == 0) refl valid (inl e)
      at_csrf false e true f =
          at_id (ctx.id == 0) refl valid (inr ((eq_iff r.csrf_header ctx.csrf_token).0 f))
      at_csrf false e false f = inl (c, omega arith)

  -- An action that refuses or goes on with the committed tables untouched.
  bind-Fate :
      {A : Type 0} {P : AuthTables → Type 0} {Q : A → AuthTables → Type 0} (a : AuthHandler A)
      (f : A → AuthHandler Response)
      → Triple t P a Q
      → ((x : A) (w : World AuthTables Memory)
          → w.committed ≡ t
          → Q x w.working
          → Fate env r t next (f x w))
      → (w : World AuthTables Memory) → w.committed ≡ t
      → P w.working
      → Fate env r t next ((a >>= f) w)
  unfolding ◌>>=◌
  bind-Fate {A} {Q} a f h k w c p = go (a w) (h.at w c p)
    where
      go :
          (run : Run AuthTables Memory A)
          → Ends t (λ x w'. (w'.committed ≡ t) × Q x w'.working) run
          → Fate env r t next (elim run [ done x w' ↦ f x w' | stop y w' ↦ stop y w' ])
      go (done x w') (c', q) = k x w' c' q
      go (stop y w') (c', refusal) = inl (c', omega arith)

  -- What the session lookup answers on the committed tables.
  Looked : String → Result SessionRow → AuthTables → Type 0
  Looked token (good row) s = (s ≡ t) × (validate_session token env.now t ≡ ok row t)
  Looked token (bad e) s = Unit

  validate_session-Looked :
      (token : String) (s : AuthTables)
      → s ≡ t
      → Answers (Looked token) s (validate_session token env.now s) × Looked token (bad fault) s
  unfolding Looked validate_session
  validate_session-Looked token s e =
      rw e (go (find (is_valid t token env.now) t.sessions) refl, tt)
    where
      answer : Option Session → Answer AuthTables SessionRow
      answer o = elim o [
        | none ↦ err no_rows
        | some x ↦ ok (record { id = x.user_id; csrf_token = x.csrf_token }) t
      ]

      go :
          (o : Option Session)
          → find (is_valid t token env.now) t.sessions ≡ o
          → Answers (Looked token) t (answer o)
      go none found = tt
      go (some x) found = (refl, ap answer found)

  with_session-Fate :
      (token : String) (row : Result SessionRow) (w : World AuthTables Memory)
      → r.session_cookie ≡ some token
      → w.committed ≡ t
      → Looked token row w.working
      → Fate env r t next (with_session env row guarded w)
  unfolding with_session ◌>>=◌ Looked IsSessionOf
  with_session-Fate token (good row) w sent c (same, found) =
      bind-Fate (commit env) (λ _. guarded (record { id = row.id; csrf_token = row.csrf_token }))
        (Triple-commit_same {P = λ s. s ≡ t} env (λ s e. e))
        (λ _ w' c' _. guarded-Fate _ w' c' (inr (token, sent, found))) w c same
  with_session-Fate token (bad no_rows) w sent c h = guarded-Fate no_auth w c (inl refl)
  with_session-Fate token (bad constraint) w sent c h = inl (c, omega arith)
  with_session-Fate token (bad fault) w sent c h = inl (c, omega arith)

  session_middleware-Fate :
      (cookie : Option String) (m : Memory)
      → r.session_cookie ≡ cookie
      → Fate env r t next (session_middleware env cookie guarded (start t m))
  unfolding session_middleware
  session_middleware-Fate none m sent =
      bind-Fate {P = Anything} (begin env) _ (Triple-begin env)
        (λ _ w c _. guarded-Fate no_auth w c (inl refl)) _ refl tt
  session_middleware-Fate (some token) m sent =
      bind-Fate {P = Anything} (begin env) _ (Triple-begin env)
        (λ _.
          bind-Fate (attempt env (validate_session token env.now)) _
            (Triple-attempt {Q = Looked token} env _ (validate_session-Looked token))
            (λ row w c h. with_session-Fate token row w sent c h))
        _ refl tt

-- A request for a route of /admin, whichever database calls fail: either it is answered by a
-- redirect or an error without its handler and with unchanged tables, or its handler runs on the
-- committed tables, for the user of a session that is in them, that is within its lifetime, that
-- the cookie names, and whose CSRF token the request has unless its method is GET, HEAD or OPTIONS.
pub admin-IsAuthorised :
    (env : Env) (r : Request) (t : AuthTables) (m : Memory) (next : AuthCtx → AuthHandler Response)
    → Fate env r t next (admin env r next (start t m))
unfolding admin guarded
admin-IsAuthorised env r t m next = session_middleware-Fate env r t next r.session_cookie m refl
