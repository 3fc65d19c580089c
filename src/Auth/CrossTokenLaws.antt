-- ===== src/Auth/CrossTokenLaws.antt =====
-- What a cross-auth token buys, once.
use statusnook.Prelude.{
  Option, String, ap, arith, eq_iff, if◌then◌else◌, leb, none, refl, some, sym, ℕ, ◌-◌, ◌∙◌, ◌≡◌,
}
use statusnook.World.{Answer, Env, Response, err, ok, serve}
use statusnook.World.Rules.{Keeps-demand, Quiet-refuse_if, Serves-Quiet}
use statusnook.World.Hoare.{
  Anything, Gives, Outcome, Serves-bind, Serves-commit, Triple-demand, Triple-exec,
}
use statusnook.World.Attempts.{Keeps-begin_fact, Outcome-recall, Triple-remember}
use statusnook.Engine.{Engine}
use statusnook.Auth.Tables.{AuthTables, CrossAuthToken, Memory, cross_auth_token_ttl}
use statusnook.Auth.Queries.{create_session}
use statusnook.Auth.Login.{Randoms, cross_auth, get_cross_auth}
use statusnook.Auth.LimiterLaws.{
  HasUniqueKeys, lookup-delete, lookup-sweep, lookup-sweep-none, unless_gone,
}
use statusnook.Auth.SessionLaws.{OpensSession, create_session-OpensSession}
use statusnook.Auth.Limiter.{delete, lookup, sweep}
use statusnook.Auth.CrossTokens.{CrossAuthTokens, is_stale, redeem_cross_auth_token}

-- The user of a token that was issued at most a minute ago.
abbrev pub issued_to : ℕ → Option CrossAuthToken → Option ℕ
issued_to now none = none
issued_to now (some v) =
    if leb (now - v.issued_at) cross_auth_token_ttl then some v.user_id else none

taken : ℕ → Option CrossAuthToken → Option ℕ
taken now o = elim o [ none ↦ none | some v ↦ if is_stale now v then none else some v.user_id ]

taken-issued_to :
    (now : ℕ) (o : Option CrossAuthToken)
    → taken now (unless_gone (is_stale now) o) ≡ issued_to now o
unfolding taken
taken-issued_to now none = refl
taken-issued_to now (some v) = ground arith

-- Redeeming a token gives the user for whom it was issued, at most a minute ago, and the token
-- cannot be redeemed again, at any time, whether it was good or not.
pub redeem_cross_auth_token-once :
    (token : String) (now later : ℕ) (tokens : CrossAuthTokens)
    → HasUniqueKeys tokens
    → ((redeem_cross_auth_token token now tokens).1 ≡ issued_to now (lookup token tokens))
      × ((redeem_cross_auth_token token later (redeem_cross_auth_token token now tokens).0).1
          ≡ none)
unfolding redeem_cross_auth_token taken
redeem_cross_auth_token-once token now later tokens u =
    let swept = sweep (is_stale now) tokens in
    let deleted : lookup token (delete token swept) ≡ none =
      ground (arith, lookup-delete token token swept, eq_iff token token) in
    (
      ap (taken now) (lookup-sweep (is_stale now) token tokens u)
          ∙ taken-issued_to now (lookup token tokens),
      ap (taken later) (lookup-sweep-none (is_stale later) token (delete token swept) deleted),
    )

-- The redirect sets the token of a session of the user for whom the token of the request was
-- issued.
abbrev pub CrossesOver : Env → String → String → Memory → Response → AuthTables → Type 0
CrossesOver env redirect_url token_param m r t' =
    (user_id : ℕ) × (token : String) × (csrf_token : String) × (issued_to env.now
        (lookup token_param m.tokens)
      ≡ some user_id)
    × (r ≡ record { status = 302; location = some redirect_url; cookie = some token })
    × OpensSession token csrf_token user_id env.now t'

-- A cross-auth request without a session: an error reply and unchanged tables, or a redirect with
-- the cookie of a session, valid for thirty days and no longer, of the user for whom the token of
-- the request was issued at most a minute ago.
pub get_cross_auth-CrossesOver :
    (eng : Engine) (env : Env) (redirect_url token_param : String) (randoms : Randoms)
    (t : AuthTables) (m : Memory)
    → HasUniqueKeys m.tokens
    → Outcome
        (CrossesOver env redirect_url token_param m)
        t
        (serve (get_cross_auth eng env 0 redirect_url token_param randoms) t m)
unfolding get_cross_auth cross_auth
get_cross_auth-CrossesOver eng env redirect_url token_param randoms t m u =
    Outcome-recall (CrossesOver env redirect_url token_param m) _ t m (
      Serves-Quiet _ _ (Quiet-refuse_if _ _ (omega arith)) λ _.
        Serves-bind _ _ (Triple-remember {P = Anything} _) λ _.
          Serves-bind _ _
            (Triple-demand {P = Anything}
              {Q = λ id _. issued_to env.now (lookup token_param m.tokens) ≡ some id} _ _
              (omega arith)
              (λ id e _ _.
                sym (redeem_cross_auth_token-once token_param env.now 0 m.tokens u).0 ∙ e))
            λ user_id.
              Serves-bind _ _
                (Keeps-demand (λ _. issued_to env.now (lookup token_param m.tokens) ≡ some user_id)
                  _ _ (omega arith))
                λ token.
                  Serves-bind _ _
                    (Keeps-demand
                      (λ _. issued_to env.now (lookup token_param m.tokens) ≡ some user_id) _ _
                      (omega arith))
                    λ csrf_token.
                      Serves-bind _ _
                        (Keeps-begin_fact
                          {F = issued_to env.now (lookup token_param m.tokens) ≡ some user_id} env)
                        λ _.
                          Serves-bind _ _
                            (Triple-exec env
                              {Q = λ _. CrossesOver env redirect_url token_param m (record {
                                status = 302;
                                location = some redirect_url;
                                cookie = some token;
                              })}
                              _
                              (λ s issued.
                                opened user_id token csrf_token issued s
                                  (create_session eng token csrf_token user_id env.now s)
                                  (create_session-OpensSession eng token csrf_token user_id env.now
                                    s)))
                            λ _. Serves-commit env _ (λ s g. g))
  where
    opened :
        (user_id : ℕ) (token csrf_token : String)
        → issued_to env.now (lookup token_param m.tokens) ≡ some user_id
        → (s : AuthTables) (a : Answer AuthTables (Unit {0}))
        → Gives
            (λ _ t'.
              OpensSession token csrf_token user_id env.now t'
              × (t'.users ≡ s.users)
              × (t'.invitations ≡ s.invitations))
            a
        → Gives
            (λ _.
              CrossesOver env redirect_url token_param m
                (record { status = 302; location = some redirect_url; cookie = some token }))
            a
    opened user_id token csrf_token issued s (ok _ s') (o, _, _) =
        (user_id, token, csrf_token, issued, refl, o)
    opened user_id token csrf_token issued s (err e) g = tt
