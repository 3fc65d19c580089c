-- ===== src/Auth/CrossTokens.antt =====
-- users.go: the tokens that carry an administrator's login over to another domain.
use statusnook.Prelude.{Bool, List, Option, String, if◌then◌else◌, ltb, none, some, ℕ, ◌-◌}
use statusnook.Auth.Tables.{CrossAuthToken, cross_auth_token_ttl}
use statusnook.Auth.Limiter.{delete, lookup, sweep}

abbrev pub CrossAuthTokens : Type 0
CrossAuthTokens = List (String × CrossAuthToken)

-- now.Sub(v.issuedAt) > crossAuthTokenTTL
abbrev pub is_stale : ℕ → CrossAuthToken → Bool
is_stale now v = ltb cross_auth_token_ttl (now - v.issued_at)

-- The tokens left, and the user id of a token that is redeemed.
unfoldable pub redeem_cross_auth_token : String → ℕ → CrossAuthTokens → CrossAuthTokens × Option ℕ
redeem_cross_auth_token token now tokens =
    let swept = sweep (is_stale now) tokens in
    (
      delete token swept,
      elim (lookup token swept) [
        | none ↦ none
        | some v ↦ if is_stale now v then none else some v.user_id
      ],
    )
