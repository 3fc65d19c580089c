-- ===== src/Auth/Limiter.antt =====
-- loginlimit.go: the map of failures by client address. A Go map is an association list in which a
-- write replaces the entry of its key.
use statusnook.Prelude.{
  Bool, List, Option, String, [], false, if◌then◌else◌, leb, ltb, nat_eq, none, some, string_eq, ℕ,
  ◌+◌, ◌-◌, ◌==◌, ◌∷◌,
}
use statusnook.Auth.Tables.{LoginFailures, login_max_failures, login_window}

module _ {V : Type 0} where
  unfoldable pub lookup : (key : String) → List (String × V) → Option V
  lookup key [] = none
  lookup key ((held, v) ∷ entries) = if held == key then some v else lookup key entries

  unfoldable pub delete : (key : String) → List (String × V) → List (String × V)
  delete key [] = []
  delete key ((held, v) ∷ entries) =
      if held == key then delete key entries else (held, v) ∷ delete key entries

  unfoldable pub insert : (key : String) → (value : V) → List (String × V) → List (String × V)
  insert key value [] = (key, value) ∷ []
  insert key value ((held, v) ∷ entries) =
      if held == key then (key, value) ∷ entries else (held, v) ∷ insert key value entries

  -- `for k, v := range m { if gone(v) { delete(m, k) } }`
  unfoldable pub sweep : (V → Bool) → List (String × V) → List (String × V)
  sweep gone [] = []
  sweep gone ((held, v) ∷ entries) =
      if gone v then sweep gone entries else (held, v) ∷ sweep gone entries

abbrev pub Limiter : Type 0
Limiter = List (String × LoginFailures)

-- now.Sub(v.first) > loginWindow
abbrev pub is_expired : ℕ → LoginFailures → Bool
is_expired now v = ltb login_window (now - v.first)

abbrev pub is_spent : Option LoginFailures → Bool
is_spent none = false
is_spent (some v) = leb login_max_failures v.count

unfoldable pub login_rate_limited : String → ℕ → Limiter → Limiter × Bool
login_rate_limited key now limiter =
    let swept = sweep (is_expired now) limiter in (swept, is_spent (lookup key swept))

unfoldable pub record_login_failure : String → ℕ → Limiter → Limiter
record_login_failure key now limiter =
    let fresh : LoginFailures = record { count = 1; first = now } in
    elim (lookup key limiter) [
      | none ↦ insert key fresh limiter
      | some v ↦
          if is_expired now v
          then insert key fresh limiter
          else insert key (record v { count = v.count + 1 }) limiter
    ]

unfoldable pub clear_login_failures : String → Limiter → Limiter
clear_login_failures key limiter = delete key limiter
