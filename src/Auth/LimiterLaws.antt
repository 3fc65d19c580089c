-- ===== src/Auth/LimiterLaws.antt =====
-- The limiter lets ten failures of an address through in a window, and forgets it afterwards.
use statusnook.Prelude.{
  All, Bool, Bool-cases, List, Option, Option-cases, String, [], ap, arith, eq_iff, false,
  if◌then◌else◌, inl, inr, leb, length, ltb, nat_eq, none, refl, some, string_eq, sym, true, ℕ, ◌+◌,
  ◌-◌, ◌<◌, ◌==◌, ◌∙◌, ◌∷◌, ◌≡◌, ◌≤◌,
}
use statusnook.Auth.Limiter.{
  Limiter, clear_login_failures, delete, insert, is_expired, is_spent, login_rate_limited, lookup,
  record_login_failure, sweep,
}
use statusnook.Auth.Tables.{LoginFailures, login_max_failures, login_window}

module _ {V : Type 0} where
  pub lookup-delete :
      (key other : String) (entries : List (String × V))
      → lookup other (delete key entries) ≡ (if key == other then none else lookup other entries)
  unfolding lookup delete
  lookup-delete key other [] = ground arith
  lookup-delete key other ((held, v) ∷ entries) =
      ground (
        arith,
        lookup-delete key other entries,
        eq_iff held other,
        eq_iff held key,
        eq_iff key other,
      )

  pub lookup-insert :
      (key other : String) (value : V) (entries : List (String × V))
      → lookup other (insert key value entries)
        ≡ (if key == other then some value else lookup other entries)
  unfolding lookup insert
  lookup-insert key other value [] = refl
  lookup-insert key other value ((held, v) ∷ entries) = ground (
    arith,
    lookup-insert key other value entries,
    eq_iff held other,
    eq_iff held key,
    eq_iff key other,
  )

  -- No key occurs twice.
  abbrev pub HasUniqueKeys : List (String × V) → Type 0
  HasUniqueKeys [] = Unit
  HasUniqueKeys ((k, v) ∷ m) = (lookup k m ≡ none) × HasUniqueKeys m

  pub lookup-sweep-none :
      (gone : V → Bool) (k : String) (m : List (String × V))
      → lookup k m ≡ none
      → lookup k (sweep gone m) ≡ none
  unfolding lookup sweep
  lookup-sweep-none gone k [] h = refl
  lookup-sweep-none gone k ((j, w) ∷ m) h = ground (arith, lookup-sweep-none gone k m)

  abbrev pub unless_gone : (V → Bool) → Option V → Option V
  unless_gone gone none = none
  unless_gone gone (some v) = if gone v then none else some v

  pub lookup-sweep :
      (gone : V → Bool) (k : String) (m : List (String × V))
      → HasUniqueKeys m
      → lookup k (sweep gone m) ≡ unless_gone gone (lookup k m)
  unfolding lookup sweep
  lookup-sweep gone k [] u = refl
  lookup-sweep gone k ((j, w) ∷ m) (new, u) =
      ground (arith, lookup-sweep gone k m u, lookup-sweep-none gone j m new, eq_iff j k)

  insert-HasUniqueKeys :
      (k : String) (v : V) (m : List (String × V)) → HasUniqueKeys m → HasUniqueKeys (insert k v m)
  unfolding lookup insert
  insert-HasUniqueKeys k v [] u = (refl, tt)
  insert-HasUniqueKeys k v ((j, w) ∷ m) (new, u) = elim (Bool-cases (j == k)) [
    | inl e ↦ let same : j ≡ k = (eq_iff j k).0 e in rw e (rw (sym same) new, u)
    | inr e ↦
        let other : lookup j (insert k v m) ≡ none =
          ground (arith, lookup-insert k j v m, eq_iff j k, eq_iff k j) in
        rw e (other, insert-HasUniqueKeys k v m u)
  ]

  pub delete-HasUniqueKeys :
      (k : String) (m : List (String × V)) → HasUniqueKeys m → HasUniqueKeys (delete k m)
  unfolding lookup delete
  delete-HasUniqueKeys k [] u = tt
  delete-HasUniqueKeys k ((j, w) ∷ m) (new, u) = elim (Bool-cases (j == k)) [
    | inl e ↦ rw e (delete-HasUniqueKeys k m u)
    | inr e ↦
        let still : lookup j (delete k m) ≡ none = ground (arith, lookup-delete k j m) in
        rw e (still, delete-HasUniqueKeys k m u)
  ]

-- An address is limited if its bucket is live and spent.
login_rate_limited-bucket :
    (key : String) (now : ℕ) (limiter : Limiter)
    → HasUniqueKeys limiter
    → (login_rate_limited key now limiter).1
      ≡ is_spent (unless_gone (is_expired now) (lookup key limiter))
unfolding login_rate_limited
login_rate_limited-bucket key now limiter u =
    ap is_spent (lookup-sweep (is_expired now) key limiter u)

-- The bucket of an address after one more failure.
abbrev bucket : ℕ → Option LoginFailures → LoginFailures
bucket now none = record { count = 1; first = now }
bucket now (some v) =
    if is_expired now v
    then record { count = 1; first = now }
    else record { count = v.count + 1; first = v.first }

record_login_failure-insert :
    (key : String) (now : ℕ) (limiter : Limiter)
    → record_login_failure key now limiter ≡ insert key (bucket now (lookup key limiter)) limiter
unfolding record_login_failure
record_login_failure-insert key now limiter = elim (Option-cases (lookup key limiter)) [
  | inl e ↦ rw (e, record_login_failure) refl
  | inr (v, e) ↦ elim (Bool-cases (is_expired now v)) [
    | inl x ↦ rw (e, x, record_login_failure) refl
    | inr x ↦ rw (e, x, record_login_failure) refl
  ]
]

-- Failed attempts of one address, one after another.
unfoldable pub record_failures : String → List ℕ → Limiter → Limiter
record_failures key [] limiter = limiter
record_failures key (t ∷ times) limiter =
    record_failures key times (record_login_failure key t limiter)

-- The failures of a window add up.
record_failures-lookup :
    (key : String) (first : ℕ) (n : ℕ) (times : List ℕ) (limiter : Limiter)
    → HasUniqueKeys limiter
    → lookup key limiter ≡ some (record { count = n; first = first })
    → All (λ t. t - first ≤ login_window) times
    → (lookup key (record_failures key times limiter)
        ≡ some (record { count = n + length times; first = first }))
      × HasUniqueKeys (record_failures key times limiter)
unfolding record_failures
record_failures-lookup key first n [] limiter u e a =
    (e ∙ ap (λ c. some (record { count = c; first = first })) (omega arith), u)
record_failures-lookup key first n (t ∷ times) limiter u e (a, rest_inside) =
    let live : ltb login_window (t - first) ≡ false = ground arith in
    let after : List (String × LoginFailures) =
      insert key (record { count = n + 1; first = first }) limiter in
    let step : record_login_failure key t limiter ≡ after =
      record_login_failure-insert key t limiter ∙ rw (e, live) refl in
    let found : lookup key after ≡ some (record { count = n + 1; first = first }) = ground (
      arith,
      lookup-insert key key (record { count = n + 1; first = first }) limiter,
      eq_iff key key,
    ) in
    let rest =
      record_failures-lookup key first (n + 1) times after (insert-HasUniqueKeys key _ limiter u)
        found rest_inside in
    rw step (rest.0 ∙ ap (λ c. some (record { count = c; first = first })) (omega arith), rest.1)

-- For an address without failures so far: after a failure at the time `first` and more failures,
-- all within fifteen minutes of it, the address is limited, at any time within the fifteen minutes,
-- exactly if there are ten failures or more.
pub record_failures-limited :
    (key : String) (first : ℕ) (times : List ℕ) (now : ℕ) (limiter : Limiter)
    → HasUniqueKeys limiter
    → lookup key limiter ≡ none
    → All (λ t. t - first ≤ login_window) times
    → now - first ≤ login_window
    → (login_rate_limited key now (record_failures key (first ∷ times) limiter)).1
      ≡ leb login_max_failures (1 + length times)
unfolding record_failures
record_failures-limited key first times now limiter u none_yet inside now_inside =
    let one : LoginFailures = record { count = 1; first = first } in
    let step : record_login_failure key first limiter ≡ insert key one limiter =
      record_login_failure-insert key first limiter ∙ rw none_yet refl in
    let found : lookup key (insert key one limiter) ≡ some one =
      ground (arith, lookup-insert key key one limiter, eq_iff key key) in
    let all =
      record_failures-lookup key first 1 times (insert key one limiter)
        (insert-HasUniqueKeys key one limiter u) found inside in
    let live : ltb login_window (now - first) ≡ false = ground arith in
    rw step (login_rate_limited-bucket key now _ all.1 ∙ rw (all.0, live) refl)

-- Whatever was counted, an address is not limited more than fifteen minutes after the first failure
-- of its bucket, nor after a successful login cleared it.
pub login_rate_limited-forgets :
    (key : String) (now : ℕ) (limiter : Limiter)
    → HasUniqueKeys limiter
    → ((v : LoginFailures)
        → lookup key limiter ≡ some v
        → login_window < now - v.first
        → (login_rate_limited key now limiter).1 ≡ false)
      × ((login_rate_limited key now (clear_login_failures key limiter)).1 ≡ false)
unfolding clear_login_failures
login_rate_limited-forgets key now limiter u = (
  λ v e late.
      let gone : ltb login_window (now - v.first) ≡ true = ground arith in
      login_rate_limited-bucket key now limiter u ∙ rw (e, gone) refl,
  let cleared : lookup key (delete key limiter) ≡ none =
        ground (arith, lookup-delete key key limiter, eq_iff key key) in
      login_rate_limited-bucket key now _ (delete-HasUniqueKeys key limiter u) ∙ rw cleared refl,
)

-- The failures and the successful logins of one address change nothing for another one.
pub login_rate_limited-independent :
    (key other : String) (t now : ℕ) (limiter : Limiter)
    → HasUniqueKeys limiter
    → (key == other) ≡ false
    → ((login_rate_limited other now (record_login_failure key t limiter)).1
        ≡ (login_rate_limited other now limiter).1)
      × ((login_rate_limited other now (clear_login_failures key limiter)).1
          ≡ (login_rate_limited other now limiter).1)
unfolding clear_login_failures
login_rate_limited-independent key other t now limiter u differ =
    let b = bucket t (lookup key limiter) in
    let inserted : lookup other (insert key b limiter) ≡ lookup other limiter =
      ground (arith, lookup-insert key other b limiter) in
    let deleted : lookup other (delete key limiter) ≡ lookup other limiter =
      ground (arith, lookup-delete key other limiter) in
    (
      rw (record_login_failure-insert key t limiter) (
          login_rate_limited-bucket other now _ (insert-HasUniqueKeys key b limiter u)
          ∙ rw inserted (sym (login_rate_limited-bucket other now limiter u))),
      login_rate_limited-bucket other now _ (delete-HasUniqueKeys key limiter u)
          ∙ rw deleted (sym (login_rate_limited-bucket other now limiter u)),
    )
