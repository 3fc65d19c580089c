-- ===== src/Auth/UserLaws.antt =====
-- What changing and deleting a user does to the sessions.
use statusnook.Prelude.{
  All, Bool, Bool-cases, List, Option, String, [], any, any-keep_not, ap, arith, eq_iff, false,
  find, if◌then◌else◌, inl, inr, ltb, map, nat_eq, none, not, not-not, refl, rewrite, some,
  string_eq, true, ℕ, ◌&&◌, ◌==◌, ◌∷◌, ◌≡◌, ◌≢◌, ◌≤◌, ◌⊎◌,
}
use statusnook.Text.{atoi, byte_length, ℤ}
use statusnook.World.{
  Env, Result, bad, bad_request, constraint, err, fault, good, internal_error, no_rows, ok, serve,
  status_only,
}
use statusnook.World.Rules.{Keeps-refuse_if}
use statusnook.World.Hoare.{
  Gives, Outcome, Serves-bind, Serves-commit, Serves-serve, Triple, Triple-bind, Triple-demand,
  Triple-exec, Triple-pure, Triple-refuse_if,
}
use statusnook.Auth.Tables.{AuthTables, Crypto, Memory, User}
use statusnook.Auth.Queries.{
  delete_all_sessions_by_user_id, edit_user, get_username_by_id, is_session_of, is_taken, is_user,
}
use statusnook.Auth.DeletionLaws.{HasNoSession}
use statusnook.Auth.Users.{known_username, post_edit_user, store_user}
use statusnook.World.Attempts.{
  Answers, Triple-attempt, Triple-begin_fact, Triple-fact, Triple-reply,
}
use statusnook.Auth.Login.{unless_taken}

-- The user's row carries the new name and the hash of the new password.
abbrev pub HasPassword : Crypto → ℤ → String → String → AuthTables → Type 0
HasPassword crypto id username password t =
    (pw_hash : String) × (8 ≤ byte_length password)
    × (crypto.hash password ≡ some pw_hash)
    × All (λ (u : User). is_user id u ≡ true → (u.username ≡ username) × (u.password ≡ pw_hash))
        t.users

abbrev pub password_of : User → String
password_of u = u.password

abbrev pub Edits : Crypto → ℤ → String → String → AuthTables → AuthTables → Type 0
Edits crypto id username password t t' =
    ((password ≡ "retain")
      × (t'.sessions ≡ t.sessions)
      × (map password_of t'.users ≡ map password_of t.users))
    ⊎ ((password ≢ "retain") × HasNoSession id t' × HasPassword crypto id username password t')

rewrite-passwords :
    (p : User → Bool) (username : String) (users : List User)
    → map password_of
        (rewrite p (λ u. record u { username = username; password = u.password }) users)
      ≡ map password_of users
rewrite-passwords p username [] = refl
rewrite-passwords p username (u ∷ users) = elim (Bool-cases (p u)) [
  | inl e ↦ rw e (ap (λ us. u.password ∷ us) (rewrite-passwords p username users))
  | inr e ↦ rw e (ap (λ us. u.password ∷ us) (rewrite-passwords p username users))
]

rewrite-hash :
    (id : ℤ) (username pw_hash : String) (users : List User)
    → All
        (λ (u : User). is_user id u ≡ true → (u.username ≡ username) × (u.password ≡ pw_hash))
        (rewrite (is_user id) (λ u. record u { username = username; password = pw_hash }) users)
rewrite-hash id username pw_hash [] = tt
rewrite-hash id username pw_hash (u ∷ users) = elim (Bool-cases (is_user id u)) [
  | inl e ↦ rw e (λ _. (refl, refl), rewrite-hash id username pw_hash users)
  | inr e ↦ rw e ((λ y. ground arith), rewrite-hash id username pw_hash users)
]

-- What a statement that went well has established.
abbrev OnSuccess : (AuthTables → Type 0) → Result (Unit {0}) → AuthTables → Type 0
OnSuccess Q (good _) s = Q s
OnSuccess Q (bad e) s = Unit

-- The check of the password's length.
abbrev IsLong : String → Type 0
IsLong password = (not (password == "retain") && ltb (byte_length password) 8) ≡ false

module _ (crypto : Crypto) (env : Env) (t : AuthTables) (id : ℤ) (username password : String) where
  unless_taken-Edited :
      (Q : AuthTables → Type 0) (r : Result (Unit {0}))
      → Triple {M = Memory} t (OnSuccess Q r) (unless_taken r) (λ _. Q)
  unfolding unless_taken
  unless_taken-Edited Q (good u) = Triple-pure u (λ s p. p)
  unless_taken-Edited Q (bad constraint) = Triple-reply bad_request (omega arith)
  unless_taken-Edited Q (bad no_rows) = Triple-reply internal_error (omega arith)
  unless_taken-Edited Q (bad fault) = Triple-reply internal_error (omega arith)

  retained :
      (s : AuthTables)
      → password ≡ "retain"
      → s ≡ t
      → Answers (OnSuccess (Edits crypto id username password t)) s (edit_user id username none s)
  unfolding edit_user
  retained s same e = rw e (go (any (is_user id) t.users && any (is_taken id username) t.users))
    where
      go :
          (taken : Bool)
          → Answers (OnSuccess (Edits crypto id username password t)) t (
              if taken
              then err constraint
              else ok tt (record t {
                users =
                    rewrite
                      (is_user id)
                      (λ u. record u { username = username; password = u.password })
                      t.users;
              }))
      go true = tt
      go false = inl (same, refl, rewrite-passwords (is_user id) username t.users)

  replaced :
      (s : AuthTables) (pw_hash : String)
      → 8 ≤ byte_length password
      → crypto.hash password ≡ some pw_hash
      → s ≡ t
      → Answers
          (OnSuccess (HasPassword crypto id username password))
          s
          (edit_user id username (some pw_hash) s)
  unfolding edit_user
  replaced s pw_hash long hashed e =
      rw e (go (any (is_user id) t.users && any (is_taken id username) t.users))
    where
      go :
          (taken : Bool)
          → Answers (OnSuccess (HasPassword crypto id username password)) t (
              if taken
              then err constraint
              else ok tt (record t {
                users =
                    rewrite
                      (is_user id)
                      (λ u. record u { username = username; password = pw_hash })
                      t.users;
              }))
      go true = tt
      go false = (pw_hash, long, hashed, rewrite-hash id username pw_hash t.users)

  delete_sessions-Edits :
      (s : AuthTables)
      → password ≢ "retain"
      → HasPassword crypto id username password s
      → Gives (λ _. Edits crypto id username password t) (delete_all_sessions_by_user_id id s)
  unfolding delete_all_sessions_by_user_id
  delete_sessions-Edits s other stored = inr (
    other,
    any-keep_not (is_session_of id) (λ x. not (is_session_of id x))
        (λ x. not-not (is_session_of id x)) s.sessions,
    stored,
  )

  store_user-Edits :
      Triple {M = Memory} t
        (λ s. (s ≡ t) × IsLong password)
        (store_user crypto env id username password)
        (λ _. Edits crypto id username password t)
  unfolding store_user
  store_user-Edits = elim (Bool-cases (password == "retain")) [
    | inl e ↦
        let same : password ≡ "retain" = (eq_iff password "retain").0 e in
        rw e (
          Triple-bind {Q = OnSuccess (Edits crypto id username password t)} _ _
            (Triple-attempt env _ (λ s p. (retained s same p.0, tt)))
            (unless_taken-Edited (Edits crypto id username password t)))
    | inr e ↦
        let other : password ≢ "retain" = λ same. ground (arith, eq_iff password "retain") in
        rw e (
          Triple-bind
            {Q = λ h s. (s ≡ t) × (8 ≤ byte_length password) × (crypto.hash password ≡ some h)} _ _
            (Triple-demand _ _ (omega arith)
              (λ h hashed s p. let (same, long) = p in (same, ground arith, hashed)))
            λ h.
              Triple-bind {Q = OnSuccess (HasPassword crypto id username password)} _ _
                (Triple-attempt env _ (λ s p. (replaced s h p.1 p.2 p.0, tt)))
                λ r.
                  Triple-bind {Q = λ _. HasPassword crypto id username password} _ _
                    (unless_taken-Edited (HasPassword crypto id username password) r)
                    λ _. Triple-exec env _ (λ s stored. delete_sessions-Edits s other stored))
  ]

get_username_by_id-keeps :
    (P : AuthTables → Type 0) (id : ℤ) (s : AuthTables)
    → P s
    → Answers {A = String} (λ _. P) s (get_username_by_id id s)
unfolding get_username_by_id
get_username_by_id-keeps P id s p = go (find (is_user id) s.users)
  where
    go :
        (o : Option User)
        → Answers {A = String} (λ _. P) s (elim o [ none ↦ err no_rows | some u ↦ ok u.username s ])
    go none = p
    go (some u) = p

known_username-keeps :
    (P : AuthTables → Type 0) (t : AuthTables) (row : Result String)
    → Triple {M = Memory} t P (known_username row) (λ _. P)
unfolding known_username
known_username-keeps P t (good name) = Triple-pure tt (λ s p. p)
known_username-keeps P t (bad no_rows) = Triple-reply (status_only 404) (omega arith)
known_username-keeps P t (bad constraint) = Triple-reply internal_error (omega arith)
known_username-keeps P t (bad fault) = Triple-reply internal_error (omega arith)

-- Editing a user: an error reply and unchanged tables, or, with the password "retain", the sessions
-- and the stored passwords are as before; with any other password, it has eight bytes at least, the
-- user's row carries the name and the password's hash, and no session of the user is left.
pub post_edit_user-Edits :
    (crypto : Crypto) (env : Env) (auth_id : ℕ) (id_param username password : String)
    (t : AuthTables) (m : Memory)
    → Outcome
        (λ r t'. (id : ℤ) × (atoi id_param ≡ some id) × Edits crypto id username password t t')
        t
        (serve (post_edit_user crypto env auth_id id_param username password) t m)
unfolding post_edit_user
post_edit_user-Edits crypto env auth_id id_param username password t m =
    Serves-serve
      (λ r t'. (id : ℤ) × (atoi id_param ≡ some id) × Edits crypto id username password t t') _ t m
      (Serves-bind _ _
        (Triple-demand {Q = λ id _. atoi id_param ≡ some id} _ _ (omega arith) (λ id e _ _. e))
        λ id.
          Serves-bind _ _ (Keeps-refuse_if (λ _. atoi id_param ≡ some id) _ _ (omega arith)) λ _.
            Serves-bind _ _ (Keeps-refuse_if (λ _. atoi id_param ≡ some id) _ _ (omega arith)) λ _.
              Serves-bind _ _
                (Triple-refuse_if {Q = λ _ _. (atoi id_param ≡ some id) × IsLong password} _ _
                  (omega arith) (λ e s p. (p, e)))
                λ _.
                  Serves-bind _ _
                    (Triple-begin_fact {F = (atoi id_param ≡ some id) × IsLong password} env)
                    λ _.
                      Serves-bind _ _
                        (Triple-attempt {Q = λ _. Checked id} env _ (λ s p. (
                          get_username_by_id-keeps (Checked id) id s ((p.1).0, (p.0, (p.1).1)),
                          ((p.1).0, (p.0, (p.1).1)),
                        )))
                        λ row. Serves-bind _ _ (known_username-keeps (Checked id) t row) λ _.
                          Serves-bind _ _
                            (Triple-fact (store_user-Edits crypto env t id username password))
                            λ _. Serves-commit env _ (λ s q. (id, q.0, q.1)))
  where
    Checked : ℤ → AuthTables → Type 0
    Checked id s = (atoi id_param ≡ some id) × ((s ≡ t) × IsLong password)
