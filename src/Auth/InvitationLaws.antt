-- ===== src/Auth/InvitationLaws.antt =====
-- What an invitation buys, once.
use statusnook.Prelude.{
  Bool-cases, List, Option, String, [], any, ap, arith, false, find, inl, inr, keep, map, none, not,
  refl, some, sym, ℕ, ◌++◌, ◌∙◌, ◌∷◌, ◌≡◌, ◌≤◌,
}
use statusnook.Text.{byte_length, names_row, pos}
use statusnook.World.{
  Env, Response, Result, bad, bad_request, constraint, err, fault, good, internal_error, no_rows,
  ok, serve,
}
use statusnook.World.Rules.{Keeps-refuse_if, Quiet-refuse_if, Serves-Quiet}
use statusnook.World.Hoare.{
  Gives, Outcome, Serves-bind, Serves-serve, Triple, Triple-begin, Triple-demand, Triple-exec,
  Triple-pure, Triple-refuse_if,
}
use statusnook.World.Attempts.{Answers, Triple-attempt, Triple-reply}
use statusnook.Engine.{Engine}
use statusnook.Auth.Tables.{AuthTables, Crypto, Memory, User, UserInvitation}
use statusnook.Auth.Queries.{
  create_user, delete_user_invitation, has_username, is_active_invitation,
  validate_user_invitation_token,
}
use statusnook.Auth.Login.{Randoms, known_invitation, logged_in, post_invitation, unless_taken}
use statusnook.Auth.SessionLaws.{OpensSession, start_session-Serves}

module _ (eng : Engine) (crypto : Crypto) (env : Env) (t : AuthTables) where
  -- The invitation's token was active.
  abbrev pub IsInvitation : String → ℕ → Type 0
  IsInvitation invite_token id =
      (i : UserInvitation) × (find (is_active_invitation invite_token env.now) t.invitations
        ≡ some i)
      × (i.id ≡ id)

  abbrev pub without_invitation : ℕ → List UserInvitation
  without_invitation id = keep (λ (i : UserInvitation). not (names_row (pos id) i.id)) t.invitations

  abbrev pub IsNewUser : String → String → ℕ → List User → Type 0
  IsNewUser username password id users =
      (pw_hash : String) × (8 ≤ byte_length password)
      × (crypto.hash password ≡ some pw_hash)
      × (any (has_username username) t.users ≡ false)
      × (users ≡ t.users ++ record { id = id; username = username; password = pw_hash } ∷ [])

  -- The reply sets the token of a session of a new user, and the invitation is gone.
  abbrev pub Joins : String → String → String → Response → AuthTables → Type 0
  Joins invite_token username password r t' =
      (id : ℕ) × (user_id : ℕ) × (token : String) × (csrf_token : String) × IsInvitation
        invite_token id
      × (t'.invitations ≡ without_invitation id)
      × IsNewUser username password user_id t'.users
      × (r ≡ logged_in token)
      × OpensSession token csrf_token user_id env.now t'

  abbrev Invited : String → Result ℕ → AuthTables → Type 0
  Invited invite_token (good id) s = (s ≡ t) × IsInvitation invite_token id
  Invited invite_token (bad e) s = Unit

  abbrev Consumed : String → ℕ → AuthTables → Type 0
  Consumed invite_token id s =
      (s.users ≡ t.users) × (s.invitations ≡ without_invitation id) × IsInvitation invite_token id

  abbrev Created : String → ℕ → String → String → Result ℕ → AuthTables → Type 0
  Created invite_token id username password (good user_id) s =
      IsNewUser username password user_id s.users
      × (s.invitations ≡ without_invitation id)
      × IsInvitation invite_token id
  Created invite_token id username password (bad e) s = Unit

  validate-Invited :
      (invite_token : String) (s : AuthTables)
      → s ≡ t
      → Answers (Invited invite_token) s (validate_user_invitation_token invite_token env.now s)
        × Invited invite_token (bad fault) s
  unfolding validate_user_invitation_token
  validate-Invited invite_token s e =
      rw e (go (find (is_active_invitation invite_token env.now) t.invitations) refl, tt)
    where
      go :
          (o : Option UserInvitation)
          → find (is_active_invitation invite_token env.now) t.invitations ≡ o
          → Answers (Invited invite_token) t (elim o [ none ↦ err no_rows | some i ↦ ok i.id t ])
      go none found = tt
      go (some i) found = (refl, (i, found, refl))

  known_invitation-Invited :
      (invite_token : String) (row : Result ℕ)
      → Triple {M = Memory} t
          (Invited invite_token row)
          (known_invitation row)
          (λ id. Invited invite_token (good id))
  unfolding known_invitation
  known_invitation-Invited invite_token (good id) = Triple-pure id (λ s p. p)
  known_invitation-Invited invite_token (bad no_rows) = Triple-reply bad_request (omega arith)
  known_invitation-Invited invite_token (bad constraint) = Triple-reply internal_error (omega arith)
  known_invitation-Invited invite_token (bad fault) = Triple-reply internal_error (omega arith)

  unless_taken-Created :
      (invite_token : String) (id : ℕ) (username password : String) (created : Result ℕ)
      → Triple {M = Memory} t
          (Created invite_token id username password created)
          (unless_taken created)
          (λ user_id. Created invite_token id username password (good user_id))
  unfolding unless_taken
  unless_taken-Created invite_token id username password (good u) = Triple-pure u (λ s p. p)
  unless_taken-Created invite_token id username password (bad constraint) =
      Triple-reply bad_request (omega arith)
  unless_taken-Created invite_token id username password (bad no_rows) =
      Triple-reply internal_error (omega arith)
  unless_taken-Created invite_token id username password (bad fault) =
      Triple-reply internal_error (omega arith)

  delete-Consumed :
      (invite_token : String) (id : ℕ) (s : AuthTables)
      → Invited invite_token (good id) s
      → Gives (λ _. Consumed invite_token id) (delete_user_invitation (pos id) s)
  unfolding delete_user_invitation
  delete-Consumed invite_token id s (e, i) = rw e (refl, refl, i)

  create_user-Created :
      (invite_token : String) (id : ℕ) (username password pw_hash : String) (s : AuthTables)
      → 8 ≤ byte_length password
      → crypto.hash password ≡ some pw_hash
      → Consumed invite_token id s
      → Answers (Created invite_token id username password) s (create_user eng username pw_hash s)
        × Created invite_token id username password (bad fault) s
  unfolding create_user
  create_user-Created invite_token id username password pw_hash s long hashed
        (users, invitations, i) =
      (
        elim (Bool-cases (any (has_username username) s.users)) [
          | inl e ↦ rw e tt
          | inr e ↦
              let new : any (has_username username) t.users ≡ false =
                ap (any (has_username username)) (sym users) ∙ e in
              rw e (
                (
                  pw_hash,
                  long,
                  hashed,
                  new,
                  ap
                      (λ us.
                        us
                        ++ record {
                          id = eng.fresh (map (λ (u : User). u.id) s.users);
                          username = username;
                          password = pw_hash;
                        }
                          ∷ [])
                      users,
                ),
                invitations,
                i,
              )
        ],
        tt,
      )

  -- An invitation form: an error reply and unchanged tables, the invitation included, or the
  -- cookie of a new session of a new user, whose name was not taken, whose password has eight bytes
  -- at least and is stored as its hash; then the invitation was less than a day old and is gone.
  pub post_invitation-Joins :
      (invite_token username password password_confirmation : String) (randoms : Randoms)
      (m : Memory)
      → Outcome (Joins invite_token username password) t (
          serve
            (post_invitation eng crypto env invite_token username password password_confirmation
              randoms)
            t
            m)
  unfolding post_invitation
  post_invitation-Joins invite_token username password password_confirmation randoms m =
      Serves-serve (Joins invite_token username password) _ t m (
        Serves-Quiet _ _ (Quiet-refuse_if _ _ (omega arith)) λ _.
          Serves-bind _ _ (Triple-begin env) λ _.
            Serves-bind _ _
              (Triple-attempt {Q = Invited invite_token} env _ (validate-Invited invite_token))
              λ row. Serves-bind _ _ (known_invitation-Invited invite_token row) λ id.
                Serves-bind _ _
                  (Triple-exec env {Q = λ _. Consumed invite_token id} _
                    (delete-Consumed invite_token id))
                  λ _.
                    Serves-bind _ _ (Keeps-refuse_if (Consumed invite_token id) _ _ (omega arith))
                      λ _.
                        Serves-bind _ _
                          (Keeps-refuse_if (Consumed invite_token id) _ _ (omega arith))
                          λ _.
                            Serves-bind _ _
                              (Triple-refuse_if
                                {Q = λ _ s. Consumed invite_token id s × (8 ≤ byte_length password)}
                                _ _ (omega arith) (λ e s p. (p, ground arith)))
                              λ _.
                                Serves-bind _ _
                                  (Triple-demand
                                    {Q = λ h s.
                                      Consumed invite_token id s
                                      × (8 ≤ byte_length password)
                                      × (crypto.hash password ≡ some h)}
                                    _ _ (omega arith) (λ h e s p. (p.0, p.1, e)))
                                  λ h.
                                    Serves-bind _ _
                                      (Triple-attempt
                                        {Q = Created invite_token id username password} env _
                                        (λ s p.
                                          create_user-Created invite_token id username password h s
                                            p.1 p.2 p.0))
                                      λ created.
                                        Serves-bind _ _
                                          (unless_taken-Created invite_token id username password
                                            created)
                                          λ user_id.
                                            start_session-Serves eng env t randoms user_id logged_in
                                              λ token csrf_token s s' p o users invitations. (
                                                id,
                                                user_id,
                                                token,
                                                csrf_token,
                                                p.2,
                                                invitations ∙ p.1,
                                                (
                                                  (p.0).0,
                                                  (p.0).1,
                                                  (p.0).2,
                                                  (p.0).3,
                                                  users ∙ (p.0).4,
                                                ),
                                                refl,
                                                o,
                                              ))
