-- ===== src/Setup/Laws.antt =====
-- The handlers of the wizard, each at its step: the next step and its memory, or no change.
use mathlib.Core.Path.{subst}
use statusnook.Prelude.{
  Bool, List, Option, String, ap, arith, false, if◌then◌else◌, nat_eq, none, refl, some, string_eq,
  sym, true, ◌==◌, ◌||◌, ◌≡◌,
}
use statusnook.World.{
  Answer, Env, Response, World, done, err, hx_location, no_rows, ok, or_error, pure, reply,
  status_only, ◌>>=◌, ◌>>◌,
}
use statusnook.Setup.Meta.{
  MetaRow, MetaState, SetupTables, get_meta_value, meta_text, on_auth, set_meta, text_or_empty,
  update_meta_value, value_of, with_auth,
}
use statusnook.Setup.Handlers.{
  AccountForm, Certificate, Network, SetupHandler, account_made, acme_problem, failed, managed,
  post_setup_account, post_setup_domain, post_setup_domain_skip, post_setup_name, prepare, store,
  store_domain, with_certificate, with_domain,
}
use statusnook.World.Hoare.{Gives}
use statusnook.Auth.Tables.{AuthTables, Crypto}
use statusnook.World.Stores.{
  Stores, Stores-begin, Stores-commit, Stores-demand, Stores-exec, Stores-recall, Stores-refuse_if,
}
use statusnook.Engine.{Engine}
use statusnook.Auth.Login.{Randoms}
use statusnook.Auth.Queries.{create_session, create_user}
use statusnook.Setup.Mirrors.{
  Advances, Mirrors, account-Advances, domain-Advances, name-Advances, setup_of, skip-Advances,
}

Gives-update_meta_value :
    (name value : String) (s t : SetupTables)
    → s ≡ t
    → Gives (λ _ s'. s' ≡ set_meta name value t) (update_meta_value name value s)
unfolding update_meta_value
Gives-update_meta_value name value s t e = ap (set_meta name value) e

pub Gives-get_meta_value :
    (name : String) (t : SetupTables)
    → Gives (λ v s. (s ≡ t) × (v ≡ meta_text name t)) (get_meta_value name t)
unfolding get_meta_value
Gives-get_meta_value name t = go (value_of name t.meta)
  where
    go : (o : Option String) → Gives (λ v s. (s ≡ t) × (v ≡ text_or_empty o)) (or_error no_rows t o)
    go none = tt
    go (some v) = (refl, refl)

Gives-on_auth :
    {A : Type 0} (statement : AuthTables → Answer AuthTables A) (rows : List MetaRow)
    (s : SetupTables)
    → s.meta ≡ rows
    → Gives (λ _ s'. s'.meta ≡ rows) (on_auth statement s)
unfolding on_auth
Gives-on_auth {A} statement rows s e = go (statement s.auth)
  where
    go : (r : Answer AuthTables A) → Gives (λ _ s'. s'.meta ≡ rows) (with_auth s r)
    go (ok a x) = e
    go (err x) = tt

store-run :
    (change : MetaState → MetaState) (r : Response) (w : World SetupTables MetaState)
    → (store change >> pure r) w ≡ done r (record w { memory = change w.memory })
unfolding store ◌>>=◌
store-run change r w = refl

store_twice-run :
    (change next : MetaState → MetaState) (r : Response) (w : World SetupTables MetaState)
    → (store change >> (store next >> pure r)) w
      ≡ done r (record w { memory = next (change w.memory) })
unfolding store ◌>>=◌
store_twice-run change next r w = refl

module _ (env : Env) (t : SetupTables) (m : MetaState) (mirrors : Mirrors t m) where
  Gives-named :
      (s : SetupTables)
      → setup_of t ≡ "account"
      → s.meta ≡ t.meta
      → Gives
          (λ _ s'. Advances t s' (record m { setup = "name" }))
          (update_meta_value "setup" "name" s)
  unfolding update_meta_value
  Gives-named s at_account e = account-Advances t m mirrors s at_account e

  abbrev pub Wizard : (SetupTables → Type 0) → SetupHandler Response → Type 0
  Wizard P h = Stores t m P h (λ _ s m'. Advances t s m')

  pub post_setup_name-Wizard :
      {P : SetupTables → Type 0} (name : String)
      → setup_of t ≡ "name"
      → Wizard P (post_setup_name env name)
  unfolding post_setup_name
  post_setup_name-Wizard name at_name = Stores-refuse_if _ _ _ (omega arith) λ _.
      Stores-begin env _ (
        Stores-exec (λ _ s. s ≡ set_meta "name" name t) env _ _
          (λ s. Gives-update_meta_value "name" name s t)
          λ _.
            Stores-exec (λ _ s. s ≡ set_meta "setup" "done" (set_meta "name" name t)) env _ _
              (λ s. Gives-update_meta_value "setup" "done" s (set_meta "name" name t))
              λ _.
                Stores-commit env _ (λ m. record m { name = name; setup = "done" })
                  (hx_location "/") (store_twice-run _ _ _)
                  λ s e.
                    subst (λ x. Advances t x (record m { name = name; setup = "done" })) (sym e)
                      (name-Advances t m mirrors name at_name))

  store_domain-Wizard :
      {P : SetupTables → Type 0} (build ssl : String) (domain : String)
      → setup_of t ≡ "domain"
      → Wizard P (store_domain env build ssl domain)
  unfolding store_domain
  store_domain-Wizard build ssl domain at_domain = Stores-begin env _ (
      Stores-exec (λ _ s. s ≡ set_meta "domain" domain t) env _ _
        (λ s. Gives-update_meta_value "domain" domain s t)
        λ _.
          Stores-exec (λ _ s. s ≡ set_meta "setup" "account" (set_meta "domain" domain t)) env _ _
            (λ s. Gives-update_meta_value "setup" "account" s (set_meta "domain" domain t))
            λ _.
              Stores-commit env _ (λ m. record m { setup = "account"; domain = domain })
                (if build == "dev" || ssl == "false"
                  then hx_location "/setup/account"
                  else status_only 200)
                (store_twice-run _ _ _)
                λ s e.
                  subst (λ x. Advances t x (record m { setup = "account"; domain = domain }))
                    (sym e) (domain-Advances t m mirrors domain at_domain))

  prepare-Wizard :
      {P : SetupTables → Type 0} (net : Network) (needed : Bool) (domain : String)
      (k : SetupHandler Response)
      → Wizard P k
      → Wizard P (prepare net needed domain >> k)
  unfolding prepare with_domain with_certificate ◌>>=◌ pure reply
  prepare-Wizard {P} net needed domain k h =
      go needed (net.lookup_domain domain) (net.manage domain)
    where
      certified : (c : Certificate) → Wizard P (with_certificate c >> k)
      certified managed = record { at = λ w c e p. h.at w c e p }
      certified acme_problem = record { at = λ w c e p. (c, e, omega arith) }
      certified failed = record { at = λ w c e p. (c, e, omega arith) }

      found : (o : Option Bool) → Wizard P (with_domain net domain o >> k)
      found none = record { at = λ w c e p. (c, e, omega arith) }
      found (some false) = record { at = λ w c e p. (c, e, omega arith) }
      found (some true) = certified (net.manage domain)

      go :
          (b : Bool) (o : Option Bool) (c : Certificate)
          → Wizard P ((if b then with_domain net domain o else pure tt) >> k)
      go true o c = found o
      go false o c = record { at = λ w c e p. h.at w c e p }

  pub post_setup_domain-Wizard :
      {P : SetupTables → Type 0} (net : Network) (build : String) (domain : String)
      → setup_of t ≡ "domain"
      → Wizard P (post_setup_domain env net build domain)
  unfolding post_setup_domain
  post_setup_domain-Wizard net build domain at_domain = Stores-refuse_if _ _ _ (omega arith) λ _.
      Stores-refuse_if _ _ _ (omega arith) λ _. Stores-refuse_if _ _ _ (omega arith) λ _.
        Stores-refuse_if _ _ _ (omega arith) λ _. Stores-recall _ (
          prepare-Wizard net _ _ _
            (store_domain-Wizard build m.ssl (net.to_lower domain) at_domain))

  pub post_setup_domain_skip-Wizard :
      {P : SetupTables → Type 0} (net : Network) (form_domain : String)
      → setup_of t ≡ "domain"
      → Wizard P (post_setup_domain_skip env net form_domain)
  unfolding post_setup_domain_skip
  post_setup_domain_skip-Wizard net form_domain at_domain =
      Stores-refuse_if _ _ _ (omega arith) λ _. Stores-refuse_if _ _ _ (omega arith) λ _.
        Stores-begin env _ (
          Stores-exec (λ _ s. s ≡ set_meta "unconfirmedDomain" domain t) env _ _
            (λ s. Gives-update_meta_value "unconfirmedDomain" domain s t)
            λ _.
              Stores-exec
                (λ _ s. s ≡ set_meta "setup" "account" (set_meta "unconfirmedDomain" domain t)) env
                _ _
                (λ s.
                  Gives-update_meta_value "setup" "account" s
                    (set_meta "unconfirmedDomain" domain t))
                λ _.
                  Stores-commit env _
                    (λ m. record m { setup = "account"; unconfirmed_domain = domain })
                    (hx_location "/setup/account") (store_twice-run _ _ _)
                    λ s e.
                      subst
                        (λ x.
                          Advances t x
                            (record m { setup = "account"; unconfirmed_domain = domain }))
                        (sym e) (skip-Advances t m mirrors domain at_domain))
    where
      domain : String
      domain = net.to_lower form_domain

  pub post_setup_account-Wizard :
      {P : SetupTables → Type 0} (eng : Engine) (crypto : Crypto) (form : AccountForm)
      (randoms : Randoms)
      → setup_of t ≡ "account"
      → Wizard P (post_setup_account env eng crypto form randoms)
  unfolding post_setup_account
  post_setup_account-Wizard eng crypto form randoms at_account =
      Stores-refuse_if _ _ _ (omega arith) λ _. Stores-refuse_if _ _ _ (omega arith) λ _.
        Stores-refuse_if _ _ _ (omega arith) λ _. Stores-demand _ _ _ (omega arith) λ pw_hash _.
          Stores-begin env _ (
            Stores-exec (λ _ s. s.meta ≡ t.meta) env _ _
              (λ s e.
                Gives-on_auth (create_user eng form.username pw_hash) t.meta s (ap (λ x. x.meta) e))
              λ user_id. Stores-demand _ _ _ (omega arith) λ token _.
                Stores-demand _ _ _ (omega arith) λ csrf_token _.
                  Stores-exec (λ _ s. s.meta ≡ t.meta) env _ _
                    (λ s e.
                      Gives-on_auth (create_session eng token csrf_token user_id env.now) t.meta s
                        e)
                    λ _.
                      Stores-exec (λ _ s. Advances t s (record m { setup = "name" })) env _ _
                        (λ s e. named s e)
                        λ _.
                          Stores-commit env _ (λ m. record m { setup = "name" })
                            (account_made token) (store-run _ _) λ s e. e)
    where
      named :
          (s : SetupTables)
          → s.meta ≡ t.meta
          → Gives
              (λ _ s'. Advances t s' (record m { setup = "name" }))
              (update_meta_value "setup" "name" s)
      named s e = Gives-named s at_account e
