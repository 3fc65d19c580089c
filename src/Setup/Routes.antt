-- ===== src/Setup/Routes.antt =====
-- The middleware and the routes of /setup: a request moves the wizard one step on, or not at all.
use mathlib.Core.Path.{subst}
use statusnook.Prelude.{
  Bool, Bool-cases, Option, String, arith, eq_iff, false, if◌then◌else◌, inl, inr, nat_eq, none,
  not, refl, some, string_eq, sym, true, ◌&&◌, ◌==◌, ◌||◌, ◌∙◌, ◌≡◌, ◌⊎◌,
}
use statusnook.World.{Env, Response, pure, redirect, serve}
use statusnook.Setup.Meta.{MetaState, SetupTables, get_meta_value}
use statusnook.Setup.Handlers.{
  Network, SetupRequest, at_endpoint, at_step, endpoint, post_setup_account, post_setup_domain,
  post_setup_domain_skip, post_setup_name, setup_request, setup_route,
}
use statusnook.World.Hoare.{Gives}
use statusnook.Auth.Tables.{Crypto}
use statusnook.World.Stores.{
  Stores-begin, Stores-commit_same, Stores-exec, Stores-given, Stores-pure, Stores-serve,
}
use statusnook.Engine.{Engine}
use statusnook.Setup.Mirrors.{Advances, Mirrors, same, setup_of}
use statusnook.Setup.Laws.{
  Gives-get_meta_value, Wizard, post_setup_account-Wizard, post_setup_domain-Wizard,
  post_setup_domain_skip-Wizard, post_setup_name-Wizard,
}

module _ (env : Env) (t : SetupTables) (m : MetaState) (mirrors : Mirrors t m) where
  -- The step that a route's path belongs to.
  record Belongs (path : String) : Type 0 where
    domain : (path == "/setup/domain") ≡ true → setup_of t ≡ "domain"
    skip : (path == "/setup/skip-domain") ≡ true → setup_of t ≡ "domain"
    account : (path == "/setup/account") ≡ true → setup_of t ≡ "account"
    name : (path == "/setup/name") ≡ true → setup_of t ≡ "name"

  module _ (net : Network) (build : String) (eng : Engine) (crypto : Crypto)
      (page : SetupRequest → Response) (r : SetupRequest) where
    setup_route-Wizard :
        {P : SetupTables → Type 0}
        → Belongs r.path
        → Wizard env t m mirrors P (setup_route env net build eng crypto page r)
    unfolding setup_route
    setup_route-Wizard {P} h =
        go (r.method == "POST" && r.path == "/setup/domain")
          (r.method == "POST" && r.path == "/setup/skip-domain")
          (r.method == "POST" && r.path == "/setup/account")
          (r.method == "POST" && r.path == "/setup/name") (λ e. h.domain (ground (arith, e)))
          (λ e. h.skip (ground (arith, e))) (λ e. h.account (ground (arith, e)))
          (λ e. h.name (ground (arith, e)))
      where
        go :
            (a b c d : Bool)
            → (a ≡ true → setup_of t ≡ "domain")
            → (b ≡ true → setup_of t ≡ "domain")
            → (c ≡ true → setup_of t ≡ "account")
            → (d ≡ true → setup_of t ≡ "name")
            → Wizard env t m mirrors P (
                if a
                then post_setup_domain env net build r.domain
                else if b
                then post_setup_domain_skip env net r.domain
                else if c
                then post_setup_account env eng crypto r.account r.randoms
                else if d
                then post_setup_name env r.name
                else pure (page r))
        go true b c d x y z u = post_setup_domain-Wizard env t m mirrors net build r.domain (x refl)
        go false true c d x y z u =
            post_setup_domain_skip-Wizard env t m mirrors net r.domain (y refl)
        go false false true d x y z u =
            post_setup_account-Wizard env t m mirrors eng crypto r.account r.randoms (z refl)
        go false false false true x y z u = post_setup_name-Wizard env t m mirrors r.name (u refl)
        go false false false false x y z u = Stores-pure (page r) (same t m mirrors)

    at_url-Wizard :
        {P : SetupTables → Type 0} (url : String)
        → Belongs url
        → Wizard env t m mirrors P (at_endpoint env net build eng crypto page r (some url))
    unfolding at_endpoint
    at_url-Wizard {P} url h = go (Bool-cases (r.path == "/setup" || not (r.path == url)))
      where
        go :
            ((r.path == "/setup" || not (r.path == url)) ≡ true)
              ⊎ ((r.path == "/setup" || not (r.path == url)) ≡ false)
            → Wizard env t m mirrors P (at_endpoint env net build eng crypto page r (some url))
        go (inl e) = rw (e) (Stores-pure _ (same t m mirrors))
        go (inr e) =
            rw (e) (setup_route-Wizard (subst Belongs (ground (arith, e, eq_iff r.path url)) h))

    at_endpoint-Wizard :
        {P : SetupTables → Type 0} (v : String)
        → v ≡ setup_of t
        → (v == "done") ≡ false
        → Wizard env t m mirrors P (at_endpoint env net build eng crypto page r (endpoint v))
    unfolding at_endpoint
    at_endpoint-Wizard {P} v is_step not_done =
        go (v == "domain") (v == "account") (v == "name")
          (λ e. sym is_step ∙ ground (arith, e, eq_iff v "domain"))
          (λ e. sym is_step ∙ ground (arith, e, eq_iff v "account"))
          (λ e. sym is_step ∙ ground (arith, e, eq_iff v "name"))
      where
        chosen : Bool → Bool → Bool → Option String
        chosen a b c =
            if a
            then some "/setup/domain"
            else if b
            then some "/setup/account"
            else if c
            then some "/setup/name"
            else if v == "done"
            then some "/"
            else none

        go :
            (a b c : Bool)
            → (a ≡ true → setup_of t ≡ "domain")
            → (b ≡ true → setup_of t ≡ "account")
            → (c ≡ true → setup_of t ≡ "name")
            → Wizard env t m mirrors P (at_endpoint env net build eng crypto page r (chosen a b c))
        go true b c x y z = at_url-Wizard "/setup/domain" (record {
          domain = λ _. x refl;
          skip = λ e. ground (arith, e);
          account = λ e. ground (arith, e);
          name = λ e. ground (arith, e);
        })
        go false true c x y z = at_url-Wizard "/setup/account" (record {
          domain = λ e. ground (arith, e);
          skip = λ e. ground (arith, e);
          account = λ _. y refl;
          name = λ e. ground (arith, e);
        })
        go false false true x y z = at_url-Wizard "/setup/name" (record {
          domain = λ e. ground (arith, e);
          skip = λ e. ground (arith, e);
          account = λ e. ground (arith, e);
          name = λ _. z refl;
        })
        go false false false x y z = rw (not_done) (Stores-pure _ (same t m mirrors))

    Belongs-path : (url : String) → (r.path == url) ≡ true → Belongs url → Belongs r.path
    Belongs-path url e h = subst Belongs (ground (arith, e, eq_iff r.path url)) h

    at_step-Wizard :
        {P : SetupTables → Type 0} (v : String)
        → v ≡ setup_of t
        → Wizard env t m mirrors P (at_step env net build eng crypto page r v)
    unfolding at_step
    at_step-Wizard {P} v is_step =
        go (v == "done") (r.path == "/setup/statusnook")
          (v == "domain" && r.path == "/setup/skip-domain") refl refl refl
      where
        go :
            (a b c : Bool)
            → (v == "done") ≡ a
            → (r.path == "/setup/statusnook") ≡ b
            → (v == "domain" && r.path == "/setup/skip-domain") ≡ c
            → Wizard env t m mirrors P (
                if a
                then pure (redirect "/")
                else if b
                then setup_route env net build eng crypto page r
                else if c
                then setup_route env net build eng crypto page r
                else at_endpoint env net build eng crypto page r (endpoint v))
        go true b c x y z = Stores-pure _ (same t m mirrors)
        go false true c x y z = setup_route-Wizard (
            Belongs-path "/setup/statusnook" y (record {
              domain = λ e. ground (arith, e);
              skip = λ e. ground (arith, e);
              account = λ e. ground (arith, e);
              name = λ e. ground (arith, e);
            }))
        go false false true x y z = setup_route-Wizard (
            Belongs-path "/setup/skip-domain" (ground (arith, z)) (record {
              domain = λ e. ground (arith, e);
              skip = λ e. sym is_step ∙ ground (arith, z, eq_iff v "domain");
              account = λ e. ground (arith, e);
              name = λ e. ground (arith, e);
            }))
        go false false false x y z = at_endpoint-Wizard v is_step x

    setup_request-Wizard :
        Wizard env t m mirrors (λ s. s ≡ t) (setup_request env net build eng crypto page r)
    unfolding setup_request
    setup_request-Wizard = Stores-begin env _ (
        Stores-exec (λ v s. (s ≡ t) × (v ≡ setup_of t)) env _ _
          (λ s e.
            subst (λ x. Gives (λ v s'. (s' ≡ t) × (v ≡ setup_of t)) (get_meta_value "setup" x))
              (sym e) (Gives-get_meta_value "setup" t))
          λ v.
            Stores-given (λ s p. p.1)
              λ is_step. Stores-commit_same env _ (λ s p. p.0) (at_step-Wizard v is_step))

    -- If memory and table agree, then so after any request under /setup, whatever fails,
    -- and the wizard is at the same step or at the next one of domain, account, name,
    -- done; users change only in the step that makes the account.
    pub setup_request-Advances :
        Advances t
          (serve (setup_request env net build eng crypto page r) t m).tables
          (serve (setup_request env net build eng crypto page r) t m).kept
    setup_request-Advances =
        Stores-serve (setup_request env net build eng crypto page r) setup_request-Wizard
          (λ _ _. same t m mirrors)
