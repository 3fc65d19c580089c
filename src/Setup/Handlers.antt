-- ===== src/Setup/Handlers.antt =====
-- The wizard of setup.go, and the middleware of router.go on /setup.
use statusnook.Prelude.{
  Bool, Option, String, false, if◌then◌else◌, ltb, nat_eq, none, not, some, string_eq, true, ◌&&◌,
  ◌==◌, ◌||◌,
}
use statusnook.Text.{byte_length}
use statusnook.World.{
  Env, H, Response, bad_request, begin, commit, demand, exec, hx_location, internal_error, pure,
  recall, redirect, refuse_if, remember, reply, status_only, ◌>>=◌, ◌>>◌,
}
use statusnook.Engine.{Engine}
use statusnook.Auth.Tables.{Crypto}
use statusnook.Auth.Queries.{create_session, create_user}
use statusnook.Auth.Login.{Randoms}
use statusnook.Setup.Domain.{is_domain}
use statusnook.Setup.Meta.{MetaState, SetupTables, get_meta_value, on_auth, update_meta_value}

abbrev pub SetupHandler : Type 0 → Type 0
SetupHandler A = H SetupTables MetaState A

-- metaX.Store(…), of one or more of the atomics
unfoldable pub store : (MetaState → MetaState) → SetupHandler (Unit {0})
store change = do m ← recall; remember (change m)

-- certmagic.ManageSync: the certificate is there, or an acme.Problem, or another error.
pub data Certificate : Type 0 where
  managed acme_problem failed : Certificate

-- What the handlers call outside: strings.ToLower, strings.Contains with "/", net.ParseIP,
-- lookupDomain, which asks the resolver and may fail, and certmagic.ManageSync.
pub record Network : Type 0 where
  pub to_lower : String → String
  pub has_slash : String → Bool
  pub is_ip : String → Bool
  pub lookup_domain : String → Option Bool
  pub manage : String → Certificate

unfoldable pub with_certificate : Certificate → SetupHandler (Unit {0})
with_certificate managed = pure tt
with_certificate acme_problem = reply bad_request
with_certificate failed = reply internal_error

unfoldable pub with_domain : Network → String → Option Bool → SetupHandler (Unit {0})
unfolding with_certificate
with_domain net domain none = reply internal_error
with_domain net domain (some false) = reply bad_request
with_domain net domain (some true) = with_certificate (net.manage domain)

-- The block of a release with ssl.
unfoldable pub prepare : Network → Bool → String → SetupHandler (Unit {0})
unfolding with_domain
prepare net needed domain =
    if needed then with_domain net domain (net.lookup_domain domain) else pure tt

pub record AccountForm : Type 0 where
  pub username : String
  pub password : String
  pub password_confirmation : String

-- The cookie of the new session, and the HX-Location header.
abbrev pub account_made : String → Response
account_made token = record { status = 200; location = some "/setup/name"; cookie = some token }

module _ (env : Env) where
  -- postSetupDomain from the transaction on; `build` is BUILD and `ssl` is metaSSL.
  unfoldable pub store_domain : String → String → String → SetupHandler Response
  unfolding store
  store_domain build ssl domain = do
    begin env
    exec env (update_meta_value "domain" domain)
    exec env (update_meta_value "setup" "account")
    commit env
    store λ m. record m { setup = "account" }
    store λ m. record m { domain = domain }
    pure
        (if build == "dev" || ssl == "false" then hx_location "/setup/account" else status_only 200)

  unfoldable pub post_setup_domain : Network → String → String → SetupHandler Response
  unfolding prepare store_domain
  post_setup_domain net build form_domain = do
    let domain = net.to_lower form_domain
    refuse_if (domain == "") bad_request
    refuse_if (net.has_slash domain) bad_request
    refuse_if (net.is_ip domain) bad_request
    refuse_if (not (is_domain domain)) bad_request
    m ← recall
    prepare net (build == "release" && m.ssl == "true") domain
    store_domain build m.ssl domain

  unfoldable pub post_setup_domain_skip : Network → String → SetupHandler Response
  unfolding store
  post_setup_domain_skip net form_domain = do
    let domain = net.to_lower form_domain
    refuse_if (domain == "") bad_request
    refuse_if (not (is_domain domain)) bad_request
    begin env
    exec env (update_meta_value "unconfirmedDomain" domain)
    exec env (update_meta_value "setup" "account")
    commit env
    store λ m. record m { setup = "account" }
    store λ m. record m { unconfirmed_domain = domain }
    pure (hx_location "/setup/account")

  unfoldable pub post_setup_account :
      Engine → Crypto → AccountForm → Randoms → SetupHandler Response
  unfolding store
  post_setup_account eng crypto form randoms = do
    refuse_if (form.username == "") bad_request
    refuse_if (not (form.password == form.password_confirmation)) bad_request
    refuse_if (ltb (byte_length form.password) 8) bad_request
    pw_hash ← demand (crypto.hash form.password) internal_error
    begin env
    user_id ← exec env (on_auth (create_user eng form.username pw_hash))
    token ← demand randoms.token internal_error
    csrf_token ← demand randoms.csrf_token internal_error
    exec env (on_auth (create_session eng token csrf_token user_id env.now))
    exec env (update_meta_value "setup" "name")
    commit env
    store λ m. record m { setup = "name" }
    pure (account_made token)

  unfoldable pub post_setup_name : String → SetupHandler Response
  unfolding store
  post_setup_name name = do
    refuse_if (name == "") bad_request
    begin env
    exec env (update_meta_value "name" name)
    exec env (update_meta_value "setup" "done")
    commit env
    store λ m. record m { name = name }
    store λ m. record m { setup = "done" }
    pure (hx_location "/")

-- A request under /setup, with the forms' values.
pub record SetupRequest : Type 0 where
  pub method : String
  pub path : String
  pub domain : String
  pub account : AccountForm
  pub name : String
  pub randoms : Randoms

-- endpoints[v]
abbrev pub endpoint : String → Option String
endpoint v =
    if v == "domain"
    then some "/setup/domain"
    else if v == "account"
    then some "/setup/account"
    else if v == "name"
    then some "/setup/name"
    else if v == "done"
    then some "/"
    else none

-- The middleware's answer to a request that does not belong to the wizard's step.
abbrev pub misplaced : SetupRequest → String → Response
misplaced r url = if r.method == "GET" then redirect url else bad_request

module _ (env : Env) (net : Network) (build : String) (eng : Engine) (crypto : Crypto)
    (page : SetupRequest → Response) where
  -- The routes of /setup that change something; the pages, and what no route matches, do not.
  unfoldable pub setup_route : SetupRequest → SetupHandler Response
  setup_route r =
      if r.method == "POST" && r.path == "/setup/domain"
      then post_setup_domain env net build r.domain
      else if r.method == "POST" && r.path == "/setup/skip-domain"
      then post_setup_domain_skip env net r.domain
      else if r.method == "POST" && r.path == "/setup/account"
      then post_setup_account env eng crypto r.account r.randoms
      else if r.method == "POST" && r.path == "/setup/name"
      then post_setup_name env r.name
      else pure (page r)

  unfoldable pub at_endpoint : SetupRequest → Option String → SetupHandler Response
  unfolding setup_route
  at_endpoint r none = pure internal_error
  at_endpoint r (some url) =
      if r.path == "/setup" || not (r.path == url) then pure (misplaced r url) else setup_route r

  unfoldable pub at_step : SetupRequest → String → SetupHandler Response
  unfolding at_endpoint
  at_step r v =
      if v == "done"
      then pure (redirect "/")
      else if r.path == "/setup/statusnook"
      then setup_route r
      else if v == "domain" && r.path == "/setup/skip-domain"
      then setup_route r
      else at_endpoint r (endpoint v)

  -- The middleware: the step is read from the table, and not from the memory.
  unfoldable pub setup_request : SetupRequest → SetupHandler Response
  unfolding at_step
  setup_request r = do begin env; v ← exec env (get_meta_value "setup"); commit env; at_step r v
