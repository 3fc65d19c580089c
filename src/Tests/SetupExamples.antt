-- ===== src/Tests/SetupExamples.antt =====
-- The theorems on slugs, services and the setup wizard at concrete requests.
use statusnook.Prelude.{List, String, [], false, leb, none, refl, some, true, ◌&&◌, ◌∷◌, ◌≡◌}
use statusnook.World.{serve, status_only, ◌>>=◌}
use statusnook.Slugs.Generate.{Unicode, generate_slug, slug_base}
use statusnook.Slugs.Fresh.{FirstFree, generate_slug-FirstFree}
use statusnook.Services.{ServiceForm, post_create_service}
use statusnook.Services.Laws.{ServiceCreated, post_create_service-ServiceCreated}
use statusnook.Setup.Meta.{MetaState, SetupTables, get_meta_value, update_meta_value, value_of}
use statusnook.Setup.Handlers.{Network, SetupRequest, managed, post_setup_domain, setup_request}
use statusnook.Setup.Mirrors.{Advances, Mirrors, setup_of}
use statusnook.Setup.Domain.{is_domain}
use statusnook.Setup.Routes.{setup_request-Advances}
use statusnook.Setup.Load.{
  StartEnv, load_fields, load_key, load_meta_state, load_ssl, read_meta, write_meta,
}
use statusnook.Setup.LoadLaws.{Loads, Started}
use statusnook.Setup.Restart.{load_meta_state-restart, load_meta_state-starts, succeeds}
use statusnook.Tests.Data.{alert_tables, crypto, engine, env}

abbrev unicode : Unicode
unicode = record { to_lower = λ s. s; is_letter = λ c. leb b'a' c && leb c b'z' }

-- "api" is in use, and "api-1".
abbrev slugs : List String
slugs = "api-1" ∷ "api" ∷ []

generate_slug-FirstFree_example :
    FirstFree (slug_base unicode " api") slugs 0 3 (generate_slug unicode " api" slugs)
generate_slug-FirstFree_example = generate_slug-FirstFree unicode " api" slugs

third_attempt : generate_slug unicode " api" slugs ≡ some "api-2"
unfolding generate_slug
third_attempt = refl

abbrev service_form : ServiceForm
service_form = record { name = "api"; helper = "" }

post_create_service-ServiceCreated_example :
    ServiceCreated engine unicode service_form alert_tables
      (serve (post_create_service env false engine unicode service_form) alert_tables tt)
post_create_service-ServiceCreated_example =
    post_create_service-ServiceCreated env (λ _. refl) engine unicode service_form refl alert_tables

abbrev fresh_tables : SetupTables
fresh_tables = record {
  meta = record { name = "setup"; value = "domain" } ∷ [];
  auth = record { users = []; sessions = []; invitations = [] };
}

abbrev fresh_state : MetaState
fresh_state = record {
  setup = "domain";
  name = "";
  domain = "";
  unconfirmed_domain = "";
  unconfirmed_domain_problem = "";
  config_file_enabled = false;
  ssl = "false";
}

abbrev network : Network
network = record {
  to_lower = λ s. s;
  has_slash = λ _. false;
  is_ip = λ _. false;
  lookup_domain = λ _. some true;
  manage = λ _. managed;
}

abbrev domain_request : SetupRequest
domain_request = record {
  method = "POST";
  path = "/setup/domain";
  domain = "status.example.com";
  account = record { username = ""; password = ""; password_confirmation = "" };
  name = "";
  randoms = record { token = none; csrf_token = none };
}

fresh-Mirrors : Mirrors fresh_tables fresh_state
unfolding value_of
fresh-Mirrors = record { setup = refl; name = refl; domain = refl; unconfirmed = refl }

setup_request-Advances_example :
    Advances fresh_tables
      (serve
        (setup_request env network "dev" engine crypto (λ _. status_only 200) domain_request)
        fresh_tables
        fresh_state).tables
      (serve
        (setup_request env network "dev" engine crypto (λ _. status_only 200) domain_request)
        fresh_tables
        fresh_state).kept
setup_request-Advances_example =
    setup_request-Advances env fresh_tables fresh_state fresh-Mirrors network "dev" engine crypto
      (λ _. status_only 200) domain_request

-- The domain is stored, and the wizard is at the account.
next_step :
    setup_of
      (serve
        (setup_request env network "dev" engine crypto (λ _. status_only 200) domain_request)
        fresh_tables
        fresh_state).tables
    ≡ "account"
unfolding setup_request value_of ◌>>=◌ get_meta_value post_setup_domain is_domain update_meta_value
next_step = refl

abbrev start_env : StartEnv
start_env = record { read_fails = λ _. false; write_fails = λ _. false; random = some "key" }

abbrev restart_env : StartEnv
restart_env = record { read_fails = λ _. false; write_fails = λ _. true; random = none }

abbrev empty_state : MetaState
empty_state = record {
  setup = "";
  name = "";
  domain = "";
  unconfirmed_domain = "";
  unconfirmed_domain_problem = "";
  config_file_enabled = false;
  ssl = "";
}

abbrev keyed_tables : SetupTables
keyed_tables = record fresh_tables {
  meta = record { name = "ssl"; value = "true" } ∷ record { name = "secretKey"; value = "k" } ∷ [];
}

first_start :
    load_meta_state start_env "false" keyed_tables empty_state
    ≡ some (keyed_tables, record empty_state { ssl = "true" })
unfolding load_meta_state load_fields load_ssl load_key read_meta write_meta value_of
first_start = refl

load_meta_state-restart_example :
    Started keyed_tables keyed_tables (record empty_state { ssl = "true" })
    × (load_meta_state restart_env "false" keyed_tables fresh_state
        ≡ some (keyed_tables, record empty_state { ssl = "true" }))
load_meta_state-restart_example =
    load_meta_state-restart start_env restart_env "false" "false" keyed_tables keyed_tables
      empty_state (record empty_state { ssl = "true" }) fresh_state first_start (λ _. refl)

load_meta_state-starts_example :
    (succeeds (load_meta_state start_env "false" fresh_tables empty_state) ≡ true)
    × Loads
        (λ (x : SetupTables × MetaState). Started fresh_tables x.0 x.1)
        (load_meta_state start_env "false" fresh_tables empty_state)
load_meta_state-starts_example =
    load_meta_state-starts start_env (λ _. refl) (λ _. refl) refl "false" fresh_tables empty_state
