-- ===== src/Services.antt =====
-- services.go and servicesdb.go: the services that alerts name, and the handlers that create, edit
-- and delete them. The tables are those of alerts, whose rows of alert_service name a service.
pub mod Laws
use statusnook.Prelude.{
  Bool, List, String, [], if◌then◌else◌, keep, map, nat_eq, not, rewrite, string_eq, ◌++◌, ◌==◌,
  ◌∷◌,
}
use statusnook.Text.{names_row, ℤ}
use statusnook.World.{
  Answer, Env, Response, bad_request, begin, commit, constraint, demand, err, exec, hx_location,
  internal_error, ok, pure, refuse_if, ◌>>=◌, ◌>>◌,
}
use statusnook.Engine.{Engine}
use statusnook.Alerts.Tables.{AlertService, AlertTables, Service}
use statusnook.Alerts.Handlers.{AlertHandler, parse_id}
use statusnook.Slugs.Generate.{Unicode, generate_slug, has}

pub record ServiceForm : Type 0 where
  pub name : String
  pub helper : String

abbrev pub slugs_of : List Service → List String
slugs_of services = map (λ (s : Service). s.slug) services

-- ListServices
unfoldable pub list_services : AlertTables → Answer AlertTables (List Service)
list_services t = ok t.services t

-- CreateService: the slug is unique.
unfoldable pub insert_service :
    Engine → String → String → String → AlertTables → Answer AlertTables (Unit {0})
insert_service eng slug name helper_text t =
    if has (slugs_of t.services) slug
    then err constraint
    else ok tt (record t {
      services =
          t.services
          ++ record {
            id = eng.fresh (map (λ (s : Service). s.id) t.services);
            slug = slug;
            name = name;
            helper_text = helper_text;
          }
            ∷ [];
    })

-- DeleteServiceByID, with the rows of alert_service that name it.
unfoldable pub delete_service_row : ℤ → AlertTables → Answer AlertTables (Unit {0})
delete_service_row id t = ok tt (record t {
  services = keep (λ (s : Service). not (names_row id s.id)) t.services;
  alert_services = keep (λ (l : AlertService). not (names_row id l.service_id)) t.alert_services;
})

-- EditService
unfoldable pub update_service : ℤ → String → String → AlertTables → Answer AlertTables (Unit {0})
update_service id name helper_text t = ok tt (record t {
  services =
      rewrite (λ (s : Service). names_row id s.id)
        (λ s. record s { name = name; helper_text = helper_text }) t.services;
})

-- `config_file` is metaConfigFileEnabled.Load(): the services then come from the file alone.
module _ (env : Env) (config_file : Bool) where
  unfoldable pub post_create_service : Engine → Unicode → ServiceForm → AlertHandler Response
  post_create_service eng unicode form = do
    refuse_if config_file bad_request
    refuse_if (form.name == "") bad_request
    begin env
    services ← exec env list_services
    slug ← demand (generate_slug unicode form.name (slugs_of services)) internal_error
    exec env (insert_service eng slug form.name form.helper)
    commit env
    pure (hx_location "/admin/services")

  unfoldable pub delete_service : String → AlertHandler Response
  delete_service id_param = do
    refuse_if config_file bad_request
    id ← parse_id id_param
    begin env
    exec env (delete_service_row id)
    commit env
    pure (hx_location "/admin/services")

  unfoldable pub post_edit_service : String → ServiceForm → AlertHandler Response
  post_edit_service id_param form = do
    refuse_if config_file bad_request
    id ← parse_id id_param
    refuse_if (form.name == "") bad_request
    begin env
    exec env (update_service id form.name form.helper)
    commit env
    pure (hx_location "/admin/services")
