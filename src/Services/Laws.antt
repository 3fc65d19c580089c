-- ===== src/Services/Laws.antt =====
-- A new service never fails for its slug.
use statusnook.Prelude.{
  String, [], ap, false, length, map, nat_eq, refl, some, string_eq, suc, ◌++◌, ◌+◌, ◌==◌, ◌∙◌, ◌∷◌,
  ◌≡◌,
}
use statusnook.Alerts.Tables.{AlertTables, Service}
use statusnook.Slugs.Generate.{Unicode, candidate, generate_slug, has, slug_base}
use statusnook.Slugs.Fresh.{FirstFree, generate_slug-FirstFree}
use statusnook.Services.{ServiceForm, insert_service, list_services, post_create_service, slugs_of}
use statusnook.World.{Env, Served, hx_location, ok, serve}
use statusnook.Engine.{Engine}
use statusnook.World.Steps.{
  NoFaults, begin-bind_ok, commit-bind_ok, demand-bind_some, exec-bind_ok, pure-run,
  refuse_if-bind_false, served,
}

-- A service's row as CreateService writes it.
abbrev pub with_service : Engine → String → ServiceForm → AlertTables → AlertTables
with_service eng slug form t = record t {
  services =
      t.services
      ++ record {
        id = eng.fresh (map (λ (s : Service). s.id) t.services);
        slug = slug;
        name = form.name;
        helper_text = form.helper;
      }
        ∷ [];
}

insert_service_ok :
    (eng : Engine) (slug : String) (form : ServiceForm) (t : AlertTables)
    → has (slugs_of t.services) slug ≡ false
    → insert_service eng slug form.name form.helper t ≡ ok tt (with_service eng slug form t)
unfolding insert_service
insert_service_ok eng slug form t e = rw (e) refl

-- How the creation of a service ends: with the first slug that is free.
pub record ServiceCreated (eng : Engine) (unicode : Unicode) (form : ServiceForm) (t : AlertTables)
    (outcome : Served AlertTables (Unit {0})) : Type 0 where
  pub slug : String
  pub is_slug : generate_slug unicode form.name (slugs_of t.services) ≡ some slug
  pub unused : has (slugs_of t.services) slug ≡ false
  pub is_outcome : outcome ≡ record {
    sent = hx_location "/admin/services";
    tables = with_service eng slug form t;
    kept = tt;
  }

-- With a name, without a configuration file and when no database call fails, postCreateService
-- stores exactly the new service, under a slug that none has, and redirects: it never fails
-- for the slug's uniqueness.
pub post_create_service-ServiceCreated :
    (env : Env)
    → NoFaults env
    → (eng : Engine) (unicode : Unicode) (form : ServiceForm) → (form.name == "") ≡ false
    → (t : AlertTables)
    → ServiceCreated eng unicode form t
        (serve (post_create_service env false eng unicode form) t tt)
unfolding post_create_service list_services
post_create_service-ServiceCreated env quiet eng unicode form named t = record {
  slug = slug;
  is_slug = free.is_found;
  unused = free.unused;
  is_outcome = ap served (
      refuse_if-bind_false _ _ _ _ refl
      ∙ refuse_if-bind_false _ _ _ _ named
      ∙ begin-bind_ok env _ _ (quiet _)
      ∙ exec-bind_ok env _ _ _ _ _ (quiet _) refl
      ∙ demand-bind_some _ slug _ _ _ free.is_found
      ∙ exec-bind_ok env _ _ _ _ _ (quiet _) inserted
      ∙ commit-bind_ok env _ _ (quiet _)
      ∙ pure-run _ _);
}
  where
    free :
        FirstFree
          (slug_base unicode form.name)
          (slugs_of t.services)
          0
          (suc (length (slugs_of t.services)))
          (generate_slug unicode form.name (slugs_of t.services))
    free = generate_slug-FirstFree unicode form.name (slugs_of t.services)

    slug : String
    slug = candidate (slug_base unicode form.name) (0 + free.attempts)

    inserted :
        insert_service eng slug form.name form.helper t ≡ ok tt (with_service eng slug form t)
    inserted = insert_service_ok eng slug form t free.unused
