-- ===== src/Platform/Services.antt =====
-- internal/platformctl/render.go: the operations on services, and finalizeTeam.
use steadystate.Prelude.{
  Bytes, bytes, bytes_eq, sort_strings, Bool, false, not, ◌&&◌, ◌||◌, Option, none, some, List, [],
  ◌∷◌, ◌++◌, if◌then◌else◌, Result, ok, err, is_some, any,
}
use steadystate.Prelude.Int.{pos}
use steadystate.Platform.Errors.{Error, ◌>>=◌, ◌>>◌, on_found}
use steadystate.Platform.Named.{find_named, replace_named, sort_named}
use steadystate.Platform.Catalog.Data.{
  CatalogService, CatalogApplication, CatalogDatabase, CatalogTenant,
}
use steadystate.Platform.Catalog.Validation.{is_empty, active, retiring, template_components}
use steadystate.Platform.Request.{ChangeParameters, service_scaffold}
use steadystate.Platform.Files.{Repository}
use steadystate.Platform.Manifests.{
  Changes, Tools, write_team, write_application, approve_manifest, service_path, team_manifest_path,
  application_manifest_path, database_manifest_path,
}
use steadystate.Platform.Storage.{write_database}
use steadystate.Platform.Sources.{
  ServiceFiles, service_image_tag, write_service_source, write_service_version,
}
use steadystate.Platform.Operations.{
  Tenants, Rendered, with_tenants, tenant_name, application_name, database_name, service_name,
  require, refuse, is_active, tenant_of, active_tenant, database_exists, store, new_application,
  new_database, new_tenant, retire_application, retire_database, retire_entry,
}

-- serviceEntry.
unfoldable pub service_entry : CatalogTenant → Bytes → Result Error CatalogService
service_entry tenant name =
    require (find_named service_name name tenant.services) "service %q is not present in Team %q"
      (name ∷ tenant.name ∷ [])

abbrev pub has_service : Bytes → CatalogTenant → Bool
has_service name t = is_some (find_named service_name name t.services)

-- ChangeParameters{}.
abbrev pub no_parameters : ChangeParameters
no_parameters = record {
  team = [];
  name = [];
  owners = [];
  allowed_repositories = [];
  cpu_quota = [];
  memory_quota = [];
  owner = [];
  image_repository = [];
  image_tag = [];
  port = pos 0;
  min_replicas = pos 0;
  max_replicas = pos 0;
  database_ref = [];
  instances = pos 0;
  storage_size = [];
  backup_schedule = [];
  backup_retention = [];
  source_server_name = [];
  target_time = [];
  deletion_request = [];
  approval_revision = [];
  force = false;
  acknowledge_data_loss = false;
  template = [];
  version = [];
  create_team = false;
  with_database = false;
}

abbrev repository_name : Bytes
repository_name = bytes "ghcr.io/saadabdullaah/steadystate-services"

-- teamParameters of scaffoldService.
unfoldable pub team_parameters : Bytes → ChangeParameters
team_parameters team = record no_parameters {
  name = team;
  owners = (team ++ bytes "-owners") ∷ [];
  allowed_repositories = repository_name ∷ [];
  cpu_quota = bytes "2";
  memory_quota = bytes "4Gi";
}

-- databaseParameters of scaffoldService.
unfoldable pub database_parameters : Bytes → Bytes → ChangeParameters
database_parameters team name = record no_parameters {
  team = team;
  name = name;
  instances = pos 1;
  storage_size = bytes "1Gi";
  backup_schedule = bytes "0 0 2 * * *";
  backup_retention = bytes "7d";
}

-- The service of scaffoldService.
unfoldable pub new_service : ChangeParameters → Bytes → CatalogService
new_service p database_ref = record {
  name = p.name;
  path = service_path p.name;
  template = p.template;
  version = p.version;
  components = template_components p.name p.template;
  database_ref = database_ref;
  owns_team = p.create_team;
  owns_database = p.with_database;
  lifecycle = bytes "Scaffolded";
  deletion_request = [];
}

-- The parameters of activateService for a component.
unfoldable pub component_parameters : ChangeParameters → CatalogService → Bytes → ChangeParameters
component_parameters p service component = record no_parameters {
  team = p.team;
  name = component;
  owner = p.team ++ bytes "-owners";
  image_repository = repository_name;
  image_tag = service_image_tag service component p.version;
  port = pos 8080;
  min_replicas = pos 1;
  max_replicas = pos 3;
  database_ref =
      if bytes_eq service.template (bytes "full-stack")
        && bytes_eq component (p.name ++ bytes "-api")
      then service.database_ref
      else [];
}

module _ (tools : Tools) (repository : Repository) (service_files : ServiceFiles) where
  -- `if !p.CreateTeam || p.Team != p.Name { return err }`.
  unfoldable pub refuse_absent : ChangeParameters → Error → Option Error
  refuse_absent p e = if not p.create_team || not (bytes_eq p.team p.name) then some e else none

  -- The Team of scaffoldService: the one that is there, or a new one.
  unfoldable pub ensure_team :
      ChangeParameters → Tenants → Result Error CatalogTenant → Result Error Rendered
  unfolding team_parameters refuse_absent
  ensure_team p tenants (ok tenant) =
      refuse p.create_team "Team %q already exists; omit --create-team" (p.team ∷ [])
      >> ok (tenants, [])
  ensure_team p tenants (err e) =
      refuse_absent p e
      >> with_tenants
          (sort_named tenant_name
            (tenants ++ (new_tenant p.team (sort_strings ((team_parameters p.team).owners)) ∷ [])))
          (write_team tools repository p.team (team_parameters p.team) [])

  -- The Database of scaffoldService: the tenant with it, and the changes.
  unfoldable pub add_database :
      ChangeParameters → CatalogTenant → Changes → Result Error (CatalogTenant × Changes)
  unfolding database_parameters
  add_database p tenant changes =
      if p.with_database
      then refuse (database_exists tenant p.name) "Database %q already exists" (p.name ∷ [])
        >> (write_database tools repository service_scaffold p.team
              (database_parameters p.team p.name) changes
            >>= λ written. ok (
              record tenant {
                databases =
                    sort_named database_name (tenant.databases ++ (new_database p.name ∷ []));
              },
              written,
            ))
      else ok (tenant, changes)

  -- scaffoldService.
  unfoldable pub scaffold_service : ChangeParameters → Tenants → Result Error Rendered
  unfolding ensure_team add_database new_service
  scaffold_service p tenants =
      refuse (any (has_service p.name) tenants) "service %q already exists" (p.name ∷ [])
      >> ensure_team p tenants (tenant_of p.team tenants)
      >>= λ (present, changes). tenant_of p.team present >>= λ tenant.
          refuse (not (is_active tenant.lifecycle)) "Team %q is retiring" (p.team ∷ [])
          >> add_database p tenant changes
          >>= λ (stocked, written).
              let service = new_service p (if p.with_database then p.name else []) in
              with_tenants
                (store
                  (record stocked {
                    services = sort_named service_name (stocked.services ++ (service ∷ []));
                  })
                  present)
                (write_service_source tools repository service_files service written)

  -- The entry of a component in the catalog.
  unfoldable pub bind_component :
      ChangeParameters
      → List CatalogApplication
      → Option CatalogApplication
      → Result Error (List CatalogApplication)
  bind_component q applications none =
      ok (applications ++ (new_application q.name q.database_ref ∷ []))
  bind_component q applications (some entry) =
      refuse (not (is_active entry.lifecycle)) "Application %q is retiring" (q.name ∷ [])
      >> ok (
          replace_named application_name q.name (record entry { database_ref = q.database_ref })
            applications)

  -- The loop of activateService over the components.
  unfoldable pub activate_components :
      ChangeParameters
      → CatalogService
      → List Bytes
      → List CatalogApplication
      → Changes
      → Result Error (List CatalogApplication × Changes)
  unfolding component_parameters bind_component
  activate_components p service [] applications changes = ok (applications, changes)
  activate_components p service (component ∷ components) applications changes =
      let q = component_parameters p service component in
      bind_component q applications (find_named application_name component applications)
      >>= λ bound.
          write_application tools repository p.team q
            (not (bytes_eq service.template (bytes "full-stack"))) changes
          >>= λ written. activate_components p service components bound written

  -- activateService.
  unfoldable pub activate_service : ChangeParameters → Tenants → Result Error Rendered
  unfolding activate_components
  activate_service p tenants = active_tenant p.team tenants >>= λ tenant.
      service_entry tenant p.name >>= λ service.
      refuse (bytes_eq service.lifecycle retiring) "service %q is retiring" (p.name ∷ [])
      >> activate_components p service service.components tenant.applications []
      >>= λ (applications, written).
          let activated = record service { version = p.version; lifecycle = active } in
          with_tenants
            (store
              (record tenant {
                applications = sort_named application_name applications;
                services = replace_named service_name p.name activated tenant.services;
              })
              tenants)
            (write_service_version tools repository service_files activated written)

  -- The loop of retireService over the components.
  unfoldable pub retire_components :
      Bytes
      → Bool
      → List Bytes
      → List CatalogApplication
      → Changes
      → Result Error (List CatalogApplication × Changes)
  retire_components request force [] applications changes = ok (applications, changes)
  retire_components request force (component ∷ components) applications changes =
      on_found (find_named application_name component applications)
        (retire_components request force components applications changes)
        λ entry.
          approve_manifest tools repository (application_manifest_path component) request force
            changes
          >>= retire_components request force components (
              replace_named application_name component (retire_application request entry)
                applications)

  -- The Database that a retired service owns.
  unfoldable pub retire_owned_database :
      Bytes
      → Bool
      → CatalogService
      → List CatalogDatabase
      → Changes
      → Result Error (List CatalogDatabase × Changes)
  retire_owned_database request force service databases changes =
      if service.owns_database && not (is_empty service.database_ref)
      then (on_found (find_named database_name service.database_ref databases)
          (ok (databases, changes))
          λ entry.
            approve_manifest tools repository (database_manifest_path entry.name) request force
              changes
            >>= λ written. ok (
              replace_named database_name service.database_ref (retire_database request entry)
                  databases,
              written,
            ))
      else ok (databases, changes)

  -- The Team that a retired service owns.
  unfoldable pub retire_owned_team :
      Bytes
      → Bool
      → CatalogService
      → CatalogTenant
      → Changes
      → Result Error (CatalogTenant × Changes)
  retire_owned_team request force service tenant changes =
      if service.owns_team
      then (approve_manifest tools repository (team_manifest_path tenant.name) request force changes
          >>= λ written.
              ok (record tenant { lifecycle = retiring; deletion_request = request }, written))
      else ok (tenant, changes)

  -- retireService.
  unfoldable pub retire_service : Bytes → ChangeParameters → Tenants → Result Error Rendered
  unfolding retire_components retire_owned_database retire_owned_team
  retire_service request p tenants = active_tenant p.team tenants >>= λ tenant.
      service_entry tenant p.name >>= λ service.
      refuse (bytes_eq service.lifecycle retiring) "service %q is already retiring" (p.name ∷ [])
      >> retire_components request p.force service.components tenant.applications []
      >>= λ (applications, written).
          retire_owned_database request p.force service tenant.databases written
          >>= λ (databases, stored).
              retire_owned_team request p.force service
                (record tenant {
                  applications = applications;
                  databases = databases;
                  services =
                      replace_named service_name p.name (retire_entry request service)
                        tenant.services;
                })
                stored
              >>= λ (retired, done). ok (store retired tenants, done)
