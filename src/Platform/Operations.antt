-- ===== src/Platform/Operations.antt =====
-- internal/platformctl/render.go: the operations on Teams, Applications and Databases. Each takes the
-- tenants of the catalog and gives them with the changes of the files.
use steadystate.Prelude.{
  Bytes, bytes_eq, sort_strings, String, Bool, true, false, not, ◌&&◌, ◌||◌, Option, none, some,
  List, [], ◌∷◌, ◌++◌, map, if◌then◌else◌, Result, ok, is_some, any,
}
use steadystate.Platform.Errors.{Error, exit, not_found, conflict, exit_error, ◌>>=◌, ◌>>◌}
use steadystate.Platform.Named.{find_named, replace_named, remove_named, sort_named}
use steadystate.Platform.Catalog.Data.{
  CatalogService, CatalogApplication, CatalogDatabase, CatalogTenant,
}
use steadystate.Platform.Catalog.Validation.{is_empty, active, retiring}
use steadystate.Platform.Request.{ChangeParameters, Operation}
use steadystate.Platform.Files.{Repository}
use steadystate.Platform.Manifests.{
  Changes, Tools, write_team, write_application, approve_manifest, delete_leaf, team_path,
  application_path, database_path, team_manifest_path, application_manifest_path,
  database_manifest_path,
}
use steadystate.Platform.Storage.{write_database}

abbrev pub Tenants : Type 0
Tenants = List CatalogTenant

abbrev pub tenant_name : CatalogTenant → Bytes
tenant_name t = t.name

abbrev pub application_name : CatalogApplication → Bytes
application_name a = a.name

abbrev pub database_name : CatalogDatabase → Bytes
database_name d = d.name

abbrev pub service_name : CatalogService → Bytes
service_name s = s.name

-- What a lookup found, or an error of the given kind.
abbrev pub require : {A : Type 0} → Option A → String → List Bytes → Result Error A
require none format args = exit_error not_found format args
require (some a) format args = ok a

-- `if bad { return exitError(ExitConflict, …) }`.
abbrev pub refuse : Bool → String → List Bytes → Option Error
refuse true format args = some (exit conflict (record { format = format; args = args }))
refuse false format args = none

abbrev pub is_active : Bytes → Bool
is_active lifecycle = bytes_eq lifecycle active

-- changeRenderer.tenant.
unfoldable pub tenant_of : Bytes → Tenants → Result Error CatalogTenant
tenant_of name tenants =
    require (find_named tenant_name name tenants) "Team %q is not present in the catalog"
      (name ∷ [])

-- changeRenderer.activeTenant.
unfoldable pub active_tenant : Bytes → Tenants → Result Error CatalogTenant
active_tenant name tenants = tenant_of name tenants >>= λ tenant.
    refuse (not (is_active tenant.lifecycle)) "Team %q is retiring" (name ∷ []) >> ok tenant

-- applicationEntry.
unfoldable pub application_entry : CatalogTenant → Bytes → Result Error CatalogApplication
application_entry tenant name =
    require (find_named application_name name tenant.applications)
      "Application %q is not present in Team %q" (name ∷ tenant.name ∷ [])

-- databaseEntry.
unfoldable pub database_entry : CatalogTenant → Bytes → Result Error CatalogDatabase
database_entry tenant name =
    require (find_named database_name name tenant.databases) "Database %q is not present in Team %q"
      (name ∷ tenant.name ∷ [])

-- databaseExists.
unfoldable pub database_exists : CatalogTenant → Bytes → Bool
database_exists tenant name = elim (find_named database_name name tenant.databases) [
  | none ↦ false
  | some d ↦ is_active d.lifecycle
]

-- requireRetiring.
unfoldable pub require_retiring : Bytes → Bytes → ChangeParameters → Option Error
require_retiring lifecycle request p =
    refuse (not (bytes_eq lifecycle retiring) || not (bytes_eq request p.deletion_request))
      "resource is not retiring under deletion request %q" (p.deletion_request ∷ [])

abbrev pub store : CatalogTenant → Tenants → Tenants
store tenant tenants = replace_named tenant_name tenant.name tenant tenants

-- The catalog with the changes.
abbrev pub Rendered : Type 0
Rendered = Tenants × Changes

abbrev pub with_tenants : Tenants → Result Error Changes → Result Error Rendered
with_tenants tenants r = r >>= λ changes. ok (tenants, changes)

abbrev pub has_application : Bytes → CatalogTenant → Bool
has_application name t = is_some (find_named application_name name t.applications)

abbrev pub has_database : Bytes → CatalogTenant → Bool
has_database name t = is_some (find_named database_name name t.databases)

abbrev pub new_application : Bytes → Bytes → CatalogApplication
new_application name reference = record {
  name = name;
  path = application_path name;
  database_ref = reference;
  lifecycle = active;
  deletion_request = [];
}

abbrev pub new_database : Bytes → CatalogDatabase
new_database name = record {
  name = name;
  path = database_path name;
  lifecycle = active;
  deletion_request = [];
}

abbrev pub new_tenant : Bytes → List Bytes → CatalogTenant
new_tenant name owners = record {
  name = name;
  team_path = team_path name;
  owners = owners;
  lifecycle = active;
  deletion_request = [];
  applications = [];
  databases = [];
  services = [];
}

-- `Lifecycle, DeletionRequest = "Retiring", requestID`.
abbrev pub retire_application : Bytes → CatalogApplication → CatalogApplication
retire_application request a = record a { lifecycle = retiring; deletion_request = request }

abbrev pub retire_database : Bytes → CatalogDatabase → CatalogDatabase
retire_database request d = record d { lifecycle = retiring; deletion_request = request }

abbrev pub retire_entry : Bytes → CatalogService → CatalogService
retire_entry request s = record s { lifecycle = retiring; deletion_request = request }

abbrev pub uses : Bytes → CatalogApplication → Bool
uses database a = bytes_eq a.database_ref database && is_active a.lifecycle

-- The loop of approveDatabaseDeletion over the Applications.
unfoldable pub refuse_used : Bytes → List CatalogApplication → Option Error
refuse_used database [] = none
refuse_used database (a ∷ rest) =
    if uses database a
    then refuse true "Database %q is still referenced by Application %q" (database ∷ a.name ∷ [])
    else refuse_used database rest

-- `if databaseRef != ""` then it names an active Database of the tenant.
unfoldable pub refuse_unknown : CatalogTenant → ChangeParameters → Option Error
refuse_unknown tenant p =
    if not (is_empty p.database_ref) && not (database_exists tenant p.database_ref)
    then some (
        exit not_found (record {
          format = "Database %q is not active in Team %q";
          args = p.database_ref ∷ p.team ∷ [];
        }))
    else none

module _ (tools : Tools) (repository : Repository) where
  -- The case "team.create".
  unfoldable pub create_team : ChangeParameters → Tenants → Result Error Rendered
  create_team p tenants =
      refuse (is_some (find_named tenant_name p.name tenants)) "Team %q already exists"
        (p.name ∷ [])
      >> with_tenants (tenants ++ (new_tenant p.name (sort_strings p.owners) ∷ []))
          (write_team tools repository p.name p [])

  -- The case "team.update".
  unfoldable pub update_team : ChangeParameters → Tenants → Result Error Rendered
  update_team p tenants = active_tenant p.name tenants >>= λ tenant.
      with_tenants (store (record tenant { owners = sort_strings p.owners }) tenants)
        (write_team tools repository p.name p [])

  -- createApplication.
  unfoldable pub create_application : ChangeParameters → Tenants → Result Error Rendered
  create_application p tenants = active_tenant p.team tenants >>= λ tenant.
      refuse (any (has_application p.name) tenants || has_application p.name tenant)
        "Application %q already exists" (p.name ∷ [])
      >> (refuse_unknown tenant p
          >> with_tenants
              (store
                (record tenant {
                  applications =
                      sort_named application_name
                        (tenant.applications ++ (new_application p.name p.database_ref ∷ []));
                })
                tenants)
              (write_application tools repository p.team p true []))

  -- updateApplication.
  unfoldable pub update_application : ChangeParameters → Tenants → Result Error Rendered
  update_application p tenants = active_tenant p.team tenants >>= λ tenant.
      application_entry tenant p.name >>= λ application.
      refuse (not (is_active application.lifecycle)) "Application %q is retiring" (p.name ∷ [])
      >> (refuse_unknown tenant p
          >> with_tenants
              (store
                (record tenant {
                  applications =
                      replace_named application_name p.name
                        (record application { database_ref = p.database_ref }) tenant.applications;
                })
                tenants)
              (write_application tools repository p.team p true []))

  -- createDatabase.
  unfoldable pub create_database : Operation → ChangeParameters → Tenants → Result Error Rendered
  create_database operation p tenants = active_tenant p.team tenants >>= λ tenant.
      refuse (any (has_database p.name) tenants || has_database p.name tenant)
        "Database %q already exists" (p.name ∷ [])
      >> with_tenants
          (store
            (record tenant {
              databases = sort_named database_name (tenant.databases ++ (new_database p.name ∷ []));
            })
            tenants)
          (write_database tools repository operation p.team p [])

  -- updateDatabase.
  unfoldable pub update_database : Operation → ChangeParameters → Tenants → Result Error Rendered
  update_database operation p tenants = active_tenant p.team tenants >>= λ tenant.
      database_entry tenant p.name >>= λ database.
      refuse (not (is_active database.lifecycle)) "Database %q is retiring" (p.name ∷ [])
      >> with_tenants tenants (write_database tools repository operation p.team p [])

  -- The loops of approveTeamDeletion over the manifests.
  unfoldable pub approve_all :
      (Bytes → Bytes) → Bytes → Bool → List Bytes → Changes → Result Error Changes
  approve_all manifest_path request force [] changes = ok changes
  approve_all manifest_path request force (n ∷ ns) changes =
      approve_manifest tools repository (manifest_path n) request force changes
      >>= approve_all manifest_path request force ns

  -- approveTeamDeletion.
  unfoldable pub approve_team_deletion : Bytes → ChangeParameters → Tenants → Result Error Rendered
  approve_team_deletion request p tenants = active_tenant p.name tenants >>= λ tenant.
      with_tenants
        (store
          (record tenant {
            lifecycle = retiring;
            deletion_request = request;
            applications = map (retire_application request) tenant.applications;
            databases = map (retire_database request) tenant.databases;
            services = map (retire_entry request) tenant.services;
          })
          tenants)
        (approve_manifest tools repository (team_manifest_path p.name) request p.force []
          >>= approve_all application_manifest_path request p.force
              (map application_name tenant.applications)
          >>= approve_all database_manifest_path request p.force
              (map database_name tenant.databases))

  -- approveApplicationDeletion.
  unfoldable pub approve_application_deletion :
      Bytes → ChangeParameters → Tenants → Result Error Rendered
  approve_application_deletion request p tenants = active_tenant p.team tenants >>= λ tenant.
      application_entry tenant p.name >>= λ application.
      refuse (not (is_active application.lifecycle)) "Application %q is already retiring"
        (p.name ∷ [])
      >> with_tenants
          (store
            (record tenant {
              applications =
                  replace_named application_name p.name (retire_application request application)
                    tenant.applications;
            })
            tenants)
          (approve_manifest tools repository (application_manifest_path p.name) request p.force [])

  -- approveDatabaseDeletion.
  unfoldable pub approve_database_deletion :
      Bytes → ChangeParameters → Tenants → Result Error Rendered
  approve_database_deletion request p tenants = active_tenant p.team tenants >>= λ tenant.
      refuse_used p.name tenant.applications
      >> (database_entry tenant p.name >>= λ database.
          refuse (not (is_active database.lifecycle)) "Database %q is already retiring"
            (p.name ∷ [])
          >> with_tenants
              (store
                (record tenant {
                  databases =
                      replace_named database_name p.name (retire_database request database)
                        tenant.databases;
                })
                tenants)
              (approve_manifest tools repository (database_manifest_path p.name) request p.force
                []))

  -- finalizeApplication.
  unfoldable pub finalize_application : ChangeParameters → Tenants → Result Error Rendered
  finalize_application p tenants = active_tenant p.team tenants >>= λ tenant.
      application_entry tenant p.name >>= λ application.
      require_retiring application.lifecycle application.deletion_request p
      >> with_tenants
          (store
            (record tenant {
              applications = remove_named application_name p.name tenant.applications;
            })
            tenants)
          (delete_leaf tools repository application.path "application.yaml" [])

  -- finalizeDatabase.
  unfoldable pub finalize_database : ChangeParameters → Tenants → Result Error Rendered
  finalize_database p tenants = active_tenant p.team tenants >>= λ tenant.
      database_entry tenant p.name >>= λ database.
      require_retiring database.lifecycle database.deletion_request p
      >> with_tenants
          (store (record tenant { databases = remove_named database_name p.name tenant.databases })
            tenants)
          (delete_leaf tools repository database.path "database.yaml" [])
