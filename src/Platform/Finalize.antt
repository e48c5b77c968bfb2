-- ===== src/Platform/Finalize.antt =====
-- internal/platformctl/render.go: finalizeTeam and finalizeService.
use steadystate.Prelude.{
  Bytes, String, Bool, ◌&&◌, not, List, [], ◌∷◌, map, if◌then◌else◌, Result, ok,
}
use steadystate.Platform.Errors.{Error, ◌>>=◌, ◌>>◌, on_found}
use steadystate.Platform.Named.{find_named, remove_named, remove_all, remove_pointed}
use steadystate.Platform.Catalog.Data.{
  CatalogService, CatalogApplication, CatalogDatabase, CatalogTenant,
}
use steadystate.Platform.Catalog.Validation.{is_empty}
use steadystate.Platform.Request.{ChangeParameters}
use steadystate.Platform.Files.{Repository}
use steadystate.Platform.Manifests.{Changes, Tools, delete_leaf, team_path}
use steadystate.Platform.Sources.{ServiceFiles, delete_service_source}
use steadystate.Platform.Operations.{
  Tenants, Rendered, with_tenants, tenant_name, application_name, database_name, service_name,
  tenant_of, require_retiring, store,
}
use steadystate.Platform.Services.{service_entry}

abbrev application_directory : CatalogApplication → Bytes
application_directory a = a.path

abbrev database_directory : CatalogDatabase → Bytes
database_directory d = d.path

module _ (tools : Tools) (repository : Repository) (service_files : ServiceFiles) where
  unfoldable pub delete_leaves : String → List Bytes → Changes → Result Error Changes
  delete_leaves manifest [] changes = ok changes
  delete_leaves manifest (path ∷ paths) changes =
      delete_leaf tools repository path manifest changes >>= delete_leaves manifest paths

  unfoldable pub delete_sources : List CatalogService → Changes → Result Error Changes
  delete_sources [] changes = ok changes
  delete_sources (s ∷ services) changes =
      delete_service_source tools repository service_files s changes >>= delete_sources services

  -- finalizeTeam.
  unfoldable pub finalize_team : ChangeParameters → Tenants → Result Error Rendered
  unfolding delete_leaves delete_sources
  finalize_team p tenants = tenant_of p.name tenants >>= λ tenant.
      require_retiring tenant.lifecycle tenant.deletion_request p
      >> with_tenants (remove_named tenant_name p.name tenants) (
          delete_leaf tools repository (team_path p.name) "team.yaml" []
          >>= delete_leaves "application.yaml" (map application_directory tenant.applications)
          >>= delete_leaves "database.yaml" (map database_directory tenant.databases)
          >>= delete_sources tenant.services)

  -- The loop of finalizeService over the components.
  unfoldable pub finalize_components :
      ChangeParameters → List CatalogApplication → List Bytes → Changes → Result Error Changes
  finalize_components p applications [] changes = ok changes
  finalize_components p applications (component ∷ components) changes =
      on_found (find_named application_name component applications)
        (finalize_components p applications components changes)
        λ entry.
          require_retiring entry.lifecycle entry.deletion_request p
          >> delete_leaf tools repository entry.path "application.yaml" changes
          >>= finalize_components p applications components

  abbrev owned_database : CatalogService → Bool
  owned_database service = service.owns_database && not (is_empty service.database_ref)

  -- The Database that a finalized service owns.
  unfoldable pub finalize_owned_database :
      ChangeParameters → CatalogService → List CatalogDatabase → Changes → Result Error Changes
  finalize_owned_database p service databases changes =
      if owned_database service
      then (on_found (find_named database_name service.database_ref databases) (ok changes) λ entry.
          require_retiring entry.lifecycle entry.deletion_request p
          >> delete_leaf tools repository entry.path "database.yaml" changes)
      else ok changes

  -- The tenants without the service. The names that the loops over the Teams and over the services
  -- compare with are read through pointers into the lists that the loops overwrite.
  unfoldable pub without_service :
      ChangeParameters → CatalogTenant → CatalogService → Tenants → Changes → Result Error Rendered
  without_service p tenant service tenants changes =
      if service.owns_team
      then (require_retiring tenant.lifecycle tenant.deletion_request p
          >> with_tenants (remove_pointed tenant_name tenant.name tenants)
              (delete_leaf tools repository tenant.team_path "team.yaml" changes))
      else ok (
        store
            (record tenant {
              applications = remove_all application_name service.components tenant.applications;
              databases =
                  if service.owns_database
                  then remove_named database_name service.database_ref tenant.databases
                  else tenant.databases;
              services = remove_pointed service_name service.name tenant.services;
            })
            tenants,
        changes,
      )

  -- finalizeService.
  unfoldable pub finalize_service : ChangeParameters → Tenants → Result Error Rendered
  unfolding finalize_components finalize_owned_database without_service
  finalize_service p tenants = tenant_of p.team tenants >>= λ tenant.
      service_entry tenant p.name >>= λ service.
      require_retiring service.lifecycle service.deletion_request p
      >> finalize_components p tenant.applications service.components []
      >>= finalize_owned_database p service tenant.databases
      >>= delete_service_source tools repository service_files service
      >>= without_service p tenant service tenants
