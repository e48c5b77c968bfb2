-- ===== src/Platform/Laws/Removed.antt =====
-- The files that are changed where a service is retired or a deletion is finalized may be changed.
use steadystate.Prelude.{Bytes, Bool, not, ◌&&◌, String, List, [], ◌∷◌}
use steadystate.Platform.Laws.Posts.{
  Holds, returned, Holds-bind, Holds-bind_eq, Holds-check, Holds-if, Holds-found,
}
use steadystate.Platform.Laws.Paths.{
  Allowed, remove_file-Allowed, approve_manifest-Allowed, delete_leaf-Allowed,
}
use steadystate.Platform.Catalog.Validation.{is_empty}
use steadystate.Platform.Catalog.Data.{
  CatalogService, CatalogApplication, CatalogDatabase, CatalogTenant,
}
use steadystate.Platform.Request.{ChangeParameters}
use steadystate.Platform.Files.{Repository}
use steadystate.Platform.Manifests.{Changes, Tools}
use steadystate.Platform.Sources.{ServiceFiles, remove_each, delete_service_source}
use steadystate.Platform.Operations.{Tenants}
use steadystate.Platform.Services.{
  retire_components, retire_owned_database, retire_owned_team, retire_service,
}
use steadystate.Platform.Finalize.{
  delete_leaves, delete_sources, finalize_team, finalize_components, finalize_owned_database,
  without_service, finalize_service,
}
use steadystate.Platform.Laws.Allowed.{FinePair, with_tenants-Fine}

module _ (tools : Tools) (repository : Repository) (service_files : ServiceFiles) where
  abbrev Pairs : {A : Type 0} → A × Changes → Type 0
  Pairs = FinePair tools repository

  abbrev Ok : Changes → Type 0
  Ok = Allowed tools.clean repository

  pub remove_each-Fine :
      (directory : Bytes) (paths : List Bytes) (cs : Changes)
      → Ok cs
      → Holds Ok (remove_each tools repository service_files directory paths cs)
  unfolding remove_each
  remove_each-Fine directory [] cs h = returned h
  remove_each-Fine directory (path ∷ paths) cs h =
      Holds-bind _ _ (remove_file-Allowed tools.clean repository _ cs h)
        λ removed r. remove_each-Fine directory paths removed r

  pub delete_source-Fine :
      (service : CatalogService) (cs : Changes)
      → Ok cs
      → Holds Ok (delete_service_source tools repository service_files service cs)
  unfolding delete_service_source
  delete_source-Fine service cs h = Holds-bind_eq _ _ λ expected _.
      Holds-bind_eq _ _ λ files _. Holds-check _ _ λ _. remove_each-Fine service.path _ cs h

  pub retire_components-Fine :
      (request : Bytes) (force : Bool) (components : List Bytes)
      (applications : List CatalogApplication) (cs : Changes)
      → Ok cs
      → Holds Pairs (
          retire_components tools repository service_files request force components applications cs)
  unfolding retire_components
  retire_components-Fine request force [] applications cs h = returned h
  retire_components-Fine request force (component ∷ components) applications cs h =
      Holds-found _ _ _ (retire_components-Fine request force components applications cs h)
        λ entry _.
          Holds-bind _ _ (approve_manifest-Allowed tools repository _ request force cs h)
            λ written w. retire_components-Fine request force components _ written w

  pub retire_database-Fine :
      (request : Bytes) (force : Bool) (service : CatalogService) (databases : List CatalogDatabase)
      (cs : Changes)
      → Ok cs
      → Holds Pairs
          (retire_owned_database tools repository service_files request force service databases cs)
  unfolding retire_owned_database
  retire_database-Fine request force service databases cs h =
      Holds-if (service.owns_database && not (is_empty service.database_ref)) _ _
        (λ _. Holds-found _ _ _ (returned h) λ entry _.
          Holds-bind _ _ (approve_manifest-Allowed tools repository _ request force cs h)
            λ written w. returned w)
        λ _. returned h

  pub retire_team-Fine :
      (request : Bytes) (force : Bool) (service : CatalogService) (tenant : CatalogTenant)
      (cs : Changes)
      → Ok cs
      → Holds Pairs
          (retire_owned_team tools repository service_files request force service tenant cs)
  unfolding retire_owned_team
  retire_team-Fine request force service tenant cs h =
      Holds-if service.owns_team _ _
        (λ _.
          Holds-bind _ _ (approve_manifest-Allowed tools repository _ request force cs h)
            λ written w. returned w)
        λ _. returned h

  pub retire-Fine :
      (request : Bytes) (p : ChangeParameters) (tenants : Tenants)
      → Holds Pairs (retire_service tools repository service_files request p tenants)
  unfolding retire_service
  retire-Fine request p tenants = Holds-bind_eq _ _ λ tenant _. Holds-bind_eq _ _ λ service _.
      Holds-bind _ _ (Holds-check _ _ λ _. retire_components-Fine request p.force _ _ [] tt) λ r h.
        Holds-bind _ _ (retire_database-Fine request p.force service _ r.1 h)
          λ d k. Holds-bind _ _ (retire_team-Fine request p.force service _ d.1 k) λ t l. returned l

  pub delete_leaves-Fine :
      (manifest : String) (paths : List Bytes) (cs : Changes)
      → Ok cs
      → Holds Ok (delete_leaves tools repository service_files manifest paths cs)
  unfolding delete_leaves
  delete_leaves-Fine manifest [] cs h = returned h
  delete_leaves-Fine manifest (path ∷ paths) cs h =
      Holds-bind _ _ (delete_leaf-Allowed tools repository path manifest cs h)
        λ removed r. delete_leaves-Fine manifest paths removed r

  pub delete_sources-Fine :
      (services : List CatalogService) (cs : Changes)
      → Ok cs
      → Holds Ok (delete_sources tools repository service_files services cs)
  unfolding delete_sources
  delete_sources-Fine [] cs h = returned h
  delete_sources-Fine (s ∷ services) cs h =
      Holds-bind _ _ (delete_source-Fine s cs h) λ removed r. delete_sources-Fine services removed r

  pub finalize_team-Fine :
      (p : ChangeParameters) (tenants : Tenants)
      → Holds Pairs (finalize_team tools repository service_files p tenants)
  unfolding finalize_team
  finalize_team-Fine p tenants = Holds-bind_eq _ _ λ tenant _. Holds-check _ _ λ _.
      with_tenants-Fine tools repository _ _ (
        Holds-bind _ _
          (Holds-bind _ _
            (Holds-bind _ _ (delete_leaf-Allowed tools repository _ _ [] tt)
              λ cs h. delete_leaves-Fine _ _ cs h)
            λ cs h. delete_leaves-Fine _ _ cs h)
          λ cs h. delete_sources-Fine tenant.services cs h)

  pub finalize_components-Fine :
      (p : ChangeParameters) (applications : List CatalogApplication) (components : List Bytes)
      (cs : Changes)
      → Ok cs
      → Holds Ok (finalize_components tools repository service_files p applications components cs)
  unfolding finalize_components
  finalize_components-Fine p applications [] cs h = returned h
  finalize_components-Fine p applications (component ∷ components) cs h =
      Holds-found _ _ _ (finalize_components-Fine p applications components cs h) λ entry _.
        Holds-bind _ _ (Holds-check _ _ λ _. delete_leaf-Allowed tools repository _ _ cs h)
          λ removed r. finalize_components-Fine p applications components removed r

  pub finalize_database_of-Fine :
      (p : ChangeParameters) (service : CatalogService) (databases : List CatalogDatabase)
      (cs : Changes)
      → Ok cs
      → Holds Ok (finalize_owned_database tools repository service_files p service databases cs)
  unfolding finalize_owned_database
  finalize_database_of-Fine p service databases cs h =
      Holds-if (service.owns_database && not (is_empty service.database_ref)) _ _
        (λ _.
          Holds-found _ _ _ (returned h)
            λ entry _. Holds-check _ _ λ _. delete_leaf-Allowed tools repository _ _ cs h)
        λ _. returned h

  pub without_service-Fine :
      (p : ChangeParameters) (tenant : CatalogTenant) (service : CatalogService) (tenants : Tenants)
      (cs : Changes)
      → Ok cs
      → Holds Pairs (without_service tools repository service_files p tenant service tenants cs)
  unfolding without_service
  without_service-Fine p tenant service tenants cs h =
      Holds-if service.owns_team _ _
        (λ _. Holds-check _ _ λ _.
          with_tenants-Fine tools repository _ _ (delete_leaf-Allowed tools repository _ _ cs h))
        λ _. returned h

  pub finalize_service-Fine :
      (p : ChangeParameters) (tenants : Tenants)
      → Holds Pairs (finalize_service tools repository service_files p tenants)
  unfolding finalize_service
  finalize_service-Fine p tenants = Holds-bind_eq _ _ λ tenant _. Holds-bind_eq _ _ λ service _.
      Holds-bind _ _
        (Holds-bind _ _
          (Holds-bind _ _
            (Holds-check _ _ λ _. finalize_components-Fine p tenant.applications _ [] tt)
            λ cs h. finalize_database_of-Fine p service tenant.databases cs h)
          λ cs h. delete_source-Fine service cs h)
        λ cs h. without_service-Fine p tenant service tenants cs h
