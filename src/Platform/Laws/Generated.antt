-- ===== src/Platform/Laws/Generated.antt =====
-- The files of a service that is scaffolded or activated may be changed.
use steadystate.Prelude.{Bytes, List, [], ◌∷◌, Result, ok, err}
use steadystate.Platform.Errors.{Error}
use steadystate.Platform.Laws.Posts.{
  Holds, returned, Holds-bind, Holds-bind_eq, Holds-check, Holds-if,
}
use steadystate.Platform.Laws.Paths.{Allowed, set_file-Allowed}
use steadystate.Platform.Catalog.Data.{CatalogService, CatalogApplication, CatalogTenant}
use steadystate.Platform.Request.{ChangeParameters}
use steadystate.Platform.Files.{Repository}
use steadystate.Platform.Manifests.{Changes, Tools}
use steadystate.Platform.Sources.{
  ServiceFiles, write_all, write_service_source, write_service_version,
}
use steadystate.Platform.Operations.{Tenants}
use steadystate.Platform.Services.{
  ensure_team, add_database, scaffold_service, activate_components, activate_service,
}
use steadystate.Platform.Laws.Allowed.{
  FinePair, with_tenants-Fine, write_team-Fine, write_application-Fine, write_database-Fine,
}

module _ (tools : Tools) (repository : Repository) (service_files : ServiceFiles) where
  abbrev Pairs : {A : Type 0} → A × Changes → Type 0
  Pairs = FinePair tools repository

  abbrev Ok : Changes → Type 0
  Ok = Allowed tools.clean repository

  pub write_all-Fine :
      (directory : Bytes) (files : List (Bytes × Bytes)) (cs : Changes)
      → Ok cs
      → Holds Ok (write_all tools repository service_files directory files cs)
  unfolding write_all
  write_all-Fine directory [] cs h = returned h
  write_all-Fine directory ((path, content) ∷ files) cs h =
      Holds-bind _ _ (set_file-Allowed tools.clean repository _ content cs h)
        λ written w. write_all-Fine directory files written w

  pub write_source-Fine :
      (service : CatalogService) (cs : Changes)
      → Ok cs
      → Holds Ok (write_service_source tools repository service_files service cs)
  unfolding write_service_source
  write_source-Fine service cs h = Holds-bind_eq _ _ λ files _. write_all-Fine service.path _ cs h

  pub write_version-Fine :
      (service : CatalogService) (cs : Changes)
      → Ok cs
      → Holds Ok (write_service_version tools repository service_files service cs)
  unfolding write_service_version
  write_version-Fine service cs h =
      Holds-bind _ _ (set_file-Allowed tools.clean repository _ _ cs h) λ written w.
        Holds-bind_eq _ _
          λ descriptor _. set_file-Allowed tools.clean repository _ descriptor written w

  pub ensure_team-Fine :
      (p : ChangeParameters) (tenants : Tenants) (r : Result Error CatalogTenant)
      → Holds Pairs (ensure_team tools repository service_files p tenants r)
  unfolding ensure_team
  ensure_team-Fine p tenants (ok tenant) = Holds-check _ _ λ _. returned tt
  ensure_team-Fine p tenants (err e) =
      Holds-check _ _
        λ _. with_tenants-Fine tools repository _ _ (write_team-Fine tools repository _ _ [] tt)

  pub add_database-Fine :
      (p : ChangeParameters) (tenant : CatalogTenant) (cs : Changes)
      → Ok cs
      → Holds Pairs (add_database tools repository service_files p tenant cs)
  unfolding add_database
  add_database-Fine p tenant cs h =
      Holds-if p.with_database _ _
        (λ _. Holds-check _ _ λ _.
          Holds-bind _ _ (write_database-Fine tools repository _ _ _ cs h) λ written w. returned w)
        λ _. returned h

  pub scaffold-Fine :
      (p : ChangeParameters) (tenants : Tenants)
      → Holds Pairs (scaffold_service tools repository service_files p tenants)
  unfolding scaffold_service
  scaffold-Fine p tenants =
      Holds-bind _ _ (Holds-check _ _ λ _. ensure_team-Fine p tenants _) λ present h.
        Holds-bind_eq _ _ λ tenant _.
          Holds-bind _ _ (Holds-check _ _ λ _. add_database-Fine p tenant present.1 h)
            λ stocked k. with_tenants-Fine tools repository _ _ (write_source-Fine _ _ k)

  pub activate_components-Fine :
      (p : ChangeParameters) (service : CatalogService) (components : List Bytes)
      (applications : List CatalogApplication) (cs : Changes)
      → Ok cs
      → Holds Pairs
          (activate_components tools repository service_files p service components applications cs)
  unfolding activate_components
  activate_components-Fine p service [] applications cs h = returned h
  activate_components-Fine p service (component ∷ components) applications cs h =
      Holds-bind_eq _ _ λ bound _.
        Holds-bind _ _ (write_application-Fine tools repository _ _ _ cs h)
          λ written w. activate_components-Fine p service components bound written w

  pub activate-Fine :
      (p : ChangeParameters) (tenants : Tenants)
      → Holds Pairs (activate_service tools repository service_files p tenants)
  unfolding activate_service
  activate-Fine p tenants = Holds-bind_eq _ _ λ tenant _. Holds-bind_eq _ _ λ service _.
      Holds-bind _ _ (Holds-check _ _ λ _. activate_components-Fine p service _ _ [] tt)
        λ r h. with_tenants-Fine tools repository _ _ (write_version-Fine _ r.1 h)
