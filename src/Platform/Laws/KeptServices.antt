-- ===== src/Platform/Laws/KeptServices.antt =====
-- The operations on services keep the Applications, but the finalization.
use steadystate.Prelude.{
  Bytes, Bool, inl, Option, none, some, List, [], ◌∷◌, ◌≡◌, refl, sym, ◌∙◌, Result, ok, err,
}
use mathlib.Core.Path.{subst}
use steadystate.Platform.Errors.{Error}
use steadystate.Platform.Laws.Posts.{
  Holds, returned, Holds-bind, Holds-bind_eq, Holds-check, Holds-if, Holds-found, Holds-mono,
}
use steadystate.Platform.Laws.Names.{
  Named, find-Named, find-name, Named-replace, Named-append_left, Named-sort, find-append_left,
}
use steadystate.Platform.Laws.Kept.{
  Excuse, Keeps-store, Keeps-found, active_tenant-find, tenant_of-find,
}
use steadystate.Platform.Named.{find_named}
use steadystate.Platform.Catalog.Data.{CatalogService, CatalogApplication, CatalogTenant}
use steadystate.Platform.Request.{ChangeParameters}
use steadystate.Platform.Files.{Repository}
use steadystate.Platform.Manifests.{Changes, Tools}
use steadystate.Platform.Operations.{Tenants, Rendered, tenant_name, application_name}
use steadystate.Platform.Sources.{ServiceFiles}
use steadystate.Platform.Laws.Names.{find-sort}
use steadystate.Platform.Laws.Edits.{KeepsPair, with_tenants-Keeps}
use steadystate.Platform.Services.{
  component_parameters, ensure_team, add_database, scaffold_service, bind_component,
  activate_components, activate_service, retire_components, retire_owned_team, retire_service,
}

-- The names among some Applications stay.
abbrev KeepsNames : List CatalogApplication → List CatalogApplication → Type 0
KeepsNames before after =
    (n : Bytes) → Named application_name n before → Named application_name n after

module _ (tools : Tools) (repository : Repository) (service_files : ServiceFiles) where
  abbrev StillFound : Tenants → Rendered → Type 0
  StillFound before r =
      (name : Bytes) (t : CatalogTenant)
      → find_named tenant_name name before ≡ some t
      → find_named tenant_name name r.0 ≡ some t

  ensure_team-StillFound :
      (p : ChangeParameters) (tenants : Tenants) (r : Result Error CatalogTenant)
      → Holds (StillFound tenants) (ensure_team tools repository service_files p tenants r)
  unfolding ensure_team
  ensure_team-StillFound p tenants (ok t) = Holds-check _ _ λ _. returned λ name u f. f
  ensure_team-StillFound p tenants (err e) = Holds-check _ _ λ _. Holds-bind_eq _ _ λ changes _.
      returned
        λ name u f. find-sort tenant_name name _ ∙ find-append_left tenant_name name u tenants _ f

  abbrev SameParts : CatalogTenant → CatalogTenant × Changes → Type 0
  SameParts t s = (s.0.name ≡ t.name) × (s.0.applications ≡ t.applications)

  add_database-SameParts :
      (p : ChangeParameters) (t : CatalogTenant) (cs : Changes)
      → Holds (SameParts t) (add_database tools repository service_files p t cs)
  unfolding add_database
  add_database-SameParts p t cs =
      Holds-if p.with_database _ _
        (λ _. Holds-check _ _ λ _. Holds-bind_eq _ _ λ written _. returned (refl, refl))
        λ _. returned (refl, refl)

  pub scaffold-Keeps :
      (C : Excuse) (p : ChangeParameters) (tenants : Tenants)
      → Holds (KeepsPair C tenants) (scaffold_service tools repository service_files p tenants)
  unfolding scaffold_service
  scaffold-Keeps C p tenants =
      Holds-bind _ _ (Holds-check _ _ λ _. ensure_team-StillFound p tenants _) λ present found.
        Holds-bind_eq _ _ λ t e.
          Holds-bind _ _ (Holds-check _ _ λ _. add_database-SameParts p t present.1) λ stocked same.
            with_tenants-Keeps C _ _ _ (
              Keeps-found C tenants present.0 _ found (
                Keeps-store C p.team present.0 t _ (tenant_of-find _ present.0 t e) same.0 λ n a f.
                  inl (
                    subst (Named application_name n) (sym same.1)
                      (find-Named application_name n t.applications a f))))

  bind_component-KeepsNames :
      (q : ChangeParameters) (applications : List CatalogApplication)
      (o : Option CatalogApplication)
      → find_named application_name q.name applications ≡ o
      → Holds
          (KeepsNames applications)
          (bind_component tools repository service_files q applications o)
  unfolding bind_component
  bind_component-KeepsNames q applications none f =
      returned λ n h. Named-append_left application_name n applications _ h
  bind_component-KeepsNames q applications (some entry) f = Holds-check _ _ λ _. returned λ n h.
      Named-replace application_name q.name n _ applications
        (find-name application_name q.name applications entry f) h

  abbrev KeepsFirst : List CatalogApplication → List CatalogApplication × Changes → Type 0
  KeepsFirst before r = KeepsNames before r.0

  activate_components-KeepsNames :
      (p : ChangeParameters) (service : CatalogService) (components : List Bytes)
      (applications : List CatalogApplication) (cs : Changes)
      → Holds
          (KeepsFirst applications)
          (activate_components tools repository service_files p service components applications cs)
  unfolding activate_components component_parameters
  activate_components-KeepsNames p service [] applications cs = returned λ n h. h
  activate_components-KeepsNames p service (component ∷ components) applications cs =
      Holds-bind _ _
        (bind_component-KeepsNames (component_parameters p service component) applications _ refl)
        λ bound k. Holds-bind_eq _ _ λ written _.
          Holds-mono (λ r l n h. l n (k n h))
            (activate_components-KeepsNames p service components bound written)

  pub activate-Keeps :
      (C : Excuse) (p : ChangeParameters) (tenants : Tenants)
      → Holds (KeepsPair C tenants) (activate_service tools repository service_files p tenants)
  unfolding activate_service
  activate-Keeps C p tenants = Holds-bind_eq _ _ λ t e. Holds-bind_eq _ _ λ service _.
      Holds-bind _ _
        (Holds-check _ _ λ _. activate_components-KeepsNames p service _ t.applications [])
        λ r k. with_tenants-Keeps C _ _ _ (
          Keeps-store C p.team tenants t _ (active_tenant-find _ tenants t e) refl λ n a f. inl (
            Named-sort application_name n _
              (k n (find-Named application_name n t.applications a f))))

  retire_components-KeepsNames :
      (request : Bytes) (force : Bool) (components : List Bytes)
      (applications : List CatalogApplication) (cs : Changes)
      → Holds (KeepsFirst applications) (
          retire_components tools repository service_files request force components applications cs)
  unfolding retire_components
  retire_components-KeepsNames request force [] applications cs = returned λ n h. h
  retire_components-KeepsNames request force (component ∷ components) applications cs =
      Holds-found _ _ _ (retire_components-KeepsNames request force components applications cs)
        λ entry f. Holds-bind_eq _ _ λ written _.
          Holds-mono
            (λ r l n h. l n (
              Named-replace application_name component n _ applications
                (find-name application_name component applications entry f) h))
            (retire_components-KeepsNames request force components _ written)

  retire_team-SameParts :
      (request : Bytes) (force : Bool) (service : CatalogService) (t : CatalogTenant) (cs : Changes)
      → Holds
          (SameParts t)
          (retire_owned_team tools repository service_files request force service t cs)
  unfolding retire_owned_team
  retire_team-SameParts request force service t cs =
      Holds-if service.owns_team _ _ (λ _. Holds-bind_eq _ _ λ written _. returned (refl, refl))
        λ _. returned (refl, refl)

  pub retire-Keeps :
      (C : Excuse) (request : Bytes) (p : ChangeParameters) (tenants : Tenants)
      → Holds
          (KeepsPair C tenants)
          (retire_service tools repository service_files request p tenants)
  unfolding retire_service
  retire-Keeps C request p tenants = Holds-bind_eq _ _ λ t e. Holds-bind_eq _ _ λ service _.
      Holds-bind _ _
        (Holds-check _ _ λ _. retire_components-KeepsNames request p.force _ t.applications [])
        λ r k. Holds-bind_eq _ _ λ d _.
          Holds-bind _ _ (retire_team-SameParts request p.force service _ d.1) λ u same. returned (
            Keeps-store C p.team tenants t u.0 (active_tenant-find _ tenants t e) same.0 λ n a f.
              inl (
                subst (Named application_name n) (sym same.1)
                  (k n (find-Named application_name n t.applications a f))))
