-- ===== src/Platform/Laws/Scaffold.antt =====
-- What the scaffolding of a service with a Database does to the catalog's Database names.
use steadystate.Prelude.{
  ℕ, ◌+◌, ◌≤◌, Bytes, bytes_eq_refl, true, none, some, List, [], ◌∷◌, ◌++◌, ◌≡◌, ◌≢◌, refl, ◌∙◌, ap,
  arith, Result, ok, err,
}
use steadystate.Platform.Errors.{Error}
use steadystate.Platform.Laws.Posts.{
  Holds, returned, Holds-bind, Holds-bind_eq, Holds-check, Holds-if, returned_value,
}
use steadystate.Platform.Laws.Names.{find-name}
use steadystate.Platform.Laws.Kept.{tenant_of-find}
use steadystate.Platform.Laws.Unique.{
  count_databases, listed, count-append, count-sort, listed-append, listed-sort, listed-replace,
  valid-IsUnique,
}
use steadystate.Platform.Named.{find_named, sort_named}
use steadystate.Platform.Catalog.Data.{CatalogDatabase, CatalogTenant, TenantCatalog}
use steadystate.Platform.Catalog.Validation.{Checks, validate_catalog}
use steadystate.Platform.Request.{ChangeParameters}
use steadystate.Platform.Files.{Repository}
use steadystate.Platform.Manifests.{Changes, Tools}
use steadystate.Platform.Sources.{ServiceFiles}
use steadystate.Platform.Operations.{
  Tenants, Rendered, tenant_name, database_name, store, new_database, new_tenant,
}
use steadystate.Platform.Services.{ensure_team, add_database, scaffold_service}

one_more :
    (name : Bytes) (ds : List CatalogDatabase)
    → count_databases name (sort_named database_name (ds ++ (new_database name ∷ [])))
      ≡ count_databases name ds + 1
unfolding count_databases
one_more name ds =
    count-sort name (ds ++ (new_database name ∷ []))
    ∙ ground (arith, count-append name ds (new_database name ∷ []), bytes_eq_refl name)

stored_one_more :
    (name : Bytes) (t t' : CatalogTenant) (ts : Tenants)
    → find_named tenant_name t'.name ts ≡ some t
    → count_databases name t'.databases ≡ count_databases name t.databases + 1
    → listed name (store t' ts) ≡ listed name ts + 1
stored_one_more name t t' ts f c = omega (arith, listed-replace name t'.name t t' ts f)

no_databases :
    (name team : Bytes) (owners : List Bytes) → listed name (new_tenant team owners ∷ []) ≡ 0
unfolding listed count_databases
no_databases name team owners = refl

found_by_own_name :
    (team : Bytes) (t : CatalogTenant) (ts : Tenants) (s : CatalogTenant)
    → s.name ≡ t.name
    → find_named tenant_name team ts ≡ some t
    → find_named tenant_name s.name ts ≡ some t
found_by_own_name team t ts s same f =
    ap (λ (n : Bytes). find_named tenant_name n ts) (same ∙ find-name tenant_name team ts t f) ∙ f

module _ (tools : Tools) (repository : Repository) (service_files : ServiceFiles)
    (p : ChangeParameters) where
  abbrev SameListed : Tenants → Rendered → Type 0
  SameListed before r = listed p.name r.0 ≡ listed p.name before

  ensure_team-SameListed :
      (tenants : Tenants) (r : Result Error CatalogTenant)
      → Holds (SameListed tenants) (ensure_team tools repository service_files p tenants r)
  unfolding ensure_team
  ensure_team-SameListed tenants (ok t) = Holds-check _ _ λ _. returned refl
  ensure_team-SameListed tenants (err e) = Holds-check _ _ λ _. Holds-bind_eq _ _ λ changes _.
      returned (
        listed-sort p.name _
        ∙ omega (arith, listed-append p.name tenants _, no_databases p.name p.team _))

  record Stocked (t : CatalogTenant) (s : CatalogTenant × Changes) : Type 0 where
    name : s.0.name ≡ t.name
    databases : count_databases p.name s.0.databases ≡ count_databases p.name t.databases + 1

  add_database-Stocked :
      (t : CatalogTenant) (cs : Changes)
      → p.with_database ≡ true
      → Holds (Stocked t) (add_database tools repository service_files p t cs)
  unfolding add_database
  add_database-Stocked t cs w =
      Holds-if p.with_database _ _
        (λ _. Holds-check _ _ λ _.
          Holds-bind_eq _ _
            λ written _. returned (record { name = refl; databases = one_more p.name t.databases }))
        λ e. absurd (ground arith)

  abbrev OneMore : Tenants → Rendered → Type 0
  OneMore before r = listed p.name r.0 ≡ listed p.name before + 1

  scaffold-OneMore :
      (tenants : Tenants)
      → p.with_database ≡ true
      → Holds (OneMore tenants) (scaffold_service tools repository service_files p tenants)
  unfolding scaffold_service
  scaffold-OneMore tenants w =
      Holds-bind _ _ (Holds-check _ _ λ _. ensure_team-SameListed tenants _) λ present same.
        Holds-bind_eq _ _ λ t e.
          Holds-bind _ _ (Holds-check _ _ λ _. add_database-Stocked t present.1 w) λ stocked s.
            Holds-bind_eq _ _ λ changes _. returned (
              stored_one_more p.name t _ present.0
                (found_by_own_name p.team t present.0 stocked.0 s.name
                  (tenant_of-find p.team present.0 t e))
                s.databases
              ∙ ap (λ (k : ℕ). k + 1) same)

  -- A service that is scaffolded with a Database whose name the catalog lists already, for this Team
  -- or another, leaves a catalog that Validate refuses.
  pub scaffold_reused-IsRefused :
      (checks : Checks) (c : TenantCatalog) (r : Rendered)
      → p.with_database ≡ true
      → 1 ≤ listed p.name c.tenants
      → scaffold_service tools repository service_files p c.tenants ≡ ok r
      → validate_catalog checks (record c { tenants = r.0 }) ≢ none
  scaffold_reused-IsRefused checks c r w l e accepted =
      let unique = valid-IsUnique checks (record c { tenants = r.0 }) p.name accepted in
      let more = returned_value (scaffold-OneMore c.tenants w) e in absurd (omega arith)
