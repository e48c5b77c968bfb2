-- ===== src/Platform/Laws/Removals.antt =====
-- An operation removes an Application from the catalog only where it, or its Team, was to be deleted
-- under the deletion request that the operation names.
use steadystate.Prelude.{
  Bytes, bytes_eq, bytes_eq_iff, Bool, true, Bool-cases, inl, inr, Option, none, some, List, [],
  ◌∷◌, ◌≡◌, refl, ◌∙◌, ap, arith, Result, ok,
}
use mathlib.Core.Path.{subst}
use steadystate.Platform.Errors.{Error}
use steadystate.Platform.Laws.Posts.{
  Holds, returned, raised, Holds-bind, Holds-bind_eq, Holds-check, Holds-if, Holds-mono,
  Holds-found_eq, Holds-always, returned_value,
}
use steadystate.Platform.Laws.Names.{find-Named, find-name, find-remove_other}
use steadystate.Platform.Laws.Kept.{
  Keeps, Keeps-store, Keeps-removed, Condemned, Retires, require_retiring-Retires, tenant_of-find,
}
use steadystate.Platform.Named.{find_named}
use steadystate.Platform.Catalog.Data.{CatalogService, CatalogApplication, CatalogTenant}
use steadystate.Platform.Request.{Operation, ChangeParameters}
use steadystate.Platform.Files.{Repository}
use steadystate.Platform.Manifests.{Changes, Tools}
use steadystate.Platform.Operations.{Tenants, Rendered, tenant_name, application_name}
use steadystate.Prelude.{contains}
use steadystate.Platform.Sources.{ServiceFiles}
use steadystate.Platform.Laws.Names.{find-remove_all, find-remove_pointed}
use steadystate.Platform.Laws.Edits.{
  KeepsPair, with_tenants-Keeps, create_team-Keeps, update_team-Keeps, create_application-Keeps,
  update_application-Keeps, create_database-Keeps, update_database-Keeps, approve_team-Keeps,
  approve_application-Keeps, approve_database-Keeps, finalize_database-Keeps,
  finalize_application-Keeps,
}
use steadystate.Platform.Laws.KeptServices.{scaffold-Keeps, activate-Keeps, retire-Keeps}
use steadystate.Platform.Request.{
  team_create, team_update, team_delete, team_finalize, app_create, app_update, app_delete,
  app_finalize, database_create, database_update, database_restore, database_delete,
  database_finalize, service_scaffold, service_activate, service_retire, service_finalize,
  unsupported,
}
use steadystate.Platform.Change.{finalizes}
use steadystate.Platform.Finalize.{
  finalize_team, finalize_components, without_service, finalize_service,
}
use steadystate.Platform.Render.{render}

none_contained : (n : Bytes) → ◌≡◌ {A = Bool} (contains [] n) true → ⊥
unfolding contains
none_contained n h = ground arith

not_found : (o : Option CatalogApplication) (a : CatalogApplication) → o ≡ none → o ≡ some a → ⊥
not_found o a e f = ground arith

same_entry :
    (o : Option CatalogApplication) (a b : CatalogApplication) → o ≡ some a → o ≡ some b → a ≡ b
same_entry o a b e f = cc

-- What excuses a removal by an operation: it finalizes what was to be deleted.
pub record Finalized (operation : Operation) (p : ChangeParameters) (t : CatalogTenant)
    (a : CatalogApplication) : Type 0 where
  pub is_final : finalizes operation ≡ true
  pub was_condemned : Condemned p t a

module _ (tools : Tools) (repository : Repository) (service_files : ServiceFiles) where
  module _ (p : ChangeParameters) where
    pub finalize_team-Keeps :
        (tenants : Tenants)
        → Holds
            (KeepsPair (Condemned p) tenants)
            (finalize_team tools repository service_files p tenants)
    unfolding finalize_team
    finalize_team-Keeps tenants = Holds-bind_eq _ _ λ t e. Holds-check _ _ λ r.
        with_tenants-Keeps (Condemned p) _ _ _ (
          Keeps-removed (Condemned p) p.name tenants _ t (tenant_of-find _ tenants t e)
            (λ a. inl (require_retiring-Retires p _ _ r))
            λ other q. find-remove_other tenant_name p.name other tenants q)

    -- Every component that is an Application of the tenant was to be deleted.
    abbrev AllRetire : List CatalogApplication → List Bytes → Type 0
    AllRetire applications components =
        (n : Bytes) (a : CatalogApplication)
        → contains components n ≡ true
        → find_named application_name n applications ≡ some a
        → Retires p a.lifecycle a.deletion_request

    AllRetire-cons :
        (applications : List CatalogApplication) (component : Bytes) (components : List Bytes)
        → ((a : CatalogApplication)
            → find_named application_name component applications ≡ some a
            → Retires p a.lifecycle a.deletion_request)
        → AllRetire applications components
        → AllRetire applications (component ∷ components)
    unfolding contains
    AllRetire-cons applications component components first others n a c f =
        elim (Bool-cases (bytes_eq component n)) [
          | inl q ↦ first a (
              ap (λ (m : Bytes). find_named application_name m applications)
                ((bytes_eq_iff component n).0 q)
              ∙ f)
          | inr q ↦ others n a (ground arith) f
        ]

    finalize_components-AllRetire :
        (applications : List CatalogApplication) (components : List Bytes) (cs : Changes)
        → Holds
            (λ (r : Changes). AllRetire applications components)
            (finalize_components tools repository service_files p applications components cs)
    unfolding finalize_components
    finalize_components-AllRetire applications [] cs =
        returned λ n a c f. absurd (none_contained n c)
    finalize_components-AllRetire applications (component ∷ components) cs =
        Holds-found_eq _ _ _
          (λ missing.
            Holds-mono
              (λ r.
                AllRetire-cons applications component components
                  (λ a f. absurd (not_found _ a missing f)))
              (finalize_components-AllRetire applications components cs))
          λ entry g.
            Holds-bind {P = λ (r : Changes). Retires p entry.lifecycle entry.deletion_request} _ _
              (Holds-check _ _ λ r. Holds-always _ λ _. require_retiring-Retires p _ _ r)
              λ removed retires.
                Holds-mono
                  (λ r. AllRetire-cons applications component components (λ a f.
                    subst (λ (x : CatalogApplication). Retires p x.lifecycle x.deletion_request)
                      (same_entry _ entry a g f) retires))
                  (finalize_components-AllRetire applications components removed)

    abbrev PairKeeps : Tenants → Rendered → Type 0
    PairKeeps = KeepsPair (Condemned p)

    without_service-Keeps :
        (team : Bytes) (t : CatalogTenant) (service : CatalogService) (tenants : Tenants)
        (cs : Changes)
        → find_named tenant_name team tenants ≡ some t
        → AllRetire t.applications service.components
        → Holds
            (PairKeeps tenants)
            (without_service tools repository service_files p t service tenants cs)
    unfolding without_service
    without_service-Keeps team t service tenants cs f k =
        Holds-if service.owns_team _ _
          (λ _. Holds-check _ _ λ r. with_tenants-Keeps (Condemned p) _ _ _ (
            Keeps-removed (Condemned p) t.name tenants _ t
              (ap (λ (n : Bytes). find_named tenant_name n tenants)
                  (find-name tenant_name team tenants t f)
                ∙ f)
              (λ a. inl (require_retiring-Retires p _ _ r))
              λ other q. find-remove_pointed tenant_name t.name other tenants q))
          λ _. returned (
            Keeps-store (Condemned p) team tenants t _ f refl λ n a g.
              elim (Bool-cases (contains service.components n)) [
                | inl c ↦ inr (inr (k n a c g))
                | inr c ↦ inl (
                    find-Named application_name n _ a
                      (find-remove_all application_name service.components n t.applications c ∙ g))
              ])

    pub finalize_service-Keeps :
        (tenants : Tenants)
        → Holds (PairKeeps tenants) (finalize_service tools repository service_files p tenants)
    unfolding finalize_service
    finalize_service-Keeps tenants = Holds-bind_eq _ _ λ t e. Holds-bind_eq _ _ λ service _.
        Holds-bind {P = λ (r : Changes). AllRetire t.applications service.components} _ _
          (Holds-bind {P = λ (r : Changes). AllRetire t.applications service.components} _ _
            (Holds-bind {P = λ (r : Changes). AllRetire t.applications service.components} _ _
              (Holds-check _ _
                λ _. finalize_components-AllRetire t.applications service.components [])
              λ cs k. Holds-always _ λ _. k)
            λ cs k. Holds-always _ λ _. k)
          λ cs k. without_service-Keeps p.team t service tenants cs (tenant_of-find _ tenants t e) k

  final-Finalized :
      (operation : Operation) (p : ChangeParameters) (tenants : Tenants) (r : Result Error Rendered)
      → finalizes operation ≡ true
      → Holds (KeepsPair (Condemned p) tenants) r
      → Holds (KeepsPair (Finalized operation p) tenants) r
  final-Finalized operation p tenants r f h =
      Holds-mono
        (λ s k. record {
          keeps = λ team application e. elim (k.keeps team application e) [
            | inl kept ↦ inl kept
            | inr c ↦ inr (record { is_final = f; was_condemned = c })
          ];
        })
        h

  render-Keeps :
      (operation : Operation) (request : Bytes) (p : ChangeParameters) (tenants : Tenants)
      → Holds
          (KeepsPair (Finalized operation p) tenants)
          (render tools repository service_files operation request p tenants)
  unfolding render
  render-Keeps team_create request p tenants = create_team-Keeps _ tools repository p tenants
  render-Keeps team_update request p tenants = update_team-Keeps _ tools repository p tenants
  render-Keeps team_delete request p tenants =
      approve_team-Keeps _ tools repository request p tenants
  render-Keeps team_finalize request p tenants =
      final-Finalized _ p tenants _ refl (finalize_team-Keeps p tenants)
  render-Keeps app_create request p tenants = create_application-Keeps _ tools repository p tenants
  render-Keeps app_update request p tenants = update_application-Keeps _ tools repository p tenants
  render-Keeps app_delete request p tenants =
      approve_application-Keeps _ tools repository request p tenants
  render-Keeps app_finalize request p tenants =
      final-Finalized _ p tenants _ refl (finalize_application-Keeps tools repository p tenants)
  render-Keeps database_create request p tenants =
      create_database-Keeps _ tools repository _ p tenants
  render-Keeps database_update request p tenants =
      update_database-Keeps _ tools repository _ p tenants
  render-Keeps database_restore request p tenants =
      create_database-Keeps _ tools repository _ p tenants
  render-Keeps database_delete request p tenants =
      approve_database-Keeps _ tools repository request p tenants
  render-Keeps database_finalize request p tenants =
      finalize_database-Keeps _ tools repository p tenants
  render-Keeps service_scaffold request p tenants =
      scaffold-Keeps tools repository service_files _ p tenants
  render-Keeps service_activate request p tenants =
      activate-Keeps tools repository service_files _ p tenants
  render-Keeps service_retire request p tenants =
      retire-Keeps tools repository service_files _ request p tenants
  render-Keeps service_finalize request p tenants =
      final-Finalized _ p tenants _ refl (finalize_service-Keeps p tenants)
  render-Keeps (unsupported operation) request p tenants = raised

  -- Where an operation succeeds, each Application of the catalog is in it afterwards, in the same
  -- tenant, unless the operation is a finalization, and the Application or its Team was Retiring under
  -- the deletion request that the operation names.
  pub render-IsTwoPhase :
      (operation : Operation) (request : Bytes) (p : ChangeParameters) (tenants : Tenants)
      (r : Rendered)
      → render tools repository service_files operation request p tenants ≡ ok r
      → Keeps (Finalized operation p) tenants r.0
  render-IsTwoPhase operation request p tenants r e =
      returned_value (render-Keeps operation request p tenants) e
