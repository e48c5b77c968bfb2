-- ===== src/Platform/Laws/Edits.antt =====
-- The operations on Teams, Applications and Databases keep the Applications, but the finalizations.
use steadystate.Prelude.{
  Bytes, bytes_eq, bytes_eq_iff, Bool-cases, inl, inr, Option, some, ◌≡◌, refl, ◌∙◌, ap, Result,
}
use mathlib.Core.Path.{subst}
use steadystate.Platform.Errors.{Error}
use steadystate.Platform.Laws.Posts.{Holds, returned, Holds-bind_eq, Holds-check}
use steadystate.Platform.Laws.Names.{
  find-Named, find-name, Named-replace, Named-append_left, Named-sort, Named-map, find-remove_other,
  find-append_left,
}
use steadystate.Platform.Laws.Kept.{
  Excuse, Keeps, KeepsIn, Keeps-same, Keeps-store, Keeps-found, Condemned, Retires,
  require_retiring-Retires, active_tenant-find, application_entry-find,
}
use steadystate.Platform.Named.{find_named, replace_named, remove_named}
use steadystate.Platform.Catalog.Data.{CatalogApplication, CatalogTenant}
use steadystate.Platform.Request.{Operation, ChangeParameters}
use steadystate.Platform.Files.{Repository}
use steadystate.Platform.Manifests.{Changes, Tools}
use steadystate.Platform.Operations.{
  Tenants, Rendered, with_tenants, tenant_name, application_name, retire_application, create_team,
  update_team, create_application, update_application, create_database, update_database,
  approve_team_deletion, approve_application_deletion, approve_database_deletion,
  finalize_application, finalize_database,
}

module _ (C : Excuse) where
  -- Of the catalog in a pair with the changes.
  abbrev pub KeepsPair : Tenants → Rendered → Type 0
  KeepsPair before r = Keeps C before r.0

  pub with_tenants-Keeps :
      (before after : Tenants) (r : Result Error Changes)
      → Keeps C before after
      → Holds (KeepsPair before) (with_tenants after r)
  with_tenants-Keeps before after r k = Holds-bind_eq r _ λ changes _. returned k

  pub KeepsIn-same : (t : CatalogTenant) → KeepsIn C t t.applications
  KeepsIn-same t n a f = inl (find-Named application_name n t.applications a f)

module _ (C : Excuse) (tools : Tools) (repository : Repository) where
  pub create_team-Keeps :
      (p : ChangeParameters) (tenants : Tenants)
      → Holds (KeepsPair C tenants) (create_team tools repository p tenants)
  unfolding create_team
  create_team-Keeps p tenants = Holds-check _ _ λ _. with_tenants-Keeps C _ _ _ (
      Keeps-found C _ _ _ (λ name t f. find-append_left tenant_name name t tenants _ f)
        (Keeps-same C _))

  pub update_team-Keeps :
      (p : ChangeParameters) (tenants : Tenants)
      → Holds (KeepsPair C tenants) (update_team tools repository p tenants)
  unfolding update_team
  update_team-Keeps p tenants = Holds-bind_eq _ _ λ t e.
      with_tenants-Keeps C _ _ _ (
        Keeps-store C p.name tenants t _ (active_tenant-find _ tenants t e) refl (KeepsIn-same C t))

  pub create_application-Keeps :
      (p : ChangeParameters) (tenants : Tenants)
      → Holds (KeepsPair C tenants) (create_application tools repository p tenants)
  unfolding create_application
  create_application-Keeps p tenants = Holds-bind_eq _ _ λ t e. Holds-check _ _ λ _.
      Holds-check _ _ λ _. with_tenants-Keeps C _ _ _ (
        Keeps-store C p.team tenants t _ (active_tenant-find _ tenants t e) refl λ n a f. inl (
          Named-sort application_name n _ (
            Named-append_left application_name n t.applications _
              (find-Named application_name n t.applications a f))))

  -- An Application of the tenant is replaced by one of the same name.
  pub replaced-KeepsIn :
      (t : CatalogTenant) (name : Bytes) (entry entry' : CatalogApplication)
      → find_named application_name name t.applications ≡ some entry
      → entry'.name ≡ entry.name
      → KeepsIn C t (replace_named application_name name entry' t.applications)
  replaced-KeepsIn t name entry entry' g same n a f = inl (
      Named-replace application_name name n entry' t.applications
        (same ∙ find-name application_name name t.applications entry g)
        (find-Named application_name n t.applications a f))

  pub update_application-Keeps :
      (p : ChangeParameters) (tenants : Tenants)
      → Holds (KeepsPair C tenants) (update_application tools repository p tenants)
  unfolding update_application
  update_application-Keeps p tenants = Holds-bind_eq _ _ λ t e. Holds-bind_eq _ _ λ entry g.
      Holds-check _ _ λ _. Holds-check _ _ λ _. with_tenants-Keeps C _ _ _ (
        Keeps-store C p.team tenants t _ (active_tenant-find _ tenants t e) refl
          (replaced-KeepsIn t p.name entry _ (application_entry-find t p.name entry g) refl))

  pub create_database-Keeps :
      (operation : Operation) (p : ChangeParameters) (tenants : Tenants)
      → Holds (KeepsPair C tenants) (create_database tools repository operation p tenants)
  unfolding create_database
  create_database-Keeps operation p tenants = Holds-bind_eq _ _ λ t e. Holds-check _ _ λ _.
      with_tenants-Keeps C _ _ _ (
        Keeps-store C p.team tenants t _ (active_tenant-find _ tenants t e) refl (KeepsIn-same C t))

  pub update_database-Keeps :
      (operation : Operation) (p : ChangeParameters) (tenants : Tenants)
      → Holds (KeepsPair C tenants) (update_database tools repository operation p tenants)
  unfolding update_database
  update_database-Keeps operation p tenants = Holds-bind_eq _ _ λ t e.
      Holds-bind_eq _ _
        λ database _. Holds-check _ _ λ _. with_tenants-Keeps C _ _ _ (Keeps-same C tenants)

  pub approve_team-Keeps :
      (request : Bytes) (p : ChangeParameters) (tenants : Tenants)
      → Holds (KeepsPair C tenants) (approve_team_deletion tools repository request p tenants)
  unfolding approve_team_deletion
  approve_team-Keeps request p tenants = Holds-bind_eq _ _ λ t e. with_tenants-Keeps C _ _ _ (
      Keeps-store C p.name tenants t _ (active_tenant-find _ tenants t e) refl λ n a f. inl (
        Named-map application_name (retire_application request) n t.applications (λ x. refl)
          (find-Named application_name n t.applications a f)))

  pub approve_application-Keeps :
      (request : Bytes) (p : ChangeParameters) (tenants : Tenants)
      → Holds
          (KeepsPair C tenants)
          (approve_application_deletion tools repository request p tenants)
  unfolding approve_application_deletion
  approve_application-Keeps request p tenants = Holds-bind_eq _ _ λ t e.
      Holds-bind_eq _ _ λ entry g. Holds-check _ _ λ _. with_tenants-Keeps C _ _ _ (
        Keeps-store C p.team tenants t _ (active_tenant-find _ tenants t e) refl
          (replaced-KeepsIn t p.name entry _ (application_entry-find t p.name entry g) refl))

  pub approve_database-Keeps :
      (request : Bytes) (p : ChangeParameters) (tenants : Tenants)
      → Holds (KeepsPair C tenants) (approve_database_deletion tools repository request p tenants)
  unfolding approve_database_deletion
  approve_database-Keeps request p tenants = Holds-bind_eq _ _ λ t e. Holds-check _ _ λ _.
      Holds-bind_eq _ _ λ database _. Holds-check _ _ λ _. with_tenants-Keeps C _ _ _ (
        Keeps-store C p.team tenants t _ (active_tenant-find _ tenants t e) refl (KeepsIn-same C t))

  pub finalize_database-Keeps :
      (p : ChangeParameters) (tenants : Tenants)
      → Holds (KeepsPair C tenants) (finalize_database tools repository p tenants)
  unfolding finalize_database
  finalize_database-Keeps p tenants = Holds-bind_eq _ _ λ t e. Holds-bind_eq _ _ λ database _.
      Holds-check _ _ λ _. with_tenants-Keeps C _ _ _ (
        Keeps-store C p.team tenants t _ (active_tenant-find _ tenants t e) refl (KeepsIn-same C t))

-- The finalizations that remove Applications.
module _ (tools : Tools) (repository : Repository) (p : ChangeParameters) where
  entry_found :
      (o : Option CatalogApplication) (a b : CatalogApplication) → o ≡ some a → o ≡ some b → a ≡ b
  entry_found o a b e f = cc

  removed-KeepsIn :
      (t : CatalogTenant) (entry : CatalogApplication)
      → find_named application_name p.name t.applications ≡ some entry
      → Retires p entry.lifecycle entry.deletion_request
      → KeepsIn (Condemned p) t (remove_named application_name p.name t.applications)
  removed-KeepsIn t entry g r n a f = elim (Bool-cases (bytes_eq p.name n)) [
    | inl q ↦
        let here =
          ap (λ (m : Bytes). find_named application_name m t.applications)
            ((bytes_eq_iff p.name n).0 q) in
        inr (
          inr (
            subst (λ (x : CatalogApplication). Retires p x.lifecycle x.deletion_request)
              (entry_found _ entry a g (here ∙ f)) r))
    | inr q ↦ inl (
        find-Named application_name n _ a
          (find-remove_other application_name p.name n t.applications q ∙ f))
  ]

  pub finalize_application-Keeps :
      (tenants : Tenants)
      → Holds (KeepsPair (Condemned p) tenants) (finalize_application tools repository p tenants)
  unfolding finalize_application
  finalize_application-Keeps tenants = Holds-bind_eq _ _ λ t e. Holds-bind_eq _ _ λ entry g.
      Holds-check _ _ λ r. with_tenants-Keeps (Condemned p) _ _ _ (
        Keeps-store (Condemned p) p.team tenants t _ (active_tenant-find _ tenants t e) refl (
          removed-KeepsIn t entry (application_entry-find t p.name entry g)
            (require_retiring-Retires p _ _ r)))
