-- ===== src/Platform/Laws/Kept.antt =====
-- Which Applications of the catalog an operation keeps.
use steadystate.Prelude.{
  Bytes, bytes_eq, bytes_eq_iff, false, Bool-cases, inl, inr, ◌⊎◌, Option, none, some, List, ◌≡◌,
  refl, sym, ◌∙◌, ap, arith, ok,
}
use mathlib.Core.Path.{subst}
use steadystate.Platform.Errors.{◌>>=◌, ◌>>◌}
use steadystate.Platform.Laws.Names.{
  Named, Named-find, find-name, find-replace_same, find-replace_other,
}
use steadystate.Platform.Named.{find_named, replace_named}
use steadystate.Platform.Catalog.Data.{CatalogApplication, CatalogTenant}
use steadystate.Platform.Catalog.Validation.{retiring}
use steadystate.Platform.Request.{ChangeParameters}
use steadystate.Platform.Operations.{
  Tenants, tenant_name, application_name, tenant_of, active_tenant, application_entry,
  require_retiring, store,
}

-- The Application is in the catalog, in that tenant.
pub record Entry (team application : Bytes) (tenants : Tenants) : Type 0 where
  pub tenant : CatalogTenant
  pub entry : CatalogApplication
  pub of_tenant : find_named tenant_name team tenants ≡ some tenant
  pub of_entry : find_named application_name application tenant.applications ≡ some entry

-- Something retires under the deletion request of the parameters.
pub record Retires (p : ChangeParameters) (lifecycle request : Bytes) : Type 0 where
  pub lifecycle_is : lifecycle ≡ retiring
  pub request_is : request ≡ p.deletion_request

-- The Application, or its Team, was to be deleted under the deletion request of the parameters.
abbrev pub Condemned : ChangeParameters → CatalogTenant → CatalogApplication → Type 0
Condemned p t a =
    Retires p t.lifecycle t.deletion_request ⊎ Retires p a.lifecycle a.deletion_request

-- What excuses the removal of an Application from its tenant.
abbrev pub Excuse : Type 1
Excuse = CatalogTenant → CatalogApplication → Type 0

-- Every Application of the catalog is in it afterwards too, in the same tenant, or there is an excuse.
pub record Keeps (C : Excuse) (before after : Tenants) : Type 0 where
  pub keeps :
      (team application : Bytes) (e : Entry team application before)
      → Entry team application after ⊎ C e.tenant e.entry

pub require_retiring-Retires :
    (p : ChangeParameters) (lifecycle request : Bytes)
    → require_retiring lifecycle request p ≡ none
    → Retires p lifecycle request
unfolding require_retiring
require_retiring-Retires p lifecycle request h = record {
  lifecycle_is = ground (arith, bytes_eq_iff lifecycle retiring);
  request_is = ground (arith, bytes_eq_iff request p.deletion_request);
}

pub tenant_of-find :
    (name : Bytes) (tenants : Tenants) (t : CatalogTenant)
    → tenant_of name tenants ≡ ok t
    → find_named tenant_name name tenants ≡ some t
unfolding tenant_of
tenant_of-find name tenants t h = ground arith

pub active_tenant-find :
    (name : Bytes) (tenants : Tenants) (t : CatalogTenant)
    → active_tenant name tenants ≡ ok t
    → find_named tenant_name name tenants ≡ some t
unfolding active_tenant ◌>>=◌ ◌>>◌
active_tenant-find name tenants t h = ground (arith, tenant_of-find name tenants t)

pub application_entry-find :
    (t : CatalogTenant) (name : Bytes) (a : CatalogApplication)
    → application_entry t name ≡ ok a
    → find_named application_name name t.applications ≡ some a
unfolding application_entry
application_entry-find t name a h = ground arith

-- What the Applications of one tenant must keep.
abbrev pub KeepsIn : Excuse → CatalogTenant → List CatalogApplication → Type 0
KeepsIn C t after =
    (n : Bytes) (a : CatalogApplication)
    → find_named application_name n t.applications ≡ some a
    → Named application_name n after ⊎ C t a

module _ (C : Excuse) where
  pub Keeps-same : (tenants : Tenants) → Keeps C tenants tenants
  Keeps-same tenants = record { keeps = λ team application e. inl e }

  find-Entry :
      (team application : Bytes) (tenants : Tenants) (t : CatalogTenant)
      → find_named tenant_name team tenants ≡ some t
      → Named application_name application t.applications
      → Entry team application tenants
  find-Entry team application tenants t f n =
      let (a, g) = Named-find application_name application t.applications n in
      record { tenant = t; entry = a; of_tenant = f; of_entry = g }

  kept_same :
      (n : Bytes) (t u : CatalogTenant) (after : List CatalogApplication)
      → t ≡ u
      → KeepsIn C t after
      → (a : CatalogApplication) → find_named application_name n u.applications ≡ some a
      → Named application_name n after ⊎ C u a
  kept_same n t u after q k =
      subst
        (λ (v : CatalogTenant).
          (a : CatalogApplication)
          → find_named application_name n v.applications ≡ some a
          → Named application_name n after ⊎ C v a)
        q (k n)

  same_found : (o : Option CatalogTenant) (t u : CatalogTenant) → o ≡ some t → o ≡ some u → t ≡ u
  same_found o t u e f = cc

  same_tenant :
      (team name : Bytes) (tenants : Tenants) (t u : CatalogTenant)
      → find_named tenant_name team tenants ≡ some t
      → team ≡ name
      → find_named tenant_name name tenants ≡ some u
      → t ≡ u
  same_tenant team name tenants t u f e g =
      same_found _ t u f (ap (λ (n : Bytes). find_named tenant_name n tenants) e ∙ g)

  -- A tenant is replaced by one that keeps its name.
  pub Keeps-store :
      (team : Bytes) (tenants : Tenants) (t t' : CatalogTenant)
      → find_named tenant_name team tenants ≡ some t
      → t'.name ≡ t.name
      → KeepsIn C t t'.applications
      → Keeps C tenants (store t' tenants)
  Keeps-store team tenants t t' f same k = record {
    keeps = λ other n e. elim (Bool-cases (bytes_eq t'.name other)) [
      | inl q ↦
          let named = (bytes_eq_iff t'.name other).0 q in
          let here = sym (find-name tenant_name team tenants t f) ∙ (sym same ∙ named) in
          elim (kept_same n t e.tenant t'.applications
            (same_tenant team other tenants t e.tenant f here e.of_tenant) k e.entry e.of_entry) [
              | inl kept ↦ inl (
                  find-Entry other n _ t'
                    (subst
                      (λ (m : Bytes).
                        find_named tenant_name other (replace_named tenant_name m t' tenants)
                        ≡ some t')
                      (sym named)
                      (find-replace_same tenant_name other t' e.tenant tenants q e.of_tenant))
                    kept)
              | inr c ↦ inr c
            ]
      | inr q ↦ inl (record {
        tenant = e.tenant;
        entry = e.entry;
        of_tenant = find-replace_other tenant_name t'.name other t' tenants q refl ∙ e.of_tenant;
        of_entry = e.of_entry;
      })
    ];
  }

  -- A tenant is left out that was to be deleted; the others are found as before.
  pub Keeps-removed :
      (team : Bytes) (tenants after : Tenants) (t : CatalogTenant)
      → find_named tenant_name team tenants ≡ some t
      → ((a : CatalogApplication) → C t a)
      → ((other : Bytes)
          → bytes_eq team other ≡ false
          → find_named tenant_name other after ≡ find_named tenant_name other tenants)
      → Keeps C tenants after
  Keeps-removed team tenants after t f r others = record {
    keeps = λ other n e. elim (Bool-cases (bytes_eq team other)) [
      | inl q ↦ inr (
          subst (λ (u : CatalogTenant). C u e.entry)
            (same_tenant team other tenants t e.tenant f ((bytes_eq_iff team other).0 q)
              e.of_tenant)
            (r e.entry))
      | inr q ↦ inl (record {
        tenant = e.tenant;
        entry = e.entry;
        of_tenant = others other q ∙ e.of_tenant;
        of_entry = e.of_entry;
      })
    ];
  }

  -- Where every Team is found as before, behind a step that removes nothing.
  pub Keeps-found :
      (before between after : Tenants)
      → ((name : Bytes) (t : CatalogTenant)
          → find_named tenant_name name before ≡ some t
          → find_named tenant_name name between ≡ some t)
      → Keeps C between after
      → Keeps C before after
  Keeps-found before between after found k = record {
    keeps = λ team application e. k.keeps team application (record {
      tenant = e.tenant;
      entry = e.entry;
      of_tenant = found team e.tenant e.of_tenant;
      of_entry = e.of_entry;
    });
  }
