-- ===== src/Platform/Laws/Unique.antt =====
-- How often the catalog lists a Database name, and that a valid catalog lists it once at most.
use steadystate.Prelude.{
  ℕ, ◌+◌, ◌≤◌, Bytes, bytes_eq, bytes_eq_iff, bytes_lt, contains, Bool, false, ◌||◌, Bool-cases,
  inl, inr, Option, none, some, List, [], ◌∷◌, ◌++◌, map, ◌≡◌, refl, sym, ◌∙◌, ap, arith, ltb,
  if◌then◌else◌,
}
use steadystate.Platform.Laws.Posts.{checked_first, checked_rest}
use steadystate.Platform.Named.{find_named, replace_named, insert_named, sort_named}
use steadystate.Platform.Catalog.Data.{CatalogDatabase, CatalogTenant, TenantCatalog}
use steadystate.Platform.Catalog.Validation.{
  Checks, Seen, seen_with, check_database, check_databases, check_team, check_tenant, check_tenants,
  validate_catalog,
}
use steadystate.Platform.Operations.{Tenants, tenant_name, database_name}

unfoldable pub count_databases : Bytes → List CatalogDatabase → ℕ
count_databases n [] = 0
count_databases n (d ∷ ds) = (if bytes_eq d.name n then 1 else 0) + count_databases n ds

-- How many Databases of the name the catalog lists, over all Teams.
unfoldable pub listed : Bytes → Tenants → ℕ
listed n [] = 0
listed n (t ∷ ts) = count_databases n t.databases + listed n ts

abbrev pub one : Bool → ℕ
one b = if b then 1 else 0

pub count-append :
    (n : Bytes) (xs ys : List CatalogDatabase)
    → count_databases n (xs ++ ys) ≡ count_databases n xs + count_databases n ys
unfolding count_databases
count-append n [] ys = omega arith
count-append n (x ∷ xs) ys = omega (arith, count-append n xs ys)

count-insert :
    (n : Bytes) (x : CatalogDatabase) (xs : List CatalogDatabase)
    → count_databases n (insert_named database_name x xs)
      ≡ one (bytes_eq x.name n) + count_databases n xs
unfolding count_databases insert_named
count-insert n x [] = refl
count-insert n x (y ∷ ys) = elim (Bool-cases (bytes_lt y.name x.name)) [
  | inl e ↦ rw e (omega (arith, count-insert n x ys))
  | inr e ↦ rw e refl
]

pub count-sort :
    (n : Bytes) (xs : List CatalogDatabase)
    → count_databases n (sort_named database_name xs) ≡ count_databases n xs
unfolding count_databases sort_named
count-sort n [] = refl
count-sort n (x ∷ xs) =
    count-insert n x (sort_named database_name xs)
    ∙ ap (λ (k : ℕ). one (bytes_eq x.name n) + k) (count-sort n xs)

pub listed-append : (n : Bytes) (ts us : Tenants) → listed n (ts ++ us) ≡ listed n ts + listed n us
unfolding listed
listed-append n [] us = omega arith
listed-append n (t ∷ ts) us = omega (arith, listed-append n ts us)

listed-insert :
    (n : Bytes) (t : CatalogTenant) (ts : Tenants)
    → listed n (insert_named tenant_name t ts) ≡ count_databases n t.databases + listed n ts
unfolding listed insert_named
listed-insert n t [] = refl
listed-insert n t (u ∷ us) = elim (Bool-cases (bytes_lt u.name t.name)) [
  | inl e ↦ rw e (omega (arith, listed-insert n t us))
  | inr e ↦ rw e refl
]

pub listed-sort : (n : Bytes) (ts : Tenants) → listed n (sort_named tenant_name ts) ≡ listed n ts
unfolding listed sort_named
listed-sort n [] = refl
listed-sort n (t ∷ ts) =
    listed-insert n t (sort_named tenant_name ts)
    ∙ ap (λ (k : ℕ). count_databases n t.databases + k) (listed-sort n ts)

some_tenant : (t u : CatalogTenant) → ◌≡◌ {A = Option CatalogTenant} (some t) (some u) → t ≡ u
some_tenant t u e = cc

first_tenant :
    (n : Bytes) (t t' u : CatalogTenant) (us : Tenants)
    → u ≡ t
    → (count_databases n t'.databases + listed n us) + count_databases n t.databases
      ≡ (count_databases n u.databases + listed n us) + count_databases n t'.databases
first_tenant n t t' u us q =
    omega (arith, ap (λ (v : CatalogTenant). count_databases n v.databases) q)

-- A tenant is replaced.
pub listed-replace :
    (n m : Bytes) (t t' : CatalogTenant) (ts : Tenants)
    → find_named tenant_name m ts ≡ some t
    → listed n (replace_named tenant_name m t' ts) + count_databases n t.databases
      ≡ listed n ts + count_databases n t'.databases
unfolding listed find_named replace_named
listed-replace n m t t' [] f = ground arith
listed-replace n m t t' (u ∷ us) f = elim (Bool-cases (bytes_eq u.name m)) [
  | inl e ↦ rw e (first_tenant n t t' u us (some_tenant u t (ground arith)))
  | inr e ↦ rw e (omega (arith, listed-replace n m t t' us (ground arith)))
]

contains-append :
    (n : Bytes) (ds : List CatalogDatabase) (seen : List Bytes)
    → contains (map (λ d. d.name) ds ++ seen) n ≡ (ltb 0 (count_databases n ds) || contains seen n)
unfolding contains count_databases
contains-append n [] seen = refl
contains-append n (d ∷ ds) seen = ground (arith, contains-append n ds seen)

once_more :
    (n : Bytes) (seen : List Bytes) (d : CatalogDatabase) (k : ℕ)
    → contains seen d.name ≡ false
    → k + one (contains (d.name ∷ seen) n) ≤ 1
    → (one (bytes_eq d.name n) + k) + one (contains seen n) ≤ 1
unfolding contains
once_more n seen d k fresh rest = elim (Bool-cases (bytes_eq d.name n)) [
  | inl e ↦
      let absent = ap (contains seen) (sym ((bytes_eq_iff d.name n).0 e)) ∙ fresh in ground arith
  | inr e ↦ ground arith
]

module _ (checks : Checks) where
  accepted_tenants :
      (c : TenantCatalog)
      → validate_catalog checks c ≡ none
      → check_tenants checks
          (record { teams = []; applications = []; databases = []; services = [] })
          c.tenants
        ≡ none
  unfolding validate_catalog
  accepted_tenants c h = ground arith

  check_database-fresh :
      (seen : List Bytes) (d : CatalogDatabase)
      → check_database checks seen d ≡ none
      → contains seen d.name ≡ false
  unfolding check_database
  check_database-fresh seen d h = ground arith

  check_databases-once :
      (n : Bytes) (seen : List Bytes) (ds : List CatalogDatabase)
      → check_databases checks seen ds ≡ none
      → count_databases n ds + one (contains seen n) ≤ 1
  unfolding check_databases count_databases
  check_databases-once n seen [] h = ground arith
  check_databases-once n seen (d ∷ ds) h =
      let first = checked_first (check_database checks seen d) _ h in
      let rest =
        check_databases-once n (d.name ∷ seen) ds
          (checked_rest (check_database checks seen d) _ h) in
      once_more n seen d (count_databases n ds) (check_database-fresh seen d first) rest

  check_tenant-databases :
      (seen : Seen) (t : CatalogTenant)
      → check_tenant checks seen t ≡ none
      → check_databases checks seen.databases t.databases ≡ none
  unfolding check_tenant
  check_tenant-databases seen t h =
      checked_first _ _ (checked_rest (check_team checks seen.teams t) _ h)

  check_tenants-once :
      (n : Bytes) (seen : Seen) (ts : Tenants)
      → check_tenants checks seen ts ≡ none
      → listed n ts + one (contains seen.databases n) ≤ 1
  unfolding check_tenants listed
  check_tenants-once n seen [] h = ground arith
  check_tenants-once n seen (t ∷ ts) h =
      let here =
        check_databases-once n seen.databases t.databases
          (check_tenant-databases seen t (checked_first _ _ h)) in
      let rest =
        check_tenants-once n (seen_with seen t) ts
          (checked_rest (check_tenant checks seen t) _ h) in
      ground (arith, contains-append n t.databases seen.databases)

  -- A catalog that Validate accepts lists no Database name twice, over all Teams.
  pub valid-IsUnique :
      (c : TenantCatalog) (n : Bytes) → validate_catalog checks c ≡ none → listed n c.tenants ≤ 1
  unfolding validate_catalog
  valid-IsUnique c n h =
      let once = check_tenants-once n _ c.tenants (accepted_tenants c h) in omega arith
