-- ===== src/Platform/Catalog/Validation.antt =====
-- TenantCatalog.Validate. A `nil` error is `none`.
use steadystate.Prelude.{
  ◌==◌, Bytes, bytes, bytes_eq, contains, join, length, ltb, Bool, true, false, not, ◌&&◌, ◌||◌,
  Option, none, some, List, [], ◌∷◌, ◌++◌, map, if◌then◌else◌, any, String,
}
use steadystate.Prelude.Text.{is_blank}
use steadystate.Platform.Errors.{Error, within, failure, ◌<|◌}
use steadystate.Platform.Catalog.Data.{
  CatalogService, CatalogApplication, CatalogDatabase, CatalogTenant, TenantCatalog,
}
use steadystate.Platform.Catalog.Patterns.{valid_name, is_version}

abbrev pub is_empty : Bytes → Bool
is_empty [] = true
is_empty (c ∷ s) = false

abbrev pub active : Bytes
active = bytes "Active"

abbrev pub retiring : Bytes
retiring = bytes "Retiring"

-- The checks outside the catalog: uuid.Parse succeeds, and os.Stat finds a directory of that path
-- below the root.
pub record Checks : Type 0 where
  pub is_uuid : Bytes → Bool
  pub is_directory : Bytes → Bool

module _ (checks : Checks) where
  -- validateLifecycle.
  unfoldable pub validate_lifecycle : Bytes → Bytes → Option Error
  validate_lifecycle lifecycle request =
      if not (bytes_eq lifecycle active) && not (bytes_eq lifecycle retiring)
      then failure "lifecycle must be Active or Retiring" []
      else if bytes_eq lifecycle active && not (is_empty request)
      then failure "active entries cannot carry a deletion request" []
      else if bytes_eq lifecycle retiring && not (checks.is_uuid request)
      then failure "retiring entries require a UUID deletion request" []
      else none

  -- validateServiceLifecycle.
  unfoldable pub validate_service_lifecycle : Bytes → Bytes → Option Error
  unfolding validate_lifecycle
  validate_service_lifecycle lifecycle request =
      if bytes_eq lifecycle (bytes "Scaffolded")
      then (if not (is_empty request)
          then failure "scaffolded entries cannot carry a deletion request" []
          else none)
      else validate_lifecycle lifecycle request

  -- requireDirectory.
  unfoldable pub require_directory : Bytes → Option Error
  require_directory path =
      if checks.is_directory path
      then none
      else failure "catalog path %q is not a directory" (path ∷ [])

abbrev pub wrap_error : String → Bytes → Option Error → Option Error
wrap_error format name none = none
wrap_error format name (some e) = some (within (record { format = format; args = name ∷ [] }) e)

-- The owners of a Team.
unfoldable pub check_owners : Bytes → List Bytes → List Bytes → Option Error
check_owners team seen [] = none
check_owners team seen (owner ∷ owners) =
    if is_blank owner
      || any (λ c. c == b'\r' || c == b'\n' || c == b'\t' || c == b' ') owner
      || contains seen owner
    then failure "team %q contains an invalid or duplicate owner" (team ∷ [])
    else check_owners team (owner ∷ seen) owners

-- templateComponents.
unfoldable pub template_components : Bytes → Bytes → List Bytes
template_components name template =
    if bytes_eq template (bytes "full-stack") then name ∷ (name ++ bytes "-api") ∷ [] else name ∷ []

-- The names that were seen by the loops: of Teams, Applications, Databases and services.
pub record Seen : Type 0 where
  pub teams : List Bytes
  pub applications : List Bytes
  pub databases : List Bytes
  pub services : List Bytes

abbrev pub database_names : CatalogTenant → List Bytes
database_names tenant = map (λ d. d.name) tenant.databases

-- The names that the loops have seen behind a tenant that they accept.
abbrev pub seen_with : Seen → CatalogTenant → Seen
seen_with seen tenant = record {
  teams = tenant.name ∷ seen.teams;
  applications = map (λ a. a.name) tenant.applications ++ seen.applications;
  databases = database_names tenant ++ seen.databases;
  services = map (λ s. s.name) tenant.services ++ seen.services;
}

abbrev pub known_template : Bytes → Bool
known_template template =
    bytes_eq template (bytes "go-api")
    || bytes_eq template (bytes "react-static")
    || bytes_eq template (bytes "full-stack")

-- `if databaseRef != ""` then it names a Database of the tenant.
unfoldable pub check_reference : String → Bytes → Bytes → List Bytes → Option Error
check_reference format name reference databases =
    if not (is_empty reference) && not (contains databases reference)
    then failure format (name ∷ reference ∷ [])
    else none

module _ (checks : Checks) where
  unfoldable pub check_database : List Bytes → CatalogDatabase → Option Error
  check_database seen d =
      if not (valid_name d.name 63)
      then failure "invalid Database name %q" (d.name ∷ [])
      else if contains seen d.name
      then failure "duplicate Database %q" (d.name ∷ [])
      else wrap_error "database %q: %w" d.name
          (validate_lifecycle checks d.lifecycle d.deletion_request)
        <| (if not (bytes_eq d.path (bytes "gitops/databases/" ++ d.name))
            then failure "database %q path must be %q"
                (d.name ∷ (bytes "gitops/databases/" ++ d.name) ∷ [])
            else require_directory checks d.path)

  unfoldable pub check_databases : List Bytes → List CatalogDatabase → Option Error
  check_databases seen [] = none
  check_databases seen (d ∷ ds) = check_database seen d <| check_databases (d.name ∷ seen) ds

  unfoldable pub check_application : List Bytes → List Bytes → CatalogApplication → Option Error
  check_application databases seen a =
      if not (valid_name a.name 63)
      then failure "invalid Application name %q" (a.name ∷ [])
      else if contains seen a.name
      then failure "duplicate Application %q" (a.name ∷ [])
      else wrap_error "application %q: %w" a.name
          (validate_lifecycle checks a.lifecycle a.deletion_request)
        <| (if not (bytes_eq a.path (bytes "gitops/applications/" ++ a.name))
            then failure "application %q path must be %q"
                (a.name ∷ (bytes "gitops/applications/" ++ a.name) ∷ [])
            else require_directory checks a.path)
        <| check_reference "application %q references unknown database %q" a.name a.database_ref
            databases

  unfoldable pub check_applications :
      List Bytes → List Bytes → List CatalogApplication → Option Error
  check_applications databases seen [] = none
  check_applications databases seen (a ∷ rest) =
      check_application databases seen a <| check_applications databases (a.name ∷ seen) rest

  unfoldable pub check_service : List Bytes → List Bytes → CatalogService → Option Error
  check_service databases seen s =
      if not (valid_name s.name 48)
      then failure "invalid service name %q" (s.name ∷ [])
      else if contains seen s.name
      then failure "duplicate service %q" (s.name ∷ [])
      else if not (bytes_eq s.path (bytes "services/" ++ s.name))
      then failure "service %q path must be %q" (s.name ∷ (bytes "services/" ++ s.name) ∷ [])
      else if not (known_template s.template)
      then failure "service %q has unsupported template %q" (s.name ∷ s.template ∷ [])
      else if not (is_version s.version)
      then failure "service %q has invalid version %q" (s.name ∷ s.version ∷ [])
      else if not (
          bytes_eq (join (0 ∷ []) s.components)
            (join (0 ∷ []) (template_components s.name s.template)))
      then failure "service %q components must be derived from its template" (s.name ∷ [])
      else wrap_error "service %q: %w" s.name
          (validate_service_lifecycle checks s.lifecycle s.deletion_request)
        <| check_reference "service %q references unknown database %q" s.name s.database_ref
            databases
        <| require_directory checks s.path

  unfoldable pub check_services : List Bytes → List Bytes → List CatalogService → Option Error
  check_services databases seen [] = none
  check_services databases seen (s ∷ ss) =
      check_service databases seen s <| check_services databases (s.name ∷ seen) ss

  -- What is checked of a tenant in front of its entries.
  unfoldable pub check_team : List Bytes → CatalogTenant → Option Error
  check_team seen t =
      if not (valid_name t.name 58)
      then failure "invalid Team name %q" (t.name ∷ [])
      else if contains seen t.name
      then failure "duplicate Team %q" (t.name ∷ [])
      else if length t.owners == 0 || ltb 32 (length t.owners)
      then failure "team %q must contain 1-32 catalog owners" (t.name ∷ [])
      else check_owners t.name [] t.owners
        <| wrap_error "team %q: %w" t.name
            (validate_lifecycle checks t.lifecycle t.deletion_request)
        <| (if not (bytes_eq t.team_path (bytes "gitops/teams/" ++ t.name))
            then failure "team %q path must be %q" (t.name ∷ (bytes "gitops/teams/" ++ t.name) ∷ [])
            else require_directory checks t.team_path)

  unfoldable pub check_tenant : Seen → CatalogTenant → Option Error
  check_tenant seen t =
      check_team seen.teams t
      <| check_databases seen.databases t.databases
      <| check_applications (database_names t) seen.applications t.applications
      <| check_services (database_names t) seen.services t.services

  unfoldable pub check_tenants : Seen → List CatalogTenant → Option Error
  check_tenants seen [] = none
  check_tenants seen (t ∷ ts) = check_tenant seen t <| check_tenants (seen_with seen t) ts

  -- Validate.
  unfoldable pub validate_catalog : TenantCatalog → Option Error
  validate_catalog c =
      if not (bytes_eq c.api_version (bytes "cli.steadystate.dev/v1alpha1"))
        || not (bytes_eq c.kind (bytes "TenantCatalog"))
      then failure "expected %s %s"
          (bytes "cli.steadystate.dev/v1alpha1" ∷ bytes "TenantCatalog" ∷ [])
      else check_tenants (record { teams = []; applications = []; databases = []; services = [] })
          c.tenants
