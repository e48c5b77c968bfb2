-- ===== src/Tests/Catalogs.antt =====
-- The catalog and the operations on it at concrete inputs.
use steadystate.Prelude.{
  Bytes, bytes, bytes_eq, contains, join, true, none, some, List, [], ◌∷◌, ◌≡◌, ◌≢◌, ◌≤◌, ◌||◌,
  if◌then◌else◌, refl, arith, ok,
}
use steadystate.Reconcile.Cluster.{missing, found}
use steadystate.Tests.Data.{quantities}
use steadystate.Platform.Value.{end}
use steadystate.Platform.Catalog.Data.{CatalogTenant, TenantCatalog}
use steadystate.Platform.Catalog.Validation.{Checks, validate_catalog}
use steadystate.Platform.Request.{ChangeParameters, app_finalize}
use steadystate.Platform.Files.{Repository, FileChange, delete}
use steadystate.Platform.Manifests.{Tools}
use steadystate.Platform.Operations.{
  Tenants, new_application, new_database, new_tenant, retire_application, retire_database,
}
use steadystate.Platform.Sources.{ServiceFiles}
use steadystate.Platform.Services.{no_parameters, scaffold_service}
use steadystate.Platform.Render.{render}
use steadystate.Prelude.Text.{is_blank}
use steadystate.Prelude.{has_prefix}
use steadystate.Platform.Errors.{◌>>=◌, ◌>>◌}
use steadystate.Platform.Named.{find_named, replace_named, remove_named, sort_named}
use steadystate.Platform.Catalog.Patterns.{valid_name, is_dns_label}
use steadystate.Platform.Catalog.Validation.{
  check_tenants, check_tenant, check_team, check_owners, check_databases, check_database,
  check_applications, check_application, check_services, check_reference, validate_lifecycle,
  require_directory,
}
use steadystate.Platform.Files.{
  split_path, catalog_path, leaf_file, check_leaf, check_parts, validate_change_path, record_change,
  set_file, remove_file, removed, changed, service_file_names,
}
use steadystate.Platform.Operations.{
  tenant_of, active_tenant, application_entry, require_retiring, finalize_application,
}
use steadystate.Platform.Manifests.{leaf_names, unexpected, delete_leaf}
use steadystate.Prelude.{bytes_lt}
use steadystate.Platform.Files.{create}
use steadystate.Platform.Storage.{details, write_database}
use steadystate.Platform.Manifests.{write_leaf}
use steadystate.Platform.Operations.{database_exists}
use steadystate.Platform.Sources.{write_all, write_service_source}
use steadystate.Platform.Services.{ensure_team, add_database, new_service}
use steadystate.Platform.Laws.Scaffold.{scaffold_reused-IsRefused}
use steadystate.Platform.Laws.Unique.{count_databases, listed, valid-IsUnique}
use steadystate.Platform.Laws.Kept.{Keeps}
use steadystate.Platform.Laws.Removals.{Finalized, render-IsTwoPhase}

-- Each path is clean, and each document is written as one text.
abbrev pub tools : Tools
tools = record {
  clean = λ path. path;
  yaml = record { marshal = λ v. ok (bytes "document"); unmarshal = λ s. ok (some end) };
  quantities = quantities;
}

-- A directory of an Application's files; no other file.
abbrev pub repository : Repository
repository = record {
  read = λ path.
      if bytes_eq path (bytes "gitops/applications/cart/application.yaml")
        || bytes_eq path (bytes "gitops/applications/cart/kustomization.yaml")
      then found (bytes "old")
      else missing;
  entries = λ path. ok (bytes "application.yaml" ∷ bytes "kustomization.yaml" ∷ []);
  walk = λ path. ok [];
}

abbrev pub service_files : ServiceFiles
service_files = λ s. ok ((bytes "VERSION", bytes "v0.1.0") ∷ [])

abbrev pub checks : Checks
checks = record { is_uuid = λ s. true; is_directory = λ s. true }

-- The Application `cart` and the Database `store` of the Team `shop` retire.
abbrev pub shop : CatalogTenant
shop = record (new_tenant (bytes "shop") (bytes "ana" ∷ [])) {
  applications =
      retire_application (bytes "r1") (new_application (bytes "cart") [])
      ∷ new_application (bytes "web") []
      ∷ [];
  databases =
      new_database (bytes "orders")
      ∷ retire_database (bytes "r2") (new_database (bytes "store"))
      ∷ [];
}

abbrev pub shop_catalog : TenantCatalog
shop_catalog = record {
  api_version = bytes "cli.steadystate.dev/v1alpha1";
  kind = bytes "TenantCatalog";
  tenants = shop ∷ [];
}

shop_catalog-accepted : validate_catalog checks shop_catalog ≡ none
unfolding bytes bytes_eq contains is_blank valid_name is_dns_label validate_catalog check_tenants
    check_tenant check_team check_owners check_databases check_database check_applications
    check_application check_services check_reference validate_lifecycle require_directory
shop_catalog-accepted = refl

valid-IsUnique_example : listed (bytes "orders") shop_catalog.tenants ≤ 1
valid-IsUnique_example = valid-IsUnique checks shop_catalog (bytes "orders") shop_catalog-accepted

-- The removal of `cart`.
abbrev removal : ChangeParameters
removal = record no_parameters {
  team = bytes "shop";
  name = bytes "cart";
  deletion_request = bytes "r1";
}

abbrev without_cart : Tenants
without_cart = record shop { applications = new_application (bytes "web") [] ∷ [] } ∷ []

abbrev cart_change : Bytes → FileChange
cart_change path = record { path = path; action = delete; content = []; before = bytes "old" }

abbrev cart_changes : List FileChange
cart_changes =
    cart_change (bytes "gitops/applications/cart/application.yaml")
    ∷ cart_change (bytes "gitops/applications/cart/kustomization.yaml")
    ∷ []

cart-removed :
    render tools repository service_files app_finalize (bytes "r3") removal shop_catalog.tenants
    ≡ ok (without_cart, cart_changes)
unfolding bytes bytes_eq contains has_prefix valid_name is_dns_label split_path catalog_path
    leaf_file check_leaf check_parts validate_change_path record_change set_file remove_file removed
    ◌>>=◌ ◌>>◌ find_named replace_named remove_named tenant_of active_tenant application_entry
    require_retiring leaf_names unexpected delete_leaf finalize_application render
cart-removed = refl

render-IsTwoPhase_example : Keeps (Finalized app_finalize removal) shop_catalog.tenants without_cart
render-IsTwoPhase_example =
    render-IsTwoPhase tools repository service_files app_finalize (bytes "r3") removal
      shop_catalog.tenants (without_cart, cart_changes) cart-removed

-- A service with a Database whose name is the one of the Database that retires.
abbrev reuse : ChangeParameters
reuse = record no_parameters {
  team = bytes "shop";
  name = bytes "store";
  template = bytes "full-stack";
  version = bytes "v0.1.0";
  with_database = true;
}

abbrev stocked : Tenants
stocked =
    record shop {
      databases =
          new_database (bytes "orders")
          ∷ retire_database (bytes "r2") (new_database (bytes "store"))
          ∷ new_database (bytes "store")
          ∷ [];
      services = new_service reuse (bytes "store") ∷ [];
    }
    ∷ []

abbrev created : Bytes → Bytes → FileChange
created path content = record { path = path; action = create; content = content; before = [] }

abbrev store_changes : List FileChange
store_changes =
    created (bytes "gitops/databases/store/database.yaml") (bytes "document")
    ∷ created (bytes "gitops/databases/store/kustomization.yaml") (
        bytes
          "apiVersion: kustomize.config.k8s.io/v1beta1\nkind: Kustomization\nresources:\n  - database.yaml\n")
    ∷ created (bytes "services/store/VERSION") (bytes "v0.1.0")
    ∷ []

store-scaffolded :
    scaffold_service tools repository service_files reuse shop_catalog.tenants
    ≡ ok (stocked, store_changes)
unfolding bytes bytes_eq contains has_prefix join bytes_lt valid_name is_dns_label split_path
    catalog_path leaf_file check_leaf check_parts service_file_names validate_change_path
    record_change set_file changed ◌>>=◌ ◌>>◌ find_named replace_named sort_named tenant_of
    active_tenant database_exists ensure_team add_database new_service details write_database
    write_leaf write_all write_service_source scaffold_service
store-scaffolded = refl

scaffold_reused-IsRefused_example :
    validate_catalog checks (record shop_catalog { tenants = stocked }) ≢ none
unfolding bytes bytes_eq listed count_databases
scaffold_reused-IsRefused_example =
    scaffold_reused-IsRefused tools repository service_files reuse checks shop_catalog
      (stocked, store_changes) refl (omega arith) store-scaffolded
