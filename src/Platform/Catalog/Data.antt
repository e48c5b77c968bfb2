-- ===== src/Platform/Catalog/Data.antt =====
-- TenantCatalog. The fields apiVersion and kind are compared only.
use steadystate.Prelude.{Bytes, Bool, List}

pub record CatalogService : Type 0 where
  pub name : Bytes
  pub path : Bytes
  pub template : Bytes
  pub version : Bytes
  pub components : List Bytes
  pub database_ref : Bytes
  pub owns_team : Bool
  pub owns_database : Bool
  pub lifecycle : Bytes
  pub deletion_request : Bytes

pub record CatalogApplication : Type 0 where
  pub name : Bytes
  pub path : Bytes
  pub database_ref : Bytes
  pub lifecycle : Bytes
  pub deletion_request : Bytes

pub record CatalogDatabase : Type 0 where
  pub name : Bytes
  pub path : Bytes
  pub lifecycle : Bytes
  pub deletion_request : Bytes

pub record CatalogTenant : Type 0 where
  pub name : Bytes
  pub team_path : Bytes
  pub owners : List Bytes
  pub lifecycle : Bytes
  pub deletion_request : Bytes
  pub applications : List CatalogApplication
  pub databases : List CatalogDatabase
  pub services : List CatalogService

pub record TenantCatalog : Type 0 where
  pub api_version : Bytes
  pub kind : Bytes
  pub tenants : List CatalogTenant
