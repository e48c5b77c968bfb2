-- ===== src/Platform/Request.antt =====
-- internal/platformctl/change.go: a request to change the catalog.
use steadystate.Prelude.{Bytes, Bool, List}
use steadystate.Prelude.Int.{ℤ}

-- The values of Operation; `unsupported` is any other text.
pub data Operation : Type 0 where
  team_create team_update team_delete team_finalize : Operation
  app_create app_update app_delete app_finalize : Operation
  database_create database_update database_restore database_delete database_finalize : Operation
  service_scaffold service_activate service_retire service_finalize : Operation
  unsupported : Bytes → Operation

pub record ChangeParameters : Type 0 where
  pub team : Bytes
  pub name : Bytes
  pub owners : List Bytes
  pub allowed_repositories : List Bytes
  pub cpu_quota : Bytes
  pub memory_quota : Bytes
  pub owner : Bytes
  pub image_repository : Bytes
  pub image_tag : Bytes
  pub port : ℤ
  pub min_replicas : ℤ
  pub max_replicas : ℤ
  pub database_ref : Bytes
  pub instances : ℤ
  pub storage_size : Bytes
  pub backup_schedule : Bytes
  pub backup_retention : Bytes
  pub source_server_name : Bytes
  pub target_time : Bytes
  pub deletion_request : Bytes
  pub approval_revision : Bytes
  pub force : Bool
  pub acknowledge_data_loss : Bool
  pub template : Bytes
  pub version : Bytes
  pub create_team : Bool
  pub with_database : Bool

pub record ChangeRequest : Type 0 where
  pub api_version : Bytes
  pub kind : Bytes
  pub schema_version : Bytes
  pub request_id : Bytes
  pub base_sha : Bytes
  pub renderer_version : Bytes
  pub operation : Operation
  pub parameters : ChangeParameters
