-- ===== src/Postgres/Server.antt =====
-- A managed Database, what the API server answers to its reconciliation, one answer for each call, and
-- the calls that change it.
use steadystate.Prelude.{ℕ, Bytes, String, Bool, Option, List, Result}
use steadystate.Api.Conditions.{Condition, ConditionOps, Message}
use steadystate.Api.Team.{Namespace}
use steadystate.Control.Publish.{Attempt, PublishOps}
use steadystate.Database.Validation.{DatabaseSpec, DatabaseOps}
use steadystate.Naming.{Sha256}
use steadystate.Reconcile.Cluster.{ApiError, Answer}

-- DatabasePhase.
pub data Phase : Type 0 where
  pending provisioning restoring healthy degraded backing_up deleting : Phase

-- DatabaseStatus.
pub record DatabaseStatus : Type 0 where
  pub phase : Phase
  pub observed_generation : ℕ
  pub connection_secret_name : Bytes
  pub backup_server_name : Bytes
  pub recovery_source_server_name : Bytes
  pub last_successful_backup : Option ℕ
  pub resolved_git_revision : Bytes
  pub conditions : List Condition

-- Database.
pub record ManagedDatabase : Type 0 where
  pub name : Bytes
  pub uid : Bytes
  pub namespace : Bytes
  pub generation : ℕ
  pub is_deleting : Bool
  pub finalizer : Bool  -- the list of finalizers contains DatabaseFinalizer
  pub annotations : List (Bytes × Bytes)
  pub spec : DatabaseSpec
  pub status : DatabaseStatus

-- The generated objects, in the order in which Reconcile writes them.
pub data Child : Type 0 where
  backup_credential object_store scheduled_backup cluster : Child
  allow_app allow_monitoring allow_operator allow_backup : Child
  service_monitor prometheus_rule legacy_monitor legacy_rule : Child

-- A call that changes state. `publish` is the call of patchDatabaseStatus with that status.
pub data Effect : Type 0 where
  add_finalizer release_finalizer : Effect
  apply : Child → Effect
  delete : Child → Effect
  apply_final_backup delete_final_backup : Effect
  publish : DatabaseStatus → Effect
  warn announce : String → Message → Effect  -- an event of type Warning, of type Normal

-- The answer to a Delete; `gone` is NotFound.
pub data Deletion : Type 0 where
  deleted gone : Deletion
  refused : ApiError → Deletion

-- A Backup of CloudNativePG. Times are in nanoseconds, and 0 is the zero time.
pub record Backup : Type 0 where
  pub cluster_name : Bytes
  pub phase : Bytes
  pub stopped_at : Option Bytes
  pub started_at : Option Bytes
  pub created : ℕ

-- The Secret of the backup store: ACCESS_KEY_ID and ACCESS_SECRET_KEY.
pub record Credential : Type 0 where
  pub access_key_id : Bytes
  pub access_secret_key : Bytes

-- A condition of the Cluster: its type and its status.
pub record ClusterCondition : Type 0 where
  pub kind : String
  pub status : String

-- The answer to the List of Backups; `no_match` is the error of a kind that is not installed.
pub data Listing : Type 0 where
  no_match : Listing
  failed : ApiError → Listing
  listed : List Backup → Listing

pub record Server : Type 0 where
  pub database : Answer ManagedDatabase
  pub add_finalizer : Result ApiError ManagedDatabase  -- the patched Database
  pub release_finalizer : Option ApiError
  pub namespace : Answer Namespace
  pub credential : Answer Credential
  pub get : Child → Answer Bool  -- whether the object is controlled by the Database
  pub write : Child → Result ApiError Bool  -- CreateOrUpdate: whether it changed
  pub remove : Child → Deletion
  pub cluster : Result ApiError (List ClusterCondition)
  pub backups : Listing
  pub final_backup : Answer Bool  -- the Get in front of CreateOrUpdate
  pub write_final_backup : Result ApiError Bool
  pub final_phase : Result ApiError Bytes  -- the Get behind it
  pub remove_final_backup : Deletion
  pub attempts : ℕ → Attempt DatabaseStatus

-- The library functions.
pub record Library : Type 0 where
  pub conditions : ConditionOps
  pub remove : List Condition → String → List Condition  -- meta.RemoveStatusCondition
  pub databases : DatabaseOps
  pub sha : Sha256
  pub publish : PublishOps DatabaseStatus
  pub parse_time : Bytes → Option ℕ  -- time.Parse(time.RFC3339, …)
