-- ===== src/Postgres/Status.antt =====
-- The statuses of a Database, and patchDatabaseStatus.
use steadystate.Prelude.{
  ℕ, String, str_eq, Bytes, bytes, bytes_eq, Bool, false, not, ◌&&◌, ◌||◌, Option, none, some, List,
  [], ◌∷◌, ◌++◌, map, ltb, length, take, if◌then◌else◌, Result, ok, err,
}
use steadystate.Api.Conditions.{ConditionStatus, is_true, is_false, unknown, Message}
use steadystate.Control.Publish.{Patched, publish_with}
use steadystate.Naming.{suffixed_name, suffixed_name_with_limit}
use steadystate.Status.Set.{plain}
use steadystate.Reconcile.Patch.{keep_time}
use steadystate.Database.Validation.{Recovery, InvalidDatabase, database_source_revision}
use steadystate.Postgres.Server.{
  Phase, provisioning, restoring, healthy, degraded, backing_up, deleting, DatabaseStatus,
  ManagedDatabase, ClusterCondition, Server, Library,
}
use steadystate.Postgres.Backups.{BackupState}

module _ (lib : Library) where
  -- DatabaseClusterName, DatabaseConnectionSecretName and DatabaseBackupServerName.
  unfoldable pub database_cluster_name : Bytes → Bytes
  database_cluster_name name = suffixed_name_with_limit lib.sha name (bytes "-postgres") 59

  unfoldable pub database_connection_secret_name : Bytes → Bytes
  database_connection_secret_name name = database_cluster_name name ++ bytes "-app"

  unfoldable pub database_backup_server_name : Bytes → Bytes → Bytes
  database_backup_server_name name uid =
      suffixed_name lib.sha name (b'-' ∷ (if ltb 12 (length uid) then take 12 uid else uid))

  -- setDatabaseCondition.
  unfoldable pub set_database_condition :
      DatabaseStatus → ℕ → String → ConditionStatus → String → Message → DatabaseStatus
  set_database_condition s generation kind status reason message = record s {
    conditions = lib.conditions.set s.conditions (record {
      kind = kind;
      status = status;
      observed_generation = generation;
      reason = reason;
      message = message;
      last_transition = 0;
    });
  }

  abbrev source_or : Result InvalidDatabase Bytes → Bytes → Bytes
  source_or (err e) old = old
  source_or (ok revision) old = revision

  abbrev recovered : Option Recovery → Bytes → Bytes
  recovered none old = old
  recovered (some r) old = r.source_server_name

  -- databaseBaseStatus.
  unfoldable pub database_base_status : ManagedDatabase → DatabaseStatus
  database_base_status db =
      let s = db.status in
      record s {
        conditions = lib.remove s.conditions "DatabaseReady";
        observed_generation = db.generation;
        connection_secret_name = database_connection_secret_name db.name;
        backup_server_name = database_backup_server_name db.name db.uid;
        resolved_git_revision =
            source_or (database_source_revision db.annotations) s.resolved_git_revision;
        recovery_source_server_name = recovered db.spec.recovery s.recovery_source_server_name;
      }

  -- The conditions BackupHealthy and Ready, with the phase.
  unfoldable pub finish_status :
      DatabaseStatus
      → ℕ
      → Phase
      → ConditionStatus
      → String
      → Message
      → ConditionStatus
      → String
      → Message
      → DatabaseStatus
  finish_status s g p backup r m ready r' m' =
      set_database_condition
        (set_database_condition (record s { phase = p }) g "BackupHealthy" backup r m) g "Ready"
        ready r' m'

  -- The `switch` of a ready cluster.
  unfoldable pub backup_switch : DatabaseStatus → ManagedDatabase → BackupState → DatabaseStatus
  backup_switch s db state =
      let g = db.generation in
      if not db.spec.backups.enabled
      then finish_status s g healthy is_true "BackupsDisabled"
          (plain "Backups are explicitly disabled") is_true "DatabaseReady"
          (plain "PostgreSQL is ready")
      else if bytes_eq state.latest_phase (bytes "failed")
      then finish_status s g degraded is_false "BackupFailed"
          (plain "The latest Barman backup failed") is_false "BackupFailed"
          (plain "PostgreSQL is available but backup health is degraded")
      else elim state.last_successful [
        | none ↦
            finish_status s g backing_up unknown "AwaitingFirstBackup"
              (plain "Waiting for the first successful Barman backup") is_false
              "AwaitingFirstBackup" (plain "Database readiness requires a successful backup")
        | some t ↦
            if bytes_eq state.latest_phase (bytes "pending")
              || bytes_eq state.latest_phase (bytes "running")
            then finish_status s g backing_up is_true "BackupInProgress"
                (plain "A new backup is running after a successful backup") is_true "DatabaseReady"
                (plain "PostgreSQL is ready and has a successful backup")
            else finish_status s g healthy is_true "BackupSucceeded"
                (plain "A successful Barman backup is available") is_true "DatabaseReady"
                (plain "PostgreSQL and backup health are ready")
      ]

  -- The loop over the conditions of the Cluster.
  unfoldable pub cluster_ready : List ClusterCondition → Bool
  cluster_ready [] = false
  cluster_ready (c ∷ cs) = (str_eq c.kind "Ready" && str_eq c.status "True") || cluster_ready cs

  abbrev unready_phase : Option Recovery → Phase
  unready_phase none = provisioning
  unready_phase (some r) = restoring

  -- databaseStatusFromCluster.
  unfoldable pub database_status_from_cluster :
      ManagedDatabase → List ClusterCondition → BackupState → DatabaseStatus
  database_status_from_cluster db conditions state =
      let g = db.generation in
      let base = database_base_status db in
      let s = record base { last_successful_backup = state.last_successful } in
      set_database_condition
        (if cluster_ready conditions
          then backup_switch
              (set_database_condition s g "ClusterReady" is_true "ClusterReady"
                (plain "CloudNativePG reports the PostgreSQL cluster Ready"))
              db state
          else finish_status
              (set_database_condition s g "ClusterReady" is_false "ClusterProgressing"
                (plain "Waiting for CloudNativePG readiness"))
              g (unready_phase db.spec.recovery) unknown "ClusterProgressing"
              (plain "Backup health awaits PostgreSQL readiness") is_false "ClusterProgressing"
              (plain "Database is progressing"))
        g "ConfigurationReady" is_true "ResourcesReconciled"
        (plain "Database configuration and generated resources are valid")

  -- databaseFailureStatus.
  unfoldable pub database_failure_status : ManagedDatabase → String → Message → DatabaseStatus
  database_failure_status db reason message =
      let g = db.generation in
      let base = database_base_status db in
      let s = record base { phase = degraded } in
      let s1 = set_database_condition s g "ConfigurationReady" is_false reason message in
      let s2 = set_database_condition s1 g "ClusterReady" is_false reason message in
      let s3 = set_database_condition s2 g "BackupHealthy" is_false reason message in
      set_database_condition s3 g "Ready" is_false reason message

  -- databaseDeletingStatus, which is only called for a backup that is not ready.
  unfoldable pub database_deleting_status : ManagedDatabase → Message → DatabaseStatus
  database_deleting_status db message =
      finish_status (database_base_status db) db.generation deleting is_false "FinalBackup" message
        is_false "Deleting" message

  -- The loop that preserves the transition times of the latest status.
  unfoldable pub preserve_times : DatabaseStatus → DatabaseStatus → DatabaseStatus
  preserve_times current desired = record desired {
    conditions =
        map (λ c. keep_time (lib.conditions.find current.conditions c.kind) c) desired.conditions;
  }

  -- patchDatabaseStatus.
  unfoldable pub patch_database_status :
      Server → ManagedDatabase → DatabaseStatus → Patched DatabaseStatus
  patch_database_status server db desired =
      publish_with lib.publish preserve_times (λ s. s.observed_generation) server.attempts db.status
        desired
