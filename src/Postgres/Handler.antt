-- ===== src/Postgres/Handler.antt =====
-- Reconcile of a Database, validateDatabaseTenancy and databaseReconcileFailure.
use steadystate.Prelude.{
  Bytes, bytes, bytes_eq, get_or_empty, join, String, Bool, true, false, not, ◌||◌, Option, none,
  some, [], ◌∷◌, if◌then◌else◌, ok, ltb, length, take,
}
use steadystate.Prelude.Text.{fields}
use steadystate.Control.{Act, pure, fail, read, call, wrap, settle, ◌>>=◌}
use steadystate.Api.Conditions.{Message}
use steadystate.Api.Team.{Namespace}
use steadystate.Status.Set.{plain, verbatim}
use steadystate.Status.Observe.{is_empty_text}
use steadystate.Reconcile.Cluster.{ApiError, Answer, missing, failed, found}
use steadystate.Database.Validation.{InvalidDatabase, validate_database}
use steadystate.Database.Messages.{database_message}
use steadystate.Postgres.Server.{
  Effect, add_finalizer, announce, Credential, ManagedDatabase, DatabaseStatus, Server, Library,
}
use steadystate.Postgres.Status.{
  database_cluster_name, database_status_from_cluster, database_failure_status,
}
use steadystate.Postgres.Backups.{observe_database_backups}
use steadystate.Postgres.Objects.{reconcile_objects}
use steadystate.Postgres.Deletion.{publish_status, reconcile_database_deletion}

-- validateDatabaseTenancy; `none` is a nil error.
unfoldable pub validate_database_tenancy : Answer Namespace → Option Message
validate_database_tenancy (found n) =
    if is_empty_text (get_or_empty (bytes "steadystate.dev/team") n.labels)
      || not (
          bytes_eq (get_or_empty (bytes "app.kubernetes.io/managed-by") n.labels)
            (bytes "steadystate"))
    then some (plain "database must be created in a SteadyState Team namespace")
    else none
validate_database_tenancy missing = some (plain "managed Team namespace is unavailable")
validate_database_tenancy (failed e) = some (plain "managed Team namespace is unavailable")

-- The message of databaseReconcileFailure: the words of the error, at most 512 bytes.
unfoldable pub failure_text : ApiError → Bytes
failure_text e = let m = join (bytes " ") (fields e) in if ltb 512 (length m) then take 512 m else m

-- `fmt.Errorf("reconcile Database: %w; status: %v", reconcileErr, statusErr)`.
abbrev both_errors : ApiError → ApiError → Message
both_errors e s = record { format = "reconcile Database: %w; status: %v"; args = e ∷ s ∷ [] }

-- The keys of the credential of the backup store.
abbrev pub has_keys : Credential → Bool
has_keys c = not (is_empty_text c.access_key_id || is_empty_text c.access_secret_key)

module _ (lib : Library) (server : Server) (db : ManagedDatabase) where
  -- A status with its reason, and no error but that of its patch.
  unfoldable pub refuse_database : String → Message → Act Effect Message Bool
  refuse_database reason m =
      wrap verbatim (publish_status lib server db (database_failure_status lib db reason m))

  -- databaseReconcileFailure.
  unfoldable pub database_reconcile_failure : ApiError → Act Effect Message Bool
  database_reconcile_failure e =
      wrap (both_errors e) (
        publish_status lib server db
          (database_failure_status lib db "ReconciliationFailed" (verbatim (failure_text e))))
      >>= λ changed. fail (verbatim e)

  -- What the status is computed from.
  unfoldable pub observe_cluster : Bool → Act Effect ApiError (Bool × DatabaseStatus)
  observe_cluster mutated = read server.cluster >>= λ conditions.
      read
        (observe_database_backups lib.parse_time (database_cluster_name lib db.name) server.backups)
      >>= λ state. pure (mutated, database_status_from_cluster lib db conditions state)

  unfoldable pub conclude_database : Bool × DatabaseStatus → Act Effect Message Bool
  conclude_database (mutated, status) =
      wrap verbatim (publish_status lib server db status) >>= λ changed.
      if mutated || changed
      then call
          (announce "Reconciled"
            (plain "Database, backup, monitoring, and network resources were reconciled"))
          (ok true)
      else pure false

  -- The code behind the checks.
  unfoldable pub converge_objects : Act Effect Message Bool
  converge_objects =
      settle (reconcile_objects server db.spec.backups.enabled >>= observe_cluster)
        conclude_database database_reconcile_failure

  -- The look at the credential of the backup store.
  unfoldable pub with_credential : Answer Credential → Act Effect Message Bool
  with_credential (found c) =
      if has_keys c
      then converge_objects
      else refuse_database "BackupCredentialInvalid"
          (plain "platform backup credential is missing required keys")
  with_credential missing =
      refuse_database "BackupCredentialUnavailable"
        (plain "platform backup credential is unavailable")
  with_credential (failed e) =
      refuse_database "BackupCredentialUnavailable"
        (plain "platform backup credential is unavailable")
      >>= λ changed. fail (verbatim e)

  unfoldable pub admit_database : Option InvalidDatabase → Option Message → Act Effect Message Bool
  admit_database (some e) tenancy = refuse_database "InvalidConfiguration" (database_message e)
  admit_database none (some m) = refuse_database "TenancyRejected" m
  admit_database none none =
      if db.spec.backups.enabled then with_credential server.credential else converge_objects

  -- Reconcile of a Database that has the finalizer.
  unfoldable pub converge_database : Act Effect Message Bool
  unfolding admit_database
  converge_database =
      admit_database (validate_database lib.databases db.spec db.annotations)
        (validate_database_tenancy server.namespace)

unfoldable pub reconcile_found_database :
    Library → Server → ManagedDatabase → Act Effect Message Bool
reconcile_found_database lib server db =
    if db.is_deleting
    then wrap verbatim (reconcile_database_deletion lib server db)
    else if db.finalizer
    then converge_database lib server db
    else (wrap verbatim (call add_finalizer server.add_finalizer) >>= λ patched.
        converge_database lib server patched)

-- Reconcile.
unfoldable pub reconcile_database : Library → Server → Act Effect Message Bool
reconcile_database lib server = elim server.database [
  | missing ↦ pure false
  | failed e ↦ fail (verbatim e)
  | found db ↦ reconcile_found_database lib server db
]
