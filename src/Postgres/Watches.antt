-- ===== src/Postgres/Watches.antt =====
-- Which Databases are reconciled when another object changes: databaseRequestsForApplication,
-- databasesForBackupCredential and databaseForBackup.
use steadystate.Prelude.{
  Bytes, bytes, bytes_eq, not, ◌||◌, Option, none, some, List, [], ◌∷◌, map, if◌then◌else◌, Result,
  ok, err,
}
use steadystate.Api.Application.{Application}
use steadystate.Reconcile.Cluster.{ApiError}
use steadystate.Reconcile.Watches.{Request}
use steadystate.Postgres.Server.{ManagedDatabase, Library}
use steadystate.Postgres.Status.{database_cluster_name}

requests_for_reference : Option Bytes → Bytes → List Request
requests_for_reference none namespace = []
requests_for_reference (some name) namespace = record { name = name; namespace = namespace } ∷ []

-- databaseRequestsForApplication.
unfoldable pub database_requests_for_application : Application → List Request
unfolding requests_for_reference
database_requests_for_application app = requests_for_reference app.spec.database_ref app.namespace

-- client.ObjectKeyFromObject.
key_of : ManagedDatabase → Request
key_of database = record { name = database.name; namespace = database.namespace }

-- databasesForBackupCredential, of the namespace and the name of the Secret, and the answer to the
-- List of all Databases. An error is logged.
unfoldable pub databases_for_backup_credential :
    Bytes → Bytes → Result ApiError (List ManagedDatabase) → List Request
unfolding key_of
databases_for_backup_credential namespace name (err e) = []
databases_for_backup_credential namespace name (ok databases) =
    if not (bytes_eq namespace (bytes "cnpg-system"))
      || not (bytes_eq name (bytes "steadystate-backup-store"))
    then []
    else map key_of databases

module _ (lib : Library) where
  -- The first Database whose cluster has the name.
  first_with_cluster : Bytes → List ManagedDatabase → List Request
  unfolding key_of
  first_with_cluster cluster [] = []
  first_with_cluster cluster (database ∷ databases) =
      let rest = first_with_cluster cluster databases in
      if bytes_eq (database_cluster_name lib database.name) cluster
      then key_of database ∷ []
      else rest

  -- databaseForBackup, of spec.cluster.name and the answer to the List in the namespace of the Backup.
  -- A name that is missing is handled as the empty one.
  unfoldable pub database_for_backup : Bytes → Result ApiError (List ManagedDatabase) → List Request
  unfolding first_with_cluster
  database_for_backup cluster (err e) = []
  database_for_backup [] (ok databases) = []
  database_for_backup (c ∷ cluster) (ok databases) = first_with_cluster (c ∷ cluster) databases
