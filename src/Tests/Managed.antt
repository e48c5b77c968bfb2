-- ===== src/Tests/Managed.antt =====
-- The reconciliation of a Database.
use steadystate.Prelude.{
  ℕ, ◌==◌, bytes, bytes_eq, equal_fold, true, ◌≡◌, refl, none, some, [], ◌∷◌, ok, All, Any,
}
use steadystate.Control.Rules.{Logs}
use steadystate.Api.Conditions.{is_true}
use steadystate.Reconcile.Cluster.{missing, found}
use steadystate.Postgres.Server.{Phase, Backup, ManagedDatabase, deleted, listed, Server, Library}
use steadystate.Postgres.Backups.{
  BackupState, backup_timestamp, observe, observe_all, observe_database_backups,
}
use steadystate.Postgres.Status.{cluster_ready, database_status_from_cluster}
use steadystate.Postgres.Deletion.{reconcile_database_deletion}
use steadystate.Postgres.Laws.Deletion.{IsSafe, deletion-IsSafe}
use steadystate.Postgres.Laws.Statuses.{condition_of, seen, ready_exactly}
use steadystate.Postgres.Laws.Backups.{Covers, IsCompleted, last_successful-latest}
use steadystate.Tests.Data.{condition_ops, sums}
use steadystate.Tests.Databases.{database_ops, orders}
use steadystate.Tests.Reconciliation.{shop_namespace}

abbrev library : Library
library = record {
  conditions = condition_ops;
  remove = λ cs kind. cs;
  databases = database_ops;
  sha = sums;
  publish = record {
    same = λ a b. a.observed_generation == b.observed_generation;
    retry = λ f. f 0;
    retry-attempt = λ f. (0, refl);
  };
  parse_time = λ s. some 7;
}

abbrev orders_database : ManagedDatabase
orders_database = record {
  name = bytes "orders";
  uid = bytes "u2";
  namespace = bytes "team-shop";
  generation = 4;
  is_deleting = true;
  finalizer = true;
  annotations = [];
  spec = orders;
  status = record {
    phase = Phase.healthy;
    observed_generation = 3;
    connection_secret_name = [];
    backup_server_name = [];
    recovery_source_server_name = [];
    last_successful_backup = none;
    resolved_git_revision = [];
    conditions = [];
  };
}

abbrev nightly : Backup
nightly = record {
  cluster_name = bytes "orders-postgres";
  phase = bytes "Completed";
  stopped_at = some (bytes "t");
  started_at = none;
  created = 3;
}

-- A server on which every call succeeds and the final backup has completed.
abbrev server : Server
server = record {
  database = found orders_database;
  add_finalizer = ok orders_database;
  release_finalizer = none;
  namespace = found shop_namespace;
  credential = missing;
  get = λ c. found true;
  write = λ c. ok true;
  remove = λ c. deleted;
  cluster = ok (record { kind = "Ready"; status = "True" } ∷ []);
  backups = listed (nightly ∷ []);
  final_backup = missing;
  write_final_backup = ok true;
  final_phase = ok (bytes "completed");
  remove_final_backup = deleted;
  attempts = λ i. record {
    current = ok (record { generation = 4; status = orders_database.status });
    patch = none;
  };
}

deletion-IsSafe_example :
    Logs
      (IsSafe library server orders_database)
      (reconcile_database_deletion library server orders_database)
deletion-IsSafe_example = deletion-IsSafe library server orders_database

abbrev backed_up : BackupState
backed_up = record { last_successful = some 7; latest_phase = bytes "completed" }

ready_exactly_example :
    condition_of library
      (database_status_from_cluster library orders_database
        (record { kind = "Ready"; status = "True" } ∷ [])
        backed_up)
      "Ready"
    ≡ seen is_true 4
unfolding bytes bytes_eq cluster_ready
ready_exactly_example =
    ready_exactly library orders_database (record { kind = "Ready"; status = "True" } ∷ [])
      backed_up

nightly_found :
    observe_database_backups (λ s. some 7) (bytes "orders-postgres") (listed (nightly ∷ []))
    ≡ ok backed_up
unfolding bytes bytes_eq equal_fold observe_database_backups observe_all observe backup_timestamp
nightly_found = refl

last_successful-latest_example :
    All
      (λ b.
        IsCompleted (bytes "orders-postgres") b
        → Covers (some 7) (backup_timestamp (λ s. some 7) b))
      (nightly ∷ [])
    × ((l : ℕ)
        → some 7 ≡ some l
        → Any
            (λ b. IsCompleted (bytes "orders-postgres") b × (backup_timestamp (λ s. some 7) b ≡ l))
            (nightly ∷ []))
last_successful-latest_example =
    last_successful-latest (λ s. some 7) (bytes "orders-postgres") (nightly ∷ []) backed_up
      nightly_found
