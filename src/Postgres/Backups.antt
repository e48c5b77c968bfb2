-- ===== src/Postgres/Backups.antt =====
-- observeDatabaseBackups and backupTimestamp.
use steadystate.Prelude.{
  ℕ, ◌==◌, Bytes, bytes, bytes_eq, equal_fold, lower, Bool, true, ◌&&◌, ◌||◌, Option, none, some,
  List, [], ◌∷◌, map, ltb, if◌then◌else◌, Result, ok, err,
}
use steadystate.Reconcile.Cluster.{ApiError}
use steadystate.Postgres.Server.{Backup, Listing, no_match, failed, listed}

-- databaseBackupState.
pub record BackupState : Type 0 where
  pub last_successful : Option ℕ
  pub latest_phase : Bytes

abbrev parsed : (Bytes → Option ℕ) → Option Bytes → ℕ → ℕ
parsed parse none other = other
parsed parse (some text) other = elim (parse text) [ none ↦ other | some t ↦ t ]

-- backupTimestamp: the time of the stop, else of the start, else of the creation.
unfoldable pub backup_timestamp : (Bytes → Option ℕ) → Backup → ℕ
backup_timestamp parse b = parsed parse b.stopped_at (parsed parse b.started_at b.created)

abbrev pub is_completed : Bytes → Bool
is_completed phase = equal_fold phase (bytes "completed")

abbrev pub newer : ℕ → Option ℕ → Bool
newer t none = true
newer t (some last) = ltb last t

-- One round of the loop, for a Backup of the cluster at the time `t`.
unfoldable pub observe : ℕ → Bytes → ℕ × BackupState → ℕ × BackupState
observe t phase (latest, state) =
    let first = latest == 0 || ltb latest t in
    (
      if first then t else latest,
      record {
        last_successful =
            if is_completed phase && newer t state.last_successful
            then some t
            else state.last_successful;
        latest_phase = if first then map lower phase else state.latest_phase;
      },
    )

-- The loop.
unfoldable pub observe_all :
    (Bytes → Option ℕ) → Bytes → ℕ × BackupState → List Backup → ℕ × BackupState
observe_all parse cluster_name acc [] = acc
observe_all parse cluster_name acc (b ∷ bs) =
    if bytes_eq b.cluster_name cluster_name
    then observe_all parse cluster_name (observe (backup_timestamp parse b) b.phase acc) bs
    else observe_all parse cluster_name acc bs

abbrev pub no_backups : BackupState
no_backups = record { last_successful = none; latest_phase = [] }

-- observeDatabaseBackups.
unfoldable pub observe_database_backups :
    (Bytes → Option ℕ) → Bytes → Listing → Result ApiError BackupState
unfolding observe_all
observe_database_backups parse cluster_name no_match = ok no_backups
observe_database_backups parse cluster_name (failed e) = err e
observe_database_backups parse cluster_name (listed bs) =
    ok (observe_all parse cluster_name (0, no_backups) bs).1
