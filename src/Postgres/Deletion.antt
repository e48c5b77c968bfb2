-- ===== src/Postgres/Deletion.antt =====
-- reconcileDatabaseDeletion and reconcileDatabaseFinalBackup.
use steadystate.Prelude.{
  Bytes, bytes, equal_fold, Bool, true, false, not, ◌&&◌, Option, none, some, is_some,
  if◌then◌else◌, Result, ok, err,
}
use steadystate.Control.{Act, pure, fail, read, call, settle, ◌>>=◌}
use steadystate.Api.Conditions.{Message}
use steadystate.Status.Set.{plain, verbatim}
use steadystate.Reconcile.Cluster.{ApiError}
use steadystate.Boundary.Deletion.{forces}
use steadystate.Postgres.Server.{
  cluster, Effect, release_finalizer, delete, apply_final_backup, delete_final_backup, publish,
  warn, announce, DatabaseStatus, ManagedDatabase, Server, Library,
}
use steadystate.Postgres.Status.{database_deleting_status, patch_database_status}
use steadystate.Postgres.Objects.{accepted, readable}

abbrev pub outcome : Option ApiError → Result ApiError Bool
outcome none = ok true
outcome (some e) = err e

abbrev pub is_failed : Bytes → Bool
is_failed phase = equal_fold phase (bytes "failed")

abbrev pub waiting_message : Bool → Message
waiting_message true =
    plain
      "final Barman backup failed; repair backup storage or set steadystate.dev/force-delete=true to accept data-loss risk"
waiting_message false = plain "waiting for the deterministic final Barman backup to complete"

-- The event of a finished deletion.
abbrev pub released : Bool → Bool → Effect
released true backups =
    warn "FinalizerReleased"
      (plain "Database finalizer was force-released with explicit data-loss acceptance")
released false true =
    announce "FinalizerReleased"
      (plain "Final backup completed and external backup objects were retained")
released false false =
    announce "FinalizerReleased" (plain "Database finalization completed; backups were disabled")

module _ (lib : Library) (server : Server) (db : ManagedDatabase) where
  -- `_, _ = r.patchDatabaseStatus(…)`: the answer is not looked at.
  unfoldable pub publish_quietly : Message → Act Effect ApiError Bool
  publish_quietly m = call (publish (database_deleting_status lib db m)) (ok true)

  -- patchDatabaseStatus, with the flag `changed`.
  unfoldable pub publish_status : DatabaseStatus → Act Effect ApiError Bool
  publish_status status =
      let p = patch_database_status lib server db status in
      call (publish status) (elim p.error [ none ↦ ok (is_some p.written) | some e ↦ err e ])

  -- reconcileDatabaseFinalBackup.
  unfoldable pub reconcile_database_final_backup : Act Effect ApiError Bool
  reconcile_database_final_backup = read (readable server.final_backup) >>= λ there.
      call apply_final_backup server.write_final_backup

  -- The Cluster, then the finalizer, then the event.
  unfoldable pub take_down : Bool → Act Effect ApiError Bool
  take_down force = call (delete cluster) (accepted (server.remove cluster)) >>= λ c.
      call release_finalizer (outcome server.release_finalizer) >>= λ r.
      call (released force db.spec.backups.enabled) (ok true)

  -- A final backup that is there, with its phase.
  unfoldable pub after_final_backup : Bytes → Act Effect ApiError Bool
  after_final_backup phase =
      if equal_fold phase (bytes "completed")
      then (call delete_final_backup (accepted server.remove_final_backup) >>= λ d. take_down false)
      else publish_quietly (waiting_message (is_failed phase))

  unfoldable pub back_up_first : Act Effect ApiError Bool
  back_up_first =
      settle reconcile_database_final_backup
        (λ changed. read server.final_phase >>= after_final_backup)
        (λ e. publish_quietly (verbatim e) >>= λ u. fail e)

  unfoldable pub force_down : Bool → Act Effect ApiError Bool
  force_down force =
      (if force then call delete_final_backup (accepted server.remove_final_backup) else pure true)
      >>= λ d. take_down force

  -- reconcileDatabaseDeletion.
  unfoldable pub reconcile_database_deletion : Act Effect ApiError Bool
  reconcile_database_deletion =
      if not db.finalizer
      then pure false
      else if db.spec.backups.enabled && not (forces db.annotations)
      then back_up_first
      else force_down (forces db.annotations)
