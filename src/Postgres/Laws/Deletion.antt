-- ===== src/Postgres/Laws/Deletion.antt =====
-- The data of a Database is not given up without its last backup.
use steadystate.Prelude.{
  Bytes, bytes, equal_fold, Bool, true, false, not, ◌&&◌, ◌≡◌, ◌⊎◌, inl, inr, ok, Bool-cases, arith,
}
use steadystate.Control.Rules.{
  Logs, Logs-pure, Logs-fail, Logs-read, Logs-call, Logs-if, Logs-bind, Logs-settle,
}
use steadystate.Api.Conditions.{Message}
use steadystate.Boundary.Deletion.{forces}
use steadystate.Postgres.Server.{
  Effect, add_finalizer, release_finalizer, apply, delete, apply_final_backup, delete_final_backup,
  ManagedDatabase, Server, Library,
}
use steadystate.Postgres.Deletion.{
  publish_quietly, reconcile_database_final_backup, take_down, after_final_backup, back_up_first,
  force_down, reconcile_database_deletion, released,
}

module _ (lib : Library) (server : Server) (db : ManagedDatabase) where
  -- The data may go: backups are disabled, the deletion is forced, or the final backup was there after
  -- it was written, and had completed.
  abbrev pub IsExpendable : Type 0
  IsExpendable =
      (db.spec.backups.enabled ≡ false)
      ⊎ (forces db.annotations ≡ true)
      ⊎ (((b : Bool) × ((reconcile_database_final_backup lib server db).1 ≡ ok b))
          × ((phase : Bytes) × (server.final_phase ≡ ok phase)
              × (equal_fold phase (bytes "completed") ≡ true)))

  -- The calls of the deletion.
  abbrev pub IsSafe : Effect → Type 0
  IsSafe release_finalizer = IsExpendable
  IsSafe (delete c) = IsExpendable
  IsSafe delete_final_backup = IsExpendable
  IsSafe apply_final_backup = (db.spec.backups.enabled ≡ true) × (forces db.annotations ≡ false)
  IsSafe add_finalizer = ⊥
  IsSafe (apply c) = ⊥
  IsSafe _ = Unit

  released-IsSafe : (force backups : Bool) → IsSafe (released force backups)
  released-IsSafe true backups = tt
  released-IsSafe false true = tt
  released-IsSafe false false = tt

  take_down-Logs : (force : Bool) → IsExpendable → Logs IsSafe (take_down lib server db force)
  unfolding take_down
  take_down-Logs force h = Logs-bind _ _ (Logs-call _ _ h) (λ c e.
      Logs-bind _ _ (Logs-call _ _ h)
        (λ r f. Logs-call _ _ (released-IsSafe force db.spec.backups.enabled)))

  quiet-Logs : (m : Message) → Logs IsSafe (publish_quietly lib server db m)
  unfolding publish_quietly
  quiet-Logs m = Logs-call _ _ tt

  after-Logs :
      (b : Bool) (phase : Bytes)
      → (reconcile_database_final_backup lib server db).1 ≡ ok b
      → server.final_phase ≡ ok phase
      → Logs IsSafe (after_final_backup lib server db phase)
  unfolding after_final_backup
  after-Logs b phase e f =
      Logs-if (equal_fold phase (bytes "completed")) _ _
        (λ g.
          let done : IsExpendable = inr (inr ((b, e), (phase, f, g))) in
          Logs-bind _ _ (Logs-call _ _ done) (λ d i. take_down-Logs false done))
        (λ g. quiet-Logs _)

  final-Logs :
      (db.spec.backups.enabled ≡ true)
      → (forces db.annotations ≡ false)
      → Logs IsSafe (reconcile_database_final_backup lib server db)
  unfolding reconcile_database_final_backup
  final-Logs b f = Logs-bind _ _ (Logs-read _) (λ there e. Logs-call _ _ (b, f))

  first-Logs :
      (db.spec.backups.enabled ≡ true)
      → (forces db.annotations ≡ false)
      → Logs IsSafe (back_up_first lib server db)
  unfolding back_up_first
  first-Logs b f =
      Logs-settle _ _ _ (final-Logs b f)
        (λ changed e. Logs-bind _ _ (Logs-read _) (λ phase g. after-Logs changed phase e g))
        (λ m e. Logs-bind _ _ (quiet-Logs _) (λ u g. Logs-fail _))

  force-Logs : (force : Bool) → IsExpendable → Logs IsSafe (force_down lib server db force)
  unfolding force_down
  force-Logs force h =
      Logs-bind _ _ (Logs-if force _ _ (λ e. Logs-call _ _ h) (λ e. Logs-pure _))
        (λ d e. take_down-Logs force h)

-- The deletion of a Database removes its Cluster, its final backup or its finalizer only where backups are
-- disabled, the deletion is forced, or the final backup has been written and has completed; it writes a
-- final backup only where backups are enabled and the deletion is not forced; it creates nothing else.
pub deletion-IsSafe :
    (lib : Library) (server : Server) (db : ManagedDatabase)
    → Logs (IsSafe lib server db) (reconcile_database_deletion lib server db)
unfolding reconcile_database_deletion
deletion-IsSafe lib server db =
    Logs-if (not db.finalizer) _ _ (λ e. Logs-pure _)
      (λ e.
        Logs-if (db.spec.backups.enabled && not (forces db.annotations)) _ _
          (λ f. first-Logs lib server db (ground arith) (ground arith))
          (λ f.
            force-Logs lib server db (forces db.annotations)
              (elim (Bool-cases db.spec.backups.enabled) [
                | inr g ↦ inl g
                | inl g ↦ inr (inl (ground arith))
              ])))
