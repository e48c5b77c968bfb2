-- ===== src/Postgres/Objects.antt =====
-- The writes and deletions of the generated objects, in the order of Reconcile.
use steadystate.Prelude.{Bool, true, false, ◌||◌, List, [], ◌∷◌, if◌then◌else◌, Result, ok, err}
use steadystate.Control.{Act, pure, read, call, ◌>>=◌}
use steadystate.Reconcile.Cluster.{ApiError, Answer, missing, failed, found}
use steadystate.Postgres.Server.{
  Child, backup_credential, object_store, scheduled_backup, cluster, allow_app, allow_monitoring,
  allow_operator, allow_backup, service_monitor, prometheus_rule, legacy_monitor, legacy_rule,
  Effect, apply, delete, Deletion, deleted, gone, refused, Server,
}

abbrev pub accepted : Deletion → Result ApiError Bool
accepted deleted = ok true
accepted gone = ok true
accepted (refused e) = err e

-- The Get in front of a write: an absent object is written all the same.
abbrev pub readable : Answer Bool → Result ApiError Bool
readable missing = ok false
readable (failed e) = err e
readable (found b) = ok true

-- The Get in front of a deletion of an object that its owner need not control.
abbrev pub present : Answer Bool → Result ApiError Bool
present missing = ok false
present (failed e) = err e
present (found b) = ok true

-- The same, where only a controlled object is deleted.
abbrev pub controlled : Answer Bool → Result ApiError Bool
controlled missing = ok false
controlled (failed e) = err e
controlled (found b) = ok b

module _ (server : Server) where
  -- reconcileDatabaseObject and reconcileDatabaseUnstructured.
  unfoldable pub reconcile_database_object : Child → Act Effect ApiError Bool
  reconcile_database_object c =
      read (readable (server.get c)) >>= λ there. call (apply c) (server.write c)

  -- deleteDatabaseObject.
  unfoldable pub delete_database_object : Child → Act Effect ApiError Bool
  delete_database_object c = read (present (server.get c)) >>= λ there.
      if there then call (delete c) (accepted (server.remove c)) else pure false

  -- deleteDatabaseObjectIfControlledBy.
  unfoldable pub delete_database_object_if_controlled_by : Child → Act Effect ApiError Bool
  delete_database_object_if_controlled_by c = read (controlled (server.get c)) >>= λ own.
      if own then call (delete c) (accepted (server.remove c)) else pure false

  -- A loop of such calls, until one fails: whether any of them changed something.
  unfoldable pub each :
      (Child → Act Effect ApiError Bool) → List Child → Bool → Act Effect ApiError Bool
  each f [] mutated = pure mutated
  each f (c ∷ cs) mutated = f c >>= λ changed. each f cs (mutated || changed)

abbrev pub backup_objects : List Child
backup_objects = backup_credential ∷ object_store ∷ scheduled_backup ∷ []

abbrev pub obsolete_objects : List Child
obsolete_objects = backup_credential ∷ object_store ∷ scheduled_backup ∷ allow_backup ∷ []

-- DatabaseNetworkPolicies.
abbrev pub network_policies : Bool → List Child
network_policies true = allow_app ∷ allow_monitoring ∷ allow_operator ∷ allow_backup ∷ []
network_policies false = allow_app ∷ allow_monitoring ∷ allow_operator ∷ []

-- The objects from the branch on the backups to the last loop of Reconcile.
unfoldable pub reconcile_objects : Server → Bool → Act Effect ApiError Bool
reconcile_objects server backups =
    (if backups
      then each server (reconcile_database_object server) backup_objects false
      else each server (delete_database_object server) obsolete_objects false)
    >>= λ b. each server (reconcile_database_object server) (cluster ∷ []) b >>= λ c.
        each server (reconcile_database_object server) (network_policies backups) c >>= λ p.
        each server (reconcile_database_object server) (service_monitor ∷ prometheus_rule ∷ []) p
        >>= λ m.
            each server (delete_database_object_if_controlled_by server)
              (legacy_monitor ∷ legacy_rule ∷ []) m
