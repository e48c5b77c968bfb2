-- ===== src/Boundary/Deletion.antt =====
-- reconcileDeletion: Applications, then Databases, then the Namespace, then the finalizer.
use steadystate.Prelude.{
  Bytes, bytes, bytes_eq, equal_fold, get_or_empty, Bool, true, not, ◌&&◌, Option, none, some, List,
  [], ◌∷◌, is_some, if◌then◌else◌, Result, ok, err,
}
use steadystate.Prelude.Int.{ℤ, pos}
use steadystate.Control.{Act, pure, fail, read, call, ◌>>=◌}
use steadystate.Api.Conditions.{Message}
use steadystate.Api.Team.{Team, TeamStatus, Namespace}
use steadystate.Status.Set.{plain}
use steadystate.Reconcile.Cluster.{ApiError, Answer, missing, failed, found}
use steadystate.Boundary.Server.{
  Effect, release_finalizer, delete_namespace, publish, delete_application, delete_database,
  force_database, warn, announce, Deletion, deleted, gone, refused, Member, Server, Library,
}
use steadystate.Boundary.Status.{
  namespace_stage, failed_team_status, terminating_team_status, patch_team_status,
}

-- An event never fails.
abbrev pub event : Effect → Act Effect ApiError Bool
event e = call e (ok true)

-- `client.IgnoreNotFound` of a Delete.
abbrev pub accepted : Deletion → Result ApiError Bool
accepted deleted = ok true
accepted gone = ok true
accepted (refused e) = err e

abbrev pub outcome : Option ApiError → Result ApiError Bool
outcome none = ok true
outcome (some e) = err e

-- `strings.EqualFold(annotations["steadystate.dev/force-delete"], "true")`.
unfoldable pub forces : List (Bytes × Bytes) → Bool
forces annotations =
    equal_fold (get_or_empty (bytes "steadystate.dev/force-delete") annotations) (bytes "true")

-- managedByTeam.
unfoldable pub managed_by_team : Namespace → Team → Bool
managed_by_team n team =
    bytes_eq (get_or_empty (bytes "steadystate.dev/team") n.labels) team.name
    && bytes_eq (get_or_empty (bytes "steadystate.dev/team-uid") n.annotations) team.uid

-- 2 seconds, in nanoseconds.
abbrev pub soon : ℤ
soon = pos 2000000000

module _ (lib : Library) (server : Server) (team : Team) where
  -- patchTeamStatus, with the flag `changed`.
  unfoldable pub publish_status : TeamStatus → Act Effect ApiError Bool
  publish_status status =
      let p = patch_team_status lib server team status in
      call (publish status) (elim p.error [ none ↦ ok (is_some p.written) | some e ↦ err e ])

  -- The loop over the Applications.
  unfoldable pub delete_applications : List Member → Act Effect ApiError Bool
  delete_applications [] = pure true
  delete_applications (m ∷ ms) =
      (if m.deleting
        then pure true
        else call (delete_application m.name) (accepted (server.remove_application m.name)))
      >>= λ u. delete_applications ms

  -- The loop over the Databases.
  unfoldable pub delete_databases : List Member → Act Effect ApiError Bool
  delete_databases [] = pure true
  delete_databases (m ∷ ms) =
      (if forces team.annotations && not (forces m.annotations)
        then call (force_database m.name) (outcome (server.force_database m.name))
        else pure true)
      >>= λ f.
          (if m.deleting
            then pure true
            else call (delete_database m.name) (accepted (server.remove_database m.name)))
          >>= λ d. delete_databases ms

  unfoldable pub delete_team_namespace : Namespace → Act Effect ApiError ℤ
  delete_team_namespace n =
      (if n.deleting
        then pure true
        else (call delete_namespace (accepted server.remove_namespace) >>= λ u. event (
            announce "NamespaceDeletionRequested" (record {
              format = "Deletion requested for managed Namespace %s";
              args = n.name ∷ [];
            }))))
      >>= λ u. pure soon

  unfoldable pub after_databases : Namespace → List Member → Act Effect ApiError ℤ
  after_databases n [] = delete_team_namespace n
  after_databases n (m ∷ ms) = delete_databases (m ∷ ms) >>= λ u.
      event (
        announce "DatabaseDeletionRequested"
          (plain "Waiting for Team Databases and final backups before Namespace deletion"))
      >>= λ v. pure soon

  unfoldable pub after_applications : Namespace → List Member → Act Effect ApiError ℤ
  unfolding after_databases
  after_applications n [] = read server.databases >>= after_databases n
  after_applications n (m ∷ ms) = delete_applications (m ∷ ms) >>= λ u.
      event (
        announce "ApplicationDeletionRequested"
          (plain "Waiting for Team Applications to finalize before Databases"))
      >>= λ v. pure soon

  -- A Namespace that is not this Team's stays.
  unfoldable pub refuse_namespace : Namespace → Act Effect ApiError ℤ
  refuse_namespace n =
      let message : Message = record {
        format = "refusing to delete Namespace %s because its Team label or UID does not match";
        args = n.name ∷ [];
      } in
      publish_status
        (failed_team_status lib.conditions team namespace_stage "OwnershipConflict" message)
      >>= λ changed.
          (if changed then event (warn "OwnershipConflict" message) else pure true) >>= λ u.
          pure (pos 0)

  unfoldable pub empty_namespace : Namespace → Act Effect ApiError ℤ
  unfolding after_applications
  empty_namespace n = publish_status (terminating_team_status lib.conditions team) >>= λ u.
      read server.applications >>= after_applications n

  unfoldable pub finish_deletion : Act Effect ApiError ℤ
  finish_deletion = call release_finalizer (outcome server.release_finalizer) >>= λ u.
      event (
        announce "FinalizerReleased"
          (plain "Managed Team namespace is absent and finalization is complete"))
      >>= λ v. pure (pos 0)

  unfoldable pub delete_boundary : Answer Namespace → Act Effect ApiError ℤ
  delete_boundary missing = finish_deletion
  delete_boundary (failed e) = fail e
  delete_boundary (found n) =
      if managed_by_team n team then empty_namespace n else refuse_namespace n

  -- reconcileDeletion: the time after which it is asked for again.
  unfoldable pub reconcile_deletion : Act Effect ApiError ℤ
  unfolding delete_boundary
  reconcile_deletion = if team.finalizer then delete_boundary server.namespace else pure (pos 0)
