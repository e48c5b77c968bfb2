-- ===== src/Boundary/Handler.antt =====
-- Reconcile of a Team.
use steadystate.Prelude.{
  String, Bool, true, false, ◌||◌, Option, none, some, [], ◌∷◌, ◌++◌, if◌then◌else◌, ok,
}
use Prim.Native.String
use steadystate.Prelude.Int.{ℤ, pos}
use steadystate.Control.{Act, pure, fail, call, wrap, settle, ◌>>=◌}
use steadystate.Api.Conditions.{Message}
use steadystate.Api.Team.{Team, TeamStatus}
use steadystate.Status.Set.{plain, verbatim}
use steadystate.Team.{validate, InvalidTeam}
use steadystate.Team.Messages.{team_message}
use steadystate.Reconcile.Cluster.{ApiError, missing, failed, found}
use steadystate.Boundary.Server.{Effect, add_finalizer, warn, announce, Server, Library}
use steadystate.Boundary.Status.{
  Stage, stages, ready_team_status, invalid_team_status, failed_team_status,
}
use steadystate.Boundary.Objects.{Failure, conflict, broken, failure_message, reconcile_stages}
use steadystate.Boundary.Deletion.{publish_status, reconcile_deletion}

-- `errors.As(err, &conflict)`.
abbrev pub is_conflict : Failure → Bool
is_conflict (conflict o) = true
is_conflict (broken m) = false

abbrev pub failure_reason : Failure → String
failure_reason (conflict o) = "OwnershipConflict"
failure_reason (broken m) = "ReconciliationFailed"

-- `fmt.Errorf("reconcile Team: %w; patch status: %v", reconcileErr, statusErr)`.
abbrev both_errors : Message → ApiError → Message
both_errors m e = record {
  format = String.◌++◌ (String.◌++◌ "reconcile Team: " m.format) "; patch status: %v";
  args = m.args ++ e ∷ [];
}

-- An event where the status changed.
unfoldable pub event_if : Bool → Effect → Act Effect Message Bool
event_if changed e = if changed then call e (ok true) else pure true

module _ (lib : Library) (server : Server) (team : Team) where
  unfoldable pub published : TeamStatus → Act Effect Message Bool
  published status = wrap verbatim (publish_status lib server team status)

  -- handleReconcileFailure. A conflict of ownership is not tried again.
  unfoldable pub handle_reconcile_failure : Stage × Failure → Act Effect Message ℤ
  handle_reconcile_failure (stage, f) =
      let m = failure_message team f in
      wrap (both_errors m) (
        publish_status lib server team
          (failed_team_status lib.conditions team stage (failure_reason f) m))
      >>= λ changed. event_if changed (warn (failure_reason f) m) >>= λ u.
          if is_conflict f then pure (pos 0) else fail m

  -- The end of a pass in which every stage succeeded.
  unfoldable pub conclude : Bool → Act Effect Message ℤ
  conclude mutated = published (ready_team_status lib.conditions team) >>= λ changed.
      event_if (mutated || changed) (
        announce "Reconciled"
          (plain "Team namespace, resource policy, RBAC, and network policy are reconciled"))
      >>= λ u. pure (pos 0)

  unfoldable pub refuse_team : Message → Act Effect Message ℤ
  refuse_team m = published (invalid_team_status lib.conditions team m) >>= λ changed.
      event_if changed (warn "InvalidConfiguration" m) >>= λ u. pure (pos 0)

  -- What follows the validation.
  unfoldable pub converge_checked : Bool → Option InvalidTeam → Act Effect Message ℤ
  converge_checked added (some e) = refuse_team (team_message lib.teams e)
  converge_checked added none =
      settle (reconcile_stages lib server team stages added) conclude handle_reconcile_failure

  -- Reconcile of a Team that has the finalizer, which was added in this pass or not.
  unfoldable pub converge_team : Bool → Act Effect Message ℤ
  unfolding converge_checked
  converge_team added = converge_checked added (validate lib.teams team)

unfoldable pub reconcile_found : Library → Server → Team → Act Effect Message ℤ
reconcile_found lib server team =
    if team.deleting
    then wrap verbatim (reconcile_deletion lib server team)
    else if team.finalizer
    then converge_team lib server team false
    else (wrap verbatim (call add_finalizer server.add_finalizer) >>= λ patched.
        converge_team lib server patched true)

-- Reconcile.
unfoldable pub reconcile_team : Library → Server → Act Effect Message ℤ
reconcile_team lib server = elim server.team [
  | missing ↦ pure (pos 0)
  | failed e ↦ fail (verbatim e)
  | found team ↦ reconcile_found lib server team
]
