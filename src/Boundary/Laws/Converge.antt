-- ===== src/Boundary/Laws/Converge.antt =====
-- A Team that is not being deleted: its writes are in order, and it is only called Ready when all of its
-- boundary is there.
use steadystate.Prelude.{Bool, ◌≡◌, ◌∙◌, sym, Option, none, some, ok}
use steadystate.Control.Rules.{
  Logs, Logs-pure, Logs-fail, Logs-call, Logs-wrap, Logs-if, Logs-bind, Logs-settle, Logs-weaken,
}
use steadystate.Api.Conditions.{is_true, is_false, Message}
use steadystate.Api.Team.{Team, TeamStatus}
use steadystate.Team.{validate, InvalidTeam}
use steadystate.Boundary.Server.{
  Effect, add_finalizer, release_finalizer, delete_namespace, delete_application, delete_database,
  force_database, apply, publish, warn, announce, Server, Library,
}
use steadystate.Boundary.Status.{Stage, stages}
use steadystate.Boundary.Objects.{Failure, reconcile_stages}
use steadystate.Boundary.Deletion.{publish_status}
use steadystate.Boundary.Handler.{
  is_conflict, event_if, published, handle_reconcile_failure, conclude, refuse_team,
  converge_checked, converge_team,
}
use steadystate.Boundary.Laws.Stages.{IsOrdered, IsOrderedCall, stages-Logs}
use steadystate.Boundary.Laws.Statuses.{condition_of, seen, ready-invalid, ready-failed}

module _ (lib : Library) (server : Server) (team : Team) (added : Bool) where
  -- All four stages have succeeded.
  abbrev pub IsComplete : Type 0
  IsComplete = (b : Bool) × ((reconcile_stages lib server team stages added).1 ≡ ok b)

  -- What a pass may call.
  abbrev pub IsSound : Effect → Type 0
  IsSound (apply o) = IsOrdered lib server team o
  IsSound (publish s) =
      condition_of lib.conditions s "Ready" ≡ seen is_true team.generation → IsComplete
  IsSound (warn reason m) = Unit
  IsSound (announce reason m) = Unit
  IsSound _ = ⊥

  ordered-IsSound : (e : Effect) → IsOrderedCall lib server team e → IsSound e
  ordered-IsSound (apply o) h = h
  ordered-IsSound add_finalizer h = absurd h
  ordered-IsSound release_finalizer h = absurd h
  ordered-IsSound delete_namespace h = absurd h
  ordered-IsSound (publish s) h = absurd h
  ordered-IsSound (delete_application m) h = absurd h
  ordered-IsSound (delete_database m) h = absurd h
  ordered-IsSound (force_database m) h = absurd h
  ordered-IsSound (warn r m) h = absurd h
  ordered-IsSound (announce r m) h = absurd h

  not_seen :
      (s : TeamStatus)
      → condition_of lib.conditions s "Ready" ≡ seen is_false team.generation
      → condition_of lib.conditions s "Ready" ≡ seen is_true team.generation
      → IsComplete
  not_seen s h e = let wrong = sym h ∙ e in cc

  publish-Logs :
      (s : TeamStatus) → IsSound (publish s) → Logs IsSound (publish_status lib server team s)
  unfolding publish_status
  publish-Logs s h = Logs-call _ _ h

  event-Logs : (b : Bool) (e : Effect) → IsSound e → Logs IsSound (event_if b e)
  unfolding event_if
  event-Logs b e h = Logs-if b _ _ (λ f. Logs-call _ _ h) (λ f. Logs-pure _)

  refuse-Logs : (m : Message) → Logs IsSound (refuse_team lib server team m)
  unfolding refuse_team published
  refuse-Logs m =
      Logs-bind _ _
        (Logs-wrap _ _ (publish-Logs _ (not_seen _ (ready-invalid lib.conditions team m))))
        (λ changed e. Logs-bind _ _ (event-Logs changed _ tt) (λ u f. Logs-pure _))

  failure-Logs :
      (s : Stage) (f : Failure) → Logs IsSound (handle_reconcile_failure lib server team (s, f))
  unfolding handle_reconcile_failure
  failure-Logs s f =
      Logs-bind _ _
        (Logs-wrap _ _ (publish-Logs _ (not_seen _ (ready-failed lib.conditions team s _ _))))
        (λ changed e.
          Logs-bind _ _ (event-Logs changed _ tt)
            (λ u g. Logs-if (is_conflict f) _ _ (λ h. Logs-pure _) (λ h. Logs-fail _)))

  conclude-Logs : (b : Bool) → IsComplete → Logs IsSound (conclude lib server team b)
  unfolding conclude published
  conclude-Logs b h =
      Logs-bind _ _ (Logs-wrap _ _ (publish-Logs _ (λ e. h)))
        (λ changed e. Logs-bind _ _ (event-Logs _ _ tt) (λ u f. Logs-pure _))

  checked-Logs : (o : Option InvalidTeam) → Logs IsSound (converge_checked lib server team added o)
  unfolding converge_checked
  checked-Logs none =
      Logs-settle _ _ _ (Logs-weaken _ ordered-IsSound (stages-Logs lib server team added))
        (λ b f. conclude-Logs b (b, f)) (λ p f. failure-Logs p.0 p.1)
  checked-Logs (some e) = refuse-Logs _

-- A pass over a Team that is not being deleted deletes nothing, writes objects only in their order and
-- where they are the Team's own, and publishes Ready as True only when all four stages have succeeded.
pub converge-IsSound :
    (lib : Library) (server : Server) (team : Team) (added : Bool)
    → Logs (IsSound lib server team added) (converge_team lib server team added)
unfolding converge_team
converge-IsSound lib server team added =
    checked-Logs lib server team added (validate lib.teams team)
