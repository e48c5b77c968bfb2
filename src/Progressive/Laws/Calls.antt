-- ===== src/Progressive/Laws/Calls.antt =====
-- The calls of the parts that rolling and canary Applications share, for any invariant of calls.
use steadystate.Prelude.{Bool, ◌&&◌, Option, none, some}
use steadystate.Control.Rules.{Logs, Logs-pure, Logs-read, Logs-call, Logs-wrap, Logs-bind, Logs-if}
use steadystate.Api.Application.{Application}
use steadystate.Status.Observe.{Route, Rollout}
use steadystate.Reconcile.Cluster.{Library}
use steadystate.Progressive.Server.{
  Controls, Fetched, Effect, apply_config_map, apply_deployment, apply_service, freeze_rollout,
  apply_route, Server,
}
use steadystate.Progressive.Shared.{
  get_rollout, get_route, reconcile_shared_children, migration_identity,
}
use steadystate.Progressive.Routes.{reconcile_route}
use steadystate.Progressive.Rolling.{freeze, freeze_controls}

module _ {P : Effect → Type 0} (lib : Library) (server : Server) (app : Application) where
  pub get_rollout-Logs : (b : Bool) (answer : Fetched Rollout) → Logs P (get_rollout b answer)
  unfolding get_rollout
  get_rollout-Logs b answer = Logs-if b _ _ (λ e. Logs-read _) (λ e. Logs-pure _)

  pub get_route-Logs : (answer : Fetched Route) → Logs P (get_route answer)
  unfolding get_route
  get_route-Logs answer = Logs-read _

  pub shared-Logs :
      (anchor : Application) (manage isolate : Bool)
      → P apply_config_map
      → P (apply_deployment anchor manage (migration_identity app isolate))
      → P (apply_service (migration_identity app isolate))
      → Logs P (reconcile_shared_children server app anchor manage isolate)
  unfolding reconcile_shared_children
  shared-Logs anchor manage isolate h h' h'' =
      Logs-bind _ _ (Logs-wrap _ _ (Logs-call _ _ h)) (λ c e.
        Logs-bind _ _ (Logs-wrap _ _ (Logs-call _ _ h'))
          (λ d e'. Logs-bind _ _ (Logs-wrap _ _ (Logs-call _ _ h'')) (λ s e''. Logs-pure _)))

  pub route-Logs :
      (canary : Bool) → P (apply_route canary) → Logs P (reconcile_route lib server app canary)
  unfolding reconcile_route
  route-Logs canary h =
      Logs-bind _ _ (Logs-wrap _ _ (Logs-read _)) (λ uids e. Logs-wrap _ _ (Logs-call _ _ h))

  controls-Logs : (o : Option Controls) → P freeze_rollout → Logs P (freeze_controls server o)
  unfolding freeze_controls
  controls-Logs none h = Logs-pure _
  controls-Logs (some c) h =
      Logs-if (c.paused && c.never_scaled_down) _ _ (λ f. Logs-pure _) (λ f. Logs-call _ _ h)

  pub freeze-Logs : P freeze_rollout → Logs P (freeze server)
  unfolding freeze
  freeze-Logs h = Logs-bind _ _ (Logs-read _) (λ c e. controls-Logs c h)
