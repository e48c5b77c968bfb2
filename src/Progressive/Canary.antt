-- ===== src/Progressive/Canary.antt =====
-- reconcileCanaryChildren and reconcileProgressiveResources: the children of a canary Application.
use steadystate.Prelude.{
  bytes, String, str_eq, Bool, true, false, not, ◌&&◌, ◌||◌, Option, none, some, ◌++◌,
  if◌then◌else◌,
}
use steadystate.Prelude.Int.{pos}
use steadystate.Control.{pure, read, call, wrap, ◌>>=◌}
use steadystate.Naming.{stable_service_name, canary_service_name}
use steadystate.Api.Application.{Application}
use steadystate.Status.Observe.{
  Route, Rollout, route_state, route_uses_canary_services, rollout_healthy, is_empty_text,
}
use steadystate.Status.Canary.{RuntimeState}
use steadystate.Reconcile.Cluster.{Library}
use steadystate.Progressive.Serving.{should_hold_serving_deployment, serving_application_at_version}
use steadystate.Progressive.Server.{
  stable_service, canary_service, analysis_template, apply, apply_rollout, Applied, Server,
}
use steadystate.Progressive.Shared.{
  Pass, prefixed, get_rollout, get_route, reconcile_shared_children,
}
use steadystate.Progressive.Routes.{reconcile_route}
use steadystate.Progressive.Analysis.{analysis_failure}

module _ (lib : Library) (server : Server) (app : Application) where
  -- reconcileProgressiveResources; its Rollout has the bootstrap form of configureBootstrapRollout
  -- where the serving Deployment is held.
  unfoldable pub reconcile_progressive_resources : Bool → Pass Bool
  reconcile_progressive_resources hold =
      wrap (prefixed (bytes "rollout Service " ++ stable_service_name lib.sha app.name))
        (call (apply stable_service) (server.child stable_service))
      >>= λ s.
          wrap (prefixed (bytes "rollout Service " ++ canary_service_name lib.sha app.name))
            (call (apply canary_service) (server.child canary_service))
          >>= λ c.
              wrap (prefixed (bytes "AnalysisTemplate"))
                (call (apply analysis_template) (server.child analysis_template))
              >>= λ a.
                  wrap (prefixed (bytes "Rollout " ++ app.name))
                    (call (apply_rollout hold) (server.bootstrap hold))
                  >>= λ r. pure (((s || c) || a) || r)

  unfoldable pub uses_canary : Route → Bool
  uses_canary route =
      route_uses_canary_services route (stable_service_name lib.sha app.name)
        (canary_service_name lib.sha app.name)

  -- `routeReady && !routeRejected`.
  unfoldable pub canary_accepted : Route → Bool
  canary_accepted route =
      let (ready, rejected) = route_state lib.conditions route in ready && not rejected

  abbrev pub existing : Rollout × Bool → Option Rollout
  existing (r, true) = some r
  existing (r, false) = none

  -- holdServingDeployment, for the Rollout and the HTTPRoute that were read first.
  unfoldable pub holds : Rollout × Bool → Route × Bool → Bool
  holds rollout route =
      should_hold_serving_deployment app (existing rollout)
        ((route.1 && uses_canary route.0) && canary_accepted route.0)

  -- anchorApplication.
  unfoldable pub anchor : Bool → Application
  anchor hold = if hold then serving_application_at_version app app.status.active_version else app

  -- The cases of the `switch` in which the HTTPRoute is written.
  unfoldable pub switches : Route × Bool → Rollout → Bool
  switches route rollout =
      (not route.1 || (route.1 && uses_canary route.0))
      || rollout_healthy (some rollout) app.spec.runtime.replicas.min

  unfoldable pub switch_route : Bool → Route → Pass (Applied Route)
  switch_route switch current =
      if switch
      then reconcile_route lib server app true
      else pure (record { object = current; changed = false })

  abbrev pub waiting_message : Bool → String
  waiting_message true = "waiting for a healthy Rollout baseline before switching the HTTPRoute"
  waiting_message false = ""

  -- `app.Status.ActiveVersion != ""`, and the route is not accepted.
  unfoldable pub unaccepted : Route → Bool
  unaccepted route = not (is_empty_text app.status.active_version) && not (canary_accepted route)

  abbrev pub or_cutover : Bool → String → String
  or_cutover migrating detail =
      if migrating && str_eq detail "" then "waiting for the canary HTTPRoute cutover" else detail

  -- state.migrating and state.migrationDetail, for the route, and whether it was left as it was.
  unfoldable pub migration : Route → Bool → Bool × String
  migration route held =
      let migrating = (held || not (uses_canary route)) || unaccepted route in
      (
        migrating,
        or_cutover migrating (
            if unaccepted route
            then "waiting for the canary HTTPRoute cutover to be accepted"
            else waiting_message held),
      )

  -- reconcileCanaryChildren.
  unfoldable pub reconcile_canary_children : Pass RuntimeState
  reconcile_canary_children =
      get_rollout server.progressive_delivery server.first_rollout >>= λ first.
      get_route server.route >>= λ current.
      reconcile_shared_children server app (anchor (holds first current))
        (holds first current && not first.1) false
      >>= λ d. reconcile_progressive_resources (holds first current) >>= λ progressive.
          get_rollout server.progressive_delivery server.second_rollout >>= λ second.
          switch_route (switches current second.0) current.0 >>= λ route.
          read (analysis_failure server second.0) >>= λ failure. pure (record {
            deployment = some d.0;
            route = route.object;
            rollout = some second.0;
            mutated = (d.1 || progressive) || route.changed;
            migrating = (migration route.object (not (switches current second.0))).0;
            migration_detail = (migration route.object (not (switches current second.0))).1;
            analysis_failure = failure;
            requeue_after = pos 0;
          })
