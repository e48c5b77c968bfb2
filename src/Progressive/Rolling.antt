-- ===== src/Progressive/Rolling.antt =====
-- reconcileRollingChildren: the children of a rolling Application, and how it takes over from a
-- Rollout that is there.
use steadystate.Prelude.{
  ℕ, Bytes, bytes, String, Bool, true, false, not, ◌&&◌, ◌||◌, Option, none, some, List, [], ◌∷◌,
  ◌==◌, if◌then◌else◌, Result, ok, err,
}
use steadystate.Prelude.Int.{pos}
use steadystate.Control.{pure, read, call, wrap, ◌>>=◌}
use steadystate.Api.Application.{Application}
use steadystate.Status.Observe.{
  DeploymentObject, Route, Rollout, deployment_state, route_state, route_uses_base_service,
}
use steadystate.Status.Canary.{RuntimeState}
use steadystate.Reconcile.Cluster.{ApiError, Library}
use steadystate.Progressive.Drain.{Clock, route_drain_remaining, with_stamp}
use steadystate.Progressive.Server.{
  Fetched, not_found, no_match, failed, found, Deletion, deleted, gone, refused, Child,
  stable_service, canary_service, analysis_template, rollout, freeze_rollout, stamp_route, delete,
  Applied, Controls, Server,
}
use steadystate.Progressive.Shared.{
  Pass, prefixed, get_rollout, get_route, reconcile_shared_children,
}
use steadystate.Progressive.Routes.{reconcile_route}

-- What waitForRouteDrain returns, with the route, which the patch of the stamp updates.
pub record Wait : Type 0 where
  pub drained : Bool
  pub marked : Bool
  pub remaining : ℕ
  pub route : Route

-- rollingCutoverStartedAtKey, rollingCleanupStartedAtKey and the two delays, in nanoseconds.
abbrev pub cutover_started_at : Bytes
cutover_started_at = bytes "steadystate.dev/rolling-cutover-started-at"

abbrev pub cleanup_started_at : Bytes
cleanup_started_at = bytes "steadystate.dev/rolling-cleanup-started-at"

abbrev pub cutover_delay : ℕ
cutover_delay = 15000000000

abbrev pub cleanup_delay : ℕ
cleanup_delay = 30000000000

abbrev pub answer : Deletion → Result ApiError Bool
answer deleted = ok true
answer gone = ok true
answer (refused e) = err e

abbrev pub read_controls : Fetched Controls → Result ApiError (Option Controls)
read_controls not_found = ok none
read_controls (no_match e) = err e
read_controls (failed e) = err e
read_controls (found c) = ok (some c)

abbrev pub found_child : Fetched Unit → Result ApiError Bool
found_child not_found = ok false
found_child (no_match e) = err e
found_child (failed e) = err e
found_child (found u) = ok true

module _ (server : Server) where
  unfoldable pub freeze_controls : Option Controls → Pass Bool
  freeze_controls none = pure false
  freeze_controls (some c) =
      if c.paused && c.never_scaled_down then pure false else call freeze_rollout server.freeze

  -- freezeRollout: whether it changed the Rollout.
  unfoldable pub freeze : Pass Bool
  unfolding freeze_controls
  freeze = read (read_controls server.controls) >>= freeze_controls

  -- deleteProgressiveObjects.
  unfoldable pub delete_progressive_objects : List Child → Bool → Pass Bool
  delete_progressive_objects [] mutated = pure mutated
  delete_progressive_objects (c ∷ cs) mutated = read (found_child (server.get c)) >>= λ there.
      if there
      then (call (delete c) (answer (server.remove c)) >>= λ m. delete_progressive_objects cs true)
      else delete_progressive_objects cs mutated

  -- waitForRouteDrain, for what routeDrainRemaining returned.
  unfoldable pub await_drain : Clock → Route → Bytes → ℕ → ℕ → Option ℕ → Pass Wait
  await_drain clock route annotation delay now (some remaining) =
      pure
        (record { drained = remaining == 0; marked = false; remaining = remaining; route = route })
  await_drain clock route annotation delay now none =
      call (stamp_route annotation) (server.patch_route (with_stamp clock route annotation now))
      >>= λ patched.
          pure (record { drained = false; marked = true; remaining = delay; route = patched })

  -- waitForRouteDrain.
  unfoldable pub wait_for_route_drain : Clock → Route → Bytes → ℕ → ℕ → Pass Wait
  unfolding await_drain
  wait_for_route_drain clock route annotation delay now =
      await_drain clock route annotation delay now
        (route_drain_remaining clock route annotation delay now)

-- deleteProgressiveServices and deleteProgressiveControllerResources.
unfoldable pub delete_progressive_services : Server → Pass Bool
delete_progressive_services server =
    delete_progressive_objects server (stable_service ∷ canary_service ∷ []) false

unfoldable pub delete_progressive_controller_resources : Server → Pass Bool
delete_progressive_controller_resources server =
    delete_progressive_objects server (rollout ∷ analysis_template ∷ []) false

-- The state before the route is known, and while a migration waits.
abbrev pub waiting : RuntimeState → Rollout → Wait → String → RuntimeState
waiting state r w detail = record state {
  route = w.route;
  rollout = some r;
  mutated = state.mutated || w.marked;
  migrating = true;
  migration_detail = detail;
  requeue_after = pos w.remaining;
}

module _ (lib : Library) (clock : Clock) (server : Server) (app : Application) where
  -- The end of the cleanup: the Rollout goes when the removed endpoints have drained.
  unfoldable pub clean_up : RuntimeState → Rollout → Pass RuntimeState
  clean_up state r =
      wrap (prefixed (bytes "wait for removed progressive endpoints to drain")) (
        wait_for_route_drain server clock state.route cleanup_started_at cleanup_delay
          server.cleanup_now)
      >>= λ w.
          if w.drained
          then (delete_progressive_controller_resources server >>= λ changed. pure (record state {
            route = w.route;
            rollout = none;
            mutated = (state.mutated || w.marked) || changed;
            migrating = false;
          }))
          else pure (
              waiting state r w
                "waiting for Envoy to remove progressive endpoints before deleting their Pods")

  -- The route of the Application is accepted: its old backends go when it has propagated.
  unfoldable pub cut_over : RuntimeState → Rollout → Pass RuntimeState
  cut_over state r =
      wrap (prefixed (bytes "wait for rolling HTTPRoute cutover drain")) (
        wait_for_route_drain server clock state.route cutover_started_at cutover_delay
          server.cutover_now)
      >>= λ w.
          if w.drained
          then (delete_progressive_services server >>= λ removed.
              clean_up
                (record state { route = w.route; mutated = (state.mutated || w.marked) || removed })
                r)
          else pure (
              waiting state r w
                "waiting for the accepted rolling HTTPRoute to propagate before draining canary resources")

  -- `routeReady && !routeRejected`.
  unfoldable pub route_accepted : Route → Bool
  route_accepted route =
      let (ready, rejected) = route_state lib.conditions route in ready && not rejected

  -- The second part, once Deployment and route are known.
  unfoldable pub take_over : RuntimeState → Rollout → Bool → Bool → Pass RuntimeState
  take_over state r exists deployment_ready =
      if (exists && deployment_ready) && route_uses_base_service state.route app.name
      then (if route_accepted state.route then cut_over state r else pure state)
      else pure (record state { rollout = some r })

  -- The HTTPRoute is switched back only where nothing depends on the old one, or the Deployment can
  -- serve.
  unfoldable pub serve_route : Bool → Route → Pass (Applied Route)
  serve_route switch current =
      if switch
      then reconcile_route lib server app false
      else pure (record { object = current; changed = false })

  abbrev pub migration_message : Bool → String
  migration_message true =
      "scaling and verifying the rolling Deployment before switching the HTTPRoute"
  migration_message false = ""

  unfoldable pub deployment_serves : DeploymentObject → Bool
  deployment_serves d =
      let (ready, _) = deployment_state (some d) app.spec.runtime.replicas.min in ready

  -- reconcileRollingChildren.
  unfoldable pub reconcile_rolling_children : Pass RuntimeState
  reconcile_rolling_children = get_rollout server.progressive_delivery server.first_rollout >>= λ r.
      (if r.1
        then wrap (prefixed (bytes "freeze Rollout for rolling migration")) (freeze server)
        else pure false)
      >>= λ frozen. reconcile_shared_children server app app true r.1 >>= λ d.
          get_route server.route >>= λ current.
          serve_route ((not current.1 || not r.1) || deployment_serves d.0) current.0 >>= λ route.
          take_over
            (record {
              deployment = some d.0;
              route = route.object;
              rollout = none;
              mutated = (frozen || d.1) || route.changed;
              migrating = r.1;
              migration_detail = migration_message r.1;
              analysis_failure = [];
              requeue_after = pos 0;
            })
            r.0 r.1 (deployment_serves d.0)
