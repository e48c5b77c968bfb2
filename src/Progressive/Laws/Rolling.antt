-- ===== src/Progressive/Laws/Rolling.antt =====
-- Safety of the move from a Rollout back to a Deployment: what is deleted, and when.
use steadystate.Prelude.{
  ℕ, Bytes, Bool, true, false, ◌&&◌, ◌≡◌, sym, ap, ◌∙◌, inl, inr, Option, none, some, List, [], ◌∷◌,
  All, ok, Result-cases, arith,
}
use steadystate.Control.{read, call, wrap, ◌>>=◌}
use steadystate.Control.Rules.{
  Logs, Logs-pure, Logs-read, Logs-call, Logs-wrap, Logs-bind, Logs-if, wrap-ok,
}
use steadystate.Api.Application.{Application}
use steadystate.Status.Observe.{DeploymentObject, Route, Rollout, route_uses_base_service}
use steadystate.Status.Canary.{RuntimeState}
use steadystate.Reconcile.Cluster.{Library}
use steadystate.Progressive.Drain.{Clock, route_drain_remaining, with_stamp}
use steadystate.Progressive.Server.{
  Child, Effect, apply_route, stamp_route, delete, Applied, Server, stable_service, canary_service,
  analysis_template, rollout,
}
use steadystate.Progressive.Shared.{Pass, prefixed, reconcile_shared_children}
use steadystate.Progressive.Routes.{reconcile_route}
use steadystate.Progressive.Laws.Calls.{
  get_rollout-Logs, get_route-Logs, shared-Logs, route-Logs, freeze-Logs,
}
use steadystate.Progressive.Rolling.{
  Wait, cutover_started_at, cutover_delay, cleanup_started_at, cleanup_delay, found_child, answer,
  delete_progressive_objects, await_drain, wait_for_route_drain, delete_progressive_services,
  delete_progressive_controller_resources, clean_up, cut_over, route_accepted, take_over,
  serve_route, deployment_serves, reconcile_rolling_children,
}

-- A call that deletes nothing.
abbrev pub IsHarmless : Effect → Type 0
IsHarmless (delete c) = ⊥
IsHarmless _ = Unit

-- The children that keep the Pods of the Rollout.
abbrev pub IsController : Child → Type 0
IsController rollout = Unit
IsController analysis_template = Unit
IsController _ = ⊥

-- The drain that began with this annotation is over.
abbrev pub Drained : Clock → Route → Bytes → ℕ → ℕ → Type 0
Drained clock route annotation delay now =
    route_drain_remaining clock route annotation delay now ≡ some 0

module _ {P : Effect → Type 0} (server : Server) where
  delete_objects-Logs :
      (cs : List Child) (m : Bool)
      → All (λ c. P (delete c)) cs
      → Logs P (delete_progressive_objects server cs m)
  unfolding delete_progressive_objects
  delete_objects-Logs [] m h = Logs-pure m
  delete_objects-Logs (c ∷ cs) m (h, hs) =
      Logs-bind (read (found_child (server.get c))) _ (Logs-read _) (λ there e.
        Logs-if there _ _
          (λ f.
            Logs-bind (call (delete c) (answer (server.remove c))) _ (Logs-call _ _ h)
              (λ x g. delete_objects-Logs cs true hs))
          (λ f. delete_objects-Logs cs m hs))

  await-Logs :
      (clock : Clock) (route : Route) (annotation : Bytes) (delay now : ℕ) (o : Option ℕ)
      → P (stamp_route annotation)
      → Logs P (await_drain server clock route annotation delay now o)
  unfolding await_drain
  await-Logs clock route annotation delay now (some n) h = Logs-pure _
  await-Logs clock route annotation delay now none h =
      Logs-bind (call (stamp_route annotation) _) _ (Logs-call _ _ h) (λ a f. Logs-pure _)

-- A wait that ends drained found the delay passed, and left the route as it was.
await-drained :
    (server : Server) (clock : Clock) (route : Route) (annotation : Bytes) (delay now : ℕ)
    (o : Option ℕ) (w : Wait)
    → (await_drain server clock route annotation delay now o).1 ≡ ok w
    → w.drained ≡ true
    → (o ≡ some 0) × (w.route ≡ route)
unfolding await_drain ◌>>=◌
await-drained server clock route annotation delay now (some n) w h d = ground arith
await-drained server clock route annotation delay now none w h d =
    elim (Result-cases (server.patch_route (with_stamp clock route annotation now))) [
      | inl (a, e) ↦ absurd (ground arith)
      | inr (a, e) ↦ absurd (ground arith)
    ]

-- What follows a wait knows that the delay has passed, where the wait says so.
wait-Logs :
    {P : Effect → Type 0} {A : Type 0} (server : Server) (clock : Clock) (route : Route)
    (annotation : Bytes) (delay now : ℕ) (context : Bytes) (k : Wait → Pass A)
    → P (stamp_route annotation)
    → ((w : Wait)
        → (w.drained ≡ true → Drained clock route annotation delay now × (w.route ≡ route))
        → Logs P (k w))
    → Logs P (
        wrap (prefixed context) (wait_for_route_drain server clock route annotation delay now)
        >>= k)
unfolding wait_for_route_drain
wait-Logs server clock route annotation delay now context k h rest =
    Logs-bind (wrap (prefixed context) _) k
      (Logs-wrap _ _ (await-Logs server clock route annotation delay now _ h))
      (λ w e. rest w (await-drained server clock route annotation delay now _ w (wrap-ok _ _ w e)))

-- The calls that the take-over of a route makes, for any invariant of them.
module _ {P : Effect → Type 0} (lib : Library) (clock : Clock) (server : Server)
    (app : Application) where
  clean_up-Logs :
      (state : RuntimeState) (r : Rollout)
      → P (stamp_route cleanup_started_at)
      → (Drained clock state.route cleanup_started_at cleanup_delay server.cleanup_now
          → P (delete rollout) × P (delete analysis_template))
      → Logs P (clean_up lib clock server app state r)
  unfolding clean_up delete_progressive_controller_resources
  clean_up-Logs state r h k = wait-Logs server clock _ _ _ _ _ _ h (λ w drained.
      Logs-if w.drained _ _
        (λ d.
          let (a, b) = k (drained d).0 in
          Logs-bind _ _ (delete_objects-Logs server _ _ (a, (b, tt))) (λ x g. Logs-pure _))
        (λ d. Logs-pure _))

  cut_over-Logs :
      (state : RuntimeState) (r : Rollout)
      → P (stamp_route cutover_started_at)
      → P (stamp_route cleanup_started_at)
      → (Drained clock state.route cutover_started_at cutover_delay server.cutover_now
          → P (delete stable_service) × P (delete canary_service))
      → (Drained clock state.route cutover_started_at cutover_delay server.cutover_now
          → Drained clock state.route cleanup_started_at cleanup_delay server.cleanup_now
          → P (delete rollout) × P (delete analysis_template))
      → Logs P (cut_over lib clock server app state r)
  unfolding cut_over delete_progressive_services
  cut_over-Logs state r h h' k k' = wait-Logs server clock _ _ _ _ _ _ h (λ w drained.
      Logs-if w.drained _ _
        (λ d.
          let (passed, same) = drained d in
          let (a, b) = k passed in
          Logs-bind _ _ (delete_objects-Logs server _ _ (a, (b, tt)))
            (λ x g. clean_up-Logs _ r h' (λ q. k' passed (rw (sym same) q))))
        (λ d. Logs-pure _))

  take_over-Logs :
      (state : RuntimeState) (r : Rollout) (exists ready : Bool)
      → (exists ≡ true
          → ready ≡ true
          → route_uses_base_service state.route app.name ≡ true
          → route_accepted lib clock server app state.route ≡ true
          → Logs P (cut_over lib clock server app state r))
      → Logs P (take_over lib clock server app state r exists ready)
  unfolding take_over
  take_over-Logs state r exists ready h =
      Logs-if ((exists && ready) && route_uses_base_service state.route app.name) _ _
        (λ e.
          Logs-if (route_accepted lib clock server app state.route) _ _
            (h (ground arith) (ground arith) (ground arith)) (λ f. Logs-pure _))
        (λ e. Logs-pure _)

  serve-Logs :
      (switch : Bool) (current : Route)
      → P (apply_route false)
      → Logs P (serve_route lib clock server app switch current)
  unfolding serve_route
  serve-Logs switch current h =
      Logs-if switch _ _ (λ e. route-Logs lib server app false h) (λ e. Logs-pure _)

-- A route that is switched is what reconcileRoute wrote.
serve-ok :
    (lib : Library) (clock : Clock) (server : Server) (app : Application) (switch : Bool)
    (current : Route) (route : Applied Route)
    → switch ≡ true
    → (serve_route lib clock server app switch current).1 ≡ ok route
    → (reconcile_route lib server app false).1 ≡ ok route
unfolding serve_route
serve-ok lib clock server app true current route e h = h
serve-ok lib clock server app false current route e h = cc

-- What stands before the deletion of `c`: the Deployment of the Application serves, the HTTPRoute that
-- was written to its Service is accepted, and the drains that the deletion waits for are over.
pub record Cutover (lib : Library) (clock : Clock) (server : Server) (app : Application) (c : Child)
    : Type 0 where
  pub shared : DeploymentObject × Bool
  pub applied : (reconcile_shared_children server app app true true).1 ≡ ok shared
  pub ready : deployment_serves lib clock server app shared.0 ≡ true
  pub route : Applied Route
  pub written : (reconcile_route lib server app false).1 ≡ ok route
  pub base : route_uses_base_service route.object app.name ≡ true
  pub accepted : route_accepted lib clock server app route.object ≡ true
  pub propagated : Drained clock route.object cutover_started_at cutover_delay server.cutover_now
  pub emptied :
      IsController c
      → Drained clock route.object cleanup_started_at cleanup_delay server.cleanup_now

-- A deletion comes behind its cut-over.
abbrev pub IsSafe : Library → Clock → Server → Application → Effect → Type 0
IsSafe lib clock server app (delete c) = Cutover lib clock server app c
IsSafe lib clock server app _ = Unit

safe_deletion :
    (lib : Library) (clock : Clock) (server : Server) (app : Application)
    (d : DeploymentObject × Bool) (route : Applied Route)
    → (reconcile_shared_children server app app true true).1 ≡ ok d
    → deployment_serves lib clock server app d.0 ≡ true
    → (reconcile_route lib server app false).1 ≡ ok route
    → route_uses_base_service route.object app.name ≡ true
    → route_accepted lib clock server app route.object ≡ true
    → (c : Child) → Drained clock route.object cutover_started_at cutover_delay server.cutover_now
    → (IsController c
        → Drained clock route.object cleanup_started_at cleanup_delay server.cleanup_now)
    → Cutover lib clock server app c
safe_deletion lib clock server app d route applied ready written base accepted c p q = record {
  shared = d;
  applied = applied;
  ready = ready;
  route = route;
  written = written;
  base = base;
  accepted = accepted;
  propagated = p;
  emptied = q;
}

-- Each deletion that reconcileRollingChildren makes comes when the Deployment serves, the HTTPRoute to
-- its Service is accepted and the drains that the deletion waits for are over.
pub rolling-IsSafe :
    (lib : Library) (clock : Clock) (server : Server) (app : Application)
    → Logs (IsSafe lib clock server app) (reconcile_rolling_children lib clock server app)
unfolding reconcile_rolling_children
rolling-IsSafe lib clock server app = Logs-bind _ _ (get_rollout-Logs lib server app _ _) (λ r er.
    Logs-bind _ _
      (Logs-if r.1 _ _ (λ e. Logs-wrap _ _ (freeze-Logs lib server app tt)) (λ e. Logs-pure _))
      (λ frozen ef. Logs-bind _ _ (shared-Logs lib server app app true r.1 tt tt tt) (λ d ed.
        Logs-bind _ _ (get_route-Logs lib server app _) (λ current ec.
          Logs-bind _ _ (serve-Logs lib clock server app _ _ tt) (λ route ew.
            take_over-Logs lib clock server app _ _ _ _ (λ there ready base accepted.
              let safe =
                safe_deletion lib clock server app d route
                  (sym (ap (λ b. (reconcile_shared_children server app app true b).1) there) ∙ ed)
                  ready (serve-ok lib clock server app _ _ route (ground arith) ew) base accepted in
              cut_over-Logs lib clock server app _ _ tt tt
                (λ p.
                  (safe stable_service p (λ c. absurd c), safe canary_service p (λ c. absurd c)))
                (λ p q. (safe rollout p (λ c. q), safe analysis_template p (λ c. q)))))))))
