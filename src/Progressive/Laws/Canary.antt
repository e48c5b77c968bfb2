-- ===== src/Progressive/Laws/Canary.antt =====
-- What the reconciliation of a canary may call, and what its result says of the migration.
use steadystate.Prelude.{
  Bool, true, false, ◌&&◌, ◌≡◌, ◌≢◌, ◌⊎◌, refl, sym, inl, inr, none, some, [], ok, Bool-cases,
  arith,
}
use steadystate.Control.Rules.{Logs, Logs-pure, Logs-read, Logs-call, Logs-wrap, Logs-bind, Logs-if}
use steadystate.Api.Application.{Application}
use steadystate.Status.Observe.{Route, Rollout, rollout_traffic_routing_active, rollout_healthy}
use steadystate.Reconcile.Cluster.{Library}
use steadystate.Progressive.Serving.{serving_application_at_version}
use steadystate.Progressive.Server.{
  Effect, apply_deployment, freeze_rollout, apply_route, stamp_route, delete, Server,
}
use steadystate.Progressive.Shared.{get_rollout, get_route}
use steadystate.Progressive.Canary.{
  reconcile_progressive_resources, uses_canary, canary_accepted, holds, anchor, switches,
  switch_route, reconcile_canary_children,
}
use steadystate.Progressive.Laws.{should_hold_iff}
use steadystate.Progressive.Laws.Calls.{get_rollout-Logs, get_route-Logs, shared-Logs, route-Logs}

module _ (lib : Library) (server : Server) (app : Application) where
  -- The canary can serve in place of the old version: nothing was promoted before, or there is a
  -- Rollout with a stable ReplicaSet, behind an accepted canary route or routing traffic already.
  abbrev pub IsReleased : Type 0
  IsReleased =
      (app.status.active_version ≡ [])
      ⊎ ((r : Rollout) × ((get_rollout server.progressive_delivery server.first_rollout).1
            ≡ ok (r, true))
          × (r.stable_rs ≢ [])
          × (((route : Route) × ((get_route server.route).1 ≡ ok (route, true))
                × (uses_canary lib server app route ≡ true)
                × (canary_accepted lib server app route ≡ true))
              ⊎ (rollout_traffic_routing_active (some r) ≡ true)))

  -- The HTTPRoute can be switched: there is none, it has the canary's backends already, or the Rollout
  -- is healthy.
  abbrev pub IsSwitchable : Type 0
  IsSwitchable =
      (route : Route × Bool) × ((get_route server.route).1 ≡ ok route)
      × ((route.1 ≡ false)
          ⊎ (uses_canary lib server app route.0 ≡ true)
          ⊎ ((r : Rollout × Bool) × ((get_rollout server.progressive_delivery
                  server.second_rollout).1
                ≡ ok r)
              × (rollout_healthy (some r.0) app.spec.runtime.replicas.min ≡ true)))

  -- The calls that a canary may make.
  abbrev pub IsAllowed : Effect → Type 0
  IsAllowed (apply_deployment a manage identity) =
      (a ≡ serving_application_at_version app app.status.active_version) ⊎ ((a ≡ app) × IsReleased)
  IsAllowed (apply_route canary) = (canary ≡ true) × IsSwitchable
  IsAllowed freeze_rollout = ⊥
  IsAllowed (stamp_route annotation) = ⊥
  IsAllowed (delete c) = ⊥
  IsAllowed _ = Unit

  progressive-Logs :
      (hold : Bool) → Logs IsAllowed (reconcile_progressive_resources lib server app hold)
  unfolding reconcile_progressive_resources
  progressive-Logs hold = Logs-bind _ _ (Logs-wrap _ _ (Logs-call _ _ tt)) (λ s e.
      Logs-bind _ _ (Logs-wrap _ _ (Logs-call _ _ tt)) (λ c f.
        Logs-bind _ _ (Logs-wrap _ _ (Logs-call _ _ tt))
          (λ a g. Logs-bind _ _ (Logs-wrap _ _ (Logs-call _ _ tt)) (λ r h. Logs-pure _))))

  accepted_or_routing :
      (r : Rollout) (route : Route) (there : Bool)
      → (get_route server.route).1 ≡ ok (route, there)
      → (((there && uses_canary lib server app route) && canary_accepted lib server app route)
          ≡ true)
        ⊎ (rollout_traffic_routing_active (some r) ≡ true)
      → ((x : Route) × ((get_route server.route).1 ≡ ok (x, true))
          × (uses_canary lib server app x ≡ true)
          × (canary_accepted lib server app x ≡ true))
        ⊎ (rollout_traffic_routing_active (some r) ≡ true)
  accepted_or_routing r route true f (inl c) = inl (route, f, ground arith, ground arith)
  accepted_or_routing r route false f (inl c) = cc
  accepted_or_routing r route there f (inr c) = inr c

  released :
      (rollout : Rollout × Bool) (route : Route × Bool)
      → (get_rollout server.progressive_delivery server.first_rollout).1 ≡ ok rollout
      → (get_route server.route).1 ≡ ok route
      → holds lib server app rollout route ≡ false
      → IsReleased
  unfolding holds
  released (r, false) (route, there) e f h = elim ((should_hold_iff app none _).0 h) [
    | inl g ↦ inl g
    | inr g ↦ absurd (ground arith)
  ]
  released (r, true) (route, there) e f h = elim ((should_hold_iff app (some r) _).0 h) [
    | inl g ↦ inl g
    | inr (q, g, n, c) ↦
        (let same : r ≡ q = cc in
          inr (r, e, rw (sym same) at n, accepted_or_routing r route there f (rw (sym same) at c)))
  ]

  allowed_anchor :
      (rollout : Rollout × Bool) (route : Route × Bool) (hold : Bool)
      → (get_rollout server.progressive_delivery server.first_rollout).1 ≡ ok rollout
      → (get_route server.route).1 ≡ ok route
      → holds lib server app rollout route ≡ hold
      → (anchor lib server app hold ≡ serving_application_at_version app app.status.active_version)
        ⊎ ((anchor lib server app hold ≡ app) × IsReleased)
  unfolding anchor
  allowed_anchor rollout route true e f h = inl refl
  allowed_anchor rollout route false e f h = inr (refl, released rollout route e f h)

  switchable :
      (rollout : Rollout × Bool) (route : Route × Bool)
      → (get_rollout server.progressive_delivery server.second_rollout).1 ≡ ok rollout
      → (get_route server.route).1 ≡ ok route
      → switches lib server app route rollout.0 ≡ true
      → IsSwitchable
  unfolding switches
  switchable rollout route e f h = elim (Bool-cases route.1) [
    | inr g ↦ (route, f, inl g)
    | inl g ↦ elim (Bool-cases (uses_canary lib server app route.0)) [
      | inl u ↦ (route, f, inr (inl u))
      | inr u ↦ (route, f, inr (inr (rollout, e, ground arith)))
    ]
  ]

  switch-Logs :
      (switch : Bool) (current : Route)
      → (switch ≡ true → IsSwitchable)
      → Logs IsAllowed (switch_route lib server app switch current)
  unfolding switch_route
  switch-Logs switch current h =
      Logs-if switch _ _ (λ e. route-Logs lib server app true (refl, h e)) (λ e. Logs-pure _)

-- The children of a canary: nothing is deleted, frozen or stamped.
pub canary-IsAllowed :
    (lib : Library) (server : Server) (app : Application)
    → Logs (IsAllowed lib server app) (reconcile_canary_children lib server app)
unfolding reconcile_canary_children
canary-IsAllowed lib server app = Logs-bind _ _ (get_rollout-Logs lib server app _ _) (λ first ef.
    Logs-bind _ _ (get_route-Logs lib server app _) (λ current ec.
      Logs-bind _ _
        (shared-Logs lib server app _ _ false tt
          (allowed_anchor lib server app first current _ ef ec refl) tt)
        (λ d ed. Logs-bind _ _ (progressive-Logs lib server app _) (λ progressive ep.
          Logs-bind _ _ (get_rollout-Logs lib server app _ _) (λ second es.
            Logs-bind _ _
              (switch-Logs lib server app _ current.0
                (λ h. switchable lib server app second current es ec h))
              (λ route er. Logs-bind _ _ (Logs-read _) (λ failure ea. Logs-pure _)))))))
