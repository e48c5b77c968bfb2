-- ===== src/Progressive/Serving.antt =====
-- shouldHoldServingDeployment, preserveRouteWeights and servingApplicationAtVersion.
use steadystate.Prelude.{
  Bytes, bytes_eq, Bool, true, false, not, ◌&&◌, Option, none, some, List, [], ◌∷◌, map,
  if◌then◌else◌,
}
use steadystate.Prelude.Int.{ℤ}
use steadystate.Api.Application.{Application, rolling}
use steadystate.Status.Observe.{Backend, Rollout, is_empty_text, rollout_traffic_routing_active}

-- `!rolloutExists || rollout.Status.StableRS == ""`.
abbrev pub without_stable : Option Rollout → Bool
without_stable none = true
without_stable (some r) = is_empty_text r.stable_rs

-- shouldHoldServingDeployment; `none` is a Rollout that does not exist.
unfoldable pub should_hold_serving_deployment : Application → Option Rollout → Bool → Bool
should_hold_serving_deployment app rollout canary_route_ready =
    if is_empty_text app.status.active_version
    then false
    else if without_stable rollout
    then true
    else not canary_route_ready && not (rollout_traffic_routing_active rollout)

-- The map of the current weights: a later backend of the same name overwrites, and a nil weight is
-- left out.
unfoldable pub current_weight : Bytes → Option ℤ → List Backend → Option ℤ
current_weight name found [] = found
current_weight name found (b ∷ bs) =
    current_weight name
      (elim b.weight [ none ↦ found | some w ↦ if bytes_eq b.name name then some w else found ]) bs

abbrev pub reweigh : List Backend → Backend → Backend
reweigh current b = elim (current_weight b.name none current) [
  | none ↦ b
  | some w ↦ record b { weight = some w }
]

abbrev pub first_backends : List (List Backend) → List Backend
first_backends [] = []
first_backends (r ∷ rs) = r

-- preserveRouteWeights, on the rules; `none` is the panic on a desired route with no rule.
unfoldable pub preserve_route_weights :
    List (List Backend) → List (List Backend) → Option (List (List Backend))
preserve_route_weights [] current = none
preserve_route_weights (backends ∷ rules) current =
    some (map (reweigh (first_backends current)) backends ∷ rules)

-- servingApplicationAtVersion.
unfoldable pub serving_application_at_version : Application → Bytes → Application
serving_application_at_version app version =
    let spec = app.spec in
    let image = spec.image in
    let deployment = spec.deployment in
    record app {
      spec = record spec {
        image = record image { tag = version };
        deployment = record deployment { strategy = rolling; steps = [] };
      };
    }
