-- ===== src/Status/Observe.antt =====
-- deploymentState and routeState of application_controller.go; rolloutHealthy, the tests on the
-- HTTPRoute's backends and on the Rollout of application_progressive.go.
use steadystate.Prelude.{
  ℕ, String, str_eq, Bytes, bytes, bytes_eq, get_or_empty, contains, Bool, true, false, not, ◌&&◌,
  ◌||◌, Option, none, some, List, [], ◌∷◌, leb, ltb, if◌then◌else◌, format_int,
}
use steadystate.Prelude.Int.{ℤ, pos, ltb_ℤ, eqb_ℤ}
use steadystate.Api.Conditions.{
  ConditionStatus, Condition, ConditionOps, status_is_true, status_is_false,
}

pub record DeploymentCondition : Type 0 where
  pub kind : String
  pub status : ConditionStatus
  pub reason : String

-- appsv1.Deployment, as far as it is observed.
pub record DeploymentObject : Type 0 where
  pub generation : ℕ
  pub observed_generation : ℕ
  pub available_replicas : ℤ
  pub updated_replicas : ℤ
  pub conditions : List DeploymentCondition

pub record RouteParent : Type 0 where
  pub name : Bytes
  pub namespace : Option Bytes
  pub conditions : List Condition

pub record Backend : Type 0 where
  pub name : Bytes
  pub weight : Option ℤ

-- gatewayv1.HTTPRoute: a rule is its list of backends.
pub record Route : Type 0 where
  pub generation : ℕ
  pub labels : List (Bytes × Bytes)
  pub annotations : List (Bytes × Bytes)
  pub rules : List (List Backend)
  pub parents : List RouteParent

pub data RolloutPhase : Type 0 where
  healthy degraded : RolloutPhase
  other : Bytes → RolloutPhase

pub data AnalysisPhase : Type 0 where
  failed error inconclusive : AnalysisPhase
  other : Bytes → AnalysisPhase

-- Status.Canary.CurrentStepAnalysisRunStatus.
pub record AnalysisRunStatus : Type 0 where
  pub name : Bytes
  pub status : AnalysisPhase
  pub message : Bytes

-- Spec.Strategy.Canary.
pub record CanaryStrategy : Type 0 where
  pub traffic_routing : Bool  -- TrafficRouting is not nil
  pub steps : ℕ  -- len(Steps)

-- rolloutsv1alpha1.Rollout; the observed generation is a text there.
pub record Rollout : Type 0 where
  pub generation : ℕ
  pub observed_generation : Bytes
  pub phase : RolloutPhase
  pub stable_rs : Bytes
  pub available_replicas : ℤ
  pub abort : Bool
  pub message : Bytes
  pub analysis : Option AnalysisRunStatus
  pub canary : Option CanaryStrategy

-- `a >= b` on int32.
abbrev pub geb_ℤ : ℤ → ℤ → Bool
geb_ℤ a b = not (ltb_ℤ a b)

-- The loop of deploymentState over the conditions.
unfoldable pub deployment_loop :
    DeploymentObject → ℤ → Bool → List DeploymentCondition → Bool × Bool
deployment_loop d desired ready [] = (ready, false)
deployment_loop d desired ready (c ∷ cs) =
    let now =
      ready
      || (str_eq c.kind "Available"
          && status_is_true c.status
          && leb d.generation d.observed_generation
          && geb_ℤ d.available_replicas desired
          && geb_ℤ d.updated_replicas desired) in
    let rest = deployment_loop d desired now cs in
    if str_eq c.kind "Progressing"
      && status_is_false c.status
      && str_eq c.reason "ProgressDeadlineExceeded"
    then (false, true)
    else rest

-- deploymentState: ready, failed. `none` is a nil pointer.
unfoldable pub deployment_state : Option DeploymentObject → ℤ → Bool × Bool
unfolding deployment_loop
deployment_state none desired = (false, false)
deployment_state (some d) desired = deployment_loop d desired false d.conditions

-- The condition is there, observed at the route's generation or later, with this status.
abbrev settled : (ConditionStatus → Bool) → ℕ → Option Condition → Bool
settled want generation none = false
settled want generation (some c) = leb generation c.observed_generation && want c.status

-- The parent is the shared Gateway steadystate-system/steadystate.
abbrev namespace_is : Option Bytes → Bytes → Bool
namespace_is none n = false
namespace_is (some m) n = bytes_eq m n

unfoldable pub is_gateway : RouteParent → Bool
is_gateway p =
    bytes_eq p.name (bytes "steadystate") && namespace_is p.namespace (bytes "steadystate-system")

module _ (ops : ConditionOps) where
  unfoldable pub parent_rejected : ℕ → RouteParent → Bool
  parent_rejected generation p =
      settled status_is_false generation (ops.find p.conditions "Accepted")
      || settled status_is_false generation (ops.find p.conditions "ResolvedRefs")

  unfoldable pub parent_accepted : ℕ → RouteParent → Bool
  parent_accepted generation p =
      settled status_is_true generation (ops.find p.conditions "Accepted")
      && settled status_is_true generation (ops.find p.conditions "ResolvedRefs")

  -- The loop of routeState over the parents.
  unfoldable pub route_loop : ℕ → List RouteParent → Bool × Bool
  route_loop generation [] = (false, false)
  route_loop generation (p ∷ ps) =
      let rest = route_loop generation ps in
      if not (is_gateway p)
      then rest
      else if parent_rejected generation p
      then (false, true)
      else if parent_accepted generation p
      then (true, false)
      else rest

  -- routeState: ready, rejected.
  unfoldable pub route_state : Route → Bool × Bool
  unfolding route_loop
  route_state route = route_loop route.generation route.parents

abbrev phase_is_healthy : RolloutPhase → Bool
phase_is_healthy healthy = true
phase_is_healthy _ = false

abbrev pub is_empty_text : Bytes → Bool
is_empty_text [] = true
is_empty_text (c ∷ s) = false

-- rolloutHealthy.
unfoldable pub rollout_healthy : Option Rollout → ℤ → Bool
rollout_healthy none desired = false
rollout_healthy (some r) desired =
    if not (bytes_eq r.observed_generation (format_int r.generation))
    then false
    else phase_is_healthy r.phase
      && not (is_empty_text r.stable_rs)
      && geb_ℤ r.available_replicas desired

-- rolloutTrafficRoutingActive.
unfoldable pub rollout_traffic_routing_active : Option Rollout → Bool
rollout_traffic_routing_active none = false
rollout_traffic_routing_active (some r) = elim r.canary [
  | none ↦ false
  | some c ↦ c.traffic_routing && ltb 0 c.steps
]

-- The two backends of a rule list that has one rule with two backends.
abbrev two_backends : List (List Backend) → Option (Backend × Backend)
two_backends ((a ∷ b ∷ []) ∷ []) = some (a, b)
two_backends _ = none

-- routeUsesCanaryServices, for the names of the stable and the canary Service.
unfoldable pub route_uses_canary_services : Route → Bytes → Bytes → Bool
route_uses_canary_services route stable canary = elim (two_backends route.rules) [
  | none ↦ false
  | some (a, b) ↦ contains (a.name ∷ b.name ∷ []) stable && contains (a.name ∷ b.name ∷ []) canary
]

abbrev one_backend : List (List Backend) → Option Backend
one_backend ((a ∷ []) ∷ []) = some a
one_backend _ = none

-- routeUsesBaseService.
unfoldable pub route_uses_base_service : Route → Bytes → Bool
route_uses_base_service route name = elim (one_backend route.rules) [
  | none ↦ false
  | some a ↦ bytes_eq a.name name
]

-- The map of the weights: a later backend of the same name overwrites, a nil weight is left out,
-- and a missing name has weight 0.
pub weight_of : Bytes → ℤ → List Backend → ℤ
weight_of name found [] = found
weight_of name found (b ∷ bs) =
    weight_of name
      (elim b.weight [ none ↦ found | some w ↦ if bytes_eq b.name name then w else found ]) bs

abbrev first_rule : List (List Backend) → List Backend
first_rule [] = []
first_rule (r ∷ rs) = r

-- routeIsStableOnly.
unfoldable pub route_is_stable_only : Route → Bytes → Bytes → Bool
unfolding weight_of
route_is_stable_only route stable canary =
    if not (route_uses_canary_services route stable canary)
      || bytes_eq (get_or_empty (bytes "rollouts.argoproj.io/gatewayapi-canary") route.labels)
          (bytes "in-progress")
    then false
    else eqb_ℤ (weight_of stable (pos 0) (first_rule route.rules)) (pos 100)
      && eqb_ℤ (weight_of canary (pos 0) (first_rule route.rules)) (pos 0)
