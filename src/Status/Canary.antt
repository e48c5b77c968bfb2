-- ===== src/Status/Canary.antt =====
-- canaryWorkloadStatus and strategyMigrationStatus of application_progressive.go.
use steadystate.Prelude.{
  String, Bytes, Bool, true, false, not, ◌&&◌, ◌||◌, Option, none, some, [], if◌then◌else◌,
}
use steadystate.Prelude.Int.{ℤ}
use steadystate.Naming.{Sha256, stable_service_name, canary_service_name}
use steadystate.Api.Conditions.{is_true, is_false, unknown, Message, ConditionOps}
use steadystate.Api.Application.{Application, ApplicationStatus, progressing, rolling_back}
use steadystate.Api.Application
use steadystate.Provenance.{Resolution}
use steadystate.Status.Observe.{
  DeploymentObject, Route, RolloutPhase, AnalysisPhase, AnalysisRunStatus, Rollout,
  deployment_state, route_state, rollout_healthy, route_is_stable_only, is_empty_text, geb_ℤ,
}
use steadystate.Status.Set.{
  condition_configuration_ready, plain, verbatim, base_status, set_condition,
  set_security_policy_ready, set_service_health, set_candidate_version,
}
use steadystate.Status.Workload.{is_invalid, is_conflict, is_resolved, finish}

-- applicationRuntimeState.
pub record RuntimeState : Type 0 where
  pub deployment : Option DeploymentObject
  pub route : Route
  pub rollout : Option Rollout
  pub mutated : Bool
  pub migrating : Bool
  pub migration_detail : String
  pub analysis_failure : Bytes
  pub requeue_after : ℤ  -- nanoseconds

abbrev is_inconclusive : AnalysisPhase → Bool
is_inconclusive AnalysisPhase.inconclusive = true
is_inconclusive _ = false

abbrev pub is_degraded : RolloutPhase → Bool
is_degraded RolloutPhase.degraded = true
is_degraded _ = false

-- `analysis != nil && analysis.Status == Inconclusive`.
abbrev pub analysis_inconclusive : Option AnalysisRunStatus → Bool
analysis_inconclusive none = false
analysis_inconclusive (some a) = is_inconclusive a.status

-- The first message that is not empty.
abbrev pub first_message : Bytes → Message → Message
first_message m fallback = if is_empty_text m then fallback else verbatim m

-- `state.rollout != nil && AvailableReplicas >= desired`.
abbrev pub rollout_available : Option Rollout → ℤ → Bool
rollout_available none desired = false
rollout_available (some r) desired = geb_ℤ r.available_replicas desired

module _ (ops : ConditionOps) (sha : Sha256) (app : Application) where
  -- The `switch` behind the checks on the Rollout.
  unfoldable pub promotion_switch :
      ApplicationStatus → Bool → Bool → Resolution → Bytes → ApplicationStatus
  promotion_switch s ready route_ready digest revision =
      if ready && route_ready && is_invalid digest.state
      then finish ops app (record s { phase = Application.degraded }) is_false "ImageDigestInvalid"
          digest.message is_false "ImageDigestInvalid" digest.message
      else if ready && route_ready && is_conflict digest.state
      then finish ops app (record s { phase = Application.degraded }) is_false "ImageDigestConflict"
          digest.message is_false "ImageDigestConflict" digest.message
      else if ready && route_ready && not (is_resolved digest.state)
      then finish ops app (record s { phase = progressing }) unknown "ResolvingImageDigest"
          digest.message is_false "ResolvingImageDigest" digest.message
      else if ready && route_ready
      then finish ops app
          (record s {
            phase = Application.healthy;
            active_version = app.spec.image.tag;
            candidate_version = [];
            resolved_image_digest = digest.digest;
            resolved_git_revision = revision;
          })
          is_true "CanaryPromoted" (plain "Rollout is Healthy at one runtime image digest") is_true
          "ApplicationReady" (plain "Rollout, runtime image digest, and HTTPRoute are ready")
      else finish ops app (record s { phase = progressing }) unknown "CanaryProgressing"
          (plain "candidate is progressing through metric-gated traffic weights") is_false
          "CanaryProgressing"
          (plain "candidate is progressing through metric-gated traffic weights")

  -- An aborted or degraded Rollout.
  unfoldable pub aborted_status : ApplicationStatus → RuntimeState → Rollout → ApplicationStatus
  aborted_status s state rollout =
      let message =
        first_message state.analysis_failure
          (first_message rollout.message (plain "canary analysis failed")) in
      if route_is_stable_only state.route (stable_service_name sha app.name)
        (canary_service_name sha app.name)
      then finish ops app (record s { phase = Application.degraded }) is_false
          "CanaryAnalysisFailed" message is_false "CanaryAnalysisFailed" message
      else finish ops app (record s { phase = rolling_back }) is_false "CanaryRollbackInProgress"
          message is_false "CanaryRollbackInProgress"
          (plain "Returning all traffic to the last healthy release")

  -- The code from the look at the analysis on.
  unfoldable pub rollout_status :
      ApplicationStatus → RuntimeState → Bool → Rollout → Resolution → Bytes → ApplicationStatus
  rollout_status s state route_ready rollout digest revision =
      if analysis_inconclusive rollout.analysis
        && not app.spec.deployment.automatic_rollback
        && not rollout.abort
      then (let message =
            first_message state.analysis_failure
              (plain "canary analysis is Inconclusive and requires an explicit promote or abort") in
          finish ops app (record s { phase = progressing }) unknown "CanaryAnalysisInconclusive"
            message is_false "CanaryAnalysisInconclusive" message)
      else if rollout.abort || is_degraded rollout.phase
      then aborted_status s state rollout
      else promotion_switch s (rollout_healthy (some rollout) app.spec.runtime.replicas.min)
          route_ready digest revision

  -- The early returns in front of it.
  unfoldable pub canary_switch :
      ApplicationStatus → RuntimeState → Bool → Bool → Resolution → Bytes → ApplicationStatus
  canary_switch s state route_ready route_rejected digest revision =
      if route_rejected
      then finish ops app (record s { phase = Application.degraded }) is_false "RouteRejected"
          (plain "HTTPRoute was rejected or has unresolved references") is_false "RouteRejected"
          (plain "HTTPRoute was rejected or has unresolved references")
      else if state.migrating
      then finish ops app (record s { phase = progressing }) unknown "StrategyMigration"
          (plain state.migration_detail) is_false "StrategyMigration" (plain state.migration_detail)
      else elim state.rollout [
        | none ↦
            finish ops app (record s { phase = progressing }) unknown "CreatingRollout"
              (plain "Waiting for the Rollout controller") is_false "CreatingRollout"
              (plain "Waiting for the Rollout controller")
        | some rollout ↦ rollout_status s state route_ready rollout digest revision
      ]

  -- The conditions that both functions write first, on a status whose candidate is set.
  abbrev serving : ApplicationStatus → RuntimeState → ApplicationStatus
  serving s state =
      let (deployment_ready, _) = deployment_state state.deployment app.spec.runtime.replicas.min in
      let (route_ready, route_rejected) = route_state ops state.route in
      set_service_health ops s app
        (route_ready
          && (deployment_ready || rollout_available state.rollout app.spec.runtime.replicas.min))
        route_rejected

  -- canaryWorkloadStatus: the status, and whether the route was rejected.
  unfoldable pub canary_workload_status :
      RuntimeState → Resolution → Bytes → ApplicationStatus × Bool
  canary_workload_status state digest revision =
      let s0 =
        set_condition ops (base_status app) app.generation condition_configuration_ready is_true
          "ResourcesReconciled"
          (plain "Progressive-delivery resources match the Application specification") in
      let s1 = set_security_policy_ready ops s0 app in
      let s2 = serving (set_candidate_version s1 app) state in
      let (route_ready, route_rejected) = route_state ops state.route in
      (canary_switch s2 state route_ready route_rejected digest revision, route_rejected)

  -- strategyMigrationStatus.
  unfoldable pub strategy_migration_status : RuntimeState → ApplicationStatus
  strategy_migration_status state =
      let base = base_status app in
      let s0 = set_candidate_version (record base { phase = progressing }) app in
      let s1 =
        set_condition ops s0 app.generation condition_configuration_ready is_true
          "ResourcesReconciled" (plain "Migration resources are reconciled") in
      let s2 = serving (set_security_policy_ready ops s1 app) state in
      finish ops app s2 unknown "StrategyMigration" (plain state.migration_detail) is_false
        "StrategyMigration" (plain state.migration_detail)
