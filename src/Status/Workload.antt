-- ===== src/Status/Workload.antt =====
-- workloadStatus of application_controller.go: the status of a rolling Application.
use steadystate.Prelude.{String, Bytes, Bool, true, false, not, ◌&&◌, Option, [], if◌then◌else◌}
use steadystate.Api.Conditions.{ConditionStatus, is_true, is_false, unknown, Message, ConditionOps}
use steadystate.Api.Application.{Application, ApplicationStatus, progressing, healthy, degraded}
use steadystate.Provenance.{DigestState, Resolution}
use steadystate.Status.Observe.{DeploymentObject, Route, deployment_state, route_state}
use steadystate.Status.Set.{
  condition_configuration_ready, condition_rollout_healthy, condition_ready, plain, base_status,
  set_condition, set_security_policy_ready, set_service_health,
}

abbrev pub is_invalid : DigestState → Bool
is_invalid DigestState.invalid = true
is_invalid _ = false

abbrev pub is_conflict : DigestState → Bool
is_conflict DigestState.conflict = true
is_conflict _ = false

abbrev pub is_resolved : DigestState → Bool
is_resolved DigestState.resolved = true
is_resolved _ = false

abbrev pub condition_from_bool : Bool → ConditionStatus
condition_from_bool true = is_true
condition_from_bool false = unknown

module _ (ops : ConditionOps) (app : Application) where
  -- The two conditions that end each case of the `switch`: RolloutHealthy, then Ready.
  abbrev pub finish :
      ApplicationStatus
      → ConditionStatus
      → String
      → Message
      → ConditionStatus
      → String
      → Message
      → ApplicationStatus
  finish s rollout r m ready r' m' =
      set_condition ops (set_condition ops s app.generation condition_rollout_healthy rollout r m)
        app.generation condition_ready ready r' m'

  -- The `switch` of workloadStatus.
  unfoldable pub workload_switch :
      ApplicationStatus → Bool → Bool → Bool → Bool → Resolution → Bytes → ApplicationStatus
  workload_switch s deployment_ready deployment_failed route_ready route_rejected digest revision =
      if deployment_failed
      then finish (record s { phase = degraded; candidate_version = [] }) is_false
          "DeploymentFailed" (plain "Deployment reported a rollout failure") is_false
          "DeploymentFailed" (plain "Application rollout failed")
      else if route_rejected
      then finish (record s { phase = degraded; candidate_version = [] })
          (condition_from_bool deployment_ready) "DeploymentObserved"
          (plain "Deployment readiness has been observed") is_false "RouteRejected"
          (plain "HTTPRoute was rejected or has unresolved references")
      else if deployment_ready && route_ready && is_invalid digest.state
      then finish (record s { phase = degraded; candidate_version = [] }) is_false
          "ImageDigestInvalid" digest.message is_false "ImageDigestInvalid" digest.message
      else if deployment_ready && route_ready && is_conflict digest.state
      then finish (record s { phase = degraded; candidate_version = [] }) is_false
          "ImageDigestConflict" digest.message is_false "ImageDigestConflict" digest.message
      else if deployment_ready && route_ready && not (is_resolved digest.state)
      then finish (record s { phase = progressing; candidate_version = app.spec.image.tag }) unknown
          "ResolvingImageDigest" digest.message is_false "ResolvingImageDigest" digest.message
      else if deployment_ready && route_ready
      then finish
          (record s {
            phase = healthy;
            active_version = app.spec.image.tag;
            candidate_version = [];
            resolved_image_digest = digest.digest;
            resolved_git_revision = revision;
          })
          is_true "DeploymentAvailable"
          (plain "Desired Deployment replicas are available at one runtime image digest") is_true
          "ApplicationReady" (plain "Deployment, runtime image digest, and HTTPRoute are ready")
      else finish (record s { phase = progressing; candidate_version = app.spec.image.tag }) unknown
          "Progressing" (plain "Waiting for Deployment availability and HTTPRoute acceptance")
          is_false "Progressing" (plain "Application is progressing")

  -- The status, and whether the route was rejected.
  unfoldable pub workload_status :
      Option DeploymentObject → Route → Resolution → Bytes → ApplicationStatus × Bool
  workload_status deployment route digest revision =
      let s0 =
        set_condition ops (base_status app) app.generation condition_configuration_ready is_true
          "ResourcesReconciled"
          (plain "All generated resources match the Application specification") in
      let s1 = set_security_policy_ready ops s0 app in
      let (deployment_ready, deployment_failed) =
        deployment_state deployment app.spec.runtime.replicas.min in
      let (route_ready, route_rejected) = route_state ops route in
      let s2 = set_service_health ops s1 app (deployment_ready && route_ready) route_rejected in
      (
        workload_switch s2 deployment_ready deployment_failed route_ready route_rejected digest
            revision,
        route_rejected,
      )
