-- ===== src/Status/Set.antt =====
-- Writing conditions, and the statuses of the early returns of Reconcile: setCondition, baseStatus,
-- setSecurityPolicyReady, setServiceHealth, degradedStatus, databaseBlockedStatus and
-- setCandidateVersion.
use steadystate.Prelude.{
  ℕ, String, str_eq, Bytes, bytes_eq, Bool, not, ◌&&◌, ◌||◌, none, some, [], ◌∷◌, if◌then◌else◌,
}
use steadystate.Api.Conditions.{ConditionStatus, is_true, is_false, unknown, Message, ConditionOps}
use steadystate.Api.Application.{Application, ApplicationStatus, pending, degraded}

abbrev pub condition_configuration_ready : String
condition_configuration_ready = "ConfigurationReady"

abbrev pub condition_security_policy_ready : String
condition_security_policy_ready = "SecurityPolicyReady"

abbrev pub condition_service_health : String
condition_service_health = "ServiceHealth"

abbrev pub condition_database_ready : String
condition_database_ready = "DatabaseReady"

abbrev pub condition_rollout_healthy : String
condition_rollout_healthy = "RolloutHealthy"

abbrev pub condition_ready : String
condition_ready = "Ready"

-- A message with no arguments.
abbrev pub plain : String → Message
plain s = record { format = s; args = [] }

-- A text that is passed on as it is.
abbrev pub verbatim : Bytes → Message
verbatim s = record { format = "%s"; args = s ∷ [] }

-- baseStatus.
abbrev pub base_status : Application → ApplicationStatus
base_status app = let s = app.status in record s { observed_generation = app.generation }

module _ (ops : ConditionOps) where
  -- setCondition. The condition is written with the zero transition time.
  unfoldable pub set_condition :
      ApplicationStatus → ℕ → String → ConditionStatus → String → Message → ApplicationStatus
  set_condition s generation kind status reason message = record s {
    conditions = ops.set s.conditions (record {
      kind = kind;
      status = status;
      observed_generation = generation;
      reason = reason;
      message = message;
      last_transition = 0;
    });
  }

  unfoldable pub set_security_policy_ready : ApplicationStatus → Application → ApplicationStatus
  set_security_policy_ready s app =
      if app.spec.security.require_signed_image
      then set_condition s app.generation condition_security_policy_ready is_true
          "SignatureVerificationRequested"
          (plain
            "Kyverno signature and SPDX attestation enforcement is requested for the current workload")
      else set_condition s app.generation condition_security_policy_ready is_true
          "SignatureVerificationNotRequested"
          (plain "The workload meets baseline policy; signature verification was not requested")

  unfoldable pub set_service_health :
      ApplicationStatus → Application → Bool → Bool → ApplicationStatus
  set_service_health s app available route_rejected =
      if available
      then set_condition s app.generation condition_service_health is_true "ServiceAvailable" (
          plain
            "The active workload is available and its HTTPRoute is accepted with resolved references")
      else if route_rejected
      then set_condition s app.generation condition_service_health is_false "RouteRejected"
          (plain "HTTPRoute was rejected or has unresolved references")
      else set_condition s app.generation condition_service_health is_false "ServiceUnavailable"
          (plain "Waiting for an available active workload and an accepted HTTPRoute")

  -- The condition DatabaseReady of degradedStatus.
  unfoldable pub set_database_unevaluated :
      ApplicationStatus → Application → String → ApplicationStatus
  set_database_unevaluated s app reason = elim app.spec.database_ref [
    | none ↦
        set_condition s app.generation condition_database_ready is_true "DatabaseNotRequested"
          (plain "No database binding was requested")
    | some name ↦
        set_condition s app.generation condition_database_ready unknown reason
          (plain "Database readiness was not evaluated")
  ]

  abbrev security_status : Application → String → ConditionStatus
  security_status app reason =
      if str_eq reason "SecurityPolicyRejected"
        || (str_eq reason "UnsupportedFeature"
            && (app.spec.security.require_signed_image || app.spec.security.network_isolation))
      then is_false
      else unknown

  unfoldable pub degraded_status : Application → String → Message → ApplicationStatus
  degraded_status app reason message =
      let g = app.generation in
      let base = base_status app in
      let s0 = record base { phase = degraded; candidate_version = [] } in
      let s1 = set_condition s0 g condition_configuration_ready is_false reason message in
      let s2 =
        set_condition s1 g condition_security_policy_ready (security_status app reason) reason
          message in
      let s3 =
        set_condition s2 g condition_rollout_healthy unknown reason
          (plain "No child resources were mutated") in
      let s4 = set_database_unevaluated s3 app reason in
      set_condition s4 g condition_ready is_false reason message

  unfoldable pub database_blocked_status : Application → Message → ApplicationStatus
  database_blocked_status app message =
      let g = app.generation in
      let base = base_status app in
      let s0 = record base {
        phase = if bytes_eq base.active_version [] then pending else degraded;
        candidate_version = [];
      } in
      let s1 =
        set_condition s0 g condition_configuration_ready is_false "DatabaseUnavailable"
          (plain "No generated children were mutated") in
      let s2 = set_condition s1 g condition_database_ready is_false "DatabaseUnavailable" message in
      let s3 =
        set_condition s2 g condition_rollout_healthy unknown "DatabaseUnavailable"
          (plain "Last healthy workload state is preserved") in
      set_condition s3 g condition_ready is_false "DatabaseUnavailable" message

-- setCandidateVersion.
unfoldable pub set_candidate_version : ApplicationStatus → Application → ApplicationStatus
set_candidate_version s app =
    if bytes_eq s.active_version [] || not (bytes_eq s.active_version app.spec.image.tag)
    then record s { candidate_version = app.spec.image.tag }
    else record s { candidate_version = [] }
