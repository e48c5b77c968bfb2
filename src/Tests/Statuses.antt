-- ===== src/Tests/Statuses.antt =====
-- Published statuses at concrete inputs.
use steadystate.Prelude.{
  String, bytes, bytes_eq, format_int, false, ◌≡◌, refl, inl, inr, none, some, [], ◌∷◌,
}
use steadystate.Prelude.Int.{pos}
use steadystate.Api.Conditions.{is_true, Condition}
use steadystate.Api.Application.{Phase}
use steadystate.Provenance.{Resolution, DigestState}
use steadystate.Status.Observe.{
  is_gateway, parent_rejected, parent_accepted, route_is_stable_only, route_uses_canary_services,
  DeploymentObject, Route, Rollout, RolloutPhase, deployment_state, route_state, rollout_healthy,
}
use steadystate.Status.Set.{plain}
use steadystate.Status.Workload.{workload_status}
use steadystate.Status.Canary.{RuntimeState, canary_workload_status}
use steadystate.Status.Laws.Workload.{workload_healthy_iff}
use steadystate.Status.Laws.Phases.{canary_healthy_iff, canary_rolling_back_iff}
use steadystate.Tests.Data.{condition_ops, sums, canary_application, rolling_application}

abbrev resolution : Resolution
resolution = record { state = DigestState.resolved; digest = bytes "sha256:ab"; message = plain "" }

abbrev pub available : DeploymentObject
available = record {
  generation = 3;
  observed_generation = 3;
  available_replicas = pos 2;
  updated_replicas = pos 2;
  conditions = record { kind = "Available"; status = is_true; reason = "" } ∷ [];
}

abbrev observed : String → Condition
observed kind = record {
  kind = kind;
  status = is_true;
  observed_generation = 1;
  reason = "";
  message = plain "";
  last_transition = 0;
}

abbrev pub accepted : Route
accepted = record {
  generation = 1;
  labels = [];
  annotations = [];
  rules = [];
  parents =
      record {
        name = bytes "steadystate";
        namespace = some (bytes "steadystate-system");
        conditions = observed "Accepted" ∷ observed "ResolvedRefs" ∷ [];
      }
      ∷ [];
}

abbrev pub rollout_in : RolloutPhase → Rollout
rollout_in phase = record {
  generation = 4;
  observed_generation = bytes "4";
  phase = phase;
  stable_rs = bytes "rs1";
  available_replicas = pos 2;
  abort = false;
  message = [];
  analysis = none;
  canary = none;
}

abbrev pub runtime_in : RolloutPhase → RuntimeState
runtime_in phase = record {
  deployment = none;
  route = accepted;
  rollout = some (rollout_in phase);
  mutated = false;
  migrating = false;
  migration_detail = "";
  analysis_failure = [];
  requeue_after = pos 0;
}

workload_healthy_iff_example :
    (workload_status condition_ops rolling_application
      (some available)
      accepted
      resolution
      []).0.phase
    ≡ Phase.healthy
unfolding bytes bytes_eq route_state is_gateway parent_rejected parent_accepted deployment_state
workload_healthy_iff_example =
    (workload_healthy_iff condition_ops rolling_application (some available) accepted resolution
        []).0.1
      (refl, refl, refl)

canary_healthy_iff_example :
    (canary_workload_status condition_ops sums canary_application
      (runtime_in RolloutPhase.healthy)
      resolution
      []).0.phase
    ≡ Phase.healthy
unfolding bytes bytes_eq route_state is_gateway parent_rejected parent_accepted rollout_healthy
    format_int
canary_healthy_iff_example =
    (canary_healthy_iff condition_ops sums canary_application (runtime_in RolloutPhase.healthy)
        resolution []).1
      (refl, refl, (rollout_in RolloutPhase.healthy, refl, refl, refl, inl refl), refl)

canary_rolling_back_iff_example :
    (canary_workload_status condition_ops sums canary_application
      (runtime_in RolloutPhase.degraded)
      resolution
      []).0.phase
    ≡ Phase.rolling_back
unfolding bytes bytes_eq route_state is_gateway parent_rejected parent_accepted route_is_stable_only
    route_uses_canary_services
canary_rolling_back_iff_example =
    (canary_rolling_back_iff condition_ops sums canary_application
        (runtime_in RolloutPhase.degraded) resolution []).1
      (refl, refl, (rollout_in RolloutPhase.degraded, refl, inl refl, inr refl, refl))
