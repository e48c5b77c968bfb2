-- ===== src/Boundary/Status.antt =====
-- The statuses of a Team, and patchTeamStatus.
use steadystate.Prelude.{ℕ, ◌==◌, String, List, [], ◌∷◌, map, if◌then◌else◌, ltb}
use steadystate.Api.Conditions.{ConditionStatus, is_true, is_false, unknown, Message, ConditionOps}
use steadystate.Api.Team.{Team, TeamStatus}
use steadystate.Naming.{team_namespace_name}
use steadystate.Status.Set.{plain}
use steadystate.Reconcile.Patch.{keep_time}
use steadystate.Control.Publish.{Patched, publish_with}
use steadystate.Boundary.Server.{Server, Library}

-- teamReconcileStage, in the order of the code.
pub data Stage : Type 0 where
  namespace_stage resource_policy_stage rbac_stage network_policy_stage : Stage

abbrev pub rank : Stage → ℕ
rank namespace_stage = 0
rank resource_policy_stage = 1
rank rbac_stage = 2
rank network_policy_stage = 3

-- The condition of a stage, and the reason of its success.
abbrev pub stage_condition : Stage → String
stage_condition namespace_stage = "NamespaceReady"
stage_condition resource_policy_stage = "ResourcePolicyReady"
stage_condition rbac_stage = "RBACReady"
stage_condition network_policy_stage = "NetworkPolicyReady"

abbrev pub success_reason : Stage → String
success_reason namespace_stage = "NamespaceReconciled"
success_reason resource_policy_stage = "ResourcePolicyReconciled"
success_reason rbac_stage = "RBACReconciled"
success_reason network_policy_stage = "NetworkPolicyReconciled"

abbrev pub stages : List Stage
stages = namespace_stage ∷ resource_policy_stage ∷ rbac_stage ∷ network_policy_stage ∷ []

-- baseTeamStatus.
unfoldable pub base_team_status : Team → TeamStatus
base_team_status team =
    let s = team.status in
    record s { observed_generation = team.generation; namespace = team_namespace_name team.name }

module _ (ops : ConditionOps) where
  -- setTeamCondition.
  unfoldable pub set_team_condition :
      TeamStatus → ℕ → String → ConditionStatus → String → Message → TeamStatus
  set_team_condition s generation kind status reason message = record s {
    conditions = ops.set s.conditions (record {
      kind = kind;
      status = status;
      observed_generation = generation;
      reason = reason;
      message = message;
      last_transition = 0;
    });
  }

  -- readyTeamStatus.
  unfoldable pub ready_team_status : Team → TeamStatus
  ready_team_status team =
      let g = team.generation in
      let s1 =
        set_team_condition (base_team_status team) g "NamespaceReady" is_true "NamespaceReconciled"
          (plain "Managed Namespace exists and has verified ownership") in
      let s2 =
        set_team_condition s1 g "ResourcePolicyReady" is_true "ResourcePolicyReconciled"
          (plain "ResourceQuota and LimitRange match the Team specification") in
      let s3 =
        set_team_condition s2 g "RBACReady" is_true "RBACReconciled"
          (plain "ServiceAccount and RoleBinding match the installed Team owner ClusterRole") in
      let s4 =
        set_team_condition s3 g "NetworkPolicyReady" is_true "NetworkPolicyReconciled"
          (plain "Default deny, DNS, Envoy Gateway, and Prometheus policies are enforced") in
      set_team_condition s4 g "Ready" is_true "TeamReady"
        (plain "All Team boundary resources are reconciled")

  -- The loop that writes one condition for each stage.
  unfoldable pub set_each :
      TeamStatus → ℕ → (Stage → ConditionStatus × String × Message) → List Stage → TeamStatus
  set_each s generation f [] = s
  set_each s generation f (stage ∷ rest) =
      let (status, reason, message) = f stage in
      set_each (set_team_condition s generation (stage_condition stage) status reason message)
        generation f rest

  -- invalidTeamStatus.
  unfoldable pub invalid_team_status : Team → Message → TeamStatus
  unfolding set_each
  invalid_team_status team message =
      set_team_condition
        (set_each (base_team_status team) team.generation
          (λ stage. (is_false, "InvalidConfiguration", message)) stages)
        team.generation "Ready" is_false "InvalidConfiguration" message

  -- The `switch` of failedTeamStatus.
  unfoldable pub failed_stage :
      Stage → String → Message → Stage → ConditionStatus × String × Message
  failed_stage failed reason message stage =
      if ltb (rank stage) (rank failed)
      then (is_true, success_reason stage, plain "Boundary layer is reconciled")
      else if rank stage == rank failed
      then (is_false, reason, message)
      else (unknown, "Blocked", plain "Waiting for an earlier Team boundary layer")

  -- failedTeamStatus.
  unfoldable pub failed_team_status : Team → Stage → String → Message → TeamStatus
  unfolding set_each
  failed_team_status team failed reason message =
      set_team_condition
        (set_each (base_team_status team) team.generation (failed_stage failed reason message)
          stages)
        team.generation "Ready" is_false reason message

  -- terminatingTeamStatus.
  unfoldable pub terminating_team_status : Team → TeamStatus
  unfolding set_each
  terminating_team_status team =
      let message = plain "Managed Namespace deletion is in progress" in
      set_team_condition
        (set_each (base_team_status team) team.generation
          (λ stage. (is_false, "Terminating", message)) stages)
        team.generation "Ready" is_false "Terminating" message

-- The loop that preserves the transition times of the latest status.
unfoldable pub preserve_times : ConditionOps → TeamStatus → TeamStatus → TeamStatus
preserve_times ops current desired = record desired {
  conditions = map (λ c. keep_time (ops.find current.conditions c.kind) c) desired.conditions;
}

-- patchTeamStatus.
unfoldable pub patch_team_status : Library → Server → Team → TeamStatus → Patched TeamStatus
patch_team_status lib server team desired =
    publish_with lib.publish (preserve_times lib.conditions) (λ s. s.observed_generation)
      server.attempts team.status desired
