-- ===== src/Boundary/Laws/Statuses.antt =====
-- The conditions of the statuses of a Team.
use steadystate.Prelude.{
  ℕ, String, Bool, true, false, ◌≡◌, refl, ap, ◌∙◌, inl, inr, Bool-cases, Option, some, str_eq, ltb,
  ◌==◌, if◌then◌else◌,
}
use steadystate.Api.Conditions.{
  ConditionStatus, is_true, is_false, unknown, Condition, Message, ConditionOps,
}
use steadystate.Api.Team.{Team, TeamStatus}
use steadystate.Naming.{team_namespace_name}
use steadystate.Status.Laws.Consistent.{view_of}
use steadystate.Boundary.Status.{
  Stage, namespace_stage, resource_policy_stage, rbac_stage, network_policy_stage, stage_condition,
  stages, rank, base_team_status, set_team_condition, set_each, failed_stage, invalid_team_status,
  failed_team_status,
}

-- The status and the generation of a condition.
unfoldable pub condition_of : ConditionOps → TeamStatus → String → Option (ConditionStatus × ℕ)
condition_of ops s kind = view_of (ops.find s.conditions kind)

abbrev pub seen : ConditionStatus → ℕ → Option (ConditionStatus × ℕ)
seen status g = some (status, g)

view-if :
    (b : Bool) (c : Condition) (o : Option Condition)
    → view_of (if b then some c else o)
      ≡ (if b then some (c.status, c.observed_generation) else view_of o)
view-if true c o = refl
view-if false c o = refl

module _ (ops : ConditionOps) where
  condition-set :
      (s : TeamStatus) (g : ℕ) (kind : String) (status : ConditionStatus) (reason : String)
      (m : Message) (t : String)
      → condition_of ops (set_team_condition ops s g kind status reason m) t
        ≡ (if str_eq t kind then some (status, g) else condition_of ops s t)
  unfolding set_team_condition condition_of
  condition-set s g kind status reason m t =
      ap view_of (ops.find-set s.conditions _ t) ∙ view-if (str_eq t kind) _ _

  -- The condition that is written last, and one that is left alone.
  hit :
      (s : TeamStatus) (g : ℕ) (kind : String) (status : ConditionStatus) (reason : String)
      (m : Message)
      → str_eq kind kind ≡ true
      → condition_of ops (set_team_condition ops s g kind status reason m) kind ≡ some (status, g)
  hit s g kind status reason m e = condition-set s g kind status reason m kind ∙ rw e refl

  skip :
      (s : TeamStatus) (g : ℕ) (kind : String) (status : ConditionStatus) (reason : String)
      (m : Message) (t : String)
      → str_eq t kind ≡ false
      → condition_of ops (set_team_condition ops s g kind status reason m) t ≡ condition_of ops s t
  skip s g kind status reason m t e = condition-set s g kind status reason m t ∙ rw e refl

  each-stage :
      (s : TeamStatus) (g : ℕ) (f : Stage → ConditionStatus × String × Message) (stage : Stage)
      → condition_of ops (set_each ops s g f stages) (stage_condition stage) ≡ some ((f stage).0, g)
  unfolding set_each
  each-stage s g f namespace_stage =
      skip _ _ _ _ _ _ _ refl
      ∙ skip _ _ _ _ _ _ _ refl
      ∙ skip _ _ _ _ _ _ _ refl
      ∙ hit _ _ _ _ _ _ refl
  each-stage s g f resource_policy_stage =
      skip _ _ _ _ _ _ _ refl ∙ skip _ _ _ _ _ _ _ refl ∙ hit _ _ _ _ _ _ refl
  each-stage s g f rbac_stage = skip _ _ _ _ _ _ _ refl ∙ hit _ _ _ _ _ _ refl
  each-stage s g f network_policy_stage = hit _ _ _ _ _ _ refl

  not_ready : (stage : Stage) → str_eq (stage_condition stage) "Ready" ≡ false
  not_ready namespace_stage = refl
  not_ready resource_policy_stage = refl
  not_ready rbac_stage = refl
  not_ready network_policy_stage = refl

  -- The four stages and Ready of a status that is written stage by stage.
  each_and_ready :
      (s : TeamStatus) (g : ℕ) (f : Stage → ConditionStatus × String × Message)
      (status : ConditionStatus) (reason : String) (m : Message) (stage : Stage)
      → condition_of ops
          (set_team_condition ops (set_each ops s g f stages) g "Ready" status reason m)
          (stage_condition stage)
        ≡ some ((f stage).0, g)
  each_and_ready s g f status reason m stage =
      skip _ _ _ _ _ _ _ (not_ready stage) ∙ each-stage s g f stage

  pub ready-invalid :
      (team : Team) (m : Message)
      → condition_of ops (invalid_team_status ops team m) "Ready" ≡ seen is_false team.generation
  unfolding invalid_team_status
  ready-invalid team m = hit _ _ _ _ _ _ refl

  pub ready-failed :
      (team : Team) (failed : Stage) (reason : String) (m : Message)
      → condition_of ops (failed_team_status ops team failed reason m) "Ready"
        ≡ some (is_false, team.generation)
  unfolding failed_team_status
  ready-failed team failed reason m = hit _ _ _ _ _ _ refl

chosen :
    (ops : ConditionOps) (failed : Stage) (reason : String) (m : Message) (stage : Stage)
    → (failed_stage ops failed reason m stage).0 ≡ (
        if ltb (rank stage) (rank failed)
        then is_true
        else if rank stage == rank failed
        then is_false
        else unknown)
unfolding failed_stage
chosen ops failed reason m stage = elim (Bool-cases (ltb (rank stage) (rank failed))) [
  | inl e ↦ rw e refl
  | inr e ↦ elim (Bool-cases (rank stage == rank failed)) [
    | inl f ↦ rw (e, f) refl
    | inr f ↦ rw (e, f) refl
  ]
]

-- In the status of a failed stage, the conditions of the stages in front of it are True, its own is False
-- and those behind it are Unknown; Ready is False; all are of the Team's generation, which the status
-- has observed, and the status names the Team's Namespace.
pub failed_status_conditions :
    (ops : ConditionOps) (team : Team) (failed : Stage) (reason : String) (m : Message)
    (stage : Stage)
    → let s = failed_team_status ops team failed reason m in
      (condition_of ops s (stage_condition stage)
        ≡ seen
            (if ltb (rank stage) (rank failed)
              then is_true
              else if rank stage == rank failed
              then is_false
              else unknown)
            team.generation)
      × (condition_of ops s "Ready" ≡ seen is_false team.generation)
      × (s.observed_generation ≡ team.generation)
      × (s.namespace ≡ team_namespace_name team.name)
unfolding failed_team_status base_team_status set_team_condition set_each
failed_status_conditions ops team failed reason m stage = (
  each_and_ready ops (base_team_status team) team.generation (failed_stage ops failed reason m)
        is_false reason m stage
      ∙ ap (λ x. seen x team.generation) (chosen ops failed reason m stage),
  hit ops _ _ _ _ _ _ refl,
  refl,
  refl,
)
