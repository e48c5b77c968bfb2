-- ===== src/Status/Laws/Consistent.antt =====
-- A status that an Application's controller may publish, and that the early returns publish one.
use steadystate.Prelude.{
  ℕ, String, Bytes, Bool, true, false, ◌≡◌, ◌≢◌, ◌∙◌, ap, Option, none, some, [], arith,
  if◌then◌else◌,
}
use steadystate.Api.Conditions.{
  ConditionStatus, is_true, is_false, Message, Condition, ConditionOps,
}
use steadystate.Api.Application.{Application, ApplicationStatus, Phase, healthy}
use steadystate.Status.Set.{
  condition_ready, base_status, set_condition, set_security_policy_ready, set_service_health,
  set_database_unevaluated, degraded_status, database_blocked_status, set_candidate_version,
}
use steadystate.Status.Workload.{finish}

abbrev pub is_healthy : Phase → Bool
is_healthy healthy = true
is_healthy _ = false

abbrev pub view_of : Option Condition → Option (ConditionStatus × ℕ)
view_of none = none
view_of (some c) = some (c.status, c.observed_generation)

-- The status and the generation of the condition Ready.
abbrev pub ready_of : ConditionOps → ApplicationStatus → Option (ConditionStatus × ℕ)
ready_of ops s = view_of (ops.find s.conditions condition_ready)

-- The fields of provenance are those of the last status, and the generation is the current one.
pub record Carries (app : Application) (s : ApplicationStatus) : Type 0 where
  pub observed : s.observed_generation ≡ app.generation
  pub active : s.active_version ≡ app.status.active_version
  pub digest : s.resolved_image_digest ≡ app.status.resolved_image_digest
  pub revision : s.resolved_git_revision ≡ app.status.resolved_git_revision

-- The status is of the current generation; Ready is True if the phase is Healthy and False if not,
-- at that generation; a Healthy status has promoted the requested tag; any other has kept the active
-- version, digest and revision of the last status.
pub record IsConsistent (ops : ConditionOps) (app : Application) (s : ApplicationStatus)
    : Type 0 where
  pub observed : s.observed_generation ≡ app.generation
  pub ready :
      ready_of ops s ≡ some ((if is_healthy s.phase then is_true else is_false), app.generation)
  pub promoted :
      s.phase ≡ healthy → (s.active_version ≡ app.spec.image.tag) × (s.candidate_version ≡ [])
  pub kept :
      s.phase ≢ healthy
      → (s.active_version ≡ app.status.active_version)
        × (s.resolved_image_digest ≡ app.status.resolved_image_digest)
        × (s.resolved_git_revision ≡ app.status.resolved_git_revision)

module _ (ops : ConditionOps) (app : Application) where
  ready_written :
      (s : ApplicationStatus) (g : ℕ) (status : ConditionStatus) (reason : String) (m : Message)
      → ready_of ops (set_condition ops s g condition_ready status reason m) ≡ some (status, g)
  unfolding set_condition
  ready_written s g status reason m = ap view_of (
      ops.find-set s.conditions
        (record {
          kind = condition_ready;
          status = status;
          observed_generation = g;
          reason = reason;
          message = m;
          last_transition = 0;
        })
        condition_ready)

  pub base-Carries : Carries app (base_status app)
  base-Carries = ground arith

  pub set_condition-Carries :
      {s : ApplicationStatus} (g : ℕ) (kind : String) (status : ConditionStatus) (reason : String)
      (m : Message)
      → Carries app s
      → Carries app (set_condition ops s g kind status reason m)
  unfolding set_condition
  set_condition-Carries g kind status reason m h = ground arith

  pub set_security-Carries :
      {s : ApplicationStatus} → Carries app s → Carries app (set_security_policy_ready ops s app)
  unfolding set_security_policy_ready set_condition
  set_security-Carries h = ground arith

  pub set_health-Carries :
      {s : ApplicationStatus} (available rejected : Bool)
      → Carries app s
      → Carries app (set_service_health ops s app available rejected)
  unfolding set_service_health set_condition
  set_health-Carries available rejected h = ground arith

  pub set_candidate-Carries :
      {s : ApplicationStatus} → Carries app s → Carries app (set_candidate_version s app)
  unfolding set_candidate_version
  set_candidate-Carries h = ground arith

  pub set_phase-Carries :
      {s : ApplicationStatus} (p : Phase) (candidate : Bytes)
      → Carries app s
      → Carries app (record s { phase = p; candidate_version = candidate })
  set_phase-Carries p candidate h = ground arith

  -- A write of Ready=False ends a status that is not Healthy.
  pub not_ready-IsConsistent :
      (s : ApplicationStatus) (reason : String) (m : Message)
      → Carries app s
      → is_healthy s.phase ≡ false
      → IsConsistent ops app (set_condition ops s app.generation condition_ready is_false reason m)
  unfolding set_condition
  not_ready-IsConsistent s reason m h p = record {
    observed = h.observed;
    ready = ready_written s app.generation is_false reason m ∙ rw p;
    promoted = λ e. absurd (ground arith);
    kept = λ _. (h.active, h.digest, h.revision);
  }

  -- A promotion: Ready=True on a Healthy status of the requested tag.
  pub ready-IsConsistent :
      (s : ApplicationStatus) (reason : String) (m : Message)
      → s.observed_generation ≡ app.generation
      → s.phase ≡ healthy
      → s.active_version ≡ app.spec.image.tag
      → s.candidate_version ≡ []
      → IsConsistent ops app (set_condition ops s app.generation condition_ready is_true reason m)
  unfolding set_condition
  ready-IsConsistent s reason m observed p active candidate = record {
    observed = observed;
    ready = ready_written s app.generation is_true reason m ∙ rw p;
    promoted = λ _. (active, candidate);
    kept = λ n. absurd (n p);
  }

  -- degradedStatus publishes a consistent status, for any reason and message.
  pub degraded_status-IsConsistent :
      (reason : String) (m : Message) → IsConsistent ops app (degraded_status ops app reason m)
  unfolding degraded_status set_condition set_database_unevaluated
  degraded_status-IsConsistent reason m =
      not_ready-IsConsistent _ reason m (ground arith) (ground arith)

  -- databaseBlockedStatus publishes a consistent status, for any message.
  pub database_blocked_status-IsConsistent :
      (m : Message) → IsConsistent ops app (database_blocked_status ops app m)
  unfolding database_blocked_status set_condition
  database_blocked_status-IsConsistent m =
      not_ready-IsConsistent _ "DatabaseUnavailable" m (ground arith) (ground arith)

  -- The last two writes of a case that is not Healthy.
  pub finish-kept :
      (s : ApplicationStatus) (rollout : ConditionStatus) (r : String) (m : Message) (r' : String)
      (m' : Message)
      → Carries app s
      → is_healthy s.phase ≡ false
      → IsConsistent ops app (finish ops app s rollout r m is_false r' m')
  unfolding set_condition
  finish-kept s rollout r m r' m' h p =
      not_ready-IsConsistent _ r' m' (set_condition-Carries _ _ rollout r m h) p
