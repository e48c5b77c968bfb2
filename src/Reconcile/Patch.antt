-- ===== src/Reconcile/Patch.antt =====
-- patchStatus.
use steadystate.Prelude.{
  ◌==◌, Bool, true, false, not, Option, none, some, map, if◌then◌else◌, ok, err,
}
use steadystate.Api.Conditions.{
  ConditionStatus, is_true, is_false, unknown, Condition, ConditionOps,
}
use steadystate.Api.Application.{Application, ApplicationStatus}
use steadystate.Reconcile.Cluster.{Attempt, Patched, Cluster, Library}

abbrev pub same_condition_status : ConditionStatus → ConditionStatus → Bool
same_condition_status is_true is_true = true
same_condition_status is_false is_false = true
same_condition_status unknown unknown = true
same_condition_status _ _ = false

abbrev pub keep_time : Option Condition → Condition → Condition
keep_time none c = c
keep_time (some existing) c =
    if same_condition_status existing.status c.status
    then record c { last_transition = existing.last_transition }
    else c

-- The loop that preserves the transition times of the latest status.
unfoldable pub preserve_times :
    ConditionOps → ApplicationStatus → ApplicationStatus → ApplicationStatus
preserve_times ops current desired = record desired {
  conditions = map (λ c. keep_time (ops.find current.conditions c.kind) c) desired.conditions;
}

abbrev quiet : Patched
quiet = record { written = none; error = none }

module _ (lib : Library) where
  -- The function that RetryOnConflict calls.
  unfoldable pub attempt_patch : ApplicationStatus → Attempt → Patched
  attempt_patch desired a = elim a.current [
    | err e ↦ record { written = none; error = some e }
    | ok current ↦
        if not (current.generation == desired.observed_generation)
        then quiet
        else (let updated = preserve_times lib.conditions current.status desired in
            if lib.same_status current.status updated then quiet else elim a.patch [
              | some e ↦ record { written = none; error = some e }
              | none ↦ record { written = some updated; error = none }
            ])
  ]

  -- The flag `changed` is `is_some written`.
  unfoldable pub patch_status : Cluster → Application → ApplicationStatus → Patched
  unfolding attempt_patch
  patch_status cluster app desired =
      if lib.same_status app.status desired
      then quiet
      else lib.retry (λ i. attempt_patch desired (cluster.attempts i))
