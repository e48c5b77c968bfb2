-- ===== src/Status/Laws/Canary.antt =====
-- The status of a canary Application, and of one that moves from canary to rolling.
use steadystate.Prelude.{
  String, Bytes, Bool, false, not, ◌&&◌, ◌||◌, ◌≡◌, refl, ap, inl, inr, Bool-cases, Option-cases,
  arith,
}
use steadystate.Naming.{Sha256, stable_service_name, canary_service_name}
use steadystate.Api.Conditions.{ConditionStatus, is_false, Message, ConditionOps}
use steadystate.Api.Application.{Application, ApplicationStatus, Phase, progressing}
use steadystate.Provenance.{Resolution}
use steadystate.Status.Observe.{Rollout, route_is_stable_only}
use steadystate.Status.Set.{
  set_condition, set_service_health, set_candidate_version, set_security_policy_ready,
}
use steadystate.Status.Workload.{is_invalid, is_conflict, is_resolved, finish}
use steadystate.Status.Canary.{
  RuntimeState, is_degraded, analysis_inconclusive, promotion_switch, aborted_status,
  rollout_status, canary_switch, canary_workload_status, strategy_migration_status,
}
use steadystate.Status.Laws.Consistent.{
  Carries, IsConsistent, base-Carries, set_condition-Carries, set_security-Carries,
  set_health-Carries, set_candidate-Carries, set_phase-Carries, ready-IsConsistent, finish-kept,
  is_healthy,
}

module _ (ops : ConditionOps) (sha : Sha256) (app : Application) where
  module _ {s : ApplicationStatus} (h : Carries app s) where
    kept_at :
        (p : Phase) (a : ConditionStatus) (r : String) (m : Message) (r' : String) (m' : Message)
        → is_healthy p ≡ false
        → IsConsistent ops app (finish ops app (record s { phase = p }) a r m is_false r' m')
    kept_at p a r m r' m' e =
        finish-kept ops app _ a r m r' m' (set_phase-Carries ops app p s.candidate_version h) e

    promotion-IsConsistent :
        (ready rr : Bool) (digest : Resolution) (revision : Bytes)
        → IsConsistent ops app (promotion_switch ops sha app s ready rr digest revision)
    unfolding promotion_switch set_condition
    promotion-IsConsistent ready rr digest revision = elim (Bool-cases (ready && rr)) [
      | inl e ↦ rw e (elim (Bool-cases (is_invalid digest.state)) [
        | inl e ↦ rw e (kept_at _ _ _ _ _ _ refl)
        | inr e ↦ rw e (elim (Bool-cases (is_conflict digest.state)) [
          | inl e ↦ rw e (kept_at _ _ _ _ _ _ refl)
          | inr e ↦ rw e (elim (Bool-cases (is_resolved digest.state)) [
            | inl e ↦ rw e (ready-IsConsistent ops app _ _ _ h.observed refl refl refl)
            | inr e ↦ rw e (kept_at _ _ _ _ _ _ refl)
          ])
        ])
      ])
      | inr e ↦ rw e (kept_at _ _ _ _ _ _ refl)
    ]

    aborted-IsConsistent :
        (state : RuntimeState) (rollout : Rollout)
        → IsConsistent ops app (aborted_status ops sha app s state rollout)
    unfolding aborted_status
    aborted-IsConsistent state rollout =
        elim (Bool-cases (
          route_is_stable_only state.route (stable_service_name sha app.name)
            (canary_service_name sha app.name))) [
              | inl e ↦ rw e (kept_at _ _ _ _ _ _ refl)
              | inr e ↦ rw e (kept_at _ _ _ _ _ _ refl)
            ]

    rollout-IsConsistent :
        (state : RuntimeState) (rr : Bool) (rollout : Rollout) (digest : Resolution)
        (revision : Bytes)
        → IsConsistent ops app (rollout_status ops sha app s state rr rollout digest revision)
    unfolding rollout_status
    rollout-IsConsistent state rr rollout digest revision =
        elim (Bool-cases (
          analysis_inconclusive rollout.analysis
          && not app.spec.deployment.automatic_rollback
          && not rollout.abort)) [
            | inl e ↦ rw e (kept_at _ _ _ _ _ _ refl)
            | inr e ↦ rw e (elim (Bool-cases (rollout.abort || is_degraded rollout.phase)) [
              | inl f ↦ rw f (aborted-IsConsistent state rollout)
              | inr f ↦ rw f (promotion-IsConsistent _ rr digest revision)
            ])
          ]

    canary_switch-IsConsistent :
        (state : RuntimeState) (rr rej : Bool) (digest : Resolution) (revision : Bytes)
        → IsConsistent ops app (canary_switch ops sha app s state rr rej digest revision)
    unfolding canary_switch
    canary_switch-IsConsistent state rr rej digest revision = elim (Bool-cases rej) [
      | inl e ↦ rw e (kept_at _ _ _ _ _ _ refl)
      | inr e ↦ rw e (elim (Bool-cases state.migrating) [
        | inl e ↦ rw e (kept_at _ _ _ _ _ _ refl)
        | inr e ↦ rw e (elim (Option-cases state.rollout) [
          | inl e ↦ rw e (kept_at _ _ _ _ _ _ refl)
          | inr (rollout, e) ↦ rw e (rollout-IsConsistent state rr rollout digest revision)
        ])
      ])
    ]

  -- canaryWorkloadStatus always publishes a consistent status.
  pub canary_status-IsConsistent :
      (state : RuntimeState) (digest : Resolution) (revision : Bytes)
      → IsConsistent ops app (canary_workload_status ops sha app state digest revision).0
  unfolding canary_workload_status
  canary_status-IsConsistent state digest revision =
      canary_switch-IsConsistent
        (set_health-Carries ops app _ _ (
          set_candidate-Carries ops app (
            set_security-Carries ops app
              (set_condition-Carries ops app _ _ _ _ _ (base-Carries ops app)))))
        state _ _ digest revision

  migration_progressing :
      (state : RuntimeState) → (strategy_migration_status ops sha app state).phase ≡ progressing
  unfolding strategy_migration_status set_condition set_security_policy_ready set_service_health
      set_candidate_version
  migration_progressing state = ground arith

  -- strategyMigrationStatus publishes a consistent status.
  pub migration_status-IsConsistent :
      (state : RuntimeState) → IsConsistent ops app (strategy_migration_status ops sha app state)
  unfolding strategy_migration_status set_condition
  migration_status-IsConsistent state =
      finish-kept ops app _ _ _ _ _ _
        (set_health-Carries ops app _ _ (
          set_security-Carries ops app (
            set_condition-Carries ops app _ _ _ _ _ (
              set_candidate-Carries ops app (
                set_phase-Carries ops app progressing app.status.candidate_version
                  (base-Carries ops app))))))
        (ap is_healthy (migration_progressing state))
