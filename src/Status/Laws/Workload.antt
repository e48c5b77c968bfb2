-- ===== src/Status/Laws/Workload.antt =====
-- The status of a rolling Application.
use steadystate.Prelude.{
  String, Bytes, Bool, true, false, ◌≡◌, refl, ◌↔◌, inl, inr, Bool-cases, ◌&&◌, Option, arith,
}
use steadystate.Api.Conditions.{ConditionStatus, is_false, Message, ConditionOps}
use steadystate.Api.Application.{Application, ApplicationStatus, Phase, healthy}
use steadystate.Provenance.{Resolution, DigestState}
use steadystate.Status.Observe.{DeploymentObject, Route, deployment_state, route_state}
use steadystate.Status.Set.{set_condition}
use steadystate.Status.Workload.{
  is_invalid, is_conflict, is_resolved, finish, workload_switch, workload_status,
}
use steadystate.Status.Laws.Consistent.{
  Carries, IsConsistent, base-Carries, set_condition-Carries, set_security-Carries,
  set_health-Carries, ready-IsConsistent, finish-kept, set_phase-Carries, is_healthy,
}

module _ (ops : ConditionOps) (app : Application) where
  switch-IsConsistent :
      (s : ApplicationStatus) (dr df rr rej : Bool) (digest : Resolution) (revision : Bytes)
      → Carries app s
      → IsConsistent ops app (workload_switch ops app s dr df rr rej digest revision)
  unfolding workload_switch set_condition
  switch-IsConsistent s dr df rr rej digest revision h = elim (Bool-cases df) [
    | inl e ↦ rw e (kept_at _ _ _ _ _ _ _ refl)
    | inr e ↦ rw e (elim (Bool-cases rej) [
      | inl e ↦ rw e (kept_at _ _ _ _ _ _ _ refl)
      | inr e ↦ rw e (elim (Bool-cases (dr && rr)) [
        | inl e ↦ rw e (elim (Bool-cases (is_invalid digest.state)) [
          | inl e ↦ rw e (kept_at _ _ _ _ _ _ _ refl)
          | inr e ↦ rw e (elim (Bool-cases (is_conflict digest.state)) [
            | inl e ↦ rw e (kept_at _ _ _ _ _ _ _ refl)
            | inr e ↦ rw e (elim (Bool-cases (is_resolved digest.state)) [
              | inl e ↦ rw e (ready-IsConsistent ops app _ _ _ h.observed refl refl refl)
              | inr e ↦ rw e (kept_at _ _ _ _ _ _ _ refl)
            ])
          ])
        ])
        | inr e ↦ rw e (kept_at _ _ _ _ _ _ _ refl)
      ])
    ])
  ]
    where
      kept_at :
          (p : Phase) (candidate : Bytes) (a : ConditionStatus) (r : String) (m : Message)
          (r' : String) (m' : Message)
          → is_healthy p ≡ false
          → IsConsistent ops app (
              finish ops app
                (record s { phase = p; candidate_version = candidate })
                a
                r
                m
                is_false
                r'
                m')
      kept_at p candidate a r m r' m' e =
          finish-kept ops app _ a r m r' m' (set_phase-Carries ops app p candidate h) e

  -- workloadStatus always publishes a consistent status.
  pub workload_status-IsConsistent :
      (deployment : Option DeploymentObject) (route : Route) (digest : Resolution)
      (revision : Bytes)
      → IsConsistent ops app (workload_status ops app deployment route digest revision).0
  unfolding workload_status
  workload_status-IsConsistent deployment route digest revision =
      switch-IsConsistent _ _ _ _ _ digest revision (
        set_health-Carries ops app _ _ (
          set_security-Carries ops app
            (set_condition-Carries ops app _ _ _ _ _ (base-Carries ops app))))

  -- The phase is Healthy exactly when the Deployment is ready and has not failed, the route is
  -- accepted and not rejected, and one digest is resolved; a Healthy status records that digest and
  -- the revision.
  pub workload_healthy_iff :
      (deployment : Option DeploymentObject) (route : Route) (digest : Resolution)
      (revision : Bytes)
      → let s = (workload_status ops app deployment route digest revision).0 in
        ((s.phase ≡ healthy) ↔ (
          (deployment_state deployment app.spec.runtime.replicas.min ≡ (true, false))
          × (route_state ops route ≡ (true, false))
          × (digest.state ≡ DigestState.resolved)))
        × (s.phase ≡ healthy
            → (s.resolved_image_digest ≡ digest.digest) × (s.resolved_git_revision ≡ revision))
  unfolding workload_status workload_switch set_condition
  workload_healthy_iff deployment route digest revision =
      ((λ h. ground arith, λ (d, r, e). ground arith), λ h. (ground arith, ground arith))
