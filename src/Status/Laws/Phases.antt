-- ===== src/Status/Laws/Phases.antt =====
-- When the phase of a canary Application is Healthy, or RollingBack.
use steadystate.Prelude.Int.{ℤ}
use steadystate.Prelude.{
  Bytes, Bool, true, false, ◌≡◌, ◌≢◌, ◌↔◌, ◌⊎◌, inl, inr, Option-cases, some, arith, if◌then◌else◌,
}
use steadystate.Naming.{Sha256, stable_service_name, canary_service_name}
use steadystate.Api.Conditions.{ConditionOps}
use steadystate.Api.Application.{Application, ApplicationStatus, healthy, degraded, rolling_back}
use steadystate.Provenance.{Resolution, DigestState}
use steadystate.Status.Observe.{Rollout, route_state, rollout_healthy, route_is_stable_only}
use steadystate.Status.Set.{set_condition}
use steadystate.Status.Canary.{
  RuntimeState, is_degraded, analysis_inconclusive, promotion_switch, aborted_status,
  rollout_status, canary_switch, canary_workload_status,
}

healthy_not_degraded :
    (r : Rollout) (desired : ℤ)
    → rollout_healthy (some r) desired ≡ true
    → is_degraded r.phase ≡ false
unfolding rollout_healthy
healthy_not_degraded r desired h = ground arith

-- The analysis does not wait for a decision of the owner.
abbrev pub Decided : Application → Rollout → Type 0
Decided app rollout =
    (analysis_inconclusive rollout.analysis ≡ false)
    ⊎ ((app.spec.deployment.automatic_rollback ≡ true) ⊎ (rollout.abort ≡ true))

module _ (ops : ConditionOps) (sha : Sha256) (app : Application) (s : ApplicationStatus) where
  promotion_healthy_iff :
      (ready rr : Bool) (digest : Resolution) (revision : Bytes)
      → ((promotion_switch ops sha app s ready rr digest revision).phase ≡ healthy)
        ↔ ((ready ≡ true) × (rr ≡ true) × (digest.state ≡ DigestState.resolved))
  unfolding promotion_switch set_condition
  promotion_healthy_iff ready rr digest revision = (λ h. ground arith, λ (r, q, d). ground arith)

  promotion_not_rolling_back :
      (ready rr : Bool) (digest : Resolution) (revision : Bytes)
      → (promotion_switch ops sha app s ready rr digest revision).phase ≢ rolling_back
  unfolding promotion_switch set_condition
  promotion_not_rolling_back ready rr digest revision h = ground arith

  aborted_phase :
      (state : RuntimeState) (rollout : Rollout)
      → (aborted_status ops sha app s state rollout).phase ≡ (
          if route_is_stable_only state.route
            (stable_service_name sha app.name)
            (canary_service_name sha app.name)
          then degraded
          else rolling_back)
  unfolding aborted_status set_condition
  aborted_phase state rollout = ground arith

  rollout_healthy_iff :
      (state : RuntimeState) (rr : Bool) (rollout : Rollout) (digest : Resolution)
      (revision : Bytes)
      → ((rollout_status ops sha app s state rr rollout digest revision).phase ≡ healthy) ↔ (
          Decided app rollout
          × (rollout.abort ≡ false)
          × (rollout_healthy (some rollout) app.spec.runtime.replicas.min ≡ true)
          × (rr ≡ true)
          × (digest.state ≡ DigestState.resolved))
  unfolding rollout_status set_condition
  rollout_healthy_iff state rr rollout digest revision = (
    λ h. ground (
      arith,
      aborted_phase state rollout,
      (promotion_healthy_iff (rollout_healthy (some rollout) app.spec.runtime.replicas.min) rr
          digest revision).0,
    ),
    λ (w, a, r, q, d). ground (
      arith,
      healthy_not_degraded rollout app.spec.runtime.replicas.min,
      (promotion_healthy_iff (rollout_healthy (some rollout) app.spec.runtime.replicas.min) rr
          digest revision).1,
    ),
  )

  switch_healthy_iff :
      (state : RuntimeState) (rr rej : Bool) (digest : Resolution) (revision : Bytes)
      → ((canary_switch ops sha app s state rr rej digest revision).phase ≡ healthy) ↔ (
          (rej ≡ false)
          × (state.migrating ≡ false)
          × ((rollout : Rollout) × (state.rollout ≡ some rollout)
              × ((rollout_status ops sha app s state rr rollout digest revision).phase ≡ healthy)))
  unfolding canary_switch set_condition
  switch_healthy_iff state rr rej digest revision = (
    λ h. elim (Option-cases state.rollout) [
      | inl e ↦ absurd (ground arith)
      | inr (rollout, e) ↦ (ground arith, ground arith, (rollout, e, ground arith))
    ],
    λ (r, m, (rollout, e, p)). ground arith,
  )

  rollout_rolling_back_iff :
      (state : RuntimeState) (rr : Bool) (rollout : Rollout) (digest : Resolution)
      (revision : Bytes)
      → ((rollout_status ops sha app s state rr rollout digest revision).phase ≡ rolling_back) ↔ (
          Decided app rollout
          × ((rollout.abort ≡ true) ⊎ (is_degraded rollout.phase ≡ true))
          × (route_is_stable_only state.route
                (stable_service_name sha app.name)
                (canary_service_name sha app.name)
              ≡ false))
  unfolding rollout_status set_condition
  rollout_rolling_back_iff state rr rollout digest revision = (
    λ h. ground (
      arith,
      aborted_phase state rollout,
      promotion_not_rolling_back (rollout_healthy (some rollout) app.spec.runtime.replicas.min) rr
          digest revision,
    ),
    λ (w, a, r). ground (arith, aborted_phase state rollout),
  )

  switch_rolling_back_iff :
      (state : RuntimeState) (rr rej : Bool) (digest : Resolution) (revision : Bytes)
      → ((canary_switch ops sha app s state rr rej digest revision).phase ≡ rolling_back) ↔ (
          (rej ≡ false)
          × (state.migrating ≡ false)
          × ((rollout : Rollout) × (state.rollout ≡ some rollout)
              × ((rollout_status ops sha app s state rr rollout digest revision).phase
                  ≡ rolling_back)))
  unfolding canary_switch set_condition
  switch_rolling_back_iff state rr rej digest revision = (
    λ h. elim (Option-cases state.rollout) [
      | inl e ↦ absurd (ground arith)
      | inr (rollout, e) ↦ (ground arith, ground arith, (rollout, e, ground arith))
    ],
    λ (r, m, (rollout, e, p)). ground arith,
  )

module _ (ops : ConditionOps) (sha : Sha256) (app : Application) where
  -- A canary Application is Healthy exactly when its route is accepted and not rejected, no
  -- migration is under way, and it has a Rollout that is healthy and not aborted, whose analysis
  -- does not wait for a decision of the owner, at one resolved digest.
  pub canary_healthy_iff :
      (state : RuntimeState) (digest : Resolution) (revision : Bytes)
      → ((canary_workload_status ops sha app state digest revision).0.phase ≡ healthy) ↔ (
          (route_state ops state.route ≡ (true, false))
          × (state.migrating ≡ false)
          × ((rollout : Rollout) × (state.rollout ≡ some rollout)
              × (rollout_healthy (some rollout) app.spec.runtime.replicas.min ≡ true)
              × (rollout.abort ≡ false)
              × ((analysis_inconclusive rollout.analysis ≡ false)
                  ⊎ (app.spec.deployment.automatic_rollback ≡ true)))
          × (digest.state ≡ DigestState.resolved))
  unfolding canary_workload_status
  canary_healthy_iff state digest revision = (
    λ h.
        let (rej, m, (rollout, e, p)) =
          (switch_healthy_iff ops sha app _ state _ _ digest revision).0 h in
        let (w, abort, ok, rr, d) =
          (rollout_healthy_iff ops sha app _ state _ rollout digest revision).0 p in
        (ground arith, m, (rollout, e, ok, abort, ground arith), d),
    λ (r, m, (rollout, e, ok, abort, w), d).
        (switch_healthy_iff ops sha app _ state _ _ digest revision).1 (
          ground arith,
          m,
          (
            rollout,
            e,
            (rollout_healthy_iff ops sha app _ state _ rollout digest revision).1
                (ground arith, abort, ok, ground arith, d),
          ),
        ),
  )

  -- A canary Application is RollingBack exactly when its route is not rejected, no migration is
  -- under way, and it has a Rollout that is aborted or degraded, whose analysis does not wait for a
  -- decision of the owner, while the route does not yet send all traffic to the stable Service.
  pub canary_rolling_back_iff :
      (state : RuntimeState) (digest : Resolution) (revision : Bytes)
      → ((canary_workload_status ops sha app state digest revision).0.phase ≡ rolling_back) ↔ (
          ((route_state ops state.route).1 ≡ false)
          × (state.migrating ≡ false)
          × ((rollout : Rollout) × (state.rollout ≡ some rollout)
              × Decided app rollout
              × ((rollout.abort ≡ true) ⊎ (is_degraded rollout.phase ≡ true))
              × (route_is_stable_only state.route
                    (stable_service_name sha app.name)
                    (canary_service_name sha app.name)
                  ≡ false)))
  unfolding canary_workload_status
  canary_rolling_back_iff state digest revision = (
    λ h.
        let (rej, m, (rollout, e, p)) =
          (switch_rolling_back_iff ops sha app _ state _ _ digest revision).0 h in
        let (w, a, r) =
          (rollout_rolling_back_iff ops sha app _ state _ rollout digest revision).0 p in
        (rej, m, (rollout, e, w, a, r)),
    λ (rej, m, (rollout, e, w, a, r)).
        (switch_rolling_back_iff ops sha app _ state _ _ digest revision).1 (
          rej,
          m,
          (
            rollout,
            e,
            (rollout_rolling_back_iff ops sha app _ state _ rollout digest revision).1 (w, a, r),
          ),
        ),
  )
