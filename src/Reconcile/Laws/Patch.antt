-- ===== src/Reconcile/Laws/Patch.antt =====
-- What patchStatus writes, and which failures Reconcile returns.
use steadystate.Prelude.{
  ℕ, Bytes, false, ◌≡◌, inl, inr, Option, none, some, List, arith, Bool-cases, ok, Result-cases,
}
use steadystate.Api.Conditions.{Message}
use steadystate.Api.Application.{Application, ApplicationStatus}
use steadystate.Provenance.{Pod}
use steadystate.Status.Canary.{RuntimeState}
use steadystate.Reconcile.Cluster.{Attempt, Cluster, Library}
use steadystate.Reconcile.Patch.{preserve_times, attempt_patch, patch_status}
use steadystate.Reconcile.Laws.Times.{KeepsTimes, preserve_times-KeepsTimes}
use steadystate.Reconcile.Rejection.{security_admission_failure}
use steadystate.Reconcile.Handler.{observe_pods, fail_degraded, run_children, dispatch, converge}
use steadystate.Reconcile.Laws.Admission.{IsAdmitted, gate_iff}

module _ (lib : Library) where
  -- The status `s` is the desired one with the transition times of the status just read, which is of
  -- the generation that it was computed for.
  abbrev pub Writes : ApplicationStatus → Attempt → ApplicationStatus → Type 0
  Writes desired a s =
      (current : Application) × (a.current ≡ ok current)
      × (current.generation ≡ desired.observed_generation)
      × KeepsTimes lib.conditions current.status desired s

  attempt-Writes :
      (desired s : ApplicationStatus) (a : Attempt)
      → (attempt_patch lib desired a).written ≡ some s
      → Writes desired a s
  unfolding attempt_patch
  attempt-Writes desired s a h = elim (Result-cases a.current) [
    | inr (e, f) ↦ absurd (ground arith)
    | inl (current, f) ↦
        let same : s ≡ preserve_times lib.conditions current.status desired = ground arith in
        (
          current,
          f,
          ground arith,
          rw same (preserve_times-KeepsTimes lib.conditions current.status desired),
        )
  ]

  -- What patchStatus writes is the desired status, in which a condition keeps the transition time of
  -- the one of its type, if that has the same status, in the status that one of its attempts has read, from an Application whose generation is still the one that the status
  -- was computed for; and it writes only where the desired status differs from the last known one.
  pub patch_written :
      (cluster : Cluster) (app : Application) (desired s : ApplicationStatus)
      → (patch_status lib cluster app desired).written ≡ some s
      → (lib.same_status app.status desired ≡ false)
        × ((i : ℕ) × Writes desired (cluster.attempts i) s)
  unfolding patch_status
  patch_written cluster app desired s h = elim (Bool-cases (lib.same_status app.status desired)) [
    | inl e ↦ absurd (ground arith)
    | inr e ↦
        let (i, one) = lib.retry-attempt (λ i. attempt_patch lib desired (cluster.attempts i)) in
        let same : patch_status lib cluster app desired
            ≡ lib.retry (λ i. attempt_patch lib desired (cluster.attempts i)) =
          ground arith in
        (e, (i, attempt-Writes desired s (cluster.attempts i) (rw (same, one) at h)))
  ]

  -- What must have gone well for an admitted Application.
  abbrev pub Succeeds : Cluster → Application → Type 0
  Succeeds cluster app =
      ((state : RuntimeState) × (cluster.children app ≡ ok state))
      × ((rejection : Option Message) × (security_admission_failure cluster ≡ ok rejection)
          × (rejection ≡ none → (pods : List Pod) × (cluster.pods ≡ ok pods)))

  pods_reports :
      (cluster : Cluster) (app : Application) (state : RuntimeState) (r : Bytes)
      → (observe_pods lib cluster app state r).error ≡ none
      → (pods : List Pod) × (cluster.pods ≡ ok pods)
  unfolding observe_pods fail_degraded
  pods_reports cluster app state r h = elim (Result-cases cluster.pods) [
    | inl (pods, f) ↦ (pods, f)
    | inr (e, f) ↦ absurd (ground arith)
  ]

  children_reports :
      (cluster : Cluster) (app : Application) (r : Bytes)
      → (run_children lib cluster app r).error ≡ none
      → Succeeds cluster app
  unfolding run_children fail_degraded
  children_reports cluster app r h = elim (Result-cases (cluster.children app)) [
    | inr (e, f) ↦ absurd (ground arith)
    | inl (state, f) ↦ elim (Result-cases (security_admission_failure cluster)) [
      | inr (e, g) ↦ absurd (ground arith)
      | inl (some m, g) ↦ ((state, f), (some m, g, λ p. absurd cc))
      | inl (none, g) ↦
          let same : run_children lib cluster app r ≡ observe_pods lib cluster app state r =
            ground arith in
          ((state, f), (none, g, λ _. pods_reports cluster app state r (rw same at h)))
    ]
  ]

  -- Reconcile returns no error for an admitted Application only if its children were reconciled, its
  -- ReplicaSets were listed, and, unless one of these reports a rejected workload, its Pods were.
  pub converge_reports :
      (cluster : Cluster) (app : Application) (r : Bytes)
      → IsAdmitted lib cluster app r
      → (converge lib cluster app).error ≡ none
      → Succeeds cluster app
  unfolding converge dispatch
  converge_reports cluster app r a h =
      let same : converge lib cluster app ≡ run_children lib cluster app r =
        ground (arith, (gate_iff lib cluster app r).1 a) in
      children_reports cluster app r (rw same at h)
