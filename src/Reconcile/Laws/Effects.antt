-- ===== src/Reconcile/Laws/Effects.antt =====
-- When Reconcile touches the generated children.
use steadystate.Prelude.{
  String, Bytes, Bool, true, false, ◌≡◌, refl, ◌↔◌, ◌⊎◌, inl, inr, none, some, [], arith, Any,
  Bool-cases, Option-cases, ok, Result-cases,
}
use steadystate.Api.Conditions.{Message}
use steadystate.Api.Application.{Application, ApplicationStatus}
use steadystate.Status.Canary.{RuntimeState}
use steadystate.Reconcile.Cluster.{Cluster, Library, found}
use steadystate.Reconcile.Patch.{patch_status}
use steadystate.Reconcile.Rejection.{security_admission_failure}
use steadystate.Reconcile.Gate.{Verdict, refused, broken, admitted, gate}
use steadystate.Reconcile.Handler.{
  behind, when, warn, reconcile_children, add_finalizer, Outcome, refuse, fail_degraded, conclude,
  observe_pods, run_children, dispatch, converge, finalize, reconcile_application, reconcile,
}
use steadystate.Reconcile.Laws.Tenancy.{Answer-cases}
use steadystate.Reconcile.Laws.Admission.{IsAdmitted, gate_iff}

-- The children are reconciled.
abbrev pub Touches : Outcome → Type 0
Touches o = Any (λ e. e ≡ reconcile_children) o.effects

when_untouched :
    (b : Bool) (reason : String) (m : Message)
    → Any (λ e. e ≡ reconcile_children) (when b (warn reason m))
    → ⊥
when_untouched true reason m (inl p) = cc
when_untouched true reason m (inr h) = h
when_untouched false reason m h = h

-- The Application that Reconcile goes on with: it is not being deleted, and has the finalizer or
-- is what the server answered when it was added.
abbrev pub Converges : Cluster → Application → Type 0
Converges cluster app =
    (first : Application) × (cluster.application ≡ found first)
    × (first.deleting ≡ false)
    × (((first.finalizer ≡ true) × (first ≡ app))
        ⊎ ((first.finalizer ≡ false) × (cluster.add_finalizer ≡ ok app)))

module _ (lib : Library) (cluster : Cluster) (app : Application) where
  refuse_untouched :
      (reason : String) (s : ApplicationStatus) (m : Message)
      → Touches (refuse lib cluster app [] reason s m)
      → ⊥
  unfolding refuse
  refuse_untouched reason s m (inl p) = cc
  refuse_untouched reason s m (inr h) = when_untouched _ reason m h

  conclude_touched :
      (state : RuntimeState) (s : ApplicationStatus) (rejected : Bool)
      → Touches (conclude lib cluster app state s rejected)
  unfolding conclude
  conclude_touched state s rejected = elim (Option-cases (patch_status lib cluster app s).error) [
    | inr (e, f) ↦ rw (f, Any, conclude) (inl refl)
    | inl f ↦ rw (f, Any, conclude) (inl refl)
  ]

  pods_touched : (state : RuntimeState) (r : Bytes) → Touches (observe_pods lib cluster app state r)
  unfolding observe_pods fail_degraded
  pods_touched state r = elim (Result-cases cluster.pods) [
    | inr (e, f) ↦ rw (f, Any) (inl refl)
    | inl (pods, f) ↦ rw (f, Any) (conclude_touched state _ _)
  ]

  children_touched : (r : Bytes) → Touches (run_children lib cluster app r)
  unfolding run_children fail_degraded refuse
  children_touched r = elim (Result-cases (cluster.children app)) [
    | inr (e, f) ↦ rw (f, Any) (inl refl)
    | inl (state, f) ↦
        rw (f, Any)
          (elim (Result-cases (security_admission_failure cluster)) [
            | inr (e, g) ↦ rw (g, Any) (inl refl)
            | inl (some m, g) ↦ rw (g, Any) (inl refl)
            | inl (none, g) ↦ rw (g, Any) (pods_touched state r)
          ])
  ]

  dispatch_touched_iff :
      (v : Verdict) → Touches (dispatch lib cluster app v) ↔ ((r : Bytes) × (v ≡ admitted r))
  unfolding dispatch
  dispatch_touched_iff (refused reason s m) =
      ((λ h. absurd (refuse_untouched reason s m h)), λ (r, e). absurd (ground arith))
  dispatch_touched_iff (broken m) = ((λ h. absurd h), λ (r, e). absurd (ground arith))
  dispatch_touched_iff (admitted r) = ((λ h. (r, refl)), λ _. children_touched r)

  converge_touched_iff :
      Touches (converge lib cluster app) ↔ ((r : Bytes) × IsAdmitted lib cluster app r)
  unfolding converge
  converge_touched_iff =
      let (to, from) = dispatch_touched_iff (gate lib cluster app) in
      (
        (λ h. let (r, e) = to h in (r, (gate_iff lib cluster app r).0 e)),
        λ (r, a). from (r, (gate_iff lib cluster app r).1 a),
      )

module _ (lib : Library) (cluster : Cluster) where
  finalize_untouched : (app : Application) → Touches (finalize lib cluster app) → ⊥
  unfolding finalize
  finalize_untouched app h = elim (Bool-cases app.finalizer) [
    | inr e ↦ ground arith
    | inl e ↦ elim (Option-cases cluster.release_finalizer) [
      | inl f ↦ ground arith
      | inr (x, f) ↦ ground arith
    ]
  ]

  -- The two ways to go on with an Application that is not being deleted.
  abbrev Continues : Application → Application → Type 0
  Continues first app =
      ((first.finalizer ≡ true) × (first ≡ app))
      ⊎ ((first.finalizer ≡ false) × (cluster.add_finalizer ≡ ok app))

  application_touched :
      (first : Application)
      → Touches (reconcile_application lib cluster first)
      → (first.deleting ≡ false)
        × ((app : Application) × Continues first app × Touches (converge lib cluster app))
  unfolding reconcile_application
  application_touched first h = elim (Bool-cases first.deleting) [
    | inl e ↦
        let same : reconcile_application lib cluster first ≡ finalize lib cluster first =
          ground arith in
        absurd (finalize_untouched first (rw same at h))
    | inr e ↦ elim (Bool-cases first.finalizer) [
      | inl f ↦
          let same : reconcile_application lib cluster first ≡ converge lib cluster first =
            ground arith in
          (e, (first, inl (f, refl), rw same at h))
      | inr f ↦ elim (Result-cases cluster.add_finalizer) [
        | inr (x, g) ↦ absurd (ground arith)
        | inl (app, g) ↦
            let same : reconcile_application lib cluster first
                ≡ behind add_finalizer (converge lib cluster app) =
              ground arith in
            (e, (app, inr (f, g), elim (rw same at h) [ inl p ↦ absurd cc | inr t ↦ t ]))
      ]
    ]
  ]

  continue_touched :
      (first app : Application)
      → first.deleting ≡ false
      → Continues first app
      → Touches (converge lib cluster app)
      → Touches (reconcile_application lib cluster first)
  unfolding reconcile_application
  continue_touched first app e (inl (f, same)) t =
      let whole : reconcile_application lib cluster first ≡ converge lib cluster first =
        ground arith in
      rw (whole, same) t
  continue_touched first app e (inr (f, g)) t =
      let whole : reconcile_application lib cluster first
          ≡ behind add_finalizer (converge lib cluster app) =
        ground arith in
      rw whole (inr t)

  touched_sound :
      Touches (reconcile lib cluster)
      → (app : Application) × Converges cluster app × ((r : Bytes) × IsAdmitted lib cluster app r)
  unfolding reconcile
  touched_sound h = elim (Answer-cases cluster.application) [
    | inl e ↦ absurd (ground arith)
    | inr (inl (x, e)) ↦ absurd (ground arith)
    | inr (inr (first, e)) ↦
        let same : reconcile lib cluster ≡ reconcile_application lib cluster first = ground arith in
        let (alive, (app, on, t)) = application_touched first (rw same at h) in
        (app, (first, e, alive, on), (converge_touched_iff lib cluster app).0 t)
  ]

  touched_complete :
      (app : Application)
      → Converges cluster app
      → ((r : Bytes) × IsAdmitted lib cluster app r)
      → Touches (reconcile lib cluster)
  unfolding reconcile
  touched_complete app (first, e, alive, on) a =
      let same : reconcile lib cluster ≡ reconcile_application lib cluster first = ground arith in
      rw same (continue_touched first app alive on ((converge_touched_iff lib cluster app).1 a))

  -- Reconcile touches the generated children exactly when the Application is there, is not being
  -- deleted, has the finalizer or was given it, and, as it then is, is valid, names a revision that
  -- resolves, lies in the Namespace of its valid Team that allows its repository, finds progressive
  -- delivery where it asks for a canary, and has its Database ready.
  pub children_iff :
      Touches (reconcile lib cluster)
      ↔ ((app : Application) × Converges cluster app × ((r : Bytes) × IsAdmitted lib cluster app r))
  children_iff = (touched_sound, λ (app, c, a). touched_complete app c a)
