-- ===== src/Reconcile/Laws/Published.antt =====
-- What Reconcile publishes.
use steadystate.Prelude.{
  String, Bytes, Bool, true, false, ap, ◌∙◌, inl, inr, none, some, List, [], ◌∷◌, All, not, ◌&&◌,
  Bool-cases, Option-cases, Result-cases,
}
use steadystate.Api.Conditions.{Message}
use steadystate.Api.Application.{Application, ApplicationStatus, is_canary}
use steadystate.Provenance.{Resolution}
use steadystate.Status.Set.{set_condition, condition_ready}
use steadystate.Status.Canary.{RuntimeState}
use steadystate.Status.Laws.Consistent.{
  IsConsistent, view_of, degraded_status-IsConsistent, database_blocked_status-IsConsistent,
}
use steadystate.Status.Laws.Workload.{workload_status-IsConsistent}
use steadystate.Status.Laws.Canary.{canary_status-IsConsistent, migration_status-IsConsistent}
use steadystate.Reconcile.Cluster.{Cluster, Library}
use steadystate.Application.Validation.{validate}
use steadystate.Provenance.{resolved_source_revision}
use steadystate.Reconcile.Tenancy.{application_tenancy}
use steadystate.Reconcile.Rejection.{security_admission_failure}
use steadystate.Reconcile.Patch.{patch_status}
use steadystate.Reconcile.Gate.{
  Verdict, refused, broken, admitted, gate, application_database_ready, tenancy_gate, feature_gate,
  database_gate, unsupported_features,
}
use steadystate.Reconcile.Handler.{
  when, final_event, Effect, publish, warn, refuse, fail_degraded, desired_status, final_status,
  conclude, observe_pods, run_children, dispatch, converge,
}

-- A status is published for the Application only if it is consistent.
abbrev pub Publishes : Library → Application → Effect → Type 0
Publishes lib app (publish s) = IsConsistent lib.conditions app s
Publishes lib app _ = Unit

-- The verdict refuses with a consistent status only.
abbrev Refuses : Library → Application → Verdict → Type 0
Refuses lib app (refused reason s m) = IsConsistent lib.conditions app s
Refuses lib app _ = Unit

All-when :
    (lib : Library) (app : Application) (changed : Bool) (reason : String) (m : Message)
    → All (Publishes lib app) (when changed (warn reason m))
All-when lib app true reason m = (tt, tt)
All-when lib app false reason m = tt

module _ (lib : Library) (cluster : Cluster) (app : Application) where
  -- The condition DatabaseReady is none of those that consistency reads.
  final-IsConsistent :
      {s : ApplicationStatus}
      → IsConsistent lib.conditions app s
      → IsConsistent lib.conditions app (final_status lib cluster app s)
  unfolding final_status set_condition
  final-IsConsistent {s} h = record {
    observed = h.observed;
    ready = ap view_of (lib.conditions.find-set s.conditions _ condition_ready) ∙ h.ready;
    promoted = h.promoted;
    kept = h.kept;
  }

  desired-IsConsistent :
      (state : RuntimeState) (digest : Resolution) (revision : Bytes)
      → IsConsistent lib.conditions app (desired_status lib cluster app state digest revision).0
  unfolding desired_status
  desired-IsConsistent state digest revision =
      elim (Bool-cases (is_canary app.spec.deployment.strategy)) [
        | inl e ↦ rw e (canary_status-IsConsistent lib.conditions lib.sha app state digest revision)
        | inr e ↦ rw e (elim (Bool-cases state.migrating) [
          | inl e ↦ rw e (migration_status-IsConsistent lib.conditions lib.sha app _)
          | inr e ↦ rw e (
              workload_status-IsConsistent lib.conditions app state.deployment state.route digest
                revision)
        ])
      ]

  Refuses-database : (r : Bytes) → Refuses lib app (database_gate lib cluster app r)
  unfolding database_gate
  Refuses-database r = elim (Result-cases (application_database_ready lib cluster app)) [
    | inr (e, f) ↦ rw (f, Refuses) tt
    | inl (none, f) ↦ rw (f, Refuses) tt
    | inl (some m, f) ↦ rw (f, Refuses) (database_blocked_status-IsConsistent lib.conditions app m)
  ]

  Refuses-feature : (r : Bytes) → Refuses lib app (feature_gate lib cluster app r)
  unfolding feature_gate unsupported_features
  Refuses-feature r =
      elim (Bool-cases
        (is_canary app.spec.deployment.strategy && not cluster.progressive_delivery)) [
          | inl e ↦ rw (e, Refuses) (degraded_status-IsConsistent lib.conditions app _ _)
          | inr e ↦ rw (e, Refuses) (Refuses-database r)
        ]

  Refuses-tenancy : (r : Bytes) → Refuses lib app (tenancy_gate lib cluster app r)
  unfolding tenancy_gate
  Refuses-tenancy r = elim (Result-cases (application_tenancy lib cluster app)) [
    | inr (e, f) ↦ rw (f, Refuses) tt
    | inl (none, f) ↦ rw (f, Refuses) (Refuses-feature r)
    | inl (some m, f) ↦ rw (f, Refuses) (degraded_status-IsConsistent lib.conditions app _ _)
  ]

  Refuses-gate : Refuses lib app (gate lib cluster app)
  unfolding gate
  Refuses-gate = elim (Option-cases (validate lib.floats lib.quantities app)) [
    | inr (x, e) ↦ rw (e, Refuses) (degraded_status-IsConsistent lib.conditions app _ _)
    | inl e ↦
        rw (e, Refuses)
          (elim (Result-cases (resolved_source_revision app.annotations)) [
            | inl (r, f) ↦ rw (f, Refuses) (Refuses-tenancy r)
            | inr (x, f) ↦ rw (f, Refuses) (degraded_status-IsConsistent lib.conditions app _ _)
          ])
  ]

  refuse-Publishes :
      (before : List Effect) (reason : String) (s : ApplicationStatus) (m : Message)
      → All (Publishes lib app) before
      → IsConsistent lib.conditions app s
      → All (Publishes lib app) (refuse lib cluster app before reason s m).effects
  unfolding refuse
  refuse-Publishes [] reason s m h c = (c, All-when lib app _ reason m)
  refuse-Publishes (e ∷ es) reason s m (h, hs) c = (h, refuse-Publishes es reason s m hs c)

  fail-Publishes :
      (reason : String) (m : Message) (e : Bytes) (context : String)
      → All (Publishes lib app) (fail_degraded lib cluster app reason m e context).effects
  unfolding fail_degraded
  fail-Publishes reason m e context =
      (tt, (degraded_status-IsConsistent lib.conditions app reason m, (tt, tt)))

  All-final :
      (rejected changed mutated : Bool)
      → All (Publishes lib app) (final_event lib cluster app rejected changed mutated)
  All-final true true mutated = (tt, tt)
  All-final true false true = (tt, tt)
  All-final true false false = tt
  All-final false true true = (tt, tt)
  All-final false true false = (tt, tt)
  All-final false false true = (tt, tt)
  All-final false false false = tt

  conclude-Publishes :
      (state : RuntimeState) (s : ApplicationStatus) (rejected : Bool)
      → IsConsistent lib.conditions app s
      → All (Publishes lib app) (conclude lib cluster app state s rejected).effects
  unfolding conclude
  conclude-Publishes state s rejected c =
      elim (Option-cases (patch_status lib cluster app s).error) [
        | inr (e, f) ↦ rw (f, All, conclude) (tt, (c, tt))
        | inl f ↦ rw (f, All, conclude) (tt, (c, All-final rejected _ state.mutated))
      ]

  pods-Publishes :
      (state : RuntimeState) (revision : Bytes)
      → All (Publishes lib app) (observe_pods lib cluster app state revision).effects
  unfolding observe_pods
  pods-Publishes state revision = elim (Result-cases cluster.pods) [
    | inr (e, f) ↦ rw (f, All) (fail-Publishes _ _ _ _)
    | inl (pods, f) ↦
        rw (f, All)
          (conclude-Publishes state _ _
            (final-IsConsistent (desired-IsConsistent state _ revision)))
  ]

  children-Publishes :
      (revision : Bytes) → All (Publishes lib app) (run_children lib cluster app revision).effects
  unfolding run_children
  children-Publishes revision = elim (Result-cases (cluster.children app)) [
    | inr (e, f) ↦ rw (f, All) (fail-Publishes _ _ _ _)
    | inl (state, f) ↦
        rw (f, All)
          (elim (Result-cases (security_admission_failure cluster)) [
            | inr (e, g) ↦ rw (g, All) (tt, tt)
            | inl (some m, g) ↦
                rw (g, All)
                  (refuse-Publishes _ _ _ m (tt, tt)
                    (degraded_status-IsConsistent lib.conditions app _ m))
            | inl (none, g) ↦ rw (g, All) (pods-Publishes state revision)
          ])
  ]

  dispatch-Publishes :
      (v : Verdict)
      → Refuses lib app v
      → All (Publishes lib app) (dispatch lib cluster app v).effects
  unfolding dispatch
  dispatch-Publishes (refused reason s m) c = refuse-Publishes [] reason s m tt c
  dispatch-Publishes (broken m) c = tt
  dispatch-Publishes (admitted r) c = children-Publishes r

  -- Every status that Reconcile publishes for an Application that has the finalizer and is not being
  -- deleted is consistent: it is of the current
  -- generation, its condition Ready agrees with its phase, a Healthy one has promoted the requested
  -- tag, and any other keeps the version, digest and revision of the last status.
  pub converge-Publishes : All (Publishes lib app) (converge lib cluster app).effects
  unfolding converge
  converge-Publishes = dispatch-Publishes _ Refuses-gate
