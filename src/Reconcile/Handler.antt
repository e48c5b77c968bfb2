-- ===== src/Reconcile/Handler.antt =====
-- Reconcile: the calls that it makes, in their order, and what it returns.
use steadystate.Prelude.{
  String, Bytes, bytes, Bool, true, false, ◌&&◌, ◌||◌, Option, none, some, List, [], ◌∷◌, ◌++◌,
  is_some, if◌then◌else◌, ok, err,
}
use steadystate.Prelude.Int.{ℤ, pos}
use steadystate.Api.Conditions.{is_true, Message}
use steadystate.Api.Application.{Application, ApplicationStatus, is_canary}
use steadystate.Provenance.{Resolution, resolve_pod_image_digest}
use steadystate.Status.Set.{
  plain, verbatim, condition_database_ready, set_condition, degraded_status,
}
use steadystate.Status.Workload.{workload_status}
use steadystate.Status.Canary.{RuntimeState, canary_workload_status, strategy_migration_status}
use steadystate.Reconcile.Cluster.{ApiError, missing, failed, found, Cluster, Library}
use steadystate.Reconcile.Patch.{patch_status}
use steadystate.Reconcile.Rejection.{
  is_security_admission_rejection, sanitized_admission_message, security_admission_failure,
}
use steadystate.Reconcile.Gate.{Verdict, refused, broken, admitted, gate}

-- A call that changes state. `publish` is the call of patchStatus with that status.
pub data Effect : Type 0 where
  release_finalizer add_finalizer reconcile_children : Effect
  publish : ApplicationStatus → Effect
  warn : String → Message → Effect  -- an event of type Warning
  announce : String → Message → Effect  -- an event of type Normal

pub record Outcome : Type 0 where
  pub effects : List Effect
  pub error : Option Message
  pub requeue_after : ℤ

abbrev pub ending : List Effect → Option Message → Outcome
ending effects error = record { effects = effects; error = error; requeue_after = pos 0 }

abbrev error_of : Option ApiError → Option Message
error_of none = none
error_of (some e) = some (verbatim e)

abbrev pub when : Bool → Effect → List Effect
when true e = e ∷ []
when false e = []

-- databaseReadyMessage.
abbrev database_ready_message : Application → Message
database_ready_message app = elim app.spec.database_ref [
  | none ↦ plain "No database binding was requested"
  | some name ↦ record {
    format = "Database %s/%s is current-generation Ready";
    args = app.namespace ∷ name ∷ [];
  }
]

module _ (lib : Library) (cluster : Cluster) (app : Application) where
  -- A status with its event, where it changed.
  unfoldable pub refuse : List Effect → String → ApplicationStatus → Message → Outcome
  refuse before reason status m =
      let p = patch_status lib cluster app status in
      ending (before ++ publish status ∷ when (is_some p.written) (warn reason m))
        (error_of p.error)

  -- A failure: the event is sent even where the status did not change.
  unfoldable pub fail_degraded : String → Message → ApiError → String → Outcome
  fail_degraded reason m e context =
      let status = degraded_status lib.conditions app reason m in
      let p = patch_status lib cluster app status in
      ending (reconcile_children ∷ publish status ∷ warn reason m ∷ []) (elim p.error [
        | none ↦ some (verbatim e)
        | some s ↦ some (record { format = context; args = e ∷ s ∷ [] })
      ])

  -- The `switch` that chooses the status.
  unfoldable pub desired_status : RuntimeState → Resolution → Bytes → ApplicationStatus × Bool
  desired_status state digest revision =
      if is_canary app.spec.deployment.strategy
      then canary_workload_status lib.conditions lib.sha app state digest revision
      else if state.migrating
      then (strategy_migration_status lib.conditions lib.sha app state, false)
      else workload_status lib.conditions app state.deployment state.route digest revision

  unfoldable pub final_status : ApplicationStatus → ApplicationStatus
  final_status s =
      set_condition lib.conditions s app.generation condition_database_ready is_true "DatabaseReady"
        (database_ready_message app)

  abbrev pub final_event : Bool → Bool → Bool → List Effect
  final_event route_rejected changed mutated =
      if route_rejected && changed
      then warn "RouteRejected" (plain "HTTPRoute was rejected by the shared Gateway") ∷ []
      else when (mutated || changed)
          (announce "Reconciled" (plain "Application resources and status were reconciled"))

  -- The end of a successful pass.
  unfoldable pub conclude : RuntimeState → ApplicationStatus → Bool → Outcome
  conclude state status route_rejected =
      let p = patch_status lib cluster app status in
      elim p.error [
        | some e ↦ ending (reconcile_children ∷ publish status ∷ []) (some (verbatim e))
        | none ↦ record {
          effects =
              reconcile_children
              ∷ publish status
              ∷ final_event route_rejected (is_some p.written) state.mutated;
          error = none;
          requeue_after = state.requeue_after;
        }
      ]

  -- resolveImageDigest, and what follows it.
  unfoldable pub observe_pods : RuntimeState → Bytes → Outcome
  observe_pods state revision = elim cluster.pods [
    | err e ↦
        (let listing = bytes "list Application Pods: " ++ e in
          fail_degraded "ReconciliationFailed"
            (record { format = "failed to resolve runtime image digest: %v"; args = listing ∷ [] })
            listing "resolve image digest: %w; patch status: %v")
    | ok pods ↦
        (let image = app.spec.image.repository ++ bytes ":" ++ app.spec.image.tag in
          let digest = resolve_pod_image_digest pods image in
          let (status, route_rejected) = desired_status state digest revision in
          conclude state (final_status status) route_rejected)
  ]

  -- An admitted Application.
  unfoldable pub run_children : Bytes → Outcome
  run_children revision = elim (cluster.children app) [
    | err e ↦
        (let security = is_security_admission_rejection e in
          fail_degraded (if security then "SecurityPolicyRejected" else "ReconciliationFailed")
            (if security
              then sanitized_admission_message e
              else record { format = "failed to reconcile owned resources: %v"; args = e ∷ [] })
            e "reconcile children: %w; patch status: %v")
    | ok state ↦ elim (security_admission_failure cluster) [
      | err e ↦
          ending (reconcile_children ∷ [])
            (some (record { format = "inspect workload admission state: %w"; args = e ∷ [] }))
      | ok (some m) ↦
          refuse (reconcile_children ∷ []) "SecurityPolicyRejected"
            (degraded_status lib.conditions app "SecurityPolicyRejected" m) m
      | ok none ↦ observe_pods state revision
    ]
  ]

  unfoldable pub dispatch : Verdict → Outcome
  dispatch (refused reason status m) = refuse [] reason status m
  dispatch (broken e) = ending [] (some e)
  dispatch (admitted revision) = run_children revision

  -- Reconcile of an Application that has the finalizer and is not being deleted.
  unfoldable pub converge : Outcome
  unfolding dispatch
  converge = dispatch (gate lib cluster app)

  -- The branch of deletion.
  unfoldable pub finalize : Outcome
  finalize =
      if app.finalizer
      then elim cluster.release_finalizer [
        | some e ↦ ending (release_finalizer ∷ []) (some (verbatim e))
        | none ↦
            ending
              (release_finalizer
                ∷ announce "FinalizerReleased" (
                    plain "Application has no external cleanup and is ready for garbage collection")
                ∷ [])
              none
      ]
      else ending [] none

abbrev pub behind : Effect → Outcome → Outcome
behind e o = record o { effects = e ∷ o.effects }

-- Reconcile behind the first Get.
unfoldable pub reconcile_application : Library → Cluster → Application → Outcome
reconcile_application lib cluster app =
    if app.deleting
    then finalize lib cluster app
    else if app.finalizer
    then converge lib cluster app
    else elim cluster.add_finalizer [
      | err e ↦ ending (add_finalizer ∷ []) (some (verbatim e))
      | ok patched ↦ behind add_finalizer (converge lib cluster patched)
    ]

-- Reconcile.
unfoldable pub reconcile : Library → Cluster → Outcome
reconcile lib cluster = elim cluster.application [
  | missing ↦ ending [] none
  | failed e ↦ ending [] (some (verbatim e))
  | found app ↦ reconcile_application lib cluster app
]
