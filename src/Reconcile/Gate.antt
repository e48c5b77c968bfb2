-- ===== src/Reconcile/Gate.antt =====
-- The part of Reconcile in front of the children: the checks that an Application must pass.
use steadystate.Prelude.{
  ℕ, ◌==◌, String, Bytes, bytes, join, Bool, false, not, ◌&&◌, Option, none, some, List, [], ◌∷◌,
  ltb, length, if◌then◌else◌, Result, ok, err,
}
use steadystate.Api.Conditions.{Message, Condition, status_is_true}
use steadystate.Api.Application.{Application, ApplicationStatus, is_canary}
use steadystate.Application.Validation.{validate}
use steadystate.Application.Messages.{invalid_message}
use steadystate.Provenance.{resolved_source_revision}
use steadystate.Status.Set.{plain, degraded_status, database_blocked_status}
use steadystate.Reconcile.Cluster.{ApiError, Database, missing, failed, found, Cluster, Library}
use steadystate.Reconcile.Tenancy.{application_tenancy}

-- UnsupportedFeatures.
unfoldable pub unsupported_features : Application → List Bytes
unsupported_features app = []

-- The condition Ready is there, of the current generation, and True.
abbrev current_ready : ℕ → Option Condition → Bool
current_ready generation none = false
current_ready generation (some c) = c.observed_generation == generation && status_is_true c.status

-- How the checks end. A refusal publishes the status and, where that changed it, an event with the
-- reason and the message.
pub data Verdict : Type 0 where
  refused : String → ApplicationStatus → Message → Verdict
  broken : Message → Verdict
  admitted : Bytes → Verdict  -- the source revision

module _ (lib : Library) (cluster : Cluster) (app : Application) where
  unfoldable pub database_current : Database → Bool
  database_current d =
      d.observed_generation == d.generation
      && current_ready d.generation (lib.conditions.find d.conditions "Ready")

  -- applicationDatabaseReady: `none` is ready; `some` holds the message of one that is not.
  unfoldable pub application_database_ready : Result ApiError (Option Message)
  application_database_ready = elim app.spec.database_ref [
    | none ↦ ok none
    | some name ↦ elim (cluster.database name) [
      | missing ↦
          ok (
            some
              (record { format = "Database %s/%s is missing"; args = app.namespace ∷ name ∷ [] }))
      | failed e ↦ err e
      | found d ↦
          if database_current d
          then ok none
          else ok (
              some (record {
                format = "Database %s/%s is not current-generation Ready";
                args = app.namespace ∷ name ∷ [];
              }))
    ]
  ]

  abbrev degraded_refusal : String → Message → Verdict
  degraded_refusal reason m = refused reason (degraded_status lib.conditions app reason m) m

  unfoldable pub database_gate : Bytes → Verdict
  database_gate revision = elim application_database_ready [
    | err e ↦ broken (record { format = "verify Application database: %w"; args = e ∷ [] })
    | ok (some m) ↦ refused "DatabaseUnavailable" (database_blocked_status lib.conditions app m) m
    | ok none ↦ admitted revision
  ]

  unfoldable pub feature_gate : Bytes → Verdict
  feature_gate revision =
      if ltb 0 (length (unsupported_features app))
      then degraded_refusal "UnsupportedFeature" (record {
        format = "unsupported capabilities requested: %s";
        args = join (bytes ", ") (unsupported_features app) ∷ [];
      })
      else if is_canary app.spec.deployment.strategy && not cluster.progressive_delivery
      then degraded_refusal "ProgressiveDeliveryUnavailable"
          (plain "progressive delivery requires the Argo Rollouts and Prometheus Operator CRDs")
      else database_gate revision

  unfoldable pub tenancy_gate : Bytes → Verdict
  tenancy_gate revision = elim (application_tenancy lib cluster app) [
    | err e ↦ broken (record { format = "verify Application tenancy: %w"; args = e ∷ [] })
    | ok (some f) ↦ degraded_refusal f.reason f.message
    | ok none ↦ feature_gate revision
  ]

  unfoldable pub gate : Verdict
  gate = elim (validate lib.floats lib.quantities app) [
    | some e ↦ degraded_refusal "InvalidConfiguration" (invalid_message e)
    | none ↦ elim (resolved_source_revision app.annotations) [
      | err e ↦ degraded_refusal "InvalidSourceRevision" (record {
        format = "annotation %s must be a full lowercase 40- or 64-character Git object ID";
        args = bytes "steadystate.dev/source-revision" ∷ [];
      })
      | ok revision ↦ tenancy_gate revision
    ]
  ]
