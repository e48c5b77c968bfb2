-- ===== src/Progressive/Server.antt =====
-- What the API server answers to the reconciliation of the children, and the calls that change it.
-- Each call is made at most once in a pass, so a record of arbitrary answers covers any server. An
-- object that CreateOrUpdate (controller-runtime) writes is desired by its arguments.
use steadystate.Prelude.{ℕ, Bytes, Bool, Option, List, Result}
use steadystate.Api.Application.{Application}
use steadystate.Status.Observe.{AnalysisPhase, DeploymentObject, Route, Rollout}
use steadystate.Reconcile.Cluster.{ApiError}

-- The answer to a Get. `no_match` is the error of a kind that is not installed.
pub data Fetched (A : Type 0) : Type 0 where
  not_found : Fetched A
  no_match : ApiError → Fetched A
  failed : ApiError → Fetched A
  found : A → Fetched A

-- The answer to a Delete.
pub data Deletion : Type 0 where
  deleted gone : Deletion
  refused : ApiError → Deletion

-- The children that have a fixed desired form.
pub data Child : Type 0 where
  stable_service canary_service analysis_template rollout : Child
  service_monitor prometheus_rule otel_egress_policy database_egress_policy : Child

-- A call that changes state.
pub data Effect : Type 0 where
  apply_config_map : Effect
  -- for whom, manageReplicas, and the value of the label of a rolling migration
  apply_deployment : Application → Bool → Option Bytes → Effect
  apply_service : Option Bytes → Effect
  apply : Child → Effect
  apply_rollout : Bool → Effect  -- in its bootstrap form
  freeze_rollout : Effect
  apply_route : Bool → Effect  -- canary
  stamp_route : Bytes → Effect  -- the annotation
  delete : Child → Effect

-- What CreateOrUpdate returns.
pub record Applied (A : Type 0) : Type 0 where
  pub object : A
  pub changed : Bool

-- Of a Rollout, what freezeRollout writes: is spec.paused true, and is spec.workloadRef.scaleDown
-- "never".
pub record Controls : Type 0 where
  pub paused : Bool
  pub never_scaled_down : Bool

pub record Metric : Type 0 where
  pub name : Bytes
  pub phase : AnalysisPhase
  pub message : Bytes

-- rolloutsv1alpha1.AnalysisRun.
pub record AnalysisRun : Type 0 where
  pub created : ℕ
  pub message : Bytes
  pub metrics : List Metric

pub record Server : Type 0 where
  pub progressive_delivery : Bool  -- hasProgressiveDelivery
  pub first_rollout : Fetched Rollout
  pub second_rollout : Fetched Rollout
  pub route : Fetched Route
  pub config_map : Result ApiError Bool
  pub deployment : Application → Bool → Option Bytes → Result ApiError (Applied DeploymentObject)
  pub service : Option Bytes → Result ApiError Bool
  pub child : Child → Result ApiError Bool
  pub bootstrap : Bool → Result ApiError Bool
  pub controls : Fetched Controls
  pub freeze : Result ApiError Bool
  pub service_uid : Bytes → Result ApiError Bytes
  -- CreateOrUpdate of the HTTPRoute with its mutation, at each attempt, and RetryOnConflict.
  pub write_route : ℕ → (Route → Route) → Result ApiError (Applied Route)
  pub retry : (ℕ → Result ApiError (Applied Route)) → Result ApiError (Applied Route)
  -- The clock at the two drains, and the answer to the patch of a stamped route.
  pub cutover_now : ℕ
  pub cleanup_now : ℕ
  pub patch_route : Route → Result ApiError Route
  pub get : Child → Fetched Unit
  pub remove : Child → Deletion
  pub analysis_run : Bytes → Fetched AnalysisRun
  pub analysis_runs : Result ApiError (List AnalysisRun)
