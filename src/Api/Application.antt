-- ===== src/Api/Application.antt =====
-- api/v1alpha1/application_types.go: the Application resource.
use steadystate.Prelude.{ℕ, Bytes, Bool, Option, List, true, false}
use steadystate.Prelude.Int.{ℤ}
use steadystate.Api.Conditions.{Condition}
use steadystate.Api.Numbers.{Quantity}

-- ApplicationPhase; `unset` is the empty string of a new resource.
pub data Phase : Type 0 where
  unset pending progressing healthy degraded rolling_back : Phase

-- DeploymentStrategy, a string: `other` is any value but the two that are declared.
pub data Strategy : Type 0 where
  rolling canary : Strategy
  other : Bytes → Strategy

pub record Image : Type 0 where
  pub repository : Bytes
  pub tag : Bytes

pub record Replicas : Type 0 where
  pub min : ℤ
  pub max : ℤ

pub record Runtime : Type 0 where
  pub port : ℤ
  pub replicas : Replicas

pub record ResourceValues : Type 0 where
  pub cpu : Quantity
  pub memory : Quantity

pub record Resources : Type 0 where
  pub requests : ResourceValues
  pub limits : ResourceValues

pub record CanaryStep : Type 0 where
  pub weight : ℤ
  pub pause : ℤ  -- nanoseconds

pub record Deployment : Type 0 where
  pub strategy : Strategy
  pub steps : List CanaryStep
  pub automatic_rollback : Bool

pub record Reliability : Type 0 where
  pub availability_target : Bytes
  pub maximum_p95_latency : ℤ  -- nanoseconds
  pub maximum_error_rate : Bytes

pub record Observability : Type 0 where
  pub metrics : Bool
  pub logs : Bool
  pub traces : Bool

pub record Security : Type 0 where
  pub require_signed_image : Bool
  pub run_as_non_root : Bool
  pub network_isolation : Bool

pub record ApplicationSpec : Type 0 where
  pub owner : Bytes
  pub image : Image
  pub runtime : Runtime
  pub resources : Resources
  pub deployment : Deployment
  pub reliability : Reliability
  pub observability : Observability
  pub security : Security
  pub database_ref : Option Bytes

pub record ApplicationStatus : Type 0 where
  pub phase : Phase
  pub observed_generation : ℕ
  pub active_version : Bytes
  pub candidate_version : Bytes
  pub resolved_image_digest : Bytes
  pub resolved_git_revision : Bytes
  pub conditions : List Condition

-- Of ObjectMeta, what the program reads. `generation` is the API server's counter.
pub record Application : Type 0 where
  pub name : Bytes
  pub namespace : Bytes
  pub generation : ℕ
  pub deleting : Bool  -- DeletionTimestamp is not zero
  pub finalizer : Bool  -- the list of finalizers contains ApplicationFinalizer
  pub annotations : List (Bytes × Bytes)
  pub spec : ApplicationSpec
  pub status : ApplicationStatus

abbrev pub is_canary : Strategy → Bool
is_canary canary = true
is_canary _ = false
