-- ===== src/Api/Team.antt =====
-- api/v1alpha1/team_types.go: the Team resource, and the Namespace that a Team manages.
use steadystate.Prelude.{ℕ, Bytes, Bool, List}
use steadystate.Api.Conditions.{Condition}
use steadystate.Api.Numbers.{Quantity}

pub record TeamQuota : Type 0 where
  pub cpu : Quantity
  pub memory : Quantity

pub record TeamSpec : Type 0 where
  pub owners : List Bytes
  pub quota : TeamQuota
  pub allowed_repositories : List Bytes

pub record TeamStatus : Type 0 where
  pub observed_generation : ℕ
  pub namespace : Bytes
  pub conditions : List Condition

pub record Team : Type 0 where
  pub name : Bytes
  pub uid : Bytes
  pub generation : ℕ
  pub deleting : Bool
  pub finalizer : Bool  -- the list of finalizers contains TeamFinalizer
  pub annotations : List (Bytes × Bytes)
  pub spec : TeamSpec
  pub status : TeamStatus

-- A corev1.Namespace.
pub record Namespace : Type 0 where
  pub name : Bytes
  pub labels : List (Bytes × Bytes)
  pub annotations : List (Bytes × Bytes)
  pub deleting : Bool
