-- ===== src/Reconcile/Cluster.antt =====
-- What the API server and the reconciliation of the children answer, one answer for each call.
-- Reconcile makes each call at most once, so a record of arbitrary answers covers any server.
use steadystate.Prelude.{ℕ, Bytes, String, Bool, ◌≡◌, Option, true, List, Result}
use steadystate.Api.Conditions.{Condition, ConditionOps, ConditionStatus}
use steadystate.Api.Numbers.{FloatOps, QuantityOps}
use steadystate.Api.Application.{Application, ApplicationStatus}
use steadystate.Api.Team.{Team, Namespace}
use steadystate.Naming.{Sha256}
use steadystate.Provenance.{Pod}
use steadystate.Status.Canary.{RuntimeState}
use steadystate.Team.{TeamOps}

-- The text of an error.
abbrev pub ApiError : Type 0
ApiError = Bytes

-- The answer to a Get: the NotFound error is told apart from the others.
pub data Answer {ℓ} (A : Type ℓ) : Type ℓ where
  missing : Answer A
  failed : ApiError → Answer A
  found : A → Answer A

-- Of a Database, what an Application reads.
pub record Database : Type 0 where
  pub generation : ℕ
  pub observed_generation : ℕ
  pub conditions : List Condition

pub record ReplicaSetCondition : Type 0 where
  pub kind : String
  pub status : ConditionStatus
  pub reason : Bytes
  pub message : Bytes

-- One attempt of patchStatus: the fresh read, and the answer to the patch.
pub record Attempt : Type 0 where
  pub current : Result ApiError Application
  pub patch : Option ApiError

-- What an attempt did: the status that it wrote, if any, which is when `changed` is set, and its error.
pub record Patched : Type 0 where
  pub written : Option ApplicationStatus
  pub error : Option ApiError

pub record Cluster : Type 0 where
  pub application : Answer Application
  pub release_finalizer : Option ApiError
  pub add_finalizer : Result ApiError Application  -- the patched Application
  pub namespace : Answer Namespace
  pub team : Bytes → Answer Team
  pub database : Bytes → Answer Database  -- in the Application's namespace
  pub progressive_delivery : Bool  -- hasProgressiveDelivery
  pub children : Application → Result ApiError RuntimeState  -- reconcileRuntimeChildren
  pub replica_sets : Result ApiError (List (List ReplicaSetCondition))
  pub pods : Result ApiError (List Pod)
  pub attempts : ℕ → Attempt

-- The library functions.
pub record Library : Type 0 where
  pub conditions : ConditionOps
  pub floats : FloatOps
  pub quantities : QuantityOps
  pub sha : Sha256
  pub teams : TeamOps
  -- apiequality.Semantic.DeepEqual on statuses.
  pub same_status : ApplicationStatus → ApplicationStatus → Bool
  pub same_status-refl : (s : ApplicationStatus) → same_status s s ≡ true
  -- retry.RetryOnConflict: it returns what one of its attempts returned.
  pub retry : (ℕ → Patched) → Patched
  pub retry-attempt : (f : ℕ → Patched) → (i : ℕ) × (retry f ≡ f i)
