-- ===== src/Boundary/Server.antt =====
-- What the API server answers to the reconciliation of a Team, one answer for each call, and the calls
-- that change it.
use steadystate.Prelude.{ℕ, Bytes, String, Bool, Option, List, Result}
use steadystate.Api.Conditions.{ConditionOps, Message}
use steadystate.Api.Team.{Team, TeamStatus, Namespace}
use steadystate.Control.Publish.{Attempt, PublishOps}
use steadystate.Team.{TeamOps}
use steadystate.Reconcile.Cluster.{ApiError, Answer}

pub data Policy : Type 0 where
  default_deny allow_dns allow_envoy allow_monitoring allow_applications : Policy

-- The objects of the boundary.
pub data Object : Type 0 where
  namespace resource_quota limit_range service_account role_binding : Object
  network_policy : Policy → Object

-- A call that changes state. `publish` is the call of patchTeamStatus with that status.
pub data Effect : Type 0 where
  add_finalizer release_finalizer delete_namespace : Effect
  apply : Object → Effect
  publish : TeamStatus → Effect
  delete_application delete_database force_database : Bytes → Effect
  warn announce : String → Message → Effect  -- an event of type Warning, of type Normal

-- The answer to a Delete; `gone` is NotFound.
pub data Deletion : Type 0 where
  deleted gone : Deletion
  refused : ApiError → Deletion

-- An Application or a Database of the Team.
pub record Member : Type 0 where
  pub name : Bytes
  pub deleting : Bool
  pub annotations : List (Bytes × Bytes)

-- rbacv1.PolicyRule.
pub record PolicyRule : Type 0 where
  pub api_groups : List String
  pub kinds : List String
  pub verbs : List String

pub record Server : Type 0 where
  pub team : Answer Team
  pub add_finalizer : Result ApiError Team  -- the patched Team
  pub release_finalizer : Option ApiError
  pub annotations : Object → Answer (List (Bytes × Bytes))  -- of the object, before it is written
  pub write : Object → Result ApiError Bool  -- CreateOrUpdate: whether it changed
  pub owner_role : Result ApiError (List PolicyRule)
  pub namespace : Answer Namespace
  pub applications : Result ApiError (List Member)
  pub databases : Result ApiError (List Member)
  pub remove_application : Bytes → Deletion
  pub remove_database : Bytes → Deletion
  pub force_database : Bytes → Option ApiError
  pub remove_namespace : Deletion
  pub attempts : ℕ → Attempt TeamStatus  -- of patchTeamStatus

-- The library functions.
pub record Library : Type 0 where
  pub conditions : ConditionOps
  pub teams : TeamOps
  pub publish : PublishOps TeamStatus
  -- apiequality.Semantic.DeepEqual on rules.
  pub same_rules : List PolicyRule → List PolicyRule → Bool
