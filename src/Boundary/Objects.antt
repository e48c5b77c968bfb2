-- ===== src/Boundary/Objects.antt =====
-- reconcileManagedObject, and the four stages of a Team's boundary in their order.
use steadystate.Prelude.{
  Bytes, bytes, bytes_eq, get_or_empty, String, Bool, true, false, ◌||◌, List, [], ◌∷◌, ◌++◌,
  if◌then◌else◌, Result, ok, err,
}
use steadystate.Control.{Act, pure, read, call, wrap, ◌>>=◌}
use steadystate.Api.Conditions.{Message}
use steadystate.Api.Team.{Team}
use steadystate.Naming.{team_namespace_name}
use steadystate.Status.Set.{plain, verbatim}
use steadystate.Reconcile.Cluster.{ApiError, Answer, missing, failed, found}
use steadystate.Boundary.Server.{
  default_deny, allow_dns, allow_envoy, allow_monitoring, allow_applications, Object, namespace,
  resource_quota, limit_range, service_account, role_binding, network_policy, Effect, apply,
  PolicyRule, Server, Library,
}
use steadystate.Boundary.Status.{
  Stage, namespace_stage, resource_policy_stage, rbac_stage, network_policy_stage,
}

-- An error of a stage; `conflict` is ownershipConflictError.
pub data Failure : Type 0 where
  conflict : Object → Failure
  broken : Message → Failure

abbrev pub kind : Object → Bytes
kind namespace = bytes "Namespace"
kind resource_quota = bytes "ResourceQuota"
kind limit_range = bytes "LimitRange"
kind service_account = bytes "ServiceAccount"
kind role_binding = bytes "RoleBinding"
kind (network_policy p) = bytes "NetworkPolicy"

-- The names that the builders of internal/resources give.
abbrev pub object_name : Team → Object → Bytes
object_name team namespace = team_namespace_name team.name
object_name team resource_quota = bytes "steadystate-quota"
object_name team limit_range = bytes "steadystate-defaults"
object_name team service_account = bytes "steadystate-team-owner"
object_name team role_binding = bytes "steadystate-team-owner"
object_name team (network_policy default_deny) = bytes "steadystate-default-deny"
object_name team (network_policy allow_dns) = bytes "steadystate-allow-dns"
object_name team (network_policy allow_envoy) = bytes "steadystate-allow-envoy-gateway"
object_name team (network_policy allow_monitoring) = bytes "steadystate-allow-monitoring"
object_name team (network_policy allow_applications) = bytes "steadystate-allow-team-applications"

-- The text of the object's key; the Namespace has none of its own.
abbrev pub key : Team → Object → Bytes
key team namespace = b'/' ∷ team_namespace_name team.name
key team o = team_namespace_name team.name ++ b'/' ∷ object_name team o

-- The text of an error of a stage.
unfoldable pub failure_message : Team → Failure → Message
failure_message team (conflict o) = record {
  format = "%s %s already exists without matching Team label and UID ownership";
  args = kind o ∷ key team o ∷ [];
}
failure_message team (broken m) = m

-- ownedByTeamUID, on the annotations of the object.
unfoldable pub owned_by_team_uid : List (Bytes × Bytes) → Team → Bool
owned_by_team_uid annotations team =
    bytes_eq (get_or_empty (bytes "steadystate.dev/team-uid") annotations) team.uid

-- The rules of resources.TeamOwnerRules.
abbrev pub read_write : List String
read_write = "create" ∷ "delete" ∷ "get" ∷ "list" ∷ "patch" ∷ "update" ∷ "watch" ∷ []

abbrev pub read_only : List String
read_only = "get" ∷ "list" ∷ "watch" ∷ []

abbrev rule : String → List String → List String → PolicyRule
rule group kinds verbs = record { api_groups = group ∷ []; kinds = kinds; verbs = verbs }

abbrev pub team_owner_rules : List PolicyRule
team_owner_rules =
    rule "platform.steadystate.dev" ("applications" ∷ "databases" ∷ []) read_write
    ∷ rule "platform.steadystate.dev" ("applications/status" ∷ "databases/status" ∷ []) ("get" ∷ [])
    ∷ rule "" ("configmaps" ∷ "secrets" ∷ []) read_write
    ∷ rule "" ("events" ∷ "pods" ∷ "services" ∷ []) read_only
    ∷ rule "" ("pods/log" ∷ []) ("get" ∷ [])
    ∷ rule "" ("pods/exec" ∷ []) ("create" ∷ "get" ∷ [])
    ∷ rule "apps" ("deployments" ∷ "replicasets" ∷ []) read_only
    ∷ rule "events.k8s.io" ("events" ∷ []) read_only
    ∷ rule "gateway.networking.k8s.io" ("httproutes" ∷ []) read_only
    ∷ []

module _ (lib : Library) (server : Server) (team : Team) where
  -- The object may be written: it is absent, or it bears the UID of the Team.
  unfoldable pub may_write : Object → Answer (List (Bytes × Bytes)) → Result Failure Bool
  may_write o missing = ok true
  may_write o (failed e) = err (broken (verbatim e))
  may_write o (found annotations) =
      if owned_by_team_uid annotations team then ok true else err (conflict o)

  abbrev context : Object → ApiError → Failure
  context o e = broken (record { format = "%s %s: %w"; args = kind o ∷ key team o ∷ e ∷ [] })

  -- reconcileManagedObject.
  unfoldable pub reconcile_managed_object : Object → Act Effect Failure Bool
  reconcile_managed_object o = read (may_write o (server.annotations o)) >>= λ u.
      wrap (context o) (call (apply o) (server.write o))

  -- Objects one after the other, until one fails.
  unfoldable pub reconcile_each : List Object → Bool → Act Effect Failure Bool
  reconcile_each [] mutated = pure mutated
  reconcile_each (o ∷ os) mutated =
      reconcile_managed_object o >>= λ changed. reconcile_each os (mutated || changed)

  -- The look at the installed ClusterRole.
  unfoldable pub role_matches : Result ApiError (List PolicyRule) → Result Failure Bool
  role_matches (err e) =
      err (broken (record { format = "installed Team owner ClusterRole: %w"; args = e ∷ [] }))
  role_matches (ok rules) =
      if lib.same_rules rules team_owner_rules
      then ok true
      else err (
          broken (
            plain
              "installed Team owner ClusterRole rules do not match the protected platform contract"))

  -- The objects of reconcileNamespace, reconcileResourcePolicy, reconcileRBAC and
  -- reconcileNetworkPolicy.
  abbrev pub objects : Stage → List Object
  objects namespace_stage = namespace ∷ []
  objects resource_policy_stage = resource_quota ∷ limit_range ∷ []
  objects rbac_stage = service_account ∷ role_binding ∷ []
  objects network_policy_stage =
      network_policy default_deny
      ∷ network_policy allow_dns
      ∷ network_policy allow_envoy
      ∷ network_policy allow_monitoring
      ∷ network_policy allow_applications
      ∷ []

  -- What a stage reads before it writes.
  unfoldable pub precondition : Stage → Result Failure Bool
  precondition rbac_stage = role_matches server.owner_role
  precondition _ = ok true

  -- One of the four functions.
  unfoldable pub reconcile_stage : Stage → Act Effect Failure Bool
  reconcile_stage stage = read (precondition stage) >>= λ u. reconcile_each (objects stage) false

  abbrev pub at : Stage → Failure → Stage × Failure
  at stage f = (stage, f)

  -- The four stages of Reconcile: whether an object changed, or the stage that failed.
  unfoldable pub reconcile_stages : List Stage → Bool → Act Effect (Stage × Failure) Bool
  reconcile_stages [] mutated = pure mutated
  reconcile_stages (s ∷ ss) mutated =
      wrap (at s) (reconcile_stage s) >>= λ changed. reconcile_stages ss (mutated || changed)
