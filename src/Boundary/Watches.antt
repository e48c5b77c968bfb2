-- ===== src/Boundary/Watches.antt =====
-- Which Team is reconciled when another object changes: teamRequestsForObject,
-- teamRequestForPlatformObject and teamRequestsForOwnerClusterRole.
use steadystate.Prelude.{
  Bytes, bytes, bytes_eq, has_prefix, get_or_empty, List, [], ◌∷◌, map, length, if◌then◌else◌,
  Result, ok, err, drop,
}
use steadystate.Api.Team.{Team}
use steadystate.Reconcile.Cluster.{ApiError}

-- A request is the name of a Team, which has no namespace.
unfoldable pub request_of : Bytes → List Bytes
request_of [] = []
request_of (c ∷ name) = (c ∷ name) ∷ []

-- teamRequestsForObject, of the labels of the object.
unfoldable pub team_requests_for_object : List (Bytes × Bytes) → List Bytes
unfolding request_of
team_requests_for_object labels = request_of (get_or_empty (bytes "steadystate.dev/team") labels)

-- teamRequestForPlatformObject, of the namespace of the object.
unfoldable pub team_request_for_platform_object : Bytes → List Bytes
unfolding request_of
team_request_for_platform_object namespace =
    if has_prefix namespace (bytes "team-")
    then request_of (drop (length (bytes "team-")) namespace)
    else []

-- teamRequestsForOwnerClusterRole, of the name of the ClusterRole and the answer to the List of Teams.
-- An error is logged.
unfoldable pub team_requests_for_owner_cluster_role :
    Bytes → Result ApiError (List Team) → List Bytes
team_requests_for_owner_cluster_role name (err e) = []
team_requests_for_owner_cluster_role name (ok teams) =
    if bytes_eq name (bytes "steadystate-team-owner") then map (λ team. team.name) teams else []
