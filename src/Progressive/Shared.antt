-- ===== src/Progressive/Shared.antt =====
-- The reads and writes that rolling and canary Applications share: getRollout, getRoute,
-- reconcileSharedChildren, reconcileRoute, deleteOwnedObject and deleteProgressiveObjects.
use steadystate.Prelude.{
  Bytes, bytes, format_int, Bool, true, false, ◌||◌, Option, none, some, [], ◌++◌, if◌then◌else◌,
  Result, ok, err,
}
use steadystate.Prelude.Int.{pos}
use steadystate.Control.{Act, pure, read, call, wrap, ◌>>=◌}
use steadystate.Api.Application.{Application}
use steadystate.Status.Observe.{DeploymentObject, Route, Rollout, RolloutPhase}
use steadystate.Reconcile.Cluster.{ApiError}
use steadystate.Progressive.Server.{
  Fetched, not_found, no_match, failed, found, Effect, apply_config_map, apply_deployment,
  apply_service, Server,
}

abbrev pub Pass : Type 0 → Type 0
Pass A = Act Effect ApiError A

-- `fmt.Errorf("…: %w", err)`.
abbrev pub prefixed : Bytes → ApiError → ApiError
prefixed p e = p ++ bytes ": " ++ e

-- `&Rollout{}`, which a missing Rollout is read as.
abbrev pub zero_rollout : Rollout
zero_rollout = record {
  generation = 0;
  observed_generation = [];
  phase = RolloutPhase.other [];
  stable_rs = [];
  available_replicas = pos 0;
  abort = false;
  message = [];
  analysis = none;
  canary = none;
}

-- `&HTTPRoute{}`.
abbrev pub zero_route : Route
zero_route = record { generation = 0; labels = []; annotations = []; rules = []; parents = [] }

-- The Rollout, and whether it exists.
abbrev pub read_rollout : Fetched Rollout → Result ApiError (Rollout × Bool)
read_rollout not_found = ok (zero_rollout, false)
read_rollout (no_match e) = ok (zero_rollout, false)
read_rollout (failed e) = err e
read_rollout (found r) = ok (r, true)

-- getRollout, for the answer to its Get.
unfoldable pub get_rollout : Bool → Fetched Rollout → Pass (Rollout × Bool)
get_rollout progressive_delivery answer =
    if progressive_delivery then read (read_rollout answer) else pure (zero_rollout, false)

abbrev pub read_route : Fetched Route → Result ApiError (Route × Bool)
read_route not_found = ok (zero_route, false)
read_route (no_match e) = err e
read_route (failed e) = err e
read_route (found r) = ok (r, true)

-- getRoute.
unfoldable pub get_route : Fetched Route → Pass (Route × Bool)
get_route answer = read (read_route answer)

-- applyRollingMigrationIdentity: the value of the label, where the migration isolates its Pods.
unfoldable pub migration_identity : Application → Bool → Option Bytes
migration_identity app true = some (format_int app.generation)
migration_identity app false = none

module _ (server : Server) (app : Application) where
  -- reconcileSharedChildren: the Deployment, and whether a child changed.
  unfoldable pub reconcile_shared_children :
      Application → Bool → Bool → Pass (DeploymentObject × Bool)
  reconcile_shared_children anchor manage isolate =
      let identity = migration_identity app isolate in
      wrap (prefixed (bytes "config map")) (call apply_config_map server.config_map) >>= λ c.
      wrap (prefixed (bytes "deployment"))
        (call (apply_deployment anchor manage identity) (server.deployment anchor manage identity))
      >>= λ d.
          wrap (prefixed (bytes "service"))
            (call (apply_service identity) (server.service identity))
          >>= λ s. pure (d.object, (c || d.changed) || s)
