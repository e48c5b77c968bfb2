-- ===== src/Progressive/Routes.antt =====
-- reconcileRoute and routeBackendServiceUIDs, and the desired backends of resources/httproute.go and
-- resources/progressive_delivery.go.
use steadystate.Prelude.{
  Bytes, bytes, bytes_eq, contains, join, sort_strings, get_or_empty, Bool, ◌&&◌, some, List, [],
  ◌∷◌, ◌++◌, map, if◌then◌else◌, Result, ok, err,
}
use steadystate.Prelude.Int.{pos}
use steadystate.Control.{read, call, wrap, ◌>>=◌}
use steadystate.Naming.{stable_service_name, canary_service_name}
use steadystate.Naming.Labels.{labels}
use steadystate.Api.Application.{Application}
use steadystate.Status.Observe.{Backend, Route}
use steadystate.Reconcile.Cluster.{ApiError, Library}
use steadystate.Progressive.Drain.{set_key}
use steadystate.Progressive.Serving.{first_backends, reweigh}
use steadystate.Progressive.Server.{Applied, apply_route, Server}
use steadystate.Progressive.Shared.{Pass, prefixed}

-- `mergeStringMap` on an association list.
unfoldable pub merge_string_map : List (Bytes × Bytes) → List (Bytes × Bytes) → List (Bytes × Bytes)
merge_string_map current [] = current
merge_string_map current ((k, v) ∷ desired) = merge_string_map (set_key k v current) desired

-- The backends of HTTPRoute and CanaryHTTPRoute.
unfoldable pub route_backends : Library → Application → Bool → List Backend
route_backends lib app canary =
    if canary
    then record { name = stable_service_name lib.sha app.name; weight = some (pos 100) }
      ∷ record { name = canary_service_name lib.sha app.name; weight = some (pos 0) }
      ∷ []
    else record { name = app.name; weight = some (pos 1) } ∷ []

-- The loop of routeBackendServiceUIDs: the Services seen, and their identities so far.
unfoldable pub collect_uids :
    (Bytes → Result ApiError Bytes)
    → Bytes
    → List Bytes
    → List Bytes
    → List Backend
    → Result ApiError (List Bytes)
collect_uids uid namespace seen identities [] = ok identities
collect_uids uid namespace seen identities (b ∷ bs) =
    if contains seen b.name
    then collect_uids uid namespace seen identities bs
    else elim (uid b.name) [
      | err e ↦ err (bytes "service " ++ namespace ++ bytes "/" ++ b.name ++ bytes ": " ++ e)
      | ok u ↦
          collect_uids uid namespace (b.name ∷ seen)
            (identities ++ (namespace ++ bytes "/" ++ b.name ++ bytes "=" ++ u) ∷ []) bs
    ]

-- routeBackendServiceUIDs, on the one rule of the desired route, whose backends are Services of the
-- Application's namespace.
unfoldable pub route_backend_service_uids : Server → Bytes → List Backend → Result ApiError Bytes
route_backend_service_uids server namespace backends =
    elim (collect_uids server.service_uid namespace [] [] backends) [
      | err e ↦ err e
      | ok identities ↦ ok (join (bytes ",") (sort_strings identities))
    ]

-- `canary && current.Labels[gatewayPluginInProgressLabel] == gatewayPluginInProgressValue`.
unfoldable pub keeps_weights : Bool → Route → Bool
keeps_weights canary current =
    canary
    && bytes_eq (get_or_empty (bytes "rollouts.argoproj.io/gatewayapi-canary") current.labels)
        (bytes "in-progress")

-- The mutation of reconcileRoute, for the desired backends and the annotation of their Services.
unfoldable pub mutate_route : Application → List Backend → Bytes → Bool → Route → Route
mutate_route app backends uids canary current = record current {
  labels = merge_string_map current.labels (labels app);
  annotations = set_key (bytes "steadystate.dev/backend-service-uids") uids current.annotations;
  rules =
      (if keeps_weights canary current
        then map (reweigh (first_backends current.rules)) backends
        else backends)
      ∷ [];
}

-- reconcileRoute: the route, and whether it changed.
unfoldable pub reconcile_route : Library → Server → Application → Bool → Pass (Applied Route)
reconcile_route lib server app canary =
    let backends = route_backends lib app canary in
    wrap (prefixed (bytes "resolve HTTP route backends"))
      (read (route_backend_service_uids server app.namespace backends))
    >>= λ uids. wrap (prefixed (bytes "HTTP route")) (
        call (apply_route canary)
          (server.retry (λ i. server.write_route i (mutate_route app backends uids canary))))
