-- ===== src/Progressive/Runtime.antt =====
-- reconcileObservabilityResources, deleteOwnedObject and reconcileRuntimeChildren.
use steadystate.Prelude.{
  Bytes, bytes, Bool, true, false, ◌||◌, ◌++◌, is_some, if◌then◌else◌, Result, ok, err,
}
use steadystate.Control.{pure, read, call, wrap, ◌>>=◌}
use steadystate.Naming.{service_monitor_name, prometheus_rule_name}
use steadystate.Api.Application.{Application, is_canary}
use steadystate.Status.Canary.{RuntimeState}
use steadystate.Reconcile.Cluster.{ApiError, Library}
use steadystate.Progressive.Drain.{Clock}
use steadystate.Progressive.Server.{
  Fetched, not_found, no_match, failed, found, Child, service_monitor, prometheus_rule,
  otel_egress_policy, database_egress_policy, apply, delete, Server,
}
use steadystate.Progressive.Shared.{Pass, prefixed}
use steadystate.Progressive.Rolling.{answer, reconcile_rolling_children}
use steadystate.Progressive.Canary.{reconcile_canary_children}

-- Whether an object is there to delete; here a kind that is not installed counts as absent.
abbrev pub found_owned : Fetched Unit → Result ApiError Bool
found_owned not_found = ok false
found_owned (no_match e) = ok false
found_owned (failed e) = err e
found_owned (found u) = ok true

-- deleteOwnedObject.
unfoldable pub delete_owned_object : Server → Child → Pass Bool
delete_owned_object server c = read (found_owned (server.get c)) >>= λ there.
    if there then call (delete c) (answer (server.remove c)) else pure false

-- A child that is wanted is written, another one is deleted.
unfoldable pub apply_or_delete : Server → Child → Bytes → Bool → Pass Bool
apply_or_delete server c context wanted =
    if wanted
    then wrap (prefixed context) (call (apply c) (server.child c))
    else delete_owned_object server c

-- reconcileObservabilityResources.
unfoldable pub reconcile_observability_resources : Library → Server → Application → Pass Bool
reconcile_observability_resources lib server app =
    apply_or_delete server service_monitor
      (bytes "ServiceMonitor " ++ service_monitor_name lib.sha app.name)
      app.spec.observability.metrics
    >>= λ m.
        apply_or_delete server prometheus_rule
          (bytes "PrometheusRule " ++ prometheus_rule_name lib.sha app.name)
          app.spec.observability.metrics
        >>= λ p.
            apply_or_delete server otel_egress_policy (bytes "trace egress NetworkPolicy")
              app.spec.observability.traces
            >>= λ t.
                apply_or_delete server database_egress_policy
                  (bytes "database egress NetworkPolicy") (is_some app.spec.database_ref)
                >>= λ d. pure (((m || p) || t) || d)

-- reconcileRuntimeChildren.
unfoldable pub reconcile_runtime_children :
    Library → Clock → Server → Application → Pass RuntimeState
reconcile_runtime_children lib clock server app =
    (if is_canary app.spec.deployment.strategy
      then reconcile_canary_children lib server app
      else reconcile_rolling_children lib clock server app)
    >>= λ state. reconcile_observability_resources lib server app >>= λ changed.
        pure (record state { mutated = state.mutated || changed })
