-- ===== src/Progressive/Laws/Pass.antt =====
-- What a whole pass over the children of a canary may call.
use steadystate.Prelude.{Bytes, Option, is_some, Bool, true, false, ◌≡◌, none, arith}
use steadystate.Control.Rules.{
  Logs, Logs-pure, Logs-read, Logs-call, Logs-wrap, Logs-bind, Logs-if, Logs-weaken,
}
use steadystate.Api.Application.{Application, is_canary}
use steadystate.Progressive.Drain.{Clock}
use steadystate.Progressive.Runtime.{
  apply_or_delete, delete_owned_object, reconcile_observability_resources,
  reconcile_runtime_children,
}
use steadystate.Reconcile.Cluster.{Library}
use steadystate.Progressive.Server.{
  Child, service_monitor, prometheus_rule, otel_egress_policy, database_egress_policy,
  apply_config_map, apply_service, apply, apply_rollout, Effect, apply_deployment, Server,
}
use steadystate.Progressive.Server.{delete, freeze_rollout, apply_route, stamp_route}
use steadystate.Progressive.Laws.Canary.{IsAllowed, canary-IsAllowed}

-- An object of observability or of egress that the specification does not ask for.
abbrev pub IsUnwanted : Application → Child → Type 0
IsUnwanted app service_monitor = app.spec.observability.metrics ≡ false
IsUnwanted app prometheus_rule = app.spec.observability.metrics ≡ false
IsUnwanted app otel_egress_policy = app.spec.observability.traces ≡ false
IsUnwanted app database_egress_policy = app.spec.database_ref ≡ none
IsUnwanted app _ = ⊥

-- The calls that a whole pass over a canary may make.
abbrev pub IsDue : Library → Server → Application → Effect → Type 0
IsDue lib server app (delete c) = IsUnwanted app c
IsDue lib server app e = IsAllowed lib server app e

allowed-IsDue :
    (lib : Library) (server : Server) (app : Application) (e : Effect)
    → IsAllowed lib server app e
    → IsDue lib server app e
allowed-IsDue lib server app (delete c) h = absurd h
allowed-IsDue lib server app apply_config_map h = h
allowed-IsDue lib server app (apply_deployment a manage identity) h = h
allowed-IsDue lib server app (apply_service identity) h = h
allowed-IsDue lib server app (apply c) h = h
allowed-IsDue lib server app (apply_rollout hold) h = h
allowed-IsDue lib server app freeze_rollout h = h
allowed-IsDue lib server app (apply_route canary) h = h
allowed-IsDue lib server app (stamp_route annotation) h = h

module _ (lib : Library) (server : Server) (app : Application) where
  apply_or_delete-Logs :
      (c : Child) (context : Bytes) (wanted : Bool)
      → (wanted ≡ false → IsUnwanted app c)
      → Logs (IsDue lib server app) (apply_or_delete server c context wanted)
  unfolding apply_or_delete delete_owned_object
  apply_or_delete-Logs c context wanted h =
      Logs-if wanted _ _ (λ e. Logs-wrap _ _ (Logs-call _ _ tt))
        (λ e.
          Logs-bind _ _ (Logs-read _)
            (λ there f. Logs-if there _ _ (λ g. Logs-call _ _ (h e)) (λ g. Logs-pure _)))

  not_referenced : (o : Option Bytes) → is_some o ≡ false → o ≡ none
  not_referenced o h = ground arith

  observability-Logs :
      Logs (IsDue lib server app) (reconcile_observability_resources lib server app)
  unfolding reconcile_observability_resources
  observability-Logs = Logs-bind _ _ (apply_or_delete-Logs service_monitor _ _ (λ e. e)) (λ m em.
      Logs-bind _ _ (apply_or_delete-Logs prometheus_rule _ _ (λ e. e)) (λ p ep.
        Logs-bind _ _ (apply_or_delete-Logs otel_egress_policy _ _ (λ e. e)) (λ t et.
          Logs-bind _ _
            (apply_or_delete-Logs database_egress_policy _ _ (not_referenced app.spec.database_ref))
            (λ d ed. Logs-pure _))))

  -- In a pass over the children of a canary, the Deployment leaves the promoted version only when the
  -- canary can serve; the HTTPRoute is switched only when it can be; no Rollout is frozen and no route
  -- stamped; and nothing is deleted but the objects of observability and egress that the specification
  -- does not ask for.
  pub runtime_canary-IsDue :
      (clock : Clock)
      → is_canary app.spec.deployment.strategy ≡ true
      → Logs (IsDue lib server app) (reconcile_runtime_children lib clock server app)
  unfolding reconcile_runtime_children
  runtime_canary-IsDue clock h =
      Logs-bind _ _
        (Logs-if (is_canary app.spec.deployment.strategy) _ _
          (λ e. Logs-weaken _ (allowed-IsDue lib server app) (canary-IsAllowed lib server app))
          (λ e. absurd (ground arith)))
        (λ state es. Logs-bind _ _ observability-Logs (λ changed ec. Logs-pure _))
