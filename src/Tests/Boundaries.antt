-- ===== src/Tests/Boundaries.antt =====
-- The reconciliation of a Team.
use steadystate.Naming.{team_namespace_name}
use steadystate.Prelude.{◌==◌, ◌≡◌, bytes, true, false, refl, none, [], ◌∷◌, ok}
use steadystate.Control.Rules.{Logs}
use steadystate.Reconcile.Cluster.{missing, found}
use steadystate.Boundary.Server.{deleted, Server, Library}
use steadystate.Boundary.Deletion.{reconcile_deletion}
use steadystate.Boundary.Handler.{converge_team}
use steadystate.Boundary.Laws.Deletion.{IsDue, deletion-IsDue}
use steadystate.Boundary.Laws.Converge.{IsSound, converge-IsSound}
use steadystate.Api.Conditions.{is_true, is_false}
use steadystate.Api.Team.{TeamStatus}
use steadystate.Status.Set.{plain}
use steadystate.Boundary.Status.{namespace_stage, rbac_stage, failed_team_status, preserve_times}
use steadystate.Boundary.Laws.Statuses.{condition_of, seen, failed_status_conditions}
use steadystate.Control.Publish.{IsFresh, publish-IsFresh, publish_with, attempt_with}
use steadystate.Tests.Data.{condition_ops, team_ops, shop_team}
use steadystate.Tests.Reconciliation.{shop_namespace}

abbrev library : Library
library = record {
  conditions = condition_ops;
  teams = team_ops;
  publish = record {
    same = λ a b. a.observed_generation == b.observed_generation;
    retry = λ f. f 0;
    retry-attempt = λ f. (0, refl);
  };
  same_rules = λ a b. true;
}

-- A server on which every call succeeds, with one Database left in the Namespace.
abbrev server : Server
server = record {
  team = found shop_team;
  add_finalizer = ok shop_team;
  release_finalizer = none;
  annotations = λ o. missing;
  write = λ o. ok true;
  owner_role = ok [];
  namespace = found shop_namespace;
  applications = ok [];
  databases = ok (record { name = bytes "orders"; deleting = false; annotations = [] } ∷ []);
  remove_application = λ name. deleted;
  remove_database = λ name. deleted;
  force_database = λ name. none;
  remove_namespace = deleted;
  attempts = λ i. record {
    current = ok (record { generation = 1; status = shop_team.status });
    patch = none;
  };
}

deletion-IsDue_example :
    Logs (IsDue library server shop_team) (reconcile_deletion library server shop_team)
deletion-IsDue_example = deletion-IsDue library server shop_team

converge-IsSound_example :
    Logs (IsSound library server shop_team true) (converge_team library server shop_team true)
converge-IsSound_example = converge-IsSound library server shop_team true

-- The ClusterRole was changed: the Namespace is fine, Ready is False.
failed_status_conditions_example :
    (condition_of condition_ops
        (failed_team_status condition_ops shop_team rbac_stage "ReconciliationFailed"
          (plain "role"))
        "NamespaceReady"
      ≡ seen is_true 1)
    × (condition_of condition_ops
          (failed_team_status condition_ops shop_team rbac_stage "ReconciliationFailed"
            (plain "role"))
          "Ready"
        ≡ seen is_false 1)
    × ((failed_team_status condition_ops shop_team rbac_stage "ReconciliationFailed"
          (plain "role")).observed_generation
        ≡ 1)
    × ((failed_team_status condition_ops shop_team rbac_stage "ReconciliationFailed"
          (plain "role")).namespace
        ≡ team_namespace_name (bytes "shop"))
failed_status_conditions_example =
    failed_status_conditions condition_ops shop_team rbac_stage "ReconciliationFailed"
      (plain "role") namespace_stage

abbrev desired : TeamStatus
desired = record { observed_generation = 1; namespace = bytes "team-shop"; conditions = [] }

publish-IsFresh_example :
    IsFresh library.publish
      (preserve_times condition_ops)
      (λ s. s.observed_generation)
      server.attempts
      desired
      desired
unfolding publish_with attempt_with preserve_times
publish-IsFresh_example =
    publish-IsFresh library.publish (preserve_times condition_ops) (λ s. s.observed_generation)
      server.attempts shop_team.status desired desired refl
