-- ===== src/Tests/Reconciliation.antt =====
-- The reconciliation of one Application.
use steadystate.Api.Conditions.{is_true}
use steadystate.Prelude.{
  All, ℕ, ◌==◌, bytes, bytes_eq, contains, lookup, get_or_empty, true, false, ◌≡◌, refl, inl, none,
  some, [], ◌∷◌, arith, ok,
}
use steadystate.Api.Application.{ApplicationStatus}
use steadystate.Api.Team.{Namespace}
use steadystate.Prelude.Text.{contains_space}
use steadystate.Application.Validation.{repository_matches}
use steadystate.Provenance.Digest.{resolved_source_revision}
use steadystate.Status.Observe.{RolloutPhase}
use steadystate.Team.{validate, validate_owners, validate_repositories, path_match}
use steadystate.Reconcile.Cluster.{missing, found, Cluster, Library}
use steadystate.Reconcile.Tenancy.{application_tenancy}
use steadystate.Reconcile.Patch.{patch_status, preserve_times, attempt_patch}
use steadystate.Reconcile.Gate.{admitted, gate}
use steadystate.Reconcile.Handler.{
  converge, reconcile, dispatch, run_children, observe_pods, conclude,
}
use steadystate.Reconcile.Rejection.{security_admission_failure, first_rejection}
use steadystate.Reconcile.Laws.Tenancy.{IsTenant, application_tenancy_iff}
use steadystate.Reconcile.Laws.Admission.{IsAdmitted, gate_iff}
use steadystate.Reconcile.Laws.Effects.{Touches, children_iff}
use steadystate.Reconcile.Laws.Published.{Publishes, converge-Publishes}
use steadystate.Reconcile.Laws.Patch.{Writes, patch_written, Succeeds, converge_reports}
use steadystate.Naming.{team_namespace_name}
use steadystate.Naming.Labels.{team_labels, team_annotations}
use steadystate.Reconcile.Tenancy.{belongs}
use steadystate.Reconcile.Laws.Identity.{generated_belongs}
use steadystate.Tests.Data.{
  numbers, quantities, condition_ops, sums, team_ops, shop_team, canary_application,
}
use steadystate.Tests.Validations.{canary_application-IsValid}
use steadystate.Tests.Provenance.{serving_pod}
use steadystate.Tests.Statuses.{runtime_in}

abbrev pub library : Library
library = record {
  conditions = condition_ops;
  floats = numbers;
  quantities = quantities;
  sha = sums;
  teams = team_ops;
  same_status = λ a b. a.observed_generation == b.observed_generation;
  same_status-refl = λ s. ground arith;
  retry = λ f. f 0;
  retry-attempt = λ f. (0, refl);
}

abbrev pub shop_namespace : Namespace
shop_namespace = record {
  name = bytes "team-shop";
  labels = (bytes "steadystate.dev/team", bytes "shop") ∷ [];
  annotations = (bytes "steadystate.dev/team-uid", bytes "u1") ∷ [];
  deleting = false;
}

abbrev cluster : Cluster
cluster = record {
  application = found canary_application;
  release_finalizer = none;
  add_finalizer = ok canary_application;
  namespace = found shop_namespace;
  team = λ name. found shop_team;
  database = λ name. missing;
  progressive_delivery = true;
  children = λ app. ok (runtime_in RolloutPhase.healthy);
  replica_sets = ok [];
  pods = ok (serving_pod ∷ []);
  attempts = λ i. record { current = ok canary_application; patch = none };
}

shop_team_valid : validate team_ops shop_team ≡ none
unfolding bytes validate validate_owners validate_repositories path_match contains_space contains
    bytes_eq repository_matches
shop_team_valid = refl

repository_matched : path_match (bytes "ghcr.io/shop/*") (bytes "ghcr.io/shop/checkout") ≡ some true
unfolding bytes path_match
repository_matched = refl

canary_application-IsTenant : IsTenant library cluster canary_application
unfolding bytes get_or_empty lookup bytes_eq
canary_application-IsTenant = record {
  namespace = shop_namespace;
  team = shop_team;
  in_namespace = refl;
  of_team = refl;
  named = λ e. cc;
  marked = λ e. cc;
  label = refl;
  name = refl;
  uid = refl;
  alive = refl;
  valid = shop_team_valid;
  allowed = inl repository_matched;
}

application_tenancy_iff_example : application_tenancy library cluster canary_application ≡ ok none
application_tenancy_iff_example =
    (application_tenancy_iff library cluster canary_application).1 canary_application-IsTenant

canary_application-IsAdmitted : IsAdmitted library cluster canary_application []
unfolding resolved_source_revision lookup
canary_application-IsAdmitted = record {
  valid = canary_application-IsValid;
  revision = refl;
  tenant = canary_application-IsTenant;
  delivery = λ _. refl;
  database = inl refl;
}

gate_iff_example : gate library cluster canary_application ≡ admitted []
gate_iff_example = (gate_iff library cluster canary_application []).1 canary_application-IsAdmitted

children_iff_example : Touches (reconcile library cluster)
children_iff_example = (children_iff library cluster).1 (
  canary_application,
  (canary_application, refl, refl, inl (refl, refl)),
  ([], canary_application-IsAdmitted),
)

converge-Publishes_example :
    All (Publishes library canary_application) (converge library cluster canary_application).effects
converge-Publishes_example = converge-Publishes library cluster canary_application

abbrev desired : ApplicationStatus
desired = record canary_application.status {
  observed_generation = 3;
  conditions =
      record {
        kind = "Ready";
        status = is_true;
        observed_generation = 3;
        reason = "r";
        message = record { format = "m"; args = [] };
        last_transition = 7;
      }
      ∷ [];
}

patch_written_example :
    (library.same_status canary_application.status desired ≡ false)
    × ((i : ℕ) × Writes library desired
          (cluster.attempts i)
          (preserve_times condition_ops canary_application.status desired))
unfolding patch_status attempt_patch preserve_times
patch_written_example =
    patch_written library cluster canary_application desired
      (preserve_times condition_ops canary_application.status desired) refl

converges : (converge library cluster canary_application).error ≡ none
unfolding converge dispatch run_children security_admission_failure first_rejection observe_pods
    conclude patch_status attempt_patch
converges = ground (arith, gate_iff_example)

converge_reports_example : Succeeds library cluster canary_application
converge_reports_example =
    converge_reports library cluster canary_application [] canary_application-IsAdmitted converges

generated_belongs_example :
    belongs
      (record {
        name = team_namespace_name shop_team.name;
        labels = team_labels shop_team;
        annotations = team_annotations shop_team;
        deleting = false;
      })
      shop_team
    ≡ true
generated_belongs_example = generated_belongs shop_team false
