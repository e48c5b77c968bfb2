-- ===== src/Reconcile/Tenancy.antt =====
-- applicationTenancy and validateApplicationTenancy.
use steadystate.Prelude.{
  Bytes, String, bytes, bytes_eq, get_or_empty, Bool, true, false, not, ◌||◌, Option, none, some,
  List, [], ◌∷◌, ◌++◌, if◌then◌else◌, Result, ok, err,
}
use steadystate.Api.Conditions.{Message}
use steadystate.Api.Application.{Application}
use steadystate.Api.Team.{Team, Namespace}
use steadystate.Application.Messages.{wrapped}
use steadystate.Naming.{team_namespace_name}
use steadystate.Team.{TeamOps, validate, repository_allowed}
use steadystate.Team.Messages.{team_message}
use steadystate.Reconcile.Cluster.{ApiError, missing, failed, found, Cluster, Library}

-- applicationTenancyFailure.
pub record TenancyFailure : Type 0 where
  pub reason : String
  pub message : Message

abbrev failure : String → String → List Bytes → TenancyFailure
failure reason format args = record {
  reason = reason;
  message = record { format = format; args = args };
}

abbrev pub team_label : Namespace → Bytes
team_label n = get_or_empty (bytes "steadystate.dev/team") n.labels

abbrev pub team_uid : Namespace → Bytes
team_uid n = get_or_empty (bytes "steadystate.dev/team-uid") n.annotations

-- The Namespace bears the marks of this very Team.
unfoldable pub belongs : Namespace → Team → Bool
belongs n team = not (
    not (bytes_eq (team_label n) team.name)
    || not (bytes_eq n.name (team_namespace_name team.name))
    || not (bytes_eq (team_uid n) team.uid))

-- validateApplicationTenancy.
unfoldable pub validate_application_tenancy :
    TeamOps → Application → Namespace → Team → Option TenancyFailure
validate_application_tenancy ops app n team =
    if not (belongs n team)
    then some (
        failure "NamespaceOwnershipMismatch"
          "Namespace %s does not belong to the current Team %s incarnation"
          (n.name ∷ team.name ∷ []))
    else if team.deleting
    then some (failure "TeamTerminating" "Team %s is terminating" (team.name ∷ []))
    else elim (validate ops team) [
      | some e ↦ some (record {
        reason = "TeamInvalid";
        message =
            wrapped "Team %s configuration is invalid: " (team.name ∷ []) (team_message ops e);
      })
      | none ↦
          if not (repository_allowed team.spec.allowed_repositories app.spec.image.repository)
          then some (
              failure "RepositoryNotAllowed" "repository %s is not allowed by Team %s"
                (app.spec.image.repository ∷ team.name ∷ []))
          else none
    ]

abbrev pub is_empty : Bytes → Bool
is_empty [] = true
is_empty (c ∷ s) = false

-- The test on the Namespace alone.
unfoldable pub verified : Namespace → Bool
verified n = not (
    is_empty (team_label n)
    || not (bytes_eq n.name (bytes "team-" ++ team_label n))
    || is_empty (team_uid n))

module _ (lib : Library) (cluster : Cluster) where
  -- applicationTenancy.
  unfoldable pub application_tenancy : Application → Result ApiError (Option TenancyFailure)
  application_tenancy app = elim cluster.namespace [
    | missing ↦ ok (
        some (
          failure "NamespaceNotManaged" "Namespace %s is not managed by a SteadyState Team"
            (app.namespace ∷ [])))
    | failed e ↦ err e
    | found n ↦
        if not (verified n)
        then ok (
            some (
              failure "NamespaceNotManaged"
                "Namespace %s is not a verified SteadyState Team namespace" (app.namespace ∷ [])))
        else elim (cluster.team (team_label n)) [
          | missing ↦ ok (
              some (
                failure "TeamNotFound" "Team %s referenced by Namespace %s does not exist"
                  (team_label n ∷ app.namespace ∷ [])))
          | failed e ↦ err e
          | found team ↦ ok (validate_application_tenancy lib.teams app n team)
        ]
  ]
