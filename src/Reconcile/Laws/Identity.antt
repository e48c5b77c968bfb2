-- ===== src/Reconcile/Laws/Identity.antt =====
-- The labels that the program writes are those that it reads back.
use steadystate.Prelude.{
  bytes, bytes_eq, get_or_empty, lookup, Bool, true, ◌≡◌, refl, ◌≢◌, [], ◌∷◌, arith,
}
use steadystate.Api.Application.{Application}
use steadystate.Api.Team.{Team}
use steadystate.Naming.{team_namespace_name}
use steadystate.Naming.Labels.{selector_labels, team_labels, team_annotations}
use steadystate.Reconcile.Tenancy.{belongs}
use steadystate.Reconcile.Watches.{application_request_for_pod}
use steadystate.Reconcile.Laws.Tenancy.{belongs_iff}

-- A Namespace with the name, the labels and the annotations that are generated for a Team belongs to
-- that Team.
pub generated_belongs :
    (team : Team) (deleting : Bool)
    → belongs
        (record {
          name = team_namespace_name team.name;
          labels = team_labels team;
          annotations = team_annotations team;
          deleting = deleting;
        })
        team
      ≡ true
unfolding bytes bytes_eq lookup get_or_empty team_labels team_annotations team_namespace_name
generated_belongs team deleting = (belongs_iff _ team).1 (refl, refl, refl)

-- A change of a Pod with the selector labels of an Application that has a name asks for exactly that
-- Application.
request_for_pod_of :
    (app : Application)
    → app.name ≢ []
    → application_request_for_pod (selector_labels app) app.namespace
      ≡ record { name = app.name; namespace = app.namespace } ∷ []
unfolding bytes bytes_eq lookup get_or_empty selector_labels application_request_for_pod
request_for_pod_of app n = ground arith
