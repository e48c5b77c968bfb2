-- ===== src/Reconcile/Watches.antt =====
-- Which Applications are reconciled when another object changes: applicationRequestsInNamespace and
-- the functions that call it, applicationsForDatabase and applicationRequestForPod.
use steadystate.Prelude.{
  Bytes, bytes, bytes_eq, bytes_lt, get_or_empty, Bool, true, false, not, ◌||◌, Option, none, some,
  List, [], ◌∷◌, ◌++◌, if◌then◌else◌, Result, ok, err,
}
use steadystate.Api.Application.{Application}
use steadystate.Reconcile.Cluster.{ApiError}

pub record Request : Type 0 where
  pub name : Bytes
  pub namespace : Bytes

unfoldable pub insert_request : Request → List Request → List Request
insert_request r [] = r ∷ []
insert_request r (q ∷ qs) = if bytes_lt q.name r.name then q ∷ insert_request r qs else r ∷ q ∷ qs

-- `sort.Slice` by the name.
unfoldable pub sort_requests : List Request → List Request
unfolding insert_request
sort_requests [] = []
sort_requests (r ∷ rs) = insert_request r (sort_requests rs)

unfoldable pub requests_in : Bytes → List Application → List Request
requests_in namespace [] = []
requests_in namespace (app ∷ apps) =
    record { name = app.name; namespace = namespace } ∷ requests_in namespace apps

-- applicationRequestsInNamespace, of the answer to the List in that namespace. An error is logged.
unfoldable pub application_requests_in_namespace :
    Result ApiError (List Application) → Bytes → List Request
application_requests_in_namespace (err e) namespace = []
application_requests_in_namespace (ok apps) namespace = sort_requests (requests_in namespace apps)

-- applicationsForTeam, where `list` answers the List in a namespace.
unfoldable pub applications_for_team :
    (Bytes → Result ApiError (List Application)) → Bytes → List Request
applications_for_team list team =
    application_requests_in_namespace (list (bytes "team-" ++ team)) (bytes "team-" ++ team)

abbrev refers_to : Option Bytes → Bytes → Bool
refers_to none database = false
refers_to (some name) database = bytes_eq name database

unfoldable pub requests_for : Bytes → List Application → List Request
requests_for database [] = []
requests_for database (app ∷ apps) =
    let rest = requests_for database apps in
    if refers_to app.spec.database_ref database
    then record { name = app.name; namespace = app.namespace } ∷ rest
    else rest

-- applicationsForDatabase, of the answer to the List in the Database's namespace.
unfoldable pub applications_for_database : Result ApiError (List Application) → Bytes → List Request
applications_for_database (err e) database = []
applications_for_database (ok apps) database = sort_requests (requests_for database apps)

abbrev is_empty : Bytes → Bool
is_empty [] = true
is_empty (c ∷ s) = false

-- applicationRequestForPod, of the labels and the namespace of the Pod.
unfoldable pub application_request_for_pod : List (Bytes × Bytes) → Bytes → List Request
application_request_for_pod labels namespace =
    let name = get_or_empty (bytes "app.kubernetes.io/instance") labels in
    if is_empty name
      || not (
          bytes_eq (get_or_empty (bytes "app.kubernetes.io/managed-by") labels)
            (bytes "steadystate"))
    then []
    else record { name = name; namespace = namespace } ∷ []
