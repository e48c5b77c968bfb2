-- ===== src/Boundary/Laws/Deletion.antt =====
-- The order in which a Team is taken down.
use steadystate.Prelude.{true, not, ◌&&◌, ◌≡◌, refl, List, [], ◌∷◌, ok, arith}
use steadystate.Control.Rules.{Logs, Logs-pure, Logs-fail, Logs-read, Logs-call, Logs-if, Logs-bind}
use steadystate.Api.Team.{Team, TeamStatus, Namespace}
use steadystate.Reconcile.Cluster.{Answer, missing, failed, found}
use steadystate.Boundary.Server.{
  Effect, add_finalizer, release_finalizer, delete_namespace, apply, delete_application,
  delete_database, force_database, Member, Server, Library,
}
use steadystate.Boundary.Deletion.{
  forces, managed_by_team, publish_status, delete_applications, delete_databases,
  delete_team_namespace, after_databases, after_applications, refuse_namespace, empty_namespace,
  finish_deletion, delete_boundary, reconcile_deletion,
}

module _ (lib : Library) (server : Server) (team : Team) where
  -- The Namespace is there and is this Team's.
  abbrev pub IsManaged : Type 0
  IsManaged = (n : Namespace) × (server.namespace ≡ found n) × (managed_by_team n team ≡ true)

  -- When each call of the deletion is due.
  abbrev pub IsDue : Effect → Type 0
  IsDue release_finalizer = server.namespace ≡ missing
  IsDue (delete_application m) = IsManaged
  IsDue (force_database m) =
      IsManaged × (server.applications ≡ ok []) × (forces team.annotations ≡ true)
  IsDue (delete_database m) = IsManaged × (server.applications ≡ ok [])
  IsDue delete_namespace = IsManaged × (server.applications ≡ ok []) × (server.databases ≡ ok [])
  IsDue add_finalizer = ⊥
  IsDue (apply o) = ⊥
  IsDue _ = Unit

  publish-Logs : (s : TeamStatus) → Logs IsDue (publish_status lib server team s)
  unfolding publish_status
  publish-Logs s = Logs-call _ _ tt

  applications-Logs :
      (ms : List Member) → IsManaged → Logs IsDue (delete_applications lib server team ms)
  unfolding delete_applications
  applications-Logs [] h = Logs-pure _
  applications-Logs (m ∷ ms) h =
      Logs-bind _ _ (Logs-if m.deleting _ _ (λ e. Logs-pure _) (λ e. Logs-call _ _ h))
        (λ u e. applications-Logs ms h)

  databases-Logs :
      (ms : List Member)
      → IsManaged
      → server.applications ≡ ok []
      → Logs IsDue (delete_databases lib server team ms)
  unfolding delete_databases
  databases-Logs [] h a = Logs-pure _
  databases-Logs (m ∷ ms) h a =
      Logs-bind _ _
        (Logs-if (forces team.annotations && not (forces m.annotations)) _ _
          (λ e. Logs-call _ _ (h, a, ground arith)) (λ e. Logs-pure _))
        (λ f e.
          Logs-bind _ _ (Logs-if m.deleting _ _ (λ g. Logs-pure _) (λ g. Logs-call _ _ (h, a)))
            (λ d g. databases-Logs ms h a))

  after_databases-Logs :
      (n : Namespace) (ms : List Member)
      → IsManaged
      → server.applications ≡ ok []
      → server.databases ≡ ok ms
      → Logs IsDue (after_databases lib server team n ms)
  unfolding after_databases delete_team_namespace
  after_databases-Logs n [] h a d =
      Logs-bind _ _
        (Logs-if n.deleting _ _ (λ e. Logs-pure _)
          (λ e. Logs-bind _ _ (Logs-call _ _ (h, a, d)) (λ u f. Logs-call _ _ tt)))
        (λ u e. Logs-pure _)
  after_databases-Logs n (m ∷ ms) h a d =
      Logs-bind _ _ (databases-Logs (m ∷ ms) h a)
        (λ u e. Logs-bind _ _ (Logs-call _ _ tt) (λ v f. Logs-pure _))

  after_applications-Logs :
      (n : Namespace) (ms : List Member)
      → IsManaged
      → server.applications ≡ ok ms
      → Logs IsDue (after_applications lib server team n ms)
  unfolding after_applications
  after_applications-Logs n [] h a =
      Logs-bind _ _ (Logs-read _) (λ ms d. after_databases-Logs n ms h a d)
  after_applications-Logs n (m ∷ ms) h a =
      Logs-bind _ _ (applications-Logs (m ∷ ms) h)
        (λ u e. Logs-bind _ _ (Logs-call _ _ tt) (λ v f. Logs-pure _))

  boundary-Logs :
      (answer : Answer Namespace)
      → server.namespace ≡ answer
      → Logs IsDue (delete_boundary lib server team answer)
  unfolding delete_boundary empty_namespace refuse_namespace finish_deletion
  boundary-Logs missing e =
      Logs-bind _ _ (Logs-call _ _ e) (λ u f. Logs-bind _ _ (Logs-call _ _ tt) (λ v g. Logs-pure _))
  boundary-Logs (failed m) e = Logs-fail _
  boundary-Logs (found n) e =
      Logs-if (managed_by_team n team) _ _
        (λ own.
          Logs-bind _ _ (publish-Logs _) (λ u f.
            Logs-bind _ _ (Logs-read _) (λ ms a. after_applications-Logs n ms (n, e, own) a)))
        (λ other. Logs-bind _ _ (publish-Logs _) (λ changed f.
          Logs-bind _ _ (Logs-if changed _ _ (λ g. Logs-call _ _ tt) (λ g. Logs-pure _))
            (λ u g. Logs-pure _)))

-- The deletion of a Team: an Application, a Database or the Namespace is deleted only where the Namespace
-- bears the Team's name and UID; a Database only when no Application is left, and marked for a forced
-- deletion only if the Team is; the Namespace only when no Application and no Database is left; the
-- finalizer is removed only when the Namespace is gone; nothing is created.
pub deletion-IsDue :
    (lib : Library) (server : Server) (team : Team)
    → Logs (IsDue lib server team) (reconcile_deletion lib server team)
unfolding reconcile_deletion
deletion-IsDue lib server team =
    Logs-if team.finalizer _ _ (λ e. boundary-Logs lib server team _ refl) (λ e. Logs-pure _)
