-- ===== src/Platform/Laws/Rendered.antt =====
-- Every file that a request changes is one that may be changed.
use steadystate.Prelude.{Bytes, [], ◌∷◌, ◌≡◌, All, ok}
use steadystate.Platform.Laws.Posts.{
  Holds, returned, raised, Holds-bind, Holds-bind_eq, returned_value,
}
use steadystate.Platform.Laws.Paths.{
  IsAllowed, Allowed, IsOther, AllOnce, AllOnce-All, set_file-Allowed,
}
use steadystate.Platform.Request.{
  Operation, team_create, team_update, team_delete, team_finalize, app_create, app_update,
  app_delete, app_finalize, database_create, database_update, database_restore, database_delete,
  database_finalize, service_scaffold, service_activate, service_retire, service_finalize,
  unsupported, ChangeParameters,
}
use steadystate.Platform.Files.{Repository, FileChange}
use steadystate.Platform.Manifests.{Changes, Tools}
use steadystate.Platform.Sources.{ServiceFiles}
use steadystate.Platform.Operations.{Tenants}
use steadystate.Platform.Change.{ChangeOps}
use steadystate.Platform.Render.{render}
use steadystate.Platform.Laws.Allowed.{
  FinePair, create_team-Fine, update_team-Fine, create_application-Fine, update_application-Fine,
  create_database-Fine, update_database-Fine, approve_team-Fine, approve_application-Fine,
  approve_database-Fine, finalize_application-Fine, finalize_database-Fine,
}
use steadystate.Platform.Laws.Places.{Place, path-Place}
use steadystate.Platform.Laws.Generated.{scaffold-Fine, activate-Fine}
use steadystate.Platform.Laws.Removed.{retire-Fine, finalize_team-Fine, finalize_service-Fine}
use steadystate.Prelude.{Bool-cases, inl, inr, bytes_lt, bytes_eq_iff, arith}
use steadystate.Platform.Named.{insert_named, sort_named}
use steadystate.Platform.Request.{ChangeRequest}
use steadystate.Platform.Catalog.Validation.{Checks}
use steadystate.Platform.Render.{Codec, ChangeSet, change_path, change_set, render_change}

insert_named-All :
    (P : FileChange → Type 0) (c : FileChange) (cs : Changes)
    → P c
    → All P cs
    → All P (insert_named change_path c cs)
unfolding insert_named
insert_named-All P c [] p h = (p, tt)
insert_named-All P c (d ∷ cs) p h = elim (Bool-cases (bytes_lt d.path c.path)) [
  | inl e ↦ rw e (h.0, insert_named-All P c cs p h.1)
  | inr e ↦ rw e (p, h)
]

pub IsOther-sym : (c d : FileChange) → IsOther c d → IsOther d c
IsOther-sym c d e = ground (arith, bytes_eq_iff c.path d.path, bytes_eq_iff d.path c.path)

insert_named-AllOnce :
    (P : FileChange → Type 0) (c : FileChange) (cs : Changes)
    → P c
    → All (IsOther c) cs
    → AllOnce P cs
    → AllOnce P (insert_named change_path c cs)
unfolding insert_named
insert_named-AllOnce P c [] p o h = (p, tt, tt)
insert_named-AllOnce P c (d ∷ cs) p o h = elim (Bool-cases (bytes_lt d.path c.path)) [
  | inl e ↦ rw e (
    h.0,
    insert_named-All (IsOther d) c cs (IsOther-sym c d o.0) h.1,
    insert_named-AllOnce P c cs p o.1 h.2,
  )
  | inr e ↦ rw e (p, o, h)
]

sort_named-All :
    (P : FileChange → Type 0) (cs : Changes) → All P cs → All P (sort_named change_path cs)
unfolding sort_named
sort_named-All P [] h = tt
sort_named-All P (c ∷ cs) h = insert_named-All P c _ h.0 (sort_named-All P cs h.1)

sort_named-AllOnce :
    (P : FileChange → Type 0) (cs : Changes) → AllOnce P cs → AllOnce P (sort_named change_path cs)
unfolding sort_named
sort_named-AllOnce P [] h = tt
sort_named-AllOnce P (c ∷ cs) h =
    insert_named-AllOnce P c _ h.0 (sort_named-All (IsOther c) cs h.1) (sort_named-AllOnce P cs h.2)

pub All-mono :
    (P Q : FileChange → Type 0)
    → ((c : FileChange) → P c → Q c)
    → (cs : Changes) → All P cs
    → All Q cs
All-mono P Q f [] h = tt
All-mono P Q f (c ∷ cs) h = (f c h.0, All-mono P Q f cs h.1)

module _ (tools : Tools) (repository : Repository) (service_files : ServiceFiles) where
  render-Fine :
      (operation : Operation) (request : Bytes) (p : ChangeParameters) (tenants : Tenants)
      → Holds
          (FinePair tools repository)
          (render tools repository service_files operation request p tenants)
  unfolding render
  render-Fine team_create request p tenants = create_team-Fine tools repository p tenants
  render-Fine team_update request p tenants = update_team-Fine tools repository p tenants
  render-Fine team_delete request p tenants = approve_team-Fine tools repository request p tenants
  render-Fine team_finalize request p tenants =
      finalize_team-Fine tools repository service_files p tenants
  render-Fine app_create request p tenants = create_application-Fine tools repository p tenants
  render-Fine app_update request p tenants = update_application-Fine tools repository p tenants
  render-Fine app_delete request p tenants =
      approve_application-Fine tools repository request p tenants
  render-Fine app_finalize request p tenants = finalize_application-Fine tools repository p tenants
  render-Fine database_create request p tenants = create_database-Fine tools repository _ p tenants
  render-Fine database_update request p tenants = update_database-Fine tools repository _ p tenants
  render-Fine database_restore request p tenants = create_database-Fine tools repository _ p tenants
  render-Fine database_delete request p tenants =
      approve_database-Fine tools repository request p tenants
  render-Fine database_finalize request p tenants =
      finalize_database-Fine tools repository p tenants
  render-Fine service_scaffold request p tenants =
      scaffold-Fine tools repository service_files p tenants
  render-Fine service_activate request p tenants =
      activate-Fine tools repository service_files p tenants
  render-Fine service_retire request p tenants =
      retire-Fine tools repository service_files request p tenants
  render-Fine service_finalize request p tenants =
      finalize_service-Fine tools repository service_files p tenants
  render-Fine (unsupported operation) request p tenants = raised

  abbrev AllowedSet : ChangeSet → Type 0
  AllowedSet set = Allowed tools.clean repository set.files

  change_set-Fine :
      (codec : Codec) (request : ChangeRequest) (cs : Changes)
      → Allowed tools.clean repository cs
      → Holds AllowedSet (change_set tools repository service_files codec request cs)
  unfolding change_set
  change_set-Fine codec request [] h = raised
  change_set-Fine codec request (c ∷ cs) h =
      Holds-bind_eq _ _
        λ digest _. returned (sort_named-AllOnce (IsAllowed tools.clean repository) (c ∷ cs) h)

  render_change-Fine :
      (checks : Checks) (ops : ChangeOps) (codec : Codec) (request : ChangeRequest)
      → Holds AllowedSet (render_change tools repository service_files checks ops codec request)
  unfolding render_change
  render_change-Fine checks ops codec request = Holds-bind_eq _ _ λ catalog _.
      Holds-bind _ _
        (render-Fine request.operation request.request_id request.parameters catalog.tenants)
        λ r h. Holds-bind_eq _ _ λ content _.
          Holds-bind _ _ (set_file-Allowed tools.clean repository _ content r.1 h)
            λ cs k. change_set-Fine codec request cs k

  -- The changes of the change set that RenderChange returns are allowed, made from what the repository
  -- has, and of different paths.
  pub render_change-Allowed :
      (checks : Checks) (ops : ChangeOps) (codec : Codec) (request : ChangeRequest)
      (set : ChangeSet)
      → render_change tools repository service_files checks ops codec request ≡ ok set
      → AllowedSet set
  render_change-Allowed checks ops codec request set e =
      returned_value (render_change-Fine checks ops codec request) e

  -- Every file of the change set that RenderChange returns is the catalog, one of the listed files of a
  -- service, or one of the two files of a leaf of a Team, an Application or a Database, whatever the
  -- request, the catalog, the repository and the templates are.
  pub render_change-IsPlaced :
      (checks : Checks) (ops : ChangeOps) (codec : Codec) (request : ChangeRequest)
      (set : ChangeSet)
      → render_change tools repository service_files checks ops codec request ≡ ok set
      → All (λ c. Place c.path) set.files
  render_change-IsPlaced checks ops codec request set e =
      All-mono (IsAllowed tools.clean repository) _ (λ c a. path-Place tools.clean c.path a.valid)
        set.files (AllOnce-All _ set.files (render_change-Allowed checks ops codec request set e))
