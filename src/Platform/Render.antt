-- ===== src/Platform/Render.antt =====
-- internal/platformctl/render.go: render and RenderChange.
use steadystate.Prelude.{Bytes, bytes, none, some, [], ◌∷◌, ◌++◌, Result, ok, err}
use steadystate.Api.Conditions.{Message}
use steadystate.Naming.{Sha256, hex}
use steadystate.Reconcile.Cluster.{missing, failed, found}
use steadystate.Platform.Errors.{
  Error, usage, conflict, external, within, exit_within, exit_error, ◌>>=◌, ◌>>◌,
}
use steadystate.Platform.Named.{sort_named}
use steadystate.Platform.Catalog.Data.{TenantCatalog}
use steadystate.Platform.Catalog.Validation.{Checks, validate_catalog}
use steadystate.Platform.Request.{
  Operation, team_create, team_update, team_delete, team_finalize, app_create, app_update,
  app_delete, app_finalize, database_create, database_update, database_restore, database_delete,
  database_finalize, service_scaffold, service_activate, service_retire, service_finalize,
  unsupported, ChangeParameters, ChangeRequest,
}
use steadystate.Platform.Change.{ChangeOps, validate_request}
use steadystate.Platform.Files.{
  Repository, FileChange, Action, create, update, delete, catalog_path, set_file,
}
use steadystate.Platform.Manifests.{Changes, Tools}
use steadystate.Platform.Sources.{ServiceFiles}
use steadystate.Platform.Operations.{
  Tenants, Rendered, create_team, update_team, create_application, update_application,
  create_database, update_database, approve_team_deletion, approve_application_deletion,
  approve_database_deletion, finalize_application, finalize_database,
}
use steadystate.Platform.Services.{scaffold_service, activate_service, retire_service}
use steadystate.Platform.Finalize.{finalize_team, finalize_service}

abbrev action_text : Action → Bytes
action_text create = bytes "create"
action_text update = bytes "update"
action_text delete = bytes "delete"

abbrev pub change_path : FileChange → Bytes
change_path change = change.path

-- What is hashed of the changes.
unfoldable pub hashed : Changes → Bytes
hashed [] = []
hashed (c ∷ cs) = action_text c.action ++ ((0 ∷ c.path) ++ ((0 ∷ []) ++ (c.content ++ hashed cs)))

pub record ChangeSet : Type 0 where
  pub request_id : Bytes
  pub operation : Operation
  pub proposal_digest : Bytes
  pub render_digest : Bytes
  pub files : Changes

-- The libraries around the catalog: YAML of the catalog, JSON of a request, and SHA-256.
pub record Codec : Type 0 where
  pub read_catalog : Bytes → Result Error TenantCatalog
  pub write_catalog : TenantCatalog → Result Error Bytes
  pub json : ChangeRequest → Result Error Bytes
  pub sha : Sha256

-- ChangeRequest.Digest.
unfoldable pub request_digest : Codec → ChangeRequest → Result Error Bytes
request_digest codec request =
    codec.json request >>= λ raw. ok (bytes "sha256:" ++ hex (codec.sha.sum raw))

abbrev reading : Message
reading = record { format = "read tenant catalog: %w"; args = [] }

module _ (tools : Tools) (repository : Repository) (service_files : ServiceFiles) where
  -- changeRenderer.render.
  unfoldable pub render : Operation → Bytes → ChangeParameters → Tenants → Result Error Rendered
  render team_create request p tenants = create_team tools repository p tenants
  render team_update request p tenants = update_team tools repository p tenants
  render team_delete request p tenants = approve_team_deletion tools repository request p tenants
  render team_finalize request p tenants = finalize_team tools repository service_files p tenants
  render app_create request p tenants = create_application tools repository p tenants
  render app_update request p tenants = update_application tools repository p tenants
  render app_delete request p tenants =
      approve_application_deletion tools repository request p tenants
  render app_finalize request p tenants = finalize_application tools repository p tenants
  render database_create request p tenants =
      create_database tools repository database_create p tenants
  render database_restore request p tenants =
      create_database tools repository database_restore p tenants
  render database_update request p tenants =
      update_database tools repository database_update p tenants
  render database_delete request p tenants =
      approve_database_deletion tools repository request p tenants
  render database_finalize request p tenants = finalize_database tools repository p tenants
  render service_scaffold request p tenants =
      scaffold_service tools repository service_files p tenants
  render service_activate request p tenants =
      activate_service tools repository service_files p tenants
  render service_retire request p tenants =
      retire_service tools repository service_files request p tenants
  render service_finalize request p tenants =
      finalize_service tools repository service_files p tenants
  render (unsupported operation) request p tenants =
      exit_error usage "unsupported operation %q" (operation ∷ [])

  -- LoadCatalog.
  unfoldable pub load_catalog : Checks → Codec → Result Error TenantCatalog
  load_catalog checks codec = elim (repository.read catalog_path) [
    | missing ↦ err (within reading (external (bytes "file does not exist")))
    | failed e ↦ err (within reading (external e))
    | found content ↦ elim (codec.read_catalog content) [
      | err e ↦
          err (exit_within usage (record { format = "parse tenant catalog: %v"; args = [] }) e)
      | ok catalog ↦ elim (validate_catalog checks catalog) [
        | some e ↦
            err (exit_within usage (record { format = "invalid tenant catalog: %v"; args = [] }) e)
        | none ↦ ok catalog
      ]
    ]
  ]

  -- What RenderChange makes of the catalog and the changes that were rendered.
  unfoldable pub change_set : Codec → ChangeRequest → Changes → Result Error ChangeSet
  unfolding hashed
  change_set codec request [] = exit_error conflict "operation produces no repository change" []
  change_set codec request (c ∷ cs) =
      let files = sort_named change_path (c ∷ cs) in
      request_digest codec request >>= λ digest. ok (record {
        request_id = request.request_id;
        operation = request.operation;
        proposal_digest = digest;
        render_digest = bytes "sha256:" ++ hex (codec.sha.sum (hashed files));
        files = files;
      })

  -- RenderChange.
  unfoldable pub render_change : Checks → ChangeOps → Codec → ChangeRequest → Result Error ChangeSet
  unfolding load_catalog change_set
  render_change checks ops codec request =
      validate_request ops request >> load_catalog checks codec >>= λ catalog.
      render request.operation request.request_id request.parameters catalog.tenants
      >>= λ (tenants, changes).
          codec.write_catalog (record catalog { tenants = tenants }) >>= λ content.
          set_file tools.clean repository catalog_path content changes >>= change_set codec request
