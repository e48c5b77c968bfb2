-- ===== src/Tests/Requests.antt =====
-- Requests for changes, and what they are rendered to, at concrete inputs.
use steadystate.Prelude.{
  Bytes, bytes, bytes_eq, bytes_lt, contains, has_prefix, true, none, some, [], ◌∷◌, ◌++◌, ◌≡◌,
  refl, ok, if◌then◌else◌, All,
}
use steadystate.Prelude.{get_or_empty, lookup}
use steadystate.Database.Validation.{
  validate_database, retention_matches, size_refused, validate_cron, check_recovery,
  database_source_revision,
}
use steadystate.Prelude.Int.{pos}
use steadystate.Platform.Request.{database_restore}
use steadystate.Platform.Change.{
  desired_database, validate_recovered, validate_target, validate_recovery, validate_database_state,
}
use steadystate.Prelude.Text.{fields, space_length, is_blank, contains_space}
use steadystate.Naming.{hex}
use steadystate.Application.Validation.{repository_matches}
use steadystate.Team.{path_match, validate, validate_owners, validate_repositories}
use steadystate.Provenance.Digest.{is_object_id}
use steadystate.Reconcile.Cluster.{missing, found}
use steadystate.Tests.Data.{quantities, numbers, team_ops, sums}
use steadystate.Tests.Databases.{database_ops}
use steadystate.Tests.Catalogs.{tools, service_files, checks, shop_catalog}
use steadystate.Platform.Errors.{◌>>=◌, ◌>>◌}
use steadystate.Platform.Value.{Fields, end, field, text, mapping}
use steadystate.Platform.Named.{find_named, sort_named}
use steadystate.Platform.Catalog.Patterns.{valid_name, is_dns_label}
use steadystate.Platform.Catalog.Validation.{
  validate_catalog, check_tenants, check_tenant, check_team, check_owners, check_databases,
  check_database, check_applications, check_application, check_services, check_reference,
  validate_lifecycle, require_directory,
}
use steadystate.Platform.Request.{ChangeRequest, team_create}
use steadystate.Platform.Change.{
  ChangeOps, desired_team, validate_quotas, validate_team_state, validate_desired_state,
  check_supported, check_envelope, check_names, validate_request,
}
use steadystate.Platform.Files.{
  Repository, FileChange, create, update, split_path, catalog_path, leaf_file, check_leaf,
  check_parts, validate_change_path, record_change, changed, set_file,
}
use steadystate.Platform.Manifests.{write_leaf, write_team, approved_document}
use steadystate.Platform.Operations.{create_team}
use steadystate.Platform.Services.{no_parameters}
use steadystate.Platform.Render.{
  Codec, ChangeSet, hashed, request_digest, load_catalog, render, change_set, render_change,
}
use steadystate.Platform.Apply.{Disk, apply_changes, apply_change_set}
use steadystate.Platform.Laws.Paths.{AllOnce}
use steadystate.Platform.Laws.Applied.{IsApplied, render_change-IsApplied}
use steadystate.Platform.Laws.Guarded.{IsGuarded, apply_changes-IsGuarded}
use steadystate.Platform.Laws.Places.{Place}
use steadystate.Platform.Laws.Rendered.{render_change-IsPlaced}
use steadystate.Platform.Laws.Accepted.{IsAccepted, validate_request-IsAccepted}
use steadystate.Platform.Laws.Approved.{IsReleased, approved-IsReleased}

abbrev change_ops : ChangeOps
change_ops = record {
  teams = team_ops;
  floats = numbers;
  databases = database_ops;
  quantities = quantities;
  is_uuid = λ s. true;
  must_parse = λ s. s;
  parse_time = λ s. some true;
}

-- The creation of the Team `blog`.
abbrev blog : ChangeRequest
blog = record {
  api_version = bytes "cli.steadystate.dev/v1alpha1";
  kind = bytes "ChangeRequest";
  schema_version = bytes "v1alpha1";
  request_id = bytes "r7";
  base_sha = bytes "0123456789abcdef0123456789abcdef01234567";
  renderer_version = bytes "v0.8.0";
  operation = team_create;
  parameters = record no_parameters {
    name = bytes "blog";
    owners = bytes "ana" ∷ [];
    allowed_repositories = bytes "ghcr.io/blog/*" ∷ [];
    cpu_quota = bytes "2";
    memory_quota = bytes "4";
  };
}

blog-accepted : validate_request change_ops blog ≡ none
unfolding bytes bytes_eq valid_name is_dns_label is_object_id contains contains_space
    repository_matches path_match validate validate_owners validate_repositories desired_team
    validate_quotas validate_team_state validate_desired_state check_supported check_envelope
    check_names validate_request
blog-accepted = refl

-- The recovery of the Database `orders` to a time in UTC.
abbrev recovery : ChangeRequest
recovery = record blog {
  operation = database_restore;
  parameters = record no_parameters {
    team = bytes "shop";
    name = bytes "orders";
    instances = pos 1;
    storage_size = bytes "5";
    backup_schedule = bytes "0 0 2 * * *";
    backup_retention = bytes "7d";
    source_server_name = bytes "old";
    target_time = bytes "2026-01-01T00:00:00Z";
  };
}

recovery-accepted : validate_request change_ops recovery ≡ none
unfolding bytes bytes_eq valid_name is_dns_label is_object_id contains contains_space is_blank
    fields space_length validate_database retention_matches desired_database validate_recovered
    validate_target validate_recovery validate_database_state validate_desired_state check_supported
    check_envelope check_names validate_request size_refused validate_cron check_recovery
    database_source_revision get_or_empty lookup
recovery-accepted = refl

validate_request-IsAccepted_example : IsAccepted change_ops recovery
validate_request-IsAccepted_example =
    validate_request-IsAccepted change_ops recovery recovery-accepted

-- The catalog is there, and no file of the Team.
abbrev with_catalog : Repository
with_catalog = record {
  read = λ path.
      if bytes_eq path (bytes "gitops/clusters/local/catalog/tenants.yaml")
      then found (bytes "before")
      else missing;
  entries = λ path. ok [];
  walk = λ path. ok [];
}

abbrev codec : Codec
codec = record {
  read_catalog = λ s. ok shop_catalog;
  write_catalog = λ c. ok (bytes "after");
  json = λ r. ok (bytes "request");
  sha = sums;
}

abbrev blog_change : Bytes → Bytes → FileChange
blog_change path content = record { path = path; action = create; content = content; before = [] }

abbrev blog_set : ChangeSet
blog_set = record {
  request_id = bytes "r7";
  operation = team_create;
  proposal_digest = bytes "sha256:" ++ hex (sums.sum []);
  render_digest = bytes "sha256:" ++ hex (sums.sum []);
  files =
      record {
        path = bytes "gitops/clusters/local/catalog/tenants.yaml";
        action = update;
        content = bytes "after";
        before = bytes "before";
      }
      ∷ blog_change (bytes "gitops/teams/blog/kustomization.yaml") (
          bytes
            "apiVersion: kustomize.config.k8s.io/v1beta1\nkind: Kustomization\nresources:\n  - team.yaml\n")
      ∷ blog_change (bytes "gitops/teams/blog/team.yaml") (bytes "document")
      ∷ [];
}

blog-rendered :
    render_change tools with_catalog service_files checks change_ops codec blog ≡ ok blog_set
unfolding bytes bytes_eq bytes_lt contains has_prefix is_blank valid_name is_dns_label
    validate_catalog check_tenants check_tenant check_team check_owners check_databases
    check_database check_applications check_application check_services check_reference
    validate_lifecycle require_directory split_path catalog_path leaf_file check_leaf check_parts
    validate_change_path record_change changed set_file ◌>>=◌ ◌>>◌ find_named sort_named write_leaf
    write_team create_team hashed request_digest load_catalog render change_set render_change
    is_object_id contains_space repository_matches path_match validate validate_owners
    validate_repositories desired_team validate_quotas validate_team_state validate_desired_state
    check_supported check_envelope check_names validate_request
blog-rendered = refl

render_change-IsPlaced_example : All (λ c. Place c.path) blog_set.files
render_change-IsPlaced_example =
    render_change-IsPlaced tools with_catalog service_files checks change_ops codec blog blog_set
      blog-rendered

-- A manifest that Argo CD does not prune.
abbrev protected : Fields
protected = field (bytes "kind") (text (bytes "Team")) (
    field (bytes "metadata")
      (mapping (
        field (bytes "annotations")
          (mapping
            (field (bytes "argocd.argoproj.io/sync-options") (text (bytes "Prune=false")) end))
          end))
      end)

approved-IsReleased_example :
    IsReleased (bytes "r7") protected (approved_document (bytes "r7") true protected)
approved-IsReleased_example = approved-IsReleased (bytes "r7") true protected

-- No call of the file system fails.
abbrev sound_disk : Disk
sound_disk = record {
  make_parent = λ path. none;
  write = λ path content. none;
  torn = λ path content. missing;
  remove = λ path. none;
}

render_change-IsApplied_example :
    IsApplied blog_set.files with_catalog.read
      (apply_change_set (λ path. path) sound_disk blog_set with_catalog.read)
render_change-IsApplied_example =
    render_change-IsApplied tools with_catalog service_files checks change_ops codec blog blog_set
      sound_disk blog-rendered
      (record { parents = λ path. refl; writes = λ path content. refl; removals = λ path. refl })

-- The disk is full, and what is written is lost.
abbrev full_disk : Disk
full_disk = record sound_disk { write = λ path content. some (bytes "no space left on device") }

blog-Once : AllOnce (λ c. Unit) blog_set.files
unfolding bytes bytes_eq
blog-Once = (tt, (refl, (refl, tt)), (tt, (refl, tt), (tt, tt, tt)))

apply_changes-IsGuarded_example :
    IsGuarded
      (λ path. path)
      blog_set.files
      with_catalog.read
      (apply_changes (λ path. path) full_disk blog_set.files with_catalog.read)
apply_changes-IsGuarded_example =
    apply_changes-IsGuarded (λ path. path) full_disk blog_set.files with_catalog.read blog-Once
