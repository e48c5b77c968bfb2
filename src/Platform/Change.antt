-- ===== src/Platform/Change.antt =====
-- internal/platformctl/change.go: ChangeRequest.Validate and validateDesiredState.
use steadystate.Prelude.{
  ◌==◌, Bytes, bytes, bytes_eq, equal_fold, String, Bool, true, false, not, ◌&&◌, ◌||◌, Option,
  none, some, List, [], ◌∷◌, any, if◌then◌else◌,
}
use steadystate.Prelude.Int.{ℤ, pos, ltb_ℤ}
use steadystate.Api.Numbers.{Quantity, QuantityOps, FloatOps}
use steadystate.Api.Team.{Team}
use steadystate.Api.Application.{Application, unset, canary}
use steadystate.Provenance.Digest.{is_object_id}
use steadystate.Application.Validation
use steadystate.Team
use steadystate.Team.{TeamOps}
use steadystate.Database.Validation.{DatabaseSpec, DatabaseOps, Recovery, validate_database}
use steadystate.Platform.Errors.{Error, Exit, exit, usage, conflict, ◌<|◌}
use steadystate.Platform.Catalog.Patterns.{valid_name, is_version}
use steadystate.Platform.Catalog.Validation.{is_empty}
use steadystate.Platform.Request.{
  Operation, team_create, team_update, team_delete, team_finalize, app_create, app_update,
  app_finalize, database_create, database_update, database_restore, database_finalize,
  service_scaffold, service_activate, service_retire, service_finalize, unsupported,
  ChangeParameters, ChangeRequest,
}

-- The library calls: those of the three validations, uuid.Parse, resource.MustParse, and time.Parse of
-- RFC 3339, which tells whether the Location is time.UTC.
pub record ChangeOps : Type 0 where
  pub teams : TeamOps
  pub floats : FloatOps
  pub databases : DatabaseOps
  pub quantities : QuantityOps
  pub is_uuid : Bytes → Bool
  pub must_parse : Bytes → Quantity
  pub parse_time : Bytes → Option Bool

-- strings.HasPrefix(operation, "team."), for the operations that are allowed.
abbrev pub of_team : Operation → Bool
of_team team_create = true
of_team team_update = true
of_team team_delete = true
of_team team_finalize = true
of_team _ = false

abbrev pub of_service : Operation → Bool
of_service service_scaffold = true
of_service service_activate = true
of_service service_retire = true
of_service service_finalize = true
of_service _ = false

-- strings.HasSuffix(operation, ".finalize").
abbrev pub finalizes : Operation → Bool
finalizes team_finalize = true
finalizes app_finalize = true
finalizes database_finalize = true
finalizes service_finalize = true
finalizes _ = false

abbrev pub bool_eq : Bool → Bool → Bool
bool_eq true b = b
bool_eq false b = not b

abbrev refused : Bool → Exit → String → List Bytes → Option Error
refused true code format args = some (exit code (record { format = format; args = args }))
refused false code format args = none

abbrev invalid : String → Option Error
invalid format = some (exit usage (record { format = format; args = [] }))

abbrev no_texts : List Bytes → Bool
no_texts [] = true
no_texts (x ∷ xs) = false

-- strings.ContainsAny(s, "@ \t\r\n").
abbrev pub has_at_or_space : Bytes → Bool
has_at_or_space = any (λ c. c == b'@' || c == b' ' || c == b'\t' || c == b'\r' || c == b'\n')

module _ (ops : ChangeOps) where
  -- The Team of validateDesiredState.
  unfoldable pub desired_team : ChangeParameters → Quantity → Quantity → Team
  desired_team p cpu memory = record {
    name = p.name;
    uid = [];
    generation = 0;
    deleting = false;
    finalizer = false;
    annotations = [];
    spec = record {
      owners = p.owners;
      quota = record { cpu = cpu; memory = memory };
      allowed_repositories = p.allowed_repositories;
    };
    status = record { observed_generation = 0; namespace = []; conditions = [] };
  }

  unfoldable pub validate_quotas :
      ChangeParameters → Option Quantity → Option Quantity → Option Error
  unfolding desired_team
  validate_quotas p (some cpu) (some memory) =
      elim (Team.validate ops.teams (desired_team p cpu memory)) [
        | none ↦ none
        | some e ↦ invalid "invalid Team desired state: %v"
      ]
  validate_quotas p _ _ = invalid "Team quota values must be Kubernetes quantities"

  unfoldable pub validate_team_state : ChangeParameters → Option Error
  unfolding validate_quotas
  validate_team_state p =
      if no_texts p.owners
        || no_texts p.allowed_repositories
        || is_empty p.cpu_quota
        || is_empty p.memory_quota
      then invalid
          "Team desired state requires owners, allowed repositories, CPU quota, and memory quota"
      else validate_quotas p (ops.quantities.parse p.cpu_quota)
          (ops.quantities.parse p.memory_quota)

  -- 30 seconds, in nanoseconds.
  abbrev step_pause : ℤ
  step_pause = pos 30000000000

  -- The Application of validateDesiredState.
  unfoldable pub desired_application : ChangeParameters → Application
  desired_application p = record {
    name = [];
    namespace = [];
    generation = 0;
    deleting = false;
    finalizer = false;
    annotations = [];
    spec = record {
      owner = p.owner;
      image = record { repository = p.image_repository; tag = p.image_tag };
      runtime = record {
        port = p.port;
        replicas = record { min = p.min_replicas; max = p.max_replicas };
      };
      resources = record {
        requests = record {
          cpu = ops.must_parse (bytes "50m");
          memory = ops.must_parse (bytes "32Mi");
        };
        limits = record {
          cpu = ops.must_parse (bytes "200m");
          memory = ops.must_parse (bytes "128Mi");
        };
      };
      deployment = record {
        strategy = canary;
        steps =
            record { weight = pos 10; pause = step_pause }
            ∷ record { weight = pos 25; pause = step_pause }
            ∷ record { weight = pos 50; pause = step_pause }
            ∷ record { weight = pos 100; pause = step_pause }
            ∷ [];
        automatic_rollback = true;
      };
      reliability = record {
        availability_target = bytes "99.9%";
        maximum_p95_latency = pos 250000000;
        maximum_error_rate = bytes "1%";
      };
      observability = record { metrics = true; logs = true; traces = true };
      security = record {
        require_signed_image = true;
        run_as_non_root = true;
        network_isolation = true;
      };
      database_ref = none;
    };
    status = record {
      phase = unset;
      observed_generation = 0;
      active_version = [];
      candidate_version = [];
      resolved_image_digest = [];
      resolved_git_revision = [];
      conditions = [];
    };
  }

  unfoldable pub validate_application_state : ChangeParameters → Option Error
  unfolding desired_application
  validate_application_state p =
      if is_empty p.owner
        || is_empty p.image_repository
        || has_at_or_space p.image_repository
        || is_empty p.image_tag
        || equal_fold p.image_tag (bytes "latest")
      then invalid "Application desired state requires an owner and an explicit non-latest image"
      else elim (Validation.validate ops.floats ops.quantities (desired_application p)) [
        | none ↦ none
        | some e ↦ invalid "invalid Application desired state: %v"
      ]

  -- The Database of validateDesiredState.
  unfoldable pub desired_database : ChangeParameters → Option Recovery → DatabaseSpec
  desired_database p recovery = record {
    engine = bytes "postgres";
    instances = p.instances;
    storage_size = p.storage_size;
    backups = record {
      enabled = true;
      schedule = p.backup_schedule;
      retention = p.backup_retention;
    };
    recovery = recovery;
  }

  unfoldable pub validate_recovered : ChangeParameters → Option Recovery → Option Error
  unfolding desired_database
  validate_recovered p recovery =
      elim (validate_database ops.databases (desired_database p recovery) []) [
        | none ↦ none
        | some e ↦ invalid "invalid Database desired state: %v"
      ]

  abbrev pub source : ChangeParameters → Option Bool → Option Recovery
  source p utc = some (record { source_server_name = p.source_server_name; target_in_utc = utc })

  -- The target time, as time.Parse read it.
  unfoldable pub validate_target : ChangeParameters → Option Bool → Option Error
  validate_target p (some true) = validate_recovered p (source p (some true))
  validate_target p (some false) = invalid "recovery target time must be RFC3339 UTC"
  validate_target p none = invalid "recovery target time must be RFC3339 UTC"

  -- The recovery of a database.restore.
  unfoldable pub validate_recovery : ChangeParameters → Option Error
  unfolding validate_recovered
  validate_recovery p =
      if is_empty p.target_time
      then validate_recovered p (source p none)
      else validate_target p (ops.parse_time p.target_time)

  abbrev restores : Operation → Bool
  restores database_restore = true
  restores _ = false

  unfoldable pub validate_database_state : Operation → ChangeParameters → Option Error
  unfolding validate_recovery
  validate_database_state operation p =
      if ltb_ℤ p.instances (pos 1)
        || ltb_ℤ (pos 3) p.instances
        || is_empty p.storage_size
        || is_empty p.backup_schedule
        || is_empty p.backup_retention
      then invalid
          "Database desired state requires valid instances, storage, schedule, and retention"
      else if restores operation
      then validate_recovery p
      else validate_recovered p none

  -- validateDesiredState, for the operations that it is called for.
  unfoldable pub validate_desired_state : Operation → ChangeParameters → Option Error
  unfolding validate_team_state validate_application_state validate_database_state
  validate_desired_state team_create p = validate_team_state p
  validate_desired_state team_update p = validate_team_state p
  validate_desired_state app_create p = validate_application_state p
  validate_desired_state app_update p = validate_application_state p
  validate_desired_state database_create p = validate_database_state database_create p
  validate_desired_state database_update p = validate_database_state database_update p
  validate_desired_state database_restore p = validate_database_state database_restore p
  validate_desired_state _ p = none

  unfoldable pub check_supported : Operation → Option Error
  check_supported (unsupported operation) =
      some (exit usage (record { format = "unsupported operation %q"; args = operation ∷ [] }))
  check_supported _ = none

  abbrev service_template : Bytes → Bool
  service_template template =
      bytes_eq template (bytes "go-api")
      || bytes_eq template (bytes "react-static")
      || bytes_eq template (bytes "full-stack")

  unfoldable pub check_scaffold : ChangeParameters → Option Error
  check_scaffold p =
      refused (not (service_template p.template)) usage
        "service template must be go-api, react-static, or full-stack" []
      <| refused (not (bytes_eq p.version (bytes "v0.1.0"))) usage
          "new services must begin at v0.1.0" []
      <| refused (p.with_database && not (bytes_eq p.template (bytes "full-stack"))) usage
          "--with-database is supported only by the full-stack template" []
      <| refused (p.create_team && not (bytes_eq p.team p.name)) usage
          "--create-team requires the derived Team name to match the service" []

  unfoldable pub check_service_operation : Operation → ChangeParameters → Option Error
  unfolding check_scaffold
  check_service_operation service_scaffold p = check_scaffold p
  check_service_operation service_activate p =
      refused (not (is_version p.version)) usage
        "service activation requires strict vMAJOR.MINOR.PATCH" []
  check_service_operation _ p = none

  unfoldable pub check_finalization : ChangeParameters → Option Error
  check_finalization p =
      refused (not (ops.is_uuid p.deletion_request)) usage
        "finalization requires the approval deletion-request UUID" []
      <| refused (not (is_object_id p.approval_revision)) usage
          "finalization requires the merged approval revision" []

  -- What precedes the operation's own checks.
  unfoldable pub check_envelope : ChangeRequest → Option Error
  unfolding check_supported
  check_envelope r =
      refused
        (not (bytes_eq r.api_version (bytes "cli.steadystate.dev/v1alpha1"))
          || not (bytes_eq r.kind (bytes "ChangeRequest"))
          || not (bytes_eq r.schema_version (bytes "v1alpha1")))
        usage "unsupported ChangeRequest schema; upgrade platformctl to match %s"
        (bytes "v1alpha1" ∷ [])
      <| refused (not (ops.is_uuid r.request_id)) usage "request ID must be a UUID" []
      <| refused (not (is_object_id r.base_sha)) usage
          "base SHA must be a full lowercase Git object ID" []
      <| refused (not (bytes_eq r.renderer_version (bytes "v0.8.0"))) conflict
          "renderer %q does not match %q" (r.renderer_version ∷ bytes "v0.8.0" ∷ [])
      <| check_supported r.operation

  unfoldable pub check_names : Operation → ChangeParameters → Option Error
  check_names operation p =
      refused (not (valid_name p.name 63) || (not (is_empty p.team) && not (valid_name p.team 58)))
        usage "resource and Team names must be valid DNS labels" []
      <| refused (of_team operation && not (is_empty p.team)) usage
          "Team operations use name, not team" []
      <| refused (not (of_team operation) && not (valid_name p.team 58)) usage
          "non-Team operations require a valid team" []

  -- Validate.
  unfoldable pub validate_request : ChangeRequest → Option Error
  unfolding check_names check_finalization check_service_operation
  validate_request r =
      check_envelope r
      <| check_names r.operation r.parameters
      <| (if finalizes r.operation then check_finalization r.parameters else none)
      <| refused (not (bool_eq r.parameters.force r.parameters.acknowledge_data_loss)) usage
          "force deletion requires both --force and --acknowledge-data-loss" []
      <| (if of_service r.operation
          then refused (not (valid_name r.parameters.name 48)) usage
              "service names must be DNS labels no longer than 48 characters" []
            <| check_service_operation r.operation r.parameters
          else none)
      <| validate_desired_state r.operation r.parameters
