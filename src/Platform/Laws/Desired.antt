-- ===== src/Platform/Laws/Desired.antt =====
-- What a request describes, where Validate accepts it.
use steadystate.Prelude.{
  bytes, bytes_eq_iff, ◌⊎◌, Bool, true, false, Option, none, some, ◌≡◌, refl, [], if◌then◌else◌,
  Bool-cases, inl, inr, arith,
}
use steadystate.Api.Numbers.{Quantity}
use steadystate.Application.Validation
use steadystate.Team
use steadystate.Api.Team.{Team}
use steadystate.Api.Application.{Application, canary}
use steadystate.Database.Validation.{Recovery, validate_database}
use steadystate.Platform.Catalog.Patterns.{is_version}
use steadystate.Platform.Catalog.Validation.{is_empty}
use steadystate.Platform.Request.{
  Operation, team_create, team_update, team_delete, team_finalize, app_create, app_update,
  app_delete, app_finalize, database_create, database_update, database_restore, database_delete,
  database_finalize, service_scaffold, service_activate, service_retire, service_finalize,
  unsupported, ChangeParameters,
}
use steadystate.Platform.Change.{
  check_supported, check_scaffold, check_service_operation, of_service, ChangeOps, desired_team,
  desired_application, desired_database, validate_quotas, validate_team_state,
  validate_application_state, validate_recovered, validate_target, validate_recovery, source,
  validate_database_state, validate_desired_state,
}

module _ (ops : ChangeOps) where
  -- The Team with the parameters' name, owners, quotas and repositories is one that the controller
  -- accepts.
  pub record TeamAccepted (p : ChangeParameters) : Type 0 where
    pub cpu : Quantity
    pub memory : Quantity
    pub cpu_parsed : ops.quantities.parse p.cpu_quota ≡ some cpu
    pub memory_parsed : ops.quantities.parse p.memory_quota ≡ some memory
    pub team : Team
    pub name : team.name ≡ p.name
    pub spec : team.spec ≡ record {
      owners = p.owners;
      quota = record { cpu = cpu; memory = memory };
      allowed_repositories = p.allowed_repositories;
    }
    pub valid : Team.validate ops.teams team ≡ none

  -- A canary Application with the parameters' owner, image, port and replicas is one that the
  -- controller accepts.
  pub record ApplicationAccepted (p : ChangeParameters) : Type 0 where
    pub application : Application
    pub owner : application.spec.owner ≡ p.owner
    pub image :
        application.spec.image ≡ record { repository = p.image_repository; tag = p.image_tag }
    pub runtime :
        application.spec.runtime
        ≡ record { port = p.port; replicas = record { min = p.min_replicas; max = p.max_replicas } }
    pub strategy : application.spec.deployment.strategy ≡ canary
    pub valid : Validation.validate ops.floats ops.quantities application ≡ none

  -- The Database with the parameters' instances, size and backups, and with that recovery, is one that
  -- the controller accepts.
  pub record DatabaseAccepted (recovery : Option Recovery) (p : ChangeParameters) : Type 0 where
    pub valid :
        validate_database ops.databases
          (record {
            engine = bytes "postgres";
            instances = p.instances;
            storage_size = p.storage_size;
            backups = record {
              enabled = true;
              schedule = p.backup_schedule;
              retention = p.backup_retention;
            };
            recovery = recovery;
          })
          []
        ≡ none

  -- The target time, if there is one, is in UTC, and the Database is accepted with the recovery from the
  -- parameters' server to it.
  pub record RestoreAccepted (p : ChangeParameters) : Type 0 where
    pub utc : is_empty p.target_time ≡ false → ops.parse_time p.target_time ≡ some true
    pub database :
        DatabaseAccepted
          (some (record {
            source_server_name = p.source_server_name;
            target_in_utc = if is_empty p.target_time then none else some true;
          }))
          p

  -- A new service has a known template and the first version; only a full stack has a Database, and a
  -- Team that is created has the service's name.
  pub record ScaffoldAccepted (p : ChangeParameters) : Type 0 where
    pub template :
        (p.template ≡ bytes "go-api")
        ⊎ (p.template ≡ bytes "react-static")
        ⊎ (p.template ≡ bytes "full-stack")
    pub version : p.version ≡ bytes "v0.1.0"
    pub database : p.with_database ≡ true → p.template ≡ bytes "full-stack"
    pub team : p.create_team ≡ true → p.team ≡ p.name

  -- What the operation is to write.
  abbrev pub Desired : Operation → ChangeParameters → Type 0
  Desired team_create p = TeamAccepted p
  Desired team_update p = TeamAccepted p
  Desired app_create p = ApplicationAccepted p
  Desired app_update p = ApplicationAccepted p
  Desired database_create p = DatabaseAccepted none p
  Desired database_update p = DatabaseAccepted none p
  Desired database_restore p = RestoreAccepted p
  Desired service_scaffold p = ScaffoldAccepted p
  Desired service_activate p = is_version p.version ≡ true
  Desired (unsupported operation) p = ⊥
  Desired _ p = Unit

  quotas-TeamAccepted :
      (p : ChangeParameters) (cpu memory : Option Quantity)
      → ops.quantities.parse p.cpu_quota ≡ cpu
      → ops.quantities.parse p.memory_quota ≡ memory
      → validate_quotas ops p cpu memory ≡ none
      → TeamAccepted p
  unfolding validate_quotas desired_team
  quotas-TeamAccepted p (some cpu) (some memory) c m h = record {
    cpu = cpu;
    memory = memory;
    cpu_parsed = c;
    memory_parsed = m;
    team = desired_team ops p cpu memory;
    name = refl;
    spec = refl;
    valid = ground arith;
  }
  quotas-TeamAccepted p (some cpu) none c m h = absurd (ground arith)
  quotas-TeamAccepted p none (some memory) c m h = absurd (ground arith)
  quotas-TeamAccepted p none none c m h = absurd (ground arith)

  team-TeamAccepted : (p : ChangeParameters) → validate_team_state ops p ≡ none → TeamAccepted p
  unfolding validate_team_state
  team-TeamAccepted p h = quotas-TeamAccepted p _ _ refl refl (ground arith)

  application_state-valid :
      (p : ChangeParameters)
      → validate_application_state ops p ≡ none
      → Validation.validate ops.floats ops.quantities (desired_application ops p) ≡ none
  unfolding validate_application_state
  application_state-valid p h = ground arith

  application-ApplicationAccepted :
      (p : ChangeParameters) → validate_application_state ops p ≡ none → ApplicationAccepted p
  unfolding desired_application
  application-ApplicationAccepted p h = record {
    application = desired_application ops p;
    owner = refl;
    image = refl;
    runtime = refl;
    strategy = refl;
    valid = application_state-valid p h;
  }

  recovered-valid :
      (p : ChangeParameters) (recovery : Option Recovery)
      → validate_recovered ops p recovery ≡ none
      → validate_database ops.databases (desired_database ops p recovery) [] ≡ none
  unfolding validate_recovered
  recovered-valid p recovery h = ground arith

  recovered-DatabaseAccepted :
      (p : ChangeParameters) (recovery : Option Recovery)
      → validate_recovered ops p recovery ≡ none
      → DatabaseAccepted recovery p
  unfolding desired_database
  recovered-DatabaseAccepted p recovery h = record { valid = recovered-valid p recovery h }

  -- Where there is a target time, it was read as UTC.
  target-utc :
      (p : ChangeParameters) (utc : Option Bool)
      → validate_target ops p utc ≡ none
      → (utc ≡ some true) × DatabaseAccepted (source ops p (some true)) p
  unfolding validate_target
  target-utc p (some true) h = (refl, recovered-DatabaseAccepted p (source ops p (some true)) h)
  target-utc p (some false) h = absurd (ground arith)
  target-utc p none h = absurd (ground arith)

  recovery-RestoreAccepted :
      (p : ChangeParameters) → validate_recovery ops p ≡ none → RestoreAccepted p
  unfolding validate_recovery
  recovery-RestoreAccepted p h = elim (Bool-cases (is_empty p.target_time)) [
    | inl e ↦ record {
      utc = λ f. absurd (ground arith);
      database = rw e (recovered-DatabaseAccepted p (source ops p none) (ground arith));
    }
    | inr e ↦
        let (utc, accepted) = target-utc p (ops.parse_time p.target_time) (ground arith) in
        record { utc = λ f. utc; database = rw e accepted }
  ]

  scaffold-ScaffoldAccepted :
      (p : ChangeParameters) → check_scaffold ops p ≡ none → ScaffoldAccepted p
  unfolding check_scaffold
  scaffold-ScaffoldAccepted p h = record {
    template = ground (
      arith,
      bytes_eq_iff p.template (bytes "go-api"),
      bytes_eq_iff p.template (bytes "react-static"),
      bytes_eq_iff p.template (bytes "full-stack"),
    );
    version = ground (arith, bytes_eq_iff p.version (bytes "v0.1.0"));
    database = λ w. ground (arith, bytes_eq_iff p.template (bytes "full-stack"));
    team = λ c. ground (arith, bytes_eq_iff p.team p.name);
  }

  activate-valid :
      (p : ChangeParameters)
      → check_service_operation ops service_activate p ≡ none
      → is_version p.version ≡ true
  unfolding check_service_operation
  activate-valid p h = ground arith

  pub desired-Desired :
      (operation : Operation) (p : ChangeParameters)
      → check_supported ops operation ≡ none
      → (of_service operation ≡ true → check_service_operation ops operation p ≡ none)
      → validate_desired_state ops operation p ≡ none
      → Desired operation p
  unfolding validate_desired_state validate_database_state check_supported check_service_operation
  desired-Desired team_create p u v h = team-TeamAccepted p h
  desired-Desired team_update p u v h = team-TeamAccepted p h
  desired-Desired app_create p u v h = application-ApplicationAccepted p h
  desired-Desired app_update p u v h = application-ApplicationAccepted p h
  desired-Desired database_create p u v h = recovered-DatabaseAccepted p none (ground arith)
  desired-Desired database_update p u v h = recovered-DatabaseAccepted p none (ground arith)
  desired-Desired database_restore p u v h = recovery-RestoreAccepted p (ground arith)
  desired-Desired service_scaffold p u v h = scaffold-ScaffoldAccepted p (v refl)
  desired-Desired service_activate p u v h = activate-valid p (v refl)
  desired-Desired team_delete p u v h = tt
  desired-Desired team_finalize p u v h = tt
  desired-Desired app_delete p u v h = tt
  desired-Desired app_finalize p u v h = tt
  desired-Desired database_delete p u v h = tt
  desired-Desired database_finalize p u v h = tt
  desired-Desired service_retire p u v h = tt
  desired-Desired service_finalize p u v h = tt
  desired-Desired (unsupported o) p u v h = absurd (ground arith)
