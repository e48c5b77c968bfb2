-- ===== src/Database/Messages.antt =====
-- The texts of the errors of internal/database/validation.go.
use steadystate.Prelude.{[], ◌∷◌}
use steadystate.Api.Conditions.{Message}
use steadystate.Status.Set.{plain}
use steadystate.Database.Validation.{InvalidDatabase}

unfoldable pub database_message : InvalidDatabase → Message
database_message InvalidDatabase.engine_unknown = plain "engine must be postgres"
database_message InvalidDatabase.instances_range = plain "instances must be between 1 and 3"
database_message InvalidDatabase.storage_size =
    plain "storage size must be a quantity of at least 1Gi"
database_message InvalidDatabase.six_fields =
    plain "backup schedule must contain exactly six cron fields including seconds"
database_message (InvalidDatabase.schedule_invalid e) = record {
  format = "backup schedule is invalid: %w";
  args = e ∷ [];
}
database_message InvalidDatabase.retention_format =
    plain "backup retention must match <positive integer><d|w|m>"
database_message InvalidDatabase.recovery_without_backups =
    plain "recovery requires backups to be enabled"
database_message InvalidDatabase.source_server_empty =
    plain "recovery sourceServerName must not be empty"
database_message InvalidDatabase.target_not_utc = plain "recovery targetTime must be RFC3339 UTC"
database_message InvalidDatabase.source_revision =
    plain "source revision must be a full lowercase SHA-1 or SHA-256 Git object ID"
