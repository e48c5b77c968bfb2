-- ===== src/Database/Validation.antt =====
-- internal/database/validation.go. A `nil` error is `none`.
use steadystate.Prelude.{
  ℕ, ◌==◌, Bytes, bytes, bytes_eq, get_or_empty, Bool, true, false, not, ◌&&◌, ◌||◌, Option, none,
  some, List, [], ◌∷◌, leb, length, if◌then◌else◌, Result, ok, err,
}
use steadystate.Prelude.Int.{ℤ, pos, ltb_ℤ}
use steadystate.Prelude.Text.{is_blank, fields}
use steadystate.Api.Numbers.{QuantityOps}
use steadystate.Provenance.Digest.{is_object_id}

pub record Backups : Type 0 where
  pub enabled : Bool
  pub schedule : Bytes
  pub retention : Bytes

-- Of the target time, what the code reads: whether its Location is time.UTC. The other test compares
-- the formatted time with itself.
pub record Recovery : Type 0 where
  pub source_server_name : Bytes
  pub target_in_utc : Option Bool

pub record DatabaseSpec : Type 0 where
  pub engine : Bytes
  pub instances : ℤ
  pub storage_size : Bytes
  pub backups : Backups
  pub recovery : Option Recovery

-- The library calls: resource.ParseQuantity, the quantity "1Gi" of resource.MustParse, and the
-- parser of github.com/robfig/cron, which returns an error text or nil.
pub record DatabaseOps : Type 0 where
  pub quantities : QuantityOps
  pub one_gibibyte : Bytes
  pub cron_error : Bytes → Option Bytes

-- The errors of `Validate`, in the order of the code.
pub data InvalidDatabase : Type 0 where
  engine_unknown instances_range storage_size six_fields : InvalidDatabase
  schedule_invalid : Bytes → InvalidDatabase
  retention_format recovery_without_backups source_server_empty target_not_utc : InvalidDatabase
  source_revision : InvalidDatabase

abbrev pub is_digit : ℕ → Bool
is_digit c = leb b'0' c && leb c b'9'

abbrev pub is_unit : ℕ → Bool
is_unit c = c == b'd' || c == b'w' || c == b'm'

-- `[0-9]*[dwm]$`.
unfoldable pub digits_and_unit : Bytes → Bool
digits_and_unit [] = false
digits_and_unit (c ∷ []) = is_unit c
digits_and_unit (c ∷ d ∷ s) = is_digit c && digits_and_unit (d ∷ s)

-- retentionPattern, `^[1-9][0-9]*[dwm]$`.
unfoldable pub retention_matches : Bytes → Bool
unfolding digits_and_unit
retention_matches [] = false
retention_matches (c ∷ s) = leb b'1' c && leb c b'9' && digits_and_unit s

-- ResolvedSourceRevision.
unfoldable pub database_source_revision : List (Bytes × Bytes) → Result InvalidDatabase Bytes
database_source_revision annotations =
    let revision = get_or_empty (bytes "steadystate.dev/source-revision") annotations in
    if not (bytes_eq revision []) && not (is_object_id revision)
    then err source_revision
    else ok revision

module _ (ops : DatabaseOps) where
  -- validateCron.
  unfoldable pub validate_cron : Bytes → Option InvalidDatabase
  validate_cron schedule =
      if not (length (fields schedule) == 6)
      then some six_fields
      else elim (ops.cron_error schedule) [ some e ↦ some (schedule_invalid e) | none ↦ none ]

  -- `err != nil || size.Cmp(1Gi) < 0`.
  unfoldable pub size_refused : Bytes → Bool
  size_refused size = elim (ops.quantities.parse size) [
    | none ↦ true
    | some q ↦ ltb_ℤ (ops.quantities.cmp q ops.one_gibibyte) (pos 0)
  ]

  -- The tests on the recovery.
  unfoldable pub check_recovery : Bool → Option Recovery → Option InvalidDatabase
  check_recovery enabled none = none
  check_recovery enabled (some r) =
      if not enabled
      then some recovery_without_backups
      else if is_blank r.source_server_name
      then some source_server_empty
      else elim r.target_in_utc [
        | none ↦ none
        | some utc ↦ if not utc then some target_not_utc else none
      ]

  abbrev pub check_revision : List (Bytes × Bytes) → Option InvalidDatabase
  check_revision annotations = elim (database_source_revision annotations) [
    | err e ↦ some e
    | ok revision ↦ none
  ]

  -- Validate.
  unfoldable pub validate_database : DatabaseSpec → List (Bytes × Bytes) → Option InvalidDatabase
  validate_database spec annotations =
      if not (bytes_eq spec.engine (bytes "postgres"))
      then some engine_unknown
      else if ltb_ℤ spec.instances (pos 1) || ltb_ℤ (pos 3) spec.instances
      then some instances_range
      else if size_refused spec.storage_size
      then some storage_size
      else elim (validate_cron spec.backups.schedule) [
        | some e ↦ some e
        | none ↦
            if not (retention_matches spec.backups.retention)
            then some retention_format
            else elim (check_recovery spec.backups.enabled spec.recovery) [
              | some e ↦ some e
              | none ↦ check_revision annotations
            ]
      ]
