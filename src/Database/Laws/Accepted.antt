-- ===== src/Database/Laws/Accepted.antt =====
-- What the validation of Databases accepts.
use steadystate.Prelude.{
  Bytes, bytes, bytes_eq, bytes_eq_iff, get_or_empty, Bool, true, false, ◌≡◌, refl, ◌↔◌, ◌⊎◌, inl,
  inr, Option, none, some, List, [], arith, length, Option-cases, Bool-cases,
}
use steadystate.Prelude.Int.{pos, ◌≤ℤ◌}
use steadystate.Prelude.Text.{is_blank, fields}
use steadystate.Api.Numbers.{Quantity}
use steadystate.Provenance.Digest.{is_object_id}
use steadystate.Database.Validation.{
  Recovery, DatabaseSpec, DatabaseOps, database_source_revision, validate_cron, size_refused,
  check_recovery, validate_database, check_revision,
}
use steadystate.Database.Laws.Retention.{IsRetention, retention_matches_iff}

-- A recovery that names the server that it reads from, with a target in UTC if it has one, of a
-- Database that is backed up.
abbrev pub Recovers : Bool → Recovery → Type 0
Recovers enabled r =
    (enabled ≡ true)
    × (is_blank r.source_server_name ≡ false)
    × ((r.target_in_utc ≡ none) ⊎ (r.target_in_utc ≡ some true))

-- What is asked of a Database, with no order among the demands.
pub record IsValidDatabase (ops : DatabaseOps) (spec : DatabaseSpec)
    (annotations : List (Bytes × Bytes)) : Type 0 where
  pub engine : spec.engine ≡ bytes "postgres"
  pub at_least_one : pos 1 ≤ℤ spec.instances
  pub at_most_three : spec.instances ≤ℤ pos 3
  pub size :
      (q : Quantity) × (ops.quantities.parse spec.storage_size ≡ some q)
      × (pos 0 ≤ℤ ops.quantities.cmp q ops.one_gibibyte)
  pub six_fields : length (fields spec.backups.schedule) ≡ 6
  pub schedule : ops.cron_error spec.backups.schedule ≡ none
  pub retention : IsRetention spec.backups.retention
  pub recovery :
      (spec.recovery ≡ none)
      ⊎ ((r : Recovery) × (spec.recovery ≡ some r) × Recovers spec.backups.enabled r)
  pub revision :
      let named = get_or_empty (bytes "steadystate.dev/source-revision") annotations in
      (named ≡ []) ⊎ (is_object_id named ≡ true)

module _ (ops : DatabaseOps) (spec : DatabaseSpec) (annotations : List (Bytes × Bytes)) where
  size_iff : (size_refused ops spec.storage_size ≡ false) ↔ (
      (q : Quantity) × (ops.quantities.parse spec.storage_size ≡ some q)
      × (pos 0 ≤ℤ ops.quantities.cmp q ops.one_gibibyte))
  unfolding size_refused
  size_iff = (
    λ h. elim (Option-cases (ops.quantities.parse spec.storage_size)) [
      | inl e ↦ absurd (ground arith)
      | inr (q, e) ↦ (q, e, ground arith)
    ],
    λ (q, e, m). ground arith,
  )

  cron_iff :
      (schedule : Bytes)
      → (validate_cron ops schedule ≡ none)
        ↔ ((length (fields schedule) ≡ 6) × (ops.cron_error schedule ≡ none))
  unfolding validate_cron
  cron_iff schedule = (λ h. ground arith, λ (a, b). ground arith)

  recovery_sound :
      (enabled : Bool) (recovery : Option Recovery)
      → check_recovery ops enabled recovery ≡ none
      → (recovery ≡ none) ⊎ ((r : Recovery) × (recovery ≡ some r) × Recovers enabled r)
  unfolding check_recovery
  recovery_sound enabled none h = inl refl
  recovery_sound enabled (some r) h = inr (
    r,
    refl,
    (
      ground arith,
      ground arith,
      elim (Option-cases r.target_in_utc) [
        | inl e ↦ inl e
        | inr (true, e) ↦ inr e
        | inr (false, e) ↦ absurd (ground arith)
      ],
    ),
  )

  recovery_complete :
      (enabled : Bool) (recovery : Option Recovery)
      → (recovery ≡ none) ⊎ ((r : Recovery) × (recovery ≡ some r) × Recovers enabled r)
      → check_recovery ops enabled recovery ≡ none
  unfolding check_recovery
  recovery_complete enabled recovery (inl e) = ground arith
  recovery_complete enabled recovery (inr (r, e, (a, b, inl c))) = ground arith
  recovery_complete enabled recovery (inr (r, e, (a, b, inr c))) = ground arith

  abbrev named : Bytes
  named = get_or_empty (bytes "steadystate.dev/source-revision") annotations

  revision_iff :
      (check_revision ops annotations ≡ none) ↔ ((named ≡ []) ⊎ (is_object_id named ≡ true))
  unfolding database_source_revision
  revision_iff = (
    λ h. elim (Bool-cases (bytes_eq named [])) [
      | inl e ↦ inl ((bytes_eq_iff named []).0 e)
      | inr e ↦ elim (Bool-cases (is_object_id named)) [
        | inl f ↦ inr f
        | inr f ↦ absurd (ground arith)
      ]
    ],
    λ h. elim h [ inl e ↦ ground (arith, (bytes_eq_iff named []).1 e) | inr f ↦ ground arith ],
  )

  database_sound :
      validate_database ops spec annotations ≡ none → IsValidDatabase ops spec annotations
  unfolding validate_database
  database_sound h =
      let (six, cron) = (cron_iff spec.backups.schedule).0 (ground arith) in
      record {
        engine = (bytes_eq_iff _ _).0 (ground arith);
        at_least_one = ground arith;
        at_most_three = ground arith;
        size = size_iff.0 (ground arith);
        six_fields = six;
        schedule = cron;
        retention = (retention_matches_iff _).0 (ground arith);
        recovery = recovery_sound spec.backups.enabled spec.recovery (ground arith);
        revision = revision_iff.0 (ground arith);
      }

  database_complete :
      IsValidDatabase ops spec annotations → validate_database ops spec annotations ≡ none
  unfolding validate_database
  database_complete v = ground (
    arith,
    (bytes_eq_iff spec.engine (bytes "postgres")).1 v.engine,
    size_iff.1 v.size,
    (cron_iff spec.backups.schedule).1 (v.six_fields, v.schedule),
    (retention_matches_iff spec.backups.retention).1 v.retention,
    recovery_complete spec.backups.enabled spec.recovery v.recovery,
    revision_iff.1 v.revision,
  )

  -- Validate accepts a Database exactly when its engine is postgres, it has one to three instances
  -- and a storage of at least 1Gi, its schedule has six fields and is a cron expression, its
  -- retention is well formed, it recovers from a named server, in UTC and only with backups on, if
  -- it recovers at all, and its source revision is absent or a full object ID.
  pub validate_database_iff :
      (validate_database ops spec annotations ≡ none) ↔ IsValidDatabase ops spec annotations
  validate_database_iff = (database_sound, database_complete)
