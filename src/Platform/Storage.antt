-- ===== src/Platform/Storage.antt =====
-- internal/platformctl/render.go: writeDatabase.
use steadystate.Prelude.{
  Bytes, bytes, Bool, true, Option, none, some, [], ◌∷◌, ◌++◌, if◌then◌else◌, Result, ok, err,
}
use steadystate.Prelude.Int.{pos, ltb_ℤ}
use steadystate.Api.Numbers.{Quantity, QuantityOps}
use steadystate.Reconcile.Cluster.{Answer, missing, failed, found}
use steadystate.Platform.Errors.{Error, exit, usage, external, ◌>>=◌, ◌>>◌}
use steadystate.Platform.Value.{Value, text, number, flag, mapping, Fields, end, get}
use steadystate.Platform.Request.{ChangeParameters, Operation, database_restore, database_update}
use steadystate.Platform.Files.{Repository, validate_change_path}
use steadystate.Platform.Catalog.Validation.{is_empty}
use steadystate.Platform.Manifests.{
  Changes, Tools, metadata, nested_map, write_leaf, database_path, database_manifest_path, document,
  one, word,
}

-- `recovery["targetTime"]` is set where the parameter is.
unfoldable pub requested_recovery : ChangeParameters → Fields
requested_recovery p =
    let source = one "sourceServerName" (text p.source_server_name) end in
    if is_empty p.target_time then source else one "targetTime" (text p.target_time) source

-- The recovery of the manifest that is there.
unfoldable pub kept_recovery : Fields → Option Fields
kept_recovery spec = nested_map (bytes "recovery") spec

abbrev nested_or_empty : Bytes → Option Fields → Fields
nested_or_empty k none = end
nested_or_empty k (some m) = elim (nested_map k m) [ none ↦ end | some v ↦ v ]

-- The storage class that is there and is not empty, else "local-path".
unfoldable pub class_of : Option Value → Bytes
class_of (some (text class)) = if is_empty class then bytes "local-path" else class
class_of _ = bytes "local-path"

-- `oldErr != nil || newErr != nil || newQuantity.Cmp(oldQuantity) < 0`.
unfoldable pub shrinks : QuantityOps → Option Quantity → Option Quantity → Bool
shrinks q (some old) (some new) = ltb_ℤ (q.cmp new old) (pos 0)
shrinks q _ _ = true

unfoldable pub check_size : QuantityOps → Option Value → Bytes → Option Error
unfolding shrinks
check_size q (some (text current)) requested =
    if shrinks q (q.parse current) (q.parse requested)
    then some (
        exit usage (record {
          format = "Database storage size may only increase from %s";
          args = current ∷ [];
        }))
    else none
check_size q _ requested = none

-- The storage class to write, of the storage that is there.
unfoldable pub checked_class : QuantityOps → Option Fields → Bytes → Result Error Bytes
unfolding check_size class_of
checked_class q none requested = ok (bytes "local-path")
checked_class q (some storage) requested =
    check_size q (get (bytes "size") storage) requested
    >> ok (class_of (get (bytes "storageClassName") storage))

-- The document that writeDatabase writes.
unfoldable pub database_document : Bytes → ChangeParameters → Bytes → Option Fields → Value
unfolding metadata
database_document team p class recovery =
    let base = one "engine" (word "postgres") (
      one "instances" (number p.instances) (
        one "storage"
          (mapping (one "size" (text p.storage_size) (one "storageClassName" (text class) end)))
          (one "backups"
            (mapping (
              one "enabled" (flag true) (
                one "schedule" (text p.backup_schedule)
                  (one "retention" (text p.backup_retention) end))))
            end))) in
    document "Database" (metadata p.name (bytes "team-" ++ team) (bytes "0"))
      (mapping (elim recovery [ none ↦ base | some r ↦ one "recovery" (mapping r) base ]))

module _ (tools : Tools) (repository : Repository) where
  -- ReadFile, whose error is returned as it is.
  unfoldable pub read_existing : Answer Bytes → Result Error Bytes
  read_existing (found b) = ok b
  read_existing missing = err (external (bytes "file does not exist"))
  read_existing (failed e) = err (external e)

  -- What a database.update takes over from the manifest that is there: the storage class and the
  -- recovery.
  unfoldable pub taken_over : ChangeParameters → Result Error (Bytes × Option Fields)
  taken_over p =
      validate_change_path tools.clean (database_manifest_path p.name)
      >> read_existing (repository.read (database_manifest_path p.name))
      >>= tools.yaml.unmarshal
      >>= λ existing.
          let spec = nested_or_empty (bytes "spec") existing in
          checked_class tools.quantities (nested_map (bytes "storage") spec) p.storage_size
          >>= λ class. ok (class, kept_recovery spec)

  unfoldable pub details : Operation → ChangeParameters → Result Error (Bytes × Option Fields)
  unfolding requested_recovery taken_over
  details database_restore p = ok (bytes "local-path", some (requested_recovery p))
  details database_update p = taken_over p
  details _ p = ok (bytes "local-path", none)

  -- writeDatabase.
  unfoldable pub write_database :
      Operation → Bytes → ChangeParameters → Changes → Result Error Changes
  write_database operation team p changes = details operation p >>= λ (class, recovery).
      write_leaf tools repository (database_path p.name) "database.yaml"
        (database_document team p class recovery) changes
