-- ===== src/Platform/Apply.antt =====
-- internal/platformctl/render.go: ApplyChangeSet. Its last loop removes directories that are left empty,
-- which changes no file; errors of that are ignored.
use steadystate.Prelude.{
  Bytes, bytes_eq, Bool, true, false, not, Option, none, some, List, [], ◌∷◌, if◌then◌else◌,
}
use steadystate.Reconcile.Cluster.{Answer, missing, failed, found}
use steadystate.Platform.Errors.{Error, exit, conflict, external, ◌<|◌}
use steadystate.Platform.Files.{FileChange, Action, create, update, delete, validate_change_path}
use steadystate.Platform.Render.{ChangeSet}

-- What ReadFile answers below the root, at a point of time.
abbrev pub Store : Type 0
Store = Bytes → Answer Bytes

-- The errors of MkdirAll of a path's directory, of WriteFile and of Remove, and what a file holds
-- behind a WriteFile that failed.
pub record Disk : Type 0 where
  pub make_parent : Bytes → Option Bytes
  pub write : Bytes → Bytes → Option Bytes
  pub torn : Bytes → Bytes → Answer Bytes
  pub remove : Bytes → Option Bytes

unfoldable pub put_file : Bytes → Answer Bytes → Store → Store
put_file path answer store q = if bytes_eq path q then answer else store q

abbrev target_changed : Bytes → Answer Bytes → Bool
target_changed before (found current) = not (bytes_eq current before)
target_changed before missing = true
target_changed before (failed e) = true

abbrev changed_if : Bool → Bytes → Option Error
changed_if true path =
    some (exit conflict (record { format = "target %s changed after rendering"; args = path ∷ [] }))
changed_if false path = none

-- The target is still as it was when the change was rendered.
unfoldable pub check_target : Action → Bytes → Bytes → Answer Bytes → Option Error
check_target create path before missing = none
check_target create path before (found current) = some (
    exit conflict
      (record { format = "create target %s changed after rendering"; args = path ∷ [] }))
check_target create path before (failed e) = some (
    exit conflict
      (record { format = "create target %s changed after rendering"; args = path ∷ [] }))
check_target update path before answer = changed_if (target_changed before answer) path
check_target delete path before answer = changed_if (target_changed before answer) path

module _ (clean : Bytes → Bytes) (disk : Disk) where
  unfoldable pub write_file : Bytes → Bytes → Store → Store × Option Error
  unfolding put_file
  write_file path content store = elim (disk.make_parent path) [
    | some e ↦ (store, some (external e))
    | none ↦ elim (disk.write path content) [
      | some e ↦ (put_file path (disk.torn path content) store, some (external e))
      | none ↦ (put_file path (found content) store, none)
    ]
  ]

  unfoldable pub delete_file : Bytes → Store → Store × Option Error
  unfolding put_file
  delete_file path store = elim (disk.remove path) [
    | some e ↦ (store, some (external e))
    | none ↦ (put_file path missing store, none)
  ]

  unfoldable pub perform : Action → FileChange → Store → Store × Option Error
  unfolding write_file delete_file
  perform create c store = write_file c.path c.content store
  perform update c store = write_file c.path c.content store
  perform delete c store = delete_file c.path store

  -- The body of the loop.
  unfoldable pub apply_change : FileChange → Store → Store × Option Error
  unfolding perform check_target
  apply_change c store =
      elim (validate_change_path clean c.path
        <| check_target c.action c.path c.before (store c.path)) [
          | some e ↦ (store, some e)
          | none ↦ perform c.action c store
        ]

  abbrev pub and_then : Store × Option Error → (Store → Store × Option Error) → Store × Option Error
  and_then (store, some e) next = (store, some e)
  and_then (store, none) next = next store

  unfoldable pub apply_changes : List FileChange → Store → Store × Option Error
  unfolding apply_change
  apply_changes [] store = (store, none)
  apply_changes (c ∷ cs) store = and_then (apply_change c store) (apply_changes cs)

  -- ApplyChangeSet: the files behind it, and its error.
  unfoldable pub apply_change_set : ChangeSet → Store → Store × Option Error
  unfolding apply_changes
  apply_change_set set store = apply_changes set.files store
