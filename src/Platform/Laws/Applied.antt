-- ===== src/Platform/Laws/Applied.antt =====
-- What the application of a change set does to the files.
use steadystate.Prelude.{
  Bytes, bytes_eq, bytes_eq_refl, false, Option, none, [], ◌∷◌, ◌≡◌, refl, ◌∙◌, arith, All, ok,
}
use steadystate.Reconcile.Cluster.{Answer, missing, found}
use steadystate.Platform.Errors.{Error}
use steadystate.Platform.Files.{
  Repository, FileChange, Action, create, update, delete, validate_change_path,
}
use steadystate.Platform.Manifests.{Changes, Tools}
use steadystate.Platform.Catalog.Validation.{Checks}
use steadystate.Platform.Request.{ChangeRequest}
use steadystate.Platform.Change.{ChangeOps}
use steadystate.Platform.Sources.{ServiceFiles}
use steadystate.Platform.Render.{Codec, ChangeSet, render_change}
use steadystate.Platform.Apply.{
  Store, Disk, put_file, check_target, write_file, delete_file, perform, apply_change,
  apply_changes, apply_change_set,
}
use steadystate.Platform.Laws.Paths.{IsAllowed, IsOther, AllOnce, expected}
use steadystate.Platform.Laws.Rendered.{IsOther-sym, All-mono, render_change-Allowed}

-- What a change leaves at its path.
abbrev pub outcome : FileChange → Answer Bytes
outcome c = elim c.action [ create ↦ found c.content | update ↦ found c.content | delete ↦ missing ]

-- The change may be made, and its file is as it was when it was rendered.
pub record IsReady (clean : Bytes → Bytes) (store : Store) (c : FileChange) : Type 0 where
  pub valid : validate_change_path clean c.path ≡ none
  pub fresh : store c.path ≡ expected c.action c.before

-- No directory, write or removal fails.
pub record IsSound (disk : Disk) : Type 0 where
  pub parents : (path : Bytes) → disk.make_parent path ≡ none
  pub writes : (path content : Bytes) → disk.write path content ≡ none
  pub removals : (path : Bytes) → disk.remove path ≡ none

-- All changes are made, and no other file is touched.
pub record IsApplied (files : Changes) (before : Store) (r : Store × Option Error) : Type 0 where
  pub succeeds : r.1 ≡ none
  pub made : All (λ c. r.0 c.path ≡ outcome c) files
  pub kept : (path : Bytes) → All (λ c. bytes_eq c.path path ≡ false) files → r.0 path ≡ before path

put_file-same : (path : Bytes) (a : Answer Bytes) (store : Store) → put_file path a store path ≡ a
unfolding put_file
put_file-same path a store = rw (bytes_eq_refl path)

pub put_file-other :
    (path q : Bytes) (a : Answer Bytes) (store : Store)
    → bytes_eq path q ≡ false
    → put_file path a store q ≡ store q
unfolding put_file
put_file-other path q a store e = rw e

allowed-IsReady :
    (clean : Bytes → Bytes) (repository : Repository) (cs : Changes)
    → AllOnce (IsAllowed clean repository) cs
    → AllOnce (IsReady clean repository.read) cs
allowed-IsReady clean repository [] h = tt
allowed-IsReady clean repository (c ∷ cs) h =
    (record { valid = h.0.valid; fresh = h.0.fresh }, h.1, allowed-IsReady clean repository cs h.2)

module _ (clean : Bytes → Bytes) (disk : Disk) where
  check_target-expected :
      (action : Action) (path before : Bytes)
      → check_target action path before (expected action before) ≡ none
  unfolding check_target
  check_target-expected create path before = refl
  check_target-expected update path before = rw (bytes_eq_refl before)
  check_target-expected delete path before = rw (bytes_eq_refl before)

  perform-outcome :
      (action : Action) (c : FileChange) (store : Store)
      → IsSound disk
      → c.action ≡ action
      → perform clean disk action c store ≡ (put_file c.path (outcome c) store, none)
  unfolding perform write_file delete_file
  perform-outcome create c store s e =
      ground (arith, e, s.parents c.path, s.writes c.path c.content)
  perform-outcome update c store s e =
      ground (arith, e, s.parents c.path, s.writes c.path c.content)
  perform-outcome delete c store s e = ground (arith, e, s.removals c.path)

  apply_change-outcome :
      (c : FileChange) (store : Store)
      → IsSound disk
      → IsReady clean store c
      → apply_change clean disk c store ≡ (put_file c.path (outcome c) store, none)
  unfolding apply_change
  apply_change-outcome c store s r =
      rw (apply_change, r.valid, r.fresh, check_target-expected c.action c.path c.before)
        (perform-outcome c.action c store s refl)

  IsReady-put :
      (c : FileChange) (a : Answer Bytes) (store : Store) (cs : Changes)
      → All (IsOther c) cs
      → AllOnce (IsReady clean store) cs
      → AllOnce (IsReady clean (put_file c.path a store)) cs
  IsReady-put c a store [] o h = tt
  IsReady-put c a store (d ∷ cs) o h = (
    record { valid = h.0.valid; fresh = put_file-other c.path d.path a store o.0 ∙ h.0.fresh },
    h.1,
    IsReady-put c a store cs o.1 h.2,
  )

  apply_changes-IsApplied :
      (cs : Changes) (store : Store)
      → IsSound disk
      → AllOnce (IsReady clean store) cs
      → IsApplied cs store (apply_changes clean disk cs store)
  unfolding apply_changes
  apply_changes-IsApplied [] store s h = record {
    succeeds = refl;
    made = tt;
    kept = λ path o. refl;
  }
  apply_changes-IsApplied (c ∷ cs) store s h =
      let next = put_file c.path (outcome c) store in
      let rest = apply_changes-IsApplied cs next s (IsReady-put c (outcome c) store cs h.1 h.2) in
      rw (apply_change-outcome c store s h.0) (record {
        succeeds = rest.succeeds;
        made = (
          rest.kept c.path (All-mono (IsOther c) _ (λ d. IsOther-sym c d) cs h.1)
              ∙ put_file-same c.path (outcome c) store,
          rest.made,
        );
        kept = λ path o. rest.kept path o.1 ∙ put_file-other c.path path (outcome c) store o.0;
      })

-- What RenderChange returns can be applied: where no call of the file system fails, ApplyChangeSet
-- succeeds on the repository that it was rendered from, each file of the change set has its new content
-- or is gone, and all other files are as before.
pub render_change-IsApplied :
    (tools : Tools) (repository : Repository) (service_files : ServiceFiles) (checks : Checks)
    (ops : ChangeOps) (codec : Codec) (request : ChangeRequest) (set : ChangeSet) (disk : Disk)
    → render_change tools repository service_files checks ops codec request ≡ ok set
    → IsSound disk
    → IsApplied set.files repository.read (apply_change_set tools.clean disk set repository.read)
unfolding apply_change_set
render_change-IsApplied tools repository service_files checks ops codec request set disk e s =
    apply_changes-IsApplied tools.clean disk set.files repository.read s (
      allowed-IsReady tools.clean repository set.files
        (render_change-Allowed tools repository service_files checks ops codec request set e))
