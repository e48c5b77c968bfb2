-- ===== src/Platform/Laws/Guarded.antt =====
-- What the application of a change set does where the files have changed, or a call fails.
use steadystate.Prelude.{
  Bytes, bytes_eq, bytes_eq_iff, false, Option, none, some, [], ◌∷◌, ◌≡◌, refl, ◌∙◌, sym, ap, arith,
  All,
}
use steadystate.Reconcile.Cluster.{Answer, missing, failed, found}
use steadystate.Platform.Errors.{Error}
use steadystate.Platform.Files.{FileChange, Action, create, update, delete}
use steadystate.Platform.Manifests.{Changes}
use steadystate.Platform.Apply.{
  Store, Disk, check_target, write_file, delete_file, perform, apply_change, and_then,
  apply_changes,
}
use steadystate.Platform.Laws.Paths.{IsOther, AllOnce, expected}
use steadystate.Platform.Laws.Applied.{IsReady, put_file-other}

-- Files that the changes do not name are as before, whatever fails; and where all succeeds, each file
-- was as it was when its change was rendered.
pub record IsGuarded (clean : Bytes → Bytes) (files : Changes) (before : Store)
    (r : Store × Option Error) : Type 0 where
  pub kept : (path : Bytes) → All (λ c. bytes_eq c.path path ≡ false) files → r.0 path ≡ before path
  pub ready : r.1 ≡ none → All (IsReady clean before) files

check_target-fresh :
    (action : Action) (path before : Bytes) (answer : Answer Bytes)
    → check_target action path before answer ≡ none
    → answer ≡ expected action before
unfolding check_target
check_target-fresh create path before missing h = refl
check_target-fresh create path before (found b) h = absurd (ground arith)
check_target-fresh create path before (failed e) h = absurd (ground arith)
check_target-fresh update path before missing h = absurd (ground arith)
check_target-fresh update path before (failed e) h = absurd (ground arith)
check_target-fresh update path before (found b) h =
    ap (λ (x : Bytes). found x) (ground (arith, bytes_eq_iff b before))
check_target-fresh delete path before missing h = absurd (ground arith)
check_target-fresh delete path before (failed e) h = absurd (ground arith)
check_target-fresh delete path before (found b) h =
    ap (λ (x : Bytes). found x) (ground (arith, bytes_eq_iff b before))

module _ (clean : Bytes → Bytes) (disk : Disk) where
  write_file-other :
      (path content q : Bytes) (store : Store)
      → bytes_eq path q ≡ false
      → (write_file clean disk path content store).0 q ≡ store q
  unfolding write_file
  write_file-other path content q store e = ground (
    arith,
    put_file-other path q (disk.torn path content) store e,
    put_file-other path q (found content) store e,
  )

  delete_file-other :
      (path q : Bytes) (store : Store)
      → bytes_eq path q ≡ false
      → (delete_file clean disk path store).0 q ≡ store q
  unfolding delete_file
  delete_file-other path q store e = ground (arith, put_file-other path q missing store e)

  perform-other :
      (action : Action) (c : FileChange) (q : Bytes) (store : Store)
      → bytes_eq c.path q ≡ false
      → (perform clean disk action c store).0 q ≡ store q
  unfolding perform
  perform-other create c q store e = write_file-other c.path c.content q store e
  perform-other update c q store e = write_file-other c.path c.content q store e
  perform-other delete c q store e = delete_file-other c.path q store e

  apply_change-other :
      (c : FileChange) (q : Bytes) (store : Store)
      → bytes_eq c.path q ≡ false
      → (apply_change clean disk c store).0 q ≡ store q
  unfolding apply_change
  apply_change-other c q store e = ground (arith, perform-other c.action c q store e)

  apply_change-IsReady :
      (c : FileChange) (store : Store)
      → (apply_change clean disk c store).1 ≡ none
      → IsReady clean store c
  unfolding apply_change
  apply_change-IsReady c store h = record {
    valid = ground arith;
    fresh = check_target-fresh c.action c.path c.before (store c.path) (ground arith);
  }

  -- A change that was made found its file as it was rendered, and touched no other.
  record Step (c : FileChange) (store : Store) (r : Store × Option Error) : Type 0 where
    others : (q : Bytes) → bytes_eq c.path q ≡ false → r.0 q ≡ store q
    ready : r.1 ≡ none → IsReady clean store c

  apply_change-Step :
      (c : FileChange) (store : Store) → Step c store (apply_change clean disk c store)
  apply_change-Step c store = record {
    others = λ q e. apply_change-other c q store e;
    ready = apply_change-IsReady c store;
  }

  IsReady-back :
      (c : FileChange) (before after : Store) (cs : Changes)
      → ((q : Bytes) → bytes_eq c.path q ≡ false → after q ≡ before q)
      → All (IsOther c) cs
      → All (IsReady clean after) cs
      → All (IsReady clean before) cs
  IsReady-back c before after [] k o h = tt
  IsReady-back c before after (d ∷ cs) k o h = (
    record { valid = h.0.valid; fresh = sym (k d.path o.0) ∙ h.0.fresh },
    IsReady-back c before after cs k o.1 h.1,
  )

  and_then-IsGuarded :
      (c : FileChange) (cs : Changes) (store : Store) (r : Store × Option Error)
      → Step c store r
      → All (IsOther c) cs
      → ((s : Store) → IsGuarded clean cs s (apply_changes clean disk cs s))
      → IsGuarded clean (c ∷ cs) store (and_then clean disk r (apply_changes clean disk cs))
  and_then-IsGuarded c cs store (s, some e) step o rest = record {
    kept = λ path k. step.others path k.0;
    ready = λ h. absurd (ground arith);
  }
  and_then-IsGuarded c cs store (s, none) step o rest = record {
    kept = λ path k. (rest s).kept path k.1 ∙ step.others path k.0;
    ready = λ h. (step.ready refl, IsReady-back c store s cs step.others o ((rest s).ready h));
  }

  -- Whatever calls of the file system fail, applying changes of different paths keeps all other files;
  -- and where it succeeds, each of its files was as it was when the change was rendered, so that no
  -- edit made since is lost.
  pub apply_changes-IsGuarded :
      (cs : Changes) (store : Store)
      → AllOnce (λ c. Unit) cs
      → IsGuarded clean cs store (apply_changes clean disk cs store)
  unfolding apply_changes
  apply_changes-IsGuarded [] store o = record { kept = λ path k. refl; ready = λ h. tt }
  apply_changes-IsGuarded (c ∷ cs) store o =
      and_then-IsGuarded c cs store (apply_change clean disk c store) (apply_change-Step c store)
        o.1 λ s. apply_changes-IsGuarded cs s o.2
