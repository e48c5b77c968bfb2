-- ===== src/Platform/Laws/Paths.antt =====
-- Every file that a request changes is one that may be changed.
use steadystate.Prelude.{
  refl, true, false, bytes_eq_iff, Bytes, Bool, Bool-cases, inl, inr, none, [], ◌∷◌, ◌≡◌, All,
  bytes_eq, String,
}
use steadystate.Reconcile.Cluster.{Answer, missing, failed, found}
use steadystate.Platform.Laws.Posts.{
  Holds, returned, raised, Holds-bind, Holds-bind_eq, Holds-check, Holds-if,
}
use steadystate.Platform.Value.{Value}
use mathlib.Core.Path.{subst}
use steadystate.Platform.Files.{
  Action, create, update, delete, Repository, FileChange, validate_change_path, record_change,
  changed, set_file, removed, remove_file,
}
use steadystate.Platform.Manifests.{Changes, Tools, write_leaf, approve_manifest, delete_leaf}

-- What a change finds at its path.
abbrev pub expected : Action → Bytes → Answer Bytes
expected create before = missing
expected update before = found before
expected delete before = found before

-- The change may be made, and it was made from what the repository has at its path.
pub record IsAllowed (clean : Bytes → Bytes) (repository : Repository) (change : FileChange)
    : Type 0 where
  pub valid : validate_change_path clean change.path ≡ none
  pub fresh : repository.read change.path ≡ expected change.action change.before

abbrev pub IsOther : FileChange → FileChange → Type 0
IsOther c d = bytes_eq c.path d.path ≡ false

-- Each change is allowed, and their paths differ.
abbrev pub AllOnce : (FileChange → Type 0) → Changes → Type 0
AllOnce P [] = Unit
AllOnce P (c ∷ cs) = P c × All (IsOther c) cs × AllOnce P cs

pub AllOnce-All : (P : FileChange → Type 0) (cs : Changes) → AllOnce P cs → All P cs
AllOnce-All P [] h = tt
AllOnce-All P (c ∷ cs) h = (h.0, AllOnce-All P cs h.2)

record_change-All :
    (P : FileChange → Type 0) (c : FileChange) (cs : Changes)
    → P c
    → All P cs
    → All P (record_change c cs)
unfolding record_change
record_change-All P c [] p h = (p, tt)
record_change-All P c (d ∷ cs) p h = elim (Bool-cases (bytes_eq d.path c.path)) [
  | inl e ↦ rw e (p, h.1)
  | inr e ↦ rw e (h.0, record_change-All P c cs p h.1)
]

same_path-All :
    (c d : FileChange) (cs : Changes)
    → bytes_eq d.path c.path ≡ true
    → All (IsOther d) cs
    → All (IsOther c) cs
same_path-All c d cs e h =
    subst (λ (path : Bytes). All (λ x. bytes_eq path x.path ≡ false) cs)
      ((bytes_eq_iff d.path c.path).0 e) h

record_change-AllOnce :
    (P : FileChange → Type 0) (c : FileChange) (cs : Changes)
    → P c
    → AllOnce P cs
    → AllOnce P (record_change c cs)
unfolding record_change
record_change-AllOnce P c [] p h = (p, tt, tt)
record_change-AllOnce P c (d ∷ cs) p h = elim (Bool-cases (bytes_eq d.path c.path)) [
  | inl e ↦ rw e (p, same_path-All c d cs e h.1, h.2)
  | inr e ↦ rw e (h.0, record_change-All (IsOther d) c cs e h.1, record_change-AllOnce P c cs p h.2)
]

module _ (clean : Bytes → Bytes) (repository : Repository) where
  abbrev pub Allowed : Changes → Type 0
  Allowed = AllOnce (IsAllowed clean repository)

  changed-Allowed :
      (path content : Bytes) (answer : Answer Bytes) (cs : Changes)
      → repository.read path ≡ answer
      → validate_change_path clean path ≡ none
      → Allowed cs
      → Holds Allowed (changed clean repository path content answer cs)
  unfolding changed
  changed-Allowed path content (failed e) cs r p h = raised
  changed-Allowed path content missing cs r p h =
      Holds-if (bytes_eq [] content) _ _ (λ _. returned h)
        λ _. returned (
          record_change-AllOnce (IsAllowed clean repository) _ cs (record { valid = p; fresh = r })
            h)
  changed-Allowed path content (found before) cs r p h =
      Holds-if (bytes_eq before content) _ _ (λ _. returned h)
        λ _. returned (
          record_change-AllOnce (IsAllowed clean repository) _ cs (record { valid = p; fresh = r })
            h)

  pub set_file-Allowed :
      (path content : Bytes) (cs : Changes)
      → Allowed cs
      → Holds Allowed (set_file clean repository path content cs)
  unfolding set_file
  set_file-Allowed path content cs h =
      Holds-check (validate_change_path clean path) _
        λ p. changed-Allowed path content (repository.read path) cs refl p h

  removed-Allowed :
      (path : Bytes) (answer : Answer Bytes) (cs : Changes)
      → repository.read path ≡ answer
      → validate_change_path clean path ≡ none
      → Allowed cs
      → Holds Allowed (removed clean repository path answer cs)
  unfolding removed
  removed-Allowed path (found before) cs r p h =
      returned (
        record_change-AllOnce (IsAllowed clean repository) _ cs (record { valid = p; fresh = r }) h)
  removed-Allowed path missing cs r p h = raised
  removed-Allowed path (failed e) cs r p h = raised

  pub remove_file-Allowed :
      (path : Bytes) (cs : Changes)
      → Allowed cs
      → Holds Allowed (remove_file clean repository path cs)
  unfolding remove_file
  remove_file-Allowed path cs h =
      Holds-check (validate_change_path clean path) _
        λ p. removed-Allowed path (repository.read path) cs refl p h

-- The leaves and the manifests.
module _ (tools : Tools) (repository : Repository) where
  pub write_leaf-Allowed :
      (path : Bytes) (manifest : String) (object : Value) (cs : Changes)
      → Allowed tools.clean repository cs
      → Holds (Allowed tools.clean repository) (write_leaf tools repository path manifest object cs)
  unfolding write_leaf
  write_leaf-Allowed path manifest object cs h = Holds-bind_eq _ _ λ content _.
      Holds-bind _ _ (set_file-Allowed tools.clean repository _ content cs h)
        λ written w. set_file-Allowed tools.clean repository _ _ written w

  pub approve_manifest-Allowed :
      (path request : Bytes) (force : Bool) (cs : Changes)
      → Allowed tools.clean repository cs
      → Holds
          (Allowed tools.clean repository)
          (approve_manifest tools repository path request force cs)
  unfolding approve_manifest
  approve_manifest-Allowed path request force cs h = Holds-bind_eq _ _ λ content _.
      Holds-bind_eq _ _ λ object _.
        Holds-bind_eq _ _ λ output _. set_file-Allowed tools.clean repository path output cs h

  pub delete_leaf-Allowed :
      (path : Bytes) (manifest : String) (cs : Changes)
      → Allowed tools.clean repository cs
      → Holds (Allowed tools.clean repository) (delete_leaf tools repository path manifest cs)
  unfolding delete_leaf
  delete_leaf-Allowed path manifest cs h = Holds-bind_eq _ _ λ names _.
      Holds-bind _ _ (remove_file-Allowed tools.clean repository _ cs h)
        λ removed r. remove_file-Allowed tools.clean repository _ removed r
