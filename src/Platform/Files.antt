-- ===== src/Platform/Files.antt =====
-- internal/platformctl/render.go: the paths that may be written, and the changes that are collected.
-- filepath's FromSlash and ToSlash change nothing on a system whose separator is "/".
use steadystate.Prelude.{
  ◌==◌, Bytes, bytes, bytes_eq, contains, has_prefix, join, Bool, not, ◌&&◌, ◌||◌, Option, none,
  some, List, [], ◌∷◌, ◌++◌, if◌then◌else◌, Result, ok, err,
}
use steadystate.Reconcile.Cluster.{Answer, missing, failed, found}
use steadystate.Platform.Errors.{Error, exit, usage, not_found, external, exit_error, ◌>>◌}
use steadystate.Platform.Catalog.Patterns.{valid_name}

-- The repository below the root: what ReadFile answers, the names in a directory, and the paths of the
-- files that fs.WalkDir visits below a directory.
pub record Repository : Type 0 where
  pub read : Bytes → Answer Bytes
  pub entries : Bytes → Result Bytes (List Bytes)
  pub walk : Bytes → Result Bytes (List Bytes)

-- The values of FileChange.Action.
pub data Action : Type 0 where
  create update delete : Action

pub record FileChange : Type 0 where
  pub path : Bytes
  pub action : Action
  pub content : Bytes
  pub before : Bytes

-- strings.Split(path, "/").
unfoldable pub split_from : Bytes → Bytes → List Bytes
split_from part [] = part ∷ []
split_from part (c ∷ s) =
    let next = part ∷ split_from [] s in
    let same = split_from (part ++ (c ∷ [])) s in if c == b'/' then next else same

unfoldable pub split_path : Bytes → List Bytes
unfolding split_from
split_path path = split_from [] path

-- The files that a service may have.
unfoldable pub service_file_names : List Bytes
service_file_names =
    bytes "README.md"
    ∷ bytes "VERSION"
    ∷ bytes "service.yaml"
    ∷ bytes "api/Dockerfile"
    ∷ bytes "api/main.go"
    ∷ bytes "api/main_test.go"
    ∷ bytes "web/Dockerfile"
    ∷ bytes "web/package.json"
    ∷ bytes "web/package-lock.json"
    ∷ bytes "web/index.html"
    ∷ bytes "web/tsconfig.json"
    ∷ bytes "web/vite.config.ts"
    ∷ bytes "web/src/main.tsx"
    ∷ bytes "web/src/style.css"
    ∷ bytes "web/test/template.test.js"
    ∷ bytes "web/server/main.go"
    ∷ bytes "web/server/main_test.go"
    ∷ bytes "web/server/static/index.html"
    ∷ []

unfoldable pub catalog_path : Bytes
catalog_path = bytes "gitops/clusters/local/catalog/tenants.yaml"

-- allowedFile, of the directory and the file.
unfoldable pub leaf_file : Bytes → Bytes → Bool
leaf_file directory file =
    if bytes_eq directory (bytes "teams")
    then bytes_eq file (bytes "team.yaml") || bytes_eq file (bytes "kustomization.yaml")
    else if bytes_eq directory (bytes "applications")
    then bytes_eq file (bytes "application.yaml") || bytes_eq file (bytes "kustomization.yaml")
    else bytes_eq directory (bytes "databases")
      && (bytes_eq file (bytes "database.yaml") || bytes_eq file (bytes "kustomization.yaml"))

-- The tests on the parts of a path of four parts or another number.
unfoldable pub check_leaf : Bytes → List Bytes → Option Error
unfolding leaf_file
check_leaf path (top ∷ directory ∷ name ∷ file ∷ []) =
    if not (bytes_eq top (bytes "gitops"))
      || (not (bytes_eq directory (bytes "teams"))
          && not (bytes_eq directory (bytes "applications"))
          && not (bytes_eq directory (bytes "databases")))
      || not (valid_name name 63)
    then some (
        exit usage (record {
          format = "rendered path %q is outside the broker allowlist";
          args = path ∷ [];
        }))
    else if not (leaf_file directory file)
    then some (
        exit usage (record {
          format = "rendered file %q is outside the broker allowlist";
          args = path ∷ [];
        }))
    else none
check_leaf path _ = some (
    exit usage
      (record { format = "rendered path %q is outside the broker allowlist"; args = path ∷ [] }))

unfoldable pub check_parts : Bytes → List Bytes → Option Error
unfolding check_leaf
check_parts path (top ∷ name ∷ first ∷ rest) =
    if bytes_eq top (bytes "services") && valid_name name 48
    then (if not (contains service_file_names (join (bytes "/") (first ∷ rest)))
        then some (
            exit usage (record {
              format = "rendered service file %q is outside the broker allowlist";
              args = path ∷ [];
            }))
        else none)
    else check_leaf path (top ∷ name ∷ first ∷ rest)
check_parts path parts = check_leaf path parts

-- validateChangePath, where `clean` is filepath.Clean.
unfoldable pub validate_change_path : (Bytes → Bytes) → Bytes → Option Error
unfolding check_parts
validate_change_path clean path =
    if not (bytes_eq (clean path) path)
      || has_prefix (clean path) (bytes "../")
      || has_prefix path (bytes "/")
    then some (exit usage (record { format = "unsafe rendered path %q"; args = path ∷ [] }))
    else if bytes_eq path catalog_path
    then none
    else check_parts path (split_path path)

-- `changes[path] = change`, on a map kept as a list.
unfoldable pub record_change : FileChange → List FileChange → List FileChange
record_change change [] = change ∷ []
record_change change (c ∷ cs) =
    if bytes_eq c.path change.path then change ∷ cs else c ∷ record_change change cs

module _ (clean : Bytes → Bytes) (repository : Repository) where
  unfoldable pub changed :
      Bytes → Bytes → Answer Bytes → List FileChange → Result Error (List FileChange)
  unfolding record_change
  changed path content (failed e) changes = err (external e)
  changed path content missing changes =
      if bytes_eq [] content
      then ok changes
      else ok (
          record_change (record { path = path; action = create; content = content; before = [] })
            changes)
  changed path content (found before) changes =
      if bytes_eq before content
      then ok changes
      else ok (
          record_change
            (record { path = path; action = update; content = content; before = before }) changes)

  -- changeRenderer.set.
  unfoldable pub set_file : Bytes → Bytes → List FileChange → Result Error (List FileChange)
  unfolding changed
  set_file path content changes =
      validate_change_path clean path >> changed path content (repository.read path) changes

  unfoldable pub removed : Bytes → Answer Bytes → List FileChange → Result Error (List FileChange)
  unfolding record_change
  removed path (found before) changes = ok (
      record_change (record { path = path; action = delete; content = []; before = before })
        changes)
  removed path _ changes = exit_error not_found "cannot finalize missing file %s" (path ∷ [])

  -- changeRenderer.remove.
  unfoldable pub remove_file : Bytes → List FileChange → Result Error (List FileChange)
  unfolding removed
  remove_file path changes =
      validate_change_path clean path >> removed path (repository.read path) changes
