-- ===== src/Platform/Manifests.antt =====
-- internal/platformctl/render.go: the manifests of Teams, Applications and Databases, their approval
-- for deletion, and the leaves that hold them.
use steadystate.Prelude.{
  String, Bytes, bytes, bytes_eq, sort_strings, Bool, true, ◌||◌, Option, none, some, List, [], ◌∷◌,
  ◌++◌, if◌then◌else◌, Result, ok, err,
}
use steadystate.Prelude.Int.{ℤ, pos}
use steadystate.Api.Numbers.{QuantityOps}
use steadystate.Reconcile.Cluster.{Answer, missing, failed, found}
use steadystate.Platform.Errors.{Error, not_found, conflict, panic, exit_error, ◌>>=◌, ◌>>◌}
use steadystate.Platform.Value.{
  Value, text, number, flag, mapping, sequence, nil, cons, Fields, end, field, get, put, delete,
  map_or_empty, texts, Yaml,
}
use steadystate.Platform.Request.{ChangeParameters}
use steadystate.Platform.Files.{Repository, FileChange, validate_change_path, set_file, remove_file}
use steadystate.Platform.Catalog.Validation.{is_empty}

abbrev pub Changes : Type 0
Changes = List FileChange

-- teamPath, applicationPath, databasePath and servicePath.
abbrev pub team_path : Bytes → Bytes
team_path name = bytes "gitops/teams/" ++ name

abbrev pub application_path : Bytes → Bytes
application_path name = bytes "gitops/applications/" ++ name

abbrev pub database_path : Bytes → Bytes
database_path name = bytes "gitops/databases/" ++ name

abbrev pub service_path : Bytes → Bytes
service_path name = bytes "services/" ++ name

-- teamManifestPath, applicationManifestPath and databaseManifestPath.
abbrev pub team_manifest_path : Bytes → Bytes
team_manifest_path name = team_path name ++ bytes "/team.yaml"

abbrev pub application_manifest_path : Bytes → Bytes
application_manifest_path name = application_path name ++ bytes "/application.yaml"

abbrev pub database_manifest_path : Bytes → Bytes
database_manifest_path name = database_path name ++ bytes "/database.yaml"

unfoldable pub sync_options : Bytes
sync_options = bytes "argocd.argoproj.io/sync-options"

unfoldable pub deletion_request_key : Bytes
deletion_request_key = bytes "steadystate.dev/deletion-request"

-- metadata.
unfoldable pub metadata : Bytes → Bytes → Bytes → Value
metadata name namespace wave =
    let annotations =
      field (bytes "argocd.argoproj.io/sync-wave") (text wave)
        (field sync_options (text (bytes "Prune=false")) end) in
    let value =
      field (bytes "name") (text name) (field (bytes "annotations") (mapping annotations) end) in
    if is_empty namespace
    then mapping value
    else mapping (field (bytes "namespace") (text namespace) value)

abbrev pub document : String → Value → Value → Value
document kind meta spec = mapping (
    field (bytes "apiVersion") (text (bytes "platform.steadystate.dev/v1alpha1")) (
      field (bytes "kind") (text (bytes kind))
        (field (bytes "metadata") meta (field (bytes "spec") spec end))))

abbrev pub one : String → Value → Fields → Fields
one k = field (bytes k)

abbrev pub word : String → Value
word s = text (bytes s)

-- The document of writeTeam.
unfoldable pub team_document : Bytes → ChangeParameters → Value
unfolding metadata
team_document name p = document "Team" (metadata name [] (bytes "-1")) (
    mapping (
      one "owners" (sequence (texts (sort_strings p.owners))) (
        one "quota"
          (mapping (one "cpu" (text p.cpu_quota) (one "memory" (text p.memory_quota) end)))
          (one "allowedRepositories" (sequence (texts (sort_strings p.allowed_repositories)))
            end))))

-- canaryStep.
unfoldable pub canary_step : ℤ → Value
canary_step weight = mapping (one "weight" (number weight) (one "pause" (word "30s") end))

abbrev resource_values : String → String → Value
resource_values cpu memory = mapping (one "cpu" (word cpu) (one "memory" (word memory) end))

-- The document of writeApplicationWithIsolation.
unfoldable pub application_document : Bytes → ChangeParameters → Bool → Value
unfolding metadata canary_step
application_document team p network_isolation =
    document "Application" (metadata p.name (bytes "team-" ++ team) (bytes "1")) (
      mapping (
        one "owner" (text p.owner) (
          one "image"
            (mapping
              (one "repository" (text p.image_repository) (one "tag" (text p.image_tag) end)))
            (one "runtime"
              (mapping (
                one "port" (number p.port) (
                  one "replicas"
                    (mapping
                      (one "min" (number p.min_replicas) (one "max" (number p.max_replicas) end)))
                    end)))
              (one "resources"
                (mapping (
                  one "requests" (resource_values "50m" "32Mi")
                    (one "limits" (resource_values "200m" "128Mi") end)))
                (one "deployment"
                  (mapping (
                    one "strategy" (word "canary") (
                      one "automaticRollback" (flag true) (
                        one "steps"
                          (sequence (
                            cons (canary_step (pos 10)) (
                              cons (canary_step (pos 25))
                                (cons (canary_step (pos 50)) (cons (canary_step (pos 100)) nil)))))
                          end))))
                  (one "reliability"
                    (mapping (
                      one "availabilityTarget" (word "99.9%") (
                        one "maximumP95Latency" (word "250ms")
                          (one "maximumErrorRate" (word "1%") end))))
                    (one "observability"
                      (mapping (
                        one "metrics" (flag true)
                          (one "logs" (flag true) (one "traces" (flag true) end))))
                      (one "security"
                        (mapping (
                          one "requireSignedImage" (flag true) (
                            one "runAsNonRoot" (flag true)
                              (one "networkIsolation" (flag network_isolation) end))))
                        end)))))))))

-- unstructured.NestedMap at one key.
unfoldable pub nested_map : Bytes → Fields → Option Fields
nested_map k m = elim (get k m) [ some (mapping v) ↦ some v | _ ↦ none ]

-- approveManifest's edits of the annotations.
unfoldable pub approved : Bytes → Bool → Fields → Fields
approved request_id force annotations =
    let marked = put deletion_request_key (text request_id) (delete sync_options annotations) in
    if force then put (bytes "steadystate.dev/force-delete") (word "true") marked else marked

-- approveManifest's edits of the document.
unfoldable pub approved_document : Bytes → Bool → Fields → Fields
unfolding approved
approved_document request_id force object =
    let meta = map_or_empty (get (bytes "metadata") object) in
    let annotations = map_or_empty (get (bytes "annotations") meta) in
    put (bytes "metadata")
      (mapping (put (bytes "annotations") (mapping (approved request_id force annotations)) meta))
      object

-- The parts around the repository: filepath.Clean, the YAML library and quantities.
pub record Tools : Type 0 where
  pub clean : Bytes → Bytes
  pub yaml : Yaml
  pub quantities : QuantityOps

module _ (tools : Tools) (repository : Repository) where
  -- writeLeaf.
  unfoldable pub write_leaf : Bytes → String → Value → Changes → Result Error Changes
  write_leaf path manifest object changes = tools.yaml.marshal object >>= λ content.
      set_file tools.clean repository (path ++ (bytes "/" ++ bytes manifest)) content changes
      >>= λ written.
          set_file tools.clean repository (path ++ bytes "/kustomization.yaml")
            (bytes
                "apiVersion: kustomize.config.k8s.io/v1beta1\nkind: Kustomization\nresources:\n  - "
              ++ (bytes manifest ++ bytes "\n"))
            written

  -- writeTeam.
  unfoldable pub write_team : Bytes → ChangeParameters → Changes → Result Error Changes
  write_team name p = write_leaf (team_path name) "team.yaml" (team_document name p)

  -- writeApplicationWithIsolation.
  unfoldable pub write_application :
      Bytes → ChangeParameters → Bool → Changes → Result Error Changes
  write_application team p isolation =
      write_leaf (application_path p.name) "application.yaml"
        (application_document team p isolation)

  unfoldable pub object_of : Option Fields → Result Error Fields
  object_of none = err panic
  object_of (some m) = ok m

  unfoldable pub read_manifest : Bytes → Answer Bytes → Result Error Bytes
  read_manifest path (found b) = ok b
  read_manifest path missing =
      exit_error not_found "read protected manifest %s: %v"
        (path ∷ bytes "file does not exist" ∷ [])
  read_manifest path (failed e) =
      exit_error not_found "read protected manifest %s: %v" (path ∷ e ∷ [])

  -- approveManifest.
  unfoldable pub approve_manifest : Bytes → Bytes → Bool → Changes → Result Error Changes
  approve_manifest path request_id force changes =
      validate_change_path tools.clean path
      >> read_manifest path (repository.read path)
      >>= λ content. tools.yaml.unmarshal content >>= object_of >>= λ object.
          tools.yaml.marshal (mapping (approved_document request_id force object)) >>= λ output.
          set_file tools.clean repository path output changes

  -- The first name that is not one of the two files of the leaf.
  unfoldable pub unexpected : String → List Bytes → Option Bytes
  unexpected manifest [] = none
  unexpected manifest (n ∷ ns) =
      if bytes_eq n (bytes manifest) || bytes_eq n (bytes "kustomization.yaml")
      then unexpected manifest ns
      else some n

  unfoldable pub leaf_names : Bytes → String → Result Bytes (List Bytes) → Result Error (List Bytes)
  leaf_names path manifest (err e) =
      exit_error not_found "cannot inspect leaf %s: %v" (path ∷ e ∷ [])
  leaf_names path manifest (ok names) = elim (unexpected manifest names) [
    | none ↦ ok names
    | some name ↦ exit_error conflict "leaf %s contains unexpected file %s" (path ∷ name ∷ [])
  ]

  -- deleteLeaf.
  unfoldable pub delete_leaf : Bytes → String → Changes → Result Error Changes
  delete_leaf path manifest changes =
      validate_change_path tools.clean (path ++ (bytes "/" ++ bytes manifest))
      >> leaf_names path manifest (repository.entries path)
      >>= λ names.
          remove_file tools.clean repository (path ++ (bytes "/" ++ bytes manifest)) changes
          >>= remove_file tools.clean repository (path ++ bytes "/kustomization.yaml")
