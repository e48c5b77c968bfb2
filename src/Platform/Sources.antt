-- ===== src/Platform/Sources.antt =====
-- internal/platformctl/service_templates.go: the source files of a service, but the templates they
-- are made of.
use steadystate.Prelude.{
  Bytes, bytes, bytes_eq, has_prefix, join, sort_strings, drop, length, String, not, ◌||◌, Option,
  none, some, List, [], ◌∷◌, ◌++◌, map, if◌then◌else◌, Result, ok, err,
}
use steadystate.Prelude.Int.{pos}
use steadystate.Platform.Errors.{Error, exit, conflict, exit_error, ◌>>=◌, ◌>>◌}
use steadystate.Platform.Named.{sort_named}
use steadystate.Platform.Value.{Value, number, text, mapping, sequence, Items, nil, cons, end}
use steadystate.Platform.Catalog.Data.{CatalogService}
use steadystate.Platform.Files.{Repository, set_file, remove_file}
use steadystate.Platform.Manifests.{Changes, Tools, one, word}

-- serviceFiles: the paths below the service and their contents.
abbrev pub ServiceFiles : Type 0
ServiceFiles = CatalogService → Result Error (List (Bytes × Bytes))

abbrev pub file_path : (Bytes × Bytes) → Bytes
file_path (path, content) = path

abbrev full_stack : Bytes
full_stack = bytes "full-stack"

abbrev component : String → Bytes → String → String → Value
component name application runtime dockerfile = mapping (
    one "name" (word name) (
      one "application" (text application) (
        one "path" (word name) (
          one "runtime" (word runtime)
            (one "port" (number (pos 8080)) (one "dockerfile" (word dockerfile) end))))))

-- The components of serviceDescriptorFor.
unfoldable pub descriptor_components : CatalogService → Items
descriptor_components service =
    if bytes_eq service.template (bytes "go-api")
    then cons (component "api" service.name "go" "api/Dockerfile") nil
    else cons (component "web" service.name "react-go" "web/Dockerfile") (
        if bytes_eq service.template full_stack
        then cons (component "api" (service.name ++ bytes "-api") "go" "api/Dockerfile") nil
        else nil)

-- The document of serviceDescriptorFor.
unfoldable pub service_descriptor : CatalogService → Value
unfolding descriptor_components
service_descriptor service = mapping (
    one "apiVersion" (word "cli.steadystate.dev/v1alpha1") (
      one "kind" (word "ServiceDescriptor") (
        one "name" (text service.name) (
          one "template" (text service.template) (
            one "version" (text service.version)
              (one "components" (sequence (descriptor_components service)) end))))))

-- serviceImageTag.
unfoldable pub service_image_tag : CatalogService → Bytes → Bytes → Bytes
service_image_tag service application version =
    let role =
      if bytes_eq service.template (bytes "go-api")
        || bytes_eq application (service.name ++ bytes "-api")
      then bytes "-api-"
      else bytes "-web-" in
    service.name ++ (role ++ version)

-- The callback of fs.WalkDir: the paths below the directory; `none` where one is invalid.
unfoldable pub relative_paths : Bytes → List Bytes → Option (List Bytes)
relative_paths directory [] = some []
relative_paths directory (path ∷ paths) =
    let prefix = directory ++ bytes "/" in
    let relative = drop (length prefix) path in
    if not (has_prefix path prefix) || bytes_eq relative []
    then none
    else elim (relative_paths directory paths) [ none ↦ none | some rest ↦ some (relative ∷ rest) ]

module _ (tools : Tools) (repository : Repository) (service_files : ServiceFiles) where
  unfoldable pub write_all : Bytes → List (Bytes × Bytes) → Changes → Result Error Changes
  write_all directory [] changes = ok changes
  write_all directory ((path, content) ∷ files) changes =
      set_file tools.clean repository (directory ++ (bytes "/" ++ path)) content changes
      >>= write_all directory files

  -- writeServiceSource.
  unfoldable pub write_service_source : CatalogService → Changes → Result Error Changes
  unfolding write_all
  write_service_source service changes =
      service_files service >>= λ files. write_all service.path (sort_named file_path files) changes

  -- writeServiceVersion.
  unfoldable pub write_service_version : CatalogService → Changes → Result Error Changes
  write_service_version service changes =
      set_file tools.clean repository (service.path ++ bytes "/VERSION")
        (service.version ++ bytes "\n") changes
      >>= λ written. tools.yaml.marshal (service_descriptor service) >>= λ descriptor.
          set_file tools.clean repository (service.path ++ bytes "/service.yaml") descriptor written

  -- The files below the service's directory.
  unfoldable pub actual_files : Bytes → Result Bytes (List Bytes) → Result Error (List Bytes)
  actual_files directory (err e) = exit_error conflict "inspect service source: %v" (e ∷ [])
  actual_files directory (ok paths) = elim (relative_paths directory paths) [
    | none ↦
        exit_error conflict "inspect service source: %v"
          (bytes "service source contains an invalid path" ∷ [])
    | some files ↦ ok files
  ]

  unfoldable pub remove_each : Bytes → List Bytes → Changes → Result Error Changes
  remove_each directory [] changes = ok changes
  remove_each directory (path ∷ paths) changes =
      remove_file tools.clean repository (directory ++ (bytes "/" ++ path)) changes
      >>= remove_each directory paths

  -- The files are those of the template.
  unfoldable pub refuse_others : CatalogService → List Bytes → List (Bytes × Bytes) → Option Error
  refuse_others service files expected =
      if not (
        bytes_eq (join (0 ∷ []) (sort_strings files))
          (join (0 ∷ []) (sort_strings (map file_path expected))))
      then some (
          exit conflict (record {
            format = "service %q contains files outside its generated template";
            args = service.name ∷ [];
          }))
      else none

  -- deleteServiceSource.
  unfoldable pub delete_service_source : CatalogService → Changes → Result Error Changes
  unfolding actual_files remove_each refuse_others
  delete_service_source service changes = service_files service >>= λ expected.
      actual_files service.path (repository.walk service.path) >>= λ files.
      refuse_others service files expected >> remove_each service.path (sort_strings files) changes
