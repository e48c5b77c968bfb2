-- ===== src/Lib.antt =====
-- SteadyState is a Kubernetes controller that delivers Applications, owned by Teams, by rolling or
-- metric-gated canary deployments; its command-line tool renders requests for changes to the files of a
-- Git repository. This library models the core logic of both.
--
-- The parts and their files:
--   Prelude      shared names, texts as lists of bytes (Bytes), white space, ℤ, results.
--   Api          api/v1alpha1: the resources, and the conditions, quantities and floating-point numbers
--                of the libraries. Phase.unset is the empty phase of a new resource.
--   Application  internal/application/validation.go: Validate, validateDeployment (Deployment),
--                ParsePercentage and the error texts (Messages).
--   Team         internal/team/validation.go: Validate, RepositoryAllowed (Validation) and path.Match,
--                which it calls (Glob).
--   Provenance   internal/controller/application_provenance.go: resolvedSourceRevision,
--                normalizeImageDigest (Digest) and resolvePodImageDigest (Pods).
--   Naming       internal/resources/common.go: suffixedName, the names of the generated objects and their
--                labels (Labels).
--   Status       internal/controller/application_controller.go and application_progressive.go: what is
--                observed of Deployments, Rollouts and HTTPRoutes (Observe), how conditions are written
--                and the statuses of the early returns (Set), workloadStatus (Workload),
--                canaryWorkloadStatus and strategyMigrationStatus (Canary).
--   Control      a pass of a controller as a list of effects (Act), rules about it (Rules), and the
--                publication of a status that patchTeamStatus and patchDatabaseStatus share (Publish).
--   Reconcile    internal/controller/application_controller.go: Reconcile (Handler) with its checks (Gate),
--                applicationTenancy (Tenancy), patchStatus (Patch), the texts of rejected workloads
--                (Rejection), the watches of other objects (Watches) and the answers of the API server (Cluster).
--   Database     internal/database/validation.go: Validate, validateCron and ResolvedSourceRevision
--                (Validation, with its texts in Messages).
--   Progressive  internal/controller/application_progressive.go: shouldHoldServingDeployment,
--                preserveRouteWeights and servingApplicationAtVersion (Serving), and
--                reconcileRuntimeChildren (Runtime) with the two strategies (Rolling, Canary), what
--                they share (Shared), the route (Routes), the drains of the old workloads (Drain) and
--                of analysis (Analysis); the answers of the API server are a Server.
--   Boundary     internal/controller/team_controller.go: Reconcile (Handler), the four stages with
--                their ownership checks (Objects), the deletion of a Team (Deletion) and the statuses
--                (Status).
--   Postgres     internal/controller/database_controller.go: Reconcile (Handler), the objects in their
--                order (Objects), the backups (Backups), the deletion (Deletion) and the statuses
--                (Status). Watches in both: which Team or Databases another object's change asks for.
--   Platform     internal/platformctl: catalog.go, the tenant catalog and its Validate (Catalog, with Data,
--                Patterns and Validation); change.go, requests for changes (Request) and their Validate
--                (Change); render.go, the operations (Operations, Services, Finalize) with the documents
--                that they write (Value, Manifests, Storage), the paths that they may write (Files), the
--                lists of entries (Named), render and RenderChange (Render), and
--                ApplyChangeSet (Apply); service_templates.go,
--                the files of services (Sources); types.go, errors (Errors).
--   Tests        the properties at concrete inputs.
--
-- Reconcile reads an Application, adds its finalizer, and runs the checks, which call Application,
-- Team and Provenance; it then reconciles the children, computes the status from what it observes
-- of them (Status, with the digest of Provenance and the names of Naming) and publishes it with
-- patchStatus. In Reconcile the result of reconcileRuntimeChildren is one arbitrary answer of a
-- Cluster; Progressive models that function by itself, over the answers to its own calls. Boundary
-- and Postgres are the controllers of Teams and of Databases, written with Control. A pass is a list of effects in the order of the calls, with an error and a delay.
-- Each call of the API server has one answer in a Cluster or Server, which is arbitrary: other writers
-- may act between two calls, and each call may fail.
--
-- Platform: an operation takes the tenants of the catalog and gives them with the changes of files, or
-- an error, which ends it; the order of the steps is the code's, but a write to the catalog in memory is
-- placed behind the checks and files that follow it, since an error discards the catalog. RenderChange validates the request and
-- the catalog, runs the operation, writes the catalog and sorts the changes. A write through a pointer
-- into a list replaces the first entry of that name; two loops of finalizeService that read a name
-- through a pointer into the list that they overwrite are modelled as such (remove_pointed). Laws
-- collects what holds of the results of such chains (Posts) and follows the operations with it: the
-- paths (Paths to Rendered, Places), the Applications that are kept (Names to Removals), and the names of
-- Databases (Unique, Scaffold), and what is applied (Applied, Guarded), over the files as a function from a
-- path to what a read of it answers.
--
-- Numbers: an int32 or int64 field is an ℤ at its mathematical value, since the code only compares
-- it; a generation is an ℕ. All loops are structural recursion; the digits of a number (format_int)
-- take the number itself as fuel, which has no more digits than that. A message is the format and
-- the arguments of fmt.Sprintf, not the formatted text.
--
-- Parameters: ConditionOps (meta.SetStatusCondition and FindStatusCondition, with the law that a
-- written condition is found again), QuantityOps (resource.Quantity), FloatOps (float64), Sha256
-- (sums of 32 bytes), DatabaseOps (the parser of cron expressions and 1Gi), TeamOps (IsDNS1123Label
-- and the minimum quotas), Library (these, with Semantic.DeepEqual, which is reflexive, and
-- RetryOnConflict, which returns what one of its attempts returns). The Servers of the other
-- controllers also hold the answers of CreateOrUpdate, of the reads that test the ownership, and of
-- the lists that MatchLabels selects; the Library of Postgres adds the parser of RFC 3339 times. A
-- time or duration is a number of nanoseconds. Platform takes a Repository (what the reads of files and
-- directories answer, arbitrary), Tools (filepath.Clean, YAML, quantities), a Codec (YAML of the catalog,
-- JSON of requests, SHA-256), Checks (UUIDs, directories), ChangeOps (the libraries of the validations)
-- a Disk (the errors of writes), and ServiceFiles, the files that serviceFiles generates, an arbitrary answer.
--
-- Not modelled: the set-up of the manager, the metrics, endpointCIDR, the builders of the generated
-- objects (desired specs, and how CreateOrUpdate writes them into an unstructured object); of the
-- command-line tool the encoding of requests and change sets, the templates of services,
-- the portal and the commands that call kubectl or GitHub; and the demo application.
-- Texts are lowered in their ASCII letters only, which is all that the program's searches look for.
-- Of a recovery's target time, only the test of its Location. filepath.FromSlash and ToSlash are taken
-- as on Unix, where they change nothing. The order that sort.Slice gives entries of one name is not
-- specified; here it is one of those. A map is a list of fields, of which each key counts once.
pub mod Prelude
pub mod Control
pub mod Api
pub mod Application
pub mod Provenance
pub mod Status
pub mod Naming
pub mod Team
pub mod Reconcile
pub mod Database
pub mod Progressive
pub mod Boundary
pub mod Platform
pub mod Postgres
mod Tests
