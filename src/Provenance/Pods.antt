-- ===== src/Provenance/Pods.antt =====
-- resolvePodImageDigest and its helpers.
use steadystate.Prelude.{
  ℕ, ◌+◌, String, str_eq, Bytes, bytes, bytes_eq, has_prefix, contains, before_last, join,
  sort_strings, Bool, true, false, not, ◌&&◌, ◌||◌, Option, none, some, List, [], ◌∷◌, ◌++◌, ◌==◌,
  ltb, length, is_some, if◌then◌else◌, Result, ok, err,
}
use steadystate.Api.Conditions.{ConditionStatus, status_is_true, Message}
use steadystate.Provenance.Digest.{normalize_image_digest}

-- corev1.PodCondition, Container, ContainerStatus and Pod, as far as they are read.
pub record PodCondition : Type 0 where
  pub kind : String
  pub status : ConditionStatus

pub record Container : Type 0 where
  pub name : String
  pub image : Bytes

pub record ContainerStatus : Type 0 where
  pub name : String
  pub ready : Bool
  pub image_id : Bytes

pub record Pod : Type 0 where
  pub name : Bytes
  pub deleting : Bool
  pub conditions : List PodCondition
  pub containers : List Container
  pub statuses : List ContainerStatus

pub data DigestState : Type 0 where
  pending resolved invalid conflict : DigestState

pub record Resolution : Type 0 where
  pub state : DigestState
  pub digest : Bytes
  pub message : Message

-- podImageMatchesDesired.
unfoldable pub pod_image_matches_desired : Bytes → Bytes → Bool
pod_image_matches_desired observed desired =
    if bytes_eq observed desired then true else elim (before_last b':' desired) [
      | none ↦ false
      | some repository ↦
          has_prefix observed (repository ++ bytes "@sha256:")
          && is_some (normalize_image_digest observed)
    ]

-- podIsReady.
unfoldable pub pod_is_ready : List PodCondition → Bool
pod_is_ready [] = false
pod_is_ready (c ∷ cs) =
    if str_eq c.kind "Ready" && status_is_true c.status then true else pod_is_ready cs

-- podContainerImage.
unfoldable pub pod_container_image : List Container → String → Bytes
pod_container_image [] name = []
pod_container_image (c ∷ cs) name =
    if str_eq c.name name then c.image else pod_container_image cs name

-- podContainerStatus; `none` is a nil pointer.
unfoldable pub pod_container_status : List ContainerStatus → String → Option ContainerStatus
pod_container_status [] name = none
pod_container_status (c ∷ cs) name =
    if str_eq c.name name then some c else pod_container_status cs name

-- The negation of the first test of the loop: the Pod counts.
unfoldable pub serves : Bytes → Pod → Bool
serves desired pod = not (
    pod.deleting
    || not (pod_is_ready pod.conditions)
    || not (pod_image_matches_desired (pod_container_image pod.containers "application") desired))

-- What one round of the loop learns from a Pod.
pub data Report : Type 0 where
  skipped missing : Report
  malformed reported : Bytes → Report

abbrev is_empty : Bytes → Bool
is_empty [] = true
is_empty (c ∷ s) = false

pub status_report : Option ContainerStatus → Report
status_report none = missing
status_report (some s) =
    if not s.ready || is_empty s.image_id
    then missing
    else elim (normalize_image_digest s.image_id) [
      | none ↦ malformed s.image_id
      | some digest ↦ reported digest
    ]

unfoldable pub pod_report : Bytes → Pod → Report
unfolding status_report
pod_report desired pod =
    if serves desired pod
    then status_report (pod_container_status pod.statuses "application")
    else skipped

-- The variables of the loop. The map `digests` is a list with no repetition.
pub record Scan : Type 0 where
  pub digests : List Bytes
  pub ready_desired_pods : ℕ
  pub missing_image_id : Bool

abbrev pub add_digest : Bytes → List Bytes → List Bytes
add_digest d ds = if contains ds d then ds else d ∷ ds

-- The loop; an error is the early return on a malformed image ID.
unfoldable pub scan_pods : Bytes → Scan → List Pod → Result Resolution Scan
scan_pods desired s [] = ok s
scan_pods desired s (pod ∷ pods) = elim (pod_report desired pod) [
  | skipped ↦ scan_pods desired s pods
  | missing ↦
      scan_pods desired
        (record s { ready_desired_pods = s.ready_desired_pods + 1; missing_image_id = true }) pods
  | malformed id ↦ err (record {
    state = invalid;
    digest = [];
    message = record {
      format = "ready Pod %s reports malformed imageID %q";
      args = pod.name ∷ id ∷ [];
    };
  })
  | reported d ↦
      scan_pods desired
        (record s {
          ready_desired_pods = s.ready_desired_pods + 1;
          digests = add_digest d s.digests;
        })
        pods
]

abbrev pub waiting : Resolution
waiting = record {
  state = pending;
  digest = [];
  message = record {
    format = "waiting for every ready desired Pod to report its runtime image digest";
    args = [];
  };
}

-- The code behind the loop.
unfoldable pub conclude : Scan → Resolution
conclude s =
    if ltb 1 (length s.digests)
    then record {
      state = conflict;
      digest = [];
      message = record {
        format = "ready Pods for the desired image report multiple digests: %s";
        args = join (bytes ", ") (sort_strings s.digests) ∷ [];
      };
    }
    else if s.ready_desired_pods == 0 || s.missing_image_id || length s.digests == 0
    then waiting
    else elim s.digests [
      | [] ↦ record {
        state = pending;
        digest = [];
        message = record { format = "waiting for the runtime image digest"; args = [] };
      }
      | d ∷ ds ↦ record {
        state = resolved;
        digest = d;
        message = record { format = ""; args = [] };
      }
    ]

abbrev pub settle : Result Resolution Scan → Resolution
settle (err r) = r
settle (ok s) = conclude s

abbrev pub no_pods : Scan
no_pods = record { digests = []; ready_desired_pods = 0; missing_image_id = false }

unfoldable pub resolve_pod_image_digest : List Pod → Bytes → Resolution
unfolding scan_pods conclude
resolve_pod_image_digest pods desired = settle (scan_pods desired no_pods pods)
