-- ===== src/Tests/Provenance.antt =====
-- Image digests and generated names at concrete inputs.
use steadystate.Prelude.{
  ◌≤◌, ◌<◌, Bytes, bytes, bytes_eq, has_prefix, true, false, ◌≡◌, refl, inl, inr, [], ◌∷◌, ◌++◌,
  arith, length,
}
use steadystate.Api.Conditions.{is_true}
use steadystate.Provenance.{Pod, resolve_pod_image_digest}
use steadystate.Provenance.Digest.{is_digest, EndsInDigest}
use steadystate.Provenance.Pods.{
  resolved, serves, pod_is_ready, pod_image_matches_desired, pod_container_image,
  pod_container_status,
}
use steadystate.Provenance.Laws.{Runs, resolved_iff}
use steadystate.Naming.{suffixed_name_with_limit}
use steadystate.Naming.Laws.{suffixed_name_bounds}
use steadystate.Tests.Data.{sums}

abbrev pub digest : Bytes
digest = bytes "sha256:0123456789abcdef0123456789abcdef0123456789abcdef0123456789abcdef"

abbrev image_id : Bytes
image_id = bytes "r@" ++ digest

image_id-EndsInDigest : EndsInDigest image_id digest
unfolding bytes is_digest has_prefix
image_id-EndsInDigest = record { shape = refl; place = inr (bytes "r", b'@', inl refl, refl) }

abbrev desired : Bytes
desired = bytes "r:v2"

abbrev pub serving_pod : Pod
serving_pod = record {
  name = bytes "a";
  deleting = false;
  conditions = record { kind = "Ready"; status = is_true } ∷ [];
  containers = record { name = "application"; image = desired } ∷ [];
  statuses = record { name = "application"; ready = true; image_id = image_id } ∷ [];
}

abbrev deleted_pod : Pod
deleted_pod = record serving_pod { deleting = true }

serving_pod-Runs : Runs desired digest serving_pod
unfolding bytes bytes_eq serves pod_is_ready pod_image_matches_desired pod_container_image
    pod_container_status
serving_pod-Runs = record {
  counts = refl;
  status = record { name = "application"; ready = true; image_id = image_id };
  listed = refl;
  ready = refl;
  image = image_id-EndsInDigest;
}

resolved_iff_example :
    ((resolve_pod_image_digest (deleted_pod ∷ serving_pod ∷ []) desired).state ≡ resolved)
    × ((resolve_pod_image_digest (deleted_pod ∷ serving_pod ∷ []) desired).digest ≡ digest)
unfolding serves
resolved_iff_example =
    (resolved_iff desired digest (deleted_pod ∷ serving_pod ∷ [])).1
      ((inl refl, (inr serving_pod-Runs, tt)), inr (inl serving_pod-Runs.counts))

abbrev long_name : Bytes
long_name = bytes "a-name-of-an-application"

suffixed_name_bounds_example :
    (length (suffixed_name_with_limit sums long_name (bytes "-stable") 20) ≤ 20)
    × (length (long_name ++ bytes "-stable") ≤ 20
        → suffixed_name_with_limit sums long_name (bytes "-stable") 20
          ≡ long_name ++ bytes "-stable")
    × (20 < length (long_name ++ bytes "-stable")
        → length (suffixed_name_with_limit sums long_name (bytes "-stable") 20) ≡ 20)
    × ((head : Bytes) × (suffixed_name_with_limit sums long_name (bytes "-stable") 20
          ≡ head ++ bytes "-stable"))
unfolding bytes
suffixed_name_bounds_example =
    suffixed_name_bounds sums long_name (bytes "-stable") 20 (omega arith)
