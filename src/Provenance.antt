-- ===== src/Provenance.antt =====
-- internal/controller/application_provenance.go: which image digest the ready Pods run, and which
-- Git revision an Application was delivered from.
pub mod Digest
pub mod Pods
pub mod Laws
pub use Digest.{resolved_source_revision, normalize_image_digest}
pub use Pods.{
  PodCondition, Container, ContainerStatus, Pod, DigestState, Resolution, pod_image_matches_desired,
  resolve_pod_image_digest,
}
