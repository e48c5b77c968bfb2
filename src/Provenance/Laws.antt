-- ===== src/Provenance/Laws.antt =====
-- When the Pods of an Application settle one image digest.
use steadystate.Prelude.{
  ◌+◌, ◌<◌, Bytes, bytes_eq_iff, bytes_eq_refl, contains, true, false, ◌≡◌, refl, ◌↔◌, ◌⊎◌, inl,
  inr, some, List, [], ◌∷◌, arith, All, Any, Option-cases, Result, ok, err, Result-cases,
}
use steadystate.Provenance.Digest.{
  normalize_image_digest_iff, normalize_image_digest_empty, EndsInDigest,
}
use steadystate.Provenance.Pods.{
  Pod, ContainerStatus, Report, skipped, missing, malformed, reported, resolved, invalid, Scan,
  Resolution, serves, pod_container_status, pod_report, add_digest, scan_pods, settle, conclude,
  no_pods, resolve_pod_image_digest,
}

-- A Pod that counts, whose ready container "application" reports an image ID that ends in `d`.
pub record Runs (desired d : Bytes) (pod : Pod) : Type 0 where
  pub counts : serves desired pod ≡ true
  pub status : ContainerStatus
  pub listed : pod_container_status pod.statuses "application" ≡ some status
  pub ready : status.ready ≡ true
  pub image : EndsInDigest status.image_id d

-- A Pod that does not count says nothing.
abbrev pub Agrees : Bytes → Bytes → Pod → Type 0
Agrees desired d pod = (serves desired pod ≡ false) ⊎ Runs desired d pod

abbrev pub Counts : Bytes → Pod → Type 0
Counts desired pod = serves desired pod ≡ true

module _ (desired : Bytes) where
  skipped_iff : (pod : Pod) → (pod_report desired pod ≡ skipped) ↔ (serves desired pod ≡ false)
  unfolding pod_report
  skipped_iff pod = ground (arith)

  reported-Runs : (d : Bytes) (pod : Pod) → pod_report desired pod ≡ reported d → Runs desired d pod
  unfolding pod_report
  reported-Runs d pod h = elim (Option-cases (pod_container_status pod.statuses "application")) [
    | inl gone ↦ absurd (ground arith)
    | inr (s, listed) ↦ record {
      counts = ground arith;
      status = s;
      listed = listed;
      ready = ground arith;
      image = (normalize_image_digest_iff s.image_id d).0 (ground arith);
    }
  ]

  Runs-reported : (d : Bytes) (pod : Pod) → Runs desired d pod → pod_report desired pod ≡ reported d
  unfolding pod_report
  Runs-reported d pod r = ground (
    arith,
    r.counts,
    r.listed,
    r.ready,
    normalize_image_digest_empty,
    (normalize_image_digest_iff r.status.image_id d).1 r.image,
  )

  Report-cases :
      (r : Report)
      → (r ≡ skipped)
        ⊎ ((r ≡ missing) ⊎ (((id : Bytes) × (r ≡ malformed id)) ⊎ ((d : Bytes) × (r ≡ reported d))))
  Report-cases skipped = inl refl
  Report-cases missing = inr (inl refl)
  Report-cases (malformed id) = inr (inr (inl (id, refl)))
  Report-cases (reported d) = inr (inr (inr (d, refl)))

  -- The set holds at most `d`.
  abbrev Single : Bytes → List Bytes → Type 0
  Single d ds = (ds ≡ []) ⊎ (ds ≡ d ∷ [])

  add_digest-Single :
      (d e : Bytes) (ds : List Bytes) → Single d (add_digest e ds) → (e ≡ d) × Single d ds
  unfolding contains
  add_digest-Single d e [] h = ground arith
  add_digest-Single d e (x ∷ ds) h = ground (arith, bytes_eq_iff x e)

  scan_sound :
      (d : Bytes) (s t : Scan) (pods : List Pod)
      → scan_pods desired s pods ≡ ok t
      → t.missing_image_id ≡ false
      → Single d t.digests
      → (s.missing_image_id ≡ false)
        × Single d s.digests
        × All (Agrees desired d) pods
        × ((t.ready_desired_pods ≡ s.ready_desired_pods) ⊎ Any (Counts desired) pods)
  unfolding scan_pods
  scan_sound d s t [] h m g = ground arith
  scan_sound d s t (pod ∷ pods) h m g = elim (Report-cases (pod_report desired pod)) [
    | inl e ↦
        let (m', g', every, counted) = scan_sound d s t pods (ground arith) m g in
        (
          m',
          g',
          (inl ((skipped_iff pod).0 e), every),
          elim counted [ inl n ↦ inl n | inr a ↦ inr (inr a) ],
        )
    | inr (inl e) ↦
        let (m', g', every, counted) =
          scan_sound d
            (record s { ready_desired_pods = s.ready_desired_pods + 1; missing_image_id = true }) t
            pods (ground arith) m g in
        absurd (ground arith)
    | inr (inr (inl (id, e))) ↦ absurd (ground arith)
    | inr (inr (inr (e', e))) ↦
        let (m', g', every, counted) =
          scan_sound d
            (record s {
              ready_desired_pods = s.ready_desired_pods + 1;
              digests = add_digest e' s.digests;
            })
            t pods (ground arith) m g in
        let (same, g'') = add_digest-Single d e' s.digests g' in
        let runs = reported-Runs d pod (ground arith) in
        (m', g'', (inr runs, every), inr (inl runs.counts))
  ]

  -- The loop ends with the one digest `d`.
  abbrev Settles : Bytes → Result Resolution Scan → Type 0
  Settles d r =
      (t : Scan) × (r ≡ ok t)
      × (t.missing_image_id ≡ false)
      × (t.digests ≡ d ∷ [])
      × (0 < t.ready_desired_pods)

  add_digest_again : (d : Bytes) (ds : List Bytes) → ds ≡ d ∷ [] → add_digest d ds ≡ d ∷ []
  unfolding contains
  add_digest_again d ds h = ground (arith, bytes_eq_refl d)

  scan-Settles_on :
      (d : Bytes) (s : Scan) (pods : List Pod)
      → s.missing_image_id ≡ false
      → s.digests ≡ d ∷ []
      → 0 < s.ready_desired_pods
      → All (Agrees desired d) pods
      → Settles d (scan_pods desired s pods)
  unfolding scan_pods
  scan-Settles_on d s [] m g n h = (s, refl, m, g, n)
  scan-Settles_on d s (pod ∷ pods) m g n (inl e, h) =
      rw ((skipped_iff pod).1 e, scan_pods) (scan-Settles_on d s pods m g n h)
  scan-Settles_on d s (pod ∷ pods) m g n (inr r, h) =
      rw (Runs-reported d pod r, scan_pods)
        (scan-Settles_on d
          (record s {
            ready_desired_pods = s.ready_desired_pods + 1;
            digests = add_digest d s.digests;
          })
          pods m (add_digest_again d s.digests g) (omega arith) h)

  scan-Settles :
      (d : Bytes) (s : Scan) (pods : List Pod)
      → s.missing_image_id ≡ false
      → s.digests ≡ []
      → All (Agrees desired d) pods
      → Any (Counts desired) pods
      → Settles d (scan_pods desired s pods)
  unfolding scan_pods contains
  scan-Settles d s [] m g h a = absurd a
  scan-Settles d s (pod ∷ pods) m g (inl e, h) (inl c) = absurd (ground arith)
  scan-Settles d s (pod ∷ pods) m g (inl e, h) (inr a) =
      rw ((skipped_iff pod).1 e, scan_pods) (scan-Settles d s pods m g h a)
  scan-Settles d s (pod ∷ pods) m g (inr r, h) a =
      rw (Runs-reported d pod r, scan_pods)
        (scan-Settles_on d
          (record s {
            ready_desired_pods = s.ready_desired_pods + 1;
            digests = add_digest d s.digests;
          })
          pods m (ground arith) (omega arith) h)

  conclude-resolved :
      (d : Bytes) (t : Scan)
      → ((conclude t).state ≡ resolved) × ((conclude t).digest ≡ d)
      → (t.missing_image_id ≡ false) × (t.digests ≡ d ∷ []) × (0 < t.ready_desired_pods)
  unfolding conclude
  conclude-resolved d t h = ground arith

  Settles-resolved :
      (d : Bytes) (r : Result Resolution Scan)
      → Settles d r
      → ((settle r).state ≡ resolved) × ((settle r).digest ≡ d)
  unfolding conclude
  Settles-resolved d r (t, e, m, g, n) = ground arith

  scan_failed :
      (s : Scan) (r : Resolution) (pods : List Pod)
      → scan_pods desired s pods ≡ err r
      → r.state ≡ invalid
  unfolding scan_pods
  scan_failed s r [] h = cc
  scan_failed s r (pod ∷ pods) h = elim (Report-cases (pod_report desired pod)) [
    | inl e ↦ ground (arith, scan_failed s r pods)
    | inr (inl e) ↦
        scan_failed
          (record s { ready_desired_pods = s.ready_desired_pods + 1; missing_image_id = true }) r
          pods (ground arith)
    | inr (inr (inl (id, e))) ↦ ground arith
    | inr (inr (inr (d, e))) ↦
        scan_failed
          (record s {
            ready_desired_pods = s.ready_desired_pods + 1;
            digests = add_digest d s.digests;
          })
          r pods (ground arith)
  ]

  -- resolvePodImageDigest settles on the digest `d` exactly when at least one Pod counts (it is not
  -- being deleted, is ready and runs the desired image) and every Pod that counts has a ready
  -- container "application" whose image ID ends in `d`.
  pub resolved_iff :
      (d : Bytes) (pods : List Pod)
      → (((resolve_pod_image_digest pods desired).state ≡ resolved)
          × ((resolve_pod_image_digest pods desired).digest ≡ d))
        ↔ (All (Agrees desired d) pods × Any (Counts desired) pods)
  unfolding resolve_pod_image_digest
  resolved_iff d pods = (
    λ h. elim (Result-cases (scan_pods desired no_pods pods)) [
      | inl (t, e) ↦
          let (m, g, n) = conclude-resolved d t (rw e at h) in
          let (_, _, every, counted) = scan_sound d no_pods t pods e m (inr g) in
          (every, elim counted [ inl none_counted ↦ absurd (omega arith) | inr a ↦ a ])
      | inr (r, e) ↦ absurd (ground (arith, scan_failed no_pods r pods e))
    ],
    λ (h, a). Settles-resolved d _ (scan-Settles d no_pods pods refl refl h a),
  )
