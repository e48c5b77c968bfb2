-- ===== src/Platform/Laws/Approved.antt =====
-- What the approval of a deletion makes of a manifest.
use steadystate.Prelude.{
  Bytes, bytes, bytes_eq, bytes_eq_iff, bytes_eq_refl, Bool, true, false, none, some, ◌≡◌, refl,
  arith, if◌then◌else◌,
}
use steadystate.Platform.Value.{Value, text, Fields, end, field, get, delete, put, map_or_empty}
use steadystate.Platform.Manifests.{sync_options, deletion_request_key, approved, approved_document}

get-delete :
    (j k : Bytes) (m : Fields) → get j (delete k m) ≡ (if bytes_eq k j then none else get j m)
unfolding get delete
get-delete j k end = ground arith
get-delete j k (field i v m) = ground (arith, bytes_eq_iff i k, bytes_eq_iff k j, get-delete j k m)

get-put :
    (j k : Bytes) (v : Value) (m : Fields)
    → get j (put k v m) ≡ (if bytes_eq k j then some v else get j m)
unfolding get put
get-put j k v m = ground (arith, get-delete j k m)

get-put_same : (k : Bytes) (v : Value) (m : Fields) → get k (put k v m) ≡ some v
get-put_same k v m = rw (get-put k k v m, bytes_eq_refl k)

-- The annotations of a manifest.
unfoldable pub annotations_of : Fields → Fields
annotations_of object =
    map_or_empty (get (bytes "annotations") (map_or_empty (get (bytes "metadata") object)))

unfoldable pub force_key : Bytes
force_key = bytes "steadystate.dev/force-delete"

-- The metadata of a manifest.
unfoldable pub metadata_of : Fields → Fields
metadata_of object = map_or_empty (get (bytes "metadata") object)

-- The manifest `after` has the deletion request and is no longer kept from being pruned; its other
-- annotations but the mark of a forced deletion, the rest of its metadata and its other fields are
-- those of the manifest `before`.
pub record IsReleased (request : Bytes) (before after : Fields) : Type 0 where
  pub requested : get deletion_request_key (annotations_of after) ≡ some (text request)
  pub released : get sync_options (annotations_of after) ≡ none
  pub annotations :
      (k : Bytes)
      → bytes_eq deletion_request_key k ≡ false
      → bytes_eq sync_options k ≡ false
      → bytes_eq force_key k ≡ false
      → get k (annotations_of after) ≡ get k (annotations_of before)
  pub metadata :
      (k : Bytes)
      → bytes_eq (bytes "annotations") k ≡ false
      → get k (metadata_of after) ≡ get k (metadata_of before)
  pub others : (k : Bytes) → bytes_eq (bytes "metadata") k ≡ false → get k after ≡ get k before

annotations-approved :
    (request : Bytes) (force : Bool) (object : Fields)
    → annotations_of (approved_document request force object)
      ≡ approved request force (annotations_of object)
unfolding annotations_of approved_document
annotations-approved request force object = simp (get-put_same)

get-approved :
    (k request : Bytes) (force : Bool) (m : Fields)
    → bytes_eq force_key k ≡ false
    → get k (approved request force m) ≡ (
        if bytes_eq deletion_request_key k
        then some (text request)
        else if bytes_eq sync_options k
        then none
        else get k m)
unfolding approved force_key
get-approved k request force m e = ground (
  arith,
  e,
  get-put k force_key (text (bytes "true"))
      (put deletion_request_key (text request) (delete sync_options m)),
  get-put k deletion_request_key (text request) (delete sync_options m),
  get-delete k sync_options m,
)

key_shape : bytes_eq deletion_request_key deletion_request_key ≡ true
key_shape = bytes_eq_refl deletion_request_key

sync_is_other : bytes_eq deletion_request_key sync_options ≡ false
unfolding bytes bytes_eq deletion_request_key sync_options
sync_is_other = refl

force_is_other : bytes_eq force_key deletion_request_key ≡ false
unfolding bytes bytes_eq deletion_request_key force_key
force_is_other = refl

force_is_not_sync : bytes_eq force_key sync_options ≡ false
unfolding bytes bytes_eq sync_options force_key
force_is_not_sync = refl

get-approved_request :
    (request : Bytes) (force : Bool) (m : Fields)
    → get deletion_request_key (approved request force m) ≡ some (text request)
get-approved_request request force m =
    rw (get-approved deletion_request_key request force m force_is_other, key_shape)

get-approved_sync :
    (request : Bytes) (force : Bool) (m : Fields)
    → get sync_options (approved request force m) ≡ none
get-approved_sync request force m = rw (
  get-approved sync_options request force m force_is_not_sync,
  sync_is_other,
  bytes_eq_refl sync_options,
)

get-approved_other :
    (k request : Bytes) (force : Bool) (m : Fields)
    → bytes_eq deletion_request_key k ≡ false
    → bytes_eq sync_options k ≡ false
    → bytes_eq force_key k ≡ false
    → get k (approved request force m) ≡ get k m
get-approved_other k request force m d s f = rw (get-approved k request force m f, d, s)

get-approved_document :
    (k request : Bytes) (force : Bool) (object : Fields)
    → bytes_eq (bytes "metadata") k ≡ false
    → get k (approved_document request force object) ≡ get k object
unfolding approved_document
get-approved_document k request force object e = rw (get-put, e)

get-approved_metadata :
    (k request : Bytes) (force : Bool) (object : Fields)
    → bytes_eq (bytes "annotations") k ≡ false
    → get k (metadata_of (approved_document request force object)) ≡ get k (metadata_of object)
unfolding approved_document metadata_of
get-approved_metadata k request force object e = simp (get-put_same, get-put, e)

-- An approved manifest carries the identity of the deletion request and is no longer kept from being
-- pruned. Its other annotations, but for the mark of a forced deletion, the rest of its metadata and its
-- other fields are those of the manifest before.
pub approved-IsReleased :
    (request : Bytes) (force : Bool) (object : Fields)
    → IsReleased request object (approved_document request force object)
approved-IsReleased request force object = record {
  requested = rw (annotations-approved request force object) (get-approved_request request force _);
  released = rw (annotations-approved request force object) (get-approved_sync request force _);
  annotations = λ k d s f.
      rw (annotations-approved request force object) (get-approved_other k request force _ d s f);
  metadata = λ k e. get-approved_metadata k request force object e;
  others = λ k e. get-approved_document k request force object e;
}
