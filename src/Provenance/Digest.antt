-- ===== src/Provenance/Digest.antt =====
-- The two patterns: sourceRevisionPattern and imageDigestPattern.
use steadystate.Prelude.{
  ℕ, Bytes, bytes, has_prefix, lookup, Bool, true, ◌&&◌, ◌||◌, ◌≡◌, refl, ◌↔◌, ◌⊎◌, inl, inr,
  Option, none, some, List, [], ◌∷◌, ◌++◌, ◌==◌, arith, length, length-append, drop, all, is_hex,
  if◌then◌else◌, Bool-cases, Result, ok, err,
}

pub data RevisionError : Type 0 where
  not_an_object_id : RevisionError

-- `^([0-9a-f]{40}|[0-9a-f]{64})$`.
unfoldable pub is_object_id : Bytes → Bool
is_object_id s = all is_hex s && (length s == 40 || length s == 64)

-- resolvedSourceRevision. The empty text stands for an absent annotation.
unfoldable pub resolved_source_revision : List (Bytes × Bytes) → Result RevisionError Bytes
unfolding is_object_id
resolved_source_revision annotations =
    elim (lookup (bytes "steadystate.dev/source-revision") annotations) [
      | none ↦ ok []
      | some revision ↦ if is_object_id revision then ok revision else err not_an_object_id
    ]

-- `sha256:[0-9a-f]{64}`, the whole text.
unfoldable pub is_digest : Bytes → Bool
is_digest s = has_prefix s (bytes "sha256:") && length s == 71 && all is_hex (drop 7 s)

abbrev is_separator : ℕ → Bool
is_separator c = c == b'@' || c == b'/'

-- The matches that begin with `[@/]`, from the left.
pub find_separated : Bytes → Option Bytes
find_separated [] = none
find_separated (c ∷ s) = if is_separator c && is_digest s then some s else find_separated s

-- normalizeImageDigest: the second group of `(^|[@/])(sha256:[0-9a-f]{64})$`.
unfoldable pub normalize_image_digest : Bytes → Option Bytes
unfolding find_separated
normalize_image_digest id = if is_digest id then some id else find_separated id

-- The text is the digest, or ends in "@" or "/" and the digest.
pub record EndsInDigest (id d : Bytes) : Type 0 where
  pub shape : is_digest d ≡ true
  pub place :
      (id ≡ d) ⊎ ((before : Bytes) × (c : ℕ) × ((c ≡ b'@') ⊎ (c ≡ b'/')) × (id ≡ before ++ c ∷ d))

find_separated_sound :
    (id d : Bytes)
    → find_separated id ≡ some d
    → (is_digest d ≡ true)
      × ((before : Bytes) × (c : ℕ) × ((c ≡ b'@') ⊎ (c ≡ b'/')) × (id ≡ before ++ c ∷ d))
unfolding find_separated
find_separated_sound [] d h = cc
find_separated_sound (c ∷ s) d h = elim (Bool-cases (is_separator c && is_digest s)) [
  | inl here ↦
      let same : s ≡ d = ground arith in rw (← same) (ground arith, ([], c, ground arith, refl))
  | inr later ↦
      let (shape, (before, b, sep, e)) = find_separated_sound s d (ground arith) in
      (shape, (c ∷ before, b, sep, rw e))
]

digest_length : (d : Bytes) → is_digest d ≡ true → length d ≡ 71
unfolding is_digest
digest_length d h = ground arith

find_separated_complete :
    (before : Bytes) (c : ℕ) (d : Bytes)
    → is_separator c ≡ true
    → is_digest d ≡ true
    → find_separated (before ++ c ∷ d) ≡ some d
unfolding find_separated
find_separated_complete [] c d sep shape = ground arith
find_separated_complete (x ∷ before) c d sep shape =
    elim (Bool-cases (is_digest (before ++ c ∷ d))) [
      | inl long ↦ absurd (
          omega (
            arith,
            digest_length (before ++ c ∷ d) long,
            digest_length d shape,
            length-append before (c ∷ d),
          ))
      | inr short ↦ ground (arith, find_separated_complete before c d)
    ]

-- normalizeImageDigest returns exactly the digest that the image ID ends in.
pub normalize_image_digest_iff :
    (id d : Bytes) → (normalize_image_digest id ≡ some d) ↔ EndsInDigest id d
unfolding normalize_image_digest
normalize_image_digest_iff id d = (sound, complete)
  where
    sound : normalize_image_digest id ≡ some d → EndsInDigest id d
    sound h = elim (Bool-cases (is_digest id)) [
      | inl whole ↦
          let same : id ≡ d = ground arith in record { shape = rw (← same) whole; place = inl same }
      | inr part ↦
          let (shape, (before, c, sep, e)) = find_separated_sound id d (ground arith) in
          record { shape = shape; place = inr (before, c, sep, e) }
    ]

    behind :
        (before : Bytes) (c : ℕ)
        → (c ≡ b'@') ⊎ (c ≡ b'/')
        → is_digest d ≡ true
        → normalize_image_digest (before ++ c ∷ d) ≡ some d
    behind before c sep shape = elim (Bool-cases (is_digest (before ++ c ∷ d))) [
      | inl long ↦ absurd (
          omega (
            arith,
            digest_length (before ++ c ∷ d) long,
            digest_length d shape,
            length-append before (c ∷ d),
          ))
      | inr short ↦ ground (arith, find_separated_complete before c d)
    ]

    complete : EndsInDigest id d → normalize_image_digest id ≡ some d
    complete v = elim v.place [
      | inl same ↦ rw same (ground (arith, v.shape))
      | inr (before, c, sep, e) ↦ rw e (behind before c sep v.shape)
    ]

pub normalize_image_digest_empty : normalize_image_digest [] ≡ none
unfolding normalize_image_digest is_digest
normalize_image_digest_empty = ground arith
