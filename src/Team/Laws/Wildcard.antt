-- ===== src/Team/Laws/Wildcard.antt =====
-- What the patterns of an allow-list admit: a plain pattern itself, and a plain prefix with a star
-- behind it one more path segment.
use steadystate.Prelude.{
  ℕ, Bytes, true, false, not, ◌≡◌, refl, ap, ◌≢◌, ◌↔◌, inl, inr, some, List, [], ◌∷◌, ◌++◌, arith,
  ◌==◌, all, All, Any, Option-cases,
}
use steadystate.Team.Glob.{
  Term, star, char, outside, Chunk, read, parse_from, split_chunks, chunks_of, squeeze, match_chunk,
  term_matches, match_chunks, path_match, is_outside,
}
use steadystate.Team.Validation.{repository_allowed}

-- A byte that stands for itself in a pattern: not "*", "?", "[" or "\".
abbrev pub IsPlain : ℕ → Type 0
IsPlain c = (c ≢ b'*') × (c ≢ b'?') × (c ≢ b'[') × (c ≢ 0x5c)

literals : Bytes → List Term → List Term
literals [] ts = ts
literals (c ∷ p) ts = char c ∷ literals p ts

parse-plain :
    (p rest : Bytes) (ts : List Term)
    → All IsPlain p
    → parse_from outside rest ≡ some ts
    → parse_from outside (p ++ rest) ≡ some (literals p ts)
unfolding parse_from read literals
parse-plain [] rest ts h e = e
parse-plain (c ∷ p) rest ts (plain, h) e = ground (arith, parse-plain p rest ts h e)

split-literals :
    (p : Bytes) (ts : List Term)
    → split_chunks (literals p ts) ≡ (literals p (split_chunks ts).0, (split_chunks ts).1)
unfolding split_chunks literals
split-literals [] ts = refl
split-literals (c ∷ p) ts = rw (split-literals p ts)

match-literals_iff :
    (p s rest : Bytes) → (match_chunk (literals p []) s ≡ some rest) ↔ (s ≡ p ++ rest)
unfolding match_chunk literals term_matches
match-literals_iff [] s rest = (λ h. ground arith, λ h. ground arith)
match-literals_iff (c ∷ p) [] rest = (λ h. cc, λ h. cc)
match-literals_iff (c ∷ p) (d ∷ s) rest = (
  (λ h. ground (arith, (match-literals_iff p s rest).0)),
  (λ h. ground (arith, (match-literals_iff p s rest).1)),
)

-- A chunk with a star before it and nothing behind, at the end of a pattern.
abbrev tail : Chunk
tail = record { starred = true; terms = [] }

abbrev NoSlash : Bytes → Type 0
NoSlash s = All (λ b. b ≢ b'/') s

all-NoSlash_iff : (s : Bytes) → (all (λ b. not (b == b'/')) s ≡ true) ↔ NoSlash s
all-NoSlash_iff [] = (λ h. tt, λ h. refl)
all-NoSlash_iff (c ∷ s) = (
  (λ h. ((λ e. ground arith), (all-NoSlash_iff s).0 (ground arith))),
  λ (n, h). ground (arith, (all-NoSlash_iff s).1 h),
)

tail_iff : (s : Bytes) → (match_chunks (tail ∷ []) s ≡ true) ↔ NoSlash s
unfolding match_chunks
tail_iff s = all-NoSlash_iff s

prefix_iff :
    (c : ℕ) (p s : Bytes)
    → (match_chunks (record { starred = false; terms = literals (c ∷ p) [] } ∷ tail ∷ []) s ≡ true)
      ↔ ((seg : Bytes) × (s ≡ (c ∷ p) ++ seg) × NoSlash seg)
unfolding match_chunks literals
prefix_iff c p s = (
  λ h. elim (Option-cases (match_chunk (literals (c ∷ p) []) s)) [
    | inl e ↦ absurd (ground arith)
    | inr (rest, e) ↦
        (rest, (match-literals_iff (c ∷ p) s rest).0 e, (all-NoSlash_iff rest).0 (ground arith))
  ],
  λ (seg, e, free).
      ground (arith, (match-literals_iff (c ∷ p) s seg).1 e, (all-NoSlash_iff seg).1 free),
)

parse-star : parse_from outside (b'*' ∷ []) ≡ some (star ∷ [])
unfolding parse_from read is_outside
parse-star = refl

chunks-literals :
    (c : ℕ) (p : Bytes)
    → chunks_of (literals (c ∷ p) (star ∷ []))
      ≡ record { starred = false; terms = literals (c ∷ p) [] } ∷ tail ∷ []
unfolding chunks_of literals split_chunks squeeze
chunks-literals c p = rw (split-literals p (star ∷ []))

-- A pattern that is a plain text and a star admits exactly the names that go on behind that text
-- with no further "/": "ghcr.io/org/*" admits every repository of the organisation and none of a
-- deeper path.
pub wildcard_iff :
    (c : ℕ) (p name : Bytes)
    → All IsPlain (c ∷ p)
    → (path_match ((c ∷ p) ++ b'*' ∷ []) name ≡ some true)
      ↔ ((seg : Bytes) × (name ≡ (c ∷ p) ++ seg) × NoSlash seg)
unfolding path_match
wildcard_iff c p name h =
    rw (parse-plain (c ∷ p) (b'*' ∷ []) (star ∷ []) h parse-star, chunks-literals c p)
      (let (to, from) = prefix_iff c p name in ((λ e. to (ground arith)), λ w. ap some (from w)))

-- An allow-list admits a repository exactly when one of its patterns matches it.
pub repository_allowed_iff :
    (patterns : List Bytes) (repository : Bytes)
    → (repository_allowed patterns repository ≡ true)
      ↔ Any (λ p. path_match p repository ≡ some true) patterns
unfolding repository_allowed
repository_allowed_iff [] repository = (λ h. cc, λ h. absurd h)
repository_allowed_iff (p ∷ ps) repository = (
  λ h. elim (Option-cases (path_match p repository)) [
    | inl e ↦ inr ((repository_allowed_iff ps repository).0 (ground arith))
    | inr (true, e) ↦ inl e
    | inr (false, e) ↦ inr ((repository_allowed_iff ps repository).0 (ground arith))
  ],
  λ h. elim h [
    | inl e ↦ ground arith
    | inr a ↦ ground (arith, (repository_allowed_iff ps repository).1 a)
  ],
)
