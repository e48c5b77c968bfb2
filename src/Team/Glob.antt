-- ===== src/Team/Glob.antt =====
-- path.Match of Go's standard library, on ASCII texts: the pattern is cut into chunks at its stars,
-- each chunk is matched at the leftmost place, and a malformed pattern is an error.
use steadystate.Prelude.{
  ℕ, Bytes, Bool, true, false, not, ◌&&◌, ◌||◌, Option, none, some, List, [], ◌∷◌, ◌==◌, leb, any,
  all, if◌then◌else◌,
}
use mathlib.Core.Option

-- A term of a pattern; `set negated ranges` is `[…]`.
pub data Term : Type 0 where
  star any_char : Term
  set : Bool → List (ℕ × ℕ) → Term
  char : ℕ → Term

-- Where a reader of the pattern stands: outside of `[…]`, behind `\`, behind `[`, before an item,
-- behind `\` in an item, behind the low end, before the high end, behind `\` in it.
pub data Mode : Type 0 where
  outside escaped opened : Mode
  item item_escaped : Bool → List (ℕ × ℕ) → Mode
  low high high_escaped : Bool → List (ℕ × ℕ) → ℕ → Mode

-- A mode and, if it was completed, a term; `none` is ErrBadPattern.
abbrev Step : Type 0
Step = Option (Mode × Option Term)

abbrev is_empty {ℓ} : {A : Type ℓ} → List A → Bool
is_empty [] = true
is_empty (x ∷ xs) = false

unfoldable pub read_item : Bool → List (ℕ × ℕ) → ℕ → Step
read_item neg ranges c =
    if c == b']'
    then if is_empty ranges then none else some (outside, some (set neg ranges))
    else if c == b'-'
    then none
    else if c == 0x5c
    then some (item_escaped neg ranges, none)
    else some (low neg ranges c, none)

unfoldable pub read : Mode → ℕ → Step
unfolding read_item
read outside c =
    if c == b'*'
    then some (outside, some star)
    else if c == b'?'
    then some (outside, some any_char)
    else if c == b'['
    then some (opened, none)
    else if c == 0x5c
    then some (escaped, none)
    else some (outside, some (char c))
read escaped c = some (outside, some (char c))
read opened c = if c == b'^' then some (item true [], none) else read_item false [] c
read (item neg ranges) c = read_item neg ranges c
read (item_escaped neg ranges) c = some (low neg ranges c, none)
read (low neg ranges lo) c =
    if c == b'-' then some (high neg ranges lo, none) else read_item neg ((lo, lo) ∷ ranges) c
read (high neg ranges lo) c =
    if c == b']' || c == b'-'
    then none
    else if c == 0x5c
    then some (high_escaped neg ranges lo, none)
    else some (item neg ((lo, c) ∷ ranges), none)
read (high_escaped neg ranges lo) c = some (item neg ((lo, c) ∷ ranges), none)

unfoldable pub is_outside : Mode → Bool
is_outside outside = true
is_outside _ = false

abbrev onto : Option Term → List Term → List Term
onto none ts = ts
onto (some t) ts = t ∷ ts

unfoldable pub parse_from : Mode → Bytes → Option (List Term)
parse_from m [] = if is_outside m then some [] else none
parse_from m (c ∷ s) = elim (read m c) [
  | none ↦ none
  | some (m', t) ↦ Option.map (onto t) (parse_from m' s)
]

-- A chunk has no star; `starred` says that one stands before it.
pub record Chunk : Type 0 where
  pub starred : Bool
  pub terms : List Term

-- scanChunk, for the whole pattern: the terms up to the next star, and the chunks behind it.
abbrev extend : Term → List Term × List Chunk → List Term × List Chunk
extend star (ts, chunks) = ([], record { starred = true; terms = ts } ∷ chunks)
extend t (ts, chunks) = (t ∷ ts, chunks)

unfoldable pub split_chunks : List Term → List Term × List Chunk
split_chunks [] = ([], [])
split_chunks (t ∷ ts) = extend t (split_chunks ts)

-- Consecutive stars are one: a chunk that is empty and not the last is dropped.
unfoldable pub squeeze : List Chunk → List Chunk
squeeze [] = []
squeeze (c ∷ []) = c ∷ []
squeeze (c ∷ d ∷ cs) = if is_empty c.terms then squeeze (d ∷ cs) else c ∷ squeeze (d ∷ cs)

unfoldable pub chunks_of : List Term → List Chunk
unfolding split_chunks squeeze
chunks_of ts =
    let (first, rest) = split_chunks ts in
    if is_empty first
    then squeeze rest
    else record { starred = false; terms = first } ∷ squeeze rest

unfoldable pub term_matches : Term → ℕ → Bool
term_matches star c = false
term_matches any_char c = not (c == b'/')
term_matches (set neg ranges) c = if any (λ r. leb r.0 c && leb c r.1) ranges then not neg else neg
term_matches (char d) c = c == d

-- matchChunk: the rest of the name behind a match.
unfoldable pub match_chunk : List Term → Bytes → Option Bytes
match_chunk [] s = some s
match_chunk (t ∷ ts) [] = none
match_chunk (t ∷ ts) (c ∷ s) = if term_matches t c then match_chunk ts s else none

-- A match of the last chunk must reach the end of the name.
unfoldable pub try_chunk : List Term → Bool → Bytes → Option Bytes
try_chunk ts last s = elim (match_chunk ts s) [
  | none ↦ none
  | some rest ↦ if last && not (is_empty rest) then none else some rest
]

-- The loop behind a star, which skips one byte or more that are no "/".
unfoldable pub search_chunk : List Term → Bool → Bytes → Option Bytes
search_chunk ts last [] = none
search_chunk ts last (c ∷ s) = elim (try_chunk ts last s) [
  | some rest ↦ if c == b'/' then none else some rest
  | none ↦ let later = search_chunk ts last s in if c == b'/' then none else later
]

unfoldable pub find_chunk : Chunk → Bool → Bytes → Option Bytes
unfolding try_chunk search_chunk
find_chunk chunk last s = elim (try_chunk chunk.terms last s) [
  | some rest ↦ some rest
  | none ↦ if chunk.starred then search_chunk chunk.terms last s else none
]

unfoldable pub match_chunks : List Chunk → Bytes → Bool
unfolding find_chunk
match_chunks [] s = is_empty s
match_chunks (c ∷ cs) s =
    if c.starred && is_empty c.terms
    then all (λ b. not (b == b'/')) s
    else elim (find_chunk c (is_empty cs) s) [ none ↦ false | some rest ↦ match_chunks cs rest ]

-- `none` is ErrBadPattern.
unfoldable pub path_match : Bytes → Bytes → Option Bool
unfolding parse_from read is_outside chunks_of match_chunks term_matches match_chunk
path_match pattern name =
    Option.map (λ ts. match_chunks (chunks_of ts) name) (parse_from outside pattern)
