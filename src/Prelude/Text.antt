-- ===== src/Prelude/Text.antt =====
-- White space in Go texts: `unicode.IsSpace` on UTF-8, `\s` of RE2, and the suffix "%".
use steadystate.Prelude.Tests.{◌==◌, leb, if◌then◌else◌}
use steadystate.Prelude.Strings.{Bytes}
use Prim.Native.Nat.{ℕ, zero, suc, ◌+◌}
use mathlib.Core.Bool.{Bool, true, false, ◌&&◌, ◌||◌}
use mathlib.Core.List.{List, [], ◌∷◌, ◌++◌}
use mathlib.Core.Option
use mathlib.Core.Option.{Option, none, some}

-- The ASCII code points of `unicode.IsSpace`: tab, line feed, vertical tab, form feed, carriage
-- return and space.
abbrev pub ascii_space : ℕ → Bool
ascii_space c = (leb 9 c && leb c 13) || c == 32

-- How far into the UTF-8 form of a space outside ASCII a reader is: U+0085 and U+00A0 (c2),
-- U+1680 (e1 9a), U+2000 to U+200A, U+2028, U+2029 and U+202F (e2 80), U+205F (e2 81), U+3000
-- (e3 80).
pub data SpaceState : Type 0 where
  start c2 e1 e1_9a e2 e2_80 e2_81 e3 e3_80 : SpaceState

abbrev when : Bool → SpaceState → Option SpaceState
when true s = some s
when false s = none

-- `none`: the bytes read so far are no run of spaces.
pub next_space : SpaceState → ℕ → Option SpaceState
next_space start c =
    if ascii_space c
    then some start
    else if c == 0xc2
    then some c2
    else if c == 0xe1
    then some e1
    else if c == 0xe2
    then some e2
    else when (c == 0xe3) e3
next_space c2 c = when (c == 0x85 || c == 0xa0) start
next_space e1 c = when (c == 0x9a) e1_9a
next_space e1_9a c = when (c == 0x80) start
next_space e2 c = if c == 0x80 then some e2_80 else when (c == 0x81) e2_81
next_space e2_80 c = when ((leb 0x80 c && leb c 0x8a) || c == 0xa8 || c == 0xa9 || c == 0xaf) start
next_space e2_81 c = when (c == 0x9f) start
next_space e3 c = when (c == 0x80) e3_80
next_space e3_80 c = when (c == 0x80) start

abbrev is_start : SpaceState → Bool
is_start start = true
is_start _ = false

pub blank_from : SpaceState → Bytes → Bool
blank_from st [] = is_start st
blank_from st (c ∷ s) = elim (next_space st c) [ none ↦ false | some st' ↦ blank_from st' s ]

-- `strings.TrimSpace(s) == ""`.
unfoldable pub is_blank : Bytes → Bool
unfolding blank_from next_space
is_blank s = blank_from start s

-- Whether some space begins at the head of the text, read byte by byte from `st`.
pub space_from : SpaceState → Bytes → Bool
space_from st [] = false
space_from st (c ∷ s) = elim (next_space st c) [
  | none ↦ false
  | some st' ↦ if is_start st' then true else space_from st' s
]

-- `strings.IndexFunc(s, unicode.IsSpace) >= 0`. A lead byte is no continuation byte, so a space is
-- found at its first byte.
unfoldable pub contains_space : Bytes → Bool
unfolding space_from next_space
contains_space [] = false
contains_space (c ∷ s) = space_from start (c ∷ s) || contains_space s

-- `\s` of RE2: tab, line feed, form feed, carriage return and space.
abbrev pub re2_space : ℕ → Bool
re2_space c = c == 9 || c == 10 || c == 12 || c == 13 || c == 32

-- `strings.HasSuffix(s, "%")` with `strings.TrimSuffix(s, "%")` as the result.
unfoldable pub cut_percent : Bytes → Option Bytes
cut_percent [] = none
cut_percent (c ∷ []) = if c == b'%' then some [] else none
cut_percent (c ∷ d ∷ s) = Option.map (λ r. c ∷ r) (cut_percent (d ∷ s))

-- How many bytes the space at the head of the text has, read from `st`; 0 where no space is.
pub length_from : SpaceState → ℕ → Bytes → ℕ
length_from st n [] = 0
length_from st n (c ∷ s) = elim (next_space st c) [
  | none ↦ 0
  | some st' ↦ if is_start st' then n + 1 else length_from st' (n + 1) s
]

unfoldable pub space_length : Bytes → ℕ
unfolding length_from next_space
space_length s = length_from start 0 s

abbrev flush : Bytes → List Bytes → List Bytes
flush [] words = words
flush (c ∷ w) words = (c ∷ w) ∷ words

-- The loop of `strings.Fields`, with the bytes of the current space still to skip and the current word.
unfoldable pub fields_from : ℕ → Bytes → Bytes → List Bytes
fields_from skip word [] = flush word []
fields_from (suc skip) word (c ∷ s) = fields_from skip word s
fields_from zero word (c ∷ s) = elim (space_length (c ∷ s)) [
  | zero ↦ fields_from zero (word ++ c ∷ []) s
  | suc n ↦ flush word (fields_from n [] s)
]

-- `strings.Fields`.
unfoldable pub fields : Bytes → List Bytes
unfolding fields_from
fields s = fields_from zero [] s

-- `strings.TrimLeftFunc(s, unicode.IsSpace)`, with the bytes of the current space still to skip.
unfoldable pub trim_left : ℕ → Bytes → Bytes
trim_left skip [] = []
trim_left (suc skip) (c ∷ s) = trim_left skip s
trim_left zero (c ∷ s) = elim (space_length (c ∷ s)) [ zero ↦ c ∷ s | suc n ↦ trim_left n s ]

-- `strings.TrimRightFunc(s, unicode.IsSpace)`.
unfoldable pub trim_right : Bytes → Bytes
trim_right [] = []
trim_right (c ∷ s) = let rest = trim_right s in if is_blank (c ∷ s) then [] else c ∷ rest

-- `strings.TrimSpace`.
unfoldable pub trim_space : Bytes → Bytes
unfolding trim_left trim_right
trim_space s = trim_right (trim_left zero s)
