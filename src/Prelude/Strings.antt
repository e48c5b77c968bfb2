-- ===== src/Prelude/Strings.antt =====
-- A Go string is a list of bytes. Dynamic text (names, images, revisions) is a `Bytes`; the closed
-- vocabularies (condition types, reasons, phases) are native strings, which are only compared.
use Prim.Native.Nat.{ℕ, ◌+◌}
use Prim.Native.Char.{code}
use Prim.Native.String.{String}
use mathlib.Core.Path.{◌≡◌, refl}
use mathlib.Core.Logic.{◌↔◌}
use mathlib.Core.Bool.{Bool, true, false, ◌&&◌, ◌||◌}
use mathlib.Core.List.{List, [], ◌∷◌, ◌++◌}
use mathlib.Core.Option.{Option, none, some}
use native.Mathlib.Omega.{arith}
use steadystate.Prelude.Tests.{◌==◌, leb, ltb, if◌then◌else◌}

abbrev pub Bytes : Type 0
Bytes = List ℕ

-- The bytes of an ASCII literal. Shut, so that long literals stay folded in proofs.
unfoldable pub bytes : String → Bytes
bytes String.[] = []
bytes (String.◌∷◌ c s) = code c ∷ bytes s

-- Go's `==` on strings.
unfoldable pub bytes_eq : Bytes → Bytes → Bool
bytes_eq [] [] = true
bytes_eq (x ∷ xs) (y ∷ ys) = x == y && bytes_eq xs ys
bytes_eq _ _ = false

pub bytes_eq_iff : (xs ys : Bytes) → (bytes_eq xs ys ≡ true) ↔ (xs ≡ ys)
unfolding bytes_eq
bytes_eq_iff [] [] = ground arith
bytes_eq_iff [] (y ∷ ys) = ground arith
bytes_eq_iff (x ∷ xs) [] = ground arith
bytes_eq_iff (x ∷ xs) (y ∷ ys) = ground (arith, bytes_eq_iff xs ys)

pub bytes_eq_refl : (xs : Bytes) → bytes_eq xs xs ≡ true
bytes_eq_refl xs = (bytes_eq_iff xs xs).1 refl

-- `strings.HasPrefix(s, prefix)`.
unfoldable pub has_prefix : Bytes → Bytes → Bool
has_prefix s [] = true
has_prefix [] (p ∷ ps) = false
has_prefix (c ∷ s) (p ∷ ps) = c == p && has_prefix s ps

-- `_, exists := seen[value]` on a set of strings.
unfoldable pub contains : List Bytes → Bytes → Bool
contains [] v = false
contains (x ∷ xs) v = bytes_eq x v || contains xs v

-- `unicode.ToLower` on one ASCII byte.
abbrev pub lower : ℕ → ℕ
lower c = if leb b'A' c && leb c b'Z' then c + 32 else c

-- `strings.EqualFold` on ASCII text, the only text that the program applies it to.
unfoldable pub equal_fold : Bytes → Bytes → Bool
equal_fold [] [] = true
equal_fold (x ∷ xs) (y ∷ ys) = lower x == lower y && equal_fold xs ys
equal_fold _ _ = false

-- `strings.Join`.
unfoldable pub join : Bytes → List Bytes → Bytes
join sep [] = []
join sep (x ∷ []) = x
join sep (x ∷ y ∷ ys) = x ++ (sep ++ join sep (y ∷ ys))

-- Go's `<` on strings.
unfoldable pub bytes_lt : Bytes → Bytes → Bool
bytes_lt xs [] = false
bytes_lt [] (y ∷ ys) = true
bytes_lt (x ∷ xs) (y ∷ ys) = ltb x y || (x == y && bytes_lt xs ys)

insert_sorted : Bytes → List Bytes → List Bytes
unfolding bytes_lt
insert_sorted x [] = x ∷ []
insert_sorted x (y ∷ ys) = if bytes_lt y x then y ∷ insert_sorted x ys else x ∷ y ∷ ys

-- `sort.Strings`: the sorted list of the same strings, whatever the algorithm.
unfoldable pub sort_strings : List Bytes → List Bytes
unfolding insert_sorted
sort_strings [] = []
sort_strings (x ∷ xs) = insert_sorted x (sort_strings xs)

-- `s[:strings.LastIndex(s, sep)]` for a separator of one byte; `none` where there is none.
unfoldable pub before_last : ℕ → Bytes → Option Bytes
before_last sep [] = none
before_last sep (c ∷ s) = elim (before_last sep s) [
  | some p ↦ some (c ∷ p)
  | none ↦ if c == sep then some [] else none
]

-- A lookup in a map of strings.
unfoldable pub lookup {ℓ} : {V : Type ℓ} → Bytes → List (Bytes × V) → Option V
lookup k [] = none
lookup k ((j, v) ∷ m) = if bytes_eq j k then some v else lookup k m

-- `m[key]`, the empty string where the key is missing.
unfoldable pub get_or_empty : Bytes → List (Bytes × Bytes) → Bytes
unfolding lookup
get_or_empty k m = elim (lookup k m) [ none ↦ [] | some v ↦ v ]

-- `[0-9a-f]`.
abbrev pub is_hex : ℕ → Bool
is_hex c = (leb b'0' c && leb c b'9') || (leb b'a' c && leb c b'f')
