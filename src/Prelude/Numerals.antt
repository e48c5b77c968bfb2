-- ===== src/Prelude/Numerals.antt =====
-- Decimal numerals: strconv.FormatInt and strconv.ParseInt, and that one reads back the other.
use Prim.Native.Nat.{ℕ, zero, suc, ◌/◌, ◌%◌, ◌+◌, ◌-◌, ◌*◌, ◌≤◌, ◌<◌}
use mathlib.Core.Path.{◌≡◌, refl, ap, ◌∙◌}
use mathlib.Core.Logic.{inl, inr}
use mathlib.Core.Bool.{true, false, ◌&&◌}
use mathlib.Core.List.{[], ◌∷◌}
use mathlib.Core.Option.{Option, none, some}
use native.Mathlib.Omega.{arith}
use steadystate.Prelude.Tests.{◌==◌, leb, ltb, if◌then◌else◌, Bool-cases}
use steadystate.Prelude.Lists.{All}
use steadystate.Prelude.Strings.{Bytes}
use steadystate.Prelude.Int.{ℤ, pos, negsuc}

-- The decimal digits in front of `acc`; one round for each digit, so `n + 1` rounds are enough.
digits_onto : ℕ → ℕ → Bytes → Bytes
digits_onto zero n acc = acc
digits_onto (suc fuel) n acc =
    let rest = digits_onto fuel (n / 10) ((b'0' + n % 10) ∷ acc) in
    if ltb n 10 then (b'0' + n) ∷ acc else rest

-- `strconv.FormatInt(n, 10)` of a number that is not negative.
unfoldable pub format_int : ℕ → Bytes
unfolding digits_onto
format_int n = digits_onto (suc n) n []

-- The number whose digits follow those of `a`.
abbrev number_from : ℕ → Bytes → ℕ
number_from a [] = a
number_from a (c ∷ s) = number_from (a * 10 + (c - 48)) s

digits_onto_inverse :
    (fuel n : ℕ) (acc : Bytes)
    → n ≤ fuel
    → number_from 0 (digits_onto (suc fuel) n acc) ≡ number_from n acc
unfolding digits_onto
digits_onto_inverse zero n acc h = let same : n ≡ 0 = omega arith in rw (same, digits_onto) refl
digits_onto_inverse (suc fuel) n acc h = elim (Bool-cases (ltb n 10)) [
  | inl e ↦ rw e (ap (λ m. number_from m acc) (omega arith))
  | inr e ↦ rw e (
      digits_onto_inverse fuel (n / 10) ((b'0' + n % 10) ∷ acc) (ground arith)
      ∙ ap (λ m. number_from m acc) (omega arith))
]

-- The rounds are enough: the digits read back as the number.
format_int_inverse : (n : ℕ) → number_from 0 (format_int n) ≡ n
unfolding format_int
format_int_inverse n = digits_onto_inverse n n [] (omega arith)

-- `c` is one of '0' to '9'.
abbrev pub IsDigit : ℕ → Type 0
IsDigit c = (48 ≤ c) × (c ≤ 57)

digits_onto-IsDigit :
    (fuel n : ℕ) (acc : Bytes)
    → n ≤ fuel
    → All IsDigit acc
    → All IsDigit (digits_onto (suc fuel) n acc)
unfolding digits_onto
digits_onto-IsDigit zero n acc h d =
    let same : n ≡ 0 = omega arith in rw (same, digits_onto) ((omega arith, omega arith), d)
digits_onto-IsDigit (suc fuel) n acc h d = elim (Bool-cases (ltb n 10)) [
  | inl e ↦ rw (e, All) ((omega arith, ground arith), d)
  | inr e ↦ rw e (
      digits_onto-IsDigit fuel (n / 10) ((b'0' + n % 10) ∷ acc) (ground arith)
        ((omega arith, omega arith), d))
]

pub format_int-IsDigit : (n : ℕ) → All IsDigit (format_int n)
unfolding format_int
format_int-IsDigit n = digits_onto-IsDigit n n [] (omega arith) tt

-- 2 ^ 63.
abbrev pub int64_limit : ℕ
int64_limit = 9223372036854775808

-- The number whose digits follow those of `a`; `none` where another byte is met.
unfoldable pub digits_from : ℕ → Bytes → Option ℕ
digits_from a [] = some a
digits_from a (c ∷ s) =
    let rest = digits_from (a * 10 + (c - 48)) s in if leb 48 c && leb c 57 then rest else none

-- Digits, of which there is one at least.
abbrev pub unsigned : Bytes → Option ℕ
unfolding digits_from
unsigned [] = none
unsigned (c ∷ s) = digits_from 0 (c ∷ s)

abbrev pub below : ℕ → (ℕ → ℤ) → Option ℕ → Option ℤ
below limit sign none = none
below limit sign (some n) = if ltb n limit then some (sign n) else none

abbrev pub minus : ℕ → ℤ
minus n = if n == 0 then pos 0 else negsuc (n - 1)

-- `strconv.ParseInt(s, 10, 64)`; `none` is an error.
unfoldable pub parse_int : Bytes → Option ℤ
parse_int [] = none
parse_int (c ∷ s) =
    if c == b'+'
    then below int64_limit pos (unsigned s)
    else if c == b'-'
    then below (int64_limit + 1) minus (unsigned s)
    else below int64_limit pos (unsigned (c ∷ s))

digits_from-number : (a : ℕ) (s : Bytes) → All IsDigit s → digits_from a s ≡ some (number_from a s)
unfolding digits_from
digits_from-number a [] d = refl
digits_from-number a (c ∷ s) d = ground (arith, digits_from-number (a * 10 + (c - 48)) s d.1)

parse_digits :
    (s : Bytes) (n : ℕ)
    → All IsDigit s
    → number_from 0 s ≡ n
    → 0 < n
    → n < int64_limit
    → parse_int s ≡ some (pos n)
unfolding parse_int unsigned
parse_digits [] n d e p h = absurd (omega arith)
parse_digits (c ∷ s) n d e p h =
    let read : digits_from 0 (c ∷ s) ≡ some n =
      digits_from-number 0 (c ∷ s) d ∙ ap (λ m. some m) e in
    let plus : (c == b'+') ≡ false = ground (arith, d.0.0) in
    let negative : (c == b'-') ≡ false = ground (arith, d.0.0) in
    let fits : ltb n int64_limit ≡ true = ground arith in rw (plus, negative, read, fits) refl

-- Every int64 that is not negative reads back from what FormatInt writes.
pub parse_int-format_int : (n : ℕ) → n < int64_limit → parse_int (format_int n) ≡ some (pos n)
unfolding parse_int format_int digits_from digits_onto
parse_int-format_int zero h = refl
parse_int-format_int (suc n) h =
    parse_digits (format_int (suc n)) (suc n) (format_int-IsDigit (suc n))
      (format_int_inverse (suc n)) (omega arith) h
