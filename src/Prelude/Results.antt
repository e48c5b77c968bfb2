-- ===== src/Prelude/Results.antt =====
-- Fallible code: a value or an error, and the chain of guards `if bad { return err }`.
use mathlib.Core.Path.{◌≡◌, refl}
use mathlib.Core.Logic.{◌↔◌, ◌⊎◌, inl, inr}
use mathlib.Core.Bool.{Bool, true, false}
use mathlib.Core.Option.{Option, none, some}
use native.Mathlib.Omega.{arith}
use steadystate.Prelude.Tests.{if◌then◌else◌}

pub data Result (E : Type 0) (A : Type 0) : Type 0 where
  ok : A → Result E A
  err : E → Result E A

abbrev pub is_ok : {E A : Type 0} → Result E A → Bool
is_ok (ok a) = true
is_ok (err e) = false

pub Result-cases :
    {E A : Type 0} (r : Result E A) → ((a : A) × (r ≡ ok a)) ⊎ ((e : E) × (r ≡ err e))
Result-cases (ok a) = inl (a, refl)
Result-cases (err e) = inr (e, refl)

-- A chain of guards passes exactly when each of them does.
pub guard_iff :
    {E : Type 0} (b : Bool) (e : E) (rest : Option E)
    → ((if b then some e else rest) ≡ none) ↔ ((b ≡ false) × (rest ≡ none))
guard_iff true e rest = ground arith
guard_iff false e rest = ground arith
