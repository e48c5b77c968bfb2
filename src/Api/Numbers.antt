-- ===== src/Api/Numbers.antt =====
-- What the program uses of k8s.io/apimachinery's resource.Quantity and of float64: parameters.
use steadystate.Prelude.{ℕ, Bytes, Bool, Option}
use steadystate.Prelude.Int.{ℤ}

-- A quantity is its serialised form; its value is read through these operations only.
abbrev pub Quantity : Type 0
Quantity = Bytes

pub record QuantityOps : Type 0 where
  pub sign : Quantity → ℤ  -- Sign(): -1, 0 or 1
  pub cmp : Quantity → Quantity → ℤ  -- Cmp(): -1, 0 or 1
  pub parse : Bytes → Option Quantity  -- resource.ParseQuantity; `none` is an error

-- A float64 is its bit pattern.
abbrev pub Float64 : Type 0
Float64 = ℕ

pub record FloatOps : Type 0 where
  pub parse_float : Bytes → Option Float64  -- strconv.ParseFloat(s, 64); `none` is an error
  pub is_nan : Float64 → Bool
  pub is_inf : Float64 → Bool  -- either sign
  pub lt : Float64 → Float64 → Bool
  pub le : Float64 → Float64 → Bool

-- 0.0 and 100.0.
abbrev pub float_zero : Float64
float_zero = 0

abbrev pub float_hundred : Float64
float_hundred = 0x4059000000000000
