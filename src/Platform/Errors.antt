-- ===== src/Platform/Errors.antt =====
-- internal/platformctl/types.go: exit codes and errors, and chains of fallible steps.
use steadystate.Prelude.{Bytes, String, Option, none, some, List, Result, ok, err}
use steadystate.Api.Conditions.{Message}

-- ExitUsage, ExitNotFound and ExitConflict.
pub data Exit : Type 0 where
  usage not_found conflict : Exit

-- `exit` is an ExitError, `exit_within` one whose text ends in another error's,
-- `plain` an error of fmt.Errorf, `within` one that wraps another, and
-- `external` the error of a library. `panic` is a write to a nil map.
pub data Error : Type 0 where
  exit : Exit → Message → Error
  exit_within : Exit → Message → Error → Error
  plain : Message → Error
  within : Message → Error → Error
  external : Bytes → Error
  panic : Error

-- exitError.
abbrev pub exit_error : {A : Type 0} → Exit → String → List Bytes → Result Error A
exit_error code format args = err (exit code (record { format = format; args = args }))

abbrev pub failure : String → List Bytes → Option Error
failure format args = some (plain (record { format = format; args = args }))

infixl 5 ◌>>=◌
-- Shut, so that proofs go by rules.
unfoldable pub ◌>>=◌ : {A B : Type 0} → Result Error A → (A → Result Error B) → Result Error B
ok a >>= f = f a
err e >>= f = err e

infixl 5 ◌>>◌
unfoldable pub ◌>>◌ : {A : Type 0} → Option Error → Result Error A → Result Error A
none >> r = r
some e >> r = err e

-- A chain of checks: the first error.
infixr 5 ◌<|◌
abbrev pub ◌<|◌ : Option Error → Option Error → Option Error
none <| rest = rest
some e <| rest = some e

-- A case split on what was found.
unfoldable pub on_found : {A B : Type 0} → Option A → B → (A → B) → B
on_found none b f = b
on_found (some a) b f = f a
