-- ===== src/Control.antt =====
-- Controller code: a chain of calls of the API server that change state or fail, in the order of the
-- source. What was called before an error stays called.
pub mod Rules
pub mod Publish
use steadystate.Prelude.{List, [], ◌∷◌, ◌++◌, Result, ok, err}

-- The calls made, and a value or the error that ended the chain.
abbrev pub Act : Type 0 → Type 0 → Type 0 → Type 0
Act F E A = List F × Result E A

module _ {F E A : Type 0} where
  abbrev pub pure : A → Act F E A
  pure a = ([], ok a)

  abbrev pub fail : E → Act F E A
  fail e = ([], err e)

  -- A read, with its answer.
  abbrev pub read : Result E A → Act F E A
  read r = ([], r)

  -- A call that changes state, with its answer.
  abbrev pub call : F → Result E A → Act F E A
  call f r = (f ∷ [], r)

module _ {F E A B : Type 0} where
  -- The calls of `m` stand in front of those that follow it.
  abbrev continue : List F → Result E A → (A → Act F E B) → Act F E B
  continue fs (ok a) k = let (gs, r) = k a in (fs ++ gs, r)
  continue fs (err e) k = (fs, err e)

  infixl 10 ◌>>=◌ ◌>>◌
  unfoldable pub ◌>>=◌ : Act F E A → (A → Act F E B) → Act F E B
  m >>= k = let (fs, r) = m in continue fs r k

  abbrev pub ◌>>◌ : Act F E A → Act F E B → Act F E B
  m >> n = m >>= λ _. n

-- `fmt.Errorf("…: %w", err)` around the error of a chain.
unfoldable pub wrap : {F E E' A : Type 0} → (E → E') → Act F E A → Act F E' A
wrap f (fs, ok a) = (fs, ok a)
wrap f (fs, err e) = (fs, err (f e))

-- `if err != nil { … }` behind a chain: one way on where it succeeds, another where it fails.
unfoldable pub settle :
    {F E E' A B : Type 0} → Act F E A → (A → Act F E' B) → (E → Act F E' B) → Act F E' B
settle (fs, ok a) good bad = let (gs, r) = good a in (fs ++ gs, r)
settle (fs, err e) good bad = let (gs, r) = bad e in (fs ++ gs, r)
