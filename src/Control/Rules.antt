-- ===== src/Control/Rules.antt =====
-- Invariants of the calls of a chain, one rule for each way to build it; and what a chain that
-- succeeds has run.
use steadystate.Prelude.{
  Bool, true, false, ◌≡◌, refl, sym, List, [], ◌∷◌, ◌++◌, All, Result, ok, err, if◌then◌else◌,
}
use steadystate.Control.{Act, pure, fail, read, call, wrap, settle, ◌>>=◌}

-- Every call of the chain satisfies `P`.
pub record Logs {F E A : Type 0} (P : F → Type 0) (m : Act F E A) : Type 0 where
  pub all : All P m.0

pub All-append :
    {F : Type 0} (P : F → Type 0) (xs ys : List F) → All P xs → All P ys → All P (xs ++ ys)
All-append P [] ys hx hy = hy
All-append P (x ∷ xs) ys (h, hx) hy = (h, All-append P xs ys hx hy)

module _ {F E A : Type 0} {P : F → Type 0} where
  pub Logs-pure : (a : A) → Logs {E = E} P (pure a)
  Logs-pure a = record { all = tt }

  pub Logs-fail : (e : E) → Logs {A = A} P (fail e)
  Logs-fail e = record { all = tt }

  pub Logs-read : (r : Result E A) → Logs P (read r)
  Logs-read r = record { all = tt }

  pub Logs-call : (f : F) (r : Result E A) → P f → Logs P (call f r)
  Logs-call f r h = record { all = (h, tt) }

  pub Logs-if :
      (b : Bool) (m n : Act F E A)
      → (b ≡ true → Logs P m)
      → (b ≡ false → Logs P n)
      → Logs P (if b then m else n)
  Logs-if true m n hm hn = hm refl
  Logs-if false m n hm hn = hn refl

pub Logs-wrap :
    {F E E' A : Type 0} {P : F → Type 0} (f : E → E') (m : Act F E A) → Logs P m → Logs P (wrap f m)
unfolding wrap
Logs-wrap f (fs, ok a) h = record { all = h.all }
Logs-wrap f (fs, err e) h = record { all = h.all }

module _ {F E A B : Type 0} {P : F → Type 0} where
  -- The rest of the chain may use what `m` returned.
  pub Logs-bind :
      (m : Act F E A) (k : A → Act F E B)
      → Logs P m
      → ((a : A) → m.1 ≡ ok a → Logs P (k a))
      → Logs P (m >>= k)
  unfolding ◌>>=◌
  Logs-bind (fs, ok a) k h hk = record { all = All-append P fs (k a).0 h.all (hk a refl).all }
  Logs-bind (fs, err e) k h hk = record { all = h.all }

pub All-weaken :
    {F : Type 0} {P Q : F → Type 0} (xs : List F) → ((f : F) → P f → Q f) → All P xs → All Q xs
All-weaken [] k h = tt
All-weaken (x ∷ xs) k (h, hs) = (k x h, All-weaken xs k hs)

pub Logs-weaken :
    {F E A : Type 0} {P Q : F → Type 0} (m : Act F E A)
    → ((f : F) → P f → Q f)
    → Logs P m
    → Logs Q m
Logs-weaken m k h = record { all = All-weaken m.0 k h.all }

pub Logs-settle :
    {F E E' A B : Type 0} {P : F → Type 0} (m : Act F E A) (good : A → Act F E' B)
    (bad : E → Act F E' B)
    → Logs P m
    → ((a : A) → m.1 ≡ ok a → Logs P (good a))
    → ((e : E) → m.1 ≡ err e → Logs P (bad e))
    → Logs P (settle m good bad)
unfolding settle
Logs-settle (fs, ok a) good bad h k l = record {
  all = All-append _ fs (good a).0 h.all (k a refl).all;
}
Logs-settle (fs, err e) good bad h k l = record {
  all = All-append _ fs (bad e).0 h.all (l e refl).all;
}

module _ {F E A B : Type 0} where
  -- A chain that succeeds has run both of its parts.
  pub bind-ok :
      (m : Act F E A) (k : A → Act F E B) (b : B)
      → (m >>= k).1 ≡ ok b
      → (a : A) × (m.1 ≡ ok a) × ((k a).1 ≡ ok b)
  unfolding ◌>>=◌
  bind-ok (fs, ok a) k b h = (a, refl, h)
  bind-ok (fs, err e) k b h = cc

pub wrap-ok :
    {F E E' A : Type 0} (p : E → E') (m : Act F E A) (a : A) → (wrap p m).1 ≡ ok a → m.1 ≡ ok a
unfolding wrap
wrap-ok p (fs, ok b) a h = let same : b ≡ a = cc in rw same refl
wrap-ok p (fs, err e) a h = cc

-- Every value that the chain returns satisfies `Q`.
pub record Returns {F E A : Type 0} (Q : A → Type 0) (m : Act F E A) : Type 0 where
  pub value : (a : A) → m.1 ≡ ok a → Q a

module _ {F E A : Type 0} {Q : A → Type 0} where
  pub Returns-pure : (a : A) → Q a → Returns {F = F} {E = E} Q (pure a)
  Returns-pure a h = record { value = λ b e. let same : a ≡ b = cc in rw (sym same) h }

  pub Returns-if :
      (b : Bool) (m n : Act F E A)
      → (b ≡ true → Returns Q m)
      → (b ≡ false → Returns Q n)
      → Returns Q (if b then m else n)
  Returns-if true m n hm hn = hm refl
  Returns-if false m n hm hn = hn refl

pub Returns-bind :
    {F E A B : Type 0} {Q : B → Type 0} (m : Act F E A) (k : A → Act F E B)
    → ((a : A) → m.1 ≡ ok a → Returns Q (k a))
    → Returns Q (m >>= k)
Returns-bind m k h = record { value = λ b e. let (a, f, g) = bind-ok m k b e in (h a f).value b g }

pub ruleset logs_rules = (Logs-pure, Logs-fail, Logs-read, Logs-call, Logs-wrap, Logs-if, Logs-bind)
