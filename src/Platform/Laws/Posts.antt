-- ===== src/Platform/Laws/Posts.antt =====
-- Postconditions of fallible code: what holds of the value where there is one.
use steadystate.Prelude.{
  Bool, true, false, Option, none, some, Result, ok, err, ◌≡◌, refl, if◌then◌else◌,
}
use mathlib.Core.Path.{subst}
use steadystate.Platform.Errors.{Error, ◌>>=◌, ◌>>◌, ◌<|◌, on_found}

pub data Holds {A : Type 0} (P : A → Type 0) : Result Error A → Type 0 where
  returned : {a : A} → P a → Holds P (ok a)
  raised : {e : Error} → Holds P (err e)

ok-injective : {A : Type 0} {a b : A} → ◌≡◌ {A = Result Error A} (ok a) (ok b) → a ≡ b
ok-injective e = cc

pub returned_value :
    {A : Type 0} {P : A → Type 0} {r : Result Error A} {a : A} → Holds P r → r ≡ ok a → P a
returned_value {P} (returned p) e = subst P (ok-injective e) p
returned_value raised e = cc

pub Holds-bind :
    {A B : Type 0} {P : A → Type 0} {Q : B → Type 0} (m : Result Error A) (f : A → Result Error B)
    → Holds P m
    → ((a : A) → P a → Holds Q (f a))
    → Holds Q (m >>= f)
unfolding ◌>>=◌
Holds-bind (ok a) f (returned h) k = k a h
Holds-bind (err e) f raised k = raised

-- With the equation that the first step returned.
pub Holds-bind_eq :
    {A B : Type 0} {Q : B → Type 0} (m : Result Error A) (f : A → Result Error B)
    → ((a : A) → m ≡ ok a → Holds Q (f a))
    → Holds Q (m >>= f)
unfolding ◌>>=◌
Holds-bind_eq (ok a) f k = k a refl
Holds-bind_eq (err e) f k = raised

pub Holds-check :
    {B : Type 0} {Q : B → Type 0} (c : Option Error) (r : Result Error B)
    → (c ≡ none → Holds Q r)
    → Holds Q (c >> r)
unfolding ◌>>◌
Holds-check none r k = k refl
Holds-check (some e) r k = raised

pub Holds-if :
    {B : Type 0} {Q : B → Type 0} (b : Bool) (r s : Result Error B)
    → (b ≡ true → Holds Q r)
    → (b ≡ false → Holds Q s)
    → Holds Q (if b then r else s)
Holds-if true r s h k = h refl
Holds-if false r s h k = k refl

pub Holds-mono :
    {A : Type 0} {P Q : A → Type 0} {m : Result Error A}
    → ((a : A) → P a → Q a)
    → Holds P m
    → Holds Q m
Holds-mono f (returned h) = returned (f _ h)
Holds-mono f raised = raised

pub Holds-found :
    {A B : Type 0} {Q : B → Type 0} (o : Option A) (r : Result Error B) (f : A → Result Error B)
    → Holds Q r
    → ((a : A) → o ≡ some a → Holds Q (f a))
    → Holds Q (on_found o r f)
unfolding on_found
Holds-found none r f h k = h
Holds-found (some a) r f h k = k a refl

-- With the equation that nothing was found.
pub Holds-found_eq :
    {A B : Type 0} {Q : B → Type 0} (o : Option A) (r : Result Error B) (f : A → Result Error B)
    → (o ≡ none → Holds Q r)
    → ((a : A) → o ≡ some a → Holds Q (f a))
    → Holds Q (on_found o r f)
unfolding on_found
Holds-found_eq none r f h k = h refl
Holds-found_eq (some a) r f h k = k a refl

pub Holds-always : {A : Type 0} {P : A → Type 0} (m : Result Error A) → ((a : A) → P a) → Holds P m
Holds-always (ok a) h = returned (h a)
Holds-always (err e) h = raised

-- A chain of checks that finds nothing.
pub checked_first : (a b : Option Error) → (a <| b) ≡ none → a ≡ none
checked_first none b h = refl
checked_first (some e) b h = h

pub checked_rest : (a b : Option Error) → (a <| b) ≡ none → b ≡ none
checked_rest none b h = h
checked_rest (some e) b h = cc
