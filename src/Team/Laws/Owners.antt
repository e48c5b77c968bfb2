-- ===== src/Team/Laws/Owners.antt =====
-- The owners that `Validate` accepts, and the repositories that an allow-list admits.
use steadystate.Prelude.{
  ◌≤◌, Bytes, bytes_eq, bytes_eq_iff, contains, false, ◌≡◌, refl, ◌≢◌, ◌↔◌, inl, inr, none, List,
  [], ◌∷◌, arith, length, All, Bool-cases,
}
use steadystate.Prelude.Text.{contains_space}
use steadystate.Team.Validation.{check_owners, validate_owners}

-- A Kubernetes user name: not empty, at most 253 bytes, without white space.
abbrev pub IsOwner : Bytes → Type 0
IsOwner owner = (owner ≢ []) × (length owner ≤ 253) × (contains_space owner ≡ false)

-- No text stands twice in the list.
abbrev pub Distinct : List Bytes → Type 0
Distinct [] = Unit
Distinct (x ∷ xs) = All (λ y. x ≢ y) xs × Distinct xs

-- No element of the second list stands in the first.
abbrev Fresh : List Bytes → List Bytes → Type 0
Fresh seen xs = All (λ y. contains seen y ≡ false) xs

contains-cons_iff :
    (x y : Bytes) (seen : List Bytes)
    → (contains (x ∷ seen) y ≡ false) ↔ ((x ≢ y) × (contains seen y ≡ false))
unfolding contains
contains-cons_iff x y seen = (
  λ h. ((λ e. ground (arith, bytes_eq_iff x y)), ground arith),
  λ (ne, rest). elim (Bool-cases (bytes_eq x y)) [
    | inl e ↦ absurd (ne ((bytes_eq_iff x y).0 e))
    | inr e ↦ rw (e, contains) rest
  ],
)

Fresh-cons :
    (x : Bytes) (seen xs : List Bytes) → Fresh (x ∷ seen) xs ↔ (All (λ y. x ≢ y) xs × Fresh seen xs)
Fresh-cons x seen [] = (λ h. (tt, tt), λ h. tt)
Fresh-cons x seen (y ∷ xs) = (
  λ (h, t).
      let (ne, here) = (contains-cons_iff x y seen).0 h in
      let (later, rest) = (Fresh-cons x seen xs).0 t in ((ne, later), (here, rest)),
  λ ((ne, later), (here, rest)).
      ((contains-cons_iff x y seen).1 (ne, here), (Fresh-cons x seen xs).1 (later, rest)),
)

Fresh-nil : (xs : List Bytes) → Fresh [] xs
unfolding contains
Fresh-nil [] = tt
Fresh-nil (x ∷ xs) = (refl, Fresh-nil xs)

check_owners_passed :
    (seen : List Bytes) (x : Bytes) (xs : List Bytes)
    → (check_owners seen (x ∷ xs) ≡ none)
      ↔ (IsOwner x × (contains seen x ≡ false) × (check_owners (x ∷ seen) xs ≡ none))
unfolding check_owners
check_owners_passed seen x xs = (
  λ h. (((λ e. ground arith), ground arith, ground arith), ground arith, ground arith),
  λ ((a, b, c), d, e). ground arith,
)

check_owners_iff :
    (seen xs : List Bytes)
    → (check_owners seen xs ≡ none) ↔ (All IsOwner xs × Distinct xs × Fresh seen xs)
unfolding check_owners
check_owners_iff seen [] = (λ h. (tt, tt, tt), λ h. refl)
check_owners_iff seen (x ∷ xs) = (
  λ h.
      let (good, new, rest) = (check_owners_passed seen x xs).0 h in
      let (each, distinct, fresh) = (check_owners_iff (x ∷ seen) xs).0 rest in
      let (apart, older) = (Fresh-cons x seen xs).0 fresh in
      ((good, each), (apart, distinct), (new, older)),
  λ ((good, each), (apart, distinct), (new, older)). (check_owners_passed seen x xs).1 (
    good,
    new,
    (check_owners_iff (x ∷ seen) xs).1 (each, distinct, (Fresh-cons x seen xs).1 (apart, older)),
  ),
)

-- validateOwners accepts exactly a list of 1 to 32 Kubernetes user names with no repetition.
pub validate_owners_iff :
    (xs : List Bytes)
    → (validate_owners xs ≡ none)
      ↔ ((1 ≤ length xs) × (length xs ≤ 32) × All IsOwner xs × Distinct xs)
unfolding validate_owners
validate_owners_iff xs = (
  λ h.
      let rest : check_owners [] xs ≡ none = ground arith in
      let (each, distinct, _) = (check_owners_iff [] xs).0 rest in
      (ground arith, ground arith, each, distinct),
  λ (lo, hi, each, distinct).
      ground (arith, (check_owners_iff [] xs).1 (each, distinct, Fresh-nil xs)),
)
