-- ===== src/Platform/Laws/Names.antt =====
-- Lookups in the lists that the code replaces entries in, sorts and filters.
use steadystate.Prelude.{
  Bytes, bytes_eq, bytes_eq_iff, bytes_lt, contains, Bool, true, false, Bool-cases, inl, inr,
  Option, some, List, [], ◌∷◌, ◌++◌, map, ◌≡◌, refl, sym, ◌∙◌, ap, Any, arith,
}
use steadystate.Platform.Named.{
  find_named, replace_named, remove_named, remove_all, after_removed, remove_pointed, insert_named,
  sort_named,
}

lt_irrefl : (s : Bytes) → bytes_lt s s ≡ false
unfolding bytes_lt
lt_irrefl [] = refl
lt_irrefl (c ∷ s) = ground (arith, lt_irrefl s)

lt_self : (s u : Bytes) → s ≡ u → bytes_lt u s ≡ false
lt_self s u e = ap (λ (v : Bytes). bytes_lt v s) (sym e) ∙ lt_irrefl s

some_eq : {A : Type 0} (x y : A) → ◌≡◌ {A = Option A} (some y) (some x) → x ≡ y
some_eq x y e = cc

module _ {A : Type 0} (name : A → Bytes) where
  -- Some entry has the name.
  abbrev pub Named : Bytes → List A → Type 0
  Named n xs = Any (λ x. bytes_eq (name x) n ≡ true) xs

  pub Named-find :
      (n : Bytes) (xs : List A) → Named n xs → (x : A) × (find_named name n xs ≡ some x)
  unfolding find_named
  Named-find n [] h = elim h [ ]
  Named-find n (x ∷ xs) h = elim (Bool-cases (bytes_eq (name x) n)) [
    | inl e ↦ (x, rw e refl)
    | inr e ↦ elim h [ inl same ↦ absurd (ground arith) | inr rest ↦ rw e (Named-find n xs rest) ]
  ]

  pub find-Named : (n : Bytes) (xs : List A) (x : A) → find_named name n xs ≡ some x → Named n xs
  unfolding find_named
  find-Named n [] x h = absurd (ground arith)
  find-Named n (y ∷ xs) x h = elim (Bool-cases (bytes_eq (name y) n)) [
    | inl e ↦ inl e
    | inr e ↦ inr (find-Named n xs x (ground arith))
  ]

  pub find-name : (n : Bytes) (xs : List A) (x : A) → find_named name n xs ≡ some x → name x ≡ n
  unfolding find_named
  find-name n [] x h = absurd (ground arith)
  find-name n (y ∷ xs) x h = elim (Bool-cases (bytes_eq (name y) n)) [
    | inl e ↦ ap name (some_eq x y (ground arith)) ∙ (bytes_eq_iff (name y) n).0 e
    | inr e ↦ find-name n xs x (ground arith)
  ]

  pub find-replace_same :
      (n : Bytes) (y x : A) (xs : List A)
      → bytes_eq (name y) n ≡ true
      → find_named name n xs ≡ some x
      → find_named name n (replace_named name n y xs) ≡ some y
  unfolding find_named replace_named
  find-replace_same n y x [] e h = ground arith
  find-replace_same n y x (z ∷ xs) e h = ground (arith, find-replace_same n y x xs e)

  pub find-replace_other :
      (n m : Bytes) (y : A) (xs : List A)
      → bytes_eq n m ≡ false
      → name y ≡ n
      → find_named name m (replace_named name n y xs) ≡ find_named name m xs
  unfolding find_named replace_named
  find-replace_other n m y [] e h = refl
  find-replace_other n m y (z ∷ xs) e h =
      ground (arith, bytes_eq_iff (name z) n, find-replace_other n m y xs e h)

  first_replaced :
      (n m : Bytes) (y x : A) (xs : List A)
      → name y ≡ n
      → bytes_eq (name x) n ≡ true
      → Named m (x ∷ xs)
      → Named m (y ∷ xs)
  first_replaced n m y x xs e s (inl h) =
      inl
        (ground (arith, bytes_eq_iff (name x) n, bytes_eq_iff (name x) m, bytes_eq_iff (name y) m))
  first_replaced n m y x xs e s (inr h) = inr h

  pub Named-replace :
      (n m : Bytes) (y : A) (xs : List A)
      → name y ≡ n
      → Named m xs
      → Named m (replace_named name n y xs)
  unfolding replace_named
  Named-replace n m y [] e h = elim h [ ]
  Named-replace n m y (x ∷ xs) e h = elim (Bool-cases (bytes_eq (name x) n)) [
    | inl s ↦ rw s (first_replaced n m y x xs e s h)
    | inr s ↦ rw s (elim h [ inl g ↦ inl g | inr r ↦ inr (Named-replace n m y xs e r) ])
  ]

  pub Named-append_left : (m : Bytes) (xs ys : List A) → Named m xs → Named m (xs ++ ys)
  Named-append_left m [] ys h = elim h [ ]
  Named-append_left m (x ∷ xs) ys (inl h) = inl h
  Named-append_left m (x ∷ xs) ys (inr h) = inr (Named-append_left m xs ys h)

  Named-insert :
      (m : Bytes) (y : A) (xs : List A) → Named m (y ∷ xs) → Named m (insert_named name y xs)
  unfolding insert_named
  Named-insert m y [] h = h
  Named-insert m y (x ∷ xs) h = elim (Bool-cases (bytes_lt (name x) (name y))) [
    | inl e ↦ rw e (elim h [
      | inl g ↦ inr (Named-insert m y xs (inl g))
      | inr r ↦ elim r [ inl g ↦ inl g | inr s ↦ inr (Named-insert m y xs (inr s)) ]
    ])
    | inr e ↦ rw e h
  ]

  pub Named-sort : (m : Bytes) (xs : List A) → Named m xs → Named m (sort_named name xs)
  unfolding sort_named
  Named-sort m [] h = elim h [ ]
  Named-sort m (x ∷ xs) (inl h) = Named-insert m x (sort_named name xs) (inl h)
  Named-sort m (x ∷ xs) (inr h) = Named-insert m x (sort_named name xs) (inr (Named-sort m xs h))

  pub find-remove_other :
      (n m : Bytes) (xs : List A)
      → bytes_eq n m ≡ false
      → find_named name m (remove_named name n xs) ≡ find_named name m xs
  unfolding find_named remove_named
  find-remove_other n m [] e = refl
  find-remove_other n m (x ∷ xs) e =
      ground (arith, bytes_eq_iff (name x) n, find-remove_other n m xs e)

  pub find-remove_all :
      (ns : List Bytes) (m : Bytes) (xs : List A)
      → contains ns m ≡ false
      → find_named name m (remove_all name ns xs) ≡ find_named name m xs
  unfolding find_named remove_all
  find-remove_all ns m [] e = refl
  find-remove_all ns m (x ∷ xs) e =
      ground (arith, bytes_eq_iff (name x) m, find-remove_all ns m xs e)

  find-after_removed :
      (shifted : Bool) (n m : Bytes) (xs : List A)
      → bytes_eq n m ≡ false
      → find_named name m (after_removed name shifted n xs) ≡ find_named name m xs
  unfolding find_named after_removed
  find-after_removed shifted n m [] e = refl
  find-after_removed true n m (x ∷ xs) e =
      ground (arith, bytes_eq_iff (name x) n, find-after_removed true n m xs e)
  find-after_removed false n m (x ∷ xs) e = ground (
    arith,
    bytes_eq_iff (name x) n,
    find-after_removed false n m xs e,
    find-after_removed true (name x) m xs,
  )

  -- The loop that overwrites the entry whose name it compares with removes that entry, and every other
  -- name is still found, at the same entry.
  pub find-remove_pointed :
      (n m : Bytes) (xs : List A)
      → bytes_eq n m ≡ false
      → find_named name m (remove_pointed name n xs) ≡ find_named name m xs
  unfolding find_named remove_pointed
  find-remove_pointed n m [] e = refl
  find-remove_pointed n m (x ∷ xs) e = ground (
    arith,
    bytes_eq_iff (name x) n,
    find-after_removed false n m xs e,
    find-remove_pointed n m xs e,
  )

  pub find-append_left :
      (m : Bytes) (x : A) (xs ys : List A)
      → find_named name m xs ≡ some x
      → find_named name m (xs ++ ys) ≡ some x
  unfolding find_named
  find-append_left m x [] ys h = ground arith
  find-append_left m x (y ∷ xs) ys h = ground (arith, find-append_left m x xs ys)

  find-insert :
      (m : Bytes) (x : A) (xs : List A)
      → find_named name m (insert_named name x xs) ≡ find_named name m (x ∷ xs)
  unfolding find_named insert_named
  find-insert m x [] = refl
  find-insert m x (y ∷ ys) = ground (
    arith,
    find-insert m x ys,
    bytes_eq_iff (name x) m,
    bytes_eq_iff (name y) m,
    lt_self (name x) (name y),
  )

  pub find-sort :
      (m : Bytes) (xs : List A) → find_named name m (sort_named name xs) ≡ find_named name m xs
  unfolding find_named sort_named
  find-sort m [] = refl
  find-sort m (x ∷ xs) = find-insert m x (sort_named name xs) ∙ ground (arith, find-sort m xs)

  pub Named-map :
      (f : A → A) (m : Bytes) (xs : List A)
      → ((x : A) → name (f x) ≡ name x)
      → Named m xs
      → Named m (map f xs)
  Named-map f m [] k h = elim h [ ]
  Named-map f m (x ∷ xs) k (inl h) = inl (ap (λ (n : Bytes). bytes_eq n m) (k x) ∙ h)
  Named-map f m (x ∷ xs) k (inr h) = inr (Named-map f m xs k h)
