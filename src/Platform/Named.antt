-- ===== src/Platform/Named.antt =====
-- Lists of entries with a name: how the code finds, replaces, sorts and removes them.
use steadystate.Prelude.{
  Bytes, bytes_eq, bytes_lt, contains, Bool, true, false, Option, none, some, List, [], ◌∷◌,
  if◌then◌else◌,
}

module _ {A : Type 0} (name : A → Bytes) where
  -- The first entry with the name.
  unfoldable pub find_named : Bytes → List A → Option A
  find_named n [] = none
  find_named n (x ∷ xs) = if bytes_eq (name x) n then some x else find_named n xs

  -- A write through a pointer to the first entry with the name.
  unfoldable pub replace_named : Bytes → A → List A → List A
  replace_named n y [] = []
  replace_named n y (x ∷ xs) = if bytes_eq (name x) n then y ∷ xs else x ∷ replace_named n y xs

  -- The loop that keeps the entries whose name is not `n`.
  unfoldable pub remove_named : Bytes → List A → List A
  remove_named n [] = []
  remove_named n (x ∷ xs) =
      let rest = remove_named n xs in if bytes_eq (name x) n then rest else x ∷ rest

  unfoldable pub remove_all : List Bytes → List A → List A
  remove_all ns [] = []
  remove_all ns (x ∷ xs) =
      let rest = remove_all ns xs in if contains ns (name x) then rest else x ∷ rest

  -- The same loop where `n` is read through a pointer into the list, which the loop overwrites: once
  -- that entry is left out, the next one that is kept is written in its place, and its name is the
  -- one compared with.
  unfoldable pub after_removed : Bool → Bytes → List A → List A
  after_removed shifted n [] = []
  after_removed shifted n (x ∷ xs) =
      let dropped = after_removed shifted n xs in
      let kept = x ∷ after_removed true (if shifted then n else name x) xs in
      if bytes_eq (name x) n then dropped else kept

  unfoldable pub remove_pointed : Bytes → List A → List A
  unfolding after_removed
  remove_pointed n [] = []
  remove_pointed n (x ∷ xs) =
      let dropped = after_removed false n xs in
      let kept = x ∷ remove_pointed n xs in if bytes_eq (name x) n then dropped else kept

  -- sort.Slice by the name. The order of entries with one name is any, here that of the list.
  unfoldable pub insert_named : A → List A → List A
  insert_named x [] = x ∷ []
  insert_named x (y ∷ ys) = if bytes_lt (name y) (name x) then y ∷ insert_named x ys else x ∷ y ∷ ys

  unfoldable pub sort_named : List A → List A
  unfolding insert_named
  sort_named [] = []
  sort_named (x ∷ xs) = insert_named x (sort_named xs)
