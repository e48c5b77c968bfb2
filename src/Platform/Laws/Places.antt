-- ===== src/Platform/Laws/Places.antt =====
-- The files that validateChangePath accepts, told by their paths.
use steadystate.Prelude.{
  ℕ, ◌==◌, Bytes, bytes, bytes_eq, bytes_eq_iff, contains, join, true, ◌&&◌, Bool-cases, inl, inr,
  none, List, [], ◌∷◌, ◌++◌, ◌≡◌, refl, sym, ◌∙◌, ap, arith,
}
use steadystate.Platform.Catalog.Patterns.{valid_name}
use steadystate.Platform.Files.{
  split_from, split_path, service_file_names, catalog_path, leaf_file, check_leaf, check_parts,
  validate_change_path,
}
use mathlib.Core.List.{append-nil, append_assoc}

-- A file that a request may change. `leaf_file` tells the files of a leaf by its directory.
pub data Place (path : Bytes) : Type 0 where
  catalog : path ≡ catalog_path → Place path
  service :
      (name file : Bytes)
      → valid_name name 48 ≡ true
      → contains service_file_names file ≡ true
      → path ≡ join (bytes "/") (bytes "services" ∷ name ∷ file ∷ [])
      → Place path
  leaf :
      (directory name file : Bytes)
      → leaf_file directory file ≡ true
      → valid_name name 63 ≡ true
      → path ≡ join (bytes "/") (bytes "gitops" ∷ directory ∷ name ∷ file ∷ [])
      → Place path

join-cons_split :
    (first part s : Bytes)
    → join (bytes "/") (first ∷ split_from part s)
      ≡ first ++ (bytes "/" ++ join (bytes "/") (split_from part s))
unfolding split_from join
join-cons_split first part [] = refl
join-cons_split first part (c ∷ s) = elim (Bool-cases (c == b'/')) [
  | inl e ↦ rw e
  | inr e ↦ rw e (join-cons_split first (part ++ (c ∷ [])) s)
]

slash :
    (part : Bytes) (c : ℕ) (s : Bytes)
    → (c == b'/') ≡ true
    → part ++ (bytes "/" ++ s) ≡ part ++ (c ∷ s)
unfolding bytes
slash part c s e = ground arith

-- strings.Join undoes strings.Split.
join-split_from : (part s : Bytes) → join (bytes "/") (split_from part s) ≡ part ++ s
unfolding split_from join
join-split_from part [] = sym (append-nil part)
join-split_from part (c ∷ s) = elim (Bool-cases (c == b'/')) [
  | inl e ↦ rw e (
      join-cons_split part [] s
      ∙ ap (λ (r : Bytes). part ++ (bytes "/" ++ r)) (join-split_from [] s)
      ∙ slash part c s e)
  | inr e ↦ rw e (join-split_from (part ++ (c ∷ [])) s ∙ append_assoc part (c ∷ []) s)
]

leaf_facts :
    (path top directory name file : Bytes)
    → check_leaf path (top ∷ directory ∷ name ∷ file ∷ []) ≡ none
    → (top ≡ bytes "gitops") × (leaf_file directory file ≡ true) × (valid_name name 63 ≡ true)
unfolding check_leaf
leaf_facts path top directory name file h = ground (arith, bytes_eq_iff top (bytes "gitops"))

leaf-Place :
    (path : Bytes) (parts : List Bytes)
    → path ≡ join (bytes "/") parts
    → check_leaf path parts ≡ none
    → Place path
unfolding check_leaf
leaf-Place path (top ∷ directory ∷ name ∷ file ∷ []) e h =
    let facts = leaf_facts path top directory name file h in
    leaf directory name file facts.1 facts.2
      (e ∙ ap (λ (t : Bytes). join (bytes "/") (t ∷ directory ∷ name ∷ file ∷ [])) facts.0)
leaf-Place path (top ∷ directory ∷ name ∷ file ∷ f ∷ fs) e h = absurd (ground arith)
leaf-Place path (top ∷ directory ∷ name ∷ []) e h = absurd (ground arith)
leaf-Place path (top ∷ directory ∷ []) e h = absurd (ground arith)
leaf-Place path (top ∷ []) e h = absurd (ground arith)
leaf-Place path [] e h = absurd (ground arith)

service_facts :
    (path top name first : Bytes) (rest : List Bytes)
    → (bytes_eq top (bytes "services") && valid_name name 48) ≡ true
    → check_parts path (top ∷ name ∷ first ∷ rest) ≡ none
    → (top ≡ bytes "services")
      × (valid_name name 48 ≡ true)
      × (contains service_file_names (join (bytes "/") (first ∷ rest)) ≡ true)
unfolding check_parts
service_facts path top name first rest s h = ground (arith, bytes_eq_iff top (bytes "services"))

service_path-join :
    (top name first : Bytes) (rest : List Bytes)
    → top ≡ bytes "services"
    → join (bytes "/") (top ∷ name ∷ first ∷ rest)
      ≡ join (bytes "/") (bytes "services" ∷ name ∷ join (bytes "/") (first ∷ rest) ∷ [])
unfolding join
service_path-join top name first rest e = rw e

parts-Place :
    (path : Bytes) (parts : List Bytes)
    → path ≡ join (bytes "/") parts
    → check_parts path parts ≡ none
    → Place path
unfolding check_parts
parts-Place path (top ∷ name ∷ first ∷ rest) e h =
    elim (Bool-cases (bytes_eq top (bytes "services") && valid_name name 48)) [
      | inl s ↦
          let facts = service_facts path top name first rest s h in
          service name (join (bytes "/") (first ∷ rest)) facts.1 facts.2
            (e ∙ service_path-join top name first rest facts.0)
      | inr s ↦ leaf-Place path (top ∷ name ∷ first ∷ rest) e (ground arith)
    ]
parts-Place path (top ∷ name ∷ []) e h = leaf-Place path _ e h
parts-Place path (top ∷ []) e h = leaf-Place path _ e h
parts-Place path [] e h = leaf-Place path _ e h

-- A path that validateChangePath accepts is such a file.
pub path-Place :
    (clean : Bytes → Bytes) (path : Bytes) → validate_change_path clean path ≡ none → Place path
unfolding validate_change_path split_path
path-Place clean path h = elim (Bool-cases (bytes_eq path catalog_path)) [
  | inl e ↦ catalog ((bytes_eq_iff path catalog_path).0 e)
  | inr e ↦ parts-Place path (split_path path) (sym (join-split_from [] path)) (ground arith)
]
