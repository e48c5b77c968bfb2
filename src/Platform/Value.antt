-- ===== src/Platform/Value.antt =====
-- The YAML documents that the renderer writes: Go's map[string]any, []any and their leaves.
use steadystate.Prelude.{
  Bytes, bytes_eq, Bool, Option, none, some, List, [], ◌∷◌, if◌then◌else◌, Result,
}
use steadystate.Prelude.Int.{ℤ}
use steadystate.Platform.Errors.{Error}

mutual
  pub data Value : Type 0 where
    text : Bytes → Value
    number : ℤ → Value
    flag : Bool → Value
    null : Value
    sequence : Items → Value
    mapping : Fields → Value

  pub data Items : Type 0 where
    nil : Items
    cons : Value → Items → Items

  -- A map, whose order of keys is of no account.
  pub data Fields : Type 0 where
    end : Fields
    field : Bytes → Value → Fields → Fields

unfoldable pub get : Bytes → Fields → Option Value
get k end = none
get k (field j v m) = if bytes_eq j k then some v else get k m

-- `delete(m, k)`.
unfoldable pub delete : Bytes → Fields → Fields
delete k end = end
delete k (field j v m) = let rest = delete k m in if bytes_eq j k then rest else field j v rest

-- `m[k] = v`.
unfoldable pub put : Bytes → Value → Fields → Fields
unfolding delete
put k v m = field k v (delete k m)

-- `m, _ := value.(map[string]any)`, where a nil map is replaced by an empty one.
abbrev pub map_or_empty : Option Value → Fields
map_or_empty (some (mapping m)) = m
map_or_empty _ = end

unfoldable pub texts : List Bytes → Items
texts [] = nil
texts (s ∷ ss) = cons (text s) (texts ss)

-- gopkg.in/yaml and sigs.k8s.io/yaml. `unmarshal` reads into a map[string]any, which is nil for an
-- empty document.
pub record Yaml : Type 0 where
  pub marshal : Value → Result Error Bytes
  pub unmarshal : Bytes → Result Error (Option Fields)
