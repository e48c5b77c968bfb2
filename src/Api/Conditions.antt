-- ===== src/Api/Conditions.antt =====
-- metav1.Condition, and meta.SetStatusCondition and meta.FindStatusCondition of
-- k8s.io/apimachinery, which are parameters of the model with their documented behaviour.
use steadystate.Prelude.{ℕ, String, Bytes, ◌≡◌, Bool, Option, some, List, str_eq}
use steadystate.Prelude.{if◌then◌else◌, true, false}

-- metav1.ConditionTrue, metav1.ConditionFalse, metav1.ConditionUnknown.
pub data ConditionStatus : Type 0 where
  is_true is_false unknown : ConditionStatus

-- A message is kept as the format and the arguments of `fmt.Sprintf`, unevaluated.
pub record Message : Type 0 where
  pub format : String
  pub args : List Bytes

pub record Condition : Type 0 where
  pub kind : String  -- Type
  pub status : ConditionStatus
  pub observed_generation : ℕ
  pub reason : String
  pub message : Message
  pub last_transition : ℕ  -- 0 is the zero time

-- The two functions of package meta. `stamp` is the transition time that SetStatusCondition writes.
pub record ConditionOps : Type 0 where
  pub set : List Condition → Condition → List Condition
  pub find : List Condition → String → Option Condition
  pub stamp : List Condition → Condition → ℕ
  -- After a write, a search of that type finds the written condition, and of another type what it
  -- found before.
  pub find-set :
      (cs : List Condition) (c : Condition) (t : String)
      → find (set cs c) t
        ≡ (if str_eq t c.kind then some (record c { last_transition = stamp cs c }) else find cs t)

abbrev pub status_is_true : ConditionStatus → Bool
status_is_true is_true = true
status_is_true _ = false

abbrev pub status_is_false : ConditionStatus → Bool
status_is_false is_false = true
status_is_false _ = false
