-- ===== src/Reconcile/Laws/Times.antt =====
-- The transition times of a status that patchStatus writes.
use steadystate.Prelude.{
  ◌≡◌, ◌≢◌, refl, sym, ap, ◌∙◌, true, Bool-cases, inl, inr, Option, none, some, List, [], ◌∷◌, map,
  arith,
}
use steadystate.Api.Conditions.{
  ConditionStatus, is_true, is_false, unknown, Condition, ConditionOps,
}
use steadystate.Api.Application.{ApplicationStatus}
use steadystate.Reconcile.Patch.{same_condition_status, keep_time, preserve_times}

-- The condition `c` is `desired` but for its transition time, which is that of the condition of its
-- type before, where that has the same status.
pub record IsKept (before : Option Condition) (desired c : Condition) : Type 0 where
  pub same : record c { last_transition = desired.last_transition } ≡ desired
  pub kept :
      (old : Condition)
      → before ≡ some old
      → old.status ≡ desired.status
      → c.last_transition ≡ old.last_transition
  pub turned :
      (old : Condition)
      → before ≡ some old
      → old.status ≢ desired.status
      → c.last_transition ≡ desired.last_transition
  pub first : before ≡ none → c.last_transition ≡ desired.last_transition

-- The conditions are the desired ones, in their order, with the times that are kept.
abbrev pub AllKept : ConditionOps → List Condition → List Condition → List Condition → Type 0
AllKept ops before [] [] = Unit
AllKept ops before (d ∷ ds) (c ∷ cs) =
    IsKept (ops.find before d.kind) d c × AllKept ops before ds cs
AllKept ops before _ _ = ⊥

-- The status `s` is the desired one with the transition times of the status `current`.
pub record KeepsTimes (ops : ConditionOps) (current desired s : ApplicationStatus) : Type 0 where
  pub others : record s { conditions = desired.conditions } ≡ desired
  pub conditions : AllKept ops current.conditions desired.conditions s.conditions

same_status : (a b : ConditionStatus) → a ≡ b → same_condition_status a b ≡ true
same_status is_true b e = rw (sym e) refl
same_status is_false b e = rw (sym e) refl
same_status unknown b e = rw (sym e) refl

status_same : (a b : ConditionStatus) → same_condition_status a b ≡ true → a ≡ b
status_same is_true is_true h = refl
status_same is_false is_false h = refl
status_same unknown unknown h = refl
status_same is_true is_false h = cc
status_same is_true unknown h = cc
status_same is_false is_true h = cc
status_same is_false unknown h = cc
status_same unknown is_true h = cc
status_same unknown is_false h = cc

keep_time-IsKept :
    (before : Option Condition) (d : Condition) → IsKept before d (keep_time before d)
keep_time-IsKept none d = record {
  same = refl;
  kept = λ old e s. absurd (ground arith);
  turned = λ old e s. absurd (ground arith);
  first = λ e. refl;
}
keep_time-IsKept (some x) d = elim (Bool-cases (same_condition_status x.status d.status)) [
  | inl f ↦ rw f (record {
    same = refl;
    kept = λ old e s. let found : x ≡ old = cc in ap (λ (c : Condition). c.last_transition) found;
    turned = λ old e s.
        let found : x ≡ old = cc in
        absurd (s (ap (λ (c : Condition). c.status) (sym found) ∙ status_same x.status d.status f));
    first = λ e. cc;
  })
  | inr f ↦ rw f (record {
    same = refl;
    kept = λ old e s.
        let found : x ≡ old = cc in
        let again = same_status x.status d.status (ap (λ (c : Condition). c.status) found ∙ s) in
        absurd (ground arith);
    turned = λ old e s. refl;
    first = λ e. cc;
  })
]

map-AllKept :
    (ops : ConditionOps) (before ds : List Condition)
    → AllKept ops before ds (map (λ c. keep_time (ops.find before c.kind) c) ds)
map-AllKept ops before [] = tt
map-AllKept ops before (d ∷ ds) =
    (keep_time-IsKept (ops.find before d.kind) d, map-AllKept ops before ds)

pub preserve_times-KeepsTimes :
    (ops : ConditionOps) (current desired : ApplicationStatus)
    → KeepsTimes ops current desired (preserve_times ops current desired)
unfolding preserve_times
preserve_times-KeepsTimes ops current desired = record {
  others = refl;
  conditions = map-AllKept ops current.conditions desired.conditions;
}
