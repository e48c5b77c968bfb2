-- ===== src/Application/Deployment.antt =====
-- validateDeployment of internal/application/validation.go, and what it accepts.
use steadystate.Prelude.{
  ◌≤◌, Bytes, Bool, true, false, not, ◌||◌, ◌≡◌, refl, ◌≢◌, ◌↔◌, ◌⊎◌, inl, inr, Option, none, some,
  List, [], ◌∷◌, ◌∙◌, arith, ltb, length, All, if◌then◌else◌, guard_iff,
}
use steadystate.Prelude.Int.{ℤ, pos, ◌≤ℤ◌, ◌<ℤ◌, ltb_ℤ}
use steadystate.Api.Application.{Strategy, rolling, canary, other, CanaryStep, Deployment}

-- The two errors of ParsePercentage.
pub data PercentageError : Type 0 where
  no_percent_sign out_of_range : PercentageError

-- The errors of `Validate`, in the order of the code.
pub data Invalid : Type 0 where
  owner_empty repository_invalid tag_invalid port_range replica_bounds : Invalid
  quantities_positive requests_exceed_limits : Invalid
  availability_target latency_positive : Invalid
  maximum_error_rate : PercentageError → Bytes → Invalid
  rolling_with_steps canary_without_steps canary_without_metrics : Invalid
  unknown_strategy : Bytes → Invalid
  too_many_steps weights_increasing pauses_positive : Invalid

-- `len(steps) == 0`.
abbrev is_empty {ℓ} : {A : Type ℓ} → List A → Bool
is_empty [] = true
is_empty (x ∷ xs) = false

-- The loop over the steps.
pub check_steps : ℤ → List CanaryStep → Option Invalid
check_steps previous [] = none
check_steps previous (step ∷ steps) =
    if ltb_ℤ step.weight (pos 1) || ltb_ℤ (pos 100) step.weight || not (ltb_ℤ previous step.weight)
    then some weights_increasing
    else if not (ltb_ℤ (pos 0) step.pause)
    then some pauses_positive
    else check_steps step.weight steps

-- The code after the `switch`.
pub check_length : List CanaryStep → Option Invalid
unfolding check_steps
check_length steps =
    if ltb 10 (length steps) then some too_many_steps else check_steps (pos 0) steps

pub check_strategy : Strategy → List CanaryStep → Bool → Option Invalid
check_strategy rolling steps metrics =
    if not (is_empty steps) then some rolling_with_steps else check_length steps
check_strategy canary steps metrics =
    if is_empty steps
    then some canary_without_steps
    else if not metrics
    then some canary_without_metrics
    else check_length steps
check_strategy (other name) steps metrics = some (unknown_strategy name)

-- `metrics` is app.Spec.Observability.Metrics.
unfoldable pub validate_deployment : Deployment → Bool → Option Invalid
unfolding check_strategy check_length
validate_deployment d metrics = check_strategy d.strategy d.steps metrics

-- A step alone: a weight from 1 to 100 and a positive pause.
abbrev pub IsStep : CanaryStep → Type 0
IsStep s = (pos 1 ≤ℤ s.weight) × (s.weight ≤ℤ pos 100) × (pos 0 <ℤ s.pause)

-- Each weight is below every later one.
abbrev pub Ascending : List CanaryStep → Type 0
Ascending [] = Unit
Ascending (s ∷ ss) = All (λ t. s.weight <ℤ t.weight) ss × Ascending ss

abbrev pub StrategyFits : Deployment → Bool → Type 0
StrategyFits d metrics =
    ((d.strategy ≡ rolling) × (d.steps ≡ []))
    ⊎ ((d.strategy ≡ canary) × (d.steps ≢ []) × (metrics ≡ true))

pub record IsValidDeployment (d : Deployment) (metrics : Bool) : Type 0 where
  pub fits : StrategyFits d metrics
  pub few : length d.steps ≤ 10
  pub each : All IsStep d.steps
  pub ascending : Ascending d.steps

Above-weaken :
    (a b : ℤ) (ss : List CanaryStep)
    → a <ℤ b
    → All (λ t. b <ℤ t.weight) ss
    → All (λ t. a <ℤ t.weight) ss
Above-weaken a b [] p h = tt
Above-weaken a b (s ∷ ss) p (q, h) = (omega arith, Above-weaken a b ss p h)

check_steps-IsStep :
    (previous : ℤ) (s : CanaryStep) (ss : List CanaryStep)
    → check_steps previous (s ∷ ss) ≡ none
    → (previous <ℤ s.weight) × IsStep s × (check_steps s.weight ss ≡ none)
unfolding check_steps
check_steps-IsStep previous s ss h = ground arith

check_steps_sound :
    (previous : ℤ) (ss : List CanaryStep)
    → check_steps previous ss ≡ none
    → All IsStep ss × Ascending ss × All (λ t. previous <ℤ t.weight) ss
check_steps_sound previous [] h = (tt, tt, tt)
check_steps_sound previous (s ∷ ss) h =
    let (lower, fit, rest) = check_steps-IsStep previous s ss h in
    let (each, ascending, above) = check_steps_sound s.weight ss rest in
    ((fit, each), (above, ascending), (lower, Above-weaken previous s.weight ss lower above))

check_steps_complete :
    (previous : ℤ) (ss : List CanaryStep)
    → All IsStep ss
    → Ascending ss
    → All (λ t. previous <ℤ t.weight) ss
    → check_steps previous ss ≡ none
unfolding check_steps
check_steps_complete previous [] each ascending above = refl
check_steps_complete previous (s ∷ ss) (fit, each) (later, ascending) (lower, above) =
    ground (arith, check_steps_complete s.weight ss each ascending later)

Positive-above : (ss : List CanaryStep) → All IsStep ss → All (λ t. pos 0 <ℤ t.weight) ss
Positive-above [] h = tt
Positive-above (s ∷ ss) ((lo, hi, p), h) = (omega arith, Positive-above ss h)

check_length_passed :
    (ss : List CanaryStep)
    → check_length ss ≡ none
    → (length ss ≤ 10) × (check_steps (pos 0) ss ≡ none)
unfolding check_length
check_length_passed ss h = ground arith

check_length_iff :
    (ss : List CanaryStep)
    → (check_length ss ≡ none) ↔ ((length ss ≤ 10) × All IsStep ss × Ascending ss)
unfolding check_length
check_length_iff ss = (
  λ h.
      let (few, rest) = check_length_passed ss h in
      let (each, ascending, above) = check_steps_sound (pos 0) ss rest in (few, each, ascending),
  λ (few, each, ascending).
      (guard_iff _ _ _).1
        (ground arith, check_steps_complete (pos 0) ss each ascending (Positive-above ss each)),
)

check_strategy_sound :
    (s : Strategy) (ss : List CanaryStep) (auto metrics : Bool)
    → check_strategy s ss metrics ≡ none
    → StrategyFits (record { strategy = s; steps = ss; automatic_rollback = auto }) metrics
      × (check_length ss ≡ none)
unfolding check_strategy
check_strategy_sound rolling [] auto metrics h = (inl (refl, refl), h)
check_strategy_sound rolling (x ∷ ss) auto metrics h = cc
check_strategy_sound canary [] auto metrics h = cc
check_strategy_sound canary (x ∷ ss) auto true h = (inr (refl, (λ e. cc), refl), h)
check_strategy_sound canary (x ∷ ss) auto false h = cc
check_strategy_sound (other name) ss auto metrics h = cc

check_strategy_complete :
    (d : Deployment) (metrics : Bool)
    → StrategyFits d metrics
    → check_strategy d.strategy d.steps metrics ≡ check_length d.steps
unfolding check_strategy
check_strategy_complete d metrics (inl (p, q)) = ground arith
check_strategy_complete d metrics (inr (p, q, r)) = ground arith

-- A deployment is accepted exactly when a rolling one has no steps or a canary one has some and
-- metrics are on, there are at most ten steps, each has a weight from 1 to 100 and a positive
-- pause, and each weight is below every later one.
pub validate_deployment_iff :
    (d : Deployment) (metrics : Bool)
    → (validate_deployment d metrics ≡ none) ↔ IsValidDeployment d metrics
unfolding validate_deployment
validate_deployment_iff d metrics = (
  λ h.
      let (fits, rest) = check_strategy_sound d.strategy d.steps d.automatic_rollback metrics h in
      let (few, each, ascending) = (check_length_iff d.steps).0 rest in
      record { fits = fits; few = few; each = each; ascending = ascending },
  λ v.
      check_strategy_complete d metrics v.fits
      ∙ (check_length_iff d.steps).1 (v.few, v.each, v.ascending),
)
