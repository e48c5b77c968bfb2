-- ===== src/Application/Validation.antt =====
-- internal/application/validation.go: ParsePercentage and Validate. A `nil` error is `none`.
use steadystate.Prelude.{
  ℕ, Bytes, bytes, equal_fold, Bool, true, false, not, ◌&&◌, ◌||◌, Option, none, some, [], ◌∷◌, leb,
  ◌==◌, length, all, if◌then◌else◌, Result, ok, err,
}
use steadystate.Prelude.Int.{pos, ltb_ℤ}
use steadystate.Prelude.Text.{is_blank, re2_space, cut_percent}
use steadystate.Api.Numbers.{Float64, FloatOps, QuantityOps, float_zero, float_hundred}
use steadystate.Api.Application.{Image, Replicas, Resources, Application}
use steadystate.Application.Deployment.{
  PercentageError, no_percent_sign, out_of_range, Invalid, owner_empty, repository_invalid,
  tag_invalid, port_range, replica_bounds, quantities_positive, requests_exceed_limits,
  availability_target, maximum_error_rate, latency_positive, validate_deployment,
}

-- repositoryPattern, `^[^@\s]+$`.
unfoldable pub repository_matches : Bytes → Bool
repository_matches [] = false
repository_matches (c ∷ s) = all (λ b. not (b == b'@' || re2_space b)) (c ∷ s)

abbrev is_alnum : ℕ → Bool
is_alnum c = (leb b'A' c && leb c b'Z') || (leb b'a' c && leb c b'z') || (leb b'0' c && leb c b'9')

-- tagPattern, `^[A-Za-z0-9_][A-Za-z0-9._-]{0,127}$`.
unfoldable pub tag_matches : Bytes → Bool
tag_matches [] = false
tag_matches (c ∷ s) =
    (is_alnum c || c == b'_')
    && all (λ b. is_alnum b || b == b'.' || b == b'_' || b == b'-') s
    && leb (length s) 127

pub in_range : FloatOps → Float64 → Bool
in_range fl x = not (fl.is_nan x || fl.is_inf x || fl.lt x float_zero || fl.lt float_hundred x)

pub check_range : FloatOps → Option Float64 → Result PercentageError Float64
unfolding in_range
check_range fl none = err out_of_range
check_range fl (some x) = if in_range fl x then ok x else err out_of_range

unfoldable pub parse_percentage : FloatOps → Bytes → Result PercentageError Float64
unfolding check_range
parse_percentage fl value = elim (cut_percent value) [
  | none ↦ err no_percent_sign
  | some digits ↦ check_range fl (fl.parse_float digits)
]

-- `err != nil || availability <= 0`.
pub availability_refused : FloatOps → Result PercentageError Float64 → Bool
availability_refused fl (err e) = true
availability_refused fl (ok x) = fl.le x float_zero

pub tag_refused : Image → Bool
tag_refused i = not (tag_matches i.tag) || equal_fold i.tag (bytes "latest")

pub replicas_refused : Replicas → Bool
replicas_refused r =
    ltb_ℤ r.min (pos 1)
    || ltb_ℤ (pos 100) r.min
    || ltb_ℤ r.max (pos 1)
    || ltb_ℤ (pos 100) r.max
    || ltb_ℤ r.max r.min

pub not_positive : QuantityOps → Resources → Bool
not_positive q r =
    not (ltb_ℤ (pos 0) (q.sign r.requests.cpu))
    || not (ltb_ℤ (pos 0) (q.sign r.requests.memory))
    || not (ltb_ℤ (pos 0) (q.sign r.limits.cpu))
    || not (ltb_ℤ (pos 0) (q.sign r.limits.memory))

pub exceeds : QuantityOps → Resources → Bool
exceeds q r =
    ltb_ℤ (pos 0) (q.cmp r.requests.cpu r.limits.cpu)
    || ltb_ℤ (pos 0) (q.cmp r.requests.memory r.limits.memory)

module _ (fl : FloatOps) (q : QuantityOps) where
  unfoldable pub validate : Application → Option Invalid
  unfolding availability_refused tag_refused replicas_refused not_positive exceeds
  validate app =
      let spec = app.spec in
      if is_blank spec.owner
      then some owner_empty
      else if not (repository_matches spec.image.repository)
      then some repository_invalid
      else if tag_refused spec.image
      then some tag_invalid
      else if ltb_ℤ spec.runtime.port (pos 1) || ltb_ℤ (pos 65535) spec.runtime.port
      then some port_range
      else if replicas_refused spec.runtime.replicas
      then some replica_bounds
      else if not_positive q spec.resources
      then some quantities_positive
      else if exceeds q spec.resources
      then some requests_exceed_limits
      else if availability_refused fl (parse_percentage fl spec.reliability.availability_target)
      then some availability_target
      else elim (parse_percentage fl spec.reliability.maximum_error_rate) [
        | err e ↦ some (maximum_error_rate e spec.reliability.maximum_error_rate)
        | ok _ ↦
            if not (ltb_ℤ (pos 0) spec.reliability.maximum_p95_latency)
            then some latency_positive
            else validate_deployment spec.deployment spec.observability.metrics
      ]
