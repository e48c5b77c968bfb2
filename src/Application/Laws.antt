-- ===== src/Application/Laws.antt =====
-- What `Validate` accepts, described apart from the order of its tests.
use steadystate.Prelude.{
  Bytes, bytes, equal_fold, true, false, ◌≡◌, ◌↔◌, none, some, inl, inr, Option-cases, arith, ok,
  Result-cases,
}
use steadystate.Prelude.Int.{pos, ◌≤ℤ◌, ◌<ℤ◌}
use steadystate.Prelude.Text.{is_blank, cut_percent}
use steadystate.Api.Numbers.{Float64, FloatOps, QuantityOps, float_zero, float_hundred}
use steadystate.Api.Application.{Application}
use steadystate.Application.Deployment.{IsValidDeployment, validate_deployment_iff}
use steadystate.Application.Validation.{repository_matches, tag_matches, parse_percentage, validate}

-- A percentage text: a number with "%" behind it, neither NaN nor infinite, from 0 to 100.
pub record IsPercentage (fl : FloatOps) (value : Bytes) (x : Float64) : Type 0 where
  pub digits : Bytes
  pub suffixed : cut_percent value ≡ some digits
  pub parsed : fl.parse_float digits ≡ some x
  pub number : fl.is_nan x ≡ false
  pub finite : fl.is_inf x ≡ false
  pub from_zero : fl.lt x float_zero ≡ false
  pub to_hundred : fl.lt float_hundred x ≡ false

-- ParsePercentage returns exactly the number of such a text.
pub parse_percentage_iff :
    (fl : FloatOps) (value : Bytes) (x : Float64)
    → (parse_percentage fl value ≡ ok x) ↔ IsPercentage fl value x
unfolding parse_percentage
parse_percentage_iff fl value x = (
  λ h. elim (Option-cases (cut_percent value)) [
    | inl e ↦ absurd (ground arith)
    | inr (digits, e) ↦ elim (Option-cases (fl.parse_float digits)) [
      | inl f ↦ absurd (ground arith)
      | inr (y, f) ↦
          let same : y ≡ x = ground arith in
          record {
            digits = digits;
            suffixed = e;
            parsed = rw (← same) f;
            number = ground arith;
            finite = ground arith;
            from_zero = ground arith;
            to_hundred = ground arith;
          }
    ]
  ],
  λ p. ground (arith, p.suffixed, p.parsed, p.number),
)

-- What is asked of an Application, with no order among the demands.
pub record IsValid (fl : FloatOps) (q : QuantityOps) (app : Application) : Type 0 where
  pub owned : is_blank app.spec.owner ≡ false
  pub repository : repository_matches app.spec.image.repository ≡ true
  pub tag : tag_matches app.spec.image.tag ≡ true
  pub pinned : equal_fold app.spec.image.tag (bytes "latest") ≡ false
  pub port_low : pos 1 ≤ℤ app.spec.runtime.port
  pub port_high : app.spec.runtime.port ≤ℤ pos 65535
  pub min_low : pos 1 ≤ℤ app.spec.runtime.replicas.min
  pub min_max : app.spec.runtime.replicas.min ≤ℤ app.spec.runtime.replicas.max
  pub max_high : app.spec.runtime.replicas.max ≤ℤ pos 100
  pub request_cpu : pos 0 <ℤ q.sign app.spec.resources.requests.cpu
  pub request_memory : pos 0 <ℤ q.sign app.spec.resources.requests.memory
  pub limit_cpu : pos 0 <ℤ q.sign app.spec.resources.limits.cpu
  pub limit_memory : pos 0 <ℤ q.sign app.spec.resources.limits.memory
  pub cpu_fits : q.cmp app.spec.resources.requests.cpu app.spec.resources.limits.cpu ≤ℤ pos 0
  pub memory_fits :
      q.cmp app.spec.resources.requests.memory app.spec.resources.limits.memory ≤ℤ pos 0
  pub available :
      (x : Float64) × (parse_percentage fl app.spec.reliability.availability_target ≡ ok x)
      × (fl.le x float_zero ≡ false)
  pub error_rate :
      (x : Float64) × (parse_percentage fl app.spec.reliability.maximum_error_rate ≡ ok x)
  pub latency : pos 0 <ℤ app.spec.reliability.maximum_p95_latency
  pub deployment : IsValidDeployment app.spec.deployment app.spec.observability.metrics

module _ (fl : FloatOps) (q : QuantityOps) (app : Application) where
  validate_sound : validate fl q app ≡ none → IsValid fl q app
  unfolding validate
  validate_sound h = record {
    owned = ground arith;
    repository = ground arith;
    tag = ground arith;
    pinned = ground arith;
    port_low = ground arith;
    port_high = ground arith;
    min_low = ground arith;
    min_max = ground arith;
    max_high = ground arith;
    request_cpu = ground arith;
    request_memory = ground arith;
    limit_cpu = ground arith;
    limit_memory = ground arith;
    cpu_fits = ground arith;
    memory_fits = ground arith;
    available = elim (Result-cases (parse_percentage fl app.spec.reliability.availability_target)) [
      | inl (x, e) ↦ (x, e, ground arith)
      | inr (e, f) ↦ absurd (ground arith)
    ];
    error_rate = elim (Result-cases (parse_percentage fl app.spec.reliability.maximum_error_rate)) [
      | inl found ↦ found
      | inr (e, f) ↦ absurd (ground arith)
    ];
    latency = ground arith;
    deployment = (validate_deployment_iff _ _).0 (ground arith);
  }

  validate_complete : IsValid fl q app → validate fl q app ≡ none
  unfolding validate
  validate_complete v = ground (
    arith,
    (validate_deployment_iff app.spec.deployment app.spec.observability.metrics).1 v.deployment,
    v.available.1,
    v.available.2,
    v.error_rate.1,
  )

  -- `Validate` accepts an Application exactly when it has an owner, an image repository with no "@"
  -- and no space, a well-formed tag that is not "latest" in any case, a port and replica bounds in
  -- range, positive quantities with no request above its limit, an availability target above 0%, a
  -- maximum error rate that is a percentage, a positive latency and a valid deployment.
  pub validate_iff : (validate fl q app ≡ none) ↔ IsValid fl q app
  validate_iff = (validate_sound, validate_complete)
