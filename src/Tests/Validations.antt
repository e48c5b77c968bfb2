-- ===== src/Tests/Validations.antt =====
-- Validation of Applications and Teams at concrete inputs.
use steadystate.Prelude.{bytes, bytes_eq, equal_fold, true, ◌≡◌, refl, inr, none, arith, ok}
use steadystate.Application.Deployment.{
  validate_deployment, validate_deployment_iff, IsValidDeployment,
}
use steadystate.Prelude.Text.{is_blank, cut_percent, contains_space}
use steadystate.Application.Validation.{repository_matches, tag_matches, validate, parse_percentage}
use steadystate.Application.Laws.{IsValid, IsPercentage, parse_percentage_iff, validate_iff}
use steadystate.Team.{validate_owners}
use steadystate.Team.Laws.Owners.{validate_owners_iff}
use steadystate.Tests.Data.{numbers, quantities, canary_application, shop_team}

canary_deployment-IsValid : IsValidDeployment canary_application.spec.deployment true
canary_deployment-IsValid = record {
  fits = inr (refl, (λ e. cc), refl);
  few = omega arith;
  each = ((omega arith, omega arith, omega arith), ((omega arith, omega arith, omega arith), tt));
  ascending = ((omega arith, tt), (tt, tt));
}

validate_deployment_iff_example : validate_deployment canary_application.spec.deployment true ≡ none
validate_deployment_iff_example =
    (validate_deployment_iff canary_application.spec.deployment true).1 canary_deployment-IsValid

target-IsPercentage : IsPercentage numbers (bytes "99%") 0x4058c00000000000
unfolding bytes bytes_eq cut_percent
target-IsPercentage = record {
  digits = bytes "99";
  suffixed = refl;
  parsed = refl;
  number = refl;
  finite = refl;
  from_zero = refl;
  to_hundred = refl;
}

rate-IsPercentage : IsPercentage numbers (bytes "1%") 0x3ff0000000000000
unfolding bytes bytes_eq cut_percent
rate-IsPercentage = record {
  digits = bytes "1";
  suffixed = refl;
  parsed = refl;
  number = refl;
  finite = refl;
  from_zero = refl;
  to_hundred = refl;
}

parse_percentage_iff_example : parse_percentage numbers (bytes "99%") ≡ ok 0x4058c00000000000
parse_percentage_iff_example =
    (parse_percentage_iff numbers (bytes "99%") 0x4058c00000000000).1 target-IsPercentage

pub canary_application-IsValid : IsValid numbers quantities canary_application
unfolding bytes is_blank equal_fold repository_matches tag_matches
canary_application-IsValid = record {
  owned = refl;
  repository = refl;
  tag = refl;
  pinned = refl;
  port_low = omega arith;
  port_high = omega arith;
  min_low = omega arith;
  min_max = omega arith;
  max_high = omega arith;
  request_cpu = omega arith;
  request_memory = omega arith;
  limit_cpu = omega arith;
  limit_memory = omega arith;
  cpu_fits = omega arith;
  memory_fits = omega arith;
  available = (0x4058c00000000000, (parse_percentage_iff numbers _ _).1 target-IsPercentage, refl);
  error_rate = (0x3ff0000000000000, (parse_percentage_iff numbers _ _).1 rate-IsPercentage);
  latency = omega arith;
  deployment = canary_deployment-IsValid;
}

validate_iff_example : validate numbers quantities canary_application ≡ none
validate_iff_example =
    (validate_iff numbers quantities canary_application).1 canary_application-IsValid

validate_owners_iff_example : validate_owners (shop_team.spec.owners) ≡ none
unfolding bytes contains_space
validate_owners_iff_example = (validate_owners_iff shop_team.spec.owners).1 (
  omega arith,
  omega arith,
  (((λ e. cc), omega arith, refl), (((λ e. cc), omega arith, refl), tt)),
  (((λ e. ground arith), tt), (tt, tt)),
)
