-- ===== src/Application/Messages.antt =====
-- The texts of the errors of internal/application/validation.go. A format is kept with its
-- arguments; constants that the code formats are written out.
use steadystate.Prelude.{String, Bytes, List, [], ◌∷◌}
use Prim.Native.String
use steadystate.Api.Conditions.{Message}
use steadystate.Application.Deployment.{PercentageError, Invalid}

abbrev plain : String → Message
plain s = record { format = s; args = [] }

unfoldable pub percentage_message : PercentageError → Bytes → Message
percentage_message PercentageError.no_percent_sign value = record {
  format = "percentage %q must end in %%";
  args = value ∷ [];
}
percentage_message PercentageError.out_of_range value = record {
  format = "percentage %q must be between 0%% and 100%%";
  args = value ∷ [];
}

-- `fmt.Errorf("…: %w", err)`.
abbrev pub wrapped : String → List Bytes → Message → Message
wrapped before args m = record {
  format = String.◌++◌ before m.format;
  args = mathlib.Core.List.◌++◌ args m.args;
}

unfoldable pub invalid_message : Invalid → Message
invalid_message Invalid.owner_empty = plain "owner must not be empty"
invalid_message Invalid.repository_invalid =
    plain "image repository must be non-empty and must not contain a digest"
invalid_message Invalid.tag_invalid = plain "image tag must be explicit and must not be latest"
invalid_message Invalid.port_range = plain "runtime port must be between 1 and 65535"
invalid_message Invalid.replica_bounds =
    plain "replica bounds must be within 1-100 and min must not exceed max"
invalid_message Invalid.quantities_positive =
    plain "CPU and memory requests and limits must be positive"
invalid_message Invalid.requests_exceed_limits = plain "resource requests must not exceed limits"
invalid_message Invalid.availability_target =
    plain "availability target must be greater than 0%% and at most 100%%"
invalid_message Invalid.latency_positive = plain "maximum P95 latency must be positive"
invalid_message (Invalid.maximum_error_rate e value) =
    wrapped "invalid maximum error rate: " [] (percentage_message e value)
invalid_message Invalid.rolling_with_steps = plain "rolling strategy cannot contain canary steps"
invalid_message Invalid.canary_without_steps = plain "canary strategy requires steps"
invalid_message Invalid.canary_without_metrics =
    plain "canary strategy requires observability.metrics=true"
invalid_message (Invalid.unknown_strategy name) = record {
  format = "unknown deployment strategy %q";
  args = name ∷ [];
}
invalid_message Invalid.too_many_steps = plain "canary strategy supports at most ten steps"
invalid_message Invalid.weights_increasing =
    plain "canary weights must be unique, increasing, and between 1 and 100"
invalid_message Invalid.pauses_positive = plain "canary pauses must be positive"
