-- ===== src/Tests/Data.antt =====
-- Concrete resources, and a concrete function for each library call that the model takes.
use steadystate.Prelude.{
  ℕ, String, str_eq, Bytes, bytes, bytes_eq, true, false, Option, none, some, List, [], ◌∷◌, refl,
  ltb, leb, length, if◌then◌else◌,
}
use steadystate.Prelude.Int.{pos, negsuc}
use steadystate.Api.Conditions.{Condition, ConditionOps}
use steadystate.Api.Numbers.{FloatOps, QuantityOps}
use steadystate.Api.Application.{Application, Strategy, rolling, canary, CanaryStep, unset}
use steadystate.Api.Team.{Team}
use steadystate.Naming.{Sha256}
use steadystate.Team.{TeamOps}

-- The last condition of a type is in front.
abbrev find_condition : List Condition → String → Option Condition
find_condition [] t = none
find_condition (c ∷ cs) t = if str_eq t c.kind then some c else find_condition cs t

abbrev pub condition_ops : ConditionOps
condition_ops = record {
  set = λ cs c. c ∷ cs;
  find = find_condition;
  stamp = λ cs c. c.last_transition;
  find-set = λ cs c t. refl;
}

-- The texts "99" and "1" are numbers, each its own order.
abbrev pub numbers : FloatOps
numbers = record {
  parse_float = λ s.
      if bytes_eq s (bytes "99")
      then some 0x4058c00000000000
      else if bytes_eq s (bytes "1")
      then some 0x3ff0000000000000
      else none;
  is_nan = λ x. ltb 0x7ff0000000000000 x;
  is_inf = λ x. false;
  lt = ltb;
  le = leb;
}

-- A quantity of one byte is that many units.
abbrev units : Bytes → ℕ
units [] = 0
units (c ∷ s) = c

abbrev pub quantities : QuantityOps
quantities = record {
  sign = λ q. if ltb 0 (units q) then pos 1 else pos 0;
  cmp = λ a b.
      if ltb (units a) (units b)
      then negsuc 0
      else if ltb (units b) (units a)
      then pos 1
      else pos 0;
  parse = λ s. if ltb 0 (length s) then some s else none;
}

abbrev thirty_two : List ℕ
thirty_two =
    0 ∷ 1 ∷ 2 ∷ 3 ∷ 4 ∷ 5 ∷ 6 ∷ 7 ∷ 0 ∷ 1 ∷ 2 ∷ 3 ∷ 4 ∷ 5 ∷ 6 ∷ 7 ∷ 0 ∷ 1 ∷ 2 ∷ 3 ∷ 4 ∷ 5 ∷ 6 ∷ 7
    ∷ 0 ∷ 1 ∷ 2 ∷ 3 ∷ 4 ∷ 5 ∷ 6 ∷ 7 ∷ []

abbrev pub sums : Sha256
sums = record { sum = λ s. thirty_two; length-sum = λ s. refl }

abbrev pub two_steps : List CanaryStep
two_steps =
    record { weight = pos 10; pause = pos 60 } ∷ record { weight = pos 50; pause = pos 60 } ∷ []

abbrev pub application_of : Strategy → List CanaryStep → Application
application_of strategy steps = record {
  name = bytes "checkout";
  namespace = bytes "team-shop";
  generation = 3;
  deleting = false;
  finalizer = true;
  annotations = [];
  spec = record {
    owner = bytes "ana";
    image = record { repository = bytes "ghcr.io/shop/checkout"; tag = bytes "v2" };
    runtime = record { port = pos 8080; replicas = record { min = pos 2; max = pos 5 } };
    resources = record {
      requests = record { cpu = 1 ∷ []; memory = 2 ∷ [] };
      limits = record { cpu = 1 ∷ []; memory = 4 ∷ [] };
    };
    deployment = record { strategy = strategy; steps = steps; automatic_rollback = true };
    reliability = record {
      availability_target = bytes "99%";
      maximum_p95_latency = pos 300;
      maximum_error_rate = bytes "1%";
    };
    observability = record { metrics = true; logs = true; traces = false };
    security = record {
      require_signed_image = true;
      run_as_non_root = true;
      network_isolation = true;
    };
    database_ref = none;
  };
  status = record {
    phase = unset;
    observed_generation = 2;
    active_version = bytes "v1";
    candidate_version = [];
    resolved_image_digest = [];
    resolved_git_revision = [];
    conditions = [];
  };
}

abbrev pub canary_application : Application
canary_application = application_of canary two_steps

abbrev pub rolling_application : Application
rolling_application = application_of rolling []

abbrev pub team_ops : TeamOps
team_ops = record {
  label_errors = λ s. [];
  quantities = quantities;
  minimum_cpu = 1 ∷ [];
  minimum_memory = 1 ∷ [];
}

abbrev pub shop_team : Team
shop_team = record {
  name = bytes "shop";
  uid = bytes "u1";
  generation = 1;
  deleting = false;
  finalizer = true;
  annotations = [];
  spec = record {
    owners = bytes "ana" ∷ bytes "bo" ∷ [];
    quota = record { cpu = 9 ∷ []; memory = 9 ∷ [] };
    allowed_repositories = bytes "ghcr.io/shop/*" ∷ [];
  };
  status = record { observed_generation = 0; namespace = []; conditions = [] };
}
