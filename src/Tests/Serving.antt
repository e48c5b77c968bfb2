-- ===== src/Tests/Serving.antt =====
-- The decisions on the children of a canary.
use steadystate.Prelude.{bytes, equal_fold, ◌≡◌, refl, none, some, List, [], ◌∷◌}
use steadystate.Prelude.Int.{pos}
use steadystate.Application.Validation.{validate, tag_matches}
use steadystate.Status.Observe.{Backend}
use steadystate.Progressive.Serving.{serving_application_at_version}
use steadystate.Progressive.Laws.{serving_valid}
use steadystate.Tests.Data.{numbers, quantities, canary_application}
use steadystate.Tests.Validations.{canary_application-IsValid}
use steadystate.Application.Laws.{validate_iff}

abbrev backends : List Backend
backends =
    record { name = bytes "s"; weight = some (pos 100) }
    ∷ record { name = bytes "c"; weight = some (pos 0) }
    ∷ []

abbrev weighted : List Backend
weighted =
    record { name = bytes "s"; weight = some (pos 90) }
    ∷ record { name = bytes "c"; weight = some (pos 10) }
    ∷ []

serving_valid_example :
    validate numbers quantities (serving_application_at_version canary_application (bytes "v1"))
    ≡ none
unfolding tag_matches equal_fold bytes
serving_valid_example =
    serving_valid numbers quantities canary_application (bytes "v1")
      ((validate_iff numbers quantities canary_application).1 canary_application-IsValid) refl refl
