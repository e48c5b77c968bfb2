-- ===== src/Naming/Labels.antt =====
-- The labels and annotations of the generated objects. A map is an association list.
use steadystate.Prelude.{Bytes, bytes, List, [], ◌∷◌, ◌++◌}
use steadystate.Api.Application.{Application}
use steadystate.Api.Team.{Team}

-- Labels.
unfoldable pub labels : Application → List (Bytes × Bytes)
labels app =
    (bytes "app.kubernetes.io/instance", app.name)
    ∷ (bytes "app.kubernetes.io/managed-by", bytes "steadystate")
    ∷ (bytes "app.kubernetes.io/name", app.name)
    ∷ (bytes "app.kubernetes.io/part-of", bytes "steadystate")
    ∷ []

-- SelectorLabels.
unfoldable pub selector_labels : Application → List (Bytes × Bytes)
selector_labels app =
    (bytes "app.kubernetes.io/instance", app.name)
    ∷ (bytes "app.kubernetes.io/managed-by", bytes "steadystate")
    ∷ []

-- Hostname.
unfoldable pub hostname : Application → Bytes
hostname app = app.name ++ bytes "." ++ app.namespace ++ bytes ".steadystate.localtest.me"

-- TeamLabels.
unfoldable pub team_labels : Team → List (Bytes × Bytes)
team_labels team =
    (bytes "app.kubernetes.io/instance", team.name)
    ∷ (bytes "app.kubernetes.io/managed-by", bytes "steadystate")
    ∷ (bytes "app.kubernetes.io/name", bytes "steadystate-team")
    ∷ (bytes "app.kubernetes.io/part-of", bytes "steadystate")
    ∷ (bytes "steadystate.dev/team", team.name)
    ∷ []

-- TeamAnnotations.
unfoldable pub team_annotations : Team → List (Bytes × Bytes)
team_annotations team = (bytes "steadystate.dev/team-uid", team.uid) ∷ []
