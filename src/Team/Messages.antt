-- ===== src/Team/Messages.antt =====
-- The texts of the errors of internal/team/validation.go. `%s` of a minimum quota is its argument.
use steadystate.Prelude.{bytes, join, [], ◌∷◌}
use steadystate.Api.Conditions.{Message}
use steadystate.Team.Validation.{InvalidTeam, TeamOps}

unfoldable pub team_message : TeamOps → InvalidTeam → Message
team_message ops InvalidTeam.name_too_long = record {
  format = "team name must contain at most 58 characters";
  args = [];
}
team_message ops (InvalidTeam.not_a_label errors) = record {
  format = "team name must be a DNS label: %s";
  args = join (bytes "; ") errors ∷ [];
}
team_message ops InvalidTeam.owners_count = record {
  format = "owners must contain between 1 and 32 Kubernetes usernames";
  args = [];
}
team_message ops InvalidTeam.cpu_quota = record {
  format = "CPU quota must be at least %s";
  args = ops.minimum_cpu ∷ [];
}
team_message ops InvalidTeam.memory_quota = record {
  format = "memory quota must be at least %s";
  args = ops.minimum_memory ∷ [];
}
team_message ops InvalidTeam.repositories_count = record {
  format = "allowedRepositories must contain between 1 and 32 patterns";
  args = [];
}
team_message ops (InvalidTeam.owner_malformed owner) = record {
  format = "owner %q must be a non-empty Kubernetes username without whitespace";
  args = owner ∷ [];
}
team_message ops (InvalidTeam.owner_duplicated owner) = record {
  format = "owner %q is duplicated";
  args = owner ∷ [];
}
team_message ops (InvalidTeam.pattern_malformed p) = record {
  format = "repository pattern %q must be non-empty and must not contain whitespace or a digest";
  args = p ∷ [];
}
team_message ops (InvalidTeam.pattern_invalid p) = record {
  format = "repository pattern %q is invalid: syntax error in pattern";
  args = p ∷ [];
}
team_message ops (InvalidTeam.pattern_duplicated p) = record {
  format = "repository pattern %q is duplicated";
  args = p ∷ [];
}
