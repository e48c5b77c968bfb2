-- ===== src/Team/Validation.antt =====
-- internal/team/validation.go. A `nil` error is `none`.
use steadystate.Prelude.{
  Bytes, contains, Bool, true, false, not, ◌||◌, Option, none, some, List, [], ◌∷◌, ltb, ◌==◌,
  length, is_some, if◌then◌else◌,
}
use steadystate.Prelude.Int.{pos, ltb_ℤ}
use steadystate.Prelude.Text.{contains_space}
use steadystate.Api.Numbers.{QuantityOps}
use steadystate.Api.Team.{Team}
use steadystate.Application.Validation.{repository_matches}
use steadystate.Team.Glob.{path_match}

-- The errors of `Validate`, in the order of the code.
pub data InvalidTeam : Type 0 where
  name_too_long owners_count cpu_quota memory_quota repositories_count : InvalidTeam
  not_a_label : List Bytes → InvalidTeam  -- the library's errors
  owner_malformed owner_duplicated : Bytes → InvalidTeam
  pattern_malformed pattern_invalid pattern_duplicated : Bytes → InvalidTeam

-- The library calls: utilvalidation.IsDNS1123Label, which returns its errors, and the two minimum quotas that
-- resource.MustParse reads.
pub record TeamOps : Type 0 where
  pub label_errors : Bytes → List Bytes
  pub quantities : QuantityOps
  pub minimum_cpu : Bytes
  pub minimum_memory : Bytes

abbrev is_empty : Bytes → Bool
is_empty [] = true
is_empty (c ∷ s) = false

-- The loop over the owners.
unfoldable pub check_owners : List Bytes → List Bytes → Option InvalidTeam
check_owners seen [] = none
check_owners seen (owner ∷ owners) =
    if is_empty owner || ltb 253 (length owner) || contains_space owner
    then some (owner_malformed owner)
    else if contains seen owner
    then some (owner_duplicated owner)
    else check_owners (owner ∷ seen) owners

unfoldable pub validate_owners : List Bytes → Option InvalidTeam
unfolding check_owners
validate_owners owners =
    if length owners == 0 || ltb 32 (length owners)
    then some owners_count
    else check_owners [] owners

-- The loop over the patterns; repositoryPattern is the one of the Application's image.
unfoldable pub check_repositories : List Bytes → List Bytes → Option InvalidTeam
check_repositories seen [] = none
check_repositories seen (pattern_text ∷ patterns) =
    if ltb 512 (length pattern_text) || not (repository_matches pattern_text)
    then some (pattern_malformed pattern_text)
    else if not (is_some (path_match pattern_text []))
    then some (pattern_invalid pattern_text)
    else if contains seen pattern_text
    then some (pattern_duplicated pattern_text)
    else check_repositories (pattern_text ∷ seen) patterns

unfoldable pub validate_repositories : List Bytes → Option InvalidTeam
unfolding check_repositories
validate_repositories patterns =
    if length patterns == 0 || ltb 32 (length patterns)
    then some repositories_count
    else check_repositories [] patterns

abbrev or_else : Option InvalidTeam → Option InvalidTeam → Option InvalidTeam
or_else (some e) rest = some e
or_else none rest = rest

-- Validate.
unfoldable pub validate : TeamOps → Team → Option InvalidTeam
validate ops team =
    if ltb 58 (length team.name)
    then some name_too_long
    else if ltb 0 (length (ops.label_errors team.name))
    then some (not_a_label (ops.label_errors team.name))
    else or_else (validate_owners team.spec.owners) (
        if ltb_ℤ (ops.quantities.cmp team.spec.quota.cpu ops.minimum_cpu) (pos 0)
        then some cpu_quota
        else if ltb_ℤ (ops.quantities.cmp team.spec.quota.memory ops.minimum_memory) (pos 0)
        then some memory_quota
        else validate_repositories team.spec.allowed_repositories)

abbrev matched : Option Bool → Bool
matched (some true) = true
matched _ = false

-- RepositoryAllowed.
unfoldable pub repository_allowed : List Bytes → Bytes → Bool
repository_allowed [] repository = false
repository_allowed (allowed ∷ patterns) repository =
    if matched (path_match allowed repository) then true else repository_allowed patterns repository
