-- ===== src/Platform/Laws/Allowed.antt =====
-- Every file that a request changes is one that may be changed.
use steadystate.Prelude.{Bytes, Bool, true, List, [], ◌∷◌, Result}
use steadystate.Platform.Errors.{Error}
use steadystate.Platform.Laws.Posts.{Holds, returned, Holds-bind, Holds-bind_eq, Holds-check}
use steadystate.Platform.Laws.Paths.{
  Allowed, write_leaf-Allowed, approve_manifest-Allowed, delete_leaf-Allowed,
}
use steadystate.Platform.Request.{Operation, ChangeParameters}
use steadystate.Platform.Files.{Repository}
use steadystate.Platform.Manifests.{Changes, Tools, write_team, write_application}
use steadystate.Platform.Storage.{write_database}
use steadystate.Platform.Operations.{
  Tenants, with_tenants, create_team, update_team, create_application, update_application,
  create_database, update_database, approve_all, approve_team_deletion,
  approve_application_deletion, approve_database_deletion, finalize_application, finalize_database,
}

module _ (tools : Tools) (repository : Repository) where
  abbrev Fine : Changes → Type 0
  Fine = Allowed tools.clean repository

  -- Of a pair of some value and the changes.
  abbrev pub FinePair : {A : Type 0} → A × Changes → Type 0
  FinePair r = Fine r.1

  pub with_tenants-Fine :
      (tenants : Tenants) (r : Result Error Changes)
      → Holds Fine r
      → Holds FinePair (with_tenants tenants r)
  with_tenants-Fine tenants r h = Holds-bind r _ h λ changes a. returned a

  pub write_team-Fine :
      (name : Bytes) (p : ChangeParameters) (cs : Changes)
      → Fine cs
      → Holds Fine (write_team tools repository name p cs)
  unfolding write_team
  write_team-Fine name p cs h = write_leaf-Allowed tools repository _ _ _ cs h

  pub write_application-Fine :
      (team : Bytes) (p : ChangeParameters) (isolation : Bool) (cs : Changes)
      → Fine cs
      → Holds Fine (write_application tools repository team p isolation cs)
  unfolding write_application
  write_application-Fine team p isolation cs h = write_leaf-Allowed tools repository _ _ _ cs h

  pub write_database-Fine :
      (operation : Operation) (team : Bytes) (p : ChangeParameters) (cs : Changes)
      → Fine cs
      → Holds Fine (write_database tools repository operation team p cs)
  unfolding write_database
  write_database-Fine operation team p cs h =
      Holds-bind_eq _ _ λ d _. write_leaf-Allowed tools repository _ _ _ cs h

  pub create_team-Fine :
      (p : ChangeParameters) (tenants : Tenants)
      → Holds FinePair (create_team tools repository p tenants)
  unfolding create_team
  create_team-Fine p tenants =
      Holds-check _ _ λ _. with_tenants-Fine _ _ (write_team-Fine _ p [] tt)

  pub update_team-Fine :
      (p : ChangeParameters) (tenants : Tenants)
      → Holds FinePair (update_team tools repository p tenants)
  unfolding update_team
  update_team-Fine p tenants =
      Holds-bind_eq _ _ λ tenant _. with_tenants-Fine _ _ (write_team-Fine _ p [] tt)

  pub create_application-Fine :
      (p : ChangeParameters) (tenants : Tenants)
      → Holds FinePair (create_application tools repository p tenants)
  unfolding create_application
  create_application-Fine p tenants = Holds-bind_eq _ _ λ tenant _.
      Holds-check _ _
        λ _. Holds-check _ _ λ _. with_tenants-Fine _ _ (write_application-Fine _ p true [] tt)

  pub update_application-Fine :
      (p : ChangeParameters) (tenants : Tenants)
      → Holds FinePair (update_application tools repository p tenants)
  unfolding update_application
  update_application-Fine p tenants = Holds-bind_eq _ _ λ tenant _.
      Holds-bind_eq _ _ λ application _.
        Holds-check _ _
          λ _. Holds-check _ _ λ _. with_tenants-Fine _ _ (write_application-Fine _ p true [] tt)

  pub create_database-Fine :
      (operation : Operation) (p : ChangeParameters) (tenants : Tenants)
      → Holds FinePair (create_database tools repository operation p tenants)
  unfolding create_database
  create_database-Fine operation p tenants = Holds-bind_eq _ _ λ tenant _.
      Holds-check _ _ λ _. with_tenants-Fine _ _ (write_database-Fine operation _ p [] tt)

  pub update_database-Fine :
      (operation : Operation) (p : ChangeParameters) (tenants : Tenants)
      → Holds FinePair (update_database tools repository operation p tenants)
  unfolding update_database
  update_database-Fine operation p tenants = Holds-bind_eq _ _ λ tenant _.
      Holds-bind_eq _ _ λ database _.
        Holds-check _ _ λ _. with_tenants-Fine _ _ (write_database-Fine operation _ p [] tt)

  pub approve_all-Fine :
      (path : Bytes → Bytes) (request : Bytes) (force : Bool) (names : List Bytes) (cs : Changes)
      → Fine cs
      → Holds Fine (approve_all tools repository path request force names cs)
  unfolding approve_all
  approve_all-Fine path request force [] cs h = returned h
  approve_all-Fine path request force (n ∷ ns) cs h =
      Holds-bind _ _ (approve_manifest-Allowed tools repository _ request force cs h)
        λ written w. approve_all-Fine path request force ns written w

  pub approve_team-Fine :
      (request : Bytes) (p : ChangeParameters) (tenants : Tenants)
      → Holds FinePair (approve_team_deletion tools repository request p tenants)
  unfolding approve_team_deletion
  approve_team-Fine request p tenants = Holds-bind_eq _ _ λ tenant _. with_tenants-Fine _ _ (
      Holds-bind _ _
        (Holds-bind _ _ (approve_manifest-Allowed tools repository _ request p.force [] tt)
          λ cs h. approve_all-Fine _ request p.force _ cs h)
        λ cs h. approve_all-Fine _ request p.force _ cs h)

  pub approve_application-Fine :
      (request : Bytes) (p : ChangeParameters) (tenants : Tenants)
      → Holds FinePair (approve_application_deletion tools repository request p tenants)
  unfolding approve_application_deletion
  approve_application-Fine request p tenants = Holds-bind_eq _ _ λ tenant _.
      Holds-bind_eq _ _ λ application _. Holds-check _ _ λ _.
        with_tenants-Fine _ _ (approve_manifest-Allowed tools repository _ request p.force [] tt)

  pub approve_database-Fine :
      (request : Bytes) (p : ChangeParameters) (tenants : Tenants)
      → Holds FinePair (approve_database_deletion tools repository request p tenants)
  unfolding approve_database_deletion
  approve_database-Fine request p tenants = Holds-bind_eq _ _ λ tenant _. Holds-check _ _ λ _.
      Holds-bind_eq _ _ λ database _. Holds-check _ _ λ _.
        with_tenants-Fine _ _ (approve_manifest-Allowed tools repository _ request p.force [] tt)

  pub finalize_application-Fine :
      (p : ChangeParameters) (tenants : Tenants)
      → Holds FinePair (finalize_application tools repository p tenants)
  unfolding finalize_application
  finalize_application-Fine p tenants = Holds-bind_eq _ _ λ tenant _.
      Holds-bind_eq _ _ λ application _.
        Holds-check _ _ λ _. with_tenants-Fine _ _ (delete_leaf-Allowed tools repository _ _ [] tt)

  pub finalize_database-Fine :
      (p : ChangeParameters) (tenants : Tenants)
      → Holds FinePair (finalize_database tools repository p tenants)
  unfolding finalize_database
  finalize_database-Fine p tenants = Holds-bind_eq _ _ λ tenant _. Holds-bind_eq _ _ λ database _.
      Holds-check _ _ λ _. with_tenants-Fine _ _ (delete_leaf-Allowed tools repository _ _ [] tt)
