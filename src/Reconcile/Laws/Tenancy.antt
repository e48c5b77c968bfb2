-- ===== src/Reconcile/Laws/Tenancy.antt =====
-- The Team of an Application, as Reconcile verifies it.
use steadystate.Prelude.{
  Bytes, bytes, bytes_eq_iff, true, false, ◌≡◌, refl, ◌≢◌, ◌↔◌, ◌⊎◌, inl, inr, none, some, [], ◌∷◌,
  ◌++◌, arith, Any, Bool-cases, ok,
}
use steadystate.Api.Application.{Application}
use steadystate.Api.Team.{Team, Namespace}
use steadystate.Naming.{team_namespace_name}
use steadystate.Team
use steadystate.Team.{path_match, repository_allowed}
use steadystate.Team.Laws.Wildcard.{repository_allowed_iff}
use steadystate.Reconcile.Cluster.{Answer, missing, failed, found, Cluster, Library}
use steadystate.Reconcile.Tenancy.{
  is_empty, team_label, team_uid, belongs, verified, validate_application_tenancy,
  application_tenancy,
}

-- The Application lies in the Namespace of a Team that is valid, is not being deleted, is the one
-- that the Namespace was made for, and allows the image's repository.
pub record IsTenant (lib : Library) (cluster : Cluster) (app : Application) : Type 0 where
  pub namespace : Namespace
  pub team : Team
  pub in_namespace : cluster.namespace ≡ found namespace
  pub of_team : cluster.team (team_label namespace) ≡ found team
  pub named : team_label namespace ≢ []
  pub marked : team_uid namespace ≢ []
  pub label : team_label namespace ≡ team.name
  pub name : namespace.name ≡ bytes "team-" ++ team.name
  pub uid : team_uid namespace ≡ team.uid
  pub alive : team.deleting ≡ false
  pub valid : Team.validate lib.teams team ≡ none
  pub allowed :
      Any (λ p. path_match p app.spec.image.repository ≡ some true) team.spec.allowed_repositories

pub Answer-cases {ℓ} :
    {A : Type ℓ} (a : Answer A)
    → (a ≡ missing) ⊎ (((e : Bytes) × (a ≡ failed e)) ⊎ ((x : A) × (a ≡ found x)))
Answer-cases missing = inl refl
Answer-cases (failed e) = inr (inl (e, refl))
Answer-cases (found x) = inr (inr (x, refl))

pub belongs_iff :
    (n : Namespace) (team : Team)
    → (belongs n team ≡ true) ↔ (
        (team_label n ≡ team.name)
        × (n.name ≡ bytes "team-" ++ team.name)
        × (team_uid n ≡ team.uid))
unfolding belongs team_namespace_name
belongs_iff n team = ground (
  arith,
  bytes_eq_iff (team_label n) team.name,
  bytes_eq_iff n.name (bytes "team-" ++ team.name),
  bytes_eq_iff (team_uid n) team.uid,
)

not_empty_iff : (s : Bytes) → (is_empty s ≡ false) ↔ (s ≢ [])
not_empty_iff [] = (λ h. cc, λ n. absurd (n refl))
not_empty_iff (c ∷ s) = (λ h e. cc, λ n. refl)

verified_iff :
    (n : Namespace)
    → (verified n ≡ true)
      ↔ ((team_label n ≢ []) × (n.name ≡ bytes "team-" ++ team_label n) × (team_uid n ≢ []))
unfolding verified
verified_iff n = ground (
  arith,
  not_empty_iff (team_label n),
  bytes_eq_iff n.name (bytes "team-" ++ team_label n),
  not_empty_iff (team_uid n),
)

validate_tenancy_iff :
    (lib : Library) (app : Application) (n : Namespace) (team : Team)
    → (validate_application_tenancy lib.teams app n team ≡ none) ↔ (
        (belongs n team ≡ true)
        × (team.deleting ≡ false)
        × (Team.validate lib.teams team ≡ none)
        × (repository_allowed team.spec.allowed_repositories app.spec.image.repository ≡ true))
unfolding validate_application_tenancy
validate_tenancy_iff lib app n team = (λ h. ground arith, λ (a, b, c, d). ground arith)

module _ (lib : Library) (cluster : Cluster) (app : Application) where
  tenancy_sound : application_tenancy lib cluster app ≡ ok none → IsTenant lib cluster app
  unfolding application_tenancy
  tenancy_sound h = elim (Answer-cases cluster.namespace) [
    | inl e ↦ absurd (ground arith)
    | inr (inl (x, e)) ↦ absurd (ground arith)
    | inr (inr (n, e)) ↦ elim (Bool-cases (verified n)) [
      | inr f ↦ absurd (ground arith)
      | inl f ↦ elim (Answer-cases (cluster.team (team_label n))) [
        | inl g ↦ absurd (ground arith)
        | inr (inl (x, g)) ↦ absurd (ground arith)
        | inr (inr (team, g)) ↦
            let (named, _, marked) = (verified_iff n).0 f in
            let (belong, alive, valid, allowed) =
              (validate_tenancy_iff lib app n team).0 (ground arith) in
            let (label, name, uid) = (belongs_iff n team).0 belong in
            record {
              namespace = n;
              team = team;
              in_namespace = e;
              of_team = g;
              named = named;
              marked = marked;
              label = label;
              name = name;
              uid = uid;
              alive = alive;
              valid = valid;
              allowed = (repository_allowed_iff _ _).0 allowed;
            }
      ]
    ]
  ]

  tenancy_complete : IsTenant lib cluster app → application_tenancy lib cluster app ≡ ok none
  unfolding application_tenancy
  tenancy_complete t = ground (
    arith,
    t.in_namespace,
    t.of_team,
    (verified_iff t.namespace).1 (t.named, rw (t.label) t.name, t.marked),
    (validate_tenancy_iff lib app t.namespace t.team).1 (
      (belongs_iff t.namespace t.team).1 (t.label, t.name, t.uid),
      t.alive,
      t.valid,
      (repository_allowed_iff _ _).1 t.allowed,
    ),
  )

  -- applicationTenancy finds no fault exactly with an Application in the Namespace of a Team that is
  -- valid, is not being deleted, is the very Team that the Namespace is marked with by its name and
  -- UID, and has a pattern that matches the image's repository.
  pub application_tenancy_iff :
      (application_tenancy lib cluster app ≡ ok none) ↔ IsTenant lib cluster app
  application_tenancy_iff = (tenancy_sound, tenancy_complete)
