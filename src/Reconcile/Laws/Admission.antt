-- ===== src/Reconcile/Laws/Admission.antt =====
-- Which Applications the checks of Reconcile admit.
use steadystate.Prelude.{
  Bytes, true, ◌≡◌, refl, ◌↔◌, ◌⊎◌, inl, inr, none, some, arith, Option-cases, ok, Result-cases,
}
use steadystate.Api.Conditions.{Condition, is_true}
use steadystate.Api.Application.{Application, canary}
use steadystate.Application.Validation.{validate}
use steadystate.Application.Laws.{IsValid, validate_iff}
use steadystate.Provenance.{resolved_source_revision}
use steadystate.Reconcile.Cluster.{found, Database, Cluster, Library}
use steadystate.Reconcile.Tenancy.{application_tenancy}
use steadystate.Reconcile.Gate.{
  application_database_ready, database_current, admitted, gate, tenancy_gate, feature_gate,
  database_gate, unsupported_features,
}
use steadystate.Reconcile.Laws.Tenancy.{IsTenant, Answer-cases, application_tenancy_iff}

-- The Database's condition Ready is True, and both it and the status are of the current generation.
pub record IsReadyDatabase (lib : Library) (d : Database) : Type 0 where
  pub observed : d.observed_generation ≡ d.generation
  pub ready : Condition
  pub listed : lib.conditions.find d.conditions "Ready" ≡ some ready
  pub current : ready.observed_generation ≡ d.generation
  pub holds : ready.status ≡ is_true

-- The Application asks for no Database, or for one that is ready.
abbrev pub IsServed : Library → Cluster → Application → Type 0
IsServed lib cluster app =
    (app.spec.database_ref ≡ none)
    ⊎ ((name : Bytes) × (d : Database) × (app.spec.database_ref ≡ some name)
        × (cluster.database name ≡ found d)
        × IsReadyDatabase lib d)

pub record IsAdmitted (lib : Library) (cluster : Cluster) (app : Application) (r : Bytes)
    : Type 0 where
  pub valid : IsValid lib.floats lib.quantities app
  pub revision : resolved_source_revision app.annotations ≡ ok r
  pub tenant : IsTenant lib cluster app
  pub delivery : app.spec.deployment.strategy ≡ canary → cluster.progressive_delivery ≡ true
  pub database : IsServed lib cluster app

module _ (lib : Library) (cluster : Cluster) (app : Application) where
  database_current_iff :
      (d : Database) → (database_current lib cluster app d ≡ true) ↔ IsReadyDatabase lib d
  unfolding database_current
  database_current_iff d = (
    λ h. elim (Option-cases (lib.conditions.find d.conditions "Ready")) [
      | inl e ↦ absurd (ground arith)
      | inr (c, e) ↦ record {
        observed = ground arith;
        ready = c;
        listed = e;
        current = ground arith;
        holds = ground arith;
      }
    ],
    λ v. ground (arith, v.observed, v.listed, v.current, v.holds),
  )

  database_sound : application_database_ready lib cluster app ≡ ok none → IsServed lib cluster app
  unfolding application_database_ready
  database_sound h = elim (Option-cases app.spec.database_ref) [
    | inl e ↦ inl e
    | inr (name, e) ↦ elim (Answer-cases (cluster.database name)) [
      | inl f ↦ absurd (ground arith)
      | inr (inl (x, f)) ↦ absurd (ground arith)
      | inr (inr (d, f)) ↦ inr (name, d, e, f, (database_current_iff d).0 (ground arith))
    ]
  ]

  database_complete :
      IsServed lib cluster app → application_database_ready lib cluster app ≡ ok none
  unfolding application_database_ready
  database_complete (inl e) = ground arith
  database_complete (inr (name, d, e, f, c)) = ground (arith, (database_current_iff d).1 c)

  database_gate_iff :
      (r r' : Bytes)
      → (database_gate lib cluster app r ≡ admitted r')
        ↔ ((application_database_ready lib cluster app ≡ ok none) × (r ≡ r'))
  unfolding database_gate
  database_gate_iff r r' = (λ h. ground arith, λ (e, f). ground arith)

  feature_gate_iff :
      (r r' : Bytes)
      → (feature_gate lib cluster app r ≡ admitted r') ↔ (
          (app.spec.deployment.strategy ≡ canary → cluster.progressive_delivery ≡ true)
          × (database_gate lib cluster app r ≡ admitted r'))
  unfolding feature_gate unsupported_features
  feature_gate_iff r r' = ((λ h. ((λ e. ground arith), ground arith)), λ (d, e). ground arith)

  tenancy_gate_iff :
      (r r' : Bytes)
      → (tenancy_gate lib cluster app r ≡ admitted r') ↔ (
          (application_tenancy lib cluster app ≡ ok none)
          × (feature_gate lib cluster app r ≡ admitted r'))
  unfolding tenancy_gate
  tenancy_gate_iff r r' = (λ h. ground arith, λ (e, f). ground arith)

  front_iff :
      (r' : Bytes)
      → (gate lib cluster app ≡ admitted r') ↔ (
          (validate lib.floats lib.quantities app ≡ none)
          × ((r : Bytes) × (resolved_source_revision app.annotations ≡ ok r)
              × (tenancy_gate lib cluster app r ≡ admitted r')))
  unfolding gate
  front_iff r' = (
    λ h. elim (Result-cases (resolved_source_revision app.annotations)) [
      | inl (r, e) ↦ (ground arith, (r, e, ground arith))
      | inr (e, f) ↦ absurd (ground arith)
    ],
    λ (v, (r, e, t)). ground arith,
  )

  -- The checks of Reconcile admit an Application with the source revision `r` exactly when it is
  -- valid, `r` is the revision that its annotation resolves to, it is a tenant of its Team, a canary
  -- finds progressive delivery installed, and its Database, if it has one, is ready at its current
  -- generation.
  pub gate_iff : (r : Bytes) → (gate lib cluster app ≡ admitted r) ↔ IsAdmitted lib cluster app r
  gate_iff r' = (
    λ h.
        let (valid, (r, revision, t)) = (front_iff r').0 h in
        let (tenant, f) = (tenancy_gate_iff r r').0 t in
        let (delivery, d) = (feature_gate_iff r r').0 f in
        let (database, same) = (database_gate_iff r r').0 d in
        record {
          valid = (validate_iff _ _ app).0 valid;
          revision = rw (← same) revision;
          tenant = (application_tenancy_iff lib cluster app).0 tenant;
          delivery = delivery;
          database = database_sound database;
        },
    λ a. (front_iff r').1 (
      (validate_iff _ _ app).1 a.valid,
      (
        r',
        a.revision,
        (tenancy_gate_iff r' r').1 (
          (application_tenancy_iff lib cluster app).1 a.tenant,
          (feature_gate_iff r' r').1
              (a.delivery, (database_gate_iff r' r').1 (database_complete a.database, refl)),
        ),
      ),
    ),
  )
