-- ===== src/Progressive/Laws.antt =====
-- When the serving Deployment is let go, and what keeps its weight and its version.
pub mod Drain
pub mod Calls
pub mod Rolling
pub mod Canary
pub mod Pass
pub mod Migration
use steadystate.Prelude.{
  Bytes, bytes, equal_fold, Bool, true, false, ◌≡◌, refl, ap, sym, ◌∙◌, ◌≢◌, ◌↔◌, ◌⊎◌, inl, inr,
  Option, none, some, List, [], ◌∷◌, map, arith, Option-cases, Bool-cases,
}
use steadystate.Api.Application.{Application}
use steadystate.Api.Numbers.{FloatOps, QuantityOps}
use steadystate.Application.Validation.{validate, tag_matches}
use steadystate.Application.Laws.{validate_iff}
use steadystate.Status.Observe.{Backend, Rollout, is_empty_text, rollout_traffic_routing_active}
use steadystate.Progressive.Serving.{
  should_hold_serving_deployment, current_weight, reweigh, first_backends, preserve_route_weights,
  serving_application_at_version,
}

pub empty_text_iff : (s : Bytes) → (is_empty_text s ≡ true) ↔ (s ≡ [])
empty_text_iff [] = (λ h. refl, λ h. refl)
empty_text_iff (c ∷ s) = (λ h. cc, λ h. absurd (ground arith))

not_empty : (s : Bytes) → s ≢ [] → is_empty_text s ≡ false
not_empty [] n = absurd (n refl)
not_empty (c ∷ s) n = refl

-- The serving Deployment of an Application is let go exactly when nothing has been promoted yet, or
-- its Rollout has a stable ReplicaSet and either the canary route is ready or the Rollout already
-- routes traffic.
pub should_hold_iff :
    (app : Application) (rollout : Option Rollout) (ready : Bool)
    → (should_hold_serving_deployment app rollout ready ≡ false) ↔ (
        (app.status.active_version ≡ [])
        ⊎ ((r : Rollout) × (rollout ≡ some r)
            × (r.stable_rs ≢ [])
            × ((ready ≡ true) ⊎ (rollout_traffic_routing_active (some r) ≡ true))))
unfolding should_hold_serving_deployment
should_hold_iff app rollout ready = (
  λ h. elim (Bool-cases (is_empty_text app.status.active_version)) [
    | inl e ↦ inl ((empty_text_iff _).0 e)
    | inr e ↦ elim (Option-cases rollout) [
      | inl f ↦ absurd (ground arith)
      | inr (r, f) ↦ inr (
        r,
        f,
        (λ n. ground (arith, (empty_text_iff r.stable_rs).1 n)),
        elim (Bool-cases ready) [ inl g ↦ inl g | inr g ↦ inr (ground arith) ],
      )
    ]
  ],
  λ h. elim h [
    | inl e ↦ ground (arith, (empty_text_iff app.status.active_version).1 e)
    | inr (r, f, n, inl g) ↦ ground (arith, not_empty r.stable_rs n)
    | inr (r, f, n, inr g) ↦ ground (arith, not_empty r.stable_rs n)
  ],
)

reweigh_idempotent :
    (current : List Backend) (b : Backend) → reweigh current (reweigh current b) ≡ reweigh current b
reweigh_idempotent current b = elim (Option-cases (current_weight b.name none current)) [
  | inl e ↦ ground arith
  | inr (w, e) ↦ ground arith
]

map_idempotent :
    (current bs : List Backend)
    → map (reweigh current) (map (reweigh current) bs) ≡ map (reweigh current) bs
map_idempotent current [] = refl
map_idempotent current (b ∷ bs) = rw (reweigh_idempotent current b, map_idempotent current bs)

-- Preserving the weights of the current route twice is the same as once: a route that carries them is
-- left as it is.
pub preserve_weights_idempotent :
    (desired current : List (List Backend)) (once : List (List Backend))
    → preserve_route_weights desired current ≡ some once
    → preserve_route_weights once current ≡ some once
unfolding preserve_route_weights
preserve_weights_idempotent [] current once h = cc
preserve_weights_idempotent (backends ∷ rules) current [] h = cc
preserve_weights_idempotent (backends ∷ rules) current (r ∷ rs) h =
    let e : map (reweigh (first_backends current)) backends ≡ r = ground arith in
    ap (λ x. some (x ∷ rs))
      (ap (map (reweigh (first_backends current))) (sym e)
        ∙ map_idempotent (first_backends current) backends
        ∙ e)

-- An Application that Validate accepts is still accepted when it serves another version as a rolling
-- one, if that version is a well-formed tag other than "latest".
pub serving_valid :
    (fl : FloatOps) (q : QuantityOps) (app : Application) (version : Bytes)
    → validate fl q app ≡ none
    → tag_matches version ≡ true
    → equal_fold version (bytes "latest") ≡ false
    → validate fl q (serving_application_at_version app version) ≡ none
unfolding serving_application_at_version
serving_valid fl q app version h tag pinned =
    let v = (validate_iff fl q app).0 h in
    (validate_iff fl q (serving_application_at_version app version)).1 (record {
      owned = v.owned;
      repository = v.repository;
      tag = tag;
      pinned = pinned;
      port_low = v.port_low;
      port_high = v.port_high;
      min_low = v.min_low;
      min_max = v.min_max;
      max_high = v.max_high;
      request_cpu = v.request_cpu;
      request_memory = v.request_memory;
      limit_cpu = v.limit_cpu;
      limit_memory = v.limit_memory;
      cpu_fits = v.cpu_fits;
      memory_fits = v.memory_fits;
      available = v.available;
      error_rate = v.error_rate;
      latency = v.latency;
      deployment = record { fits = inl (refl, refl); few = omega arith; each = tt; ascending = tt };
    })
