-- ===== src/Progressive/Laws/Migration.antt =====
-- What the state that the reconciliation of the children returns says of a migration.
use steadystate.Prelude.{
  String, Bool, true, false, not, ◌&&◌, ◌≡◌, ◌↔◌, ◌⊎◌, refl, ap, inl, inr, [], is_some, str_eq, ◌∙◌,
  ok, Bool-cases, arith,
}
use steadystate.Control.Rules.{Returns, Returns-pure, Returns-bind, Returns-if}
use steadystate.Api.Application.{Application, is_canary}
use steadystate.Status.Observe.{Route, Rollout, route_uses_base_service, is_empty_text}
use steadystate.Status.Canary.{RuntimeState}
use steadystate.Reconcile.Cluster.{Library}
use steadystate.Progressive.Drain.{Clock}
use steadystate.Progressive.Server.{Applied, Server}
use steadystate.Progressive.Rolling.{
  clean_up, cut_over, take_over, route_accepted, reconcile_rolling_children,
}
use steadystate.Progressive.Canary.{
  uses_canary, canary_accepted, switches, switch_route, unaccepted, or_cutover, migration,
  reconcile_canary_children,
}
use steadystate.Progressive.Laws.{empty_text_iff}
use steadystate.Progressive.Runtime.{reconcile_runtime_children}

-- A migration has a message.
abbrev pub IsExplained : RuntimeState → Type 0
IsExplained s = s.migrating ≡ true → str_eq s.migration_detail "" ≡ false

module _ (lib : Library) (server : Server) (app : Application) where
  or_cutover-explained :
      (m : Bool) (d : String) → m ≡ true → str_eq (or_cutover lib server app m d) "" ≡ false
  or_cutover-explained false d h = cc
  or_cutover-explained true d h = elim (Bool-cases (str_eq d "")) [
    | inl e ↦ rw e refl
    | inr e ↦ rw (e, e) refl
  ]

  migration-IsExplained :
      (route : Route) (held : Bool)
      → (migration lib server app route held).0 ≡ true
      → str_eq (migration lib server app route held).1 "" ≡ false
  unfolding migration
  migration-IsExplained route held h = or_cutover-explained _ _ h

  canary-IsExplained : Returns IsExplained (reconcile_canary_children lib server app)
  unfolding reconcile_canary_children
  canary-IsExplained = Returns-bind _ _ (λ a e. Returns-bind _ _ (λ b f. Returns-bind _ _ (λ c g.
      Returns-bind _ _ (λ d h. Returns-bind _ _ (λ r i. Returns-bind _ _ (λ route j.
        Returns-bind _ _ (λ failure k. Returns-pure _ (migration-IsExplained route.object _))))))))

-- A canary always has a Rollout in its state, the empty one where none exists, and migrates until its
-- HTTPRoute has the two backends and, where a version was promoted, is accepted.
abbrev pub IsSettled : Library → Server → Application → RuntimeState → Type 0
IsSettled lib server app s =
    (is_some s.rollout ≡ true)
    × ((s.migrating ≡ false) ↔ (
        (uses_canary lib server app s.route ≡ true)
        × ((app.status.active_version ≡ []) ⊎ (canary_accepted lib server app s.route ≡ true))))

module _ (lib : Library) (server : Server) (app : Application) where
  held_route :
      (switch : Bool) (current : Route) (route : Applied Route)
      → (switch_route lib server app switch current).1 ≡ ok route
      → switch ≡ false
      → route.object ≡ current
  unfolding switch_route
  held_route true current route h e = cc
  held_route false current route h e = ground arith

  held-uses_canary :
      (current : Route × Bool) (r : Rollout)
      → switches lib server app current r ≡ false
      → uses_canary lib server app current.0 ≡ false
  unfolding switches
  held-uses_canary (route, there) r h = ground arith

  accepted_iff :
      (route : Route)
      → (unaccepted lib server app route ≡ false)
        ↔ ((app.status.active_version ≡ []) ⊎ (canary_accepted lib server app route ≡ true))
  unfolding unaccepted
  accepted_iff route = elim (Bool-cases (is_empty_text app.status.active_version)) [
    | inl e ↦ (λ h. inl ((empty_text_iff _).0 e), λ h. ground arith)
    | inr e ↦ (
      λ h. inr (ground arith),
      λ h. elim h [
        | inl f ↦ absurd (ground (arith, (empty_text_iff app.status.active_version).1 f))
        | inr f ↦ ground arith
      ],
    )
  ]

  migration_iff :
      (route : Route) (held : Bool)
      → (held ≡ true → uses_canary lib server app route ≡ false)
      → ((migration lib server app route held).0 ≡ false)
        ↔ ((uses_canary lib server app route ≡ true) × (unaccepted lib server app route ≡ false))
  unfolding migration
  migration_iff route true h = let no = h refl in rw no (ground arith)
  migration_iff route false h = ground arith

  settled :
      (first : Route × Bool) (second : Rollout) (route : Applied Route)
      → (switch_route lib server app (switches lib server app first second) first.0).1 ≡ ok route
      → ((migration lib server app route.object (not (switches lib server app first second))).0
          ≡ false)
        ↔ ((uses_canary lib server app route.object ≡ true)
            × ((app.status.active_version ≡ [])
                ⊎ (canary_accepted lib server app route.object ≡ true)))
  settled first second route h =
      let (f, g) = migration_iff route.object (not (switches lib server app first second)) (λ held.
        let stays : switches lib server app first second ≡ false = ground arith in
        ap (uses_canary lib server app) (held_route _ first.0 route h stays)
        ∙ held-uses_canary first second stays) in
      let (a, b) = accepted_iff route.object in
      (λ e. let (u, v) = f e in (u, a v), λ e. g (e.0, b e.1))

  -- Where the reconciliation of a canary succeeds, its state has a Rollout, the empty one if none exists,
  -- and it is migrating exactly until its HTTPRoute has the stable and the canary backend and, where a
  -- version was promoted before, is accepted.
  pub canary-IsSettled :
      Returns (IsSettled lib server app) (reconcile_canary_children lib server app)
  unfolding reconcile_canary_children
  canary-IsSettled = Returns-bind _ _ (λ first e. Returns-bind _ _ (λ current f.
      Returns-bind _ _ (λ d g. Returns-bind _ _ (λ progressive h. Returns-bind _ _ (λ second i.
        Returns-bind _ _ (λ route j.
          Returns-bind _ _
            (λ failure k. Returns-pure _ (refl, settled current second.0 route j))))))))

module _ (lib : Library) (clock : Clock) (server : Server) (app : Application) where
  clean_up-IsExplained :
      (state : RuntimeState) (r : Rollout)
      → Returns IsExplained (clean_up lib clock server app state r)
  unfolding clean_up
  clean_up-IsExplained state r = Returns-bind _ _ (λ w e.
      Returns-if w.drained _ _ (λ f. Returns-bind _ _ (λ changed g. Returns-pure _ (λ h. cc)))
        (λ f. Returns-pure _ (λ h. refl)))

  cut_over-IsExplained :
      (state : RuntimeState) (r : Rollout)
      → Returns IsExplained (cut_over lib clock server app state r)
  unfolding cut_over
  cut_over-IsExplained state r = Returns-bind _ _ (λ w e.
      Returns-if w.drained _ _ (λ f. Returns-bind _ _ (λ changed g. clean_up-IsExplained _ r))
        (λ f. Returns-pure _ (λ h. refl)))

  take_over-IsExplained :
      (state : RuntimeState) (r : Rollout) (exists ready : Bool)
      → IsExplained state
      → Returns IsExplained (take_over lib clock server app state r exists ready)
  unfolding take_over
  take_over-IsExplained state r exists ready h =
      Returns-if ((exists && ready) && route_uses_base_service state.route app.name) _ _
        (λ e.
          Returns-if (route_accepted lib clock server app state.route) _ _
            (λ f. cut_over-IsExplained state r) (λ f. Returns-pure _ h))
        (λ e. Returns-pure _ h)

  rolling-IsExplained : Returns IsExplained (reconcile_rolling_children lib clock server app)
  unfolding reconcile_rolling_children
  rolling-IsExplained = Returns-bind _ _ (λ r e. Returns-bind _ _ (λ frozen f.
      Returns-bind _ _ (λ d g. Returns-bind _ _ (λ current h.
        Returns-bind _ _ (λ route i. take_over-IsExplained _ r.0 r.1 _ (λ m. rw m refl))))))

  -- Where the reconciliation of the children succeeds, rolling or canary, a state that is migrating has a
  -- message that is not empty.
  pub runtime-IsExplained : Returns IsExplained (reconcile_runtime_children lib clock server app)
  unfolding reconcile_runtime_children
  runtime-IsExplained = Returns-bind _ _ (λ state e. Returns-bind _ _ (λ changed f. Returns-pure _ (
      (Returns-if (is_canary app.spec.deployment.strategy) _ _
          (λ c. canary-IsExplained lib server app) (λ c. rolling-IsExplained)).value
        state e)))
