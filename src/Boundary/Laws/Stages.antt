-- ===== src/Boundary/Laws/Stages.antt =====
-- The stages of a Team's boundary: what stands before each write.
use steadystate.Prelude.{
  Bytes, Bool, true, false, ◌||◌, ◌≡◌, ◌⊎◌, refl, inl, inr, List, [], ◌∷◌, All, Bool-cases, ok,
  arith,
}
use steadystate.Control.{wrap}
use steadystate.Control.Rules.{Logs, Logs-pure, Logs-read, Logs-call, Logs-wrap, Logs-bind, wrap-ok}
use steadystate.Api.Team.{Team}
use steadystate.Reconcile.Cluster.{Answer, missing, failed, found}
use steadystate.Boundary.Server.{
  Object, namespace, resource_quota, limit_range, service_account, role_binding, network_policy,
  Effect, apply, Server, Library,
}
use steadystate.Boundary.Status.{
  Stage, namespace_stage, resource_policy_stage, rbac_stage, network_policy_stage, stages,
}
use steadystate.Boundary.Objects.{
  owned_by_team_uid, may_write, reconcile_managed_object, reconcile_each, objects, precondition,
  reconcile_stage, reconcile_stages, at,
}

abbrev pub stage_of : Object → Stage
stage_of namespace = namespace_stage
stage_of resource_quota = resource_policy_stage
stage_of limit_range = resource_policy_stage
stage_of service_account = rbac_stage
stage_of role_binding = rbac_stage
stage_of (network_policy p) = network_policy_stage

module _ (lib : Library) (server : Server) (team : Team) where
  -- The object is absent, or bears the UID of this very Team.
  abbrev pub IsOwn : Object → Type 0
  IsOwn o =
      (server.annotations o ≡ missing)
      ⊎ ((a : List (Bytes × Bytes)) × (server.annotations o ≡ found a)
          × (owned_by_team_uid a team ≡ true))

  -- The stages in front of that of the object have succeeded; for the ServiceAccount and the
  -- RoleBinding, so has the look at the installed ClusterRole.
  abbrev pub IsDone : Stage → Type 0
  IsDone stage = (b : Bool) × ((reconcile_stage lib server team stage).1 ≡ ok b)

  abbrev pub IsReached : Stage → Type 0
  IsReached namespace_stage = Unit
  IsReached resource_policy_stage = IsDone namespace_stage
  IsReached rbac_stage = IsDone namespace_stage × IsDone resource_policy_stage
  IsReached network_policy_stage =
      IsDone namespace_stage × IsDone resource_policy_stage × IsDone rbac_stage

  -- A write that is in order.
  pub record IsOrdered (o : Object) : Type 0 where
    pub own : IsOwn o
    pub reached : IsReached (stage_of o)
    pub checked : (b : Bool) × (precondition lib server team (stage_of o) ≡ ok b)

  abbrev pub IsOrderedCall : Effect → Type 0
  IsOrderedCall (apply o) = IsOrdered o
  IsOrderedCall _ = ⊥

  may_write-IsOwn :
      (o : Object) (answer : Answer (List (Bytes × Bytes))) (b : Bool)
      → server.annotations o ≡ answer
      → may_write lib server team o answer ≡ ok b
      → IsOwn o
  unfolding may_write
  may_write-IsOwn o missing b e h = inl e
  may_write-IsOwn o (failed m) b e h = cc
  may_write-IsOwn o (found a) b e h = elim (Bool-cases (owned_by_team_uid a team)) [
    | inl f ↦ inr (a, e, f)
    | inr f ↦ absurd (ground arith)
  ]

  object-Logs :
      (o : Object)
      → (IsOwn o → IsOrdered o)
      → Logs IsOrderedCall (reconcile_managed_object lib server team o)
  unfolding reconcile_managed_object
  object-Logs o h =
      Logs-bind _ _ (Logs-read _)
        (λ u e. Logs-wrap _ _ (Logs-call _ _ (h (may_write-IsOwn o _ u refl e))))

  each-Logs :
      (os : List Object) (m : Bool)
      → All (λ o. IsOwn o → IsOrdered o) os
      → Logs IsOrderedCall (reconcile_each lib server team os m)
  unfolding reconcile_each
  each-Logs [] m h = Logs-pure m
  each-Logs (o ∷ os) m (h, hs) = Logs-bind _ _ (object-Logs o h) (λ c e. each-Logs os (m || c) hs)

  ordered :
      (stage : Stage)
      → IsReached stage
      → ((b : Bool) × (precondition lib server team stage ≡ ok b))
      → All (λ o. IsOwn o → IsOrdered o) (objects lib server team stage)
  ordered namespace_stage r p = (λ own. record { own = own; reached = r; checked = p }, tt)
  ordered resource_policy_stage r p = (
    λ own. record { own = own; reached = r; checked = p },
    (λ own. record { own = own; reached = r; checked = p }, tt),
  )
  ordered rbac_stage r p = (
    λ own. record { own = own; reached = r; checked = p },
    (λ own. record { own = own; reached = r; checked = p }, tt),
  )
  ordered network_policy_stage r p = (
    λ own. record { own = own; reached = r; checked = p },
    (
      λ own. record { own = own; reached = r; checked = p },
      (
        λ own. record { own = own; reached = r; checked = p },
        (
          λ own. record { own = own; reached = r; checked = p },
          (λ own. record { own = own; reached = r; checked = p }, tt),
        ),
      ),
    ),
  )

  stage-Logs :
      (stage : Stage)
      → IsReached stage
      → Logs IsOrderedCall (wrap (at lib server team stage) (reconcile_stage lib server team stage))
  unfolding reconcile_stage
  stage-Logs stage r =
      Logs-wrap _ _
        (Logs-bind _ _ (Logs-read _) (λ u e. each-Logs _ false (ordered stage r (u, e))))

-- Reconcile writes an object of the boundary only where it is absent or bears the UID of this Team, and
-- only when all the stages in front of its own have succeeded; the ServiceAccount and the RoleBinding
-- only when the installed ClusterRole has the protected rules as well.
pub stages-Logs :
    (lib : Library) (server : Server) (team : Team) (mutated : Bool)
    → Logs (IsOrderedCall lib server team) (reconcile_stages lib server team stages mutated)
unfolding reconcile_stages
stages-Logs lib server team mutated =
    Logs-bind _ _ (stage-Logs lib server team namespace_stage tt) (λ a e.
      let first : IsDone lib server team namespace_stage = (a, wrap-ok _ _ a e) in
      Logs-bind _ _ (stage-Logs lib server team resource_policy_stage first) (λ b f.
        let second : IsDone lib server team resource_policy_stage = (b, wrap-ok _ _ b f) in
        Logs-bind _ _ (stage-Logs lib server team rbac_stage (first, second)) (λ c g.
          let third : IsDone lib server team rbac_stage = (c, wrap-ok _ _ c g) in
          Logs-bind _ _ (stage-Logs lib server team network_policy_stage (first, second, third))
            (λ d h. Logs-pure _))))
