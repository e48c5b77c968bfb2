-- ===== src/Postgres/Laws/Statuses.antt =====
-- When a Database is called Ready.
use steadystate.Prelude.{
  ℕ, String, bytes, bytes_eq, Bool, true, false, not, ◌&&◌, ◌||◌, ◌≡◌, refl, ap, ◌∙◌, inl, inr,
  Option, some, List, str_eq, is_some, if◌then◌else◌, Bool-cases, Option-cases,
}
use steadystate.Api.Conditions.{ConditionStatus, is_true, is_false, Condition, Message}
use steadystate.Status.Laws.Consistent.{view_of}
use steadystate.Postgres.Server.{Phase, DatabaseStatus, ManagedDatabase, ClusterCondition, Library}
use steadystate.Postgres.Backups.{BackupState}
use steadystate.Postgres.Status.{
  set_database_condition, finish_status, backup_switch, cluster_ready, database_status_from_cluster,
}

-- The status and the generation of a condition.
unfoldable pub condition_of : Library → DatabaseStatus → String → Option (ConditionStatus × ℕ)
condition_of lib s kind = view_of (lib.conditions.find s.conditions kind)

abbrev pub seen : ConditionStatus → ℕ → Option (ConditionStatus × ℕ)
seen status g = some (status, g)

view-if :
    (b : Bool) (c : Condition) (o : Option Condition)
    → view_of (if b then some c else o)
      ≡ (if b then some (c.status, c.observed_generation) else view_of o)
view-if true c o = refl
view-if false c o = refl

-- What the data of a Database allows: the Cluster is ready, and backups are disabled or the latest did
-- not fail and one was successful.
abbrev pub serves : Library → ManagedDatabase → List ClusterCondition → BackupState → Bool
serves lib db conditions state =
    cluster_ready lib conditions
    && (not db.spec.backups.enabled
        || (not (bytes_eq state.latest_phase (bytes "failed")) && is_some state.last_successful))

abbrev pub ready_status : Bool → ConditionStatus
ready_status true = is_true
ready_status false = is_false

module _ (lib : Library) where
  condition-set :
      (s : DatabaseStatus) (g : ℕ) (kind : String) (status : ConditionStatus) (reason : String)
      (m : Message) (t : String)
      → condition_of lib (set_database_condition lib s g kind status reason m) t
        ≡ (if str_eq t kind then some (status, g) else condition_of lib s t)
  unfolding set_database_condition condition_of
  condition-set s g kind status reason m t =
      ap view_of (lib.conditions.find-set s.conditions _ t) ∙ view-if (str_eq t kind) _ _

  ready-set :
      (s : DatabaseStatus) (g : ℕ) (status : ConditionStatus) (reason : String) (m : Message)
      → condition_of lib (set_database_condition lib s g "Ready" status reason m) "Ready"
        ≡ seen status g
  ready-set s g status reason m = condition-set s g "Ready" status reason m "Ready"

  ready-kept :
      (s : DatabaseStatus) (g : ℕ) (status : ConditionStatus) (reason : String) (m : Message)
      → condition_of lib
          (set_database_condition lib s g "ConfigurationReady" status reason m)
          "Ready"
        ≡ condition_of lib s "Ready"
  ready-kept s g status reason m = condition-set s g "ConfigurationReady" status reason m "Ready"

  ready-finish :
      (s : DatabaseStatus) (g : ℕ) (p : Phase) (backup : ConditionStatus) (r : String) (m : Message)
      (ready : ConditionStatus) (r' : String) (m' : Message)
      → condition_of lib (finish_status lib s g p backup r m ready r' m') "Ready" ≡ seen ready g
  unfolding finish_status
  ready-finish s g p backup r m ready r' m' = ready-set _ g ready r' m'

  ready-switch :
      (s : DatabaseStatus) (db : ManagedDatabase) (state : BackupState)
      → condition_of lib (backup_switch lib s db state) "Ready"
        ≡ seen
            (ready_status (
              not db.spec.backups.enabled
              || (not (bytes_eq state.latest_phase (bytes "failed"))
                  && is_some state.last_successful)))
            db.generation
  unfolding backup_switch
  ready-switch s db state = elim (Bool-cases db.spec.backups.enabled) [
    | inr e ↦ rw e (ready-finish _ _ _ _ _ _ _ _ _)
    | inl e ↦ elim (Bool-cases (bytes_eq state.latest_phase (bytes "failed"))) [
      | inl f ↦ rw (e, f) (ready-finish _ _ _ _ _ _ _ _ _)
      | inr f ↦ elim (Option-cases state.last_successful) [
        | inl g ↦ rw (e, f, g) (ready-finish _ _ _ _ _ _ _ _ _)
        | inr (t, g) ↦
            elim (Bool-cases (
              bytes_eq state.latest_phase (bytes "pending")
              || bytes_eq state.latest_phase (bytes "running"))) [
                | inl k ↦ rw (e, f, g, k) (ready-finish _ _ _ _ _ _ _ _ _)
                | inr k ↦ rw (e, f, g, k) (ready-finish _ _ _ _ _ _ _ _ _)
              ]
      ]
    ]
  ]

-- databaseStatusFromCluster calls a Database Ready exactly when its Cluster is ready and, where backups are enabled, the
-- latest backup did not fail and one was successful; the condition is True or False, never Unknown, and of
-- the Database's generation.
pub ready_exactly :
    (lib : Library) (db : ManagedDatabase) (conditions : List ClusterCondition)
    (state : BackupState)
    → condition_of lib (database_status_from_cluster lib db conditions state) "Ready"
      ≡ seen (ready_status (serves lib db conditions state)) db.generation
unfolding database_status_from_cluster
ready_exactly lib db conditions state =
    ready-kept lib _ _ _ _ _ ∙ elim (Bool-cases (cluster_ready lib conditions)) [
      | inl e ↦ rw e (ready-switch lib _ db state)
      | inr e ↦ rw e (ready-finish lib _ _ _ _ _ _ _ _ _)
    ]
