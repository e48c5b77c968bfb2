-- ===== src/Postgres/Laws/Backups.antt =====
-- The last successful backup that the loop over the Backups finds.
use steadystate.Prelude.{
  ℕ, ◌≤◌, Bytes, bytes_eq, Bool, true, false, ◌&&◌, ◌≡◌, ◌⊎◌, refl, sym, ap, ◌∙◌, ok, inl, inr,
  Option, none, some, List, [], ◌∷◌, All, Any, ltb, if◌then◌else◌, Bool-cases, arith,
}
use mathlib.Core.Path.{subst}
use steadystate.Postgres.Server.{Backup, listed}
use steadystate.Postgres.Backups.{
  BackupState, backup_timestamp, is_completed, newer, observe, observe_all,
  observe_database_backups, no_backups,
}

-- The time `t` is not after the last successful backup.
abbrev pub Covers : Option ℕ → ℕ → Type 0
Covers none t = ⊥
Covers (some last) t = t ≤ last

-- A completed Backup of the cluster.
abbrev pub IsCompleted : Bytes → Backup → Type 0
IsCompleted cluster b = (bytes_eq b.cluster_name cluster ≡ true) × (is_completed b.phase ≡ true)

-- What a round makes of the last successful backup.
abbrev pub later : Bool → ℕ → Option ℕ → Option ℕ
later completed t o = if completed && newer t o then some t else o

later-Covers : (c : Bool) (t u : ℕ) (o : Option ℕ) → Covers o u → Covers (later c t o) u
later-Covers false t u o h = h
later-Covers true t u none h = absurd h
later-Covers true t u (some l) h = elim (Bool-cases (ltb l t)) [
  | inl e ↦ rw (e, Covers) (ground (arith, h))
  | inr e ↦ rw (e, Covers) h
]

completed-Covers : (t : ℕ) (o : Option ℕ) → Covers (later true t o) t
completed-Covers t none = omega arith
completed-Covers t (some l) = elim (Bool-cases (ltb l t)) [
  | inl e ↦ rw (e, Covers) (omega arith)
  | inr e ↦ rw (e, Covers) (ground arith)
]

later-found :
    (c : Bool) (t l : ℕ) (o : Option ℕ)
    → later c t o ≡ some l
    → (o ≡ some l) ⊎ ((c ≡ true) × (t ≡ l))
later-found false t l o h = inl h
later-found true t l none h = inr (refl, ground arith)
later-found true t l (some k) h = elim (Bool-cases (ltb k t)) [
  | inl e ↦ inr (refl, ground arith)
  | inr e ↦ inl (ground arith)
]

module _ (parse : Bytes → Option ℕ) (cluster : Bytes) where
  unfoldable pub last_of : ℕ × BackupState → List Backup → Option ℕ
  last_of acc bs = (observe_all parse cluster acc bs).1.last_successful

  abbrev round : ℕ × BackupState → Backup → ℕ × BackupState
  round acc b = observe (backup_timestamp parse b) b.phase acc

  last-own :
      (acc : ℕ × BackupState) (b : Backup) (bs : List Backup)
      → bytes_eq b.cluster_name cluster ≡ true
      → last_of acc (b ∷ bs) ≡ last_of (round acc b) bs
  unfolding last_of observe_all
  last-own acc b bs e = rw (last_of, e) refl

  last-other :
      (acc : ℕ × BackupState) (b : Backup) (bs : List Backup)
      → bytes_eq b.cluster_name cluster ≡ false
      → last_of acc (b ∷ bs) ≡ last_of acc bs
  unfolding last_of observe_all
  last-other acc b bs e = rw (last_of, e) refl

  -- The search never goes back.
  last-Covers :
      (acc : ℕ × BackupState) (bs : List Backup) (u : ℕ)
      → Covers acc.1.last_successful u
      → Covers (last_of acc bs) u
  unfolding last_of observe_all observe
  last-Covers acc [] u h = h
  last-Covers acc (b ∷ bs) u h = elim (Bool-cases (bytes_eq b.cluster_name cluster)) [
    | inl e ↦
        rw (last-own acc b bs e, Covers)
          (last-Covers (round acc b) bs u (
            later-Covers (is_completed b.phase) (backup_timestamp parse b) u acc.1.last_successful
              h))
    | inr e ↦ rw (last-other acc b bs e, Covers) (last-Covers acc bs u h)
  ]

  -- A completed Backup at the head is not after what the loop finds.
  head-Covers :
      (acc : ℕ × BackupState) (b : Backup) (bs : List Backup)
      → is_completed b.phase ≡ true
      → Covers (last_of (round acc b) bs) (backup_timestamp parse b)
  unfolding observe
  head-Covers acc b bs c =
      last-Covers (round acc b) bs _
        (rw c (completed-Covers (backup_timestamp parse b) acc.1.last_successful))

  move :
      (o o' : Option ℕ) (bs : List Backup)
      → o ≡ o'
      → All (λ b. IsCompleted cluster b → Covers o' (backup_timestamp parse b)) bs
      → All (λ b. IsCompleted cluster b → Covers o (backup_timestamp parse b)) bs
  move o o' bs e h =
      subst (λ x. All (λ b. IsCompleted cluster b → Covers x (backup_timestamp parse b)) bs) (sym e)
        h

  all-Covers :
      (acc : ℕ × BackupState) (bs : List Backup)
      → All (λ b. IsCompleted cluster b → Covers (last_of acc bs) (backup_timestamp parse b)) bs
  all-Covers acc [] = tt
  all-Covers acc (b ∷ bs) = elim (Bool-cases (bytes_eq b.cluster_name cluster)) [
    | inl e ↦ (
      λ h. rw (last-own acc b bs e) (head-Covers acc b bs h.1),
      move _ _ bs (last-own acc b bs e) (all-Covers (round acc b) bs),
    )
    | inr e ↦
        (λ h. absurd (ground (arith, h.0)), move _ _ bs (last-other acc b bs e) (all-Covers acc bs))
  ]

  last-found :
      (acc : ℕ × BackupState) (bs : List Backup) (l : ℕ)
      → last_of acc bs ≡ some l
      → (acc.1.last_successful ≡ some l)
        ⊎ Any (λ b. IsCompleted cluster b × (backup_timestamp parse b ≡ l)) bs
  unfolding last_of observe_all observe
  last-found acc [] l h = inl h
  last-found acc (b ∷ bs) l h = elim (Bool-cases (bytes_eq b.cluster_name cluster)) [
    | inr e ↦ elim (last-found acc bs l (sym (last-other acc b bs e) ∙ h)) [
      | inl f ↦ inl f
      | inr f ↦ inr (inr f)
    ]
    | inl e ↦ elim (last-found (round acc b) bs l (sym (last-own acc b bs e) ∙ h)) [
      | inr f ↦ inr (inr f)
      | inl f ↦
          elim (later-found (is_completed b.phase) (backup_timestamp parse b) l
            acc.1.last_successful f) [ inl g ↦ inl g | inr (c, g) ↦ inr (inl ((e, c), g)) ]
    ]
  ]

-- What observeDatabaseBackups reports as the last successful backup is the time of a completed Backup of
-- the cluster, and no completed Backup of the cluster is later; it reports none only where there is none.
pub last_successful-latest :
    (parse : Bytes → Option ℕ) (cluster : Bytes) (bs : List Backup) (state : BackupState)
    → observe_database_backups parse cluster (listed bs) ≡ ok state
    → All (λ b. IsCompleted cluster b → Covers state.last_successful (backup_timestamp parse b)) bs
      × ((l : ℕ)
          → state.last_successful ≡ some l
          → Any (λ b. IsCompleted cluster b × (backup_timestamp parse b ≡ l)) bs)
unfolding observe_database_backups last_of
last_successful-latest parse cluster bs state h =
    let same : (observe_all parse cluster (0, no_backups) bs).1 ≡ state = cc in
    let found = ap (λ s. s.last_successful) same in
    (
      move parse cluster _ _ bs (sym found) (all-Covers parse cluster (0, no_backups) bs),
      λ l e. elim (last-found parse cluster (0, no_backups) bs l (found ∙ e)) [
        | inl f ↦ absurd (ground arith)
        | inr f ↦ f
      ],
    )
