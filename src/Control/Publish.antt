-- ===== src/Control/Publish.antt =====
-- The patch of a status that the controllers share: nothing is written for a stale generation or an
-- unchanged status, and conflicts are tried again.
use steadystate.Prelude.{
  ℕ, ◌==◌, ◌≡◌, ◌∙◌, sym, ap, Bool, false, not, Option, none, some, Result, ok, err, Bool-cases,
  inl, inr, Option-cases, Result-cases, if◌then◌else◌, Bytes, arith,
}

-- The object as the fresh read finds it, and the answer to the patch.
pub record Latest (S : Type 0) : Type 0 where
  pub generation : ℕ
  pub status : S

pub record Attempt (S : Type 0) : Type 0 where
  pub current : Result Bytes (Latest S)
  pub patch : Option Bytes

-- The status that was written, if any, which is when `changed` is set, and the error.
pub record Patched (S : Type 0) : Type 0 where
  pub written : Option S
  pub error : Option Bytes

-- The library functions: apiequality.Semantic.DeepEqual on statuses, and retry.RetryOnConflict, which
-- returns what one of its attempts returned; and what a status keeps of the latest one.
pub record PublishOps (S : Type 0) : Type 0 where
  pub same : S → S → Bool
  pub retry : (ℕ → Patched S) → Patched S
  pub retry-attempt : (f : ℕ → Patched S) → (i : ℕ) × (retry f ≡ f i)

module _ {S : Type 0} (ops : PublishOps S) (keep : S → S → S) (observed : S → ℕ) where
  abbrev quiet : Patched S
  quiet = record { written = none; error = none }

  abbrev patched : S → Option Bytes → Patched S
  patched updated (some e) = record { written = none; error = some e }
  patched updated none = record { written = some updated; error = none }

  -- The function that RetryOnConflict calls.
  unfoldable pub attempt_with : S → Attempt S → Patched S
  attempt_with desired a = elim a.current [
    | err e ↦ record { written = none; error = some e }
    | ok latest ↦
        if not (latest.generation == observed desired)
        then quiet
        else if ops.same latest.status (keep latest.status desired)
        then quiet
        else patched (keep latest.status desired) a.patch
  ]

  unfoldable pub publish_with : (ℕ → Attempt S) → S → S → Patched S
  unfolding attempt_with
  publish_with attempts last desired =
      if ops.same last desired then quiet else ops.retry (λ i. attempt_with desired (attempts i))

  -- The status `s` was written for the generation that it has observed, over the latest status.
  pub record IsFresh (attempts : ℕ → Attempt S) (desired s : S) : Type 0 where
    pub round : ℕ
    pub latest : Latest S
    pub read : (attempts round).current ≡ ok latest
    pub current : latest.generation ≡ observed desired
    pub kept : s ≡ keep latest.status desired
    pub changed : ops.same latest.status s ≡ false

  attempt-IsFresh :
      (attempts : ℕ → Attempt S) (desired s : S) (i : ℕ)
      → (attempt_with desired (attempts i)).written ≡ some s
      → IsFresh attempts desired s
  unfolding attempt_with
  attempt-IsFresh attempts desired s i h = elim (Result-cases (attempts i).current) [
    | inr (e, f) ↦ absurd (ground arith)
    | inl (latest, f) ↦ elim (Bool-cases (latest.generation == observed desired)) [
      | inr g ↦ absurd (ground arith)
      | inl g ↦ elim (Bool-cases (ops.same latest.status (keep latest.status desired))) [
        | inl k ↦ absurd (ground arith)
        | inr k ↦ elim (Option-cases (attempts i).patch) [
          | inr (e, l) ↦ absurd (ground arith)
          | inl l ↦
              (let same : keep latest.status desired ≡ s = ground arith in
                record {
                  round = i;
                  latest = latest;
                  read = f;
                  current = ground arith;
                  kept = sym same;
                  changed = rw (sym same) k;
                })
        ]
      ]
    ]
  ]

  -- A status is only written over one that differs, of the generation that it has observed, and with
  -- what it keeps of that one.
  pub publish-IsFresh :
      (attempts : ℕ → Attempt S) (last desired s : S)
      → (publish_with attempts last desired).written ≡ some s
      → IsFresh attempts desired s
  unfolding publish_with
  publish-IsFresh attempts last desired s h = elim (Bool-cases (ops.same last desired)) [
    | inl e ↦ absurd (ground arith)
    | inr e ↦
        (let (i, f) = ops.retry-attempt (λ i. attempt_with desired (attempts i)) in
          attempt-IsFresh attempts desired s i (sym (ap (λ p. p.written) f) ∙ (rw e at h)))
  ]
