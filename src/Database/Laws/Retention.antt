-- ===== src/Database/Laws/Retention.antt =====
-- The retention of backups.
use steadystate.Prelude.{ℕ, ◌≤◌, Bytes, true, ◌≡◌, refl, ap, ◌∙◌, ◌↔◌, [], ◌∷◌, ◌++◌, arith, All}
use steadystate.Database.Validation.{is_unit, digits_and_unit, retention_matches}

-- A positive decimal number with no leading zero, and one of the units d, w and m.
pub record IsRetention (s : Bytes) : Type 0 where
  pub first : ℕ
  pub digits : Bytes
  pub last : ℕ
  pub whole : s ≡ first ∷ (digits ++ last ∷ [])
  pub positive : (b'1' ≤ first) × (first ≤ b'9')
  pub decimal : All (λ c. (b'0' ≤ c) × (c ≤ b'9')) digits
  pub of_unit : is_unit last ≡ true

digits_sound :
    (s : Bytes)
    → digits_and_unit s ≡ true
    → (ds : Bytes) × (u : ℕ) × (s ≡ ds ++ u ∷ [])
      × All (λ c. (b'0' ≤ c) × (c ≤ b'9')) ds
      × (is_unit u ≡ true)
unfolding digits_and_unit
digits_sound [] h = cc
digits_sound (c ∷ []) h = ([], c, refl, tt, h)
digits_sound (c ∷ d ∷ s) h =
    let (ds, u, e, each, last) = digits_sound (d ∷ s) (ground arith) in
    (c ∷ ds, u, ap (λ t. c ∷ t) e, ((ground arith, ground arith), each), last)

digits_complete :
    (ds : Bytes) (u : ℕ)
    → All (λ c. (b'0' ≤ c) × (c ≤ b'9')) ds
    → is_unit u ≡ true
    → digits_and_unit (ds ++ u ∷ []) ≡ true
unfolding digits_and_unit
digits_complete [] u each last = last
digits_complete (c ∷ []) u each last = ground arith
digits_complete (c ∷ d ∷ ds) u (here, each) last =
    ground (arith, digits_complete (d ∷ ds) u each last)

retention_matches-IsRetention : (s : Bytes) → retention_matches s ≡ true → IsRetention s
unfolding retention_matches
retention_matches-IsRetention [] h = cc
retention_matches-IsRetention (c ∷ s) h =
    let (ds, u, e, each, last) = digits_sound s (ground arith) in
    record {
      first = c;
      digits = ds;
      last = u;
      whole = ap (λ t. c ∷ t) e;
      positive = (ground arith, ground arith);
      decimal = each;
      of_unit = last;
    }

retention_complete :
    (c : ℕ) (ds : Bytes) (u : ℕ)
    → (b'1' ≤ c) × (c ≤ b'9')
    → digits_and_unit (ds ++ u ∷ []) ≡ true
    → retention_matches (c ∷ (ds ++ u ∷ [])) ≡ true
unfolding retention_matches
retention_complete c ds u (lo, hi) h = ground arith

-- A retention is accepted exactly if it is a positive decimal number with no leading zero, and one of
-- the units d, w and m.
pub retention_matches_iff : (s : Bytes) → (retention_matches s ≡ true) ↔ IsRetention s
retention_matches_iff s = (
  retention_matches-IsRetention s,
  λ r.
      ap retention_matches r.whole
      ∙ retention_complete r.first r.digits r.last r.positive
          (digits_complete r.digits r.last r.decimal r.of_unit),
)
