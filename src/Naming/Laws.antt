-- ===== src/Naming/Laws.antt =====
-- The length and the shape of the generated names, and when two of them coincide.
use steadystate.Prelude.{
  ℕ, zero, suc, ◌+◌, ◌-◌, ◌*◌, ◌≤◌, ◌<◌, ◌≡◌, refl, ap, sym, inl, inr, Bytes, List, [], ◌∷◌, ◌++◌,
  leb, length, take, length-append, arith, Bool-cases,
}
use mathlib.Core.List.{append_assoc}
use steadystate.Naming.{Sha256, hex, digest8, suffixed_name_with_limit}

length-take {ℓ} : {A : Type ℓ} (n : ℕ) (xs : List A) → n ≤ length xs → length (take n xs) ≡ n
length-take zero xs h = refl
length-take (suc n) [] h = absurd (omega arith)
length-take (suc n) (x ∷ xs) h = ap suc (length-take n xs (omega arith))

length-hex : (s : Bytes) → length (hex s) ≡ 2 * length s
unfolding hex
length-hex [] = refl
length-hex (b ∷ s) = omega (arith, length-hex s)

module _ (sha : Sha256) where
  length-digest8 : (s : Bytes) → length (digest8 sha s) ≡ 8
  unfolding digest8
  length-digest8 s = length-take 8 _ (omega (arith, length-hex (sha.sum s), sha.length-sum s))

  -- A name that is too long is cut, never past its own end, to exactly the limit.
  length-cut :
      (name suffix : Bytes) (limit : ℕ)
      → length suffix + 9 ≤ limit
      → limit < length (name ++ suffix)
      → length (
          take (limit - length suffix - length (digest8 sha (name ++ suffix)) - 1) name
          ++ (b'-' ∷ (digest8 sha (name ++ suffix) ++ suffix)))
        ≡ limit
  length-cut name suffix limit room long =
      let d = length-digest8 (name ++ suffix) in
      omega (
        arith,
        d,
        length-append name suffix,
        length-append
            (take (limit - length suffix - length (digest8 sha (name ++ suffix)) - 1) name)
            (b'-' ∷ (digest8 sha (name ++ suffix) ++ suffix)),
        length-append (digest8 sha (name ++ suffix)) suffix,
        length-take (limit - length suffix - length (digest8 sha (name ++ suffix)) - 1) name
            (omega (arith, d, length-append name suffix)),
      )

  -- A generated name has at most `limit` bytes, where the suffix leaves room for nine: it is the name
  -- and the suffix if these fit, and has exactly `limit` bytes otherwise. It ends in the suffix.
  pub suffixed_name_bounds :
      (name suffix : Bytes) (limit : ℕ)
      → length suffix + 9 ≤ limit
      → (length (suffixed_name_with_limit sha name suffix limit) ≤ limit)
        × (length (name ++ suffix) ≤ limit
            → suffixed_name_with_limit sha name suffix limit ≡ name ++ suffix)
        × (limit < length (name ++ suffix)
            → length (suffixed_name_with_limit sha name suffix limit) ≡ limit)
        × ((head : Bytes) × (suffixed_name_with_limit sha name suffix limit ≡ head ++ suffix))
  unfolding suffixed_name_with_limit
  suffixed_name_bounds name suffix limit room =
      elim (Bool-cases (leb (length (name ++ suffix)) limit)) [
        | inl fits ↦
            rw fits (ground arith, (λ _. refl), (λ long. absurd (ground arith)), (name, refl))
        | inr long ↦
            let exact = length-cut name suffix limit room (ground arith) in
            let digest = digest8 sha (name ++ suffix) in
            let cut = take (limit - length suffix - length digest - 1) name in
            rw long (
              omega (arith, exact),
              (λ fits. absurd (ground arith)),
              (λ _. exact),
              (cut ++ (b'-' ∷ digest), sym (append_assoc cut (b'-' ∷ digest) suffix)),
            )
      ]
