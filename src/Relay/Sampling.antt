-- ===== src/Relay/Sampling.antt =====
-- src/relay.rs: `sample_nameplate`.
use cbcl_pairing.Common.{
  ℕ, ◌+◌, ◌*◌, ◌-◌, ◌%◌, ◌≤◌, ◌<◌, ◌≡◌, ◌⊎◌, ◌↔◌, refl, List, [], ◌∷◌, ◌++◌, map, Option, none,
  some, true, false, ltb, Outcome, ok, err, panic, arith,
}

-- `RANGE`, and `ACCEPTED`, which is `u32::MAX - (u32::MAX % RANGE)`.
abbrev pub range : ℕ
range = 1000000000

abbrev pub accepted : ℕ
accepted = 4294967295 - 4294967295 % range

-- Draws at or above `accepted`.
abbrev pub AllRejected : List ℕ → Type 0
AllRejected [] = Unit
AllRejected (d ∷ ds) = (accepted ≤ d) × AllRejected ds

module _ {E : Type 0} where
  -- The draws are what `next` returns, one after the other; `none` where the loop goes on after
  -- the last of them.
  unfoldable pub sample_nameplate : List (Outcome E ℕ) → Option (Outcome E ℕ)
  sample_nameplate [] = none
  sample_nameplate (ok candidate ∷ draws) = elim (ltb candidate accepted) [
    | true ↦ some (ok (candidate % range))
    | false ↦ sample_nameplate draws
  ]
  sample_nameplate (err e ∷ draws) = some (err e)
  sample_nameplate (panic ∷ draws) = some panic

  sample_nameplate-rejected :
      (rejected : List ℕ) (draws : List (Outcome E ℕ))
      → AllRejected rejected
      → sample_nameplate (map ok rejected ++ draws) ≡ sample_nameplate draws
  unfolding sample_nameplate
  sample_nameplate-rejected [] draws h = refl
  sample_nameplate-rejected (d ∷ ds) draws (high, h) =
      ground (arith, sample_nameplate-rejected ds draws h)

  pub sample_nameplate_lem :
      (rejected : List ℕ) (rest : List (Outcome E ℕ)) (c n : ℕ) (e : E)
      → AllRejected rejected
      → c < accepted
      → n < range
      → (sample_nameplate (map ok rejected ++ (ok c ∷ rest)) ≡ some (ok n)
          ↔ ((c ≡ n) ⊎ (c ≡ range + n) ⊎ (c ≡ 2 * range + n) ⊎ (c ≡ 3 * range + n)))
        × (sample_nameplate (map ok rejected ++ (err e ∷ rest)) ≡ some (err e))
  unfolding sample_nameplate
  sample_nameplate_lem rejected rest c n e h low small = (
    (
      λ same. ground (arith, sample_nameplate-rejected rejected (ok c ∷ rest) h),
      λ one. ground (arith, sample_nameplate-rejected rejected (ok c ∷ rest) h),
    ),
    ground (arith, sample_nameplate-rejected rejected (err e ∷ rest) h),
  )
