-- ===== src/Common/Words.antt =====
-- Checked and saturating arithmetic on machine words.
use Prim.Native.Nat.{ℕ, ◌+◌, ◌-◌, ◌^◌, ◌≤◌, ◌<◌, min}
use mathlib.Core.Path.{◌≡◌}
use mathlib.Core.Option.{Option, none, some}
use native.Mathlib.Omega.{arith}
use cbcl_pairing.Common.Tests.{if◌then◌else◌, ltb, leb}

abbrev pub u8_mod : ℕ
u8_mod = 2 ^ 8

abbrev pub u64_mod : ℕ
u64_mod = 2 ^ 64

-- `u64::checked_add` and `checked_sub`: `none` where the result does not fit.
abbrev pub checked_add : ℕ → ℕ → Option ℕ
checked_add a b = if ltb (a + b) u64_mod then some (a + b) else none

abbrev pub checked_sub : ℕ → ℕ → Option ℕ
checked_sub a b = if leb b a then some (a - b) else none

-- `u64::saturating_add`; `saturating_sub` is the truncated `-` of ℕ.
abbrev pub saturating_add : ℕ → ℕ → ℕ
saturating_add a b = min (a + b) (u64_mod - 1)

pub checked_add-of_lt : (a b : ℕ) → a + b < u64_mod → checked_add a b ≡ some (a + b)
checked_add-of_lt a b h = ground arith

pub checked_sub-of_le : (a b : ℕ) → b ≤ a → checked_sub a b ≡ some (a - b)
checked_sub-of_le a b h = ground arith
