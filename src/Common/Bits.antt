-- ===== src/Common/Bits.antt =====
-- Exclusive or, digit by digit: it can be undone.
use Prim.Native.Nat.{
  ℕ, zero, suc, ◌+◌, ◌*◌, ◌/◌, ◌%◌, ◌≤◌, bit_xor, digits, differ, bit_xor-bitwise,
}
use mathlib.Core.Path.{◌≡◌, refl}
use native.Mathlib.Omega.{arith}
use native.Mathlib.Nat.{le_refl}

pub xor_digits : ℕ → ℕ → ℕ → ℕ
xor_digits n a b = digits (λ d. d) differ n a b

-- The fuel does not matter, as long as it is enough.
xor_digits_fuel : (n m a b : ℕ) → a ≤ n → a ≤ m → xor_digits n a b ≡ xor_digits m a b
unfolding xor_digits
xor_digits_fuel zero zero a b p q = refl
xor_digits_fuel zero (suc m) zero b p q = refl
xor_digits_fuel zero (suc m) (suc a) b p q = absurd (omega arith)
xor_digits_fuel (suc n) zero zero b p q = refl
xor_digits_fuel (suc n) zero (suc a) b p q = absurd (omega arith)
xor_digits_fuel (suc n) (suc m) zero b p q = refl
xor_digits_fuel (suc n) (suc m) (suc a) b p q =
    rw (xor_digits_fuel n m (suc a / 2) (b / 2) (omega arith) (omega arith))

pub bit_xor-suc :
    (a b : ℕ) → bit_xor (suc a) b ≡ bit_xor (suc a / 2) (b / 2) * 2 + differ (suc a % 2) (b % 2)
unfolding xor_digits
bit_xor-suc a b =
    simp bit_xor-bitwise
      (omega (arith, xor_digits_fuel a (suc a / 2) (suc a / 2) (b / 2) (omega arith) (le_refl _)))

differ_bit : (d x : ℕ) → d ≤ 1 → x ≤ 1 → differ d x ≡ (d + x) % 2
differ_bit zero zero p q = refl
differ_bit zero (suc zero) p q = refl
differ_bit (suc zero) zero p q = refl
differ_bit (suc zero) (suc zero) p q = refl
differ_bit d (suc (suc x)) p q = absurd (omega arith)
differ_bit (suc (suc d)) x p q = absurd (omega arith)

-- What was combined with a number can be told from the result.
xor_cancel_fuel : (n a x y : ℕ) → a ≤ n → bit_xor a x ≡ bit_xor a y → x ≡ y
xor_cancel_fuel n zero x y le h = omega (arith, bit_xor-bitwise 0 x, bit_xor-bitwise 0 y)
xor_cancel_fuel zero (suc a) x y le h = absurd (omega arith)
xor_cancel_fuel (suc n) (suc a) x y le h =
    let step_x = bit_xor-suc a x in
    let step_y = bit_xor-suc a y in
    let bit_x = differ_bit (suc a % 2) (x % 2) (omega arith) (omega arith) in
    let bit_y = differ_bit (suc a % 2) (y % 2) (omega arith) (omega arith) in
    let rest =
      xor_cancel_fuel n (suc a / 2) (x / 2) (y / 2) (omega arith)
        (omega (arith, step_x, step_y, bit_x, bit_y)) in
    omega arith

pub xor_cancel : (a x y : ℕ) → bit_xor a x ≡ bit_xor a y → x ≡ y
xor_cancel a x y h = xor_cancel_fuel a a x y (le_refl a) h
