-- ===== src/Common/Results.antt =====
-- What a Rust function that returns `Result<A, E>` can do: return a value, return an error, or
-- panic (an `expect` on `None`).
use mathlib.Core.Option.{Option, none, some}

pub data Outcome {ℓ} (E : Type 0) (A : Type ℓ) : Type ℓ where
  ok : A → Outcome E A
  err : E → Outcome E A
  panic : Outcome E A

infixl 5 ◌>>=◌
abbrev pub ◌>>=◌ {ℓ κ} :
    {E : Type 0} {A : Type ℓ} {B : Type κ} → Outcome E A → (A → Outcome E B) → Outcome E B
ok a >>= f = f a
err e >>= f = err e
panic >>= f = panic

-- `Option::ok_or(e)?` and `Option::expect`.
abbrev pub ok_or {ℓ} : {E : Type 0} {A : Type ℓ} → Option A → E → Outcome E A
ok_or none e = err e
ok_or (some a) e = ok a

abbrev pub expect {ℓ} : {E : Type 0} {A : Type ℓ} → Option A → Outcome E A
expect none = panic
expect (some a) = ok a

-- Every value returned satisfies `P`, and there is no panic.
abbrev pub Safe {ℓ} : {E : Type 0} {A : Type ℓ} → (A → Type 0) → Outcome E A → Type 0
Safe P (ok a) = P a
Safe P (err e) = Unit
Safe P panic = ⊥

-- Every value returned satisfies `P`.
abbrev pub Returns {ℓ} : {E : Type 0} {A : Type ℓ} → (A → Type 0) → Outcome E A → Type 0
Returns P (ok a) = P a
Returns P (err e) = Unit
Returns P panic = Unit
