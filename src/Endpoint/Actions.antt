-- ===== src/Endpoint/Actions.antt =====
-- Methods of the reducer (src/endpoint.rs). What a method wrote before it failed stays written, so
-- that the state comes back beside an error too.
use cbcl_pairing.Common.{Option, none, some, Outcome, ok, err, panic}
use cbcl_pairing.Endpoint.{ReducerError}

abbrev pub Action : Type 0 → Type 0 → Type 0
Action R A = R → R × Outcome ReducerError A

module _ {R A B : Type 0} where
  abbrev pub continue : R × Outcome ReducerError A → (A → Action R B) → R × Outcome ReducerError B
  continue (s, ok a) f = f a s
  continue (s, err e) f = (s, err e)
  continue (s, panic) f = (s, panic)

  infixl 5 ◌>>=◌ ◌>>◌
  abbrev pub ◌>>=◌ : Action R A → (A → Action R B) → Action R B
  ◌>>=◌ m f s = continue (m s) f

  abbrev pub ◌>>◌ : Action R A → Action R B → Action R B
  m >> n = m >>= λ _. n

module _ {R A : Type 0} where
  abbrev pub pure : A → Action R A
  pure a s = (s, ok a)

  -- `return Err(..)` without a change, and `ok_or(..)?`.
  abbrev pub raise : ReducerError → Action R A
  raise e s = (s, err e)

  abbrev pub require : Option A → ReducerError → Action R A
  require none e s = (s, err e)
  require (some a) e s = (s, ok a)

  abbrev pub gets : (R → A) → Action R A
  gets f s = (s, ok (f s))

module _ {R : Type 0} where
  abbrev pub modify : (R → R) → Action R (Unit {0})
  modify f s = (f s, ok tt)
