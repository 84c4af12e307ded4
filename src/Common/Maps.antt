-- ===== src/Common/Maps.antt =====
-- `BTreeMap` as an association list with distinct keys, and `BTreeSet` as an ascending list. The
-- order of a map's keys does not matter to the program, except where a comment says so.
use Prim.Native.Nat.{suc, ◌≤◌, Ordering}
use mathlib.Core.Path.{◌≡◌, refl}
use mathlib.Core.Bool.{Bool, true, false, ◌||◌, ◌&&◌, not}
use mathlib.Core.List.{List, [], ◌∷◌}
use mathlib.Core.Option.{Option, none, some}
use native.Mathlib.Omega.{arith}
use cbcl_pairing.Common.Tests.{if◌then◌else◌, is_some}
use cbcl_pairing.Common.Order.{Ordered, ◌==◌, ==-iff}
use cbcl_pairing.Common.Lists.{length}

module _ {ℓ κ} {K : Type ℓ} {V : Type κ} ⦃o : Ordered K⦄ where
  unfoldable pub lookup : K → List (K × V) → Option V
  lookup key [] = none
  lookup key ((k, v) ∷ rest) = if key == k then some v else lookup key rest

  -- `insert`, which replaces the value of a key that is there.
  unfoldable pub insert : K → V → List (K × V) → List (K × V)
  insert key new [] = (key, new) ∷ []
  insert key new ((k, v) ∷ rest) =
      if key == k then (k, new) ∷ rest else (k, v) ∷ insert key new rest

  unfoldable pub remove : K → List (K × V) → List (K × V)
  remove key [] = []
  remove key ((k, v) ∷ rest) = if key == k then remove key rest else (k, v) ∷ remove key rest

  pub lookup-insert :
      (j key : K) (new : V) (m : List (K × V))
      → lookup j (insert key new m) ≡ (if j == key then some new else lookup j m)
  unfolding lookup insert
  lookup-insert j key new [] = refl
  lookup-insert j key new ((k, v) ∷ rest) =
      ground (arith, ==-iff j key, ==-iff key k, ==-iff j k, lookup-insert j key new rest)

  pub lookup-remove :
      (j key : K) (m : List (K × V))
      → lookup j (remove key m) ≡ (if j == key then none else lookup j m)
  unfolding lookup remove
  lookup-remove j key [] = ground arith
  lookup-remove j key ((k, v) ∷ rest) =
      ground (arith, ==-iff j key, ==-iff key k, ==-iff j k, lookup-remove j key rest)

  pub length-insert :
      (key : K) (new : V) (m : List (K × V))
      → length (insert key new m) ≡ (if is_some (lookup key m) then length m else suc (length m))
  unfolding lookup insert
  length-insert key new [] = refl
  length-insert key new ((k, v) ∷ rest) = ground (arith, length-insert key new rest)

  pub length-remove-le : (key : K) (m : List (K × V)) → length (remove key m) ≤ length m
  unfolding remove
  length-remove-le key [] = omega arith
  length-remove-le key ((k, v) ∷ rest) = ground (arith, length-remove-le key rest)

  -- A key that is there makes room.
  pub length-remove-lt :
      (key : K) (m : List (K × V))
      → is_some (lookup key m) ≡ true
      → suc (length (remove key m)) ≤ length m
  unfolding lookup remove
  length-remove-lt key [] h = ground arith
  length-remove-lt key ((k, v) ∷ rest) h =
      ground (arith, length-remove-le key rest, length-remove-lt key rest)

module _ {ℓ} {K : Type ℓ} ⦃o : Ordered K⦄ where
  -- `contains`, `insert` and `remove` of a set in ascending order; `first` is the head.
  unfoldable pub has : K → List K → Bool
  has key [] = false
  has key (k ∷ rest) = key == k || has key rest

  unfoldable pub set_insert : K → List K → List K
  set_insert key [] = key ∷ []
  set_insert key (k ∷ rest) = elim (o.cmp key k) [
    | Ordering.lt ↦ key ∷ k ∷ rest
    | Ordering.eq ↦ k ∷ rest
    | Ordering.gt ↦ k ∷ set_insert key rest
  ]

  unfoldable pub set_remove : K → List K → List K
  set_remove key [] = []
  set_remove key (k ∷ rest) = if key == k then set_remove key rest else k ∷ set_remove key rest

  pub has-set_insert : (j key : K) (s : List K) → has j (set_insert key s) ≡ (j == key || has j s)
  unfolding has set_insert
  has-set_insert j key [] = refl
  has-set_insert j key (k ∷ rest) = ground (arith, o.same_of_cmp key k, has-set_insert j key rest)

  pub has-set_remove :
      (j key : K) (s : List K) → has j (set_remove key s) ≡ (not (j == key) && has j s)
  unfolding has set_remove
  has-set_remove j key [] = ground arith
  has-set_remove j key (k ∷ rest) =
      ground (arith, ==-iff j key, ==-iff key k, ==-iff j k, has-set_remove j key rest)
