-- ===== src/Common/Order.antt =====
-- Total orders as an interface: the derived `Ord` and `Eq` of the program's keys. Numbers compare
-- by value, octet strings lexicographically, tuples field by field.
use Prim.Native.Nat.{ℕ, compare, Ordering}
use mathlib.Core.Path.{◌≡◌, refl}
use mathlib.Core.Logic.{◌↔◌}
use mathlib.Core.Bool.{Bool, true, false}
use mathlib.Core.List.{List, [], ◌∷◌}
use native.Mathlib.Omega.{arith}

-- `Ordering::then`
abbrev pub then_cmp : Ordering → Ordering → Ordering
then_cmp Ordering.lt o = Ordering.lt
then_cmp Ordering.eq o = o
then_cmp Ordering.gt o = Ordering.gt

abbrev pub is_equal : Ordering → Bool
is_equal Ordering.eq = true
is_equal _ = false

pub record Ordered {ℓ} (K : Type ℓ) : Type ℓ where
  pub cmp : K → K → Ordering
  pub cmp_same : (k : K) → cmp k k ≡ Ordering.eq
  pub same_of_cmp : (j k : K) → cmp j k ≡ Ordering.eq → j ≡ k

-- A byte string, `Vec<u8>`, `&[u8]` or `[u8; N]`: its octets in order.
abbrev pub Octets : Type 0
Octets = List ℕ

unfoldable pub octets_cmp : Octets → Octets → Ordering
octets_cmp [] [] = Ordering.eq
octets_cmp [] (y ∷ ys) = Ordering.lt
octets_cmp (x ∷ xs) [] = Ordering.gt
octets_cmp (x ∷ xs) (y ∷ ys) = then_cmp (compare x y) (octets_cmp xs ys)

pub octets_cmp_same : (a : Octets) → octets_cmp a a ≡ Ordering.eq
unfolding octets_cmp
octets_cmp_same [] = refl
octets_cmp_same (x ∷ xs) = ground (arith, octets_cmp_same xs)

pub same_of_octets_cmp : (a b : Octets) → octets_cmp a b ≡ Ordering.eq → a ≡ b
unfolding octets_cmp
same_of_octets_cmp [] [] h = refl
same_of_octets_cmp [] (y ∷ ys) h = ground arith
same_of_octets_cmp (x ∷ xs) [] h = ground arith
same_of_octets_cmp (x ∷ xs) (y ∷ ys) h = ground (arith, same_of_octets_cmp xs ys)

pub nat_cmp_same : (n : ℕ) → compare n n ≡ Ordering.eq
nat_cmp_same n = ground arith

pub same_of_nat_cmp : (m n : ℕ) → compare m n ≡ Ordering.eq → m ≡ n
same_of_nat_cmp m n h = ground arith

instance abbrev pub octets_ordered : Ordered Octets
octets_ordered = record {
  cmp = octets_cmp;
  cmp_same = octets_cmp_same;
  same_of_cmp = same_of_octets_cmp;
}

instance abbrev pub nat_ordered : Ordered ℕ
nat_ordered = record { cmp = compare; cmp_same = nat_cmp_same; same_of_cmp = same_of_nat_cmp }

module _ {ℓ} {K : Type ℓ} ⦃o : Ordered K⦄ where
  infix 50 ◌==◌
  abbrev pub ◌==◌ : K → K → Bool
  j == k = is_equal (o.cmp j k)

  pub ==-iff : (j k : K) → ((j == k) ≡ true) ↔ (j ≡ k)
  ==-iff j k = ground (arith, o.cmp_same j, o.same_of_cmp j k)

pub octets_beq_iff : (a b : Octets) → ((a == b) ≡ true) ↔ (a ≡ b)
octets_beq_iff a b = ==-iff a b

pub octets_beq_self : (a : Octets) → (a == a) ≡ true
octets_beq_self a = (octets_beq_iff a a).1 refl

-- Tuples, as `#[derive(Ord)]` and the tuple's own order have them.
module _ {ℓ κ} {A : Type ℓ} {B : Type κ} ⦃a : Ordered A⦄ ⦃b : Ordered B⦄ where
  abbrev pub pair_cmp : A × B → A × B → Ordering
  pair_cmp p q = then_cmp (a.cmp p.0 q.0) (b.cmp p.1 q.1)

  pub pair_cmp_same : (p : A × B) → pair_cmp p p ≡ Ordering.eq
  pair_cmp_same p = rw (a.cmp_same p.0) (b.cmp_same p.1)

  pub same_of_pair_cmp : (p q : A × B) → pair_cmp p q ≡ Ordering.eq → p ≡ q
  same_of_pair_cmp p q h = ground (arith, a.same_of_cmp p.0 q.0, b.same_of_cmp p.1 q.1)

  instance abbrev pub pair_ordered : Ordered (A × B)
  pair_ordered = record { cmp = pair_cmp; cmp_same = pair_cmp_same; same_of_cmp = same_of_pair_cmp }
