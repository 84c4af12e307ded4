-- ===== src/Relay/Nameplates.antt =====
-- src/relay.rs: `first_available_nameplate`, and the keys of a map in their order.
use cbcl_pairing.Common.{
  ℕ, ◌+◌, ◌≤◌, ◌<◌, Ordering, compare, Ordered, nat_ordered, ==-iff, ◌≡◌, refl, sym, ◌∙◌,
  Bool-cases, inl, inr, List, [], ◌∷◌, Option, none, some, true, false, leb, if◌then◌else◌, is_some,
  lookup, has, set_insert, has-set_insert, arith,
}
use cbcl_pairing.Mailbox.{max_nameplate}
use cbcl_pairing.Relay.{RelayService}

module _ {ℓ κ} {K : Type ℓ} {V : Type κ} ⦃o : Ordered K⦄ where
  unfoldable pub sorted_keys : List (K × V) → List K
  sorted_keys [] = []
  sorted_keys ((k, v) ∷ rest) = set_insert k (sorted_keys rest)

  pub has-sorted_keys :
      (key : K) (m : List (K × V)) → has key (sorted_keys m) ≡ is_some (lookup key m)
  unfolding sorted_keys has lookup
  has-sorted_keys key [] = refl
  has-sorted_keys key ((k, v) ∷ rest) =
      ground (arith, has-set_insert key k (sorted_keys rest), has-sorted_keys key rest)

-- The loop over the nameplates in use. No nameplate is above nine digits, so that the candidate
-- stays within a `u32`.
unfoldable pub next_candidate : ℕ → List ℕ → ℕ
next_candidate candidate [] = candidate
next_candidate candidate (occupied ∷ rest) = elim (compare occupied candidate) [
  | Ordering.lt ↦ next_candidate candidate rest
  | Ordering.eq ↦ next_candidate (candidate + 1) rest
  | Ordering.gt ↦ candidate
]

unfoldable pub first_available_nameplate : {S : Type 0} → RelayService S → Option ℕ
unfolding next_candidate sorted_keys
first_available_nameplate s =
    let candidate = next_candidate 1 (sorted_keys s.nameplates) in
    if leb candidate max_nameplate then some candidate else none

-- No number of the list is below `t`.
abbrev NoneBelow : ℕ → List ℕ → Type 0
NoneBelow t [] = Unit
NoneBelow t (n ∷ ns) = (t ≤ n) × NoneBelow t ns

abbrev Rising : List ℕ → Type 0
Rising [] = Unit
Rising (n ∷ ns) = NoneBelow n ns × Rising ns

NoneBelow-le : (t u : ℕ) (ns : List ℕ) → t ≤ u → NoneBelow u ns → NoneBelow t ns
NoneBelow-le t u [] le h = tt
NoneBelow-le t u (n ∷ ns) le (here, h) = (omega (arith, le, here), NoneBelow-le t u ns le h)

set_insert-NoneBelow :
    (t n : ℕ) (ns : List ℕ) → t ≤ n → NoneBelow t ns → NoneBelow t (set_insert n ns)
unfolding set_insert
set_insert-NoneBelow t n [] le h = (le, tt)
set_insert-NoneBelow t n (m ∷ ns) le (here, h) = ground (arith, set_insert-NoneBelow t n ns le h)

set_insert-Rising : (n : ℕ) (ns : List ℕ) → Rising ns → Rising (set_insert n ns)
unfolding set_insert
set_insert-Rising n [] h = (tt, tt)
set_insert-Rising n (m ∷ ns) (here, h) =
    ground (arith, set_insert-Rising n ns h, set_insert-NoneBelow m n ns, NoneBelow-le n m ns)

sorted_keys-Rising {κ} : {V : Type κ} (m : List (ℕ × V)) → Rising (sorted_keys m)
unfolding sorted_keys
sorted_keys-Rising [] = tt
sorted_keys-Rising ((k, v) ∷ rest) =
    set_insert-Rising k (sorted_keys rest) (sorted_keys-Rising rest)

has-NoneBelow : (t n : ℕ) (ns : List ℕ) → NoneBelow t ns → has n ns ≡ true → t ≤ n
unfolding has
has-NoneBelow t n [] h found = ground arith
has-NoneBelow t n (m ∷ ns) (here, h) found = ground (arith, has-NoneBelow t n ns h, ==-iff n m)

next_candidate-le : (c : ℕ) (ns : List ℕ) → c ≤ next_candidate c ns
unfolding next_candidate
next_candidate-le c [] = omega arith
next_candidate-le c (n ∷ ns) = ground (arith, next_candidate-le c ns, next_candidate-le (c + 1) ns)

next_candidate-free : (c : ℕ) (ns : List ℕ) → Rising ns → has (next_candidate c ns) ns ≡ false
unfolding next_candidate has
next_candidate-free c [] h = refl
next_candidate-free c (n ∷ ns) (here, h) = ground (
  arith,
  next_candidate-free c ns h,
  next_candidate-free (c + 1) ns h,
  has-NoneBelow n c ns here,
  next_candidate-le c ns,
  next_candidate-le (c + 1) ns,
  ==-iff (next_candidate c ns) n,
  ==-iff (next_candidate (c + 1) ns) n,
  ==-iff c n,
)

next_candidate-used : (c k : ℕ) (ns : List ℕ) → c ≤ k → k < next_candidate c ns → has k ns ≡ true
unfolding next_candidate has
next_candidate-used c k [] a b = ground arith
next_candidate-used c k (n ∷ ns) a b =
    ground (arith, next_candidate-used c k ns, next_candidate-used (c + 1) k ns, ==-iff k n)

-- The smallest nameplate that is not in use.
abbrev pub IsFirstFree : {V : Type 0} → List (ℕ × V) → ℕ → Type 0
IsFirstFree plates n =
    (1 ≤ n)
    × (n ≤ max_nameplate)
    × (is_some (lookup n plates) ≡ false)
    × ((k : ℕ) → 1 ≤ k → k < n → is_some (lookup k plates) ≡ true)

-- The answer: the smallest free one, or none where all are in use.
abbrev pub IsFirstOrFull : {V : Type 0} → List (ℕ × V) → Option ℕ → Type 0
IsFirstOrFull plates (some n) = IsFirstFree plates n
IsFirstOrFull plates none = (k : ℕ) → 1 ≤ k → k ≤ max_nameplate → is_some (lookup k plates) ≡ true

-- The answer is the smallest number from 1 to 999,999,999 that is not in the index of nameplates,
-- and none only where all of them are.
pub first_available_nameplate_lem :
    {S : Type 0} (s : RelayService S) → IsFirstOrFull s.nameplates (first_available_nameplate s)
unfolding first_available_nameplate
first_available_nameplate_lem s =
    let keys = sorted_keys s.nameplates in
    let n = next_candidate 1 keys in
    let first : 1 ≤ n = next_candidate-le 1 keys in
    let free : is_some (lookup n s.nameplates) ≡ false =
      sym (has-sorted_keys n s.nameplates)
      ∙ next_candidate-free 1 keys (sorted_keys-Rising s.nameplates) in
    let used : (k : ℕ) → 1 ≤ k → k < n → is_some (lookup k s.nameplates) ≡ true =
      λ k a b. sym (has-sorted_keys k s.nameplates) ∙ next_candidate-used 1 k keys a b in
    elim (Bool-cases (leb n max_nameplate)) [
      | inl fits ↦ rw (fits, first_available_nameplate) (first, ground (arith, fits), free, used)
      | inr over ↦ rw (over, first_available_nameplate) (λ k a b. used k a (ground (arith, over)))
    ]
