-- ===== src/Limiter/History.antt =====
-- src/limiter.rs: the limiters that a program can produce, by the number of checks so far.
use cbcl_pairing.Common.{
  ℕ, ◌≡◌, ◌≤◌, ◌<◌, ◌+◌, suc, Octets, octets_ordered, nat_ordered, pair_ordered, false, leb, lookup,
  has, length, is_empty, any, Option-cases, Bool-cases, arith, inl, inr, u64_mod, refl, ok, subst,
}
use cbcl_pairing.Limiter.{Dimension, Operation, operation_ordered, LimiterConfig, Limiter}
use cbcl_pairing.Limiter.Peers.{PeerEnv, peer_key}
use cbcl_pairing.Limiter.Check.{
  new, fresh_limiter, is_unusable, operations, zero_policy, sweep_inner, evict_first, check_known,
  check_new, stale, prune_all, check_dimension, check, sweep, sweep_if_due, observe_time, effective,
  due, retry, admit, forget, keep_swept,
}
use cbcl_pairing.Limiter.Bounded.{IsBounded}
use cbcl_pairing.Limiter.Keeping.{sweep_inner-IsBounded, take_recency-fits, evict_first-keeps}
use cbcl_pairing.Limiter.Reach.{
  check-IsBounded, observe_time-IsBounded, drop_all-next, keep_swept-next,
}

pub sweep-IsBounded : (l : Limiter) (now : ℕ) → IsBounded l → IsBounded (sweep l now).0
unfolding sweep
sweep-IsBounded l now b =
    let swept =
      sweep_inner-IsBounded (observe_time l now) (effective l.last_now now)
        (observe_time-IsBounded l now b) in
    record {
      usable = swept.usable;
      indexed = swept.indexed;
      distinct = swept.distinct;
      within = swept.within;
      capped = swept.capped;
    }

pub sweep_if_due-IsBounded :
    (l : Limiter) (now : ℕ) → IsBounded l → IsBounded (sweep_if_due l now).0
unfolding sweep_if_due
sweep_if_due-IsBounded l now b =
    elim (Bool-cases
      (due l.last_sweep (effective l.last_now now) l.config.sweep_interval_seconds)) [
        | inl h ↦ rw h (sweep-IsBounded l now b)
        | inr h ↦ rw h (observe_time-IsBounded l now b)
      ]

-- A check takes at most one recency.
pub check_dimension-next :
    (l : Limiter) (d : Dimension) (now : ℕ)
    → l.next_recency + 1 < u64_mod
    → (check_dimension l d now).0.next_recency ≡ l.next_recency + 1
unfolding check_dimension check_new check_known retry admit
check_dimension-next l d now word = elim (Option-cases (lookup d l.entries)) [
  | inr (e, known) ↦ rw (known, check_dimension) (rw (take_recency-fits (forget l d e) word) refl)
  | inl new ↦ elim (Bool-cases (leb l.config.entry_cap (length l.entries))) [
    | inl full ↦
        let (absent, config, next) = evict_first-keeps l l.recency d new in
        rw (new, check_dimension)
          (rw (full, take_recency-fits (evict_first l l.recency) (ground arith)) (ground arith))
    | inr space ↦ rw (new, check_dimension) (rw (space, take_recency-fits l word) refl)
  ]
]

pub check-next :
    (env : PeerEnv) (l : Limiter) (o : Operation) (address : Octets) (now : ℕ)
    → l.next_recency + 1 < u64_mod
    → (check env l o address now).0.next_recency ≤ l.next_recency + 1
unfolding check observe_time
check-next env l o address now word = elim (Bool-cases (is_empty address)) [
  | inl h ↦ rw h (omega arith)
  | inr h ↦
      let time = effective l.last_now now in
      let seen = observe_time l now in
      let before = keep_swept-next seen time in
      let after =
        check_dimension-next (keep_swept seen time) (o, peer_key env l.operator_key address) time
          (rw before word) in
      rw h (ground arith)
]

pub sweep-next : (l : Limiter) (now : ℕ) → (sweep l now).0.next_recency ≡ l.next_recency
unfolding sweep sweep_inner observe_time
sweep-next l now =
    drop_all-next
      (record (observe_time l now) {
        entries = prune_all l.config (effective l.last_now now) l.entries;
      })
      (stale l.config (effective l.last_now now) l.entries)

pub sweep_if_due-next :
    (l : Limiter) (now : ℕ) → (sweep_if_due l now).0.next_recency ≡ l.next_recency
unfolding sweep_if_due observe_time
sweep_if_due-next l now =
    elim (Bool-cases
      (due l.last_sweep (effective l.last_now now) l.config.sweep_interval_seconds)) [
        | inl h ↦ rw h (sweep-next l now)
        | inr h ↦ rw h refl
      ]

pub usable_policy :
    (config : LimiterConfig) (o : Operation)
    → any (λ p. zero_policy (config.policies p)) operations ≡ false
    → 1 ≤ (config.policies o).limit
usable_policy config Operation.bind h = ground arith
usable_policy config Operation.allocate h = ground arith
usable_policy config Operation.claim h = ground arith
usable_policy config Operation.open_member h = ground arith
usable_policy config Operation.put h = ground arith
usable_policy config Operation.ack h = ground arith
usable_policy config Operation.close h = ground arith
usable_policy config Operation.ping h = ground arith

-- `new`, then any checks and sweeps, whatever they answer: the limiters, with the number of checks.
pub data Reachable (env : PeerEnv) : ℕ → Limiter → Type 0 where
  started :
      {l : Limiter} (key : Octets) (config : LimiterConfig)
      → new key config ≡ ok l
      → Reachable env 0 l
  checked :
      {n : ℕ} {l : Limiter} (o : Operation) (address : Octets) (now : ℕ)
      → Reachable env n l
      → Reachable env (suc n) (check env l o address now).0
  swept : {n : ℕ} {l : Limiter} (now : ℕ) → Reachable env n l → Reachable env n (sweep l now).0
  swept_if_due :
      {n : ℕ} {l : Limiter} (now : ℕ) → Reachable env n l → Reachable env n (sweep_if_due l now).0

pub fresh_limiter-IsBounded :
    (key : Octets) (config : LimiterConfig)
    → is_unusable config ≡ false
    → IsBounded (fresh_limiter key config)
unfolding lookup has
fresh_limiter-IsBounded key config h = record {
  usable = record {
    some_room = ground arith;
    some_attempt = λ o. usable_policy config o (ground arith);
  };
  indexed = λ r k. refl;
  distinct = tt;
  within = λ d e h₂. ground arith;
  capped = omega arith;
}

pub new-IsBounded :
    (key : Octets) (config : LimiterConfig) (l : Limiter)
    → new key config ≡ ok l
    → IsBounded l × (l.next_recency ≤ 0)
unfolding new
new-IsBounded key config l h = elim (Bool-cases (is_unusable config)) [
  | inl bad ↦ ground arith
  | inr good ↦
      let same : (fresh_limiter key config ≡ l) = ground arith in
      subst (λ x. IsBounded x × (x.next_recency ≤ 0)) same
        (fresh_limiter-IsBounded key config good, omega arith)
]

pub Reachable-both :
    {env : PeerEnv} {n : ℕ} {l : Limiter}
    → Reachable env n l
    → n < u64_mod
    → IsBounded l × (l.next_recency ≤ n)
Reachable-both (started key config h) few = new-IsBounded key config _ h
Reachable-both {env} (checked {l} o address now r) few =
    let (b, le) = Reachable-both r (omega arith) in
    (
      check-IsBounded env l o address now (omega arith) b,
      ground (arith, check-next env l o address now (omega arith)),
    )
Reachable-both (swept {l} now r) few =
    let (b, le) = Reachable-both r few in (sweep-IsBounded l now b, rw (sweep-next l now) le)
Reachable-both (swept_if_due {l} now r) few =
    let (b, le) = Reachable-both r few in
    (sweep_if_due-IsBounded l now b, rw (sweep_if_due-next l now) le)

-- Every limiter that the program can produce with fewer than 2^64 checks is well formed: its
-- entries are at most `entry_cap`, each holds at most as many attempts as the policy of its
-- operation allows, and the recency index has the place of every entry and nothing else.
pub Reachable-IsBounded :
    {env : PeerEnv} {n : ℕ} {l : Limiter} → Reachable env n l → n < u64_mod → IsBounded l
Reachable-IsBounded r few = (Reachable-both r few).0
