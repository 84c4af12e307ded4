-- ===== src/Limiter/Reach.antt =====
-- src/limiter.rs: `check`, `sweep` and `sweep_if_due` on a well-formed limiter, and the limiters
-- that a program can produce with them.
use cbcl_pairing.Common.{
  ℕ, ◌≡◌, ◌<◌, ◌+◌, Octets, octets_ordered, nat_ordered, pair_ordered, List, [], ◌∷◌, lookup,
  is_empty, Option-cases, Bool-cases, inl, inr, u64_mod, refl,
}
use cbcl_pairing.Limiter.{Dimension, Operation, operation_ordered, Limiter}
use cbcl_pairing.Limiter.Peers.{PeerEnv, peer_key}
use cbcl_pairing.Limiter.Check.{
  new, stale, drop_all, drop_dimension, prune_all, sweep_inner, check_dimension, check, sweep_at,
  keep_swept, observe_time, effective, due,
}
use cbcl_pairing.Limiter.Bounded.{IsBounded}
use cbcl_pairing.Limiter.Keeping.{sweep_inner-IsBounded, check_new-IsBounded, check_known-IsBounded}

pub observe_time-IsBounded : (l : Limiter) (now : ℕ) → IsBounded l → IsBounded (observe_time l now)
unfolding observe_time
observe_time-IsBounded l now b = record {
  usable = b.usable;
  indexed = b.indexed;
  distinct = b.distinct;
  within = b.within;
  capped = b.capped;
}

pub sweep_at-IsBounded : (l : Limiter) (now : ℕ) → IsBounded l → IsBounded (sweep_at l now)
unfolding sweep_at
sweep_at-IsBounded l now b =
    let swept = sweep_inner-IsBounded l now b in
    record {
      usable = swept.usable;
      indexed = swept.indexed;
      distinct = swept.distinct;
      within = swept.within;
      capped = swept.capped;
    }

-- A sweep takes no recency.
pub drop_all-next :
    (l : Limiter) (st : List (Dimension × ℕ)) → (drop_all l st).next_recency ≡ l.next_recency
unfolding drop_all drop_dimension
drop_all-next l [] = refl
drop_all-next l ((d, r) ∷ rest) = drop_all-next (drop_dimension l d r) rest

pub keep_swept-IsBounded : (l : Limiter) (now : ℕ) → IsBounded l → IsBounded (keep_swept l now)
unfolding keep_swept
keep_swept-IsBounded l now b =
    elim (Bool-cases (due l.last_sweep now l.config.sweep_interval_seconds)) [
      | inl h ↦ rw h (sweep_at-IsBounded l now b)
      | inr h ↦ rw h b
    ]

pub keep_swept-next : (l : Limiter) (now : ℕ) → (keep_swept l now).next_recency ≡ l.next_recency
unfolding keep_swept sweep_at sweep_inner
keep_swept-next l now = elim (Bool-cases (due l.last_sweep now l.config.sweep_interval_seconds)) [
  | inl h ↦ rw h (
      drop_all-next (record l { entries = prune_all l.config now l.entries })
        (stale l.config now l.entries))
  | inr h ↦ rw h refl
]

pub check_dimension-IsBounded :
    (l : Limiter) (d : Dimension) (now : ℕ)
    → l.next_recency + 1 < u64_mod
    → IsBounded l
    → IsBounded (check_dimension l d now).0
unfolding check_dimension
check_dimension-IsBounded l d now word b = elim (Option-cases (lookup d l.entries)) [
  | inl new ↦ rw (new, check_dimension) (check_new-IsBounded l d now new word b)
  | inr (e, known) ↦ rw (known, check_dimension) (check_known-IsBounded l d e now known word b)
]

-- On a well-formed limiter whose next recency is not the last one, `check` leaves a well-formed
-- limiter behind, whatever it answers: its entries are at most `entry_cap`, each holds at most as
-- many attempts as the policy of its operation allows, and the recency index has the place of
-- every entry and nothing else.
pub check-IsBounded :
    (env : PeerEnv) (l : Limiter) (o : Operation) (address : Octets) (now : ℕ)
    → l.next_recency + 1 < u64_mod
    → IsBounded l
    → IsBounded (check env l o address now).0
unfolding check observe_time
check-IsBounded env l o address now word b = elim (Bool-cases (is_empty address)) [
  | inl h ↦ rw h b
  | inr h ↦
      let time = effective l.last_now now in
      let seen = observe_time l now in
      rw h (
        check_dimension-IsBounded (keep_swept seen time) (o, peer_key env l.operator_key address)
          time (rw (keep_swept-next seen time) word)
          (keep_swept-IsBounded seen time (observe_time-IsBounded l now b)))
]
