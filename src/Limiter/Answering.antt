-- ===== src/Limiter/Answering.antt =====
-- src/limiter.rs: `check` answers, and does not panic.
use cbcl_pairing.Common.{
  ℕ, Octets, octets_ordered, nat_ordered, pair_ordered, ◌≢◌, Option, none, some, Option-cases, inl,
  inr, lookup, panic, arith,
}
use cbcl_pairing.Limiter.{operation_ordered, Limiter, Operation, Dimension, Entry, OperationPolicy}
use cbcl_pairing.Limiter.Peers.{PeerEnv, peer_key}
use cbcl_pairing.Limiter.Admit.{attempt, count_attempt, start_cooldown}
use cbcl_pairing.Limiter.Check.{
  admit, check, check_dimension, check_known, check_new, retry, take_recency, roomy, forget,
  effective, keep_swept, observe_time,
}

attempt-IsAlive : (p : OperationPolicy) (now : ℕ) (e : Entry) → (attempt p now e).1 ≢ panic
unfolding attempt count_attempt start_cooldown
attempt-IsAlive p now e h = ground arith

retry-IsAlive :
    (l : Limiter) (d : Dimension) (e : Entry) (now : ℕ) (o : Option (Limiter × ℕ))
    → (retry l d e now o).1 ≢ panic
unfolding retry
retry-IsAlive l d e now none h = ground arith
retry-IsAlive l d e now (some (taken, r)) h =
    attempt-IsAlive (taken.config.policies d.0) now (record e { recency = r }) h

admit-IsAlive :
    (l : Limiter) (d : Dimension) (now : ℕ) (o : Option (Limiter × ℕ)) → (admit l d now o).1 ≢ panic
unfolding admit
admit-IsAlive l d now none h = ground arith
admit-IsAlive l d now (some (taken, r)) h = ground arith

check_dimension-IsAlive :
    (l : Limiter) (d : Dimension) (now : ℕ) → (check_dimension l d now).1 ≢ panic
unfolding check_dimension check_new check_known
check_dimension-IsAlive l d now h = elim (Option-cases (lookup d l.entries)) [
  | inl new ↦ ground (arith, new, admit-IsAlive (roomy l) d now (take_recency (roomy l)))
  | inr (e, known) ↦
      ground (arith, known, retry-IsAlive (forget l d e) d e now (take_recency (forget l d e)))
]

pub check-IsAlive :
    (peers : PeerEnv) (l : Limiter) (o : Operation) (address : Octets) (now : ℕ)
    → (check peers l o address now).1 ≢ panic
unfolding check
check-IsAlive peers l o address now h =
    let time = effective l.last_now now in
    ground (
      arith,
      check_dimension-IsAlive (keep_swept (observe_time l now) time)
          (o, peer_key peers l.operator_key address) time,
    )
