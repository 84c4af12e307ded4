-- ===== src/Limiter/Repeats.antt =====
-- src/limiter.rs: the answer `Cooldown` of `check` is repeated until its end.
use cbcl_pairing.Common.{
  ℕ, ◌≡◌, ◌<◌, ◌+◌, ◌-◌, Octets, octets_ordered, nat_ordered, pair_ordered, List, [], ◌∷◌, none,
  some, false, leb, ==-iff, lookup, lookup-insert, length, is_empty, Option-cases, Bool-cases,
  arith, inl, inr, u64_mod, refl, ok, sym, ap, ◌∙◌,
}
use cbcl_pairing.Limiter.{Entry, Dimension, Operation, operation_ordered, Limiter, LimitDecision}
use cbcl_pairing.Limiter.Admit.{attempt}
use cbcl_pairing.Limiter.Peers.{PeerEnv, peer_key}
use cbcl_pairing.Limiter.Check.{
  stale, prune_all, drop_all, drop_dimension, sweep_inner, sweep_at, check_known, check_new,
  evict_first, admit, check_dimension, check, observe_time, effective, due, retry, forget,
  keep_swept,
}
use cbcl_pairing.Limiter.Bounded.{IsBounded}
use cbcl_pairing.Limiter.Keeping.{take_recency-fits, evict_first-keeps}
use cbcl_pairing.Limiter.Reach.{keep_swept-next, check-IsBounded}
use cbcl_pairing.Limiter.History.{check-next}
use cbcl_pairing.Limiter.Cooldown.{Cooling, keep_swept-Cooling, attempt-cooldown, attempt-Cooling}

-- What `check` does for a known dimension.
pub check_dimension-known :
    (l : Limiter) (d : Dimension) (e : Entry) (now : ℕ)
    → lookup d l.entries ≡ some e
    → l.next_recency + 1 < u64_mod
    → check_dimension l d now
      ≡ retry
          (forget l d e)
          d
          e
          now
          (some (record (forget l d e) { next_recency = l.next_recency + 1 }, l.next_recency))
unfolding check_dimension check_known
check_dimension-known l d e now known word =
    rw (known, check_dimension) (rw (take_recency-fits (forget l d e) word) refl)

-- A new dimension is always allowed.
pub check_dimension-new :
    (l : Limiter) (d : Dimension) (now : ℕ)
    → lookup d l.entries ≡ none
    → l.next_recency + 1 < u64_mod
    → (check_dimension l d now).1 ≡ ok (LimitDecision.allowed ((l.config.policies d.0).limit - 1))
unfolding check_dimension check_new admit
check_dimension-new l d now new word =
    elim (Bool-cases (leb l.config.entry_cap (length l.entries))) [
      | inl full ↦
          let (absent, config, next) = evict_first-keeps l l.recency d new in
          rw (new, check_dimension)
            (rw (full, take_recency-fits (evict_first l l.recency) (ground arith))
              (ap (λ c. ok (LimitDecision.allowed ((c.policies d.0).limit - 1))) config))
      | inr space ↦ rw (new, check_dimension) (rw (space, take_recency-fits l word) refl)
    ]

pub retry-Cooling :
    (l : Limiter) (d : Dimension) (e : Entry) (now r retry_at : ℕ)
    → (attempt (l.config.policies d.0) now (record e { recency = r })).0.cooldown_until
      ≡ some retry_at
    → Cooling (retry l d e now (some (l, r))).0 d retry_at
unfolding retry
retry-Cooling l d e now r retry_at h =
    let e' = (attempt (l.config.policies d.0) now (record e { recency = r })).0 in
    (e', ground (arith, lookup-insert d d e' l.entries, ==-iff d d), h)

pub check_dimension-starts :
    (l : Limiter) (d : Dimension) (now retry_at : ℕ)
    → l.next_recency + 1 < u64_mod
    → (check_dimension l d now).1 ≡ ok (LimitDecision.cooldown retry_at)
    → Cooling (check_dimension l d now).0 d retry_at
unfolding retry
check_dimension-starts l d now retry_at word h = elim (Option-cases (lookup d l.entries)) [
  | inl new ↦ let allowed = check_dimension-new l d now new word in ground arith
  | inr (e, known) ↦
      let as_known = check_dimension-known l d e now known word in
      let taken = record (forget l d e) { next_recency = l.next_recency + 1 } in
      rw as_known (
        retry-Cooling taken d e now l.next_recency retry_at (
          attempt-cooldown (l.config.policies d.0) now (record e { recency = l.next_recency })
            retry_at (sym (ap (λ x. x.1) as_known) ∙ h)))
]

pub check_dimension-Cooling :
    (l : Limiter) (d : Dimension) (now retry_at : ℕ)
    → l.next_recency + 1 < u64_mod
    → now < retry_at
    → Cooling l d retry_at
    → (check_dimension l d now).1 ≡ ok (LimitDecision.cooldown retry_at)
unfolding retry
check_dimension-Cooling l d now retry_at word before (e, known, cooling) =
    rw (check_dimension-known l d e now known word) (
      ap (λ x. x.1)
        (attempt-Cooling (l.config.policies d.0) now (record e { recency = l.next_recency })
          retry_at cooling before))

-- Every operation keeps the operator's key.
pub drop_all-operator_key :
    (l : Limiter) (st : List (Dimension × ℕ)) → (drop_all l st).operator_key ≡ l.operator_key
unfolding drop_all drop_dimension
drop_all-operator_key l [] = refl
drop_all-operator_key l ((d, r) ∷ rest) = drop_all-operator_key (drop_dimension l d r) rest

pub keep_swept-operator_key :
    (l : Limiter) (now : ℕ) → (keep_swept l now).operator_key ≡ l.operator_key
unfolding keep_swept sweep_at sweep_inner
keep_swept-operator_key l now =
    elim (Bool-cases (due l.last_sweep now l.config.sweep_interval_seconds)) [
      | inl h ↦ rw h (
          drop_all-operator_key (record l { entries = prune_all l.config now l.entries })
            (stale l.config now l.entries))
      | inr h ↦ rw h refl
    ]

pub evict_first-operator_key :
    (l : Limiter) (ps : List (ℕ × Dimension)) → (evict_first l ps).operator_key ≡ l.operator_key
unfolding evict_first drop_dimension
evict_first-operator_key l [] = refl
evict_first-operator_key l ((r, d) ∷ rest) = refl

pub check_dimension-operator_key :
    (l : Limiter) (d : Dimension) (now : ℕ)
    → l.next_recency + 1 < u64_mod
    → (check_dimension l d now).0.operator_key ≡ l.operator_key
unfolding check_dimension check_new admit retry
check_dimension-operator_key l d now word = elim (Option-cases (lookup d l.entries)) [
  | inr (e, known) ↦ rw (check_dimension-known l d e now known word) refl
  | inl new ↦ elim (Bool-cases (leb l.config.entry_cap (length l.entries))) [
    | inl full ↦
        let (absent, config, next) = evict_first-keeps l l.recency d new in
        rw (new, check_dimension)
          (rw (full, take_recency-fits (evict_first l l.recency) (ground arith))
            (evict_first-operator_key l l.recency))
    | inr space ↦ rw (new, check_dimension) (rw (space, take_recency-fits l word) refl)
  ]
]

pub check-operator_key :
    (env : PeerEnv) (l : Limiter) (o : Operation) (address : Octets) (now : ℕ)
    → l.next_recency + 1 < u64_mod
    → (check env l o address now).0.operator_key ≡ l.operator_key
unfolding check observe_time
check-operator_key env l o address now word = elim (Bool-cases (is_empty address)) [
  | inl h ↦ rw h refl
  | inr h ↦
      let time = effective l.last_now now in
      let seen = observe_time l now in
      rw h (
        check_dimension-operator_key (keep_swept seen time) (o, peer_key env l.operator_key address)
          time (rw (keep_swept-next seen time) word)
        ∙ keep_swept-operator_key seen time)
]

pub check-starts :
    (env : PeerEnv) (l : Limiter) (o : Operation) (address : Octets) (now retry_at : ℕ)
    → l.next_recency + 1 < u64_mod
    → (check env l o address now).1 ≡ ok (LimitDecision.cooldown retry_at)
    → (is_empty address ≡ false)
      × Cooling (check env l o address now).0 (o, peer_key env l.operator_key address) retry_at
unfolding check observe_time
check-starts env l o address now retry_at word h = elim (Bool-cases (is_empty address)) [
  | inl empty ↦ ground arith
  | inr there ↦
      let time = effective l.last_now now in
      let seen = observe_time l now in
      let d : (Dimension) = (o, peer_key env l.operator_key address) in
      (
        there,
        rw there (
            check_dimension-starts (keep_swept seen time) d time retry_at
              (rw (keep_swept-next seen time) word) (ground arith)),
      )
]

pub check-Cooling :
    (env : PeerEnv) (l : Limiter) (o : Operation) (address : Octets) (now retry_at : ℕ)
    → IsBounded l
    → l.next_recency + 1 < u64_mod
    → is_empty address ≡ false
    → effective l.last_now now < retry_at
    → Cooling l (o, peer_key env l.operator_key address) retry_at
    → (check env l o address now).1 ≡ ok (LimitDecision.cooldown retry_at)
unfolding check observe_time
check-Cooling env l o address now retry_at b word there before cooling =
    let time = effective l.last_now now in
    let seen = observe_time l now in
    let d : (Dimension) = (o, peer_key env l.operator_key address) in
    rw there (
      check_dimension-Cooling (keep_swept seen time) d time retry_at
        (rw (keep_swept-next seen time) word) before
        (keep_swept-Cooling seen time d retry_at b.distinct before cooling))

-- On a well-formed limiter with two recencies left, a `check` that is answered with a cooldown is
-- answered the same if it is repeated at once, at any clock reading, as long as the latest time
-- the limiter has seen is before the end of the cooldown.
pub check-repeats_cooldown :
    (env : PeerEnv) (l : Limiter) (o : Operation) (address : Octets) (now later retry_at : ℕ)
    → IsBounded l
    → l.next_recency + 2 < u64_mod
    → (check env l o address now).1 ≡ ok (LimitDecision.cooldown retry_at)
    → effective (check env l o address now).0.last_now later < retry_at
    → (check env (check env l o address now).0 o address later).1
      ≡ ok (LimitDecision.cooldown retry_at)
check-repeats_cooldown env l o address now later retry_at b word h before =
    let next = (check env l o address now).0 in
    let (there, cooling) = check-starts env l o address now retry_at (omega arith) h in
    let same = check-operator_key env l o address now (omega arith) in
    let moved = check-next env l o address now (omega arith) in
    check-Cooling env next o address later retry_at
      (check-IsBounded env l o address now (omega arith) b) (omega arith) there before
      (rw same cooling)
