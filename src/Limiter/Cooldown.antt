-- ===== src/Limiter/Cooldown.antt =====
-- src/limiter.rs: a cooldown lasts. Sweeps leave it alone before its end, and so do checks.
use cbcl_pairing.Common.{
  ℕ, ◌≡◌, ◌<◌, octets_ordered, nat_ordered, pair_ordered, List, [], ◌∷◌, some, ◌==◌, ==-iff, lookup,
  lookup-remove, Option-cases, Bool-cases, arith, inl, inr, refl, ok,
}
use cbcl_pairing.Limiter.{
  Entry, Dimension, operation_ordered, LimiterConfig, Limiter, LimitDecision, OperationPolicy,
}
use cbcl_pairing.Limiter.Admit.{prune_attempts, count_attempt, start_cooldown, attempt}
use cbcl_pairing.Limiter.Check.{
  stale, is_stale, prune_all, drop_all, drop_dimension, sweep_inner, sweep_at, due, keep_swept,
}
use cbcl_pairing.Limiter.Sweeping.{Distinct, Apart, stale-Apart, lookup-prune_all}

-- The dimension is cooling down until then.
abbrev pub Cooling : Limiter → Dimension → ℕ → Type 0
Cooling l d retry_at =
    (e : Entry) × (lookup d l.entries ≡ some e) × (e.cooldown_until ≡ some retry_at)

pub drop_all-lookup :
    (l : Limiter) (st : List (Dimension × ℕ)) (d : Dimension)
    → Apart d st
    → lookup d (drop_all l st).entries ≡ lookup d l.entries
unfolding drop_all drop_dimension
drop_all-lookup l [] d h = refl
drop_all-lookup l ((k, r) ∷ rest) d (ne, h) = ground (
  arith,
  drop_all-lookup (drop_dimension l k r) rest d h,
  lookup-remove d k l.entries,
  ==-iff d k,
  ==-iff k d,
)

pub stale-Cooling :
    (config : LimiterConfig) (now : ℕ) (es : List (Dimension × Entry)) (d : Dimension) (e : Entry)
    (retry_at : ℕ)
    → Distinct es
    → lookup d es ≡ some e
    → e.cooldown_until ≡ some retry_at
    → now < retry_at
    → Apart d (stale config now es)
unfolding stale is_stale lookup
stale-Cooling config now [] d e retry_at h known cooling before = ground arith
stale-Cooling config now ((k, e₀) ∷ rest) d e retry_at (new, h) known cooling before =
    elim (Bool-cases (d == k)) [
      | inl same ↦ ground (arith, ==-iff d k, stale-Apart config now d rest)
      | inr other ↦
          ground (arith, ==-iff d k, ==-iff k d, stale-Cooling config now rest d e retry_at h)
    ]

pub sweep_at-Cooling :
    (l : Limiter) (now : ℕ) (d : Dimension) (retry_at : ℕ)
    → Distinct l.entries
    → now < retry_at
    → Cooling l d retry_at
    → Cooling (sweep_at l now) d retry_at
unfolding sweep_at sweep_inner prune_attempts
sweep_at-Cooling l now d retry_at h before (e, known, cooling) =
    let apart = stale-Cooling l.config now l.entries d e retry_at h known cooling before in
    let left =
      drop_all-lookup (record l { entries = prune_all l.config now l.entries })
        (stale l.config now l.entries) d apart in
    (e, ground (arith, lookup-prune_all l.config now d l.entries), cooling)

pub keep_swept-Cooling :
    (l : Limiter) (now : ℕ) (d : Dimension) (retry_at : ℕ)
    → Distinct l.entries
    → now < retry_at
    → Cooling l d retry_at
    → Cooling (keep_swept l now) d retry_at
unfolding keep_swept
keep_swept-Cooling l now d retry_at h before c =
    elim (Bool-cases (due l.last_sweep now l.config.sweep_interval_seconds)) [
      | inl h₂ ↦ rw h₂ (sweep_at-Cooling l now d retry_at h before c)
      | inr h₂ ↦ rw h₂ c
    ]

-- An attempt that is answered with a cooldown leaves that cooldown in the entry.
pub attempt-cooldown :
    (policy : OperationPolicy) (now : ℕ) (e : Entry) (retry_at : ℕ)
    → (attempt policy now e).1 ≡ ok (LimitDecision.cooldown retry_at)
    → (attempt policy now e).0.cooldown_until ≡ some retry_at
unfolding attempt count_attempt start_cooldown prune_attempts
attempt-cooldown policy now e retry_at h = elim (Option-cases e.cooldown_until) [
  | inl free ↦ ground arith
  | inr (t, cooling) ↦ ground arith
]

pub attempt-Cooling :
    (policy : OperationPolicy) (now : ℕ) (e : Entry) (retry_at : ℕ)
    → e.cooldown_until ≡ some retry_at
    → now < retry_at
    → attempt policy now e ≡ (e, ok (LimitDecision.cooldown retry_at))
unfolding attempt
attempt-Cooling policy now e retry_at h before = rw (h, attempt) (ground arith)
