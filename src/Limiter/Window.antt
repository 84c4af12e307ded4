-- ===== src/Limiter/Window.antt =====
-- src/limiter.rs: the answer to an attempt, by the attempts that lie in the sliding window.
use cbcl_pairing.Common.{
  ℕ, ◌≡◌, ◌≤◌, ◌<◌, ◌+◌, ◌-◌, ◌^◌, suc, List, [], ◌∷◌, ◌++◌, refl, none, some, ltb, if◌then◌else◌,
  length, keep, length-append, Option-cases, arith, inl, inr, u64_mod, ok,
}
use cbcl_pairing.Limiter.{Entry, OperationPolicy, LimitDecision, cooldown_seconds}
use cbcl_pairing.Limiter.Admit.{prune, prune_attempts, count_attempt, start_cooldown, attempt}

abbrev pub NoneBefore : ℕ → List ℕ → Type 0
NoneBefore t [] = Unit
NoneBefore t (s ∷ ts) = (t ≤ s) × NoneBefore t ts

abbrev pub Ascending : List ℕ → Type 0
Ascending [] = Unit
Ascending (t ∷ ts) = NoneBefore t ts × Ascending ts

abbrev pub in_window : ℕ → ℕ → List ℕ → List ℕ
in_window window now ts = keep (λ t. ltb (now - t) window) ts

pub in_window-all :
    (window now t : ℕ) (ts : List ℕ)
    → now - t < window
    → NoneBefore t ts
    → in_window window now ts ≡ ts
in_window-all window now t [] lt h = ground arith
in_window-all window now t (s ∷ ts) lt (le, h) = ground (arith, in_window-all window now t ts lt h)

-- Of ascending timestamps, those that `prune_attempts` leaves are those in the window.
pub prune-in_window :
    (window now : ℕ) (ts : List ℕ) → Ascending ts → prune window now ts ≡ in_window window now ts
unfolding prune
prune-in_window window now [] h = ground arith
prune-in_window window now (t ∷ ts) (later, h) =
    ground (arith, in_window-all window now t ts, prune-in_window window now ts h)

-- The attempts that count against the limit, where there is no cooldown to wait for.
abbrev pub recent : OperationPolicy → ℕ → Entry → List ℕ
recent policy now e = elim e.cooldown_until [
  | none ↦ in_window policy.window_seconds now e.attempts
  | some retry_at ↦ []
]

abbrev pub by_count : OperationPolicy → ℕ → ℕ → LimitDecision
by_count policy now n =
    if ltb n policy.limit
    then LimitDecision.allowed (policy.limit - suc n)
    else LimitDecision.cooldown (now + cooldown_seconds)

abbrev pub expected : OperationPolicy → ℕ → Entry → LimitDecision
expected policy now e = elim e.cooldown_until [
  | none ↦ by_count policy now (length (recent policy now e))
  | some retry_at ↦
      if ltb now retry_at
      then LimitDecision.cooldown retry_at
      else by_count policy now (length (recent policy now e))
]

-- The entry that an attempt leaves, where these attempts count against the limit.
abbrev pub kept_by_count : OperationPolicy → ℕ → Entry → List ℕ → Entry
kept_by_count policy now e ts =
    if ltb (length ts) policy.limit
    then record e { attempts = ts ++ (now ∷ []); cooldown_until = none }
    else record e { attempts = ts; cooldown_until = some (now + cooldown_seconds) }

abbrev pub kept : OperationPolicy → ℕ → Entry → Entry
kept policy now e = elim e.cooldown_until [
  | none ↦ kept_by_count policy now e (recent policy now e)
  | some retry_at ↦ if ltb now retry_at then e else kept_by_count policy now e (recent policy now e)
]

pub count_attempt-by_count :
    (policy : OperationPolicy) (now : ℕ) (e : Entry)
    → e.cooldown_until ≡ none
    → policy.limit < 2 ^ 32
    → now + cooldown_seconds < u64_mod
    → count_attempt policy now e
      ≡ (kept_by_count policy now e e.attempts, ok (by_count policy now (length e.attempts)))
unfolding count_attempt start_cooldown
count_attempt-by_count policy now e free limit clock =
    ground (arith, length-append e.attempts (now ∷ []))

-- With timestamps in ascending order, a limit below 2^32 and a clock at least 300 seconds away
-- from the end of `u64`: during a cooldown the answer repeats its end and the entry stays;
-- otherwise the attempts that count are those in the sliding window (none after a cooldown), and
-- the attempt is allowed exactly if they are fewer than the limit, with the number that remain,
-- and is then added to them; else a cooldown of 300 seconds is answered, and the entry keeps its
-- end.
pub attempt-expected :
    (policy : OperationPolicy) (now : ℕ) (e : Entry)
    → Ascending e.attempts
    → policy.limit < 2 ^ 32
    → now + cooldown_seconds < u64_mod
    → attempt policy now e ≡ (kept policy now e, ok (expected policy now e))
unfolding attempt prune_attempts prune
attempt-expected policy now e h limit clock = elim (Option-cases e.cooldown_until) [
  | inl free ↦
      let left = prune-in_window policy.window_seconds now e.attempts h in
      let answer =
        count_attempt-by_count policy now (prune_attempts e policy.window_seconds now) free limit
          clock in
      ground arith
  | inr (retry_at, cooling) ↦
      let answer =
        count_attempt-by_count policy now (record e { attempts = []; cooldown_until = none }) refl
          limit clock in
      ground arith
]
