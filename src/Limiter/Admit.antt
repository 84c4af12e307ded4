-- ===== src/Limiter/Admit.antt =====
-- src/limiter.rs: what one attempt does to the entry of its dimension.
use cbcl_pairing.Common.{
  ℕ, ◌-◌, ◌%◌, ◌^◌, List, [], ◌∷◌, ◌++◌, none, some, ltb, leb, if◌then◌else◌, length, checked_add,
  Outcome, ok, err,
}
use cbcl_pairing.Limiter.{Entry, OperationPolicy, LimitDecision, LimiterError, cooldown_seconds}

-- `prune_attempts`, on the timestamps: those at least a window old go, from the front.
unfoldable pub prune : ℕ → ℕ → List ℕ → List ℕ
prune window now [] = []
prune window now (t ∷ ts) = if leb window (now - t) then prune window now ts else t ∷ ts

unfoldable pub prune_attempts : Entry → ℕ → ℕ → Entry
unfolding prune
prune_attempts e window now = record e { attempts = prune window now e.attempts }

abbrev pub Answer : Type 0
Answer = Outcome LimiterError LimitDecision

-- The start of a cooldown, which fails where its end does not fit.
unfoldable pub start_cooldown : Entry → ℕ → Entry × Answer
start_cooldown e now = elim (checked_add now cooldown_seconds) [
  | none ↦ (e, err LimiterError.time_overflow)
  | some retry_at ↦
      (record e { cooldown_until = some retry_at }, ok (LimitDecision.cooldown retry_at))
]

-- The count of the attempts that are left in the window; `as u32` truncates.
unfoldable pub count_attempt : OperationPolicy → ℕ → Entry → Entry × Answer
unfolding start_cooldown
count_attempt policy now e =
    if leb policy.limit (length e.attempts) then start_cooldown e now else (
      record e { attempts = e.attempts ++ (now ∷ []) },
      ok (LimitDecision.allowed (policy.limit - length (e.attempts ++ (now ∷ [])) % 2 ^ 32)),
    )

-- The entry once its cooldown is over.
abbrev pub cooled : Entry → Entry
cooled e = record e { attempts = []; cooldown_until = none }

unfoldable pub attempt : OperationPolicy → ℕ → Entry → Entry × Answer
attempt policy now e = elim e.cooldown_until [
  | none ↦ count_attempt policy now (prune_attempts e policy.window_seconds now)
  | some retry_at ↦
      if ltb now retry_at
      then (e, ok (LimitDecision.cooldown retry_at))
      else count_attempt policy now (prune_attempts (cooled e) policy.window_seconds now)
]
