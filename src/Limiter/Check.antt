-- ===== src/Limiter/Check.antt =====
-- src/limiter.rs: `new`, `check`, `sweep`, `sweep_if_due` and what they call. An operation returns
-- the limiter beside its result, also with an error. The `expect`s of the source look up an entry
-- that the branch has just found.
use cbcl_pairing.Common.{
  ℕ, ◌-◌, Octets, octets_ordered, nat_ordered, pair_ordered, List, [], ◌∷◌, Option, none, some,
  Bool, true, ◌||◌, leb, nat_beq, if◌then◌else◌, is_empty, is_some, any, length, max, checked_add,
  saturating_add, Outcome, ok, err, lookup, insert, remove, set_insert, set_remove,
}
use cbcl_pairing.Limiter.{
  Operation, operation_ordered, Dimension, OperationPolicy, LimiterConfig, LimitDecision,
  LimiterError, Entry, Limiter,
}
use cbcl_pairing.Limiter.Admit.{Answer, prune_attempts, attempt}
use cbcl_pairing.Limiter.Peers.{PeerEnv, peer_key}

abbrev pub operations : List Operation
operations =
    Operation.bind ∷ Operation.allocate ∷ Operation.claim ∷ Operation.open_member ∷ Operation.put
    ∷ Operation.ack ∷ Operation.close ∷ Operation.ping ∷ []

abbrev pub zero_policy : OperationPolicy → Bool
zero_policy p = nat_beq p.limit 0 || nat_beq p.window_seconds 0

abbrev pub fresh_limiter : Octets → LimiterConfig → Limiter
fresh_limiter operator_key config = record {
  operator_key = operator_key;
  config = config;
  entries = [];
  recency = [];
  next_recency = 0;
  last_now = none;
  last_sweep = none;
  clock_reversals = 0;
  capacity_evictions = 0;
}

abbrev pub is_unusable : LimiterConfig → Bool
is_unusable config =
    nat_beq config.entry_cap 0
    || (nat_beq config.sweep_interval_seconds 0
        || any (λ o. zero_policy (config.policies o)) operations)

unfoldable pub new : Octets → LimiterConfig → Outcome LimiterError Limiter
new operator_key config =
    if is_unusable config
    then err LimiterError.invalid_configuration
    else ok (fresh_limiter operator_key config)

-- The clock never runs backwards: an earlier time counts as the latest one seen.
abbrev pub effective : Option ℕ → ℕ → ℕ
effective none now = now
effective (some last) now = max last now

unfoldable pub observe_time : Limiter → ℕ → Limiter
observe_time l now = record l {
  last_now = some (effective l.last_now now);
  clock_reversals =
      if nat_beq (effective l.last_now now) now
      then l.clock_reversals
      else saturating_add l.clock_reversals 1;
}

-- The first pass of `sweep_inner`: the entries with their attempts pruned, and what is to go.
unfoldable pub is_stale : LimiterConfig → ℕ → Dimension → Entry → Bool
is_stale config now d e = elim e.cooldown_until [
  | none ↦ is_empty (prune_attempts e (config.policies d.0).window_seconds now).attempts
  | some retry_at ↦ leb retry_at now
]

abbrev pub pruned_entry : LimiterConfig → ℕ → Dimension → Entry → Entry
pruned_entry config now d e =
    if is_some e.cooldown_until
    then e
    else prune_attempts e (config.policies d.0).window_seconds now

unfoldable pub prune_all : LimiterConfig → ℕ → List (Dimension × Entry) → List (Dimension × Entry)
prune_all config now [] = []
prune_all config now ((d, e) ∷ rest) = (d, pruned_entry config now d e) ∷ prune_all config now rest

unfoldable pub stale : LimiterConfig → ℕ → List (Dimension × Entry) → List (Dimension × ℕ)
stale config now [] = []
stale config now ((d, e) ∷ rest) =
    if is_stale config now d e
    then (d, e.recency) ∷ stale config now rest
    else stale config now rest

-- An entry goes together with its place in the recency index.
unfoldable pub drop_dimension : Limiter → Dimension → ℕ → Limiter
drop_dimension l d r = record l {
  entries = remove d l.entries;
  recency = set_remove (r, d) l.recency;
}

unfoldable pub drop_all : Limiter → List (Dimension × ℕ) → Limiter
unfolding drop_dimension
drop_all l [] = l
drop_all l ((d, r) ∷ rest) = drop_all (drop_dimension l d r) rest

unfoldable pub sweep_inner : Limiter → ℕ → Limiter × ℕ
sweep_inner l now =
    let removed = stale l.config now l.entries in
    (drop_all (record l { entries = prune_all l.config now l.entries }) removed, length removed)

-- The first of the recency index, the least recently used, is evicted.
unfoldable pub evict_first : Limiter → List (ℕ × Dimension) → Limiter
unfolding drop_dimension
evict_first l [] = l
evict_first l ((r, d) ∷ rest) = record (drop_dimension l d r) {
  capacity_evictions = saturating_add l.capacity_evictions 1;
}

abbrev pub evict_lru : Limiter → Limiter
evict_lru l = evict_first l l.recency

-- `take_recency` is `next_recency`, which fails on overflow and moves on otherwise.
unfoldable pub take_recency : Limiter → Option (Limiter × ℕ)
take_recency l = elim (checked_add l.next_recency 1) [
  | none ↦ none
  | some next ↦ some (record l { next_recency = next }, l.next_recency)
]

-- The dimension is known: `touch`, then the attempt on its entry.
unfoldable pub retry : Limiter → Dimension → Entry → ℕ → Option (Limiter × ℕ) → Limiter × Answer
retry forgotten d e now none = (forgotten, err LimiterError.time_overflow)
retry forgotten d e now (some (taken, r)) =
    let (e', answer) = attempt (taken.config.policies d.0) now (record e { recency = r }) in
    (
      record taken {
        entries = insert d e' taken.entries;
        recency = set_insert (r, d) taken.recency;
      },
      answer,
    )

abbrev pub forget : Limiter → Dimension → Entry → Limiter
forget l d e = record l { recency = set_remove (e.recency, d) l.recency }

unfoldable pub check_known : Limiter → Dimension → Entry → ℕ → Limiter × Answer
check_known l d e now = retry (forget l d e) d e now (take_recency (forget l d e))

-- The dimension is new: the least recently used one makes room if there is none.
unfoldable pub admit : Limiter → Dimension → ℕ → Option (Limiter × ℕ) → Limiter × Answer
admit l d now none = (l, err LimiterError.time_overflow)
admit l d now (some (taken, r)) = (
  record taken {
    entries =
        insert d (record { attempts = now ∷ []; cooldown_until = none; recency = r }) taken.entries;
    recency = set_insert (r, d) taken.recency;
  },
  ok (LimitDecision.allowed ((taken.config.policies d.0).limit - 1)),
)

abbrev pub roomy : Limiter → Limiter
roomy l = if leb l.config.entry_cap (length l.entries) then evict_lru l else l

unfoldable pub check_new : Limiter → Dimension → ℕ → Limiter × Answer
check_new l d now = admit (roomy l) d now (take_recency (roomy l))

abbrev pub due : Option ℕ → ℕ → ℕ → Bool
due none now interval = true
due (some last) now interval = leb interval (now - last)

unfoldable pub sweep_at : Limiter → ℕ → Limiter
sweep_at l now = record (sweep_inner l now).0 { last_sweep = some now }

unfoldable pub check_dimension : Limiter → Dimension → ℕ → Limiter × Answer
check_dimension l d now = elim (lookup d l.entries) [
  | none ↦ check_new l d now
  | some e ↦ check_known l d e now
]

-- The periodic sweep of `check`.
unfoldable pub keep_swept : Limiter → ℕ → Limiter
keep_swept l now =
    if due l.last_sweep now l.config.sweep_interval_seconds then sweep_at l now else l

unfoldable pub check : PeerEnv → Limiter → Operation → Octets → ℕ → Limiter × Answer
check env l operation address now =
    if is_empty address
    then (l, err LimiterError.empty_peer_address)
    else let time = effective l.last_now now in
      check_dimension (keep_swept (observe_time l now) time)
        (operation, peer_key env l.operator_key address) time

unfoldable pub sweep : Limiter → ℕ → Limiter × ℕ
sweep l now =
    let time = effective l.last_now now in
    let (swept, removed) = sweep_inner (observe_time l now) time in
    (record swept { last_sweep = some time }, removed)

unfoldable pub sweep_if_due : Limiter → ℕ → Limiter × ℕ
unfolding sweep
sweep_if_due l now =
    let seen = observe_time l now in
    if due l.last_sweep (effective l.last_now now) l.config.sweep_interval_seconds
    then sweep l now
    else (seen, 0)
