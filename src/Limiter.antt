-- ===== src/Limiter.antt =====
-- src/limiter.rs: the state of the bounded, operator-keyed mailbox-operation limiter. The
-- operations are in the modules below.
pub mod Admit
pub mod Peers
pub mod Check
pub mod Config
pub mod Index
pub mod Sweeping
pub mod Bounded
pub mod Answering
pub mod Keeping
pub mod Reach
pub mod History
pub mod Window
pub mod Cooldown
pub mod Repeats
pub mod Peering
mod Examples
use cbcl_pairing.Common.{
  ℕ, ◌≡◌, Bool, Octets, List, Option, Ordering, compare, Ordered, pair_ordered, octets_ordered,
  nat_ordered, arith,
}

abbrev pub cooldown_seconds : ℕ
cooldown_seconds = 300

pub data Operation : Type 0 where
  bind allocate claim open_member put ack close ping : Operation

unfoldable pub index : Operation → ℕ
index Operation.bind = 0
index Operation.allocate = 1
index Operation.claim = 2
index Operation.open_member = 3
index Operation.put = 4
index Operation.ack = 5
index Operation.close = 6
index Operation.ping = 7

-- The derived order is that of the declaration, and so of `index`.
abbrev pub operation_cmp : Operation → Operation → Ordering
operation_cmp p q = compare (index p) (index q)

pub operation_cmp_same : (p : Operation) → operation_cmp p p ≡ Ordering.eq
operation_cmp_same p = ground arith

pub same_of_operation_cmp : (p q : Operation) → operation_cmp p q ≡ Ordering.eq → p ≡ q
unfolding index
same_of_operation_cmp p q h = ground arith

instance abbrev pub operation_ordered : Ordered Operation
operation_ordered = record {
  cmp = operation_cmp;
  cmp_same = operation_cmp_same;
  same_of_cmp = same_of_operation_cmp;
}

-- `PeerKey([u8; 32])`, and the key of an entry.
abbrev pub PeerKey : Type 0
PeerKey = Octets

abbrev pub Dimension : Type 0
Dimension = Operation × PeerKey

pub record OperationPolicy : Type 0 where
  pub limit : ℕ
  pub window_seconds : ℕ

-- The array `policies` is only read at `operation.index()`: a function of the operation.
pub record LimiterConfig : Type 0 where
  pub policies : Operation → OperationPolicy
  pub entry_cap : ℕ
  pub sweep_interval_seconds : ℕ

pub data LimitDecision : Type 0 where
  allowed : (remaining : ℕ) → LimitDecision
  cooldown : (retry_at : ℕ) → LimitDecision

pub data LimiterError : Type 0 where
  invalid_configuration time_overflow empty_peer_address : LimiterError

-- The timestamps in `attempts` are oldest first.
pub record Entry : Type 0 where
  pub attempts : List ℕ
  pub cooldown_until : Option ℕ
  pub recency : ℕ

-- `operator_key` is an argument of the keyed hash of `PeerKey`.
pub record Limiter : Type 0 where
  pub operator_key : Octets
  pub config : LimiterConfig
  pub entries : List (Dimension × Entry)
  pub recency : List (ℕ × Dimension)
  pub next_recency : ℕ
  pub last_now : Option ℕ
  pub last_sweep : Option ℕ
  pub clock_reversals : ℕ
  pub capacity_evictions : ℕ
