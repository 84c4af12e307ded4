-- ===== src/Observability.antt =====
-- src/observability.rs: the counters, gauges and alerts of the relay.
use cbcl_pairing.Common.{
  ℕ, ◌*◌, List, [], ◌∷◌, ◌++◌, Bool, not, ◌&&◌, nat_beq, leb, if◌then◌else◌, saturating_add,
}
use cbcl_pairing.Limiter.{Operation, index}
use cbcl_pairing.Limiter.Check as LimiterCheck

pub data RelayOutcome : Type 0 where
  success invalid not_found conflict closed crowded expired too_large rate_limited unavailable :
      RelayOutcome

pub outcome_index : RelayOutcome → ℕ
outcome_index RelayOutcome.success = 0
outcome_index RelayOutcome.invalid = 1
outcome_index RelayOutcome.not_found = 2
outcome_index RelayOutcome.conflict = 3
outcome_index RelayOutcome.closed = 4
outcome_index RelayOutcome.crowded = 5
outcome_index RelayOutcome.expired = 6
outcome_index RelayOutcome.too_large = 7
outcome_index RelayOutcome.rate_limited = 8
outcome_index RelayOutcome.unavailable = 9

pub record RelayLogEvent : Type 0 where
  pub operation : Operation
  pub outcome : RelayOutcome

pub record CapacityCaps : Type 0 where
  pub open_mailboxes : ℕ
  pub queue_bytes : ℕ
  pub limiter_entries : ℕ

pub record RelayGauges : Type 0 where
  pub open_mailboxes : ℕ
  pub queue_bytes : ℕ
  pub limiter_entries : ℕ
  pub limiter_clock_reversals : ℕ

pub record CapacityAlerts : Type 0 where
  pub open_mailboxes : Bool
  pub queue_bytes : Bool
  pub limiter_entries : Bool

pub record OperationMetric : Type 0 where
  pub operation : Operation
  pub outcome : RelayOutcome
  pub count : ℕ

pub record RelayMetrics : Type 0 where
  pub operations : List OperationMetric
  pub gauges : RelayGauges
  pub alerts : CapacityAlerts

-- The array `counters` is only read and written at two indices: a function of both.
pub record RelayObservability : Type 0 where
  pub caps : CapacityCaps
  pub counters : Operation → RelayOutcome → ℕ
  pub gauges : RelayGauges

unfoldable pub new_observability : CapacityCaps → RelayObservability
new_observability caps = record {
  caps = caps;
  counters = λ operation outcome. 0;
  gauges = record {
    open_mailboxes = 0;
    queue_bytes = 0;
    limiter_entries = 0;
    limiter_clock_reversals = 0;
  };
}

abbrev pub same_cell : Operation → RelayOutcome → Operation → RelayOutcome → Bool
same_cell operation outcome o p =
    nat_beq (index operation) (index o) && nat_beq (outcome_index outcome) (outcome_index p)

unfoldable pub record_operation :
    RelayObservability → Operation → RelayOutcome → RelayObservability × RelayLogEvent
record_operation s operation outcome = (
  record s {
    counters = λ o p.
        if same_cell operation outcome o p
        then saturating_add (s.counters o p) 1
        else s.counters o p;
  },
  record { operation = operation; outcome = outcome },
)

unfoldable pub set_gauges : RelayObservability → RelayGauges → RelayObservability
set_gauges s gauges = record s { gauges = gauges }

unfoldable pub at_eighty_percent : ℕ → ℕ → Bool
at_eighty_percent value cap = not (nat_beq cap 0) && leb (cap * 4) (value * 5)

unfoldable pub alerts : RelayObservability → CapacityAlerts
unfolding at_eighty_percent
alerts s = record {
  open_mailboxes = at_eighty_percent s.gauges.open_mailboxes s.caps.open_mailboxes;
  queue_bytes = at_eighty_percent s.gauges.queue_bytes s.caps.queue_bytes;
  limiter_entries = at_eighty_percent s.gauges.limiter_entries s.caps.limiter_entries;
}

-- `RelayOutcome::ALL`.
abbrev all_outcomes : List RelayOutcome
all_outcomes =
    RelayOutcome.success ∷ RelayOutcome.invalid ∷ RelayOutcome.not_found ∷ RelayOutcome.conflict
    ∷ RelayOutcome.closed ∷ RelayOutcome.crowded ∷ RelayOutcome.expired ∷ RelayOutcome.too_large
    ∷ RelayOutcome.rate_limited ∷ RelayOutcome.unavailable ∷ []

-- The inner loop of `metrics`, for one operation, and the outer one.
unfoldable pub nonzero :
    (Operation → RelayOutcome → ℕ) → Operation → List RelayOutcome → List OperationMetric
nonzero counters o [] = []
nonzero counters o (p ∷ ps) =
    let count = counters o p in
    let rest = nonzero counters o ps in
    if nat_beq count 0 then rest else record { operation = o; outcome = p; count = count } ∷ rest

unfoldable pub all_nonzero : (Operation → RelayOutcome → ℕ) → List Operation → List OperationMetric
unfolding nonzero
all_nonzero counters [] = []
all_nonzero counters (o ∷ os) = nonzero counters o all_outcomes ++ all_nonzero counters os

unfoldable pub metrics : RelayObservability → RelayMetrics
unfolding all_nonzero alerts
metrics s = record {
  operations = all_nonzero s.counters LimiterCheck.operations;
  gauges = s.gauges;
  alerts = alerts s;
}
