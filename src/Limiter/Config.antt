-- ===== src/Limiter/Config.antt =====
-- src/limiter.rs: the builders of a configuration.
use cbcl_pairing.Common.{ℕ, ◌==◌, if◌then◌else◌}
use cbcl_pairing.Limiter.{Operation, operation_ordered, OperationPolicy, LimiterConfig}

-- `LimiterConfig::new` and `with_policy`.
abbrev pub new_config : OperationPolicy → ℕ → ℕ → LimiterConfig
new_config default_policy entry_cap sweep_interval_seconds = record {
  policies = λ o. default_policy;
  entry_cap = entry_cap;
  sweep_interval_seconds = sweep_interval_seconds;
}

abbrev pub with_policy : LimiterConfig → Operation → OperationPolicy → LimiterConfig
with_policy config operation policy = record config {
  policies = λ o. if o == operation then policy else config.policies o;
}
