-- ===== src/Config.antt =====
-- chimera/core/config.py: the fields that the modelled parts read. Counts and seconds are natural
-- numbers; pydantic's loading and the paths are not modelled.
use macbastion.Prelude.{ℕ}

pub record CoreConfig : Type 0 where
  pub heartbeat_interval_s : ℕ
  pub heartbeat_dead_threshold : ℕ
  pub restart_max_per_hour : ℕ
  pub request_timeout_s : ℕ

-- the code's defaults
abbrev pub default_config : CoreConfig
default_config = record {
  heartbeat_interval_s = 10;
  heartbeat_dead_threshold = 3;
  restart_max_per_hour = 5;
  request_timeout_s = 5;
}
