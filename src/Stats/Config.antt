-- ===== src/Stats/Config.antt =====
-- internal/stats/config.go: the settings of the usage statistics and their defaults. Durations are
-- in nanoseconds.
use nomad_csi_driver.Base.Int.{ltb_ℤ}
use nomad_csi_driver.Base.{ℤ, pos, Text, Bool, if◌then◌else◌, codes, text_eq, ◌==◌, []}

-- `stats.Config`, with every field.
pub record FullConfig : Type 0 where
  pub enabled : Bool
  pub interval : ℤ
  pub statfs_timeout : ℤ
  pub walk_enabled : Bool
  pub walk_interval : ℤ
  pub walk_workers : ℤ
  pub walk_buffer : ℤ
  pub walk_timeout : ℤ
  pub stale_after : ℤ
  pub max_failure_backoff : ℤ
  pub aggregate_interval : ℤ
  pub metrics_per_volume : Bool
  pub query_addr : Text
  pub query_token : Text
  pub query_token_header : Text
  pub namespace : Text

abbrev pub default_interval : ℤ
default_interval = pos 60000000000

abbrev pub default_statfs_timeout : ℤ
default_statfs_timeout = pos 30000000000

abbrev pub default_walk_interval : ℤ
default_walk_interval = pos 300000000000

abbrev pub default_walk_timeout : ℤ
default_walk_timeout = pos 600000000000

abbrev pub default_stale_after : ℤ
default_stale_after = pos 300000000000

abbrev pub default_max_failure_backoff : ℤ
default_max_failure_backoff = pos 1800000000000

abbrev pub default_walk_workers : ℤ
default_walk_workers = pos 4

abbrev pub default_walk_buffer : ℤ
default_walk_buffer = pos 4096

abbrev pub default_aggregate_interval : ℤ
default_aggregate_interval = pos 60000000000

abbrev pub default_query_addr : Text
default_query_addr = codes ":9610"

abbrev pub default_query_token_header : Text
default_query_token_header = codes "X-NCD-Query-Token"

abbrev pub default_namespace : Text
default_namespace = codes "default"

-- `if v <= 0 { v = d }`
abbrev pub positive_or : ℤ → ℤ → ℤ
positive_or d v = if ltb_ℤ (pos 0) v then v else d

-- `if v == "" { v = d }`
abbrev pub text_or : Text → Text → Text
text_or d v = if v == [] then d else v

unfoldable pub with_defaults : FullConfig → FullConfig
with_defaults c = record c {
  interval = positive_or default_interval c.interval;
  statfs_timeout = positive_or default_statfs_timeout c.statfs_timeout;
  walk_interval = positive_or default_walk_interval c.walk_interval;
  walk_workers = positive_or default_walk_workers c.walk_workers;
  walk_buffer = positive_or default_walk_buffer c.walk_buffer;
  walk_timeout = positive_or default_walk_timeout c.walk_timeout;
  stale_after = positive_or default_stale_after c.stale_after;
  max_failure_backoff = positive_or default_max_failure_backoff c.max_failure_backoff;
  aggregate_interval = positive_or default_aggregate_interval c.aggregate_interval;
  query_token_header = text_or default_query_token_header c.query_token_header;
  namespace = text_or default_namespace c.namespace;
}
