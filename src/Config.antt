-- ===== src/Config.antt =====
-- internal/config/config.go: the settings that follow from the decoded blocks. The HCL decoder and
-- `time.ParseDuration` are parameters.
pub mod Usable
use nomad_csi_driver.Base.Int.{ltb_ℤ}
use nomad_csi_driver.Base.{
  ℤ, pos, Text, Bool, true, if◌then◌else◌, codes, text_eq, ◌==◌, List, [], ◌∷◌, Option, none, some,
}
use nomad_csi_driver.Driver.Errors.{Result, ok, err, plain, bind}
use nomad_csi_driver.Go.Trim.{trim_space}
use nomad_csi_driver.Stats.Config.{
  FullConfig, positive_or, text_or, default_interval, default_statfs_timeout, default_walk_interval,
  default_walk_timeout, default_stale_after, default_max_failure_backoff, default_walk_workers,
  default_walk_buffer, default_aggregate_interval, default_query_addr, default_query_token_header,
  default_namespace,
}

pub record PortalConfig : Type 0 where
  pub portal : Text
  pub portals : List Text

-- The loop of PortalList.
unfoldable pub trimmed : List Text → List Text
unfolding trim_space
trimmed [] = []
trimmed (p ∷ ps) =
    let rest = trimmed ps in let q = trim_space p in if q == [] then rest else q ∷ rest

unfoldable pub portal_list : PortalConfig → List Text
unfolding trimmed
portal_list q = elim q.portals [
  | [] ↦ if q.portal == [] then [] else trimmed (q.portal ∷ [])
  | p ∷ ps ↦ trimmed (p ∷ ps)
]

pub record MetricsConfig : Type 0 where
  pub enabled : Bool
  pub address : Text
  pub path : Text

unfoldable pub effective_address : MetricsConfig → Text
effective_address m = text_or (codes "0.0.0.0:9090") m.address

unfoldable pub effective_path : MetricsConfig → Text
effective_path m = text_or (codes "/metrics") m.path

pub record ReadinessConfig : Type 0 where
  pub timeout : Text
  pub interval : Text

-- `config.StatsConfig`: what is a pointer in the source is an `Option`.
pub record StatsConfig : Type 0 where
  pub enabled : Option Bool
  pub interval : Text
  pub statfs_timeout : Text
  pub walk_enabled : Option Bool
  pub walk_interval : Text
  pub walk_workers : ℤ
  pub walk_buffer : ℤ
  pub walk_timeout : Text
  pub stale_after : Text
  pub max_failure_backoff : Text
  pub aggregate_interval : Text
  pub metrics_per_volume : Option Bool
  pub query_addr : Option Text
  pub query_token : Text
  pub query_token_header : Text
  pub namespace : Text

abbrev pub given {ℓ} : {A : Type ℓ} → Option A → A → A
given none d = d
given (some a) d = a

abbrev pub stats_defaults : FullConfig
stats_defaults = record {
  enabled = true;
  interval = default_interval;
  statfs_timeout = default_statfs_timeout;
  walk_enabled = true;
  walk_interval = default_walk_interval;
  walk_workers = default_walk_workers;
  walk_buffer = default_walk_buffer;
  walk_timeout = default_walk_timeout;
  stale_after = default_stale_after;
  max_failure_backoff = default_max_failure_backoff;
  aggregate_interval = default_aggregate_interval;
  metrics_per_volume = true;
  query_addr = default_query_addr;
  query_token = [];
  query_token_header = default_query_token_header;
  namespace = default_namespace;
}

unfoldable pub settle :
    StatsConfig → (interval statfs walk deadline stale cap aggregate : ℤ) → FullConfig
settle s interval statfs walk deadline stale cap aggregate = record {
  enabled = given s.enabled true;
  interval = interval;
  statfs_timeout = statfs;
  walk_enabled = given s.walk_enabled true;
  walk_interval = walk;
  walk_workers = positive_or default_walk_workers s.walk_workers;
  walk_buffer = positive_or default_walk_buffer s.walk_buffer;
  walk_timeout = deadline;
  stale_after = stale;
  max_failure_backoff = cap;
  aggregate_interval = aggregate;
  metrics_per_volume = given s.metrics_per_volume true;
  query_addr = given s.query_addr default_query_addr;
  query_token = s.query_token;
  query_token_header = text_or default_query_token_header s.query_token_header;
  namespace = text_or default_namespace s.namespace;
}

-- `parse` is time.ParseDuration, which reads nanoseconds or fails.
module _ (parse : Text → Result ℤ) where
  parsed_or : ℤ → Text → Result ℤ
  parsed_or d v = if v == [] then ok d else parse v

  default_interval_if : ℤ → ℤ → Result (ℤ × ℤ)
  default_interval_if timeout interval = ok (timeout, positive_or (pos 5000000000) interval)

  -- The timeout and the interval of the startup gate.
  unfoldable pub resolve_readiness : Option ReadinessConfig → Result (ℤ × ℤ)
  unfolding parsed_or default_interval_if
  resolve_readiness none = ok (pos 0, pos 5000000000)
  resolve_readiness (some r) = bind (parsed_or (pos 0) (trim_space r.timeout)) (λ timeout.
      bind (parsed_or (pos 5000000000) (trim_space r.interval)) (default_interval_if timeout))

  unfoldable pub over_zero : ℤ → Result ℤ
  over_zero d = if ltb_ℤ (pos 0) d then ok d else err plain

  -- `dur`: the default for a value that is blank.
  unfoldable pub duration : ℤ → Text → Result ℤ
  unfolding over_zero
  duration d v = let s = trim_space v in if s == [] then ok d else bind (parse s) over_zero

  unfoldable pub resolve_stats : Option StatsConfig → Result FullConfig
  unfolding settle
  resolve_stats none = ok stats_defaults
  resolve_stats (some s) = bind (duration default_interval s.interval) (λ interval.
      bind (duration default_statfs_timeout s.statfs_timeout) (λ statfs.
        bind (duration default_walk_interval s.walk_interval) (λ walk.
          bind (duration default_walk_timeout s.walk_timeout) (λ deadline.
            bind (duration default_stale_after s.stale_after) (λ stale.
              bind (duration default_max_failure_backoff s.max_failure_backoff) (λ cap.
                bind (duration default_aggregate_interval s.aggregate_interval) (λ aggregate.
                  ok (settle s interval statfs walk deadline stale cap aggregate))))))))
