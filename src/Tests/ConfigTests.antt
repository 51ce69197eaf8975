-- ===== src/Tests/ConfigTests.antt =====
-- internal/config: the settings at concrete inputs.
use nomad_csi_driver.Base.{
  ℤ, pos, Text, false, if◌then◌else◌, codes, ◌≡◌, refl, text_eq, text_beq, ◌==◌, [], ◌∷◌, none,
  some,
}
use nomad_csi_driver.Driver.Errors.{Result, ok, err, plain}
use nomad_csi_driver.Go.Trim.{trim_space}
use nomad_csi_driver.Stats.Config.{FullConfig, with_defaults}
use nomad_csi_driver.Config.{
  StatsConfig, portal_list, trimmed, resolve_stats, stats_defaults, duration, over_zero, settle,
}
use nomad_csi_driver.Config.Usable.{with_defaults-resolve_stats}

abbrev parse : Text → Result ℤ
parse t =
    if t == codes "90s"
    then ok (pos 90000000000)
    else if t == codes "0"
    then ok (pos 0)
    else err plain

-- A padded interval, an explicit empty address, and the rest left out.
abbrev block : StatsConfig
block = record {
  enabled = none;
  interval = codes " 90s";
  statfs_timeout = [];
  walk_enabled = some false;
  walk_interval = [];
  walk_workers = pos 0;
  walk_buffer = pos 16;
  walk_timeout = [];
  stale_after = [];
  max_failure_backoff = [];
  aggregate_interval = [];
  metrics_per_volume = none;
  query_addr = some [];
  query_token = [];
  query_token_header = [];
  namespace = [];
}

abbrev settings : FullConfig
settings = record stats_defaults {
  interval = pos 90000000000;
  walk_enabled = false;
  walk_buffer = pos 16;
  query_addr = [];
}

resolves : resolve_stats parse (some block) ≡ ok settings
unfolding resolve_stats duration over_zero settle trim_space text_beq
resolves = refl

refuses_zero : resolve_stats parse (some (record block { stale_after = codes "0" })) ≡ err plain
unfolding resolve_stats duration over_zero settle trim_space text_beq
refuses_zero = refl

lists_portals :
    portal_list
      (record { portal = codes "10.0.0.1"; portals = codes " 10.0.0.2 " ∷ codes " " ∷ [] })
    ≡ codes "10.0.0.2" ∷ []
unfolding portal_list trimmed trim_space text_beq
lists_portals = refl

with_defaults-resolve_stats_example : with_defaults settings ≡ settings
with_defaults-resolve_stats_example =
    with_defaults-resolve_stats parse (some block) settings resolves
