-- ===== src/Tests/LocalNodeTests.antt =====
-- internal/driver/local/node.go: the theorems on the local node at concrete inputs.
use nomad_csi_driver.Base.{
  ◌*◌, true, false, ◌≡◌, refl, inr, inl, [], ◌∷◌, none, codes, contains, text_beq, arith, text_eq,
}
use nomad_csi_driver.Base.Map.{lookup}
use nomad_csi_driver.Driver.Errors.{ok, err, plain}
use nomad_csi_driver.Driver.Types.{AccessType, AccessMode, StageRequest}
use nomad_csi_driver.Host.Mounts.{Host, History}
use nomad_csi_driver.Host.Calls.{Adds}
use nomad_csi_driver.Host.Wait.{Clock, wait, resolve_link}
use nomad_csi_driver.Host.Wait.Ends.{IsPaced, Ended, wait-Ended}
use nomad_csi_driver.Local.ExternalId.{ExternalId, print_id, valid_dataset}
use nomad_csi_driver.Local.Node.{
  LocalNode, NodeState, owner_key, resolve_volume_identity, stage_volume,
}
use nomad_csi_driver.Local.Node.Identity.{resolve_volume_identity-print}
use nomad_csi_driver.Local.Node.Staging.{StageCall, stage_volume-careful}
use nomad_csi_driver.Base.{All, some, pos}
use nomad_csi_driver.Go.Strings.{split, split_n}
use nomad_csi_driver.Go.Trim.{trim_space}
use nomad_csi_driver.Base.Map.{has, insert}
use nomad_csi_driver.Host.Mounts.{call}
use nomad_csi_driver.Host.MountTable.{list_mounts}
use nomad_csi_driver.Local.Params.{LocalConfig, PoolConfig, pool_by_name}
use nomad_csi_driver.Local.Backend.{validate_pools, scan_pools}
use nomad_csi_driver.Local.Backend.Pools.{IsFound, validate_pools-IsFound}
use nomad_csi_driver.Local.Staged.{
  Devices, spec_of, staged_volumes, collect, collect_one, dataset_of,
}
use nomad_csi_driver.Local.Staged.Distinct.{AreDistinct, staged_volumes-AreDistinct}
use nomad_csi_driver.Stats.Registry.{Config, Registry}

abbrev volume : ExternalId
volume = record { node = codes "n1"; dataset = codes "tank/nomad-csi/pvc-1" }

-- A host that answers every call with nothing.
abbrev pub quiet_host : Host
quiet_host = record { is_not_exist = λ e. false; answer = λ h c. ok [] }

abbrev pub steady_clock : History → Clock
steady_clock h = record { now = λ k. 300 * k; stopped = λ round. none }

steady-IsPaced : (h : History) → IsPaced (steady_clock h)
steady-IsPaced h = record { monotone = omega arith; paced = λ round e. omega arith }

wait-Ended_example :
    Ended
      (steady_clock [])
      (resolve_link quiet_host (codes "/dev/zvol/tank/x"))
      (wait steady_clock 1000 (resolve_link quiet_host (codes "/dev/zvol/tank/x")) []).0
      (wait steady_clock 1000 (resolve_link quiet_host (codes "/dev/zvol/tank/x")) []).1
wait-Ended_example =
    wait-Ended steady_clock 1000 (resolve_link quiet_host (codes "/dev/zvol/tank/x")) []
      (steady-IsPaced [])

-- The context has lost its dataset.
resolve_volume_identity-print_example :
    resolve_volume_identity (print_id volume) ((owner_key, codes "n1") ∷ [])
    ≡ ok (codes "tank/nomad-csi/pvc-1", codes "n1")
unfolding valid_dataset contains lookup text_beq
resolve_volume_identity-print_example =
    resolve_volume_identity-print volume ((owner_key, codes "n1") ∷ [])
      ((λ e. ground arith), ground arith) refl (inr refl) (inl refl)

abbrev pub stats_off : Config
stats_off = record { enabled = false; interval = 0; max_failure_backoff = 0; walk_interval = 0 }

abbrev pub empty_registry : Registry
empty_registry = record { vols = []; cache = []; absent = [] }

abbrev local_node : LocalNode
local_node = record {
  host = quiet_host;
  clocks = steady_clock;
  timeout = 1000;
  statfs = λ path. err plain;
  has_zfs = true;
  node_id = codes "n1";
  stats = stats_off;
}

abbrev stage_request : StageRequest
stage_request = record {
  volume_id = print_id volume;
  staging_target_path = codes "/stage";
  volume_capability = record {
    access_type = AccessType.mount;
    access_mode = AccessMode.single_node_writer;
    fs_type = codes "ext4";
    mount_flags = [];
  };
  volume_context = [];
  publish_context = [];
  secrets = [];
}

abbrev idle_node : NodeState
idle_node = record { history = []; registry = empty_registry }

stage_volume-careful_example :
    Adds
      (StageCall local_node stage_request)
      []
      (stage_volume local_node stage_request idle_node).1.history
stage_volume-careful_example = stage_volume-careful local_node stage_request idle_node

abbrev tank : PoolConfig
tank = record { name = codes "tank"; parent_dataset = []; reserve_percent = none }

abbrev one_pool : LocalConfig
one_pool = record {
  pools = tank ∷ [];
  default_pool = codes "tank";
  default_volblocksize = [];
  reserve_percent = pos 10;
}

validate_pools-IsFound_example :
    All (IsFound (tank ∷ [])) (tank ∷ [])
    × ((p : PoolConfig) × (pool_by_name one_pool (codes "tank") ≡ some p))
unfolding validate_pools scan_pools text_beq contains has lookup insert
validate_pools-IsFound_example = validate_pools-IsFound one_pool refl

-- One mount of the volume's device.
abbrev mounted_host : Host
mounted_host = record { is_not_exist = λ e. false; answer = λ h c. ok (codes "/stage /dev/zd0") }

abbrev zd0 : Devices
zd0 = (codes "/dev/zd0", codes "tank/nomad-csi/pvc-1") ∷ []

staged_volumes-AreDistinct_example :
    AreDistinct mounted_host
      (codes "n1")
      []
      (spec_of mounted_host (codes "n1") (codes "tank/nomad-csi/pvc-1") (codes "/stage") ∷ [])
unfolding staged_volumes list_mounts call collect dataset_of collect_one lookup split text_beq
    trim_space split_n has
staged_volumes-AreDistinct_example =
    staged_volumes-AreDistinct mounted_host (codes "n1") (λ h. zd0) []
      (spec_of mounted_host (codes "n1") (codes "tank/nomad-csi/pvc-1") (codes "/stage") ∷ []) refl
