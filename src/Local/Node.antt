-- ===== src/Local/Node.antt =====
-- internal/driver/local/node.go: the node's operations on its own volumes. Logs and metrics are left
-- out.
pub mod Identity
pub mod Staging
use nomad_csi_driver.Base.{
  ℕ, ℤ, pos, Text, Bool, true, false, not, ◌&&◌, ◌||◌, List, [], ◌∷◌, ◌++◌, Option, none, some,
  codes, text_eq, ◌==◌, if◌then◌else◌,
}
use nomad_csi_driver.Base.Map.{Map, lookup}
use nomad_csi_driver.Driver.Errors.{
  Code, Error, coded, deadline_exceeded, Result, ok, err, Io, pure, fail, lift, attempt, ◌>>=◌,
  ◌>>◌,
}
use nomad_csi_driver.Driver.Types.{
  AccessType, StageRequest, UnstageRequest, PublishRequest, UnpublishRequest, NodeExpandRequest,
  NodeInfo, VolumeStats,
}
use nomad_csi_driver.Driver.Backend.{NodeBackend}
use nomad_csi_driver.Host.Mounts.{Host, History}
use nomad_csi_driver.Host.Mounts
use nomad_csi_driver.Host.Zfs.{pool_status, device_path}
use nomad_csi_driver.Host.StatFs.{StatfsT, stat_fs}
use nomad_csi_driver.Qnap.Params.{get_or_empty, or_else}
use nomad_csi_driver.Local.ExternalId.{ExternalId, parse_id, pool_of}
use nomad_csi_driver.Local.Capacity.{or_internal, internal_of}
use nomad_csi_driver.Local.Controller.{topology_key}
use nomad_csi_driver.Host.Wait.{Clock, os_wait_for_path}
use nomad_csi_driver.Stats.Reading.{FsStats}
use nomad_csi_driver.Stats.Registry.{Config, Registry, track, untrack}

-- What the node was told of its host, and the volumes that it measures.
pub record NodeState : Type 0 where
  pub history : History
  pub registry : Registry

-- `node`, with the operating system behind it; `has_zfs` is `n.z != nil`.
pub record LocalNode : Type 0 where
  pub host : Host
  pub clocks : History → Clock
  pub timeout : ℕ
  pub statfs : Text → Result StatfsT
  pub has_zfs : Bool
  pub node_id : Text
  pub stats : Config

abbrev pub dataset_key : Text
dataset_key = codes "dataset"

abbrev pub owner_key : Text
owner_key = codes "node"

abbrev pub fs_type_key : Text
fs_type_key = codes "fsType"

rebuilt : Text → Text → Result ExternalId → Result (Text × Text)
rebuilt dataset owner (ok eid) = ok (or_else dataset eid.dataset, or_else owner eid.node)
rebuilt dataset owner (err e) = err (coded Code.invalid_argument)

-- The dataset and the owner, from the context or else from the id.
unfoldable pub resolve_volume_identity : Text → Map Text Text → Result (Text × Text)
unfolding rebuilt
resolve_volume_identity id vctx =
    let dataset = get_or_empty dataset_key vctx in
    let owner = get_or_empty owner_key vctx in
    if not (dataset == []) && not (owner == [])
    then ok (dataset, owner)
    else rebuilt dataset owner (parse_id id)

abbrev pub is_block : AccessType → Bool
is_block AccessType.block = true
is_block AccessType.mount = false

abbrev pub stage_access_type : AccessType → Text
stage_access_type AccessType.block = codes "block"
stage_access_type AccessType.mount = codes "mount"

abbrev unavailable_of : {A : Type 0} → Result A → Result A
unavailable_of (ok a) = ok a
unavailable_of (err e) = err (coded Code.unavailable)

abbrev pub topology_of : Text → NodeInfo
topology_of node = record {
  node_id = node;
  max_volumes_per_node = pos 0;
  accessible_topology = some (record { segments = (topology_key, node) ∷ [] });
}

abbrev pub volume_stats : FsStats → VolumeStats
volume_stats s = record {
  total_bytes = s.total_bytes;
  used_bytes = s.used_bytes;
  available_bytes = s.available_bytes;
  total_inodes = s.total_inodes;
  used_inodes = s.used_inodes;
  free_inodes = s.free_inodes;
}

module _ (n : LocalNode) where
  unfoldable pub wait_for_path : Text → Io History Text
  unfolding os_wait_for_path
  wait_for_path path = os_wait_for_path n.host n.clocks n.timeout path

  unfoldable pub check_pool : Text → Io History (Unit {0})
  check_pool pool =
      if n.has_zfs
      then (do
        r ← attempt (pool_status n.host pool)
        status ← lift (unavailable_of r)
        if status.0 && status.1 then pure tt else fail (coded Code.failed_precondition))
      else pure tt

  -- What the device carries, where nothing says what it should.
  detected_or_empty : Result Text → Text
  detected_or_empty (ok fs) = fs
  detected_or_empty (err e) = []

  unfoldable pub choose_fs_type : Text → Text → Io History Text
  unfolding detected_or_empty
  choose_fs_type dev declared =
      if declared == []
      then (do r ← attempt (Mounts.detect_filesystem n.host dev); pure (detected_or_empty r))
      else pure declared

  unfoldable pub format_and_mount : StageRequest → Text → Io History (Unit {0})
  unfolding choose_fs_type
  format_and_mount req dev = do
    fs_type ←
        choose_fs_type dev
          (or_else (get_or_empty fs_type_key req.volume_context) req.volume_capability.fs_type)
    or_internal (Mounts.format_if_empty n.host dev fs_type [])
    or_internal
        (Mounts.mount n.host dev req.staging_target_path fs_type req.volume_capability.mount_flags)

  unfoldable pub stage_owned : StageRequest → Text → Io History (Unit {0})
  unfolding check_pool wait_for_path format_and_mount
  stage_owned req dataset = do
    check_pool (pool_of dataset)
    dev ← or_internal (wait_for_path (device_path dataset))
    if is_block req.volume_capability.access_type then pure tt else format_and_mount req dev

  unfoldable pub stage_body : StageRequest → Io History (Unit {0})
  unfolding resolve_volume_identity stage_owned
  stage_body req = do
    who ← lift (resolve_volume_identity req.volume_id req.volume_context)
    if who.1 == n.node_id then stage_owned req who.0 else fail (coded Code.failed_precondition)

  -- An operation on the host, and then on the registry if it succeeded.
  abbrev pub registered : Io History (Unit {0}) → (Registry → Registry) → Io NodeState (Unit {0})
  registered m f s =
      let (r, h) = m s.history in
      (r, record { history = h; registry = elim r [ ok _ ↦ f s.registry | err e ↦ s.registry ] })

  abbrev pub on_host : {A : Type 0} → Io History A → Io NodeState A
  on_host m s = let (r, h) = m s.history in (r, record s { history = h })

  unfoldable pub stage_volume : StageRequest → Io NodeState (Unit {0})
  unfolding stage_body
  stage_volume req = registered (stage_body req) (
      track n.stats n.node_id req.volume_id req.staging_target_path
        (stage_access_type req.volume_capability.access_type))

  unfoldable pub unstage_volume : UnstageRequest → Io NodeState (Unit {0})
  unstage_volume req =
      registered (or_internal (Mounts.unmount n.host req.staging_target_path))
        (untrack n.stats n.node_id req.volume_id)

  unfoldable pub publish_device : PublishRequest → Io History (Unit {0})
  unfolding resolve_volume_identity wait_for_path
  publish_device req = do
    who ← lift (resolve_volume_identity req.volume_id req.volume_context)
    dev ← or_internal (wait_for_path (device_path who.0))
    or_internal (Mounts.bind_mount n.host dev req.target_path false req.readonly)

  unfoldable pub publish_volume : PublishRequest → Io NodeState (Unit {0})
  unfolding publish_device
  publish_volume req = on_host (
      if is_block req.volume_capability.access_type
      then publish_device req
      else or_internal
          (Mounts.bind_mount n.host req.staging_target_path req.target_path true req.readonly))

  unfoldable pub unpublish_volume : UnpublishRequest → Io NodeState (Unit {0})
  unpublish_volume req = on_host (or_internal (Mounts.unmount n.host req.target_path))

  unfoldable pub grow_filesystem : NodeExpandRequest → Io History ℤ
  grow_filesystem req = do
    dev ← or_internal (Mounts.source_device n.host req.volume_path)
    or_internal (Mounts.resize n.host dev req.volume_path req.volume_capability.fs_type)
    pure req.capacity_range.required_bytes

  unfoldable pub expand_volume : NodeExpandRequest → Io NodeState ℤ
  unfolding grow_filesystem
  expand_volume req = on_host (
      if is_block req.volume_capability.access_type
      then pure req.capacity_range.required_bytes
      else grow_filesystem req)

  unfoldable pub get_info : Io NodeState NodeInfo
  get_info = pure (topology_of n.node_id)

  unfoldable pub get_volume_stats : Text → Text → Io NodeState VolumeStats
  get_volume_stats id path = do
    s ← lift (internal_of (stat_fs n.statfs path))
    pure (volume_stats s)

  abbrev pub local_node : NodeBackend NodeState
  local_node = record {
    stage_volume = stage_volume;
    unstage_volume = unstage_volume;
    publish_volume = publish_volume;
    unpublish_volume = unpublish_volume;
    expand_volume = expand_volume;
    get_info = get_info;
    get_volume_stats = get_volume_stats;
  }
