-- ===== src/Qnap/Node.antt =====
-- internal/driver/qnap/node.go: the operations of the node. Logs and metrics are left out.
use nomad_csi_driver.Base.{
  ℤ, pos, Text, true, false, List, [], ◌∷◌, Option, none, some, codes, text_eq, ◌==◌, if◌then◌else◌,
}
use nomad_csi_driver.Driver.Errors.{ok, Io, pure, lift, ◌>>=◌, ◌>>◌}
use nomad_csi_driver.Driver.Types.{
  StageRequest, PublishRequest, UnpublishRequest, NodeExpandRequest, NodeInfo, VolumeStats,
}
use nomad_csi_driver.Driver.Backend.{NodeBackend}
use nomad_csi_driver.Host.Mounts.{History}
use nomad_csi_driver.Host.Mounts
use nomad_csi_driver.Host.Iscsi.{rescan}
use nomad_csi_driver.Host.StatFs.{stat_fs}
use nomad_csi_driver.Local.Capacity.{or_internal, internal_of}
use nomad_csi_driver.Local.Node.{is_block, stage_access_type, volume_stats}
use nomad_csi_driver.Qnap.Params.{get_or_empty, or_else}
use nomad_csi_driver.Qnap.Attach.{attach, ignored}
use nomad_csi_driver.Qnap.Teardown.{unstage_volume}
use nomad_csi_driver.Qnap.NodeState.{
  StageMeta, NodeState, QnapNode, portal_list, on_host, save_meta, load_meta,
}
use nomad_csi_driver.Stats.Registry.{track}

module _ (n : QnapNode) where
  unfoldable pub format_and_mount : StageRequest → Text → Io History (Unit {0})
  format_and_mount req dev =
      let fs_type =
        or_else (get_or_empty (codes "fsType") req.volume_context) req.volume_capability.fs_type in
      (do
        or_internal (Mounts.format_if_empty n.host dev fs_type [])
        or_internal (
            Mounts.mount n.host dev req.staging_target_path fs_type
              req.volume_capability.mount_flags))

  unfoldable pub stage_attached : StageRequest → Io NodeState (Unit {0})
  unfolding format_and_mount
  stage_attached req = do
    a ← attach n req.volume_id req.volume_context
    save_meta req.volume_id a.1
    if is_block req.volume_capability.access_type
        then pure tt
        else on_host (format_and_mount req a.0)

  track_volume : StageRequest → Io NodeState (Unit {0})
  track_volume req s = (
    ok tt,
    record s {
      registry =
          track n.stats n.node_id req.volume_id req.staging_target_path
            (stage_access_type req.volume_capability.access_type) s.registry;
    },
  )

  unfoldable pub stage_volume : StageRequest → Io NodeState (Unit {0})
  unfolding stage_attached track_volume
  stage_volume req = do stage_attached req; track_volume req

  unfoldable pub publish_volume : PublishRequest → Io NodeState (Unit {0})
  publish_volume req =
      if is_block req.volume_capability.access_type
      then (do
        a ← attach n req.volume_id req.volume_context
        on_host (or_internal (Mounts.bind_mount n.host a.0 req.target_path false req.readonly)))
      else on_host (
          or_internal
            (Mounts.bind_mount n.host req.staging_target_path req.target_path true req.readonly))

  unfoldable pub unpublish_volume : UnpublishRequest → Io NodeState (Unit {0})
  unpublish_volume req = on_host (or_internal (Mounts.unmount n.host req.target_path))

  rescan_all : Text → List Text → Io History (Unit {0})
  rescan_all iqn [] = pure tt
  rescan_all iqn (p ∷ ps) = do ignored (rescan n.host p iqn); rescan_all iqn ps

  rescan_if_known : Option StageMeta → Io NodeState (Unit {0})
  unfolding rescan_all
  rescan_if_known none = pure tt
  rescan_if_known (some m) =
      if m.iqn == [] then pure tt else on_host (rescan_all m.iqn (portal_list m))

  grow_filesystem : NodeExpandRequest → Io History ℤ
  grow_filesystem req = do
    dev ← or_internal (Mounts.source_device n.host req.volume_path)
    or_internal (Mounts.resize n.host dev req.volume_path req.volume_capability.fs_type)
    pure req.capacity_range.required_bytes

  unfoldable pub expand_volume : NodeExpandRequest → Io NodeState ℤ
  unfolding rescan_if_known grow_filesystem
  expand_volume req = do
    meta ← load_meta req.volume_id
    rescan_if_known meta
    if is_block req.volume_capability.access_type
        then pure req.capacity_range.required_bytes
        else on_host (grow_filesystem req)

  unfoldable pub get_info : Io NodeState NodeInfo
  get_info =
      pure
        (record { node_id = n.node_id; max_volumes_per_node = pos 0; accessible_topology = none })

  unfoldable pub get_volume_stats : Text → Text → Io NodeState VolumeStats
  get_volume_stats id path = do
    s ← lift (internal_of (stat_fs n.statfs path))
    pure (volume_stats s)

  abbrev pub qnap_node : NodeBackend NodeState
  qnap_node = record {
    stage_volume = stage_volume;
    unstage_volume = unstage_volume n;
    publish_volume = publish_volume;
    unpublish_volume = unpublish_volume;
    expand_volume = expand_volume;
    get_info = get_info;
    get_volume_stats = get_volume_stats;
  }
