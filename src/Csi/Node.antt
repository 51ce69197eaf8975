-- ===== src/Csi/Node.antt =====
-- internal/csi/node.go: the node service over the node half of a backend.
pub mod Serves
use nomad_csi_driver.Base.{
  ℤ, pos, Text, Bool, true, false, not, ◌||◌, List, [], ◌∷◌, ◌++◌, Option, none, some, text_eq,
  ◌==◌, if◌then◌else◌,
}
use nomad_csi_driver.Base.Map.{Map}
use nomad_csi_driver.Driver.Errors.{Code, Result, ok, Io, pure, lift, ◌>>=◌, ◌>>◌}
use nomad_csi_driver.Driver.Types.{
  AccessType, AccessMode, VolumeCapability, CapacityRange, Topology, NodeInfo, VolumeStats,
  Capabilities,
}
use nomad_csi_driver.Driver.Backend.{NodeBackend}
use nomad_csi_driver.Csi.Conv.{CsiCapability, to_volume_capability, to_capacity_range}
use nomad_csi_driver.Csi.Serving.{Server, guarded, locked, on_backend, when}

-- The requests of the node service.
pub data NodeRpc : Type 0 where
  node_stage :
      Text → Text → Option CsiCapability → Map Text Text → Map Text Text → Map Text Text → NodeRpc
  node_unstage : Text → Text → NodeRpc
  node_publish :
      Text → Text → Text → Option CsiCapability → Map Text Text → Map Text Text → Bool → NodeRpc
  node_unpublish : Text → Text → NodeRpc
  node_expand : Text → Text → Text → Option CapacityRange → Option CsiCapability → NodeRpc
  node_stats : Text → Text → NodeRpc
  node_capabilities : NodeRpc
  node_info : NodeRpc

-- `csipb.VolumeUsage_Unit`
pub data UsageUnit : Type 0 where
  bytes inodes : UsageUnit

-- `csipb.VolumeUsage`
pub record VolumeUsage : Type 0 where
  pub unit : UsageUnit
  pub total : ℤ
  pub used : ℤ
  pub available : ℤ

-- `csipb.NodeServiceCapability_RPC_Type`
pub data NodeRpcType : Type 0 where
  stage_unstage_volume expand_volume get_volume_stats : NodeRpcType

pub data NodeReply : Type 0 where
  node_done : NodeReply
  node_expanded : ℤ → NodeReply
  node_usage : List VolumeUsage → NodeReply
  node_capable : List NodeRpcType → NodeReply
  node_is : Text → ℤ → Option (Map Text Text) → NodeReply

-- `var cap driver.VolumeCapability`
abbrev pub no_capability : VolumeCapability
no_capability = record {
  access_type = AccessType.mount;
  access_mode = AccessMode.unknown;
  fs_type = [];
  mount_flags = [];
}

-- The capability of an expand may be absent.
abbrev pub optional_capability : Option CsiCapability → Result VolumeCapability
optional_capability none = ok no_capability
optional_capability (some c) = to_volume_capability (some c)

abbrev pub usages : VolumeStats → List VolumeUsage
usages st =
    record {
      unit = UsageUnit.bytes;
      total = st.total_bytes;
      used = st.used_bytes;
      available = st.available_bytes;
    }
    ∷ record {
      unit = UsageUnit.inodes;
      total = st.total_inodes;
      used = st.used_inodes;
      available = st.free_inodes;
    }
    ∷ []

abbrev pub info_reply : NodeInfo → NodeReply
info_reply i = node_is i.node_id i.max_volumes_per_node (segments_of i.accessible_topology)
  where
    segments_of : Option Topology → Option (Map Text Text)
    segments_of none = none
    segments_of (some t) = some t.segments

unfoldable pub supported_by_node : Capabilities → List NodeRpcType
supported_by_node c =
    when c.node_stage NodeRpcType.stage_unstage_volume
    ++ (when c.node_expand NodeRpcType.expand_volume
        ++ when c.node_volume_stats NodeRpcType.get_volume_stats)

module _ {S : Type 0} (node : NodeBackend S) (caps : Capabilities) where
  -- Both texts of a request are given.
  abbrev pub with_both : {A : Type 0} → Text → Text → Io (Server S) A → Io (Server S) A
  with_both id path m = guarded (not (id == [] || path == [])) Code.invalid_argument m

  unfoldable pub serve_node : NodeRpc → Io (Server S) NodeReply
  unfolding supported_by_node
  serve_node (node_stage id path c vctx pctx secrets) = guarded caps.node_stage Code.unimplemented (
      with_both id path (
        locked id (do
          vc ← lift (to_volume_capability c)
          node.stage_volume (record {
            volume_id = id;
            staging_target_path = path;
            volume_capability = vc;
            volume_context = vctx;
            publish_context = pctx;
            secrets = secrets;
          })
          pure node_done)))
  serve_node (node_unstage id path) = guarded caps.node_stage Code.unimplemented (
      with_both id path (
        locked id (do
          node.unstage_volume (record { volume_id = id; staging_target_path = path })
          pure node_done)))
  serve_node (node_publish id staging target c vctx pctx ro) = with_both id target (
      locked id (do
        vc ← lift (to_volume_capability c)
        node.publish_volume (record {
          volume_id = id;
          staging_target_path = staging;
          target_path = target;
          volume_capability = vc;
          volume_context = vctx;
          publish_context = pctx;
          readonly = ro;
        })
        pure node_done))
  serve_node (node_unpublish id target) = with_both id target (
      locked id (do
        node.unpublish_volume (record { volume_id = id; target_path = target })
        pure node_done))
  serve_node (node_expand id path staging range c) = guarded caps.node_expand Code.unimplemented (
      with_both id path (
        locked id (do
          vc ← lift (optional_capability c)
          n ← node.expand_volume (record {
            volume_id = id;
            volume_path = path;
            staging_target_path = staging;
            capacity_range = to_capacity_range range;
            volume_capability = vc;
          })
          pure (node_expanded n))))
  serve_node (node_stats id path) = guarded caps.node_volume_stats Code.unimplemented (
      with_both id path
        (on_backend (do st ← node.get_volume_stats id path; pure (node_usage (usages st)))))
  serve_node node_capabilities = pure (node_capable (supported_by_node caps))
  serve_node node_info = on_backend (do i ← node.get_info; pure (info_reply i))
