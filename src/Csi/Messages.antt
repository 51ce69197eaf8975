-- ===== src/Csi/Messages.antt =====
-- The CSI messages of the controller service, as internal/csi/controller.go reads them.
use nomad_csi_driver.Base.{ℤ, Text, Bool, List, Option}
use nomad_csi_driver.Base.Map.{Map}
use nomad_csi_driver.Driver.Errors.{Error}
use nomad_csi_driver.Driver.Types.{CapacityRange, Snapshot, SnapshotInfo}
use nomad_csi_driver.Csi.Conv.{CsiCapability, CsiSource}

pub record TopologyRequirement : Type 0 where
  pub requisite : List (Map Text Text)
  pub preferred : List (Map Text Text)

pub record CsiCreateVolume : Type 0 where
  pub name : Text
  pub capacity_range : Option CapacityRange
  pub volume_capabilities : List (Option CsiCapability)
  pub parameters : Map Text Text
  pub secrets : Map Text Text
  pub content_source : Option CsiSource
  pub accessibility : Option TopologyRequirement

pub record CsiVolume : Type 0 where
  pub volume_id : Text
  pub capacity_bytes : ℤ
  pub volume_context : Map Text Text
  pub accessible_topology : List (Map Text Text)
  pub content_source : Option CsiSource

-- The requests of the controller service.
pub data Rpc : Type 0 where
  create_volume : CsiCreateVolume → Rpc
  delete_volume : Text → Map Text Text → Rpc
  publish_volume : Text → Text → Option CsiCapability → Bool → Map Text Text → Map Text Text → Rpc
  unpublish_volume : Text → Text → Map Text Text → Rpc
  validate_capabilities : Text → List (Option CsiCapability) → Rpc
  get_capacity : Option (Map Text Text) → Map Text Text → Rpc
  create_snapshot : Text → Text → Map Text Text → Map Text Text → Rpc
  delete_snapshot : Text → Map Text Text → Rpc
  expand_volume : Text → Option CapacityRange → Map Text Text → Rpc
  list_volumes : Rpc
  list_snapshots : Text → Text → Rpc

pub data Reply : Type 0 where
  created : CsiVolume → Reply
  done : Reply
  published : Map Text Text → Reply
  confirmed : List (Option CsiCapability) → Reply
  not_confirmed : Error → Reply
  capacity : ℤ → Reply
  snapshotted : Snapshot → Reply
  expanded : ℤ → Bool → Reply
  volumes : List CsiVolume → Reply
  snapshots : List SnapshotInfo → Reply

-- The RPC types of `csipb.ControllerServiceCapability_RPC`.
pub data RpcType : Type 0 where
  create_delete_volume publish_unpublish_volume expand_volume : RpcType
  create_delete_snapshot clone_volume get_capacity list_volumes list_snapshots : RpcType
