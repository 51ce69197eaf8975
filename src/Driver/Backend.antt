-- ===== src/Driver/Backend.antt =====
-- internal/driver/driver.go: the controller and node halves of a backend, as records of operations
-- over a state of the backend's own.
use nomad_csi_driver.Base.{ℤ, Text, Bool, List}
use nomad_csi_driver.Base.Map.{Map}
use nomad_csi_driver.Driver.Errors.{Io}
use nomad_csi_driver.Driver.Types.{
  VolumeCapability, CapacityRange, Topology, CreateVolumeRequest, Volume, CreateSnapshotRequest,
  Snapshot, VolumeInfo, SnapshotInfo, StageRequest, UnstageRequest, PublishRequest,
  UnpublishRequest, NodeExpandRequest, NodeInfo, VolumeStats,
}

pub record ControllerBackend (S : Type 0) : Type 0 where
  pub create_volume : CreateVolumeRequest → Io S Volume
  pub delete_volume : Text → Map Text Text → Io S (Unit {0})
  pub volume_exists : Text → Io S Bool
  pub expand_volume : Text → CapacityRange → Map Text Text → Io S (ℤ × Bool)
  pub publish_volume :
      Text → Text → VolumeCapability → Bool → Map Text Text → Map Text Text → Io S (Map Text Text)
  pub unpublish_volume : Text → Text → Map Text Text → Io S (Unit {0})
  pub create_snapshot : CreateSnapshotRequest → Io S Snapshot
  pub delete_snapshot : Text → Map Text Text → Io S (Unit {0})
  pub get_capacity : List Topology → Map Text Text → Io S ℤ
  pub list_volumes : Io S (List VolumeInfo)
  pub list_snapshots : Text → Io S (List SnapshotInfo)

pub record NodeBackend (S : Type 0) : Type 0 where
  pub stage_volume : StageRequest → Io S (Unit {0})
  pub unstage_volume : UnstageRequest → Io S (Unit {0})
  pub publish_volume : PublishRequest → Io S (Unit {0})
  pub unpublish_volume : UnpublishRequest → Io S (Unit {0})
  pub expand_volume : NodeExpandRequest → Io S ℤ
  pub get_info : Io S NodeInfo
  pub get_volume_stats : Text → Text → Io S VolumeStats
