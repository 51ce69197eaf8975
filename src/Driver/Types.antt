-- ===== src/Driver/Types.antt =====
-- internal/driver/types.go and capabilities.go: the transport-neutral requests and answers. An
-- instant is the number of seconds since the epoch, and `none` is Go's zero time.
use nomad_csi_driver.Base.{ℤ, Text, Bool, List, Option}
use nomad_csi_driver.Base.Map.{Map}

pub data AccessType : Type 0 where
  mount block : AccessType

pub data AccessMode : Type 0 where
  unknown single_node_writer single_node_reader_only : AccessMode

pub record VolumeCapability : Type 0 where
  pub access_type : AccessType
  pub access_mode : AccessMode
  pub fs_type : Text
  pub mount_flags : List Text

pub record CapacityRange : Type 0 where
  pub required_bytes : ℤ
  pub limit_bytes : ℤ

pub record Topology : Type 0 where
  pub segments : Map Text Text

pub record ContentSource : Type 0 where
  pub snapshot_id : Text
  pub volume_id : Text

pub record CreateVolumeRequest : Type 0 where
  pub name : Text
  pub capacity_range : CapacityRange
  pub volume_capabilities : List VolumeCapability
  pub parameters : Map Text Text
  pub secrets : Map Text Text
  pub content_source : Option ContentSource
  pub topology_requirement : List Topology

pub record Volume : Type 0 where
  pub volume_id : Text
  pub capacity_bytes : ℤ
  pub volume_context : Map Text Text
  pub accessible_topology : List Topology
  pub content_source : Option ContentSource

pub record CreateSnapshotRequest : Type 0 where
  pub source_volume_id : Text
  pub name : Text
  pub parameters : Map Text Text
  pub secrets : Map Text Text

pub record Snapshot : Type 0 where
  pub snapshot_id : Text
  pub source_volume_id : Text
  pub size_bytes : ℤ
  pub creation_time : Option ℤ
  pub ready_to_use : Bool

pub record VolumeInfo : Type 0 where
  pub volume_id : Text
  pub capacity_bytes : ℤ
  pub accessible_topology : List Topology

pub record SnapshotInfo : Type 0 where
  pub snapshot_id : Text
  pub source_volume_id : Text
  pub size_bytes : ℤ
  pub creation_time : Option ℤ
  pub ready_to_use : Bool

pub record StageRequest : Type 0 where
  pub volume_id : Text
  pub staging_target_path : Text
  pub volume_capability : VolumeCapability
  pub volume_context : Map Text Text
  pub publish_context : Map Text Text
  pub secrets : Map Text Text

pub record UnstageRequest : Type 0 where
  pub volume_id : Text
  pub staging_target_path : Text

pub record PublishRequest : Type 0 where
  pub volume_id : Text
  pub staging_target_path : Text
  pub target_path : Text
  pub volume_capability : VolumeCapability
  pub volume_context : Map Text Text
  pub publish_context : Map Text Text
  pub readonly : Bool

pub record UnpublishRequest : Type 0 where
  pub volume_id : Text
  pub target_path : Text

pub record NodeExpandRequest : Type 0 where
  pub volume_id : Text
  pub volume_path : Text
  pub staging_target_path : Text
  pub capacity_range : CapacityRange
  pub volume_capability : VolumeCapability

pub record NodeInfo : Type 0 where
  pub node_id : Text
  pub max_volumes_per_node : ℤ
  pub accessible_topology : Option Topology

pub record VolumeStats : Type 0 where
  pub total_bytes : ℤ
  pub used_bytes : ℤ
  pub available_bytes : ℤ
  pub total_inodes : ℤ
  pub used_inodes : ℤ
  pub free_inodes : ℤ

pub record Capabilities : Type 0 where
  pub create_delete : Bool
  pub publish_unpublish : Bool
  pub expand : Bool
  pub snapshot : Bool
  pub clone : Bool
  pub get_capacity : Bool
  pub list_volumes : Bool
  pub list_snapshots : Bool
  pub node_stage : Bool
  pub node_expand : Bool
  pub node_volume_stats : Bool
  pub expand_online : Bool
  pub topology : Bool
