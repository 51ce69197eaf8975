-- ===== src/Local/Wire.antt =====
-- internal/driver/local/forwardapi.go: what a request to a node carries, and its answer.
use nomad_csi_driver.Base.{ℤ, Text, Bool}

pub record CreateArgs : Type 0 where
  pub name : Text
  pub pool : Text
  pub size_bytes : ℤ
  pub volblocksize : Text
  pub fs_type : Text
  pub block : Bool
  pub content_snapshot_id : Text
  pub content_volume_id : Text

pub record CreateResult : Type 0 where
  pub volume_id : Text
  pub dataset : Text
  pub capacity_bytes : ℤ
  pub fs_type : Text

pub record ExpandArgs : Type 0 where
  pub volume_id : Text
  pub required_bytes : ℤ
  pub limit_bytes : ℤ

pub record SnapshotArgs : Type 0 where
  pub source_volume_id : Text
  pub name : Text

pub record SnapshotResult : Type 0 where
  pub snapshot_id : Text
  pub size_bytes : ℤ
  pub creation_unix : ℤ
  pub ready_to_use : Bool

pub record StatsResult : Type 0 where
  pub node : Text
  pub has_pool : Bool
  pub volume_count : ℤ
  pub free_bytes : ℤ
  pub avail_bytes : ℤ

pub record VolWire : Type 0 where
  pub volume_id : Text
  pub capacity_bytes : ℤ

pub record SnapWire : Type 0 where
  pub snapshot_id : Text
  pub source_volume_id : Text
  pub size_bytes : ℤ
  pub creation_unix : ℤ
  pub ready_to_use : Bool
