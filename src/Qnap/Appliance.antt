-- ===== src/Qnap/Appliance.antt =====
-- The go-qnap library behind `Client` of internal/driver/qnap/client.go. The appliance is a
-- parameter: each answer is any function of what was asked and answered before, so it may change
-- by itself, reuse an index, or fail at any call. The calls are recorded, the latest first.
use nomad_csi_driver.Base.{ℕ, ℤ, Text, Bool, List}
use nomad_csi_driver.Driver.Errors.{Result}

pub record Lun : Type 0 where
  pub index : ℤ
  pub name : Text
  pub capacity_bytes : ℤ

pub record Target : Type 0 where
  pub index : ℤ
  pub iqn : Text
  pub alias : Text
  pub luns : List ℤ

pub record QnapSnapshot : Type 0 where
  pub id : ℤ
  pub created_at : Text
  pub size_bytes : ℤ
  pub ready : Bool

-- How a LUN is made: fresh with a size in GiB, from a snapshot, or from another LUN.
pub data NewLun : Type 0 where
  fresh : ℕ → ℤ → Bool → NewLun
  from_snapshot clone_of : ℤ → NewLun

pub record LunRequest : Type 0 where
  pub origin : NewLun
  pub name : Text
  pub pool_id : ℤ
  pub target_index : ℤ

pub data Event : Type 0 where
  logged_in : Result ℕ → Event
  clock : ℕ → Event
  got_lun : ℤ → Result Lun → Event
  got_target : ℤ → Result Target → Event
  listed_luns : Result (List Lun) → Event
  listed_targets : Result (List Target) → Event
  listed_snapshots : ℤ → Result (List QnapSnapshot) → Event
  got_pool : ℤ → Result ℤ → Event
  created_lun : LunRequest → Result ℤ → Event
  created_target : Text → List ℤ → Result ℤ → Event
  unmapped_lun : ℤ → ℤ → Result (Unit {0}) → Event
  deleted_lun : ℤ → Result (Unit {0}) → Event
  awaited_lun_gone : ℤ → Result (Unit {0}) → Event
  resized_lun : ℤ → ℕ → Result (Unit {0}) → Event
  awaited_resize : ℤ → ℕ → Result (Unit {0}) → Event
  deleted_target : ℤ → Result (Unit {0}) → Event
  created_snapshot : ℤ → Text → Result QnapSnapshot → Event
  deleted_snapshot : ℤ → Result (Unit {0}) → Event
  awaited_snapshot_gone : ℤ → ℤ → Result (Unit {0}) → Event

abbrev pub History : Type 0
History = List Event

-- A session is a number, and 0 is Go's zero value; `valid` is goqnap's `Session.Valid`.
pub record Client : Type 0 where
  pub valid : ℕ → Bool
  pub login : History → Result ℕ
  pub now : History → ℕ
  pub get_lun : History → ℕ → ℤ → Result Lun
  pub get_target : History → ℕ → ℤ → Result Target
  pub list_luns : History → ℕ → Result (List Lun)
  pub list_targets : History → ℕ → Result (List Target)
  pub list_snapshots : History → ℕ → ℤ → Result (List QnapSnapshot)
  pub get_pool : History → ℕ → ℤ → Result ℤ
  pub create_lun : History → ℕ → LunRequest → Result ℤ
  pub create_target : History → ℕ → Text → List ℤ → Result ℤ
  pub unmap_lun : History → ℕ → ℤ → ℤ → Result (Unit {0})
  pub delete_lun : History → ℕ → ℤ → Result (Unit {0})
  pub wait_for_lun_gone : History → ℕ → ℤ → Result (Unit {0})
  pub resize_lun : History → ℕ → ℤ → ℕ → Result (Unit {0})
  pub wait_for_resize : History → ℕ → ℤ → ℕ → Result (Unit {0})
  pub delete_target : History → ℕ → ℤ → Result (Unit {0})
  pub create_snapshot : History → ℕ → ℤ → Text → Result QnapSnapshot
  pub delete_snapshot : History → ℕ → ℤ → Result (Unit {0})
  pub wait_for_snapshot_gone : History → ℕ → ℤ → ℤ → Result (Unit {0})
