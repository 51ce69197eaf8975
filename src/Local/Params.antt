-- ===== src/Local/Params.antt =====
-- internal/driver/local/params.go and internal/config/config.go: the settings of a local volume and the allowlist of pools.
pub mod Allowed
use nomad_csi_driver.Base.{
  ℤ, Text, Bool, true, false, ◌||◌, List, [], ◌∷◌, Option, none, some, codes, contains, nat_eq,
  text_eq, ◌==◌, if◌then◌else◌,
}
use nomad_csi_driver.Base.Map.{Map}
use nomad_csi_driver.Driver.Errors.{Code, coded, Result, ok, err, bind}
use nomad_csi_driver.Driver.Types.{AccessType, VolumeCapability}
use nomad_csi_driver.Qnap.Params.{get_or_empty, or_else, invalid}
use nomad_csi_driver.Local.Size.{parse_size_bytes}

pub record PoolConfig : Type 0 where
  pub name : Text
  pub parent_dataset : Text
  pub reserve_percent : Option ℤ

-- What `config.LocalConfig` gives to the controller.
pub record LocalConfig : Type 0 where
  pub pools : List PoolConfig
  pub default_pool : Text
  pub default_volblocksize : Text
  pub reserve_percent : ℤ

unfoldable pub find_pool : Text → List PoolConfig → Option PoolConfig
find_pool name [] = none
find_pool name (p ∷ ps) = if p.name == name then some p else find_pool name ps

unfoldable pub pool_by_name : LocalConfig → Text → Option PoolConfig
unfolding find_pool
pool_by_name c name = find_pool name c.pools

-- A pool's override of the percentage, else the global one.
override : Option ℤ → ℤ → ℤ
override none d = d
override (some r) d = r

unfoldable pub reserve_of : Option PoolConfig → ℤ → ℤ
unfolding override
reserve_of none d = d
reserve_of (some p) d = override p.reserve_percent d

unfoldable pub reserve_for : LocalConfig → Text → ℤ
unfolding reserve_of pool_by_name
reserve_for c name = reserve_of (pool_by_name c name) c.reserve_percent

pub record VolumeParams : Type 0 where
  pub fs_type : Text
  pub block : Bool
  pub volblocksize : Text
  pub host : Text
  pub pool : Text

-- The filesystems a volume may have.
unfoldable pub is_fs : Text → Bool
is_fs fs = fs == codes "ext4" || fs == codes "xfs"

checked_fs : Text → Result (Bool × Text)
unfolding is_fs
checked_fs fs = if is_fs fs then ok (false, fs) else invalid

wanted_fs : Map Text Text → Text → Text
wanted_fs p fs = or_else (get_or_empty (codes "fsType") p) (or_else fs (codes "ext4"))

fs_by_type : Map Text Text → AccessType → Text → Result (Bool × Text)
unfolding checked_fs wanted_fs
fs_by_type p AccessType.block fs = ok (true, [])
fs_by_type p AccessType.mount fs = checked_fs (wanted_fs p fs)

-- Whether the volume is a raw block device, and the filesystem if not.
unfoldable pub resolve_access : Map Text Text → List VolumeCapability → Result (Bool × Text)
unfolding fs_by_type
resolve_access p [] = fs_by_type p AccessType.mount []
resolve_access p (c ∷ _) = fs_by_type p c.access_type c.fs_type

sized_block : Text → Result ℤ → Result Text
sized_block v (ok n) = ok v
sized_block v (err e) = invalid

unfoldable pub resolve_volblocksize : LocalConfig → Map Text Text → Result Text
unfolding sized_block
resolve_volblocksize cfg p =
    let v =
      or_else (get_or_empty (codes "volblocksize") p)
        (or_else cfg.default_volblocksize (codes "16K")) in
    sized_block v (parse_size_bytes v)

known_pool : Text → Option PoolConfig → Result Text
known_pool v none = invalid
known_pool v (some c) = ok v

checked_pool : LocalConfig → Text → Result Text
unfolding known_pool
checked_pool cfg v = if contains v b'/' then invalid else known_pool v (pool_by_name cfg v)

unfoldable pub resolve_local_pool : LocalConfig → Map Text Text → Result Text
unfolding checked_pool
resolve_local_pool cfg p =
    checked_pool cfg (or_else (get_or_empty (codes "pool") p) cfg.default_pool)

unfoldable pub resolve_params :
    LocalConfig → Map Text Text → List VolumeCapability → Result VolumeParams
resolve_params cfg p caps = bind (resolve_access p caps) λ access.
    bind (resolve_volblocksize cfg p) λ size. bind (resolve_local_pool cfg p) λ pool. ok (record {
      fs_type = access.1;
      block = access.0;
      volblocksize = size;
      host = or_else (get_or_empty (codes "host") p) (codes "auto");
      pool = pool;
    })
