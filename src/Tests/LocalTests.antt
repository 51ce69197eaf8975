-- ===== src/Tests/LocalTests.antt =====
-- internal/driver/local: the theorems on ids and sizes at concrete inputs.
use nomad_csi_driver.Base.{[], ◌∷◌, none, ◌++◌, pos, ◌≡◌, refl, codes, text_beq, contains}
use nomad_csi_driver.Driver.Errors.{Code, coded, err}
use nomad_csi_driver.Driver.Types.{CapacityRange}
use nomad_csi_driver.Go.Strconv.{atoi}
use nomad_csi_driver.Go.Runes.{map_runes}
use nomad_csi_driver.Go.Strings.{split_n}
use nomad_csi_driver.Go.Trim.{trim_space}
use nomad_csi_driver.Local.ExternalId.{ExternalId, SnapshotId, parse_id, print_id, valid_dataset}
use nomad_csi_driver.Local.ExternalId.{sanitize_name}
use nomad_csi_driver.Local.Params.{LocalConfig, resolve_params}
use nomad_csi_driver.Local.Params.Allowed.{Grants, Allowed, resolve_params-Allowed}
use nomad_csi_driver.Local.Size.{round_up_to_block, panics}

abbrev volume : ExternalId
volume = record { node = codes "n1"; dataset = codes "tank/csi/pvc-1" }

abbrev snapshot : SnapshotId
snapshot = record { node = codes "n1"; dataset = codes "tank/csi/pvc-1"; snap_name = codes "s1" }

abbrev block_request : CapacityRange
block_request = record { required_bytes = pos 20000; limit_bytes = pos 0 }

-- 2^24 TiB wrap around to a block of no bytes, and rounding up to it panics.
block_wraps : round_up_to_block block_request (codes "16777216T") ≡ panics
unfolding round_up_to_block trim_space atoi text_beq
block_wraps = refl

abbrev local_config : LocalConfig
local_config = record {
  pools = record { name = codes "tank"; parent_dataset = []; reserve_percent = none } ∷ [];
  default_pool = codes "tank";
  default_volblocksize = [];
  reserve_percent = pos 10;
}

resolve_params-Allowed_example :
    Grants
      (Allowed local_config)
      (resolve_params local_config ((codes "fsType", codes "xfs") ∷ []) [])
resolve_params-Allowed_example =
    resolve_params-Allowed local_config ((codes "fsType", codes "xfs") ∷ []) []

-- A name with two dots in a row stays as it is, and no id with it is read back.
dots_kept : sanitize_name (codes "a..b") ≡ codes "a..b"
unfolding sanitize_name map_runes
dots_kept = refl

dots_refused :
    parse_id (
      print_id (record {
        node = codes "n1";
        dataset = codes "tank/nomad-csi/" ++ sanitize_name (codes "a..b");
      }))
    ≡ err (coded Code.invalid_argument)
unfolding parse_id print_id sanitize_name map_runes split_n valid_dataset contains text_beq
dots_refused = refl
