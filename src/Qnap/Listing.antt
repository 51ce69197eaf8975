-- ===== src/Qnap/Listing.antt =====
-- internal/driver/qnap/controller.go: GetCapacity, ListVolumes and ListSnapshots.
pub mod ReadOnly
use nomad_csi_driver.Base.{
  ℤ, pos, Text, Bool, List, [], ◌∷◌, ◌++◌, Option, none, some, codes, map, text_eq, ◌==◌,
  if◌then◌else◌,
}
use nomad_csi_driver.Base.Int.{leb_ℤ}
use nomad_csi_driver.Base.Map.{Map}
use nomad_csi_driver.Go.Strconv.{atoi}
use nomad_csi_driver.Driver.Errors.{Code, coded, Result, ok, err, Io, pure, fail, lift, ◌>>=◌, ◌>>◌}
use nomad_csi_driver.Driver.Types.{VolumeInfo, SnapshotInfo}
use nomad_csi_driver.Qnap.Appliance.{Client, Lun, Target, QnapSnapshot}
use nomad_csi_driver.Qnap.Cache.{LunCache, all_luns, target_for_lun}
use nomad_csi_driver.Qnap.ExternalId.{ExternalId, parse_id, print_id, print_snapshot_id}
use nomad_csi_driver.Qnap.Params.{QnapConfig, get_or_empty, invalid}
use nomad_csi_driver.Qnap.Session.{State, in_session}
use nomad_csi_driver.Qnap.Session
use nomad_csi_driver.Qnap.Controller.{mapped}
use nomad_csi_driver.Qnap.Assemble.{ensure_fresh}

-- The id of a LUN on a target; the target is its own if it has the LUN's name.
unfoldable pub listed_id : Lun → Target → ExternalId
listed_id l t = record {
  lun_index = l.index;
  target_index = t.index;
  own_target = t.alias == l.name;
  lun_name = l.name;
}

-- A LUN without a target is not a volume.
info_on : Lun → Option Target → List VolumeInfo → List VolumeInfo
unfolding listed_id
info_on l none rest = rest
info_on l (some t) rest =
    record {
      volume_id = print_id (listed_id l t);
      capacity_bytes = l.capacity_bytes;
      accessible_topology = [];
    }
    ∷ rest

unfoldable pub infos : LunCache → List Lun → List VolumeInfo
unfolding info_on
infos c [] = []
infos c (l ∷ ls) = info_on l (target_for_lun c l.index) (infos c ls)

-- `time.Parse(time.ANSIC, …)`, none for its zero time.
snapshot_infos : (Text → Option ℤ) → ℤ → Text → List QnapSnapshot → List SnapshotInfo
snapshot_infos parse_ansic lun src snaps =
    map
      (λ sn. record {
        snapshot_id = print_snapshot_id (record { lun_index = lun; snapshot_id = sn.id });
        source_volume_id = src;
        size_bytes = sn.size_bytes;
        creation_time = parse_ansic sn.created_at;
        ready_to_use = sn.ready;
      })
      snaps

module _ (cl : Client) (cfg : QnapConfig) (parse_ansic : Text → Option ℤ) where
  number_or_invalid : Option ℤ → Result ℤ
  number_or_invalid none = invalid
  number_or_invalid (some n) = ok n

  requested_pool : Text → Result ℤ
  unfolding number_or_invalid
  requested_pool v = if v == [] then ok cfg.default_pool_id else number_or_invalid (atoi v)

  unfoldable pub free_on_pool : ℤ → Io State ℤ
  free_on_pool n =
      if leb_ℤ n (pos 0)
      then fail (coded Code.invalid_argument)
      else mapped (in_session cl λ sess. Session.get_pool cl sess n)

  unfoldable pub get_capacity : Map Text Text → Io State ℤ
  unfolding requested_pool free_on_pool
  get_capacity params = do
    n ← lift (requested_pool (get_or_empty (codes "pool") params))
    free_on_pool n

  list_cached : Io State (List VolumeInfo)
  unfolding infos
  list_cached s = (ok (infos s.cache (all_luns s.cache)), s)

  unfoldable pub list_volumes : Io State (List VolumeInfo)
  unfolding list_cached
  list_volumes = do mapped (ensure_fresh cl cfg); list_cached

  unfoldable pub snapshots_for_lun : ℤ → Text → Io State (List SnapshotInfo)
  unfolding snapshot_infos
  snapshots_for_lun lun src = do
    snaps ← mapped (in_session cl λ sess. Session.list_snapshots cl sess lun)
    pure (snapshot_infos parse_ansic lun src snaps)

  on_target : Lun → Option Target → Io State (List SnapshotInfo)
  unfolding snapshots_for_lun listed_id
  on_target l none = pure []
  on_target l (some t) = snapshots_for_lun l.index (print_id (listed_id l t))

  snapshots_of : List Lun → Io State (List SnapshotInfo)
  unfolding on_target
  snapshots_of [] = pure []
  snapshots_of (l ∷ ls) = do
    here ← λ s. on_target l (target_for_lun s.cache l.index) s
    rest ← snapshots_of ls
    pure (here ++ rest)

  all_snapshots : Io State (List SnapshotInfo)
  unfolding snapshots_of
  all_snapshots s = snapshots_of (all_luns s.cache) s

  unfoldable pub list_snapshots : Text → Io State (List SnapshotInfo)
  unfolding all_snapshots snapshots_for_lun
  list_snapshots source =
      if source == []
      then (do mapped (ensure_fresh cl cfg); all_snapshots)
      else (do eid ← lift (parse_id source); snapshots_for_lun eid.lun_index source)
