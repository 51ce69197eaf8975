-- ===== src/Local/Placement.antt =====
-- internal/driver/local/controller.go: the node of a new volume.
pub mod Roomiest
use nomad_csi_driver.Base.{
  ℤ, pos, negsuc, ◌^◌, ◌-◌, Text, Bool, true, false, not, ◌&&◌, ◌||◌, List, [], ◌∷◌, Option, none,
  some, codes, contains, eqb, ltb, text_eq, int_eq, ◌==◌, if◌then◌else◌,
}
use nomad_csi_driver.Base.Int.{ltb_ℤ}
use nomad_csi_driver.Driver.Errors.{Code, coded, Result, ok, err, bind}
use nomad_csi_driver.Driver.Types.{ContentSource}
use nomad_csi_driver.Local.ExternalId.{ExternalId, SnapshotId, parse_id, parse_snapshot_id}
use nomad_csi_driver.Local.Wire.{StatsResult}
use nomad_csi_driver.Local.Params.{VolumeParams}

-- Go's order of strings.
unfoldable pub text_ltb : Text → Text → Bool
text_ltb [] [] = false
text_ltb [] (y ∷ t) = true
text_ltb (x ∷ s) [] = false
text_ltb (x ∷ s) (y ∷ t) = ltb x y || (eqb x y && text_ltb s t)

-- The node in the lead, what it has available, and its number of volumes.
pub record Best : Type 0 where
  pub node : Text
  pub avail : ℤ
  pub count : ℤ

abbrev pub no_best : Best
no_best = record { node = []; avail = negsuc 0; count = pos (2 ^ 63 - 1) }

-- A pool that is online, with room for the size after its reserve.
unfoldable pub fits : ℤ → StatsResult → Bool
fits size st = st.has_pool && not (ltb_ℤ st.avail_bytes size)

unfoldable pub better : Best → Text → StatsResult → Bool
unfolding text_ltb
better b node st =
    ltb_ℤ b.avail st.avail_bytes
    || (st.avail_bytes == b.avail && ltb_ℤ st.volume_count b.count)
    || (st.avail_bytes == b.avail && st.volume_count == b.count && text_ltb node b.node)

unfoldable pub consider : ℤ → Best → Text → Result StatsResult → Best
unfolding fits better
consider size b node (err e) = b
consider size b node (ok st) =
    if fits size st && better b node st
    then record { node = node; avail = st.avail_bytes; count = st.volume_count }
    else b

module _ (stats_for : Text → Result StatsResult) where
  unfoldable pub scan_peers : ℤ → List Text → Best → Best
  unfolding consider
  scan_peers size [] b = b
  scan_peers size (p ∷ ps) b = scan_peers size ps (consider size b p (stats_for p))

-- The nodes that answer, and what each tells of the pool.
module _ (peers : Result (List Text)) (stats_for : Text → Result StatsResult) where
  chosen : Best → Result Text
  chosen b = if b.node == [] then err (coded Code.unavailable) else ok b.node

  unfoldable pub pick_among : ℤ → Result (List Text) → Result Text
  unfolding scan_peers chosen
  pick_among size (err e) = err (coded Code.unavailable)
  pick_among size (ok []) = err (coded Code.unavailable)
  pick_among size (ok (p ∷ ps)) = chosen (scan_peers stats_for size (p ∷ ps) no_best)

  unfoldable pub pick_roomiest : ℤ → Result Text
  unfolding pick_among
  pick_roomiest size = pick_among size peers

  validate_among : Text → Result (List Text) → Result (Unit {0})
  validate_among node (err e) = err (coded Code.unavailable)
  validate_among node (ok ps) =
      if contains ps node then ok tt else err (coded Code.invalid_argument)

  unfoldable pub validate_node : Text → Result (Unit {0})
  unfolding validate_among
  validate_node node = validate_among node peers

  with_pool : Text → Result StatsResult → Result Text
  with_pool node (err e) = err (coded Code.unavailable)
  with_pool node (ok st) = if st.has_pool then ok node else err (coded Code.invalid_argument)

  on_host : VolumeParams → ℤ → Result Text
  unfolding pick_roomiest validate_node with_pool
  on_host vp size =
      if vp.host == codes "auto"
      then pick_roomiest size
      else bind (validate_node vp.host) λ _. with_pool vp.host (stats_for vp.host)

  -- A copy stays on the node of its source.
  unfoldable pub place_volume : VolumeParams → ℤ → Option ContentSource → Result Text
  unfolding on_host
  place_volume vp size none = on_host vp size
  place_volume vp size (some src) =
      if not (src.snapshot_id == [])
      then (bind (parse_snapshot_id src.snapshot_id) λ sid. ok sid.node)
      else if not (src.volume_id == [])
      then (bind (parse_id src.volume_id) λ eid. ok eid.node)
      else on_host vp size
