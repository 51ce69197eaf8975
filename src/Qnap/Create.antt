-- ===== src/Qnap/Create.antt =====
-- internal/driver/qnap/controller.go: CreateVolume.
pub mod Own
pub mod Calls
pub mod Steps
pub mod Rollback
use nomad_csi_driver.Base.{
  ℕ, ◌*◌, ◌/◌, ℤ, pos, Text, Bool, true, false, not, ◌&&◌, ◌||◌, List, [], ◌∷◌, ◌++◌, reverse,
  Option, none, some, codes, map, eqb, text_eq, int_eq, ◌==◌, if◌then◌else◌,
}
use nomad_csi_driver.Base.Int.{leb_ℤ, ltb_ℤ, pos_part}
use nomad_csi_driver.Base.Map.{Map, insert}
use nomad_csi_driver.Go.Strings.{join}
use nomad_csi_driver.Go.Strconv.{format_int}
use nomad_csi_driver.Driver.Errors.{
  Code, Error, coded, Result, ok, err, Io, pure, fail, lift, ◌>>=◌, ◌>>◌,
}
use nomad_csi_driver.Driver.Types.{ContentSource, CreateVolumeRequest, Volume}
use nomad_csi_driver.Qnap.Appliance.{
  Lun, Target, LunRequest, NewLun, fresh, from_snapshot, clone_of, Client,
}
use nomad_csi_driver.Qnap.Cache.{
  LunCache, is_fresh, refreshed, lookup_by_name, target_for_lun, add_lun,
}
use nomad_csi_driver.Qnap.ExternalId.{ExternalId, parse_id, parse_snapshot_id, print_id}
use nomad_csi_driver.Qnap.Params.{
  gib, QnapConfig, VolumeParams, abs_diff, resolve_params, size_gib_exact, sanitize_lun_name,
}
use nomad_csi_driver.Qnap.Session.{State, in_session, read_clock}
use nomad_csi_driver.Qnap.Session
use nomad_csi_driver.Qnap.Controller.{mapped, attempt}
use nomad_csi_driver.Qnap.Assemble.{ensure_fresh, assemble_volume}

-- The volume of an existing LUN, or an error.
abbrev pub existing_size : ℤ → ℕ → Bool
existing_size cap want = leb_ℤ (pos gib) (abs_diff cap (pos want))

module _ (cl : Client) (cfg : QnapConfig) where
  pub existing_on : VolumeParams → Text → ℕ → Lun → Option Target → Io State (Option Volume)
  unfolding assemble_volume
  existing_on vp name want lun none = fail (coded Code.internal)
  existing_on vp name want lun (some t) = do
    v ← assemble_volume cl cfg none vp lun.index t.index (t.alias == name) (want / gib)
    pure (some v)

  -- A create for a name that the cache knows.
  pub found_lun : VolumeParams → Text → ℕ → Lun → Io State (Option Volume)
  unfolding existing_on
  found_lun vp name want lun =
      if existing_size lun.capacity_bytes want then fail (coded Code.already_exists) else λ s.
      existing_on vp name want lun (target_for_lun s.cache lun.index) s

  pub reuse : VolumeParams → Text → ℕ → Option Lun → Io State (Option Volume)
  unfolding found_lun
  reuse vp name want none = pure none
  reuse vp name want (some lun) = found_lun vp name want lun

  pub lookup_found : VolumeParams → Text → ℕ → Io State (Option Volume)
  unfolding reuse
  lookup_found vp name want s = reuse vp name want (lookup_by_name s.cache name) s

  -- `want` is a whole number of GiB, in bytes.
  unfoldable pub find_existing_volume : Text → ℕ → VolumeParams → Io State (Option Volume)
  unfolding lookup_found
  find_existing_volume name want vp = do mapped (ensure_fresh cl cfg); lookup_found vp name want

  target_or_new : Text → Option ℤ → Io State (ℤ × Bool)
  target_or_new name (some i) = pure (i, false)
  target_or_new name none = do
    i ← mapped (in_session cl λ sess. Session.create_target cl sess name cfg.interfaces)
    pure (i, true)

  unfoldable pub resolve_target : Text → VolumeParams → Io State (ℤ × Bool)
  unfolding target_or_new
  resolve_target name vp = target_or_new name vp.target_index

  -- `growToRequested`; only the first of its errors is mapped.
  grow_body : ℤ → ℕ → ℕ → Io State (Unit {0})
  grow_body i n sess = do
    Session.resize_lun cl sess i n
    Session.wait_for_resize cl sess i (n * gib)

  unfoldable pub grow_to_requested : ℤ → ℕ → Io State (Unit {0})
  unfolding grow_body
  grow_to_requested i n = do
    lun ← mapped (in_session cl λ sess. Session.get_lun cl sess i)
    if leb_ℤ (pos (n * gib)) lun.capacity_bytes then pure tt else in_session cl (grow_body i n)

  create_mapped : LunRequest → Io State ℤ
  create_mapped r = mapped (in_session cl λ sess. Session.create_lun cl sess r)

  request : VolumeParams → Text → ℤ → NewLun → LunRequest
  request vp name target origin = record {
    origin = origin;
    name = name;
    pool_id = vp.pool_id;
    target_index = target;
  }

  pub copy_then_grow : VolumeParams → Text → ℤ → ℕ → NewLun → Io State ℤ
  unfolding create_mapped request
  copy_then_grow vp name target n origin = do
    i ← create_mapped (request vp name target origin)
    grow_to_requested i n
    pure i

  pub make_fresh : VolumeParams → Text → ℤ → ℕ → Io State ℤ
  unfolding create_mapped request
  make_fresh vp name target n =
      create_mapped (request vp name target (fresh n vp.sector_size vp.thin))

  unfoldable pub provision_lun : Option ContentSource → VolumeParams → Text → ℕ → ℤ → Io State ℤ
  unfolding copy_then_grow make_fresh
  provision_lun none vp name n target = make_fresh vp name target n
  provision_lun (some src) vp name n target =
      if not (src.snapshot_id == [])
      then (do
        sid ← lift (parse_snapshot_id src.snapshot_id)
        copy_then_grow vp name target n (from_snapshot sid.snapshot_id))
      else if not (src.volume_id == [])
      then (do
        eid ← lift (parse_id src.volume_id)
        copy_then_grow vp name target n (clone_of eid.lun_index))
      else make_fresh vp name target n

  unfoldable pub best_effort_delete_target : ℤ → Io State (Unit {0})
  best_effort_delete_target i = do
    r ← attempt (in_session cl λ sess. Session.delete_target cl sess i)
    pure tt

  -- The end of CreateVolume: the LUN, or the rollback of a target that was made for it.
  pub finish_create :
      Option ContentSource → VolumeParams → ℕ → ℤ → Bool → Result ℤ → Io State Volume
  unfolding best_effort_delete_target
  finish_create src vp n target own (ok lun) = assemble_volume cl cfg src vp lun target own n
  finish_create src vp n target own (err e) = do
    if own then best_effort_delete_target target else pure tt
    fail e

  pub create_new : CreateVolumeRequest → VolumeParams → Text → ℕ → Io State Volume
  unfolding finish_create
  create_new r vp name n = do
    t ← resolve_target name vp
    lun ← attempt (provision_lun r.content_source vp name n t.0)
    finish_create r.content_source vp n t.0 t.1 lun

  abbrev or_create : Option Volume → Io State Volume → Io State Volume
  or_create (some v) m = pure v
  or_create none m = m

  unfoldable pub create_volume : CreateVolumeRequest → Io State Volume
  unfolding create_new
  create_volume r = do
    vp ← lift (resolve_params cfg r.parameters r.volume_capabilities)
    n ← lift (size_gib_exact r.capacity_range)
    existing ← find_existing_volume (sanitize_lun_name r.name) (n * gib) vp
    or_create existing (create_new r vp (sanitize_lun_name r.name) n)
