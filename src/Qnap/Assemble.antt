-- ===== src/Qnap/Assemble.antt =====
-- internal/driver/qnap/controller.go: the cache kept fresh, and the answer for a LUN and its target.
use nomad_csi_driver.Base.{
  ℕ, ◌*◌, ℤ, pos, Text, Bool, true, false, List, [], ◌∷◌, ◌++◌, reverse, Option, codes, map, eqb,
  text_eq, int_eq, ◌==◌, if◌then◌else◌,
}
use nomad_csi_driver.Go.Strings.{join}
use nomad_csi_driver.Go.Strconv.{format_int}
use nomad_csi_driver.Driver.Errors.{ok, Io, pure, ◌>>=◌, ◌>>◌}
use nomad_csi_driver.Driver.Types.{ContentSource, Volume}
use nomad_csi_driver.Qnap.Appliance.{Lun, Target, Client}
use nomad_csi_driver.Qnap.Cache.{LunCache, is_fresh, refreshed, add_lun}
use nomad_csi_driver.Qnap.ExternalId.{print_id}
use nomad_csi_driver.Qnap.Params.{gib, QnapConfig, VolumeParams}
use nomad_csi_driver.Qnap.Session.{State, in_session, read_clock}
use nomad_csi_driver.Qnap.Session
use nomad_csi_driver.Qnap.Controller.{mapped}

-- The bytes from the right, up to the first colon or bracket.
has_port_rev : Text → Bool
has_port_rev [] = false
has_port_rev (c ∷ s) =
    let rest = has_port_rev s in if eqb c b':' then true else if eqb c b']' then false else rest

unfoldable pub portals : QnapConfig → List Text
unfolding has_port_rev
portals cfg = map (λ p. if has_port_rev (reverse p) then p else p ++ codes ":3260") cfg.portal_list

module _ (cl : Client) (cfg : QnapConfig) where
  unfoldable pub fetch_all : ℕ → Io State (List Lun × List Target)
  fetch_all sess = do
    luns ← Session.list_luns cl sess
    targets ← Session.list_targets cl sess
    pure (luns, targets)

  unfoldable pub store_refreshed : List Lun × List Target → ℕ → Io State (Unit {0})
  store_refreshed (luns, targets) now s =
      (ok tt, record s { cache = refreshed s.cache luns targets now })

  -- `c.loaded && c.now().Sub(c.lastRefresh) < c.ttl`: the clock is read only once the cache is loaded.
  unfoldable pub fresh_by_clock : LunCache → Bool → Io State Bool
  fresh_by_clock c true = do n ← read_clock cl; pure (is_fresh c n)
  fresh_by_clock c false = pure false

  unfoldable pub cache_is_fresh : Io State Bool
  unfolding fresh_by_clock
  cache_is_fresh s = fresh_by_clock s.cache s.cache.loaded s

  -- `c.cache.ensureFresh(c.cacheRefresh(ctx))`
  unfoldable pub ensure_fresh : Io State (Unit {0})
  unfolding fetch_all store_refreshed cache_is_fresh
  ensure_fresh = do
    current ← cache_is_fresh
    if current
        then pure tt
        else do lists ← in_session cl fetch_all; now ← read_clock cl; store_refreshed lists now

  -- The answer for a LUN and its target: ids, size and attach information.
  volume_of : Option ContentSource → VolumeParams → ℤ → ℤ → Bool → ℕ → Lun → Target → Volume
  volume_of src vp lun_idx target_idx own n lun tgt = record {
    volume_id = print_id (record {
      lun_index = lun_idx;
      target_index = target_idx;
      own_target = own;
      lun_name = lun.name;
    });
    capacity_bytes = if lun.capacity_bytes == pos 0 then pos (n * gib) else lun.capacity_bytes;
    volume_context =
        (codes "portal", join b',' (portals cfg))
        ∷ (codes "iqn", tgt.iqn)
        ∷ (codes "lun", codes "0")
        ∷ (codes "lunIndex", format_int lun_idx)
        ∷ (if vp.block then [] else (codes "fsType", vp.fs_type) ∷ []);
    accessible_topology = [];
    content_source = src;
  }

  unfoldable pub fetch_both : ℤ → ℤ → ℕ → Io State (Lun × Target)
  fetch_both lun_idx target_idx sess = do
    lun ← Session.get_lun cl sess lun_idx
    tgt ← Session.get_target cl sess target_idx
    pure (lun, tgt)

  unfoldable pub warm : Lun × Target → Io State (Unit {0})
  warm (lun, tgt) s = (ok tt, record s { cache = add_lun s.cache lun tgt })

  unfoldable pub assemble_volume :
      Option ContentSource → VolumeParams → ℤ → ℤ → Bool → ℕ → Io State Volume
  unfolding fetch_both warm volume_of
  assemble_volume src vp lun_idx target_idx own n = do
    both ← mapped (in_session cl (fetch_both lun_idx target_idx))
    warm both
    pure (volume_of src vp lun_idx target_idx own n both.0 both.1)
