-- ===== src/Qnap/Teardown.antt =====
-- internal/driver/qnap/node.go: UnstageVolume, with the identity that it finds and the guards before it
-- detaches. Logs and metrics are left out.
pub mod LastLun
pub mod Finds
pub mod InUse
pub mod Detach
pub mod Unstage
use nomad_csi_driver.Base.{
  ℕ, ℤ, pos, negsuc, Text, Bool, true, false, not, ◌&&◌, ◌||◌, List, [], ◌∷◌, ◌++◌, Option, none,
  some, map, length, eqb, codes, contains, text_eq, int_eq, ◌==◌, if◌then◌else◌,
}
use nomad_csi_driver.Base.Map.{Map, insert, has}
use nomad_csi_driver.Driver.Errors.{
  Code, Error, coded, Result, ok, err, Io, pure, fail, lift, attempt, ◌>>=◌, ◌>>◌,
}
use nomad_csi_driver.Driver.Types.{UnstageRequest}
use nomad_csi_driver.Go.Path.{base}
use nomad_csi_driver.Go.Strings.{has_prefix}
use nomad_csi_driver.Go.Order.{sorted_keys}
use nomad_csi_driver.Host.Mounts.{Host, History, source_device, unmount}
use nomad_csi_driver.Host.MountTable.{Mount, list_mounts}
use nomad_csi_driver.Host.Iscsi.{Session, list_sessions, logout}
use nomad_csi_driver.Host.Multipath.{map_wwid, members, mapper_path, flush_map}
use nomad_csi_driver.Local.Capacity.{or_internal}
use nomad_csi_driver.Qnap.ExternalId.{ExternalId, parse_id}
use nomad_csi_driver.Qnap.Portal.{normalize_portal, our_portals, portal_owned}
use nomad_csi_driver.Qnap.SanCache.{resolve_iqn}
use nomad_csi_driver.Qnap.Attach.{ignored, log_out}
use nomad_csi_driver.Qnap.NodeState.{
  StageMeta, NodeState, QnapNode, portal_list, on_host, on_san, load_meta, delete_meta,
}
use nomad_csi_driver.Stats.Registry.{untrack}

abbrev pub or_none : {S A : Type 0} → Io S (Option A) → Io S (Option A)
or_none m s = let (r, s') = m s in (elim r [ ok o ↦ ok o | err e ↦ ok none ], s')

-- What the loops over the sessions collect: the latest session that fits, and all portals.
pub record Matched : Type 0 where
  pub latest : Option Session
  pub portals : Map Text (Unit {0})

unfoldable pub matched : (Session → Bool) → List Session → Matched → Matched
matched fits [] m = m
matched fits (s ∷ ss) m = matched fits ss (
    if fits s
    then record { latest = some s; portals = insert (normalize_portal s.portal) tt m.portals }
    else m)

abbrev no_match : Matched
no_match = record { latest = none; portals = [] }

meta_of : Text → Session → Map Text (Unit {0}) → StageMeta
unfolding sorted_keys
meta_of wwid s portals = record {
  portals = sorted_keys portals;
  portal = [];
  iqn = s.iqn;
  lun_number = s.lun;
  wwid = wwid;
}

-- The identity of a device, if a session was matched to it.
unfoldable pub correlated : Text → Matched → Option StageMeta
unfolding meta_of
correlated wwid m = elim m.latest [
  | none ↦ none
  | some s ↦ if s.iqn == [] then none else some (meta_of wwid s m.portals)
]

or_empty : {A : Type 0} → Result (List A) → List A
or_empty (ok xs) = xs
or_empty (err e) = []

text_or_empty : Result Text → Text
text_or_empty (ok t) = t
text_or_empty (err e) = []

-- The LUNs of a target on this host, as a set.
unfoldable pub luns_of : Text → List Session → Map ℤ (Unit {0}) → Map ℤ (Unit {0})
luns_of iqn [] m = m
luns_of iqn (s ∷ ss) m = luns_of iqn ss (if s.iqn == iqn then insert s.lun tt m else m)

-- No LUN, or this one alone.
unfoldable pub is_only : ℤ → Map ℤ (Unit {0}) → Bool
is_only lun [] = true
is_only lun (e ∷ es) = eqb (length (e ∷ es)) 1 && has lun (e ∷ es)

module _ (n : QnapNode) where
  -- The map that is mounted, and its paths; or the device itself.
  backing : Text → Io History (Text × List Text)
  unfolding or_empty
  backing dev =
      if has_prefix (codes "/dev/mapper/") dev
      then (do r ← attempt (members n.host (base dev)); pure (base dev, map base (or_empty r)))
      else pure ([], base dev ∷ [])

  unfoldable pub reconstruct_from_mount : Text → Io History (Option StageMeta)
  unfolding backing correlated matched
  reconstruct_from_mount path = or_none (do
    dev ← source_device n.host path
    sessions ← list_sessions n.host
    b ← backing dev
    pure (
        correlated b.0 (
          matched
            (λ s. contains b.1 (base s.device) && portal_owned s.portal (our_portals n.portals))
            sessions no_match)))

  device_wwid : Text → Io History Text
  unfolding text_or_empty
  device_wwid dev =
      if n.use_multipath && not (dev == [])
      then (do r ← attempt (map_wwid n.host dev); pure (text_or_empty r))
      else pure []

  -- A LUN number below zero says that no session was matched.
  is_attached : Option Session → Bool
  is_attached none = false
  is_attached (some s) = elim s.lun [ pos l ↦ true | negsuc l ↦ false ]

  device_of : Option Session → Text
  device_of none = []
  device_of (some s) = s.device

  grounded : Text → Matched → Io History (Option StageMeta)
  unfolding meta_of device_wwid is_attached device_of
  grounded iqn m =
      if is_attached m.latest
      then (do
        w ← device_wwid (device_of m.latest)
        pure (elim m.latest [ none ↦ none | some s ↦ some (meta_of w s m.portals) ]))
      else pure none

  in_sessions : Text → Io History (Option StageMeta)
  unfolding grounded matched
  in_sessions iqn = or_none (do
    sessions ← list_sessions n.host
    grounded iqn (
        matched (λ s. s.iqn == iqn && portal_owned s.portal (our_portals n.portals)) sessions
          no_match))

  by_target : Option Text → Io NodeState (Option StageMeta)
  unfolding in_sessions
  by_target none = pure none
  by_target (some iqn) = on_host (in_sessions iqn)

  from_id : Result ExternalId → Io NodeState (Option StageMeta)
  unfolding by_target
  from_id (err e) = pure none
  from_id (ok eid) = do iqn ← on_san (resolve_iqn n.client n.san_ttl eid); by_target iqn

  unfoldable pub reconstruct_from_san : Text → Io NodeState (Option StageMeta)
  unfolding from_id
  reconstruct_from_san id = if n.has_san then from_id (parse_id id) else pure none

  or_try : Option StageMeta → Io NodeState (Option StageMeta) → Io NodeState (Option StageMeta)
  or_try none next = next
  or_try (some m) next = pure (some m)

  unfoldable pub resolve_teardown : Text → Text → Io NodeState (Option StageMeta)
  unfolding reconstruct_from_mount reconstruct_from_san or_try
  resolve_teardown id path = do
    cached ← load_meta id
    or_try cached (do
      mounted ← on_host (reconstruct_from_mount path)
      or_try mounted (reconstruct_from_san id))

  -- A mount that is not the one to tear down uses the device.
  unfoldable pub uses : Text → Text → List Mount → Bool
  uses path mapper [] = false
  uses path mapper (m ∷ ms) =
      (not (m.target == path) && (m.source == path || (not (mapper == []) && m.source == mapper)))
      || uses path mapper ms

  abbrev mapper_of : StageMeta → Text
  mapper_of m = if m.wwid == [] then [] else mapper_path m.wwid

  held_by : Option (Text → Result Bool) → Text → Bool
  held_by none dev = false
  held_by (some f) dev = elim (f dev) [ ok b ↦ b | err e ↦ false ]

  is_held : Text → Io History Bool
  unfolding held_by
  is_held dev h = (ok (not (dev == []) && held_by (n.holders h) dev), h)

  unfoldable pub device_in_use : Text → StageMeta → Io History Bool
  unfolding uses is_held
  device_in_use path m = do
    mounts ← list_mounts n.host
    if uses path (mapper_of m) mounts then pure true else is_held (mapper_of m)

  in_use_or : Result Bool → Io History (Unit {0})
  in_use_or (ok true) = fail (coded Code.failed_precondition)
  in_use_or (ok false) = pure tt
  in_use_or (err e) = pure tt

  unfoldable pub refuse_in_use : Text → Option StageMeta → Io History (Unit {0})
  unfolding device_in_use in_use_or
  refuse_in_use path none = pure tt
  refuse_in_use path (some m) = do r ← attempt (device_in_use path m); in_use_or r

  only_or : ℤ → Result (List Session) → Text → Bool
  only_or lun (ok ss) iqn = is_only lun (luns_of iqn ss [])
  only_or lun (err e) iqn = true

  unfoldable pub last_lun_on_target : Text → ℤ → Io History Bool
  unfolding only_or luns_of is_only
  last_lun_on_target iqn lun = do r ← attempt (list_sessions n.host); pure (only_or lun r iqn)

  log_out_if_last : StageMeta → Io History (Unit {0})
  unfolding last_lun_on_target
  log_out_if_last m = do
    last ← last_lun_on_target m.iqn m.lun_number
    if last then log_out n m.iqn (portal_list m) else pure tt

  unfoldable pub detach : Option StageMeta → Io History (Unit {0})
  unfolding log_out_if_last
  detach none = pure tt
  detach (some m) = do
    if n.use_multipath && not (m.wwid == []) then ignored (flush_map n.host m.wwid) else pure tt
    if m.iqn == [] then pure tt else log_out_if_last m

  untrack_volume : Text → Io NodeState (Unit {0})
  untrack_volume id s = (ok tt, record s { registry = untrack n.stats n.node_id id s.registry })

  forget_if : Option StageMeta → Text → Io NodeState (Unit {0})
  unfolding delete_meta
  forget_if none id = pure tt
  forget_if (some m) id = delete_meta id

  unfoldable pub unstage_volume : UnstageRequest → Io NodeState (Unit {0})
  unfolding resolve_teardown refuse_in_use untrack_volume detach forget_if
  unstage_volume req = do
    id ← resolve_teardown req.volume_id req.staging_target_path
    on_host (refuse_in_use req.staging_target_path id)
    on_host (or_internal (unmount n.host req.staging_target_path))
    untrack_volume req.volume_id
    on_host (detach id)
    forget_if id req.volume_id
