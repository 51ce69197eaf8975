-- ===== src/Qnap/Staged.antt =====
-- internal/driver/qnap/node.go and stats_reconcile.go: which volumes are staged on a node, by its iSCSI
-- sessions, and the sweep that tracks them again after a restart.
pub mod Sweep
use nomad_csi_driver.Base.{
  ℕ, ℤ, pos, Text, Bool, true, false, not, ◌&&◌, List, [], ◌∷◌, ◌++◌, Option, none, some, length,
  codes, text_eq, int_eq, ◌==◌, if◌then◌else◌,
}
use nomad_csi_driver.Base.Map.{Map, has, lookup, insert}
use nomad_csi_driver.Driver.Errors.{Result, ok, err, Io, pure, attempt, ◌>>=◌}
use nomad_csi_driver.Go.Strconv.{format_int}
use nomad_csi_driver.Host.Mounts.{Host, History, call, eval_symlinks}
use nomad_csi_driver.Host.MountTable.{Mount, list_mounts}
use nomad_csi_driver.Host.Iscsi.{Session, list_sessions}
use nomad_csi_driver.Host.Multipath.{map_wwid, mapper_path}
use nomad_csi_driver.Qnap.Portal.{our_portals, portal_owned}
use nomad_csi_driver.Qnap.SanCache.{SanCache, resolve_external_id}
use nomad_csi_driver.Qnap.NodeState.{NodeState, QnapNode, on_host, on_san}
use nomad_csi_driver.Stats.Registry.{Registry, TrackSpec, reconcile}

-- A target's LUN, as the host shows it, with the mount of its device.
pub record StagedSession : Type 0 where
  pub iqn : Text
  pub lun : ℤ
  pub staging_path : Text
  pub access_type : Text

-- A target's LUN, with its devices.
pub record Group : Type 0 where
  pub iqn : Text
  pub lun : ℤ
  pub devices : List Text

abbrev pub session_key : Text → ℤ → Text
session_key iqn lun = iqn ++ codes "/" ++ format_int lun

unfoldable pub count_keys : Map Text (Unit {0}) → List Session → Map Text (Unit {0}) → ℕ
count_keys ours [] seen = length seen
count_keys ours (s ∷ ss) seen =
    count_keys ours ss
      (if portal_owned s.portal ours then insert (session_key s.iqn s.lun) tt seen else seen)

-- A device that has no name yet is left out.
with_device : Text → List Text → List Text
with_device dev devs = if dev == [] then devs else devs ++ dev ∷ []

add_session : Session → List Group → List Group
unfolding with_device
add_session s [] = record { iqn = s.iqn; lun = s.lun; devices = with_device s.device [] } ∷ []
add_session s (g ∷ gs) =
    let rest = add_session s gs in
    if g.iqn == s.iqn && g.lun == s.lun
    then record g { devices = with_device s.device g.devices } ∷ gs
    else g ∷ rest

unfoldable pub groups : Map Text (Unit {0}) → List Session → List Group → List Group
unfolding add_session
groups ours [] gs = gs
groups ours (s ∷ ss) gs =
    groups ours ss (if portal_owned s.portal ours then add_session s gs else gs)

is_real : Result Text → Text → Bool
is_real (ok real) source = real == source
is_real (err e) source = false

mapper_candidate : Result Text → List Text
mapper_candidate (ok []) = []
mapper_candidate (ok (c ∷ w)) = mapper_path (c ∷ w) ∷ []
mapper_candidate (err e) = []

staged_of : Group → Option Text → StagedSession
staged_of g none = record {
  iqn = g.iqn;
  lun = g.lun;
  staging_path = [];
  access_type = codes "block";
}
staged_of g (some path) = record {
  iqn = g.iqn;
  lun = g.lun;
  staging_path = path;
  access_type = codes "mount";
}

or_next : Option Text → Io History (Option Text) → Io History (Option Text)
or_next (some path) next = pure (some path)
or_next none next = next

module _ (n : QnapNode) where
  unfoldable pub staged_count : Io History ℕ
  unfolding count_keys
  staged_count = do
    sessions ← list_sessions n.host
    pure (count_keys (our_portals n.portals) sessions [])

  -- The first mount of a device under one of its names.
  mount_of_candidate : Text → List Mount → Io History (Option Text)
  unfolding is_real
  mount_of_candidate cand [] = pure none
  mount_of_candidate cand (m ∷ ms) = if m.source == cand then pure (some m.target) else (do
    r ← attempt (call n.host (eval_symlinks cand))
    if is_real r m.source then pure (some m.target) else mount_of_candidate cand ms)

  mount_of_candidates : List Text → List Mount → Io History (Option Text)
  unfolding mount_of_candidate or_next
  mount_of_candidates [] ms = pure none
  mount_of_candidates (c ∷ cs) ms = do
    found ← mount_of_candidate c ms
    or_next found (mount_of_candidates cs ms)

  candidates : Text → Io History (List Text)
  unfolding mapper_candidate
  candidates dev =
      if n.use_multipath
      then (do r ← attempt (map_wwid n.host dev); pure (dev ∷ mapper_candidate r))
      else pure (dev ∷ [])

  unfoldable pub staging_mount_for : List Text → List Mount → Io History (Option Text)
  unfolding candidates mount_of_candidates or_next
  staging_mount_for [] ms = pure none
  staging_mount_for (dev ∷ devs) ms = if dev == [] then staging_mount_for devs ms else (do
    cs ← candidates dev
    found ← mount_of_candidates cs ms
    or_next found (staging_mount_for devs ms))

  staged_groups : List Group → List Mount → Io History (List StagedSession)
  unfolding staging_mount_for staged_of
  staged_groups [] ms = pure []
  staged_groups (g ∷ gs) ms = do
    path ← staging_mount_for g.devices ms
    rest ← staged_groups gs ms
    pure (staged_of g path ∷ rest)

  unfoldable pub staged_sessions : Io History (List StagedSession)
  unfolding groups staged_groups
  staged_sessions = do
    sessions ← list_sessions n.host
    mounts ← list_mounts n.host
    staged_groups (groups (our_portals n.portals) sessions []) mounts

  -- The ids resolved in this process, and the SAN cache.
  abbrev pub Memo : Type 0
  Memo = Map Text Text × SanCache

  remember : Text → Option Text × SanCache → Map Text Text → Option Text × Memo
  remember key (some id, san) memo = (some id, (insert key id memo, san))
  remember key (none, san) memo = (none, (memo, san))

  found_or_none : Result (Option Text) × SanCache → Option Text × SanCache
  found_or_none (ok found, san) = (found, san)
  found_or_none (err e, san) = (none, san)

  unfoldable pub resolve_session : StagedSession → Memo → Option Text × Memo
  unfolding remember found_or_none
  resolve_session s (memo, san) = elim (lookup (session_key s.iqn s.lun) memo) [
    | some id ↦ (some id, (memo, san))
    | none ↦
        remember (session_key s.iqn s.lun)
          (found_or_none (resolve_external_id n.client n.san_ttl s.iqn s.lun san)) memo
  ]

  wanted : StagedSession → Option Text → List TrackSpec × Bool → List TrackSpec × Bool
  wanted s none (specs, all) = (specs, false)
  wanted s (some id) (specs, all) = (
    record { volume_id = id; staging_path = s.staging_path; access_type = s.access_type } ∷ specs,
    all,
  )

  -- The specs, whether every session was resolved, and what is remembered.
  unfoldable pub desired : List StagedSession → Memo → (List TrackSpec × Bool) × Memo
  unfolding resolve_session wanted
  desired [] memo = (([], true), memo)
  desired (s ∷ ss) memo =
      let (id, known) = resolve_session s memo in
      let (specs, after) = desired ss known in (wanted s id specs, after)

  -- A sweep on what was listed: the registry, and the ids that it evicted. It evicts none where the
  -- listing failed or a session was not resolved.
  unfoldable pub sweep :
      Result (List StagedSession) → Memo → Registry → (Registry × List Text) × Memo
  unfolding desired
  sweep (err e) memo r = ((r, []), memo)
  sweep (ok sessions) memo r =
      let (specs, after) = desired sessions memo in
      (reconcile n.stats n.node_id specs.0 specs.1 (pos 2) r, after)
