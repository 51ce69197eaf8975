-- ===== src/Qnap/Attach.antt =====
-- internal/driver/qnap/node.go: resolveAttachIdentity and attach. Logs and metrics are left out.
pub mod Identity
pub mod Cleanup
use nomad_csi_driver.Base.{
  ℕ, ℤ, pos, Text, Bool, true, false, not, ◌&&◌, ◌||◌, List, [], ◌∷◌, ◌++◌, Option, none, some, map,
  codes, contains, nat_eq, text_eq, ◌==◌, if◌then◌else◌,
}
use nomad_csi_driver.Base.Map.{Map}
use nomad_csi_driver.Driver.Errors.{
  Code, Error, coded, Result, ok, err, Io, pure, fail, lift, attempt, ◌>>=◌, ◌>>◌,
}
use nomad_csi_driver.Go.Strings.{split}
use nomad_csi_driver.Go.Strconv.{atoi}
use nomad_csi_driver.Go.Trim.{trim_space}
use nomad_csi_driver.Host.Mounts.{Host, History, call, glob, eval_symlinks}
use nomad_csi_driver.Host.Wait.{await, resolve_link, if_ok}
use nomad_csi_driver.Host.Iscsi.{discover, login, logout, device_glob}
use nomad_csi_driver.Host.Multipath.{map_wwid, mapper_path, flush_map}
use nomad_csi_driver.Qnap.ExternalId.{ExternalId, parse_id}
use nomad_csi_driver.Qnap.Params.{get_or_empty}
use nomad_csi_driver.Qnap.Portal.{normalize_portal}
use nomad_csi_driver.Qnap.SanCache.{resolve_iqn}
use nomad_csi_driver.Qnap.NodeState.{StageMeta, NodeState, QnapNode, on_host, on_san}

trimmed : List Text → List Text
trimmed [] = []
trimmed (p ∷ ps) = let rest = trimmed ps in if trim_space p == [] then rest else trim_space p ∷ rest

unfoldable pub split_portals : Text → List Text
unfolding trimmed
split_portals s = trimmed (split b',' s)

-- The portals of the configuration, with their ports.
unfoldable pub normalized : List Text → List Text
normalized [] = []
normalized (p ∷ ps) =
    let rest = normalized ps in if normalize_portal p == [] then rest else normalize_portal p ∷ rest

abbrev pub failed : {A : Type 0} → Code → Result A
failed c = err (coded c)

-- What logs into a target: portals, IQN and LUN number.
pub record AttachIdentity : Type 0 where
  pub portals : List Text
  pub iqn : Text
  pub lun : ℤ

abbrev pub number_of : Option ℤ → Result ℤ
number_of none = failed Code.invalid_argument
number_of (some n) = ok n

-- The LUN number: what the context says, or 0 for a target of one LUN.
unfoldable pub lun_number_of : Text → ExternalId → Result ℤ
lun_number_of raw eid =
    if not (raw == [])
    then number_of (atoi raw)
    else if eid.own_target
    then ok (pos 0)
    else failed Code.failed_precondition

unfoldable pub portals_or : List Text → List Text → Result (List Text)
unfolding normalized
portals_or (p ∷ ps) configured = ok (p ∷ ps)
portals_or [] configured = elim (normalized configured) [
  | [] ↦ failed Code.failed_precondition
  | p ∷ ps ↦ ok (p ∷ ps)
]

abbrev pub is_empty : List Text → Bool
is_empty [] = true
is_empty (p ∷ ps) = false

or_missing : Option Text → Result Text
or_missing none = failed Code.failed_precondition
or_missing (some iqn) = ok iqn

invalid_if_failed : {A : Type 0} → Result A → Result A
invalid_if_failed (ok a) = ok a
invalid_if_failed (err e) = failed Code.invalid_argument

-- A command whose failure is only logged.
abbrev pub ignored : {S : Type 0} → Io S (Unit {0}) → Io S (Unit {0})
ignored m s = let (r, s') = m s in (ok tt, s')

module _ (n : QnapNode) where
  iqn_or : Text → ExternalId → Io NodeState Text
  unfolding or_missing
  iqn_or iqn eid =
      if not (iqn == [])
      then pure iqn
      else if n.has_san
      then (do found ← on_san (resolve_iqn n.client n.san_ttl eid); lift (or_missing found))
      else fail (coded Code.failed_precondition)

  rebuild : ExternalId → List Text → Text → Text → Io NodeState AttachIdentity
  unfolding iqn_or portals_or lun_number_of
  rebuild eid portals iqn raw = do
    target ← iqn_or iqn eid
    ps ← lift (portals_or portals n.portals)
    lun ← lift (lun_number_of raw eid)
    pure (record { portals = ps; iqn = target; lun = lun })

  unfoldable pub resolve_attach_identity : Text → Map Text Text → Io NodeState AttachIdentity
  unfolding split_portals rebuild invalid_if_failed
  resolve_attach_identity id vctx =
      let portals = split_portals (get_or_empty (codes "portal") vctx) in
      let iqn = get_or_empty (codes "iqn") vctx in
      let raw = trim_space (get_or_empty (codes "lun") vctx) in
      if not (is_empty portals) && not (iqn == []) && not (raw == [])
      then (do
        lun ← lift (number_of (atoi raw))
        pure (record { portals = portals; iqn = iqn; lun = lun }))
      else (do eid ← lift (invalid_if_failed (parse_id id)); rebuild eid portals iqn raw)

  -- Discovery and login at one portal.
  unfoldable pub login_at : Text → Text → Io History (Unit {0})
  login_at iqn p = do discover n.host p; login n.host p iqn

  kept : Text → Result (Unit {0}) → List Text → List Text
  kept p (ok x) ps = p ∷ ps
  kept p (err e) ps = ps

  unfoldable pub log_into : Text → List Text → Io History (List Text)
  unfolding login_at kept
  log_into iqn [] = pure []
  log_into iqn (p ∷ ps) = do
    r ← attempt (login_at iqn p)
    rest ← log_into iqn ps
    pure (kept p r rest)

  unfoldable pub login_portals : List Text → Text → Io History (List Text)
  unfolding log_into
  login_portals portals iqn = do
    active ← log_into iqn portals
    if is_empty active then fail (coded Code.unavailable) else pure active

  -- The first match that resolves.
  first_link : List Text → Io History (Option Text)
  first_link [] = pure none
  first_link (m ∷ ms) = do
    r ← attempt (call n.host (eval_symlinks m))
    elim r [ ok real ↦ pure (some real) | err e ↦ first_link ms ]

  -- The matches of a glob are lines.
  matches_of : Result Text → List Text
  matches_of (ok []) = []
  matches_of (ok (c ∷ out)) = split 10 (c ∷ out)
  matches_of (err e) = []

  abbrev has_glob : Text → Bool
  has_glob path = contains path b'*' || contains path b'?' || contains path b'['

  unfoldable pub resolve_path : Text → Io History (Option Text)
  unfolding first_link matches_of
  resolve_path path =
      if has_glob path
      then (do r ← attempt (call n.host (glob path)); first_link (matches_of r))
      else resolve_link n.host path

  unfoldable pub wait_for_path : Text → Io History Text
  unfolding resolve_path
  wait_for_path path = await n.clocks n.timeout (resolve_path path)

  not_empty : Text → Option Text
  not_empty w = if w == [] then none else some w

  unfoldable pub wait_for_map_wwid : Text → Io History Text
  unfolding not_empty
  wait_for_map_wwid device =
      await n.clocks n.timeout (do w ← map_wwid n.host device; pure (not_empty w))

  unavailable_if_failed : {A : Type 0} → Result A → Result A
  unavailable_if_failed (ok a) = ok a
  unavailable_if_failed (err e) = failed Code.unavailable

  or_unavailable : {A : Type 0} → Io History A → Io History A
  unfolding unavailable_if_failed
  or_unavailable m s = let (r, s') = m s in (unavailable_if_failed r, s')

  unfoldable pub log_out : Text → List Text → Io History (Unit {0})
  log_out iqn [] = pure tt
  log_out iqn (p ∷ ps) = do ignored (logout n.host p iqn); log_out iqn ps

  unfoldable pub cleanup_attach : List Text → Text → Text → Io History (Unit {0})
  unfolding log_out
  cleanup_attach portals iqn wwid = do
    if n.use_multipath && not (wwid == []) then ignored (flush_map n.host wwid) else pure tt
    log_out iqn portals

  undo : {A : Type 0} → Io History (Unit {0}) → Result A → Io History A
  undo cleanup (ok a) = pure a
  undo cleanup (err e) = λ h. (err e, (cleanup h).1)

  -- `defer func() { if err != nil { … } }()`, for the steps that may fail.
  unfoldable pub or_undo : {A : Type 0} → Io History (Unit {0}) → Io History A → Io History A
  unfolding undo
  or_undo cleanup m = do r ← attempt m; undo cleanup r

  abbrev meta_of : List Text → AttachIdentity → Text → StageMeta
  meta_of active id w = record {
    portals = active;
    portal = [];
    iqn = id.iqn;
    lun_number = id.lun;
    wwid = w;
  }

  unfoldable pub map_device : List Text → AttachIdentity → Text → Io History (Text × StageMeta)
  unfolding or_undo or_unavailable wait_for_path wait_for_map_wwid cleanup_attach
  map_device active id raw = do
    w ← or_undo (cleanup_attach active id.iqn []) (or_unavailable (wait_for_map_wwid raw))
    mapper ←
        or_undo (cleanup_attach active id.iqn w) (or_unavailable (wait_for_path (mapper_path w)))
    pure (mapper, meta_of active id w)

  unfoldable pub attach_active : List Text → AttachIdentity → Io History (Text × StageMeta)
  unfolding or_undo or_unavailable wait_for_path cleanup_attach map_device
  attach_active active id = do
    raw ←
        or_undo (cleanup_attach active id.iqn [])
          (or_unavailable (wait_for_path (device_glob id.iqn id.lun)))
    if n.use_multipath then map_device active id raw else pure (raw, meta_of active id [])

  unfoldable pub attach_at : AttachIdentity → Io History (Text × StageMeta)
  unfolding login_portals attach_active
  attach_at id = do active ← login_portals id.portals id.iqn; attach_active active id

  unfoldable pub attach : Text → Map Text Text → Io NodeState (Text × StageMeta)
  unfolding resolve_attach_identity attach_at
  attach volume_id vctx = do id ← resolve_attach_identity volume_id vctx; on_host (attach_at id)
