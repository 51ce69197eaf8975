-- ===== src/Qnap/Controller.antt =====
-- internal/driver/qnap/controller.go: deleting, growing and snapshotting volumes, each behind the
-- guard against a LUN index that was reused by another volume.
pub mod Safety
pub mod Delete
pub mod Modify
pub mod Unchecked
use nomad_csi_driver.Base.{
  ℕ, ◌*◌, ℤ, pos, negsuc, Text, Bool, true, false, not, ◌&&◌, ◌||◌, List, [], ◌∷◌, Option, none,
  some, text_eq, int_eq, ◌==◌, if◌then◌else◌,
}
use nomad_csi_driver.Base.Map.{Map}
use nomad_csi_driver.Driver.Errors.{
  Code, Error, coded, exit, api, session_invalid, canceled, deadline_exceeded, plain, status,
  Result, ok, err, Io, pure, fail, lift, ◌>>=◌, ◌>>◌, bind,
}
use nomad_csi_driver.Driver.Types.{CapacityRange, CreateSnapshotRequest, Snapshot}
use nomad_csi_driver.Qnap.Appliance.{Lun, Target, QnapSnapshot, Client}
use nomad_csi_driver.Qnap.Cache.{remove_lun}
use nomad_csi_driver.Qnap.ExternalId.{
  ExternalId, SnapshotId, parse_id, parse_snapshot_id, print_snapshot_id,
}
use nomad_csi_driver.Qnap.Params.{gib, size_gib_exact, sanitize_lun_name}
use nomad_csi_driver.Qnap.Session.{State, is_auth_error, in_session}
use nomad_csi_driver.Qnap.Session

-- The appliance's own codes: name in use, and resource busy.
api_code : ℤ → Code
api_code c =
    if c == negsuc 21 || c == negsuc 16
    then Code.already_exists
    else if c == negsuc 33
    then Code.failed_precondition
    else Code.internal

unfoldable pub map_qnap_error : Error → Error
unfolding api_code is_auth_error
map_qnap_error e =
    if is_auth_error e
    then coded Code.unavailable
    else coded (elim e [ api c http ↦ api_code c | _ ↦ Code.internal ])

-- `if err != nil { return mapQNAPError(…) }`
abbrev pub mapped : {A : Type 0} → Io State A → Io State A
mapped m s = let (r, s') = m s in (elim r [ ok a ↦ ok a | err e ↦ err (map_qnap_error e) ], s')

-- A call whose error the code looks at or ignores.
abbrev pub attempt : {A : Type 0} → Io State A → Io State (Result A)
attempt m s = let (r, s') = m s in (ok r, s')

abbrev alias_is : Text → Result Target → Bool
alias_is name (ok t) = t.alias == name
alias_is name (err e) = false

abbrev is_gone : Result Lun → Bool
is_gone (err e) = true
is_gone (ok l) = l.name == [] || l.capacity_bytes == pos 0

module _ (cl : Client) where
  unfoldable pub lun_gone : ℕ → ℤ → Io State Bool
  lun_gone sess i = do r ← attempt (Session.get_lun cl sess i); pure (is_gone r)

  unfoldable pub target_is_ours : ℕ → ℤ → Text → Io State Bool
  target_is_ours sess i name =
      if name == []
      then pure false
      else do r ← attempt (Session.get_target cl sess i); pure (alias_is name r)

  after_delete : ℕ → ExternalId → Result (Unit {0}) → Io State (Unit {0})
  unfolding lun_gone
  after_delete sess eid (ok _) = mapped (Session.wait_for_lun_gone cl sess eid.lun_index)
  after_delete sess eid (err e) = do
    gone ← lun_gone sess eid.lun_index
    if gone then pure tt else fail (map_qnap_error e)

  -- The default case of DeleteVolume: the LUN is ours.
  destroy : ℕ → ExternalId → List QnapSnapshot → Io State (Unit {0})
  unfolding after_delete
  destroy sess eid (s ∷ ss) = fail (coded Code.failed_precondition)
  destroy sess eid [] = do
    unmapped ← attempt (Session.unmap_lun cl sess eid.lun_index eid.target_index)
    deleted ← attempt (Session.delete_lun cl sess eid.lun_index)
    after_delete sess eid deleted

  -- The three cases of DeleteVolume on the LUN that its index holds now.
  destroy_if_ours : ℕ → ExternalId → Result Lun → Io State (Unit {0})
  unfolding destroy
  destroy_if_ours sess eid (err e) = pure tt
  destroy_if_ours sess eid (ok lun) =
      if lun.name == []
      then pure tt
      else if not (eid.lun_name == []) && not (lun.name == eid.lun_name)
      then pure tt
      else do snaps ← mapped (Session.list_snapshots cl sess eid.lun_index); destroy sess eid snaps

  -- `eid.OwnTarget && c.targetIsOurs(…)`, and the error of DeleteTarget that is only logged.
  drop_target : ℕ → ExternalId → Io State (Unit {0})
  unfolding target_is_ours
  drop_target sess eid =
      if eid.own_target
      then (do
        ours ← target_is_ours sess eid.target_index eid.lun_name
        if ours
            then (do r ← attempt (Session.delete_target cl sess eid.target_index); pure tt)
            else pure tt)
      else pure tt

  delete_body : ExternalId → ℕ → Io State (Unit {0})
  unfolding destroy_if_ours drop_target
  delete_body eid sess = do
    lun ← attempt (Session.get_lun cl sess eid.lun_index)
    destroy_if_ours sess eid lun
    drop_target sess eid

  -- `defer c.cache.removeLUN(…)`
  abbrev evicting : {A : Type 0} → ℤ → Io State A → Io State A
  evicting i m s = let (r, s') = m s in (r, record s' { cache = remove_lun s'.cache i })

  unfoldable pub delete_volume : Text → Map Text Text → Io State (Unit {0})
  unfolding delete_body
  delete_volume id secrets = do
    eid ← lift (parse_id id)
    evicting eid.lun_index (in_session cl (delete_body eid))

  abbrev same_lun : ExternalId → Result Lun → Result (Unit {0})
  same_lun eid (err e) = err (coded Code.not_found)
  same_lun eid (ok l) = if l.name == eid.lun_name then ok tt else err (coded Code.not_found)

  unfoldable pub ensure_lun_is_ours : ExternalId → Io State (Unit {0})
  ensure_lun_is_ours eid = if eid.lun_name == [] then pure tt else do
    r ← attempt (in_session cl λ sess. Session.get_lun cl sess eid.lun_index)
    lift (same_lun eid r)

  abbrev exists_as : ExternalId → Lun → Bool
  exists_as eid l =
      not (l.name == []) && not (not (eid.lun_name == []) && not (l.name == eid.lun_name))

  abbrev existence : ExternalId → Result Lun → Result Bool
  existence eid (err e) = if is_auth_error e then err (coded Code.unavailable) else ok false
  existence eid (ok l) = ok (exists_as eid l)

  unfoldable pub volume_exists : Text → Io State Bool
  volume_exists id = do
    eid ← lift (parse_id id)
    r ← attempt (in_session cl λ sess. Session.get_lun cl sess eid.lun_index)
    lift (existence eid r)

  -- The LUN grows to `n` GiB, and the code waits until it has.
  resize_body : ℤ → ℕ → ℕ → Io State (Unit {0})
  resize_body i n sess = do
    Session.resize_lun cl sess i n
    Session.wait_for_resize cl sess i (n * gib)

  unfoldable pub expand_volume : Text → CapacityRange → Map Text Text → Io State (ℤ × Bool)
  unfolding resize_body
  expand_volume id cr secrets = do
    eid ← lift (parse_id id)
    n ← lift (size_gib_exact cr)
    ensure_lun_is_ours eid
    mapped (in_session cl (resize_body eid.lun_index n))
    pure (pos (n * gib), true)

  -- `parse_ansic` is time.Parse with the ANSIC layout, none where it fails.
  unfoldable pub create_snapshot : (Text → Option ℤ) → CreateSnapshotRequest → Io State Snapshot
  create_snapshot parse_ansic r = do
    eid ← lift (parse_id r.source_volume_id)
    ensure_lun_is_ours eid
    snap ← mapped (
        in_session cl
          λ sess. Session.create_snapshot cl sess eid.lun_index (sanitize_lun_name r.name))
    pure (record {
      snapshot_id = print_snapshot_id (record { lun_index = eid.lun_index; snapshot_id = snap.id });
      source_volume_id = r.source_volume_id;
      size_bytes = snap.size_bytes;
      creation_time = parse_ansic snap.created_at;
      ready_to_use = snap.ready;
    })

  delete_snapshot_body : SnapshotId → ℕ → Io State (Unit {0})
  delete_snapshot_body sid sess = do
    mapped (Session.delete_snapshot cl sess sid.snapshot_id)
    mapped (Session.wait_for_snapshot_gone cl sess sid.lun_index sid.snapshot_id)

  unfoldable pub delete_snapshot : Text → Map Text Text → Io State (Unit {0})
  unfolding delete_snapshot_body
  delete_snapshot id secrets = do
    sid ← lift (parse_snapshot_id id)
    in_session cl (delete_snapshot_body sid)
