-- ===== src/Local/Node/Staging.antt =====
-- internal/driver/local/node.go: what a stage may do to the node.
use nomad_csi_driver.Base.{
  Text, true, ◌≡◌, refl, List, text_eq, text_beq, contains, ◌==◌, arith, if◌then◌else◌, sym,
  Bool-cases, inl, inr,
}
use nomad_csi_driver.Driver.Errors.{Code, coded, Result, ok, err, continue, fail}
use nomad_csi_driver.Driver.Keeps.{Keeps, io_rules}
use nomad_csi_driver.Driver.Types.{StageRequest}
use nomad_csi_driver.Host.Mounts.{History, Call, run, eval_symlinks, call}
use nomad_csi_driver.Host.Mounts
use nomad_csi_driver.Host.Calls.{Adds, none_yet, Told}
use nomad_csi_driver.Host.Mounts.Safety.{blkid, is_blank}
use nomad_csi_driver.Host.Mounts.Harmless.{
  Formats, Harmless, is_tame, harmless-Adds, detect_filesystem-Adds, mount-Adds,
  format_if_empty-Adds,
}
use nomad_csi_driver.Host.Zfs.{pool_status}
use nomad_csi_driver.Local.Capacity.Rules.{or_internal-Keeps}
use nomad_csi_driver.Host.Wait.{os_wait_for_path}
use nomad_csi_driver.Host.Wait.Ends.{await-Keeps, resolve_link-Keeps}
use nomad_csi_driver.Local.Node.{
  LocalNode, NodeState, resolve_volume_identity, check_pool, wait_for_path, choose_fs_type,
  format_and_mount, stage_owned, stage_body, stage_volume,
}

-- The volume belongs to this node, by its context or its id.
abbrev pub IsOwned : LocalNode → StageRequest → Type 0
IsOwned n req =
    (dataset : Text) × (resolve_volume_identity req.volume_id req.volume_context
      ≡ ok (dataset, n.node_id))

-- What a stage may call: nothing for a volume of another node; else the commands that are tame, and
-- one that makes a file system on a device that the call just before has found to be blank.
pub data StageCall (n : LocalNode) (req : StageRequest) (h : History) : Call → Type 0 where
  tame : {c : Call} → IsOwned n req → is_tame c ≡ true → StageCall n req h c
  formats :
      {args : List Text} (device : Text)
      → IsOwned n req
      → Told (blkid device) (λ r. is_blank r ≡ true) h
      → Formats device args
      → StageCall n req h (run args)

module _ (n : LocalNode) (req : StageRequest) (start : History) (owned : IsOwned n req) where
  abbrev Staged : History → Type 0
  Staged = Adds (StageCall n req) start

  StageCall-Harmless : Harmless (StageCall n req)
  StageCall-Harmless = record { at = λ h c e. StageCall.tame owned e }

  harmless_call : (c : Call) → is_tame c ≡ true → Keeps Staged (call n.host c)
  harmless_call = harmless-Adds n.host (StageCall n req) StageCall-Harmless start

  wait-Staged : (path : Text) → Keeps Staged (wait_for_path n path)
  unfolding wait_for_path os_wait_for_path is_tame
  wait-Staged path =
      await-Keeps _ (resolve_link-Keeps n.host path (harmless_call (eval_symlinks path) refl))
        n.clocks n.timeout

  check_pool-Staged : (pool : Text) → Keeps Staged (check_pool n pool)
  unfolding check_pool pool_status Mounts.run_command is_tame contains text_beq
  check_pool-Staged pool = search (io_rules, harmless_call) depth 9

  format_and_mount-Staged : (device : Text) → Keeps Staged (format_and_mount n req device)
  unfolding format_and_mount choose_fs_type
  format_and_mount-Staged device = search (
    io_rules,
    or_internal-Keeps,
    detect_filesystem-Adds n.host (StageCall n req) StageCall-Harmless start,
    mount-Adds n.host (StageCall n req) StageCall-Harmless start,
    format_if_empty-Adds n.host (StageCall n req) StageCall-Harmless start device
        (λ h args told f. StageCall.formats device owned told f),
  )

  stage_owned-Staged : (dataset : Text) → Keeps Staged (stage_owned n req dataset)
  unfolding stage_owned
  stage_owned-Staged dataset =
      search (io_rules, or_internal-Keeps, check_pool-Staged, wait-Staged, format_and_mount-Staged)

module _ (n : LocalNode) (req : StageRequest) (h : History) where
  stage_body-careful : Adds (StageCall n req) h (stage_body n req h).1
  unfolding stage_body
  stage_body-careful = resolved (resolve_volume_identity req.volume_id req.volume_context) refl
    where
      resolved :
          (r : Result (Text × Text))
          → resolve_volume_identity req.volume_id req.volume_context ≡ r
          → Adds
              (StageCall n req)
              h
              (continue r
                (λ who.
                  if who.1 == n.node_id
                  then stage_owned n req who.0
                  else fail (coded Code.failed_precondition))
                h).1
      resolved (err e) p = none_yet
      resolved (ok (dataset, owner)) p = elim (Bool-cases (owner == n.node_id)) [
        | inr other ↦ rw other none_yet
        | inl same ↦ rw same (
            let here : owner ≡ n.node_id = ground (arith, text_eq.beq_iff owner n.node_id) in
            (stage_owned-Staged n req h (dataset, rw (sym here) p) dataset).at h none_yet)
      ]

-- A stage calls nothing unless the volume, by its context or else by its id, belongs to this node;
-- and it runs no commands but blkid, findmnt, mount, umount, zpool and multipathd, and one that makes
-- a file system on a device that the call just before, of blkid, has found to be blank.
pub stage_volume-careful :
    (n : LocalNode) (req : StageRequest) (s : NodeState)
    → Adds (StageCall n req) s.history (stage_volume n req s).1.history
unfolding stage_volume
stage_volume-careful n req s = stage_body-careful n req s.history
