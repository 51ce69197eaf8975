-- ===== src/Local/Ops/Delete.antt =====
-- internal/driver/local/localops.go: what the deletions destroy.
use nomad_csi_driver.Base.{
  Text, Bool, true, ◌≡◌, refl, List, [], ◌∷◌, codes, text_eq, text_beq, ◌==◌, if◌then◌else◌,
}
use nomad_csi_driver.Driver.Errors.{Code, coded, Result, ok, err, continue, fail}
use nomad_csi_driver.Driver.Keeps.{Keeps, io_rules}
use nomad_csi_driver.Host.Mounts.{Host, History, Call, called, run, call, run_command}
use nomad_csi_driver.Host.Calls.{Adds, none_yet, one_more, Told, asks, Reads}
use nomad_csi_driver.Host.Zfs
use nomad_csi_driver.Host.Zfs.{
  SnapshotEntry, zfs, list_args, exists_args, listing_of, snapshot_of, at_snapshot, silent,
  exists_of,
}
use nomad_csi_driver.Host.Zfs.Questions.{questions}
use nomad_csi_driver.Host.Zfs.Commands.{silent_at, silent-Adds}
use nomad_csi_driver.Local.ExternalId.{ExternalId, SnapshotId, parse_id, parse_snapshot_id}
use nomad_csi_driver.Local.Params.{LocalConfig}
use nomad_csi_driver.Local.Capacity.{internal_of}
use nomad_csi_driver.Local.Capacity.Rules.{or_internal-Keeps}
use nomad_csi_driver.Local.Ops.{
  local_delete, delete_dataset, delete_present, destroy_if_bare, local_delete_snapshot,
  drop_snapshot,
}

-- The question for the snapshots of a dataset.
abbrev pub snapshots_of : Text → Call
snapshots_of d = run (zfs (list_args (codes "snapshot") (codes "name,volsize,creation") d))

-- What a deletion of the volume with this dataset may call: questions, and `zfs destroy` of just
-- that dataset, without a flag, right after it was seen to have no snapshots.
pub data DeleteCall (d : Text) (h : History) (c : Call) : Type 0 where
  only_asks : asks c ≡ true → DeleteCall d h c
  destroys :
      c ≡ run (zfs (codes "destroy" ∷ d ∷ []))
      → Told (snapshots_of d) (λ r. listing_of snapshot_of r ≡ ok []) h
      → DeleteCall d h c

-- What the deletion of a snapshot may call: questions, and `zfs destroy` of just that snapshot.
pub data DropCall (sid : SnapshotId) (h : History) (c : Call) : Type 0 where
  only_asks : asks c ≡ true → DropCall sid h c
  destroys :
      c ≡ run (zfs (codes "destroy" ∷ at_snapshot sid.dataset sid.snap_name ∷ []))
      → DropCall sid h c

DeleteCall-Reads : (d : Text) → Reads (DeleteCall d)
DeleteCall-Reads d = record { at = λ h c. DeleteCall.only_asks }

DropCall-Reads : (sid : SnapshotId) → Reads (DropCall sid)
DropCall-Reads sid = record { at = λ h c. DropCall.only_asks }

module _ (host : Host) (cfg : LocalConfig) (parent_dataset node : Text) (start : History) where
  module _ (d : Text) where
    destroy-Adds :
        (h : History)
        → Told (snapshots_of d) (λ r. listing_of snapshot_of r ≡ ok []) h
        → Adds (DeleteCall d) start h
        → Adds (DeleteCall d) start (Zfs.destroy_zvol host d h).1
    unfolding Zfs.destroy_zvol
    destroy-Adds h told p =
        silent_at host (DeleteCall d) start (zfs (codes "destroy" ∷ d ∷ [])) h
          (DeleteCall.destroys refl told) p

    listed-Adds :
        (h : History) (r : Result Text) (x : Result (List SnapshotEntry))
        → listing_of snapshot_of r ≡ x
        → Adds (DeleteCall d) start (called (snapshots_of d) r ∷ h)
        → Adds
            (DeleteCall d)
            start
            (continue
              (internal_of x)
              (destroy_if_bare host cfg parent_dataset node d)
              (called (snapshots_of d) r ∷ h)).1
    unfolding destroy_if_bare
    listed-Adds h r (ok []) e p = destroy-Adds (called (snapshots_of d) r ∷ h) (refl, e) p
    listed-Adds h r (ok (s ∷ ss)) e p = p
    listed-Adds h r (err x) e p = p

    delete_present-Adds :
        Keeps (Adds (DeleteCall d) start) (delete_present host cfg parent_dataset node d)
    unfolding delete_present Zfs.list_snapshots run_command call asks text_beq
    delete_present-Adds = record {
      at = λ h p.
          let r = host.answer h (snapshots_of d) in
          listed-Adds h r (listing_of snapshot_of r) refl
            (one_more (snapshots_of d) r (DeleteCall.only_asks refl) p);
    }

    delete_dataset-Adds :
        Keeps (Adds (DeleteCall d) start) (delete_dataset host cfg parent_dataset node d)
    unfolding delete_dataset
    delete_dataset-Adds =
        search (io_rules, or_internal-Keeps, delete_present-Adds, questions, DeleteCall-Reads d)

    if_local-Adds :
        (b : Bool)
        → Keeps (Adds (DeleteCall d) start) (
            if b then delete_dataset host cfg parent_dataset node d else fail (coded Code.internal))
    if_local-Adds b = search (io_rules, delete_dataset-Adds)

  -- Whatever the host answers, deleting the volume with a parsed id adds only questions and
  -- `zfs destroy` of exactly its dataset, without a flag, right after that dataset was seen to have
  -- no snapshots.
  pub local_delete-destroys :
      (id : Text) (eid : ExternalId)
      → parse_id id ≡ ok eid
      → Adds (DeleteCall eid.dataset) start (local_delete host cfg parent_dataset node id start).1
  unfolding local_delete
  local_delete-destroys id eid e =
      rw e ((if_local-Adds eid.dataset (eid.node == node)).at start none_yet)

  module _ (sid : SnapshotId) where
    destroyed-Adds :
        Keeps (Adds (DropCall sid) start) (Zfs.destroy_snapshot host sid.dataset sid.snap_name)
    unfolding Zfs.destroy_snapshot
    destroyed-Adds =
        silent-Adds host (DropCall sid) start
          (zfs (codes "destroy" ∷ at_snapshot sid.dataset sid.snap_name ∷ []))
          (λ h p. DropCall.destroys refl)

    drop_snapshot-Adds :
        Keeps
          (Adds (DropCall sid) start)
          (drop_snapshot host cfg parent_dataset node sid.dataset sid.snap_name)
    unfolding drop_snapshot
    drop_snapshot-Adds =
        search (io_rules, or_internal-Keeps, destroyed-Adds, questions, DropCall-Reads sid)

  -- Deleting a snapshot with a parsed id adds only questions and `zfs destroy` of exactly that
  -- snapshot, without a flag.
  pub local_delete_snapshot-destroys :
      (id : Text) (sid : SnapshotId)
      → parse_snapshot_id id ≡ ok sid
      → Adds (DropCall sid) start (local_delete_snapshot host cfg parent_dataset node id start).1
  unfolding local_delete_snapshot
  local_delete_snapshot-destroys id sid e = rw e ((drop_snapshot-Adds sid).at start none_yet)
