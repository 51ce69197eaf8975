-- ===== src/Local/Create/Copies.antt =====
-- internal/driver/local/localops.go: the calls of a restore and of a clone.
use nomad_csi_driver.Base.{
  Text, ◌≡◌, refl, Bool-cases, inl, inr, arith, text_eq, ◌==◌, if◌then◌else◌,
}
use nomad_csi_driver.Base.Classes.{text_beq_iff}
use nomad_csi_driver.Driver.Errors.{
  Code, coded, Result, ok, err, Io, fail, lift, attempt, ◌>>=◌, ◌>>◌,
}
use nomad_csi_driver.Driver.Keeps.{Keeps, then_at, io_rules}
use nomad_csi_driver.Host.Mounts.{Host, History}
use nomad_csi_driver.Host.Calls.{Adds, Told, Seen, now}
use nomad_csi_driver.Host.Zfs
use nomad_csi_driver.Host.Zfs.{zfs, at_snapshot, get_args, piped}
use nomad_csi_driver.Host.Zfs.Commands.{IsOk, silent_at, silent_ok, clone_independent-Seen}
use nomad_csi_driver.Local.ExternalId.{ExternalId, SnapshotId, parse_id, parse_snapshot_id}
use nomad_csi_driver.Local.Params.{LocalConfig}
use nomad_csi_driver.Local.Wire.{CreateArgs}
use nomad_csi_driver.Local.Capacity.{internal_of, or_internal}
use nomad_csi_driver.Local.Capacity.Rules.{HasRoom}
use nomad_csi_driver.Local.Create.{
  clone_from_volume, clone_here, restore_from_snapshot, restore_here, record_provenance,
  grow_if_needed,
}
use nomad_csi_driver.Local.Create.Calls.{CreateCall, transient, snapshot_call}
use nomad_csi_driver.Local.Create.Fresh.{
  with_room, record_provenance-Fine, grow_if_needed-Fine, copied-Fine,
}

module _ (host : Host) (cfg : LocalConfig) (parent_dataset node : Text) (start : History)
    (a : CreateArgs) (dataset : Text) where
  -- The new calls are those of the create.
  abbrev Fine : History → Type 0
  Fine = Adds (CreateCall cfg node a dataset) start

  stamp_and_grow :
      (value : Text)
      → Keeps Fine (
          record_provenance host cfg parent_dataset node dataset value
          >> grow_if_needed host cfg parent_dataset node dataset a.size_bytes)
  stamp_and_grow value = search (io_rules, record_provenance-Fine, grow_if_needed-Fine)

  restore_here-Fine :
      (sid : SnapshotId)
      → parse_snapshot_id a.content_snapshot_id ≡ ok sid
      → sid.node ≡ node
      → Keeps Fine (restore_here host cfg parent_dataset node a dataset sid)
  unfolding restore_here
  restore_here-Fine sid e here =
      with_room host cfg parent_dataset node start a dataset _ (λ h room p.
        let copied =
          copied-Fine host cfg parent_dataset node start a dataset sid.dataset sid.snap_name h
            (CreateCall.copies_snapshot sid e here refl room) p in
        then_at Fine (or_internal (Zfs.clone_independent host sid.dataset sid.snap_name dataset)) _
          h copied (λ _ _. (stamp_and_grow a.content_snapshot_id).at _ copied))

  pub restore_from_snapshot-Fine :
      Keeps Fine (restore_from_snapshot host cfg parent_dataset node a dataset)
  unfolding restore_from_snapshot
  restore_from_snapshot-Fine = parsed (parse_snapshot_id a.content_snapshot_id) refl
    where
      parsed :
          (r : Result SnapshotId)
          → parse_snapshot_id a.content_snapshot_id ≡ r
          → Keeps Fine (
              lift r >>= λ sid.
              if sid.node == node
              then restore_here host cfg parent_dataset node a dataset sid
              else fail (coded Code.failed_precondition))
      parsed (err x) e = record { at = λ h p. p }
      parsed (ok sid) e = elim (Bool-cases (sid.node == node)) [
        | inl here ↦ record {
          at = rw here (λ h. (restore_here-Fine sid e ((text_beq_iff sid.node node).0 here)).at h);
        }
        | inr there ↦ record { at = rw there (λ h p. p) }
      ]

  module _ (src : ExternalId) (e : parse_id a.content_volume_id ≡ ok src) where
    destroyed-Fine :
        (h : History)
        → Seen (Told (snapshot_call src.dataset (transient a)) IsOk) h
        → Fine h
        → Fine (Zfs.destroy_snapshot host src.dataset (transient a) h).1
    unfolding Zfs.destroy_snapshot
    destroyed-Fine h seen p =
        silent_at host (CreateCall cfg node a dataset) start _ h
          (CreateCall.drops_transient src e refl seen) p

    after_copy : Result (Unit {0}) → Io History (Unit {0})
    after_copy copied = do
      lift copied
      record_provenance host cfg parent_dataset node dataset a.content_volume_id
      grow_if_needed host cfg parent_dataset node dataset a.size_bytes

    after_copy-Fine : (r : Result (Unit {0})) → Keeps Fine (after_copy r)
    unfolding after_copy
    after_copy-Fine r = search (io_rules, record_provenance-Fine, grow_if_needed-Fine)

    -- With the transient snapshot there, the copy and all that follows.
    snapshotted-Fine :
        (h : History)
        → Told (snapshot_call src.dataset (transient a)) IsOk h
        → Fine h
        → Fine
            ((attempt (or_internal (Zfs.clone_independent host src.dataset (transient a) dataset))
                >>= λ copied.
                    attempt (Zfs.destroy_snapshot host src.dataset (transient a))
                    >> after_copy copied)
              h).1
    snapshotted-Fine h told p =
        let copied =
          copied-Fine host cfg parent_dataset node start a dataset src.dataset (transient a) h
            (CreateCall.copies_volume src e refl told) p in
        let seen =
          (clone_independent-Seen host (Told (snapshot_call src.dataset (transient a)) IsOk)
              src.dataset (transient a) dataset).at
            h (now told) in
        let dropped = destroyed-Fine _ seen copied in
        then_at Fine
          (attempt (or_internal (Zfs.clone_independent host src.dataset (transient a) dataset)))
          (λ r. attempt (Zfs.destroy_snapshot host src.dataset (transient a)) >> after_copy r) h
          copied
          (λ r _.
            then_at Fine (attempt (Zfs.destroy_snapshot host src.dataset (transient a)))
              (λ _. after_copy r) _ dropped (λ _ _. (after_copy-Fine r).at _ dropped))

    taken-Fine :
        src.node ≡ node
        → (h : History) → HasRoom cfg a.pool a.size_bytes h
        → Fine h
        → Fine (Zfs.take_snapshot host src.dataset (transient a) h).1
    unfolding Zfs.take_snapshot
    taken-Fine here h room p =
        silent_at host (CreateCall cfg node a dataset) start _ h
          (CreateCall.takes_transient src e here refl room) p

    taken-Told :
        (h : History)
        → (or_internal (Zfs.take_snapshot host src.dataset (transient a)) h).0 ≡ ok tt
        → Told
            (snapshot_call src.dataset (transient a))
            IsOk
            (Zfs.take_snapshot host src.dataset (transient a) h).1
    unfolding Zfs.take_snapshot
    taken-Told h q = silent_ok host _ h (of_internal _ q)
      where
        of_internal : (x : Result (Unit {0})) → internal_of x ≡ ok tt → x ≡ ok tt
        of_internal (ok m) q = q
        of_internal (err y) q = absurd (ground arith)

    clone_here-Fine :
        src.node ≡ node
        → Keeps Fine (clone_here host cfg parent_dataset node a dataset src (transient a))
    unfolding clone_here after_copy
    clone_here-Fine here = with_room host cfg parent_dataset node start a dataset _ (λ h room p.
        let taken = taken-Fine here h room p in
        then_at Fine (or_internal (Zfs.take_snapshot host src.dataset (transient a))) _ h taken
          (λ _ q. snapshotted-Fine _ (taken-Told h q) taken))

  pub clone_from_volume-Fine : Keeps Fine (clone_from_volume host cfg parent_dataset node a dataset)
  unfolding clone_from_volume
  clone_from_volume-Fine = parsed (parse_id a.content_volume_id) refl
    where
      parsed :
          (r : Result ExternalId)
          → parse_id a.content_volume_id ≡ r
          → Keeps Fine (
              lift r >>= λ src.
              if src.node == node
              then clone_here host cfg parent_dataset node a dataset src (transient a)
              else fail (coded Code.failed_precondition))
      parsed (err x) e = record { at = λ h p. p }
      parsed (ok src) e = elim (Bool-cases (src.node == node)) [
        | inl here ↦ record {
          at = rw here (λ h. (clone_here-Fine src e ((text_beq_iff src.node node).0 here)).at h);
        }
        | inr there ↦ record { at = rw there (λ h p. p) }
      ]
