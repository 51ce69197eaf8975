-- ===== src/Local/Forward/Coded.antt =====
-- internal/driver/local: the operations of a node fail with an error that has a code.
use nomad_csi_driver.Base.{
  ℤ, pos, negsuc, zero, suc, Text, Bool, true, false, refl, List, [], ◌∷◌, Option, none, some,
  text_eq, int_eq, if◌then◌else◌,
}
use nomad_csi_driver.Driver.Errors.{Code, coded, Result, ok, err, Io, lift, attempt, ◌>>◌}
use nomad_csi_driver.Driver.FailsCoded.{
  IsCoded, FailsCoded, FailsCoded-caught, FailsCoded-bind, FailsCoded-pure, coded_rules,
}
use nomad_csi_driver.Host.Mounts.{Host}
use nomad_csi_driver.Host.Zfs
use nomad_csi_driver.Host.Zfs.{SnapshotEntry}
use nomad_csi_driver.Local.ExternalId.{
  ExternalId, SnapshotId, parse_id, id_of_parts, parse_snapshot_id, snapshot_of_parts, with_cut,
}
use nomad_csi_driver.Local.Params.{LocalConfig}
use nomad_csi_driver.Local.Wire.{CreateArgs, ExpandArgs, SnapshotArgs}
use nomad_csi_driver.Local.Capacity.{internal_of, or_internal, unreserved, check_capacity}
use nomad_csi_driver.Local.Create.{
  local_create, create_in_pool, create_new, create_fresh, provision, reuse, same_source,
  clone_from_volume, clone_here, restore_from_snapshot, restore_here, record_provenance,
  grow_if_needed,
}
use nomad_csi_driver.Local.Ops.{
  local_delete, delete_dataset, delete_present, destroy_if_bare, local_exists, local_expand,
  expand_by, expand_to, grow_to, local_snapshot, snapshot_dataset, local_delete_snapshot,
  drop_snapshot, local_stats, stats_online, local_list, volumes_in, local_list_snapshots,
  snapshots_in,
}
use nomad_csi_driver.Local.Forward.{Method, Args, Node, serve}

or_internal-FailsCoded : {S A : Type 0} (m : Io S A) → FailsCoded (or_internal m)
or_internal-FailsCoded m = record { at = λ s. internal_coded (m s).0 }
  where
    internal_coded : {A : Type 0} (r : Result A) → IsCoded (internal_of r)
    internal_coded (ok a) = tt
    internal_coded (err e) = (Code.internal, refl)

accepted-IsCoded :
    {A : Type 0} (b : Bool) (r : Result A)
    → IsCoded r
    → IsCoded (if b then r else err (coded Code.invalid_argument))
accepted-IsCoded true r h = h
accepted-IsCoded false r h = (Code.invalid_argument, refl)

id_of_parts-IsCoded : (ps : List Text) → IsCoded (id_of_parts ps)
unfolding id_of_parts
id_of_parts-IsCoded (a ∷ v ∷ node ∷ ds ∷ []) = search (accepted-IsCoded)
id_of_parts-IsCoded _ = (Code.invalid_argument, refl)

parse_id-IsCoded : (id : Text) → IsCoded (parse_id id)
unfolding parse_id
parse_id-IsCoded id = id_of_parts-IsCoded _

with_cut-IsCoded : (node : Text) (o : Option (Text × Text)) → IsCoded (with_cut node o)
unfolding with_cut
with_cut-IsCoded node none = (Code.invalid_argument, refl)
with_cut-IsCoded node (some (ds, snap)) = search (accepted-IsCoded)

snapshot_of_parts-IsCoded : (ps : List Text) → IsCoded (snapshot_of_parts ps)
unfolding snapshot_of_parts
snapshot_of_parts-IsCoded (a ∷ v ∷ node ∷ rest ∷ []) = search (accepted-IsCoded, with_cut-IsCoded)
snapshot_of_parts-IsCoded _ = (Code.invalid_argument, refl)

parse_snapshot_id-IsCoded : (id : Text) → IsCoded (parse_snapshot_id id)
unfolding parse_snapshot_id
parse_snapshot_id-IsCoded id = snapshot_of_parts-IsCoded _

ruleset op_rules =
    (coded_rules, or_internal-FailsCoded, parse_id-IsCoded, parse_snapshot_id-IsCoded)

module _ (host : Host) (cfg : LocalConfig) (parent node : Text) where
  check_capacity-FailsCoded :
      (pool : Text) (size : ℤ) → FailsCoded (check_capacity host cfg pool size)
  unfolding check_capacity unreserved
  check_capacity-FailsCoded pool size = search (op_rules)

  module _ (a : CreateArgs) (dataset : Text) where
    stamp-FailsCoded :
        (value : Text) → FailsCoded (record_provenance host cfg parent node dataset value)
    unfolding record_provenance
    stamp-FailsCoded value = search (op_rules)

    grow-FailsCoded : (size : ℤ) → FailsCoded (grow_if_needed host cfg parent node dataset size)
    unfolding grow_if_needed
    grow-FailsCoded size = search (op_rules)

    ruleset part_rules = (op_rules, check_capacity-FailsCoded, stamp-FailsCoded, grow-FailsCoded)

    restore_here-FailsCoded :
        (sid : SnapshotId) → FailsCoded (restore_here host cfg parent node a dataset sid)
    unfolding restore_here
    restore_here-FailsCoded sid = search (part_rules)

    restore-FailsCoded : FailsCoded (restore_from_snapshot host cfg parent node a dataset)
    unfolding restore_from_snapshot
    restore-FailsCoded = search (part_rules, restore_here-FailsCoded)

    after_copy-FailsCoded :
        (src : ExternalId) (snap : Text) (copied : Result (Unit {0}))
        → IsCoded copied
        → FailsCoded (do
          attempt (Zfs.destroy_snapshot host src.dataset snap)
          lift copied
          record_provenance host cfg parent node dataset a.content_volume_id
          grow_if_needed host cfg parent node dataset a.size_bytes)
    after_copy-FailsCoded src snap copied h = search (part_rules)

    clone_here-FailsCoded :
        (src : ExternalId) (snap : Text)
        → FailsCoded (clone_here host cfg parent node a dataset src snap)
    unfolding clone_here
    clone_here-FailsCoded src snap = search (part_rules, FailsCoded-caught, after_copy-FailsCoded)

    clone-FailsCoded : FailsCoded (clone_from_volume host cfg parent node a dataset)
    unfolding clone_from_volume
    clone-FailsCoded = search (part_rules, clone_here-FailsCoded)

    fresh-FailsCoded : FailsCoded (create_fresh host cfg parent node a dataset)
    unfolding create_fresh
    fresh-FailsCoded = search (part_rules)

    provision-FailsCoded : FailsCoded (provision host cfg parent node a dataset)
    unfolding provision
    provision-FailsCoded = search (op_rules, restore-FailsCoded, clone-FailsCoded, fresh-FailsCoded)

    same_source-FailsCoded : FailsCoded (same_source host cfg parent node a dataset)
    unfolding same_source
    same_source-FailsCoded = search (op_rules)

    in_pool-FailsCoded : FailsCoded (create_in_pool host cfg parent node a dataset)
    unfolding create_in_pool reuse create_new
    in_pool-FailsCoded = search (op_rules, provision-FailsCoded, same_source-FailsCoded)

  create-FailsCoded : (a : CreateArgs) → FailsCoded (local_create host cfg parent node a)
  unfolding local_create
  create-FailsCoded a = search (op_rules, in_pool-FailsCoded a)

  bare-FailsCoded :
      (dataset : Text) (snaps : List SnapshotEntry)
      → FailsCoded (destroy_if_bare host cfg parent node dataset snaps)
  unfolding destroy_if_bare
  bare-FailsCoded dataset [] = search (op_rules)
  bare-FailsCoded dataset (s ∷ ss) = search (op_rules)

  delete_dataset-FailsCoded :
      (dataset : Text) → FailsCoded (delete_dataset host cfg parent node dataset)
  unfolding delete_dataset delete_present
  delete_dataset-FailsCoded dataset = search (op_rules, bare-FailsCoded)

  delete-FailsCoded : (id : Text) → FailsCoded (local_delete host cfg parent node id)
  unfolding local_delete
  delete-FailsCoded id = search (op_rules, delete_dataset-FailsCoded)

  exists-FailsCoded : (id : Text) → FailsCoded (local_exists host cfg parent node id)
  unfolding local_exists
  exists-FailsCoded id = search (op_rules)

  grow_to-FailsCoded :
      (d : Text) (cur size : ℤ) → FailsCoded (grow_to host cfg parent node d cur size)
  unfolding grow_to
  grow_to-FailsCoded d cur size = search (op_rules)

  expand_by-FailsCoded :
      (d : Text) (required limit block : ℤ)
      → FailsCoded (expand_by host cfg parent node d required limit block)
  unfolding expand_by expand_to
  expand_by-FailsCoded d required limit (pos (suc block)) = search (op_rules, grow_to-FailsCoded)
  expand_by-FailsCoded d required limit (pos zero) = search (op_rules)
  expand_by-FailsCoded d required limit (negsuc n) = search (op_rules)

  expand-FailsCoded : (a : ExpandArgs) → FailsCoded (local_expand host cfg parent node a)
  unfolding local_expand
  expand-FailsCoded a = search (op_rules, expand_by-FailsCoded)

  snapshot_dataset-FailsCoded :
      (d name : Text) → FailsCoded (snapshot_dataset host cfg parent node d name)
  unfolding snapshot_dataset
  snapshot_dataset-FailsCoded d name = search (op_rules)

  snapshot-FailsCoded : (a : SnapshotArgs) → FailsCoded (local_snapshot host cfg parent node a)
  unfolding local_snapshot
  snapshot-FailsCoded a = search (op_rules, snapshot_dataset-FailsCoded)

  delete_snapshot-FailsCoded :
      (id : Text) → FailsCoded (local_delete_snapshot host cfg parent node id)
  unfolding local_delete_snapshot drop_snapshot
  delete_snapshot-FailsCoded id = search (op_rules)

  unreserved-FailsCoded : (pool : Text) → FailsCoded (unreserved host cfg pool)
  unfolding unreserved
  unreserved-FailsCoded pool = search (op_rules)

  online-FailsCoded : (pool : Text) → FailsCoded (stats_online host cfg parent node pool)
  unfolding stats_online
  online-FailsCoded pool = search (op_rules, unreserved-FailsCoded)

  stats-FailsCoded : (pool : Text) → FailsCoded (local_stats host cfg parent node pool)
  unfolding local_stats
  stats-FailsCoded pool = search (op_rules, online-FailsCoded)

  volumes_in-FailsCoded : (ps : List Text) → FailsCoded (volumes_in host cfg parent node ps)
  unfolding volumes_in
  volumes_in-FailsCoded [] = search (op_rules)
  volumes_in-FailsCoded (p ∷ ps) =
      FailsCoded-bind _ _ (or_internal-FailsCoded (Zfs.list_zvols host p))
        (λ vols. FailsCoded-bind _ _ (volumes_in-FailsCoded ps) (λ rest. FailsCoded-pure _))

  list-FailsCoded : FailsCoded (local_list host cfg parent node)
  unfolding local_list
  list-FailsCoded = volumes_in-FailsCoded _

  snapshots_in-FailsCoded : (ts : List Text) → FailsCoded (snapshots_in host cfg parent node ts)
  unfolding snapshots_in
  snapshots_in-FailsCoded [] = search (op_rules)
  snapshots_in-FailsCoded (t ∷ ts) =
      FailsCoded-bind _ _ (or_internal-FailsCoded (Zfs.list_snapshots host t))
        (λ entries. FailsCoded-bind _ _ (snapshots_in-FailsCoded ts) (λ rest. FailsCoded-pure _))

  list_snapshots-FailsCoded : (d : Text) → FailsCoded (local_list_snapshots host cfg parent node d)
  unfolding local_list_snapshots
  list_snapshots-FailsCoded d = snapshots_in-FailsCoded _

pub serve-FailsCoded :
    (n : Node) (name : Text) (m : Method) (a : Args m) → FailsCoded (serve n name m a)
unfolding serve
serve-FailsCoded n name Method.create a = create-FailsCoded n.host n.config n.parent_dataset name a
serve-FailsCoded n name Method.delete id =
    delete-FailsCoded n.host n.config n.parent_dataset name id
serve-FailsCoded n name Method.expand a = expand-FailsCoded n.host n.config n.parent_dataset name a
serve-FailsCoded n name Method.snapshot a =
    snapshot-FailsCoded n.host n.config n.parent_dataset name a
serve-FailsCoded n name Method.delete_snapshot id =
    delete_snapshot-FailsCoded n.host n.config n.parent_dataset name id
serve-FailsCoded n name Method.stats pool =
    stats-FailsCoded n.host n.config n.parent_dataset name pool
serve-FailsCoded n name Method.list a = list-FailsCoded n.host n.config n.parent_dataset name
serve-FailsCoded n name Method.list_snapshots d =
    list_snapshots-FailsCoded n.host n.config n.parent_dataset name d
serve-FailsCoded n name Method.exists id =
    exists-FailsCoded n.host n.config n.parent_dataset name id
