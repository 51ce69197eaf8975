-- ===== src/Local/Create.antt =====
-- internal/driver/local/localops.go: localCreate, with the copies from a snapshot and from a volume.
pub mod Calls
pub mod Fresh
pub mod Copies
pub mod Safety
use nomad_csi_driver.Base.{
  ℤ, Text, Bool, not, ◌&&◌, [], ◌∷◌, ◌++◌, Option, none, some, codes, text_eq, int_eq, ◌==◌,
  if◌then◌else◌,
}
use nomad_csi_driver.Base.Int.{ltb_ℤ, leb_ℤ}
use nomad_csi_driver.Driver.Errors.{
  Error, Code, coded, Result, ok, err, Io, pure, fail, lift, attempt, ◌>>=◌, ◌>>◌,
}
use nomad_csi_driver.Host.Mounts.{Host, History}
use nomad_csi_driver.Host.Zfs
use nomad_csi_driver.Local.ExternalId.{
  ExternalId, SnapshotId, slash, parse_id, parse_snapshot_id, print_id,
}
use nomad_csi_driver.Local.Params.{LocalConfig, PoolConfig, pool_by_name}
use nomad_csi_driver.Local.Wire.{CreateArgs, CreateResult}
use nomad_csi_driver.Local.Capacity.{or_internal, check_capacity}

abbrev pub source_prop : Text
source_prop = codes "nomad-csi:source"

-- The id of what a create copies, empty for a new volume.
unfoldable pub content_source_id : CreateArgs → Text
content_source_id a =
    if a.content_snapshot_id == [] then a.content_volume_id else a.content_snapshot_id

parent_of : Text → Option PoolConfig → Text
parent_of default none = default
parent_of default (some p) = if p.parent_dataset == [] then default else p.parent_dataset

-- The node that runs the operations: its settings, the parent dataset of a deployment, and its name.
module _ (host : Host) (cfg : LocalConfig) (parent_dataset node : Text) where
  unfoldable pub parent_dataset_for : Text → Text
  unfolding parent_of pool_by_name
  parent_dataset_for pool = pool ++ slash ∷ parent_of parent_dataset (pool_by_name cfg pool)

  unfoldable pub dataset_for : Text → Text → Text
  unfolding parent_dataset_for
  dataset_for pool name = parent_dataset_for pool ++ slash ∷ name

  unfoldable pub result : CreateArgs → Text → CreateResult
  result a dataset = record {
    volume_id = print_id (record { node = node; dataset = dataset });
    dataset = dataset;
    capacity_bytes = a.size_bytes;
    fs_type = a.fs_type;
  }

  unfoldable pub record_provenance : Text → Text → Io History (Unit {0})
  record_provenance dataset source = or_internal (Zfs.set_user_prop host dataset source_prop source)

  unfoldable pub grow_if_needed : Text → ℤ → Io History (Unit {0})
  grow_if_needed dataset want = do
    cur ← or_internal (Zfs.get_volsize host dataset)
    if leb_ℤ want cur then pure tt else or_internal (Zfs.set_volsize host dataset want)

  -- The copy of a snapshot that this node has.
  unfoldable pub restore_here : CreateArgs → Text → SnapshotId → Io History (Unit {0})
  unfolding record_provenance grow_if_needed
  restore_here a dataset sid = do
    check_capacity host cfg a.pool a.size_bytes
    or_internal (Zfs.clone_independent host sid.dataset sid.snap_name dataset)
    record_provenance dataset a.content_snapshot_id
    grow_if_needed dataset a.size_bytes

  unfoldable pub restore_from_snapshot : CreateArgs → Text → Io History (Unit {0})
  unfolding restore_here
  restore_from_snapshot a dataset = do
    sid ← lift (parse_snapshot_id a.content_snapshot_id)
    if sid.node == node then restore_here a dataset sid else fail (coded Code.failed_precondition)

  -- The transient snapshot is dropped whether the copy worked or not, and an error of that is not
  -- an error of the clone.
  unfoldable pub clone_here : CreateArgs → Text → ExternalId → Text → Io History (Unit {0})
  unfolding record_provenance grow_if_needed
  clone_here a dataset src snap = do
    check_capacity host cfg a.pool a.size_bytes
    or_internal (Zfs.take_snapshot host src.dataset snap)
    copied ← attempt (or_internal (Zfs.clone_independent host src.dataset snap dataset))
    attempt (Zfs.destroy_snapshot host src.dataset snap)
    lift copied
    record_provenance dataset a.content_volume_id
    grow_if_needed dataset a.size_bytes

  unfoldable pub clone_from_volume : CreateArgs → Text → Io History (Unit {0})
  unfolding clone_here
  clone_from_volume a dataset = do
    src ← lift (parse_id a.content_volume_id)
    if src.node == node
        then clone_here a dataset src (codes "csiclone-" ++ a.name)
        else fail (coded Code.failed_precondition)

  unfoldable pub create_fresh : CreateArgs → Text → Io History (Unit {0})
  create_fresh a dataset = do
    check_capacity host cfg a.pool a.size_bytes
    or_internal (Zfs.create_zvol host dataset a.size_bytes a.volblocksize)

  unfoldable pub provision : CreateArgs → Text → Io History (Unit {0})
  unfolding restore_from_snapshot clone_from_volume create_fresh
  provision a dataset =
      if not (a.content_snapshot_id == [])
      then restore_from_snapshot a dataset
      else if not (a.content_volume_id == [])
      then clone_from_volume a dataset
      else create_fresh a dataset

  unfoldable pub same_source : CreateArgs → Text → Io History CreateResult
  unfolding result content_source_id
  same_source a dataset = if content_source_id a == [] then pure (result a dataset) else (do
    got ← or_internal (Zfs.get_user_prop host dataset source_prop)
    if got == content_source_id a
        then pure (result a dataset)
        else fail (coded Code.already_exists))

  -- A dataset by the name is the volume if its size and its source are those asked for.
  unfoldable pub reuse : CreateArgs → Text → Io History CreateResult
  unfolding same_source
  reuse a dataset = do
    cur ← or_internal (Zfs.get_volsize host dataset)
    if cur == a.size_bytes then same_source a dataset else fail (coded Code.already_exists)

  unfoldable pub create_new : CreateArgs → Text → Io History CreateResult
  unfolding provision result
  create_new a dataset = do provision a dataset; pure (result a dataset)

  unfoldable pub create_in_pool : CreateArgs → Text → Io History CreateResult
  unfolding reuse create_new
  create_in_pool a dataset = do
    there ← or_internal (Zfs.dataset_exists host dataset)
    if there then reuse a dataset else create_new a dataset

  unfoldable pub local_create : CreateArgs → Io History CreateResult
  unfolding create_in_pool dataset_for
  local_create a = do
    status ← or_internal (Zfs.pool_status host a.pool)
    if status.0 && status.1
        then create_in_pool a (dataset_for a.pool a.name)
        else fail (coded Code.failed_precondition)
