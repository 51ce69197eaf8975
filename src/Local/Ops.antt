-- ===== src/Local/Ops.antt =====
-- internal/driver/local/localops.go: the other operations of the node that owns a volume.
pub mod Delete
pub mod Expand
use nomad_csi_driver.Base.{
  ℕ, suc, ℤ, pos, negsuc, Text, Bool, true, false, not, ◌&&◌, List, [], ◌∷◌, ◌++◌, Option, none,
  some, map, length, zero, codes, text_eq, int_eq, eqb, ◌==◌, if◌then◌else◌,
}
use nomad_csi_driver.Base.Int.{◌+ℤ◌, ◌-ℤ◌, ltb_ℤ, leb_ℤ}
use nomad_csi_driver.Driver.Errors.{
  Error, Code, coded, Result, ok, err, Io, pure, fail, lift, ◌>>=◌, ◌>>◌,
}
use nomad_csi_driver.Go.Strings.{cut, has_prefix}
use nomad_csi_driver.Host.Mounts.{Host, History}
use nomad_csi_driver.Host.Zfs
use nomad_csi_driver.Host.Zfs.{Zvol, SnapshotEntry, at_snapshot}
use nomad_csi_driver.Local.ExternalId.{
  ExternalId, slash, parse_id, parse_snapshot_id, print_id, print_snapshot_id, sanitize_name,
}
use nomad_csi_driver.Local.Params.{LocalConfig, PoolConfig}
use nomad_csi_driver.Local.Size.{wrap64, times}
use nomad_csi_driver.Local.Wire.{
  ExpandArgs, SnapshotArgs, SnapshotResult, StatsResult, VolWire, SnapWire,
}
use nomad_csi_driver.Local.Capacity.{or_internal, div_trunc, max64, unreserved}
use nomad_csi_driver.Local.Create.{parent_dataset_for}

-- `(required + block - 1) / block * block` in int64, for a block above zero.
abbrev pub to_blocks : ℤ → ℕ → ℤ
to_blocks required block =
    wrap64 (times (div_trunc (wrap64 (wrap64 (required +ℤ pos block) -ℤ pos 1)) block) (pos block))

unfoldable pub over_limit : ℤ → ℤ → Bool
over_limit limit size = ltb_ℤ (pos 0) limit && ltb_ℤ limit size

module _ (host : Host) (cfg : LocalConfig) (parent_dataset node : Text) where
  unfoldable pub destroy_if_bare : Text → List SnapshotEntry → Io History (Unit {0})
  destroy_if_bare dataset [] = or_internal (Zfs.destroy_zvol host dataset)
  destroy_if_bare dataset (s ∷ ss) = fail (coded Code.failed_precondition)

  unfoldable pub delete_present : Text → Io History (Unit {0})
  unfolding destroy_if_bare
  delete_present dataset = do
    snaps ← or_internal (Zfs.list_snapshots host dataset)
    destroy_if_bare dataset snaps

  unfoldable pub delete_dataset : Text → Io History (Unit {0})
  unfolding delete_present
  delete_dataset dataset = do
    there ← or_internal (Zfs.dataset_exists host dataset)
    if there then delete_present dataset else pure tt

  unfoldable pub local_delete : Text → Io History (Unit {0})
  unfolding delete_dataset
  local_delete volume_id = do
    eid ← lift (parse_id volume_id)
    if eid.node == node then delete_dataset eid.dataset else fail (coded Code.internal)

  unfoldable pub local_exists : Text → Io History Bool
  local_exists volume_id = do
    eid ← lift (parse_id volume_id)
    or_internal (Zfs.dataset_exists host eid.dataset)

  unfoldable pub grow_to : Text → ℤ → ℤ → Io History ℤ
  grow_to dataset cur size =
      if ltb_ℤ size cur
      then fail (coded Code.out_of_range)
      else if size == cur
      then pure cur
      else (do
        or_internal (Zfs.set_volsize host dataset size)
        or_internal (Zfs.get_volsize host dataset))

  unfoldable pub expand_to : Text → ℤ → ℤ → Io History ℤ
  unfolding grow_to over_limit
  expand_to dataset limit size =
      if over_limit limit size
      then fail (coded Code.out_of_range)
      else (do cur ← or_internal (Zfs.get_volsize host dataset); grow_to dataset cur size)

  unfoldable pub expand_by : Text → ℤ → ℤ → ℤ → Io History ℤ
  unfolding expand_to
  expand_by dataset required limit (pos (suc block)) =
      expand_to dataset limit (to_blocks required (suc block))
  expand_by dataset required limit (pos zero) = fail (coded Code.internal)
  expand_by dataset required limit (negsuc n) = fail (coded Code.internal)

  unfoldable pub local_expand : ExpandArgs → Io History ℤ
  unfolding expand_by
  local_expand a = do
    eid ← lift (parse_id a.volume_id)
    block ← or_internal (Zfs.get_volblocksize host eid.dataset)
    expand_by eid.dataset a.required_bytes a.limit_bytes block

  unfoldable pub snapshot_dataset : Text → Text → Io History SnapshotResult
  snapshot_dataset dataset name = do
    or_internal (Zfs.take_snapshot host dataset name)
    size ← or_internal (Zfs.get_volsize host dataset)
    created ← or_internal (Zfs.get_creation host (at_snapshot dataset name))
    pure (record {
      snapshot_id = print_snapshot_id (record { node = node; dataset = dataset; snap_name = name });
      size_bytes = size;
      creation_unix = created;
      ready_to_use = true;
    })

  unfoldable pub local_snapshot : SnapshotArgs → Io History SnapshotResult
  unfolding snapshot_dataset
  local_snapshot a = do
    src ← lift (parse_id a.source_volume_id)
    snapshot_dataset src.dataset (sanitize_name a.name)

  unfoldable pub drop_snapshot : Text → Text → Io History (Unit {0})
  drop_snapshot dataset name = do
    there ← or_internal (Zfs.dataset_exists host (at_snapshot dataset name))
    if there then or_internal (Zfs.destroy_snapshot host dataset name) else pure tt

  unfoldable pub local_delete_snapshot : Text → Io History (Unit {0})
  unfolding drop_snapshot
  local_delete_snapshot id = do
    sid ← lift (parse_snapshot_id id)
    drop_snapshot sid.dataset sid.snap_name

  -- An entry without '@' is left out.
  wire_of : SnapshotEntry → Option (Text × Text) → List SnapWire → List SnapWire
  wire_of e none rest = rest
  wire_of e (some (ds, snap)) rest =
      record {
        snapshot_id = print_snapshot_id (record { node = node; dataset = ds; snap_name = snap });
        source_volume_id = print_id (record { node = node; dataset = ds });
        size_bytes = e.volsize_bytes;
        creation_unix = e.creation_unix;
        ready_to_use = true;
      }
      ∷ rest

  wires : List SnapshotEntry → List SnapWire
  unfolding wire_of
  wires [] = []
  wires (e ∷ es) = wire_of e (cut b'@' e.name) (wires es)

  unfoldable pub snapshots_in : List Text → Io History (List SnapWire)
  unfolding wires
  snapshots_in [] = pure []
  snapshots_in (target ∷ targets) = do
    entries ← or_internal (Zfs.list_snapshots host target)
    rest ← snapshots_in targets
    pure (wires entries ++ rest)

  parents : List PoolConfig → List Text
  parents ps = map (λ p. parent_dataset_for host cfg parent_dataset node p.name) ps

  unfoldable pub local_list_snapshots : Text → Io History (List SnapWire)
  unfolding snapshots_in parents
  local_list_snapshots dataset =
      snapshots_in (if dataset == [] then parents cfg.pools else dataset ∷ [])

  -- The zvols under the parent dataset of a pool.
  under : Text → List Zvol → List VolWire
  under prefix [] = []
  under prefix (v ∷ vs) =
      let rest = under prefix vs in
      if has_prefix prefix v.name
      then record {
        volume_id = print_id (record { node = node; dataset = v.name });
        capacity_bytes = v.size_byte;
      }
        ∷ rest
      else rest

  unfoldable pub volumes_in : List Text → Io History (List VolWire)
  unfolding under
  volumes_in [] = pure []
  volumes_in (parent ∷ ps) = do
    vols ← or_internal (Zfs.list_zvols host parent)
    rest ← volumes_in ps
    pure (under (parent ++ slash ∷ []) vols ++ rest)

  unfoldable pub local_list : Io History (List VolWire)
  unfolding volumes_in parents
  local_list = volumes_in (parents cfg.pools)

  no_pool : StatsResult
  no_pool = record {
    node = node;
    has_pool = false;
    volume_count = pos 0;
    free_bytes = pos 0;
    avail_bytes = pos 0;
  }

  unfoldable pub stats_online : Text → Io History StatsResult
  stats_online pool = do
    vols ← or_internal (Zfs.list_zvols host (parent_dataset_for host cfg parent_dataset node pool))
    free ← or_internal (Zfs.pool_free host pool)
    rest ← unreserved host cfg pool
    pure (record {
      node = node;
      has_pool = true;
      volume_count = pos (length vols);
      free_bytes = free;
      avail_bytes = max64 rest (pos 0);
    })

  unfoldable pub local_stats : Text → Io History StatsResult
  unfolding stats_online no_pool
  local_stats pool = do
    status ← or_internal (Zfs.pool_status host pool)
    if status.0 && status.1 then stats_online pool else pure no_pool
