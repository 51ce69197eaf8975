-- ===== src/Local/Controller.antt =====
-- internal/driver/local/controller.go: the controller's operations, at the node `here`.
pub mod Delete
use nomad_csi_driver.Base.{
  ℤ, pos, Text, Bool, true, false, not, ◌&&◌, List, [], ◌∷◌, ◌++◌, Option, none, some, map, codes,
  contains, text_eq, int_eq, ◌==◌, if◌then◌else◌,
}
use nomad_csi_driver.Base.Int.{ltb_ℤ, leb_ℤ}
use nomad_csi_driver.Base.Map.{Map}
use nomad_csi_driver.Driver.Errors.{
  Error, Code, coded, Result, ok, err, Io, pure, fail, lift, attempt, ◌>>=◌, ◌>>◌,
}
use nomad_csi_driver.Driver.Types.{
  CapacityRange, Topology, ContentSource, CreateVolumeRequest, Volume, CreateSnapshotRequest,
  Snapshot, VolumeInfo, SnapshotInfo,
}
use nomad_csi_driver.Host.Mounts.{History}
use nomad_csi_driver.Host.Zfs
use nomad_csi_driver.Qnap.Params.{get_or_empty, or_else, invalid}
use nomad_csi_driver.Local.ExternalId.{
  ExternalId, SnapshotId, parse_id, parse_snapshot_id, sanitize_name,
}
use nomad_csi_driver.Local.Params.{PoolConfig, VolumeParams, resolve_params, pool_by_name}
use nomad_csi_driver.Local.Size.{Outcome, panics, answers, round_up_to_block}
use nomad_csi_driver.Local.Placement.{place_volume}
use nomad_csi_driver.Local.Capacity.{or_internal, max64, unreserved}
use nomad_csi_driver.Local.Wire.{CreateArgs, CreateResult, SnapshotResult, VolWire, SnapWire}
use nomad_csi_driver.Local.Forward.{Method, Node, Network, Cluster, with_history, on_owner}

abbrev pub topology_key : Text
topology_key = codes "io.honesthosting.csi.topology/node"

abbrev on_node : Text → List Topology
on_node node = record { segments = (topology_key, node) ∷ [] } ∷ []

-- The interceptor of the service recovers a panic as Internal.
pub recovered : Outcome → Result ℤ
recovered panics = err (coded Code.internal)
recovered (answers r) = r

-- The zero time stands for no time.
abbrev unix_time : ℤ → Option ℤ
unix_time t = if ltb_ℤ (pos 0) t then some t else none

snapshot_source : Option ContentSource → Text
snapshot_source none = []
snapshot_source (some src) = src.snapshot_id

volume_source : Option ContentSource → Text
volume_source none = []
volume_source (some src) = src.volume_id

unfoldable pub create_args_of : CreateVolumeRequest → VolumeParams → ℤ → CreateArgs
unfolding snapshot_source volume_source
create_args_of req vp size = record {
  name = sanitize_name req.name;
  pool = vp.pool;
  size_bytes = size;
  volblocksize = vp.volblocksize;
  fs_type = vp.fs_type;
  block = vp.block;
  content_snapshot_id = snapshot_source req.content_source;
  content_volume_id = volume_source req.content_source;
}

volume_of : CreateVolumeRequest → Text → CreateResult → Volume
volume_of req node res = record {
  volume_id = res.volume_id;
  capacity_bytes = res.capacity_bytes;
  volume_context =
      (codes "dataset", res.dataset)
      ∷ (codes "node", node)
      ∷ (if res.fs_type == [] then [] else (codes "fsType", res.fs_type) ∷ []);
  accessible_topology = on_node node;
  content_source = req.content_source;
}

snapshot_infos : List SnapWire → List SnapshotInfo
snapshot_infos ws =
    map
      (λ w. record {
        snapshot_id = w.snapshot_id;
        source_volume_id = w.source_volume_id;
        size_bytes = w.size_bytes;
        creation_time = unix_time w.creation_unix;
        ready_to_use = w.ready_to_use;
      })
      ws

volume_infos : Text → List VolWire → List VolumeInfo
volume_infos node vs =
    map
      (λ v. record {
        volume_id = v.volume_id;
        capacity_bytes = v.capacity_bytes;
        accessible_topology = on_node node;
      })
      vs

-- Whether the context of the request is marked as forwarded, and the local node.
module _ (nodes : Text → Node) (net : Network) (is_forwarded : Bool) (here : Text) where
  -- The nodes that placeVolume asks about the pool.
  peers_of : Result (List Text) → List Text
  peers_of (ok ps) = ps
  peers_of (err e) = []

  asked_for : VolumeParams → Option ContentSource → List Text → List Text
  unfolding snapshot_source volume_source
  asked_for vp src peers =
      if not (snapshot_source src == [] && volume_source src == [])
      then []
      else if vp.host == codes "auto"
      then peers
      else if contains peers vp.host
      then vp.host ∷ []
      else []

  ask_all : Text → List Text → Cluster → Cluster
  ask_all pool [] s = s
  ask_all pool (p ∷ ps) s =
      ask_all pool ps (on_owner nodes net is_forwarded here p Method.stats pool s).1

  -- Each peer is asked once, on its own host, so its answer does not depend on those of the others.
  unfoldable pub place : VolumeParams → ℤ → Option ContentSource → Io Cluster Text
  unfolding peers_of asked_for ask_all
  place vp size src s = (
    place_volume (net.list s)
        (λ node. (on_owner nodes net is_forwarded here node Method.stats vp.pool s).0) vp size src,
    ask_all vp.pool (asked_for vp src (peers_of (net.list s))) s,
  )

  unfoldable pub create_volume : CreateVolumeRequest → Io Cluster Volume
  unfolding recovered place create_args_of volume_of
  create_volume req = do
    vp ← lift (resolve_params (nodes here).config req.parameters req.volume_capabilities)
    size ← lift (recovered (round_up_to_block req.capacity_range vp.volblocksize))
    node ← place vp size req.content_source
    res ← on_owner nodes net is_forwarded here node Method.create (create_args_of req vp size)
    pure (volume_of req node res)

  unfoldable pub delete_volume : Text → Io Cluster (Unit {0})
  delete_volume id = do
    eid ← lift (parse_id id)
    on_owner nodes net is_forwarded here eid.node Method.delete id

  unfoldable pub volume_exists : Text → Io Cluster Bool
  volume_exists id = do
    eid ← lift (parse_id id)
    on_owner nodes net is_forwarded here eid.node Method.exists id

  -- The size, and that the node must grow the file system.
  unfoldable pub expand_volume : Text → CapacityRange → Io Cluster (ℤ × Bool)
  expand_volume id cr = do
    eid ← lift (parse_id id)
    if leb_ℤ cr.required_bytes (pos 0) then fail (coded Code.invalid_argument) else pure tt
    size ← on_owner nodes net is_forwarded here eid.node Method.expand (record {
      volume_id = id;
      required_bytes = cr.required_bytes;
      limit_bytes = cr.limit_bytes;
    })
    pure (size, true)

  unfoldable pub create_snapshot : CreateSnapshotRequest → Io Cluster Snapshot
  create_snapshot req = do
    eid ← lift (parse_id req.source_volume_id)
    res ←
        on_owner nodes net is_forwarded here eid.node Method.snapshot
          (record { source_volume_id = req.source_volume_id; name = req.name })
    pure (record {
      snapshot_id = res.snapshot_id;
      source_volume_id = req.source_volume_id;
      size_bytes = res.size_bytes;
      creation_time = unix_time res.creation_unix;
      ready_to_use = res.ready_to_use;
    })

  unfoldable pub delete_snapshot : Text → Io Cluster (Unit {0})
  delete_snapshot id = do
    sid ← lift (parse_snapshot_id id)
    on_owner nodes net is_forwarded here sid.node Method.delete_snapshot id

  -- An operation on the host of this node.
  here_on : {A : Type 0} → Io History A → Io Cluster A
  here_on m s = let (r, h) = m (s here) in (r, with_history here h s)

  capacity_of : Text → Option PoolConfig → Io Cluster ℤ
  unfolding here_on
  capacity_of pool none = fail (coded Code.invalid_argument)
  capacity_of pool (some p) = do
    status ← here_on (or_internal (Zfs.pool_status (nodes here).host pool))
    if status.0 && status.1
        then (do
          rest ← here_on (unreserved (nodes here).host (nodes here).config pool)
          pure (max64 rest (pos 0)))
        else pure (pos 0)

  unfoldable pub get_capacity : Map Text Text → Io Cluster ℤ
  unfolding capacity_of
  get_capacity params =
      let pool = or_else (get_or_empty (codes "pool") params) (nodes here).config.default_pool in
      capacity_of pool (pool_by_name (nodes here).config pool)

  -- A peer that fails is left out.
  volumes_of : Text → Result (List VolWire) → List VolumeInfo
  unfolding volume_infos
  volumes_of p (ok vs) = volume_infos p vs
  volumes_of p (err e) = []

  volumes_from : List Text → Io Cluster (List VolumeInfo)
  unfolding volumes_of
  volumes_from [] = pure []
  volumes_from (p ∷ ps) = do
    r ← attempt (on_owner nodes net is_forwarded here p Method.list tt)
    rest ← volumes_from ps
    pure (volumes_of p r ++ rest)

  unavailable_of : {A : Type 0} → Result A → Result A
  unavailable_of (ok a) = ok a
  unavailable_of (err e) = err (coded Code.unavailable)

  list_peers : Io Cluster (List Text)
  unfolding unavailable_of
  list_peers s = (unavailable_of (net.list s), s)

  unfoldable pub list_volumes : Io Cluster (List VolumeInfo)
  unfolding list_peers volumes_from
  list_volumes = do peers ← list_peers; volumes_from peers

  snapshots_of : Result (List SnapWire) → List SnapshotInfo
  unfolding snapshot_infos
  snapshots_of (ok ws) = snapshot_infos ws
  snapshots_of (err e) = []

  snapshots_from : List Text → Io Cluster (List SnapshotInfo)
  unfolding snapshots_of
  snapshots_from [] = pure []
  snapshots_from (p ∷ ps) = do
    r ← attempt (on_owner nodes net is_forwarded here p Method.list_snapshots [])
    rest ← snapshots_from ps
    pure (snapshots_of r ++ rest)

  snapshots_on : Text → Io Cluster (List SnapshotInfo)
  unfolding snapshot_infos
  snapshots_on source = do
    eid ← lift (parse_id source)
    ws ← on_owner nodes net is_forwarded here eid.node Method.list_snapshots eid.dataset
    pure (snapshot_infos ws)

  unfoldable pub list_snapshots : Text → Io Cluster (List SnapshotInfo)
  unfolding list_peers snapshots_from snapshots_on
  list_snapshots source =
      if source == [] then (do peers ← list_peers; snapshots_from peers) else snapshots_on source
