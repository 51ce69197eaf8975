-- ===== src/Csi/Controller.antt =====
-- internal/csi/controller.go: the controller service over a backend. Handlers return plain errors;
-- a handler runs from its first line to its answer, and what other handlers do between shows in
-- the locks that it finds.
pub mod Release
pub mod Refusals
use nomad_csi_driver.Base.{
  ℤ, Text, Bool, true, false, not, ◌&&◌, ◌||◌, List, [], ◌∷◌, ◌++◌, Option, none, some, map,
  text_eq, ◌==◌, if◌then◌else◌,
}
use nomad_csi_driver.Base.Map.{Map}
use nomad_csi_driver.Driver.Errors.{
  Code, Error, coded, Result, ok, err, Io, pure, fail, lift, ◌>>=◌, ◌>>◌,
}
use nomad_csi_driver.Driver.Types.{
  VolumeCapability, CapacityRange, Topology, ContentSource, CreateVolumeRequest, Volume,
  CreateSnapshotRequest, Snapshot, VolumeInfo, SnapshotInfo, Capabilities,
}
use nomad_csi_driver.Driver.Backend.{ControllerBackend}
use nomad_csi_driver.Csi.Messages.{
  RpcType, TopologyRequirement, CsiCreateVolume, CsiVolume, Rpc, Reply, create_volume,
  delete_volume, publish_volume, unpublish_volume, validate_capabilities, get_capacity,
  create_snapshot, delete_snapshot, expand_volume, list_volumes, list_snapshots, created, done,
  published, confirmed, not_confirmed, capacity, snapshotted, expanded, volumes, snapshots,
}
use nomad_csi_driver.Csi.Serving.{Server, guarded, locked, on_backend, when}
use nomad_csi_driver.Csi.Conv.{
  CsiCapability, CsiSource, to_volume_capability, to_volume_capabilities, to_capacity_range,
  to_content_source, from_content_source, to_driver_topologies, from_driver_topologies,
}

unfoldable pub topology_requirement : Option TopologyRequirement → List Topology
unfolding to_driver_topologies
topology_requirement none = []
topology_requirement (some r) = elim r.preferred [
  | [] ↦ to_driver_topologies r.requisite
  | t ∷ ts ↦ to_driver_topologies (t ∷ ts)
]

pub topology_list : Option (Map Text Text) → List (Map Text Text)
topology_list none = []
topology_list (some t) = t ∷ []

pub from_volume : Volume → CsiVolume
from_volume v = record {
  volume_id = v.volume_id;
  capacity_bytes = v.capacity_bytes;
  volume_context = v.volume_context;
  accessible_topology = from_driver_topologies v.accessible_topology;
  content_source = from_content_source v.content_source;
}

pub from_info : VolumeInfo → CsiVolume
from_info v = record {
  volume_id = v.volume_id;
  capacity_bytes = v.capacity_bytes;
  volume_context = [];
  accessible_topology = from_driver_topologies v.accessible_topology;
  content_source = none;
}

-- The optional exact match of ListSnapshots.
unfoldable pub matching : Text → List SnapshotInfo → List SnapshotInfo
matching want [] = []
matching want (s ∷ ss) =
    let rest = matching want ss in
    if not (want == []) && not (s.snapshot_id == want) then rest else s ∷ rest

module _ {S : Type 0} (backend : ControllerBackend S) (caps : Capabilities) where
  unfoldable pub create_body : CsiCreateVolume → Io S Reply
  create_body r = do
    vcs ← lift (to_volume_capabilities r.volume_capabilities)
    v ← backend.create_volume (record {
      name = r.name;
      capacity_range = to_capacity_range r.capacity_range;
      volume_capabilities = vcs;
      parameters = r.parameters;
      secrets = r.secrets;
      content_source = to_content_source r.content_source;
      topology_requirement = topology_requirement r.accessibility;
    })
    pure (created (from_volume v))

  unfoldable pub publish_body :
      Text → Text → Option CsiCapability → Bool → Map Text Text → Map Text Text → Io S Reply
  publish_body id node c ro ctx secrets = do
    vc ← lift (to_volume_capability c)
    p ← backend.publish_volume id node vc ro ctx secrets
    pure (published p)

  abbrev confirm : List (Option CsiCapability) → Result (List VolumeCapability) → Reply
  confirm cs (err e) = not_confirmed e
  confirm cs (ok _) = confirmed cs

  unfoldable pub validate_body : Text → List (Option CsiCapability) → Io S Reply
  validate_body id cs = do
    exists ← backend.volume_exists id
    if exists then pure (confirm cs (to_volume_capabilities cs)) else fail (coded Code.not_found)

  unfoldable pub dispatch : Rpc → Io (Server S) Reply
  dispatch (create_volume r) =
      guarded caps.create_delete Code.unimplemented
        (guarded (not (r.name == [])) Code.invalid_argument (locked r.name (create_body r)))
  dispatch (delete_volume id secrets) = guarded caps.create_delete Code.unimplemented (
      guarded (not (id == [])) Code.invalid_argument
        (locked id (backend.delete_volume id secrets >> pure done)))
  dispatch (publish_volume id node c ro ctx secrets) =
      guarded caps.publish_unpublish Code.unimplemented (
        guarded (not (id == [] || node == [])) Code.invalid_argument
          (locked id (publish_body id node c ro ctx secrets)))
  dispatch (unpublish_volume id node secrets) = guarded caps.publish_unpublish Code.unimplemented (
      guarded (not (id == [])) Code.invalid_argument
        (locked id (backend.unpublish_volume id node secrets >> pure done)))
  dispatch (validate_capabilities id cs) =
      guarded (not (id == [])) Code.invalid_argument (on_backend (validate_body id cs))
  dispatch (get_capacity t params) = guarded caps.get_capacity Code.unimplemented (
      on_backend (do
        n ← backend.get_capacity (to_driver_topologies (topology_list t)) params
        pure (capacity n)))
  dispatch (create_snapshot src name params secrets) = guarded caps.snapshot Code.unimplemented (
      guarded (not (src == [] || name == [])) Code.invalid_argument (
        locked name (do
          s ← backend.create_snapshot (record {
            source_volume_id = src;
            name = name;
            parameters = params;
            secrets = secrets;
          })
          pure (snapshotted s))))
  dispatch (delete_snapshot id secrets) = guarded caps.snapshot Code.unimplemented (
      guarded (not (id == [])) Code.invalid_argument
        (locked id (backend.delete_snapshot id secrets >> pure done)))
  dispatch (expand_volume id range secrets) = guarded caps.expand Code.unimplemented (
      guarded (not (id == [])) Code.invalid_argument (
        locked id (do
          r ← backend.expand_volume id (to_capacity_range range) secrets
          pure (expanded r.0 r.1))))
  dispatch list_volumes =
      guarded caps.list_volumes Code.unimplemented
        (on_backend (do vs ← backend.list_volumes; pure (volumes (map from_info vs))))
  dispatch (list_snapshots src want) =
      guarded caps.list_snapshots Code.unimplemented
        (on_backend (do ss ← backend.list_snapshots src; pure (snapshots (matching want ss))))

unfoldable pub controller_capabilities : Capabilities → List RpcType
controller_capabilities c =
    when c.create_delete RpcType.create_delete_volume
    ++ (when c.publish_unpublish RpcType.publish_unpublish_volume
        ++ (when c.expand RpcType.expand_volume
            ++ (when c.snapshot RpcType.create_delete_snapshot
                ++ (when c.clone RpcType.clone_volume
                    ++ (when c.get_capacity RpcType.get_capacity
                        ++ (when c.list_volumes RpcType.list_volumes
                            ++ when c.list_snapshots RpcType.list_snapshots))))))
