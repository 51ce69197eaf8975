-- ===== src/Csi/Conv.antt =====
-- internal/csi/conv.go: CSI messages to the types of the backends. A message that may be absent in
-- the protocol is an `Option`.
pub mod Accepted
use nomad_csi_driver.Base.{
  ℤ, pos, Text, ◌≡◌, List, [], ◌∷◌, Option, none, some, map, text_eq, ◌==◌, if◌then◌else◌,
}
use nomad_csi_driver.Base.Map.{Map}
use nomad_csi_driver.Driver.Errors.{Code, coded, Result, ok, err}
use nomad_csi_driver.Driver.Types.{
  AccessType, AccessMode, VolumeCapability, CapacityRange, Topology, ContentSource,
}

-- `csipb.VolumeCapability_AccessMode_Mode`; `other` is a number outside the enumeration.
pub data Mode : Type 0 where
  unknown single_node_writer single_node_reader_only multi_node_reader_only : Mode
  multi_node_single_writer multi_node_multi_writer single_node_single_writer : Mode
  single_node_multi_writer : Mode
  other : ℤ → Mode

-- The access type of a capability: a oneof, or none.
pub data Access : Type 0 where
  unset block : Access
  mount : Text → List Text → Access

pub record CsiCapability : Type 0 where
  pub access_mode : Option Mode
  pub access : Access

-- The getters of an absent access mode answer the zero value, UNKNOWN.
abbrev pub mode_of : CsiCapability → Mode
mode_of c = elim c.access_mode [ none ↦ Mode.unknown | some m ↦ m ]

unfoldable pub to_access_mode : Mode → Result AccessMode
to_access_mode Mode.single_node_writer = ok AccessMode.single_node_writer
to_access_mode Mode.single_node_single_writer = ok AccessMode.single_node_writer
to_access_mode Mode.single_node_multi_writer = ok AccessMode.single_node_writer
to_access_mode Mode.single_node_reader_only = ok AccessMode.single_node_reader_only
to_access_mode Mode.multi_node_reader_only = err (coded Code.invalid_argument)
to_access_mode Mode.multi_node_single_writer = err (coded Code.invalid_argument)
to_access_mode Mode.multi_node_multi_writer = err (coded Code.invalid_argument)
to_access_mode Mode.unknown = err (coded Code.invalid_argument)
to_access_mode (Mode.other n) = err (coded Code.invalid_argument)

with_access : AccessMode → Access → Result VolumeCapability
with_access m Access.unset = err (coded Code.invalid_argument)
with_access m Access.block =
    ok (record { access_type = AccessType.block; access_mode = m; fs_type = []; mount_flags = [] })
with_access m (Access.mount fs flags) =
    ok (record {
      access_type = AccessType.mount;
      access_mode = m;
      fs_type = fs;
      mount_flags = flags;
    })

with_mode : Result AccessMode → Access → Result VolumeCapability
with_mode (err e) a = err e
with_mode (ok m) a = with_access m a

unfoldable pub to_volume_capability : Option CsiCapability → Result VolumeCapability
unfolding to_access_mode with_access with_mode
to_volume_capability none = err (coded Code.invalid_argument)
to_volume_capability (some c) = with_mode (to_access_mode (mode_of c)) c.access

abbrev push :
    Result VolumeCapability → Result (List VolumeCapability) → Result (List VolumeCapability)
push (err e) r = err e
push (ok c) (err e) = err e
push (ok c) (ok cs) = ok (c ∷ cs)

-- The loop over the capabilities; the first failure ends it.
convert_all : List (Option CsiCapability) → Result (List VolumeCapability)
convert_all [] = ok []
convert_all (c ∷ cs) = push (to_volume_capability c) (convert_all cs)

unfoldable pub to_volume_capabilities : List (Option CsiCapability) → Result (List VolumeCapability)
unfolding convert_all
to_volume_capabilities [] = err (coded Code.invalid_argument)
to_volume_capabilities (c ∷ cs) = convert_all (c ∷ cs)

unfoldable pub to_capacity_range : Option CapacityRange → CapacityRange
to_capacity_range none = record { required_bytes = pos 0; limit_bytes = pos 0 }
to_capacity_range (some r) = record {
  required_bytes = r.required_bytes;
  limit_bytes = r.limit_bytes;
}

-- `csipb.VolumeContentSource`, a oneof.
pub data CsiSource : Type 0 where
  unset : CsiSource
  snapshot volume : Text → CsiSource

unfoldable pub to_content_source : Option CsiSource → Option ContentSource
to_content_source none = none
to_content_source (some CsiSource.unset) = none
to_content_source (some (CsiSource.snapshot id)) =
    some (record { snapshot_id = id; volume_id = [] })
to_content_source (some (CsiSource.volume id)) = some (record { snapshot_id = []; volume_id = id })

unfoldable pub from_content_source : Option ContentSource → Option CsiSource
from_content_source none = none
from_content_source (some s) =
    if s.snapshot_id == []
    then (if s.volume_id == [] then none else some (CsiSource.volume s.volume_id))
    else some (CsiSource.snapshot s.snapshot_id)

-- Both directions copy the segments, and make a nil slice of an empty one.
unfoldable pub to_driver_topologies : List (Map Text Text) → List Topology
to_driver_topologies = map (λ m. record { segments = m })

unfoldable pub from_driver_topologies : List Topology → List (Map Text Text)
from_driver_topologies = map (λ t. t.segments)

-- A single-node access mode of the protocol.
abbrev pub IsSingleNode : Mode → Type 0
IsSingleNode Mode.single_node_writer = Unit
IsSingleNode Mode.single_node_single_writer = Unit
IsSingleNode Mode.single_node_multi_writer = Unit
IsSingleNode Mode.single_node_reader_only = Unit
IsSingleNode _ = ⊥

abbrev pub IsUsable : Option CsiCapability → Type 0
IsUsable none = ⊥
IsUsable (some c) = IsSingleNode (mode_of c) × (c.access ≡ Access.unset → ⊥)
