-- ===== src/Local.antt =====
-- internal/driver/local: the backend for ZFS volumes on the nodes.
pub mod ExternalId
pub mod Size
pub mod Params
pub mod Placement
pub mod Wire
pub mod Capacity
pub mod Create
pub mod Ops
pub mod Forward
pub mod Controller
pub mod Node
pub mod Backend
pub mod Staged
