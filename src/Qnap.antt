-- ===== src/Qnap.antt =====
-- internal/driver/qnap: the backend over a QNAP appliance.
pub mod Params
pub mod ExternalId
pub mod Appliance
pub mod Cache
pub mod Session
pub mod Controller
pub mod Assemble
pub mod Create
pub mod Listing
pub mod Portal
pub mod Reconciler
pub mod SanCache
pub mod NodeState
pub mod Attach
pub mod Teardown
pub mod Node
pub mod Staged
