-- ===== src/Csi.antt =====
-- internal/csi: the gRPC surface, a thin layer over a backend.
pub mod Locks
pub mod Status
pub mod Conv
pub mod Messages
pub mod Serving
pub mod Controller
pub mod Node
