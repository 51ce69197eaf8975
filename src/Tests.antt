-- ===== src/Tests.antt =====
-- The headline theorems at concrete inputs, one module for each part.
pub mod ConfigTests
pub mod CsiTests
pub mod QnapTests
pub mod HostTests
pub mod LocalTests
pub mod StatsTests
pub mod PlacementTests
pub mod NodeOpsTests
pub mod LocalNodeTests
pub mod QnapNodeTests
