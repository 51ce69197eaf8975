-- ===== src/Stats.antt =====
-- internal/stats: usage readings of the volumes on a node.
pub mod Reading
pub mod Registry
pub mod Backoff
pub mod Config
