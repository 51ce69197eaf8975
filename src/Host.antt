-- ===== src/Host.antt =====
-- The host's side of the node: mounts, and the table of mounts.
pub mod Mounts
pub mod MountTable
pub mod Zfs
pub mod Calls
pub mod StatFs
pub mod Wait
pub mod Iscsi
pub mod Multipath
