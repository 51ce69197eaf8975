-- ===== src/Driver.antt =====
-- internal/driver: the error vocabulary, the types that the backends share, and their interface.
pub mod Errors
pub mod Types
pub mod Backend
pub mod Keeps
pub mod FailsCoded
