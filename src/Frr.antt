-- ===== src/Frr.antt =====
-- The module that configures FRR: pkg/frr/frr.go, and what it uses of pkg/utils/frr.go.
pub mod Session
pub mod Vrfs
pub mod Svis
pub mod Handlers
pub mod PreReplay
pub mod Replay
mod Examples
