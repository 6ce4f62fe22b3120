-- ===== src/Infradb/Examples.antt =====
-- Sample objects and a sample store, on which the theorems about pkg/infradb are tried.
pub mod Objects
mod Bridges
mod Vrfs
mod Svis
mod Ports
mod Components
