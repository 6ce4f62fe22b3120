-- ===== src/Linux.antt =====
-- The modules of the program that configure Linux: pkg/LinuxGeneralModule and pkg/LinuxCIModule.
pub mod Kernel
pub mod Plan
pub mod Report
pub mod Bridges
pub mod Vrfs
pub mod Svis
pub mod Ports
pub mod Tenant
pub mod Handlers
mod Examples
