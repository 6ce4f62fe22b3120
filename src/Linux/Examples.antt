-- ===== src/Linux/Examples.antt =====
-- The theorems about the Linux modules, at sample objects.
pub mod Objects
mod Bridges
mod Vrfs
mod Svis
