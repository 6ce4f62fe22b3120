-- ===== src/Server.antt =====
-- The gRPC servers.
pub mod Messages
pub mod Bridges
pub mod Vrfs
