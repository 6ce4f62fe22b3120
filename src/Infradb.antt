-- ===== src/Infradb.antt =====
-- pkg/infradb: the database of intents.
pub mod Errors
pub mod Components
pub mod LogicalBridge
pub mod Vrf
pub mod Svi
pub mod BridgePort
pub mod Store
pub mod Program
pub mod Ops
pub mod Bridges
pub mod View
pub mod Vrfs
pub mod Svis
pub mod Ports
pub mod Routing
pub mod Replay
pub mod Reads
pub mod Examples
