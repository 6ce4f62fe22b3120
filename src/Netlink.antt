-- ===== src/Netlink.antt =====
-- pkg/netlink: the watcher that polls Linux for routes, next hops and forwarding entries, and tells
-- its subscribers what has changed.
pub mod Changes
pub mod Ids
pub mod Entries
pub mod Nexthops
pub mod Fdb
mod Examples
