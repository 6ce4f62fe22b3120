-- ===== src/Lib.antt =====
-- opi-evpn-bridge: the intents of an EVPN gateway, from the request to the modules that realise it.
--
-- The program keeps four kinds of objects in a key-value store: logical bridges, VRFs, SVIs and
-- bridge ports. A request (pkg/bridge, pkg/vrf, pkg/svi, pkg/port) calls pkg/infradb, which checks
-- and stores the object, and hands a task to the task manager. The task manager contacts the
-- subscribers of the object's type one after the other, in the order of their priorities on the event
-- bus (pkg/frr, pkg/LinuxGeneralModule and pkg/LinuxCIModule are such subscribers). Each answers
-- through an Update...Status of pkg/infradb, which records the state of its component in the object,
-- ends a deletion when all components have succeeded, starts a replay when one is asked for, and
-- passes the status on to the task manager. Identifiers that the modules need come from a pool.
--
-- The files:
--   Component: pkg/infradb/common/common.go, the state of one component of an object.
--   EventBus: pkg/infradb/subscriberframework/eventbus/eventbus.go. EventBus has the maps of the Go
--     structure; Subscribe is `subscribe`, and so on. A channel is only the identity of a subscriber.
--   ActionBus: pkg/infradb/subscriberframework/actionbus/actionbus.go, in the same way.
--   TaskManager: pkg/infradb/taskmanager. One turn of the outer loop of processTasks is
--     `process_task`; its inner loop over subscribers is `contact`. What the environment does while
--     a subscriber is contacted (a busy channel, statuses, the timeout) is an `Attempt`.
--   IdPool: pkg/utils/idpool.go. IDPoolInit, GetID, GetIDWithRef, ReleaseID and ReleaseIDWithRef are
--     `id_pool_init`, `get_id`, `get_id_with_ref`, `release_id` and `release_id_with_ref`, over a
--     pool that is passed on. A panic is `none`. Identifiers are 32-bit numbers; the wrap-around of
--     the loop variable in IDPoolInit is written out.
--   Pagination: pkg/utils/pagination.go, and the paging of the List handlers (pkg/bridge/grpc.go and its
--     like). A slice out of range is the error `slice_out_of_range`. A client that follows the tokens
--     is `list_all`, a recursion over the tokens that are drawn.
--   Server: pkg/bridge and pkg/vrf, the gRPC servers of logical bridges and of VRFs: CreateLogicalBridge
--     is `create_logical_bridge`, CreateVrf is `create_vrf_request`, and so on. The libraries for names,
--     required fields and field masks are the parameters `Aip` and `VrfAip`. The handlers are seen one
--     after the other.
--   Infradb: pkg/infradb.
--     Errors, Components: the errors, and the loops over the components of an object.
--     LogicalBridge, Vrf, Svi, BridgePort: bridge.go, vrf.go, svi.go and port.go, the objects and
--       their methods.
--     Store: the store (gokv) and its encoding, which are libraries, as the parameters `Gokv` and
--       `Codec`; their laws are that a write or a deletion that succeeds shows at its key and at no
--       other, and that what was encoded is decoded. Every call of the store may fail.
--     Program: a function of infradb.go as a tree of its calls of the store and of the task manager.
--       `run` performs it on a store; `exec` performs it on plain contents that never fail.
--       Program.Refine and Program.Reliable relate the two.
--     Ops: the steps that the functions share, such as the check of a VNI.
--     Bridges, Vrfs, Svis, Ports: infradb.go, the functions that change the objects of each kind:
--       CreateLB is `create_lb`, UpdateLBStatus is `update_lb_status`, and so on.
--     Reads, Routing: infradb.go, GetLB and its like, and the routing tables in use.
--     Replay: replay.go. How the exchange with the pre-replay subscriber ends is an argument.
--     View: what can be read off the contents of the store.
--     Examples: a store in memory, sample objects, and the theorems at these.
--   Linux: pkg/LinuxGeneralModule/lgm.go and pkg/LinuxCIModule/lci.go, the modules that configure the
--     Linux kernel, and ObjectData of the event bus.
--     Kernel: the calls of pkg/utils/netlink.go that change the kernel, as `Request`. The kernel is the
--       parameter `Kernel`; any call may fail. `IsDocumented` says what netlink documents of links.
--     Plan: a set-up or a tear-down as a tree of its calls, which `run_plan` performs on a kernel. One
--       that dereferences nil is `panicked`.
--     Bridges, Vrfs, Svis, Ports, Tenant: setUpBridge is `set_up_bridge`, setUpVrf is `set_up_vrf`, and
--       so on; `plan_vrf` is the part of setUpVrf that follows the choice of the routing table.
--     Report: the component that a handler reports, with the timer of its retry.
--     Handlers: HandleEvent, handleLB, handlesvi, handlevrf and handlebp, on the database, the kernel
--       and the pool of routing tables.
--   Netlink: pkg/netlink, the watcher of the kernel's tables.
--     Changes: notify_changes, filterMap, resyncWithKernel and monitorNetlink, for one table. The
--       snapshots that are read are arguments, and so are deepCheck and the filter.
--     Ids: NHAssignID and L2NHAssignID. Entries: keys and values of routes, next hops and neighbours.
--     Nexthops: addRoute, addNexthop and tryResolve. A pointer to an entry of a snapshot is its key.
--     Fdb: ParseFdb, ParseL2NH, addFdbEntry and the filters of both tables. Added: one addFdbEntry on a
--       linked snapshot. Linked: all those of a poll.
--   Frr: pkg/frr/frr.go, the module that configures FRR, and what it uses of pkg/utils/frr.go.
--     Session: a function of the module as a tree of its commands, whose answers decide how it goes on;
--       checkFrrResult. The daemons and the exchange with them are the parameter `Frr`.
--     Vrfs, Svis: setUpVrf, tearDownVrf, setUpSvi and tearDownSvi. Handlers: HandleEvent, handlevrf and
--       handlesvi. The decoding of JSON and the name of the host are the parameter `Decoder`.
--     PreReplay: handlePreReplay. What the system answers to its steps is an argument.
--     Replay: failed reports of the module, one after the other, and what the one that asks for a
--       replay does.
--   Prelude: tests, lists over native numbers, Go's maps as association lists, and of Go's library
--     decimal numbers, path.Base, and the splitting of texts.
--
-- Functions of infradb.go run under one lock, so that each is one step. The version that
-- generateVersion() returns is an argument. A map that Go goes through in any order is gone through in
-- the order of its list, which is arbitrary. An index out of range is the error `index_out_of_range`.
-- A loop is a recursion over its list, and the loop of IDPoolInit a recursion over the slots left to
-- write, which it cannot outrun without a panic. Three definitions need fuel. The digits of n are drawn
-- with fuel n + 1, since each step divides the number by 10. tryResolve calls itself through the next
-- hops of a route in the GRD, and addNexthop through those that tryResolve returns. The source sets no
-- bound on the depth; where the GRD leads to no VXLAN next hop, a depth of 2 is enough for tryResolve
-- and one of 3 for addNexthop, since the next hops that tryResolve returns are resolved.
--
-- Not modelled: the gRPC servers of SVIs and bridge ports with the validation of their
-- requests and the conversions of their messages, DeleteAllResources, the channels and goroutines
-- themselves (the pre-replay exchange, Publish, the subscribers' loops), the reading and the annotation
-- of the kernel's tables, and the start-up.
pub mod Prelude
pub mod Component
pub mod EventBus
pub mod IdPool
pub mod TaskManager
pub mod Infradb
pub mod Pagination
pub mod Server
pub mod Linux
pub mod Netlink
pub mod Frr
pub mod ActionBus
