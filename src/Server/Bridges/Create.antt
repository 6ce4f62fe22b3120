-- ===== src/Server/Bridges/Create.antt =====
-- CreateLogicalBridge.
use opi_evpn_bridge.Prelude.{String, ◌≡◌, refl, true, false, none, arith, ◌==◌, string_eq}
use opi_evpn_bridge.EventBus.{EventBus, get_subscribers}
use opi_evpn_bridge.Infradb.Errors.{Result, ok, err, key_not_found}
use opi_evpn_bridge.Infradb.LogicalBridge.{IpNet, LogicalBridge}
use opi_evpn_bridge.Infradb.Store.{Codec, Gokv}
use opi_evpn_bridge.Infradb.Program.{World}
use opi_evpn_bridge.Infradb.Reads.{get_lb}
use opi_evpn_bridge.Infradb.Reads.Bridges.{get_lb-create_lb}
use opi_evpn_bridge.Server.Messages.{PbBridge, to_pb, new_logical_bridge, domain_bridge}
use opi_evpn_bridge.Server.Bridges.{
  Response, answer, Aip, is_spec_valid, create_bridge, create_logical_bridge, create_unless_found,
}

module _ (kv : Gokv) (c : Codec) (bus : EventBus) (aip : Aip) (default_vtep : IpNet)
    (version : String) (w : World kv.Db) where
  -- The bridge that a request makes.
  abbrev made : PbBridge → LogicalBridge
  made pb = domain_bridge default_vtep version (get_subscribers bus "logical-bridge") pb

  create_bridge-get_lb :
      (pb pb' : PbBridge)
      → (pb.name == "vpns") ≡ false
      → (pb.name == "lbs") ≡ false
      → (create_bridge kv c bus aip default_vtep version pb w).0 ≡ answer pb'
      → kv.get_error (create_bridge kv c bus aip default_vtep version pb w).1.db pb.name ≡ none
      → (get_lb kv c (create_bridge kv c bus aip default_vtep version pb w).1.db pb.name
          ≡ ok (made pb))
        × (to_pb (made pb) ≡ pb')
        × (is_spec_valid pb.spec ≡ true)
  unfolding create_bridge new_logical_bridge domain_bridge
  create_bridge-get_lb pb pb' nv nl h readable =
      ground (arith, get_lb-create_lb kv c bus (made pb) w)

  first_get_lb :
      (pb pb' : PbBridge)
      → (pb.name == "vpns") ≡ false
      → (pb.name == "lbs") ≡ false
      → (r : Result LogicalBridge) → get_lb kv c w.db pb.name ≡ r
      → (create_unless_found kv c bus aip default_vtep version pb w r).0 ≡ answer pb'
      → kv.get_error (create_unless_found kv c bus aip default_vtep version pb w r).1.db pb.name
        ≡ none
      → (lb : LogicalBridge) × (get_lb kv c
            (create_unless_found kv c bus aip default_vtep version pb w r).1.db
            pb.name
          ≡ ok lb)
        × (to_pb lb ≡ pb')
  first_get_lb pb pb' nv nl (ok lb) eq h readable = (lb, eq, ground arith)
  first_get_lb pb pb' nv nl (err key_not_found) eq h readable =
      let made_lb = create_bridge-get_lb pb pb' nv nl h readable in (made pb, made_lb.0, made_lb.1)
  first_get_lb pb pb' nv nl (err e) eq h readable = absurd (ground arith)

module _ (kv : Gokv) (c : Codec) (bus : EventBus) (aip : Aip) (default_vtep : IpNet)
    (version version' generated generated' id : String) (pb pb' : PbBridge) (w : World kv.Db) where
  abbrev first : Response PbBridge × World kv.Db
  first = create_logical_bridge kv c bus aip default_vtep version generated id pb w

  abbrev named : PbBridge → PbBridge
  named p = record p { name = aip.full_name id }

  accepted :
      (answered : PbBridge)
      → (id == "") ≡ false
      → first.0 ≡ answer answered
      → (aip.is_user_settable id ≡ true)
        × (first
            ≡ create_unless_found kv c bus aip default_vtep version
                (named pb)
                w
                (get_lb kv c w.db (aip.full_name id)))
  unfolding create_logical_bridge
  accepted answered given h = ground arith

  -- CreateLogicalBridge is idempotent: once a request with an identifier has been answered, every
  -- other request with the same identifier, whatever object it carries, gets the same answer, and
  -- changes neither the store nor the tasks. The store can be read, the second request has its
  -- required fields, and the name that the identifier stands for is not that of a map of the store.
  pub create_logical_bridge_idem :
      (answered : PbBridge)
      → (id == "") ≡ false
      → (aip.full_name id == "vpns") ≡ false
      → (aip.full_name id == "lbs") ≡ false
      → aip.is_required_set pb' ≡ true
      → first.0 ≡ answer answered
      → kv.get_error first.1.db (aip.full_name id) ≡ none
      → create_logical_bridge kv c bus aip default_vtep version' generated' id pb' first.1
        ≡ (answer answered, first.1)
  unfolding create_logical_bridge
  create_logical_bridge_idem answered given nv nl required h readable =
      let acc = accepted answered given h in
      let found =
        first_get_lb kv c bus aip default_vtep version w (named pb) answered nv nl
          (get_lb kv c w.db (aip.full_name id)) refl (rw acc.1 at h) (rw acc.1 at readable) in
      let again : get_lb kv c first.1.db (aip.full_name id) ≡ ok found.0 = rw acc.1 found.1 in
      ground (arith, acc, again, found.2)
