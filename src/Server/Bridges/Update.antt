-- ===== src/Server/Bridges/Update.antt =====
-- UpdateLogicalBridge.
use text.Mathlib.TextEquality.{eq_iff}
use opi_evpn_bridge.Prelude.{String, ◌≡◌, refl, Bool, true, false, some, arith, string_eq}
use opi_evpn_bridge.EventBus.{EventBus, get_subscribers}
use opi_evpn_bridge.Infradb.Errors.{ok}
use opi_evpn_bridge.Infradb.Components.{is_to_be_deleted}
use opi_evpn_bridge.Infradb.LogicalBridge.{IpNet, LogicalBridge}
use opi_evpn_bridge.Infradb.Store.{Codec, Gokv, bridge}
use opi_evpn_bridge.Infradb.Program.{World, run, done, exec}
use opi_evpn_bridge.Infradb.Program.Refine.{run_by_exec}
use opi_evpn_bridge.Infradb.Ops.{is_empty}
use opi_evpn_bridge.Infradb.Bridges.{update_lb}
use opi_evpn_bridge.Infradb.Bridges.Delete.{is_unused}
use opi_evpn_bridge.Infradb.Reads.{get_lb}
use opi_evpn_bridge.Server.Messages.{PbBridge, to_pb, new_logical_bridge, domain_bridge}
use opi_evpn_bridge.Server.Bridges.{
  Response, answer, Aip, update_bridge, update_found, update_logical_bridge,
}

update_lb-stored :
    (kv : Gokv) (c : Codec) (bus : EventBus) (lb : LogicalBridge) (w : World kv.Db)
    → (run kv (update_lb c bus lb) w).0 ≡ done (ok tt)
    → kv.content (run kv (update_lb c bus lb) w).1.db lb.name ≡ some (bridge lb)
unfolding exec update_lb
update_lb-stored kv c bus lb w h =
    run_by_exec kv (λ r w'. r ≡ ok tt → w'.db lb.name ≡ some (bridge lb)) (update_lb c bus lb) w
      (ok tt) h (ground (arith, eq_iff lb.name lb.name)) refl

module _ (kv : Gokv) (c : Codec) (bus : EventBus) (aip : Aip) (default_vtep : IpNet)
    (version : String) (mask : aip.Mask) (pb : PbBridge) (allow_missing : Bool) (w : World kv.Db)
    (lb : LogicalBridge) where
  -- The message that the field mask makes, and the bridge that is made of it.
  abbrev pub masked : PbBridge
  masked = aip.apply_mask mask (to_pb lb) pb

  abbrev pub rebuilt : LogicalBridge
  rebuilt = domain_bridge default_vtep version (get_subscribers bus "logical-bridge") masked

  abbrev outcome : Response PbBridge × World kv.Db
  outcome = update_logical_bridge kv c bus aip default_vtep version mask pb allow_missing w

  update_bridge-stored :
      (answered : PbBridge)
      → (update_bridge kv c bus aip default_vtep version masked w).0 ≡ answer answered
      → kv.content (update_bridge kv c bus aip default_vtep version masked w).1.db masked.name
        ≡ some (bridge rebuilt)
  unfolding update_bridge new_logical_bridge domain_bridge
  update_bridge-stored answered h = ground (arith, update_lb-stored kv c bus rebuilt w)

  -- An UpdateLogicalBridge that is answered and that changes the message of a stored bridge, which
  -- is not to be deleted, forgets who uses the bridge: what is stored then at the name in the new
  -- message is the bridge made of that message, which no SVI, no bridge port and no MAC address
  -- refers to, whatever the bridge before had.
  pub update_logical_bridge-is_unused :
      (answered : PbBridge)
      → get_lb kv c w.db pb.name ≡ ok lb
      → is_to_be_deleted lb.status.lb_oper_status ≡ false
      → aip.deep_equal (to_pb lb) masked ≡ false
      → outcome.0 ≡ answer answered
      → (kv.content outcome.1.db masked.name ≡ some (bridge rebuilt)) × (is_unused rebuilt ≡ true)
  unfolding update_logical_bridge update_found to_pb domain_bridge is_empty
  update_logical_bridge-is_unused answered found alive changed h =
      ground (arith, update_bridge-stored answered)
