-- ===== src/Server/Vrfs/Update.antt =====
-- UpdateVrf.
use text.Mathlib.TextEquality.{eq_iff}
use opi_evpn_bridge.Prelude.{String, ◌≡◌, refl, Bool, false, [], some, arith, string_eq}
use opi_evpn_bridge.EventBus.{EventBus, get_subscribers}
use opi_evpn_bridge.Infradb.Errors.{ok}
use opi_evpn_bridge.Infradb.Components.{is_to_be_deleted}
use opi_evpn_bridge.Infradb.LogicalBridge.{IpNet}
use opi_evpn_bridge.Infradb.Vrf.{Vrf}
use opi_evpn_bridge.Infradb.Store.{Codec, Gokv, vrf}
use opi_evpn_bridge.Infradb.Program.{World, run, done, exec}
use opi_evpn_bridge.Infradb.Program.Refine.{run_by_exec}
use opi_evpn_bridge.Infradb.Vrfs.{update_vrf}
use opi_evpn_bridge.Infradb.Reads.{get_vrf}
use opi_evpn_bridge.Server.Messages.{IpPrefix}
use opi_evpn_bridge.Server.Bridges.{Response, answer}
use opi_evpn_bridge.Server.Vrfs.{
  PbVrf, VrfAip, to_pb, new_vrf, domain_vrf, update_valid, update_found, update_vrf_request,
}

update_vrf-stored :
    (kv : Gokv) (c : Codec) (bus : EventBus) (v : Vrf) (w : World kv.Db)
    → (run kv (update_vrf c bus v) w).0 ≡ done (ok tt)
    → kv.content (run kv (update_vrf c bus v) w).1.db v.name ≡ some (vrf v)
unfolding exec update_vrf
update_vrf-stored kv c bus v w h =
    run_by_exec kv (λ r w'. r ≡ ok tt → w'.db v.name ≡ some (vrf v)) (update_vrf c bus v) w (ok tt)
      h (ground (arith, eq_iff v.name v.name)) refl

module _ (kv : Gokv) (c : Codec) (bus : EventBus) (aip : VrfAip) (default_vtep : IpNet)
    (version : String) (mask : aip.Mask) (pb : PbVrf) (allow_missing : Bool) (w : World kv.Db)
    (v : Vrf) (loopback : IpPrefix) where
  -- The message that the field mask makes, and the VRF that is made of it.
  abbrev masked : PbVrf
  masked = aip.apply_mask mask (to_pb v) pb

  abbrev rebuilt : Vrf
  rebuilt = domain_vrf default_vtep version (get_subscribers bus "vrf") loopback masked

  abbrev outcome : Response PbVrf × World kv.Db
  outcome = update_vrf_request kv c bus aip default_vtep version mask pb allow_missing w

  update_valid-stored :
      (answered : PbVrf)
      → masked.spec.loopback_ip_prefix ≡ some loopback
      → (update_valid kv c bus aip default_vtep version masked w).0 ≡ answer answered
      → kv.content (update_valid kv c bus aip default_vtep version masked w).1.db masked.name
        ≡ some (vrf rebuilt)
  unfolding update_valid new_vrf
  update_valid-stored answered has_loopback h = ground (arith, update_vrf-stored kv c bus rebuilt w)

  -- An UpdateVrf that is answered and that changes the message of a stored VRF, which is not to be
  -- deleted, forgets the SVIs of the VRF and its routing tables: what is stored then at the name in
  -- the new message is the VRF made of that message, which has neither.
  pub update_vrf_request-stored :
      (answered : PbVrf)
      → get_vrf kv c w.db pb.name ≡ ok v
      → is_to_be_deleted v.status.vrf_oper_status ≡ false
      → aip.deep_equal (to_pb v) masked ≡ false
      → masked.spec.loopback_ip_prefix ≡ some loopback
      → outcome.0 ≡ answer answered
      → (kv.content outcome.1.db masked.name ≡ some (vrf rebuilt))
        × (rebuilt.svis ≡ [])
        × (rebuilt.meta.routing_table ≡ [])
  unfolding update_vrf_request update_found to_pb
  update_vrf_request-stored answered found alive changed has_loopback h =
      ground (arith, update_valid-stored answered)
