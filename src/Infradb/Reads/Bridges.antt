-- ===== src/Infradb/Reads/Bridges.antt =====
-- Reading a bridge back.
use opi_evpn_bridge.Prelude.{◌≡◌, false, none, arith, ◌==◌, string_eq}
use opi_evpn_bridge.EventBus.{EventBus}
use opi_evpn_bridge.Infradb.Errors.{ok}
use opi_evpn_bridge.Infradb.LogicalBridge.{LogicalBridge}
use opi_evpn_bridge.Infradb.Store.{Codec, Gokv}
use opi_evpn_bridge.Infradb.Program.{World, run, done}
use opi_evpn_bridge.Infradb.Bridges.{create_lb}
use opi_evpn_bridge.Infradb.Bridges.Create.{create_lb-IsCreated}
use opi_evpn_bridge.Infradb.Reads.{get_lb}

module _ (kv : Gokv) (c : Codec) (bus : EventBus) (lb : LogicalBridge) (w : World kv.Db) where
  -- A bridge that CreateLB has created is what GetLB then returns, if the store can be read. Its
  -- name is not that of a map of the store.
  pub get_lb-create_lb :
      (lb.name == "vpns") ≡ false
      → (lb.name == "lbs") ≡ false
      → (run kv (create_lb c bus lb) w).0 ≡ done (ok tt)
      → kv.get_error (run kv (create_lb c bus lb) w).1.db lb.name ≡ none
      → get_lb kv c (run kv (create_lb c bus lb) w).1.db lb.name ≡ ok lb
  unfolding get_lb
  get_lb-create_lb nv nl h readable =
      ground (arith, create_lb-IsCreated kv c bus lb w 0 "" nv nl h, c.as_bridge-bridge lb)
