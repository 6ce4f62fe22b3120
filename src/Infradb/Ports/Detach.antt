-- ===== src/Infradb/Ports/Detach.antt =====
-- The end of a bridge port's deletion: the references of the logical bridges.
use text.Mathlib.TextEquality.{eq_iff}
use opi_evpn_bridge.Prelude.{
  String, ◌≡◌, refl, Bool, true, ◌&&◌, List, [], ◌∷◌, some, arith, string_eq, if◌then◌else◌,
}
use opi_evpn_bridge.Prelude.Dict.{lookup, delete}
use opi_evpn_bridge.Infradb.Errors.{ok}
use opi_evpn_bridge.Infradb.LogicalBridge.{LogicalBridge}
use opi_evpn_bridge.Infradb.BridgePort.{BridgePort}
use opi_evpn_bridge.Infradb.Store.{Codec, bridge}
use opi_evpn_bridge.Infradb.Program.{World, Content, update, exec}
use opi_evpn_bridge.Infradb.Ports.{detach_port}
use opi_evpn_bridge.Infradb.Ports.Attach.{contains, is_distinct, ArePresent, ArePresent-update}
use opi_evpn_bridge.Infradb.View.{is_some}

-- The bridge without its reference to the port.
abbrev pub detached : BridgePort → LogicalBridge → LogicalBridge
detached bp b = record b {
  bridge_ports = delete bp.name b.bridge_ports;
  mac_table = delete bp.spec.mac_address b.mac_table;
}

-- The bridge knows the port and its MAC address.
abbrev pub is_attached : BridgePort → LogicalBridge → Bool
is_attached bp b =
    is_some (lookup bp.name b.bridge_ports) && is_some (lookup bp.spec.mac_address b.mac_table)

abbrev pub all_attached : BridgePort → (String → LogicalBridge) → List String → Bool
all_attached bp bs [] = true
all_attached bp bs (n ∷ names) = is_attached bp (bs n) && all_attached bp bs names

-- What the loop of UpdateBPStatus does over the bridges `names`.
pub record AreDetached (bp : BridgePort) (bs : String → LogicalBridge) (names : List String)
    (w w' : World Content) (k : String) : Type 0 where
  pub were_attached : all_attached bp bs names ≡ true
  pub stored : w'.db k ≡ (if contains names k then some (bridge (detached bp (bs k))) else w.db k)
  pub trace : w'.trace ≡ w.trace

module _ (c : Codec) (bs : String → LogicalBridge) (k : String) (bp : BridgePort) where
  detach_port_step :
      (n : String) (rest : List String) (w : World Content)
      → w.db n ≡ some (bridge (bs n))
      → (exec (detach_port c bp (n ∷ rest)) w).0 ≡ ok tt
      → (is_attached bp (bs n) ≡ true)
        × (exec (detach_port c bp (n ∷ rest)) w
            ≡ exec
                (detach_port c bp rest)
                (record w { db = update w.db (bs n).name (bridge (detached bp (bs n))) }))
  unfolding detach_port exec
  detach_port_step n rest w found h = ground (arith, c.as_bridge-bridge (bs n))

  pub exec-detach_port :
      (names : List String) (w : World Content)
      → is_distinct names ≡ true
      → ArePresent bs w.db names
      → (exec (detach_port c bp names) w).0 ≡ ok tt
      → AreDetached bp bs names w (exec (detach_port c bp names) w).1 k
  unfolding exec detach_port is_distinct contains
  exec-detach_port [] w d p h = record { were_attached = refl; stored = refl; trace = refl }
  exec-detach_port (n ∷ names) w d p h =
      let b = bs n in
      let w1 : World Content = record w { db = update w.db b.name (bridge (detached bp b)) } in
      let step = detach_port_step n names w p.0.0 h in
      let keep =
        ArePresent-update bs w.db b.name (bridge (detached bp b)) names (rw p.0.1 (ground arith))
          p.1 in
      let ih = exec-detach_port names w1 (ground arith) keep (rw step.1 at h) in
      rw step.1 (record {
        were_attached = ground arith;
        stored = ground (arith, p.0.1, eq_iff b.name k, eq_iff n k);
        trace = ih.trace;
      })
