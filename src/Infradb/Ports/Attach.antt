-- ===== src/Infradb/Ports/Attach.antt =====
-- CreateBP: the references of the logical bridges, and the VLANs of the port.
use text.Mathlib.TextEquality.{eq_iff}
use mathlib.Core.List.{append-nil, append_assoc}
use opi_evpn_bridge.Prelude.{
  ap, ◌∙◌, ℕ, String, ◌≡◌, refl, Bool, true, false, ◌||◌, ◌&&◌, not, List, [], ◌∷◌, ◌++◌, some,
  arith, ◌==◌, string_eq, All, if◌then◌else◌,
}
use opi_evpn_bridge.Prelude.Dict.{lookup, insert}
use opi_evpn_bridge.Infradb.Errors.{Result, ok, err}
use opi_evpn_bridge.Infradb.LogicalBridge.{LogicalBridge}
use opi_evpn_bridge.Infradb.BridgePort.{BridgePort}
use opi_evpn_bridge.Infradb.Store.{Codec, Gokv, Value, bridge, port}
use opi_evpn_bridge.Infradb.Program.{World, Content, update, exec, run, done, Outcome}
use opi_evpn_bridge.Infradb.Program.Refine.{after, exec-bind, view, run_by_exec}
use opi_evpn_bridge.EventBus.{EventBus, get_subscribers}
use opi_evpn_bridge.Infradb.Ports.{attach_port, store_port, with_vlan, create_bp}
use opi_evpn_bridge.Infradb.View.{is_some}

-- The bridge with a reference to the port.
abbrev pub attached : BridgePort → LogicalBridge → LogicalBridge
attached bp b = record b {
  bridge_ports = insert bp.name false b.bridge_ports;
  mac_table = insert bp.spec.mac_address bp.name b.mac_table;
}

-- The bridge knows neither the port nor its MAC address.
abbrev pub is_free : BridgePort → LogicalBridge → Bool
is_free bp b =
    not (is_some (lookup bp.name b.bridge_ports))
    && not (is_some (lookup bp.spec.mac_address b.mac_table))

unfoldable pub contains : List String → String → Bool
contains [] k = false
contains (n ∷ names) k = n == k || contains names k

-- The names are different from one another.
unfoldable pub is_distinct : List String → Bool
unfolding contains
is_distinct [] = true
is_distinct (n ∷ names) = not (contains names n) && is_distinct names

abbrev pub all_free : BridgePort → (String → LogicalBridge) → List String → Bool
all_free bp bs [] = true
all_free bp bs (n ∷ names) = is_free bp (bs n) && all_free bp bs names

abbrev pub vlans_of : (String → LogicalBridge) → List String → List ℕ
vlans_of bs [] = []
vlans_of bs (n ∷ names) = (bs n).spec.vlan_id ∷ vlans_of bs names

-- The bridges of these names, each stored at its own name.
abbrev pub ArePresent : (String → LogicalBridge) → Content → List String → Type 0
ArePresent bs f = All (λ n. (f n ≡ some (bridge (bs n))) × ((bs n).name ≡ n))

-- What the loop of CreateBP does over the bridges `names`, where it returns the port `r`.
pub record AreAttached (bp : BridgePort) (bs : String → LogicalBridge) (names : List String)
    (w w' : World Content) (r : BridgePort) (k : String) : Type 0 where
  pub were_free : all_free bp bs names ≡ true
  pub stored : w'.db k ≡ (if contains names k then some (bridge (attached bp (bs k))) else w.db k)
  pub port : r ≡ record bp { vlans = bp.vlans ++ vlans_of bs names }
  pub trace : w'.trace ≡ w.trace

pub ArePresent-update :
    (bs : String → LogicalBridge) (f : Content) (n : String) (v : Value) (names : List String)
    → contains names n ≡ false
    → ArePresent bs f names
    → ArePresent bs (update f n v) names
unfolding contains
ArePresent-update bs f n v [] h p = tt
ArePresent-update bs f n v (m ∷ names) h p =
    ground (arith, eq_iff m n, eq_iff n m, ArePresent-update bs f n v names)

module _ (c : Codec) (bs : String → LogicalBridge) (k : String) where
  attach_port_step :
      (n : String) (rest : List String) (bp r : BridgePort) (w : World Content)
      → w.db n ≡ some (bridge (bs n))
      → (exec (attach_port c (n ∷ rest) bp) w).0 ≡ ok r
      → (is_free bp (bs n) ≡ true)
        × (exec (attach_port c (n ∷ rest) bp) w
            ≡ exec
                (attach_port c rest (with_vlan bp (bs n)))
                (record w { db = update w.db (bs n).name (bridge (attached bp (bs n))) }))
  unfolding attach_port exec
  attach_port_step n rest bp r w found h = ground (arith, c.as_bridge-bridge (bs n))

  exec-attach_port :
      (names : List String) (bp r : BridgePort) (w : World Content)
      → is_distinct names ≡ true
      → ArePresent bs w.db names
      → (exec (attach_port c names bp) w).0 ≡ ok r
      → AreAttached bp bs names w (exec (attach_port c names bp) w).1 r k
  unfolding exec attach_port is_distinct contains
  exec-attach_port [] bp r w d p h = ground (arith, append-nil bp.vlans)
  exec-attach_port (n ∷ names) bp r w d p h =
      let b = bs n in
      let bp' = with_vlan bp b in
      let w1 : World Content = record w { db = update w.db b.name (bridge (attached bp b)) } in
      let step = attach_port_step n names bp r w p.0.0 h in
      let keep =
        ArePresent-update bs w.db b.name (bridge (attached bp b)) names (rw p.0.1 (ground arith))
          p.1 in
      let ih = exec-attach_port names bp' r w1 (ground arith) keep (rw step.1 at h) in
      rw step.1 (record {
        were_free = ground arith;
        stored = ground (arith, p.0.1, eq_iff b.name k, eq_iff n k);
        port = ih.port ∙ ap (λ l. record bp { vlans = l }) (append_assoc bp.vlans _ _);
        trace = ih.trace;
      })

-- What a successful CreateBP does for a port that is no transparent trunk, to a key that is not the
-- list of ports, and to the task manager.
pub record IsCreated (bus : EventBus) (bp : BridgePort) (bs : String → LogicalBridge)
    (w w' : World Content) (k : String) : Type 0 where
  pub were_free : all_free bp bs bp.spec.logical_bridges ≡ true
  pub stored : w'.db k ≡ (
      if bp.name == k
      then some (port (record bp { vlans = bp.vlans ++ vlans_of bs bp.spec.logical_bridges }))
      else if contains bp.spec.logical_bridges k
      then some (bridge (attached bp (bs k)))
      else w.db k)
  pub tasks :
      w'.trace.tasks
      ≡ w.trace.tasks
        ++ record {
          name = bp.name;
          object_type = "bridge-port";
          resource_version = bp.resource_version;
          subs = get_subscribers bus "bridge-port";
        }
          ∷ []

module _ (c : Codec) (bus : EventBus) (bp : BridgePort) (bs : String → LogicalBridge) (k : String)
    (w : World Content) (own : (bp.name == "bps") ≡ false) (nk : (k == "bps") ≡ false)
    (d : is_distinct bp.spec.logical_bridges ≡ true)
    (present : ArePresent bs w.db bp.spec.logical_bridges) where
  exec-store_port :
      (o : Result BridgePort × World Content)
      → exec (attach_port c bp.spec.logical_bridges bp) w ≡ o
      → (after o (store_port c bus)).0 ≡ ok tt
      → IsCreated bus bp bs w (after o (store_port c bus)).1 k
  unfolding exec store_port
  exec-store_port (err e, w') eq h = cc
  exec-store_port (ok r, w') eq h =
      let at = exec-attach_port c bs k bp.spec.logical_bridges bp r w d present (rw eq) in
      let at' = rw eq at at in ground (arith, at', eq_iff bp.name k, eq_iff "bps" k)

  exec-create_bp :
      bp.transparent_trunk ≡ false
      → (exec (create_bp c bus bp) w).0 ≡ ok tt
      → IsCreated bus bp bs w (exec (create_bp c bus bp) w).1 k
  unfolding exec create_bp
  exec-create_bp nt h =
      let attach = attach_port c bp.spec.logical_bridges bp in
      let e : exec (create_bp c bus bp) w ≡ after (exec attach w) (store_port c bus) =
        ground (arith, exec-bind attach (store_port c bus) w) in
      rw e (exec-store_port (exec attach w) refl (rw e at h))

module _ (kv : Gokv) (c : Codec) (bus : EventBus) (bp : BridgePort) (bs : String → LogicalBridge)
    (w : World kv.Db) where
  abbrev outcome : Outcome (Unit {0}) × World kv.Db
  outcome = run kv (create_bp c bus bp) w

  -- On any store, a CreateBP of a port that is no transparent trunk, which returns no error, leaves
  -- at the port's name the port with the VLANs of its bridges, in their order; at each of its
  -- bridges, which knew neither the port nor its MAC address, the bridge with both; every other key
  -- but the list of ports as before; and one task. The bridges are stored at their own names, and
  -- are different from one another.
  pub create_bp-IsCreated :
      (k : String)
      → bp.transparent_trunk ≡ false
      → is_distinct bp.spec.logical_bridges ≡ true
      → ArePresent bs (kv.content w.db) bp.spec.logical_bridges
      → (bp.name == "bps") ≡ false
      → (k == "bps") ≡ false
      → outcome.0 ≡ done (ok tt)
      → IsCreated bus bp bs (view kv w) (view kv outcome.1) k
  create_bp-IsCreated k nt d p nb nk h =
      run_by_exec kv (λ r w'. r ≡ ok tt → IsCreated bus bp bs (view kv w) w' k) (create_bp c bus bp)
        w (ok tt) h (exec-create_bp c bus bp bs k (view kv w) nb nk d p nt) refl
