-- ===== src/Infradb/Replay/Ports.antt =====
-- The bridge ports in a replay.
use text.Mathlib.TextEquality.{eq_iff}
use opi_evpn_bridge.Prelude.{
  ◌≡◌, refl, String, false, ◌&&◌, not, List, [], ◌∷◌, arith, ◌==◌, string_eq, All, Bool-cases, inl,
  inr,
}
use opi_evpn_bridge.EventBus.{EventBus, get_subscribers, has_name}
use opi_evpn_bridge.Infradb.Errors.{ok}
use opi_evpn_bridge.Infradb.Store.{Codec, Gokv}
use opi_evpn_bridge.Infradb.Program.{World, run, done, pure}
use opi_evpn_bridge.Infradb.Replay.{
  gather_objects_and_subs_to_replay, replay_objects, get_object_types_to_replay, object_types,
  types_of_component,
}

module _ (c : Codec) (bus : EventBus) (versions : String → String) (component_name : String) where
  -- No type, or the one of bridge ports, is left to replay.
  gather-ports :
      (types : List String)
      → All
          (λ t.
            (has_name component_name (get_subscribers bus t) && not (t == "bridge-port")) ≡ false)
          types
      → gather_objects_and_subs_to_replay c bus versions component_name
          (types_of_component bus component_name types)
        ≡ pure ([], [])
  unfolding gather_objects_and_subs_to_replay types_of_component
  gather-ports [] h = refl
  gather-ports (t ∷ types) h = elim (Bool-cases (t == "bridge-port")) [
    | inl e ↦ let ih = gather-ports types h.1 in rw ((eq_iff t "bridge-port").0 e) (ground arith)
    | inr e ↦ ground (arith, gather-ports types h.1)
  ]

module _ (kv : Gokv) (c : Codec) (bus : EventBus) (versions : String → String)
    (component_name : String) (ranged : List String → List String) (w : World kv.Db) where
  -- The replay for a component that handles no objects but bridge ports does nothing at all: no port
  -- is reset, none is stored and no task is created, whatever the store holds, and in whichever
  -- order the types are gone through.
  pub replay_objects-ports :
      All
        (λ t. (has_name component_name (get_subscribers bus t) && not (t == "bridge-port")) ≡ false)
        (ranged object_types)
      → run kv (replay_objects c bus versions component_name ranged) w ≡ (done (ok tt), w)
  unfolding run replay_objects get_object_types_to_replay
  replay_objects-ports h =
      ground (arith, gather-ports c bus versions component_name (ranged object_types) h)
