-- ===== src/EventBus/Examples.antt =====
-- The order of subscribers, on a bus with two subscribers of one event type.
use opi_evpn_bridge.Prelude.Int.{pos}
use opi_evpn_bridge.Prelude.{◌≡◌, [], ◌∷◌, refl, string_eq}
use opi_evpn_bridge.Prelude.Dict.{lookup}
use opi_evpn_bridge.EventBus.{EventBus, get_subscribers, subscribe}
use opi_evpn_bridge.EventBus.Order.{IsOrdered, count_id, subscribe_lem}

abbrev bus : EventBus
bus = record {
  subscribers =
      (
        "svi",
        record { id = 0; name = "frr"; priority = pos 1 }
            ∷ record { id = 1; name = "lvm"; priority = pos 3 }
            ∷ [],
      )
      ∷ [];
  event_handlers = [];
  next_id = 2;
}

subscribe_lem_example :
    IsOrdered (get_subscribers (subscribe "lgm" "svi" (pos 2) 9 bus).1 "svi")
    × (count_id 2 (get_subscribers (subscribe "lgm" "svi" (pos 2) 9 bus).1 "svi") ≡ 1)
    × (get_subscribers (subscribe "lgm" "svi" (pos 2) 9 bus).1 "svi"
        ≡ get_subscribers (subscribe "lgm" "svi" (pos 2) 9 bus).1 "svi")
unfolding get_subscribers lookup subscribe
subscribe_lem_example = subscribe_lem "lgm" "svi" (pos 2) 9 bus "svi" 2 ((refl, tt), (tt, tt))
