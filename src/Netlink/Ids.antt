-- ===== src/Netlink/Ids.antt =====
-- The identifiers of next hops: NHAssignID and L2NHAssignID of pkg/netlink/nexthop.go and
-- l2nexthop.go, with the caches and the counters that they use.
pub mod Unique
use opi_evpn_bridge.Prelude.{ℕ, suc, List, [], Option, none, some, ◌==◌, nat_eq, Eq, if◌then◌else◌}
use opi_evpn_bridge.Prelude.Dict.{Dict, lookup, insert}

pub record IdCache (K : Type 0) : Type 0 where
  pub cache : Dict K ℕ
  pub next_id : ℕ

-- `nhNextID` and `l2nexthopID` start at 16.
abbrev pub initial_ids : {K : Type 0} → IdCache K
initial_ids = record { cache = []; next_id = 16 }

-- A read of a map gives 0 where the key is missing.
abbrev or_zero : Option ℕ → ℕ
or_zero none = 0
or_zero (some n) = n

module _ {K : Type 0} ⦃eq_key : Eq K⦄ where
  unfoldable pub assign_id : K → IdCache K → ℕ × IdCache K
  assign_id key ids =
      let id = or_zero (lookup key ids.cache) in
      if id == 0
      then (
        ids.next_id,
        record { cache = insert key ids.next_id ids.cache; next_id = suc ids.next_id },
      )
      else (id, ids)
