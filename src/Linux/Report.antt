-- ===== src/Linux/Report.antt =====
-- What lgm.go and lci.go report of an object: the handlers write these steps out, each for its kind
-- of object.
pub mod Timers
pub mod Own
use opi_evpn_bridge.Prelude.{
  ℕ, ◌*◌, ◌%◌, ◌^◌, String, Bool, true, false, List, [], ◌∷◌, ◌==◌, string_eq, nat_eq,
  if◌then◌else◌,
}
use opi_evpn_bridge.Component.{Component, unset, success, error}
use opi_evpn_bridge.Infradb.Errors.{Error}
use opi_evpn_bridge.Infradb.LogicalBridge.{IpNet}
use opi_evpn_bridge.Linux.Kernel.{NewLink}

-- eventbus.ObjectData
pub record ObjectData : Type 0 where
  pub name : String
  pub resource_version : String
  pub notification_id : String

-- The texts that `fmt` makes of values other than texts and numbers.
pub record Fmt : Type 0 where
  pub error : Error → String
  pub link : NewLink → String
  pub ip : ℕ → String
  pub ip_net : IpNet → String
  pub hardware_addr : List ℕ → String

-- `comp` before it is written to.
abbrev zero_component : Component
zero_component = record { name = ""; comp_status = unset; details = ""; timer = 0; replay = false }

-- `comp.Timer`, a duration of 64 bits.
unfoldable pub retry_timer : ℕ → ℕ
retry_timer timer = if timer == 0 then 2000000000 else timer * 2 % 2 ^ 64

unfoldable pub failed_component : String → String → Component
failed_component name details = record zero_component {
  name = name;
  comp_status = error;
  details = details;
  timer = retry_timer 0;
}

-- The last component of that name, if there is one.
latest : String → List Component → Component → Component
latest name [] c = c
latest name (x ∷ xs) c = latest name xs (if x.name == name then x else c)

unfoldable pub own_component : String → List Component → Component
unfolding latest
own_component name cs = latest name cs zero_component

unfoldable pub reported : String → String → Bool → Component → Component
reported name details true c = record c {
  name = name;
  details = details;
  comp_status = success;
  timer = 0;
}
reported name details false c = record c {
  name = name;
  details = details;
  comp_status = error;
  timer = retry_timer c.timer;
}
