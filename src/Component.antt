-- ===== src/Component.antt =====
-- pkg/infradb/common/common.go: what a component (a module such as the FRR or the Linux modules)
-- reports of an object.
use opi_evpn_bridge.Prelude.{ℕ, String, Bool, false, ltb}

-- `unset` is the zero value, which no constant names.
pub data CompStatus : Type 0 where
  unset unspecified pending success error : CompStatus

-- A timer is a duration in nanoseconds.
pub record Component : Type 0 where
  pub name : String
  pub comp_status : CompStatus
  pub details : String
  pub timer : ℕ
  pub replay : Bool

-- The component that a new object starts with.
abbrev pub pending_component : String → Component
pending_component name = record {
  name = name;
  comp_status = pending;
  details = "";
  timer = 0;
  replay = false;
}

abbrev pub is_success : CompStatus → Bool
is_success success = Bool.true
is_success _ = false

unfoldable pub check_replay_threshold : ℕ → Component → Component
check_replay_threshold threshold c = record c { replay = ltb threshold c.timer }
