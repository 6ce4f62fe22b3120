-- ===== src/Linux/Tenant.antt =====
-- The bridge of the tenants, of Initialize and DeInitialize of pkg/LinuxGeneralModule/lgm.go. `mtu`
-- is `ipMtu`. `log.Fatalf` ends the process: it is a `panic` of the plan.
use opi_evpn_bridge.Prelude.{ℕ, ◌+◌, String, true, Option, none, some}
use opi_evpn_bridge.Linux.Kernel.{
  Kernel, NewLink, Request, bridge, link_add, link_del, link_set_mtu, link_set_up,
}
use opi_evpn_bridge.Linux.Bridges.{br_tenant}

abbrev pub tenant_bridge : NewLink
tenant_bridge = record { name = br_tenant; mtu = 0; kind = bridge true }

-- The process goes on, or it has ended.
pub data Process (S : Type 0) : Type 0 where
  running : S → Process S
  exited : S → Process S

module _ (K : Kernel) (mtu : ℕ) where
  or_fatal : Request → Process K.State → Process K.State
  or_fatal r (exited s) = exited s
  or_fatal r (running s) = elim (K.perform s r).0 [
    | none ↦ running (K.perform s r).1
    | some _ ↦ exited (K.perform s r).1
  ]

  unfoldable pub set_up_tenant_bridge : K.State → Process K.State
  unfolding or_fatal
  set_up_tenant_bridge s =
      or_fatal (link_set_up br_tenant) (
        or_fatal (link_set_mtu br_tenant (mtu + 20))
          (or_fatal (link_add tenant_bridge) (running s)))

  -- The end of Initialize.
  unfoldable pub ensure_tenant_bridge : K.State → Process K.State
  ensure_tenant_bridge s = elim (K.find_error s br_tenant) [
    | none ↦ running s
    | some _ ↦ set_up_tenant_bridge s
  ]

  -- The error that TearDownTenantBridge returns, if it does.
  unfoldable pub tear_down_tenant_bridge : K.State → Option String × K.State
  tear_down_tenant_bridge s = elim (K.find_error s br_tenant) [
    | some e ↦ (some e, s)
    | none ↦ K.perform s (link_del br_tenant)
  ]
