-- ===== src/Nmapi/BringUp/Frame.antt =====
-- internal/nmapi/activate.go and vpn.go: while a connection comes up, no binding between devices and
-- active connections changes.
use sinty_nm.Base.{
  Bool-cases, Bytes, ℤ, codes, ℕ, ◌+◌, ◌≡◌, refl, ◌∙◌, inl, inr, Bool, true, false, Option, none,
  some, List, [],
}
use sinty_nm.Base.Dict.{bytes_equal}
use sinty_nm.Core.{
  DeviceKind, kind_unknown, kind_ethernet, kind_wifi, kind_wire_guard, kind_loopback, kind_bridge,
  kind_tun, Lease,
}
use sinty_nm.Net.{IpNet}
use sinty_nm.Nmapi.Types.{dev_state_config, dev_state_ip_config, dev_reason_none}
use sinty_nm.Nmapi.Profile.{SettingsConnection, ipv4_method, manual_lease, ssid_of, psk_of}
use sinty_nm.Nmapi.State.{
  Manager, World, wifi_connect, set_up, flush_addrs, add_addr, log, put_device, and_then, call,
}
use sinty_nm.Nmapi.Device.{set_state, set_ip4_config, set_active_ap}
use sinty_nm.Nmapi.WireGuard.{add_addresses}
use sinty_nm.Nmapi.WireGuard.Frame.{
  and_then-bindings, add_addresses-bindings, bring_up_wire_guard-bindings,
}
use sinty_nm.Nmapi.Activation.{ap_path_for_ssid}
use sinty_nm.Nmapi.Activation.Frame.{
  bindings, put_device-bindings, set_state-bindings, set_ip4-bindings, set_ip4_config-bindings,
  set_active_ap-bindings,
}
use sinty_nm.Nmapi.BringUp.{
  add_gateway, publish_ip4, finish_lease, apply_lease, chosen_lease, apply_chosen, configure_dhcp,
  apply_manual, configure_ipv4, bring_up_kind, bring_up,
}

add_gateway-bindings :
    (index : ℤ) (gw : Option Bytes) (m : Manager) → bindings (add_gateway index gw m) ≡ bindings m
unfolding add_gateway
add_gateway-bindings index none m = refl
add_gateway-bindings index (some gw) m = refl

publish_ip4-bindings :
    (exported : Bool) (p d : ℕ) (m : Manager) → bindings (publish_ip4 exported p d m) ≡ bindings m
unfolding publish_ip4
publish_ip4-bindings true p d m =
    let q = m.ip_gen + 1 in
    let drawn = record m { ip_gen = q } in
    let owned = put_device d (record (m.device d) { ip4obj = some q }) drawn in
    set_ip4-bindings p (some q) (set_ip4_config d (some q) none owned)
    ∙ (set_ip4_config-bindings d (some q) none owned
        ∙ put_device-bindings d (record (m.device d) { ip4obj = some q }) drawn refl refl)
publish_ip4-bindings false p d m = refl

finish_lease-bindings :
    (w : World) (p d : ℕ) (lease : Lease) (m : Manager)
    → bindings (finish_lease w p d lease m) ≡ bindings m
unfolding finish_lease
finish_lease-bindings w p d lease m =
    publish_ip4-bindings w.exports_ip4 p d _
    ∙ add_gateway-bindings (m.device d).index lease.gateway (log (set_up (m.device d).index) m)

apply_lease-bindings :
    (w : World) (p d : ℕ) (lease : Lease) (extra : List IpNet) (m : Manager)
    → bindings ((apply_lease w p d lease extra m).0) ≡ bindings m
unfolding apply_lease
apply_lease-bindings w p d lease extra m =
    let index = (m.device d).index in
    let more : Manager → Manager × Bool = λ addressed.
      and_then (add_addresses w index extra addressed)
        (λ configured. (finish_lease w p d lease configured, true)) in
    let address : Manager → Manager × Bool = λ flushed.
      and_then
        (call (add_addr index lease.ip lease.prefix_len) (w.adds_address lease.ip lease.prefix_len)
          flushed)
        more in
    and_then-bindings (call (flush_addrs index) w.flushes m) m address refl (λ n.
      and_then-bindings
        (call (add_addr index lease.ip lease.prefix_len) (w.adds_address lease.ip lease.prefix_len)
          n)
        n more refl
        (λ k.
          and_then-bindings (add_addresses w index extra k) k
            (λ configured. (finish_lease w p d lease configured, true))
            (add_addresses-bindings w index extra k) (finish_lease-bindings w p d lease)))

configure_ipv4-bindings :
    (w : World) (p : ℕ) (sc : SettingsConnection) (d : ℕ) (m : Manager)
    → bindings ((configure_ipv4 w p sc d m).0) ≡ bindings m
unfolding configure_ipv4 configure_dhcp apply_manual apply_chosen
configure_ipv4-bindings w p sc d m =
    elim (Bool-cases (bytes_equal (ipv4_method sc) (codes "disabled"))) [
      | inl e ↦ rw e refl
      | inr e ↦ rw e (elim (Bool-cases (bytes_equal (ipv4_method sc) (codes "manual"))) [
        | inl manual ↦ rw manual (by_hand (manual_lease w.parse_ip w.atoi sc) _ ∙ moved)
        | inr auto ↦ rw auto (chosen (chosen_lease w (m.device d) w.acquires) _ ∙ moved)
      ])
    ]
  where
    moved : bindings (set_state d dev_state_ip_config dev_reason_none m) ≡ bindings m
    moved = set_state-bindings d dev_state_ip_config dev_reason_none m

    by_hand :
        (lease : Option (Lease × List IpNet)) (n : Manager)
        → bindings ((apply_manual w p d lease n).0) ≡ bindings n
    by_hand none n = refl
    by_hand (some (lease, extra)) n = apply_lease-bindings w p d lease extra n

    chosen :
        (lease : Option Lease) (n : Manager)
        → bindings ((apply_chosen w p sc d lease n).0) ≡ bindings n
    chosen none n = refl
    chosen (some lease) n = apply_lease-bindings w p d _ [] n

pub bring_up-bindings :
    (w : World) (p : ℕ) (sc : SettingsConnection) (d : ℕ) (m : Manager)
    → bindings ((bring_up w p sc d m).0) ≡ bindings m
unfolding bring_up bring_up_kind
bring_up-bindings w p sc d m = by_kind (m.device d).kind
  where
    by_kind : (k : DeviceKind) → bindings ((bring_up_kind k w p sc d m).0) ≡ bindings m
    by_kind kind_wifi =
        let moved = set_state d dev_state_config dev_reason_none m in
        let join : Manager → Manager × Bool = λ joined.
          configure_ipv4 w p sc d
            (set_active_ap d (ap_path_for_ssid (ssid_of sc) (joined.device d)) joined) in
        and_then-bindings
          (call (wifi_connect (m.device d).iface (ssid_of sc) (psk_of sc)) w.wifi_connects moved) m
          join (set_state-bindings d dev_state_config dev_reason_none m)
          (λ n.
            configure_ipv4-bindings w p sc d
              (set_active_ap d (ap_path_for_ssid (ssid_of sc) (n.device d)) n)
            ∙ set_active_ap-bindings d (ap_path_for_ssid (ssid_of sc) (n.device d)) n)
    by_kind kind_ethernet =
        and_then-bindings (call (set_up (m.device d).index) w.raises m) m (configure_ipv4 w p sc d)
          refl (configure_ipv4-bindings w p sc d)
    by_kind kind_wire_guard = bring_up_wire_guard-bindings w p sc (m.device d) m
    by_kind kind_unknown = refl
    by_kind kind_loopback = refl
    by_kind kind_bridge = refl
    by_kind kind_tun = refl
