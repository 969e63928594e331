-- ===== src/Nmapi/BringUp.antt =====
-- internal/nmapi/activate.go: from a profile to a configured device. Each call of a backend is logged,
-- and the world says whether it succeeds.
pub mod Frame
pub mod Order
use sinty_nm.Base.{
  ◌==◌, if◌then◌else◌, length, Bytes, ℤ, codes, ℕ, ◌+◌, Bool, true, false, not, ◌&&◌, Option, none,
  some, List, [], pos,
}
use sinty_nm.Base.Dict.{bytes_equal}
use sinty_nm.Core.{DeviceKind, kind_ethernet, kind_wifi, kind_wire_guard, Lease}
use sinty_nm.Core.LinkLocal.{link_local_lease}
use sinty_nm.Net.{IpNet}
use sinty_nm.Nmapi.Types.{dev_state_config, dev_state_ip_config, dev_reason_none, is_ethernet}
use sinty_nm.Nmapi.Profile.{
  SettingsConnection, ssid_of, psk_of, ipv4_method, manual_lease, merge_dns,
}
use sinty_nm.Nmapi.State.{
  Device, Manager, World, set_up, flush_addrs, add_addr, add_route, dns_set, wifi_connect, log,
  put_device, and_then, call,
}
use sinty_nm.Nmapi.Device.{set_state, set_ip4_config, set_active_ap}
use sinty_nm.Nmapi.WireGuard.{add_addresses, bring_up_wire_guard}
use sinty_nm.Nmapi.Activation.{set_ip4, ap_path_for_ssid}

-- applyLease: the default route, where the lease has a gateway.
unfoldable pub add_gateway : ℤ → Option Bytes → Manager → Manager
add_gateway index none m = m
add_gateway index (some gw) m =
    log (add_route index (record { dst = none; gw = some gw; metric = 100 })) m

-- applyLease: the configuration object, where the bus takes it. The counter moves in either case.
unfoldable pub publish_ip4 : Bool → ℕ → ℕ → Manager → Manager
publish_ip4 exported p d m =
    let q = m.ip_gen + 1 in
    let drawn = record m { ip_gen = q } in
    if exported
    then set_ip4 p (some q) (
        set_ip4_config d (some q) none
          (put_device d (record (m.device d) { ip4obj = some q }) drawn))
    else drawn

-- applyLease: what follows the addresses.
unfoldable pub finish_lease : World → ℕ → ℕ → Lease → Manager → Manager
finish_lease w p d lease m =
    let dev = m.device d in
    let routed = add_gateway dev.index lease.gateway (log (set_up dev.index) m) in
    publish_ip4 w.exports_ip4 p d (
      log
        (dns_set (record {
          iface = dev.iface;
          nameservers = lease.dns;
          domains = lease.domains;
          priority = pos 100;
        }))
        routed)

-- applyLease
unfoldable pub apply_lease : World → ℕ → ℕ → Lease → List IpNet → Manager → Manager × Bool
apply_lease w p d lease extra m =
    let index = (m.device d).index in
    and_then (call (flush_addrs index) w.flushes m) (λ flushed.
      and_then
        (call (add_addr index lease.ip lease.prefix_len) (w.adds_address lease.ip lease.prefix_len)
          flushed)
        (λ addressed.
          and_then (add_addresses w index extra addressed)
            (λ configured. (finish_lease w p d lease configured, true))))

-- configureDHCP: a wired device with a MAC address falls back to a link-local address.
unfoldable pub falls_back : World → Device → Bool
falls_back w dev = is_ethernet dev.kind && not w.is_done && length w.mac == 6

unfoldable pub chosen_lease : World → Device → Option Lease → Option Lease
chosen_lease w dev (some lease) = some lease
chosen_lease w dev none = if falls_back w dev then some (link_local_lease w.mac) else none

unfoldable pub apply_chosen :
    World → ℕ → SettingsConnection → ℕ → Option Lease → Manager → Manager × Bool
apply_chosen w p sc d none m = (m, false)
apply_chosen w p sc d (some lease) m = apply_lease w p d (merge_dns w.parse_ip w.atoi sc lease) [] m

-- configureDHCP
unfoldable pub configure_dhcp : World → ℕ → SettingsConnection → ℕ → Manager → Manager × Bool
configure_dhcp w p sc d m =
    apply_chosen w p sc d (chosen_lease w (m.device d) w.acquires)
      (set_state d dev_state_ip_config dev_reason_none m)

-- configureIPv4: a manual profile.
unfoldable pub apply_manual : World → ℕ → ℕ → Option (Lease × List IpNet) → Manager → Manager × Bool
apply_manual w p d none m = (m, false)
apply_manual w p d (some (lease, extra)) m = apply_lease w p d lease extra m

-- configureIPv4
unfoldable pub configure_ipv4 : World → ℕ → SettingsConnection → ℕ → Manager → Manager × Bool
configure_ipv4 w p sc d m =
    if bytes_equal (ipv4_method sc) (codes "disabled")
    then (m, true)
    else if bytes_equal (ipv4_method sc) (codes "manual")
    then apply_manual w p d (manual_lease w.parse_ip w.atoi sc)
        (set_state d dev_state_ip_config dev_reason_none m)
    else configure_dhcp w p sc d m

-- bringUp
unfoldable pub bring_up_kind :
    DeviceKind → World → ℕ → SettingsConnection → ℕ → Manager → Manager × Bool
bring_up_kind kind_wifi w p sc d m =
    and_then
      (call (wifi_connect (m.device d).iface (ssid_of sc) (psk_of sc)) w.wifi_connects
        (set_state d dev_state_config dev_reason_none m))
      (λ joined.
        configure_ipv4 w p sc d
          (set_active_ap d (ap_path_for_ssid (ssid_of sc) (joined.device d)) joined))
bring_up_kind kind_ethernet w p sc d m =
    and_then (call (set_up (m.device d).index) w.raises m) (configure_ipv4 w p sc d)
bring_up_kind kind_wire_guard w p sc d m = bring_up_wire_guard w p sc (m.device d) m
bring_up_kind _ w p sc d m = (m, false)

unfoldable pub bring_up : World → ℕ → SettingsConnection → ℕ → Manager → Manager × Bool
bring_up w p sc d m = bring_up_kind (m.device d).kind w p sc d m
