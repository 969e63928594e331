-- ===== src/Nmapi/WireGuard/Frame.antt =====
-- internal/nmapi/vpn.go: a tunnel that comes up or goes changes no binding between devices and active
-- connections.
use sinty_nm.Base.{
  if◌then◌else◌, Bool-cases, Bytes, ℤ, codes, ℕ, zero, suc, ◌≡◌, refl, ◌∙◌, inl, inr, Bool, true,
  false, Option, none, some, List, [], ◌∷◌, ◌++◌, pos, negsuc,
}
use sinty_nm.Core.{RouteInfo, WgPeer}
use sinty_nm.Net.{IpNet, to4}
use sinty_nm.Nmapi.Profile.{SettingsConnection, IpSettings, ip_config}
use sinty_nm.Nmapi.State.{
  Device, Manager, World, set_up, flush_addrs, add_addr, add_route, wg_configure, log, and_then,
  call,
}
use sinty_nm.Nmapi.WireGuard.{
  add_addresses, add_halves, halves, route_nets, route_peers, keep_route, host_route, v4_route,
  endpoint_routes, peer_routes, via_gateway, wg_dns, wg_routes, with_mtu, wg_config, wg_mtu,
  is_full, bring_up_wire_guard, delete_routes, tear_down_wire_guard,
}
use sinty_nm.Nmapi.Activation.Frame.{bindings, put_active-bindings}

pub and_then-bindings :
    (r : Manager × Bool) (m : Manager) (next : Manager → Manager × Bool)
    → bindings (r.0) ≡ bindings m
    → ((n : Manager) → bindings ((next n).0) ≡ bindings n)
    → bindings ((and_then r next).0) ≡ bindings m
and_then-bindings (n, true) m next h k = k n ∙ h
and_then-bindings (n, false) m next h k = h

pub add_addresses-bindings :
    (w : World) (index : ℤ) (nets : List IpNet) (m : Manager)
    → bindings ((add_addresses w index nets m).0) ≡ bindings m
unfolding add_addresses
add_addresses-bindings w index [] m = refl
add_addresses-bindings w index (a ∷ nets) m =
    and_then-bindings (call (add_addr index a.ip a.ones) (w.adds_address a.ip a.ones) m) m
      (add_addresses w index nets) refl (add_addresses-bindings w index nets)

add_halves-bindings :
    (index : ℤ) (nets : List IpNet) (m : Manager) → bindings (add_halves index nets m) ≡ bindings m
unfolding add_halves
add_halves-bindings index [] m = refl
add_halves-bindings index (h ∷ hs) m = add_halves-bindings index hs _

route_nets-bindings :
    (index : ℤ) (nets : List IpNet) (m : Manager) → bindings (route_nets index nets m) ≡ bindings m
unfolding route_nets
route_nets-bindings index [] m = refl
route_nets-bindings index (n ∷ nets) m =
    route_nets-bindings index nets _ ∙ add_halves-bindings index (halves n) m

route_peers-bindings :
    (index : ℤ) (peers : List WgPeer) (m : Manager)
    → bindings (route_peers index peers m) ≡ bindings m
unfolding route_peers
route_peers-bindings index [] m = refl
route_peers-bindings index (p ∷ peers) m =
    route_peers-bindings index peers _ ∙ route_nets-bindings index p.allowed_ips m

host_route-bindings :
    (w : World) (ac : ℕ) (index : ℤ) (gw ip : Bytes) (m : Manager)
    → bindings (host_route w ac index gw ip m) ≡ bindings m
unfolding host_route keep_route
host_route-bindings w ac index gw ip m =
    let r : RouteInfo = record {
      dst = some (record { ip = ip; ones = 32; bits = 32 });
      gw = some gw;
      metric = 5;
    } in
    kept (w.adds_route index r) r (log (add_route index r) m)
  where
    kept :
        (added : Bool) (r : RouteInfo) (n : Manager)
        → bindings (if added then keep_route ac index r n else n) ≡ bindings n
    kept true r n = put_active-bindings ac _ n refl refl refl
    kept false r n = refl

v4_route-bindings :
    (w : World) (ac : ℕ) (index : ℤ) (gw : Bytes) (ip : Option Bytes) (m : Manager)
    → bindings (v4_route w ac index gw ip m) ≡ bindings m
unfolding v4_route
v4_route-bindings w ac index gw none m = refl
v4_route-bindings w ac index gw (some ip) m = host_route-bindings w ac index gw ip m

endpoint_routes-bindings :
    (w : World) (ac : ℕ) (index : ℤ) (gw : Bytes) (ips : List Bytes) (m : Manager)
    → bindings (endpoint_routes w ac index gw ips m) ≡ bindings m
unfolding endpoint_routes
endpoint_routes-bindings w ac index gw [] m = refl
endpoint_routes-bindings w ac index gw (ip ∷ ips) m =
    endpoint_routes-bindings w ac index gw ips _ ∙ v4_route-bindings w ac index gw (to4 ip) m

peer_routes-bindings :
    (w : World) (ac : ℕ) (index : ℤ) (gw : Bytes) (peers : List WgPeer) (m : Manager)
    → bindings (peer_routes w ac index gw peers m) ≡ bindings m
unfolding peer_routes
peer_routes-bindings w ac index gw [] m = refl
peer_routes-bindings w ac index gw (p ∷ peers) m =
    peer_routes-bindings w ac index gw peers _
    ∙ endpoint_routes-bindings w ac index gw (w.endpoint_ips p.endpoint) m

via_gateway-bindings :
    (w : World) (ac : ℕ) (gateway : Option (ℤ × Bytes)) (peers : List WgPeer) (m : Manager)
    → bindings (via_gateway w ac gateway peers m) ≡ bindings m
unfolding via_gateway
via_gateway-bindings w ac none peers m = refl
via_gateway-bindings w ac (some (index, gw)) peers m = peer_routes-bindings w ac index gw peers m

wg_dns-bindings :
    (iface : Bytes) (dns domains : List Bytes) (m : Manager)
    → bindings (wg_dns iface dns domains m) ≡ bindings m
unfolding wg_dns
wg_dns-bindings iface [] domains m = refl
wg_dns-bindings iface (d ∷ ds) domains m = refl

with_mtu-bindings : (index mtu : ℤ) (m : Manager) → bindings (with_mtu index mtu m) ≡ bindings m
unfolding with_mtu
with_mtu-bindings index (pos zero) m = refl
with_mtu-bindings index (pos (suc n)) m = refl
with_mtu-bindings index (negsuc n) m = refl

wg_routes-bindings :
    (w : World) (ac : ℕ) (dev : Device) (peers : List WgPeer) (v4 v6 : IpSettings) (m : Manager)
    → bindings (wg_routes w ac dev peers v4 v6 m) ≡ bindings m
unfolding wg_routes
wg_routes-bindings w ac dev peers v4 v6 m =
    wg_dns-bindings dev.iface (v4.dns ++ v6.dns) (v4.domains ++ v6.domains) _
    ∙ (elim (Bool-cases (is_full peers)) [
      | inl e ↦ rw e (
          via_gateway-bindings w ac w.gateway peers (route_peers dev.index peers m)
          ∙ route_peers-bindings dev.index peers m)
      | inr e ↦ rw e (route_peers-bindings dev.index peers m)
    ])

pub bring_up_wire_guard-bindings :
    (w : World) (ac : ℕ) (sc : SettingsConnection) (dev : Device) (m : Manager)
    → bindings ((bring_up_wire_guard w ac sc dev m).0) ≡ bindings m
unfolding bring_up_wire_guard
bring_up_wire_guard-bindings w ac sc dev m =
    let v4 = ip_config w.parse_ip w.atoi (codes "ipv4") sc in
    let v6 = ip_config w.parse_ip w.atoi (codes "ipv6") sc in
    let nets = v4.addrs ++ v6.addrs in
    let index = dev.index in
    let peers = (wg_config w sc).peers in
    let raise : Manager → Manager × Bool = λ addressed.
      and_then (call (set_up index) w.raises addressed)
        (λ up. (wg_routes w ac dev peers v4 v6 up, true)) in
    let address : Manager → Manager × Bool =
      λ flushed. and_then (add_addresses w index nets flushed) raise in
    let flush : Manager → Manager × Bool = λ configured.
      and_then (call (flush_addrs index) w.flushes (with_mtu index (wg_mtu w sc) configured))
        address in
    and_then-bindings (call (wg_configure dev.iface (wg_config w sc)) w.configures m) m flush refl
      (λ n.
        and_then-bindings (call (flush_addrs index) w.flushes (with_mtu index (wg_mtu w sc) n)) n
          address (with_mtu-bindings index (wg_mtu w sc) n)
          (λ k.
            and_then-bindings (add_addresses w index nets k) k raise
              (add_addresses-bindings w index nets k)
              (λ a.
                and_then-bindings (call (set_up index) w.raises a) a
                  (λ up. (wg_routes w ac dev peers v4 v6 up, true)) refl
                  (wg_routes-bindings w ac dev peers v4 v6))))

pub tear_down_wire_guard-bindings :
    (p : ℕ) (m : Manager) → bindings (tear_down_wire_guard p m) ≡ bindings m
unfolding tear_down_wire_guard delete_routes
tear_down_wire_guard-bindings p m =
    put_active-bindings p _ (delete_routes (m.active p).vpn_routes m) refl refl refl
    ∙ cut (m.active p).vpn_routes m
  where
    cut :
        (routes : List (ℤ × RouteInfo)) (n : Manager)
        → bindings (delete_routes routes n) ≡ bindings n
    cut [] n = refl
    cut ((index, r) ∷ routes) n = cut routes _
