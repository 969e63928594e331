-- ===== src/Nmapi/WireGuard.antt =====
-- internal/nmapi/vpn.go: WireGuard connections. The world answers for the kernel, the resolver and the
-- parsers of package net.
pub mod Frame
use sinty_nm.Base.{
  ◌==◌, if◌then◌else◌, Bytes, zeros, ℤ, codes, trim_space, cut, ℕ, suc, Bool, true, false, not,
  ◌&&◌, ◌||◌, Option, none, some, List, [], ◌∷◌, ◌++◌, map, pos, negsuc,
}
use sinty_nm.Base.Dict.{find, bytes_eq}
use sinty_nm.Core.{RouteInfo, WgPeer, WgConfig}
use sinty_nm.Net.{to4, IpNet}
use sinty_nm.Nmapi.Variant.{
  Plain, Variant, dicts, plain_string, plain_int, plain_strings, variant_string, variant_uint,
  group_of,
}
use sinty_nm.Nmapi.Profile.{SettingsConnection, IpSettings, ip_config}
use sinty_nm.Nmapi.State.{
  Device, Manager, World, set_up, flush_addrs, add_addr, add_route, del_route, set_mtu, dns_set,
  wg_configure, log, put_active, and_then, call,
}

-- wgConfig: the text has a slash.
unfoldable pub has_slash : Bytes → Bool
has_slash [] = false
has_slash (c ∷ cs) = c == 47 || has_slash cs

-- wgConfig: an address without a prefix is one host.
unfoldable pub is_v4 : Option Bytes → Bool
is_v4 none = false
is_v4 (some ip) = elim (to4 ip) [ some v4 ↦ true | none ↦ false ]

unfoldable pub with_prefix : World → Bytes → Bytes
with_prefix w s =
    if has_slash s then s else if is_v4 (w.parse_ip s) then s ++ codes "/32" else s ++ codes "/128"

-- wgConfig: the networks of "allowed-ips" that parse.
unfoldable pub allowed_nets : World → List Bytes → List IpNet
allowed_nets w [] = []
allowed_nets w (s ∷ ss) =
    let rest = allowed_nets w ss in
    elim (w.parse_cidr (trim_space (with_prefix w s))) [ none ↦ rest | some n ↦ n ∷ rest ]

unfoldable pub allowed_ips_in : World → Option Plain → List IpNet
allowed_ips_in w none = []
allowed_ips_in w (some a) = allowed_nets w (plain_strings a)

unfoldable pub peer_of : World → List (Bytes × Plain) → WgPeer
peer_of w p = record {
  public_key = plain_string (find (codes "public-key") p);
  preshared_key = plain_string (find (codes "preshared-key") p);
  endpoint = plain_string (find (codes "endpoint") p);
  keepalive = plain_int w.atoi (find (codes "persistent-keepalive") p);
  allowed_ips = allowed_ips_in w (find (codes "allowed-ips") p);
}

unfoldable pub peers_in : World → Option Variant → List WgPeer
peers_in w (some (dicts list)) = map (peer_of w) list
peers_in w _ = []

-- wgConfig
unfoldable pub wg_config : World → SettingsConnection → WgConfig
wg_config w sc =
    let g = group_of (codes "wireguard") sc.settings in
    record {
      private_key = variant_string g (codes "private-key");
      listen_port = variant_uint w.atoi g (codes "listen-port");
      fw_mark = variant_uint w.atoi g (codes "fwmark");
      peers = peers_in w (find (codes "peers") g);
    }

-- wgMTU
unfoldable pub wg_mtu : World → SettingsConnection → ℤ
wg_mtu w sc = variant_uint w.atoi (group_of (codes "wireguard") sc.settings) (codes "mtu")

-- halves: the default route as two routes that are more specific.
unfoldable pub halves : IpNet → List IpNet
halves n =
    if not (n.ones == 0)
    then n ∷ []
    else if n.bits == 32
    then record { ip = 0 ∷ 0 ∷ 0 ∷ 0 ∷ []; ones = 1; bits = 32 }
      ∷ record { ip = 128 ∷ 0 ∷ 0 ∷ 0 ∷ []; ones = 1; bits = 32 }
      ∷ []
    else record { ip = zeros 16; ones = 1; bits = 128 }
      ∷ record { ip = 128 ∷ zeros 15; ones = 1; bits = 128 }
      ∷ []

-- bringUpWireGuard: the loop on the addresses, which ends at the first error.
unfoldable pub add_addresses : World → ℤ → List IpNet → Manager → Manager × Bool
add_addresses w index [] m = (m, true)
add_addresses w index (a ∷ more) m =
    and_then (call (add_addr index a.ip a.ones) (w.adds_address a.ip a.ones) m)
      (add_addresses w index more)

-- bringUpWireGuard: the routes of the networks, with the answers dropped.
unfoldable pub add_halves : ℤ → List IpNet → Manager → Manager
add_halves index [] m = m
add_halves index (h ∷ hs) m =
    add_halves index hs (log (add_route index (record { dst = some h; gw = none; metric = 50 })) m)

unfoldable pub route_nets : ℤ → List IpNet → Manager → Manager
route_nets index [] m = m
route_nets index (n ∷ ns) m = route_nets index ns (add_halves index (halves n) m)

unfoldable pub route_peers : ℤ → List WgPeer → Manager → Manager
route_peers index [] m = m
route_peers index (p ∷ ps) m = route_peers index ps (route_nets index p.allowed_ips m)

-- bringUpWireGuard: whether a network is the whole of IPv4.
unfoldable pub any_default : List IpNet → Bool
any_default [] = false
any_default (n ∷ ns) = n.ones == 0 && n.bits == 32 || any_default ns

unfoldable pub is_full : List WgPeer → Bool
is_full [] = false
is_full (p ∷ ps) = any_default p.allowed_ips || is_full ps

-- bringUpWireGuard: the endpoints keep the gateway there was, and the routes that were added are kept
-- for the way back.
unfoldable pub keep_route : ℕ → ℤ → RouteInfo → Manager → Manager
keep_route ac index r m =
    put_active ac
      (record (m.active ac) { vpn_routes = (m.active ac).vpn_routes ++ (index, r) ∷ [] }) m

unfoldable pub host_route : World → ℕ → ℤ → Bytes → Bytes → Manager → Manager
host_route w ac index gw ip m =
    let r : RouteInfo = record {
      dst = some (record { ip = ip; ones = 32; bits = 32 });
      gw = some gw;
      metric = 5;
    } in
    let asked = log (add_route index r) m in
    if w.adds_route index r then keep_route ac index r asked else asked

unfoldable pub v4_route : World → ℕ → ℤ → Bytes → Option Bytes → Manager → Manager
v4_route w ac index gw none m = m
v4_route w ac index gw (some v4) m = host_route w ac index gw v4 m

unfoldable pub endpoint_routes : World → ℕ → ℤ → Bytes → List Bytes → Manager → Manager
endpoint_routes w ac index gw [] m = m
endpoint_routes w ac index gw (ip ∷ ips) m =
    endpoint_routes w ac index gw ips (v4_route w ac index gw (to4 ip) m)

unfoldable pub peer_routes : World → ℕ → ℤ → Bytes → List WgPeer → Manager → Manager
peer_routes w ac index gw [] m = m
peer_routes w ac index gw (p ∷ ps) m =
    peer_routes w ac index gw ps (endpoint_routes w ac index gw (w.endpoint_ips p.endpoint) m)

unfoldable pub via_gateway : World → ℕ → Option (ℤ × Bytes) → List WgPeer → Manager → Manager
via_gateway w ac none peers m = m
via_gateway w ac (some (index, gw)) peers m = peer_routes w ac index gw peers m

-- bringUpWireGuard: the nameservers, where there are any.
unfoldable pub wg_dns : Bytes → List Bytes → List Bytes → Manager → Manager
wg_dns iface [] domains m = m
wg_dns iface (d ∷ ds) domains m =
    log
      (dns_set
        (record { iface = iface; nameservers = d ∷ ds; domains = domains; priority = negsuc 49 }))
      m

-- bringUpWireGuard: what follows the link's way up.
unfoldable pub wg_routes :
    World → ℕ → Device → List WgPeer → IpSettings → IpSettings → Manager → Manager
wg_routes w ac dev peers v4 v6 m =
    let routed = route_peers dev.index peers m in
    wg_dns dev.iface (v4.dns ++ v6.dns) (v4.domains ++ v6.domains)
      (if is_full peers then via_gateway w ac w.gateway peers routed else routed)

-- bringUpWireGuard: the MTU, where it is positive.
unfoldable pub with_mtu : ℤ → ℤ → Manager → Manager
with_mtu index (pos (suc n)) m = log (set_mtu index (pos (suc n))) m
with_mtu index _ m = m

-- bringUpWireGuard
unfoldable pub bring_up_wire_guard :
    World → ℕ → SettingsConnection → Device → Manager → Manager × Bool
bring_up_wire_guard w ac sc dev m =
    let cfg = wg_config w sc in
    let v4 = ip_config w.parse_ip w.atoi (codes "ipv4") sc in
    let v6 = ip_config w.parse_ip w.atoi (codes "ipv6") sc in
    and_then (call (wg_configure dev.iface cfg) w.configures m) (λ configured.
      and_then
        (call (flush_addrs dev.index) w.flushes (with_mtu dev.index (wg_mtu w sc) configured))
        (λ flushed.
          and_then (add_addresses w dev.index (v4.addrs ++ v6.addrs) flushed) (λ addressed.
            and_then (call (set_up dev.index) w.raises addressed)
              (λ up. (wg_routes w ac dev cfg.peers v4 v6 up, true)))))

-- tearDownWireGuard
unfoldable pub delete_routes : List (ℤ × RouteInfo) → Manager → Manager
delete_routes [] m = m
delete_routes ((index, r) ∷ rs) m = delete_routes rs (log (del_route index r) m)

unfoldable pub tear_down_wire_guard : ℕ → Manager → Manager
tear_down_wire_guard ac m =
    let cut = delete_routes (m.active ac).vpn_routes m in
    put_active ac (record (cut.active ac) { vpn_routes = [] }) cut
