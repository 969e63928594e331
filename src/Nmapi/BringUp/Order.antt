-- ===== src/Nmapi/BringUp/Order.antt =====
-- internal/nmapi/activate.go: what is asked of the kernel and the resolver, and in which order.
use sinty_nm.Base.{
  length, Bytes, ℤ, codes, ℕ, ◌≤◌, ◌≡◌, refl, sym, ap, ◌∙◌, Bool, true, false, Option, none, some,
  List, [], ◌∷◌, ◌++◌, append-nil, append_assoc, pos,
}
use sinty_nm.Base.Dict.{bytes_equal}
use sinty_nm.Core.{kind_ethernet, Lease}
use sinty_nm.Core.LinkLocal.{link_local_lease, link_local_lease_usable}
use sinty_nm.Net.{IpNet}
use sinty_nm.Nmapi.Types.{dev_state_ip_config, dev_reason_none, is_ethernet}
use sinty_nm.Nmapi.Profile.{SettingsConnection, ipv4_method, merge_dns}
use sinty_nm.Nmapi.State.{
  Device, Manager, World, Call, set_up, flush_addrs, add_addr, add_route, dns_set, log, and_then,
}
use sinty_nm.Nmapi.Device.{set_state, set_ip4_config}
use sinty_nm.Nmapi.WireGuard.{add_addresses}
use sinty_nm.Nmapi.Activation.{set_ip4}
use sinty_nm.Nmapi.BringUp.{
  add_gateway, publish_ip4, finish_lease, apply_lease, falls_back, chosen_lease, apply_chosen,
  configure_dhcp, configure_ipv4, bring_up_kind, bring_up,
}

-- The calls for a list of addresses, a gateway and the nameservers.
abbrev pub address_calls : ℤ → List IpNet → List Call
address_calls index [] = []
address_calls index (a ∷ more) = add_addr index a.ip a.ones ∷ address_calls index more

abbrev pub route_calls : ℤ → Option Bytes → List Call
route_calls index none = []
route_calls index (some gw) =
    add_route index (record { dst = none; gw = some gw; metric = 100 }) ∷ []

abbrev pub resolver_call : Bytes → Lease → Call
resolver_call iface lease =
    dns_set (record {
      iface = iface;
      nameservers = lease.dns;
      domains = lease.domains;
      priority = pos 100;
    })

-- The calls of a lease that is applied without an error.
abbrev pub lease_calls : Device → Lease → List IpNet → List Call
lease_calls dev lease extra =
    flush_addrs dev.index
    ∷ add_addr dev.index lease.ip lease.prefix_len
    ∷ (address_calls dev.index extra
        ++ set_up dev.index
          ∷ (route_calls dev.index lease.gateway ++ resolver_call dev.iface lease ∷ []))

-- The kernel takes the addresses.
abbrev pub IsAccepted : World → List IpNet → Type 0
IsAccepted w [] = Unit
IsAccepted w (a ∷ more) = (w.adds_address a.ip a.ones ≡ true) × IsAccepted w more

-- All addresses that the kernel takes are added, in order.
add_addresses_calls :
    (w : World) (index : ℤ) (nets : List IpNet) (m : Manager)
    → IsAccepted w nets
    → ((add_addresses w index nets m).1 ≡ true)
      × ((add_addresses w index nets m).0.calls ≡ m.calls ++ address_calls index nets)
      × ((add_addresses w index nets m).0.device ≡ m.device)
unfolding add_addresses
add_addresses_calls w index [] m taken = (refl, sym (append-nil m.calls), refl)
add_addresses_calls w index (a ∷ nets) m (taken, others) =
    let rest = add_addresses_calls w index nets (log (add_addr index a.ip a.ones) m) others in
    rw taken (
      rest.0,
      rest.1 ∙ append_assoc m.calls (add_addr index a.ip a.ones ∷ []) (address_calls index nets),
      rest.2,
    )

publish_ip4-calls :
    (exported : Bool) (p d : ℕ) (m : Manager) → (publish_ip4 exported p d m).calls ≡ m.calls
unfolding publish_ip4 set_ip4 set_ip4_config
publish_ip4-calls true p d m = refl
publish_ip4-calls false p d m = refl

add_gateway-calls :
    (index : ℤ) (gw : Option Bytes) (m : Manager)
    → (add_gateway index gw m).calls ≡ m.calls ++ route_calls index gw
unfolding add_gateway
add_gateway-calls index none m = sym (append-nil m.calls)
add_gateway-calls index (some gw) m = refl

finish_lease-calls :
    (w : World) (p d : ℕ) (lease : Lease) (m : Manager)
    → (finish_lease w p d lease m).calls
      ≡ m.calls
        ++ set_up (m.device d).index
          ∷ (route_calls (m.device d).index lease.gateway
              ++ resolver_call (m.device d).iface lease ∷ [])
unfolding finish_lease
finish_lease-calls w p d lease m =
    let index = (m.device d).index in
    let told = resolver_call (m.device d).iface lease in
    let raised = log (set_up index) m in
    let routed = add_gateway index lease.gateway raised in
    publish_ip4-calls w.exports_ip4 p d (log told routed)
    ∙ (ap (λ calls. calls ++ told ∷ []) (add_gateway-calls index lease.gateway raised)
        ∙ (append_assoc (m.calls ++ set_up index ∷ []) (route_calls index lease.gateway) (told ∷ [])
            ∙ append_assoc m.calls (set_up index ∷ [])
                (route_calls index lease.gateway ++ told ∷ [])))

-- With a lease whose addresses the kernel takes, and a flush that succeeds, applyLease returns no error
-- and asks, in this order, for a flush of the addresses, for the lease's address and the further ones,
-- for the link's way up, for the default route if the lease has a gateway, and for the nameservers.
pub apply_lease-calls :
    (w : World) (p d : ℕ) (lease : Lease) (extra : List IpNet) (m : Manager)
    → w.flushes ≡ true
    → w.adds_address lease.ip lease.prefix_len ≡ true
    → IsAccepted w extra
    → ((apply_lease w p d lease extra m).1 ≡ true)
      × ((apply_lease w p d lease extra m).0.calls
          ≡ m.calls ++ lease_calls (m.device d) lease extra)
unfolding apply_lease
apply_lease-calls w p d lease extra m flushes adds others =
    simp (flushes, adds) (finished added all)
  where
    index : ℤ
    index = (m.device d).index

    begun : Manager
    begun =
        log (add_addr (m.device d).index lease.ip lease.prefix_len)
          (log (flush_addrs (m.device d).index) m)

    added : Manager × Bool
    added = add_addresses w (m.device d).index extra begun

    all :
        (added.1 ≡ true)
        × (added.0.calls ≡ begun.calls ++ address_calls (m.device d).index extra)
        × (added.0.device ≡ m.device)
    all = add_addresses_calls w (m.device d).index extra begun others

    ordered :
        (n : Manager)
        → n.calls ≡ begun.calls ++ address_calls (m.device d).index extra
        → n.device ≡ m.device
        → (finish_lease w p d lease n).calls ≡ m.calls ++ lease_calls (m.device d) lease extra
    ordered n calls same =
        let dev = m.device d in
        let tail : Device → List Call = λ v.
          set_up v.index
          ∷ (route_calls v.index lease.gateway ++ resolver_call v.iface lease ∷ []) in
        finish_lease-calls w p d lease n
        ∙ (ap (λ f. n.calls ++ tail (f d)) same
            ∙ (ap (λ c. c ++ tail dev) calls ∙ simp append_assoc refl))

    finished :
        (r : Manager × Bool)
        → (r.1 ≡ true)
          × (r.0.calls ≡ begun.calls ++ address_calls (m.device d).index extra)
          × (r.0.device ≡ m.device)
        → ((and_then r (λ configured. (finish_lease w p d lease configured, true))).1 ≡ true)
          × ((and_then r (λ configured. (finish_lease w p d lease configured, true))).0.calls
              ≡ m.calls ++ lease_calls (m.device d) lease extra)
    finished (n, false) (succeeded, calls, same) = absurd (cc succeeded)
    finished (n, true) (succeeded, calls, same) = (refl, ordered n calls same)

-- The lease that a wired device falls back to, with the DNS of its profile.
abbrev pub fallback_lease : World → SettingsConnection → Lease
fallback_lease w sc = merge_dns w.parse_ip w.atoi sc (link_local_lease w.mac)

-- A wired device whose link comes up, with a profile whose method is neither disabled nor manual, for
-- which no DHCP server answers before the context ends, and whose MAC address has six bytes, comes up
-- all the same if the kernel takes the flush and the address: it gets a link-local address, in
-- 169.254.0.0/16 and outside its first and last 256 addresses.
pub bring_up_link_local :
    (w : World) (p : ℕ) (sc : SettingsConnection) (d : ℕ) (m : Manager)
    → (m.device d).kind ≡ kind_ethernet
    → w.raises ≡ true
    → bytes_equal (ipv4_method sc) (codes "disabled") ≡ false
    → bytes_equal (ipv4_method sc) (codes "manual") ≡ false
    → w.acquires ≡ none
    → w.is_done ≡ false
    → length w.mac ≡ 6
    → w.flushes ≡ true
    → ((ip : Bytes) → w.adds_address ip 16 ≡ true)
    → let begun =
        set_state d dev_state_ip_config dev_reason_none (log (set_up (m.device d).index) m) in
      ((bring_up w p sc d m).1 ≡ true)
      × ((bring_up w p sc d m).0.calls
          ≡ begun.calls ++ lease_calls (begun.device d) (fallback_lease w sc) [])
      × ((c : ℕ) × (e : ℕ) × ((fallback_lease w sc).ip ≡ 169 ∷ 254 ∷ c ∷ e ∷ [])
          × (1 ≤ c)
          × (c ≤ 254))
unfolding bring_up bring_up_kind configure_ipv4 configure_dhcp chosen_lease falls_back apply_chosen
    is_ethernet merge_dns
bring_up_link_local w p sc d m wired raises some_method auto silent running six flushes adds =
    let begun =
      set_state d dev_state_ip_config dev_reason_none (log (set_up (m.device d).index) m) in
    let usable = link_local_lease_usable w.mac in
    let whole : (fallback_lease w sc).prefix_len ≡ 16 = usable.6 in
    let taken : w.adds_address (fallback_lease w sc).ip (fallback_lease w sc).prefix_len ≡ true =
      ap (w.adds_address (fallback_lease w sc).ip) whole ∙ adds (fallback_lease w sc).ip in
    let applied = apply_lease-calls w p d (fallback_lease w sc) [] begun flushes taken tt in
    let same : bring_up w p sc d m ≡ apply_lease w p d (fallback_lease w sc) [] begun =
      simp (wired, raises, some_method, auto, silent, running, six) refl in
    (
      ap (λ r. r.1) same ∙ applied.0,
      ap (λ r. r.0.calls) same ∙ applied.1,
      (usable.0, usable.1, usable.2, usable.3, usable.4),
    )
