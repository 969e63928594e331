-- ===== src/Nmapi/Tests.antt =====
-- Concrete managers, and the theorems of Nmapi on them.
use sinty_nm.Base.{
  Bytes, map, if◌then◌else◌, codes, ℕ, ◌≤◌, ◌≡◌, refl, ◌≢◌, ◌⊎◌, true, false, ◌&&◌, none, some, [],
  ◌∷◌, ◌++◌, arith, pos,
}
use sinty_nm.Base.Dict.{find, bytes_eq, bytes_equal, bytes_equal_iff}
use sinty_nm.Core.{kind_ethernet, kind_wifi, conn_full, LinkInfo, Lease, ScannedAp, sec_psk}
use sinty_nm.Sys.Conn.{no_request, transport_failed, response}
use sinty_nm.Nmapi.Types.{is_loopback, is_ethernet, dev_state_ip_config, dev_reason_none}
use sinty_nm.Nmapi.Variant.{
  clone_settings, keep_secrets, text, plain, SettingsMap, group_of, has_group, variant_string,
  plain_string, plain_of, set_variant,
}
use sinty_nm.Nmapi.Variant.Secrets.{value_of, security, psk, clone_settings-find}
use sinty_nm.Nmapi.Variant.Keeping.{keep_secrets-fills, tunnel_key}
use sinty_nm.Nmapi.Profile.{
  or_default, SettingsConnection, ipv4_method, conn_type, kind_matches_type,
}
use sinty_nm.Nmapi.Access.{
  WifiList, taken, new_access_point, place, take_in, reconcile, announce_one, announce_added,
  first_pass, stored, seen, populate_aps,
}
use sinty_nm.Nmapi.Access.Listing.{Keyed, populate_aps_lem}
use sinty_nm.Nmapi.Complete.{complete_settings, type_of_sections, type_of_device}
use sinty_nm.Nmapi.Complete.Filling.{complete_settings_lem}
use sinty_nm.Nmapi.State.{Manager, World, has, log, set_up}
use sinty_nm.Nmapi.Device.{set_state, set_active_connection, new_device}
use sinty_nm.Nmapi.Registry.{add_device, add_devices}
use sinty_nm.Nmapi.Store.{add, add_valid, available_for, new_connection, with_uuid}
use sinty_nm.Nmapi.Activation.{
  deactivate, activate, activate_new, install, bind, deactivate_old, listed_path,
  new_active_connection, settle, publish, active_on,
}
use sinty_nm.Nmapi.Activation.Frame.{bindings}
use sinty_nm.Nmapi.Activation.Invariant.{Bound}
use sinty_nm.Nmapi.Activation.Leaving.{deactivate_lem}
use sinty_nm.Nmapi.Activation.Race.{settle-deactivate, activate_overlaps}
use sinty_nm.Nmapi.BringUp.{bring_up, apply_lease}
use sinty_nm.Nmapi.BringUp.Order.{
  lease_calls, fallback_lease, apply_lease-calls, bring_up_link_local,
}
use sinty_nm.Nmapi.Auto.{
  Answers, auto_connect, may_connect, has_connection, set_auto_wired, wired_profile,
  first_wired_profile, first_known, wired_settings, activate_profile, unless_failed,
}
use sinty_nm.Nmapi.Control.{poll_connectivity_with}
use sinty_nm.Nmapi.Control.Reachability.{poll_connectivity_lem}
use sinty_nm.Nmapi.Steps.Reach.{
  wired_connected, new_manager, Reach, start, then_step, Reach-Bound, Reach-one_device,
}

abbrev wire : LinkInfo
wire = record {
  index = pos 2;
  name = codes "eth0";
  kind = kind_ethernet;
  up = true;
  carrier = true;
  mac = codes "52:54:00:12:34:56";
  mtu = 1500;
}

abbrev radio : LinkInfo
radio = record {
  index = pos 3;
  name = codes "wlan0";
  kind = kind_wifi;
  up = true;
  carrier = false;
  mac = codes "52:54:00:12:34:57";
  mtu = 1500;
}

-- A world in which every call succeeds, but no DHCP server answers.
abbrev silent : World
silent = record {
  exports_active = true;
  exports_ip4 = true;
  wifi_connects = true;
  raises = true;
  flushes = true;
  adds_address = λ ip prefix. true;
  adds_route = λ index r. true;
  acquires = none;
  mac = 82 ∷ 84 ∷ 0 ∷ 18 ∷ 52 ∷ 86 ∷ [];
  is_done = false;
  configures = true;
  parse_ip = λ s. none;
  parse_cidr = λ s. none;
  atoi = λ s. pos 0;
  gateway = none;
  endpoint_ips = λ s. [];
}

abbrev all_well : Answers
all_well = record {
  fresh = codes "1b4e28ba-2fa1-41d2-883f-b9a761bde3fb";
  written = true;
  exports_profile = true;
  exports_active = true;
}

-- The start with a wire and a radio, and after the wire was connected.
abbrev started : Manager
started = add_devices (wire ∷ radio ∷ []) (new_manager 0 [])

abbrev online : Manager
online = auto_connect all_well 1 started

started_gen : 1 ≤ started.dev_gen
unfolding add_devices add_device new_manager
started_gen = omega arith

abbrev reached : Reach online
reached = then_step (start 0 [] (wire ∷ radio ∷ [])) (wired_connected all_well 1 started_gen)

online_listed : has 1 online.active_conns ≡ true
unfolding auto_connect may_connect add_devices add_device new_manager new_device is_ethernet
    has_connection set_auto_wired wired_profile first_wired_profile first_known available_for add
    add_valid has_group activate_profile unless_failed activate activate_new install bind
    deactivate_old listed_path set_state set_active_connection kind_matches_type conn_type
    variant_string plain_string plain_of group_of with_uuid set_variant new_connection
    new_active_connection is_loopback
online_listed = refl

wire_listed : has 1 started.devices ≡ true
unfolding add_devices add_device new_manager
wire_listed = refl

Reach-Bound_here : Bound (bindings online)
Reach-Bound_here = Reach-Bound reached

Reach-Bound_example : Bound (bindings online)
Reach-Bound_example = Reach-Bound reached

Reach-one_device_example : ◌≡◌ {A = ℕ} 1 1
Reach-one_device_example =
    Reach-one_device 1 1 (start 0 [] (wire ∷ radio ∷ [])) wire_listed wire_listed refl

deactivate_lem_example :
    let n = deactivate 1 online in
    let dev = n.device (online.active 1).device in
    (has 1 n.active_conns ≡ false)
    × (n.primary ≢ some 1)
    × (dev.active_conn ≡ none)
    × (dev.active_ap ≡ none)
    × (dev.ip4 ≡ none)
    × (dev.ip4obj ≡ none)
    × (dev.state ≡ 30)
    × (deactivate 1 n ≡ n)
deactivate_lem_example = deactivate_lem 1 online Reach-Bound_here online_listed

settle-deactivate_example :
    let n = deactivate 1 online in
    let late = publish 1 (n.active 1).device n in
    (settle false 1 true n ≡ n) × (late.primary ≡ some 1) × (has 1 late.active_conns ≡ false)
settle-deactivate_example = settle-deactivate false 1 true online Reach-Bound_here online_listed

-- The profile of the wire, with the method that gets a lease.
abbrev wired : SettingsConnection
wired = record {
  path = 1;
  uuid = codes "u";
  id = codes "Wired connection 1";
  file = [];
  settings = wired_settings;
}

activate_overlaps_example :
    let m1 = install 1 (new_active_connection wired 1 none) started in
    let n = bind 2 1 (bind 1 1 (install 2 (new_active_connection wired 1 none) m1)) in
    (deactivate_old (active_on 1 started) started ≡ started)
    × (deactivate_old (active_on 1 m1) m1 ≡ m1)
    × (has 1 n.active_conns ≡ true)
    × (has 2 n.active_conns ≡ true)
    × (◌≢◌ {A = ℕ} 1 2)
    × ((n.active 1).device ≡ 1)
    × ((n.active 2).device ≡ 1)
    × ((n.active 1).gone ≡ false)
    × ((n.active 2).gone ≡ false)
    × ((n.device 1).active_conn ≡ some 2)
unfolding add_devices add_device new_manager new_device
activate_overlaps_example = activate_overlaps wired wired 1 none started refl

abbrev lan_lease : Lease
lan_lease = record {
  ip = 10 ∷ 0 ∷ 0 ∷ 7 ∷ [];
  prefix_len = 24;
  gateway = some (10 ∷ 0 ∷ 0 ∷ 1 ∷ []);
  dns = (10 ∷ 0 ∷ 0 ∷ 1 ∷ []) ∷ [];
  domains = [];
  server_id = none;
  lease_seconds = 3600;
}

apply_lease-calls_example :
    ((apply_lease silent 1 1 lan_lease [] started).1 ≡ true)
    × ((apply_lease silent 1 1 lan_lease [] started).0.calls
        ≡ started.calls ++ lease_calls (started.device 1) lan_lease [])
apply_lease-calls_example = apply_lease-calls silent 1 1 lan_lease [] started refl refl tt

bring_up_link_local_example :
    let begun =
      set_state 1 dev_state_ip_config dev_reason_none
        (log (set_up (started.device 1).index) started) in
    ((bring_up silent 1 wired 1 started).1 ≡ true)
    × ((bring_up silent 1 wired 1 started).0.calls
        ≡ begun.calls ++ lease_calls (begun.device 1) (fallback_lease silent wired) [])
    × ((c : ℕ) × (e : ℕ) × ((fallback_lease silent wired).ip ≡ 169 ∷ 254 ∷ c ∷ e ∷ [])
        × (1 ≤ c)
        × (c ≤ 254))
unfolding add_devices add_device new_manager new_device ipv4_method variant_string plain_string
    plain_of group_of
bring_up_link_local_example =
    bring_up_link_local silent 1 wired 1 started refl refl refl refl refl refl refl refl
      (λ ip. refl)

poll_connectivity_lem_example :
    let n = poll_connectivity_with (response 302 (60 ∷ [])) started in
    (((◌≡◌ {A = ℕ} 302 204)
        × (◌≡◌ {A = Bytes} (60 ∷ []) [])
        × (n.connectivity ≡ conn_full)
        × (n.state ≡ 70))
      ⊎ ((¬ ((◌≡◌ {A = ℕ} 302 204) × (◌≡◌ {A = Bytes} (60 ∷ []) [])))
          × (n.connectivity ≢ conn_full)
          × (n.state ≡ 60)))
    × (poll_connectivity_with transport_failed started ≡ started)
    × (poll_connectivity_with no_request started ≡ started)
poll_connectivity_lem_example = poll_connectivity_lem 302 (60 ∷ []) started

-- The settings of a tunnel, with its key.
abbrev tunnel : SettingsMap
tunnel = (codes "wireguard", (codes "private-key", plain (text (codes "k"))) ∷ []) ∷ []

clone_settings-find_example :
    value_of (codes "wireguard") (codes "private-key") (clone_settings tunnel false) ≡ (
      if bytes_equal (codes "wireguard") security && bytes_equal (codes "private-key") psk
      then none
      else value_of (codes "wireguard") (codes "private-key") tunnel)
clone_settings-find_example = clone_settings-find (codes "wireguard") (codes "private-key") tunnel

-- An update of the tunnel that leaves the key out.
abbrev bare : SettingsMap
bare = (codes "wireguard", []) ∷ []

keep_secrets-fills_example :
    value_of (codes "wireguard") (codes "private-key") (keep_secrets bare tunnel)
    ≡ value_of (codes "wireguard") (codes "private-key") tunnel
keep_secrets-fills_example = keep_secrets-fills bare tunnel [] tunnel_key refl refl

-- What the shell sends for an access point: the secrets alone.
abbrev partial : SettingsMap
partial =
    (codes "802-11-wireless-security", (codes "psk", plain (text (codes "open sesame"))) ∷ []) ∷ []

complete_settings_lem_example :
    (has_group (codes "connection") (complete_settings partial (some 1) none online) ≡ true)
    × (variant_string
          (group_of (codes "connection") (complete_settings partial (some 1) none online))
          (codes "id")
        ≢ [])
    × ((or_default (type_of_device (some 1) online) (type_of_sections partial) ≡ [])
        ⊎ (variant_string
              (group_of (codes "connection") (complete_settings partial (some 1) none online))
              (codes "type")
            ≢ []))
complete_settings_lem_example = complete_settings_lem partial (some 1) none online

-- A network as iwd shows it: no BSSID, told apart by its handle.
abbrev network : Bytes → ℕ → ScannedAp
network name strength = record {
  ssid = name;
  bssid = [];
  strength = strength;
  frequency = 2412;
  security = sec_psk;
  known = false;
  handle = name;
}

-- One network is listed, at path 1.
abbrev none_listed : WifiList
none_listed = record {
  ap_gen = 1;
  object = λ p. new_access_point (network [] 0);
  aps = [];
  ap_by_handle = [];
  sent = [];
}

abbrev one_listed : WifiList
one_listed = populate_aps (some (network (codes "home") 40 ∷ [])) (λ p. taken) true none_listed

one_listed-Keyed : Keyed one_listed.ap_by_handle one_listed.ap_gen one_listed.object
one_listed-Keyed =
    (populate_aps_lem (network (codes "home") 40 ∷ []) (λ p. taken) true none_listed (tt, tt)
      (λ h p e. absurd (cc e))).1

populate_aps_lem_example :
    let nets = network (codes "cafe") 70 ∷ network (codes "home") 60 ∷ [] in
    let l = populate_aps (some nets) (λ p. taken) true one_listed in
    (map (λ p. (l.object p).last) l.aps ≡ nets)
    × Keyed l.ap_by_handle l.ap_gen l.object
    × ((h : Bytes) (p : ℕ)
        → find h one_listed.ap_by_handle ≡ some p
        → seen h nets ≡ true
        → find h l.ap_by_handle ≡ some p)
populate_aps_lem_example =
    populate_aps_lem (network (codes "cafe") 70 ∷ network (codes "home") 60 ∷ []) (λ p. taken) true
      one_listed
      ((λ same. cc ((bytes_equal_iff (codes "cafe") (codes "home")).1 same), tt), (tt, tt))
      one_listed-Keyed

-- The network that stays keeps path 1, though it is listed second now.
home_stays :
    (populate_aps
      (some (network (codes "cafe") 70 ∷ network (codes "home") 60 ∷ []))
      (λ p. taken)
      true
      one_listed).aps
    ≡ 2 ∷ 1 ∷ []
unfolding populate_aps first_pass reconcile take_in place stored announce_added announce_one
home_stays = refl
