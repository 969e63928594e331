-- ===== src/Nmapi/Auto.antt =====
-- internal/nmapi/autowifi.go, autowired.go and the events of activate.go: connections that no client
-- asked for. Whether the bus takes an object is an argument.
use sinty_nm.Base.{
  if◌then◌else◌, Bytes, codes, ℕ, ◌+◌, Bool, true, false, not, ◌&&◌, Option, none, some, List, [],
  ◌∷◌,
}
use sinty_nm.Base.Dict.{find, bytes_equal, bytes_eq}
use sinty_nm.Core.{
  WifiState, wifi_disconnected, wifi_connecting, wifi_connected, wifi_disconnecting, WifiEvent,
  LinkInfo,
}
use sinty_nm.Nmapi.Types.{
  dev_state_disconnected, dev_state_config, dev_state_activated, dev_state_deactivating,
  dev_reason_none, ac_state_activated, ac_state_deactivated, is_wifi, is_ethernet,
}
use sinty_nm.Nmapi.Variant.{text, plain, SettingsMap}
use sinty_nm.Nmapi.Profile.{SettingsConnection, conn_type, ssid_of}
use sinty_nm.Nmapi.State.{
  Device, ActiveConnection, Manager, set_up, populate_aps, poll_connectivity, has, without, log,
  spawn, put_device,
}
use sinty_nm.Nmapi.Device.{set_state, set_active_connection, set_active_ap}
use sinty_nm.Nmapi.Store.{add, by_path, available_for}
use sinty_nm.Nmapi.Activation.{
  ap_path_for_ssid, new_active_connection, set_active_state, unlist, install, activate,
}

-- wifiProfile
unfoldable pub wifi_profile : Bytes → List SettingsConnection → Option SettingsConnection
wifi_profile ssid [] = none
wifi_profile ssid (sc ∷ conns) =
    if bytes_equal (conn_type sc) (codes "802-11-wireless") && bytes_equal (ssid_of sc) ssid
    then some sc
    else wifi_profile ssid conns

-- adoptWifi: the connection of the profile, or of the network alone.
unfoldable pub found_connection :
    Bytes → ℕ → Option ℕ → Option SettingsConnection → ActiveConnection
found_connection ssid d specific (some sc) = record (new_active_connection sc d specific) {
  state = ac_state_activated;
  adopted = true;
}
found_connection ssid d specific none = record {
  conn = none;
  specific = specific;
  uuid = [];
  id = ssid;
  typ = codes "802-11-wireless";
  device = d;
  state = ac_state_activated;
  ip4 = none;
  adopted = true;
  vpn_routes = [];
  cancelled = false;
  gone = false;
}

-- adoptWifi: the new connection is primary where no listed one is.
unfoldable pub primary_or : ℕ → List ℕ → Option ℕ → Option ℕ
primary_or p listed none = some p
primary_or p listed (some q) = if has q listed then some q else some p

unfoldable pub adopt_bound : ℕ → ℕ → Manager → Manager
adopt_bound p d m =
    let bound = set_active_connection d (some p) m in
    spawn poll_connectivity
      (record bound { primary = primary_or p bound.active_conns bound.primary })

unfoldable pub adopt_free : Bool → ℕ → Bytes → Manager → Manager
adopt_free exported d ssid m =
    let p = m.ac_gen + 1 in
    let ac =
      found_connection ssid d (ap_path_for_ssid ssid (m.device d)) (wifi_profile ssid m.conns) in
    let installed = install p ac m in
    if exported
    then adopt_bound p d installed
    else record installed { active_conns = without p installed.active_conns }

unfoldable pub adopt_unless : Option ℕ → Bool → ℕ → Bytes → Manager → Manager
adopt_unless (some p) exported d ssid m = m
adopt_unless none exported d ssid m = adopt_free exported d ssid m

-- adoptWifi
unfoldable pub adopt_wifi : Bool → ℕ → Bytes → Manager → Manager
adopt_wifi exported d [] m = m
adopt_wifi exported d (c ∷ cs) m = adopt_unless (m.device d).active_conn exported d (c ∷ cs) m

-- dropAdoptedWifi: an adopted connection that is listed.
unfoldable pub drop_listed : ℕ → ℕ → Manager → Manager
drop_listed p d m = spawn poll_connectivity (
    set_active_connection d none
      (set_active_state p ac_state_deactivated dev_reason_none (unlist p m)))

unfoldable pub drop_of : Option ℕ → ℕ → Manager → Manager
drop_of none d m = m
drop_of (some p) d m = if has p m.active_conns && (m.active p).adopted then drop_listed p d m else m

-- dropAdoptedWifi
unfoldable pub drop_adopted_wifi : ℕ → Manager → Manager
drop_adopted_wifi d m = drop_of (m.device d).active_conn d m

-- onWifiEvent: the access point of a network that was joined.
unfoldable pub joined_ap : ℕ → Bytes → Manager → Manager
joined_ap d [] m = m
joined_ap d (c ∷ cs) m = set_active_ap d (ap_path_for_ssid (c ∷ cs) (m.device d)) m

-- onWifiEvent: the switch on the state, for a wifi device.
unfoldable pub on_wifi_state : WifiState → Bool → ℕ → Bytes → Manager → Manager
on_wifi_state wifi_connected exported d ssid m =
    let activated = set_state d dev_state_activated dev_reason_none m in
    adopt_wifi exported d ssid (spawn (populate_aps d) (joined_ap d ssid activated))
on_wifi_state wifi_connecting exported d ssid m = set_state d dev_state_config dev_reason_none m
on_wifi_state wifi_disconnecting exported d ssid m =
    set_state d dev_state_deactivating dev_reason_none m
on_wifi_state wifi_disconnected exported d ssid m =
    set_active_ap d none
      (set_state d dev_state_disconnected dev_reason_none (drop_adopted_wifi d m))

unfoldable pub wifi_event_at : Option ℕ → Bool → WifiEvent → Manager → Manager
wifi_event_at none exported ev m = m
wifi_event_at (some d) exported ev m =
    if is_wifi (m.device d).kind then on_wifi_state ev.state exported d ev.connected_ssid m else m

-- onWifiEvent
unfoldable pub on_wifi_event : Bool → WifiEvent → Manager → Manager
on_wifi_event exported ev m = wifi_event_at (find ev.device m.dev_by_iface) exported ev m

-- firstWiredProfile
unfoldable pub first_known : List ℕ → List SettingsConnection → Option SettingsConnection
first_known [] conns = none
first_known (p ∷ ps) conns = elim (by_path p conns) [
  | some sc ↦ some sc
  | none ↦ first_known ps conns
]

unfoldable pub first_wired_profile : ℕ → Manager → Option SettingsConnection
first_wired_profile d m = first_known (available_for (m.device d).kind m.conns) m.conns

-- autoConnectWired: the profile where there is none.
abbrev pub wired_settings : SettingsMap
wired_settings =
    (
      codes "connection",
      (codes "id", plain (text (codes "Wired connection 1")))
          ∷ (codes "type", plain (text (codes "802-3-ethernet")))
          ∷ [],
    )
    ∷ (codes "802-3-ethernet", [])
    ∷ (codes "ipv4", (codes "method", plain (text (codes "auto"))) ∷ [])
    ∷ (codes "ipv6", (codes "method", plain (text (codes "auto"))) ∷ [])
    ∷ []

-- What the bus and the disk answer to an automatic connection, and the UUID that is drawn.
pub record Answers : Type 0 where
  pub fresh : Bytes
  pub written : Bool
  pub exports_profile : Bool
  pub exports_active : Bool

unfoldable pub set_auto_wired : ℕ → Bool → Manager → Manager
set_auto_wired d tried m = put_device d (record (m.device d) { auto_wired = tried }) m

-- autoConnectWired: a failure takes the mark back.
unfoldable pub unless_failed : ℕ → Option ℕ × Manager → Manager
unless_failed d (some p, m) = m
unless_failed d (none, m) = set_auto_wired d false m

unfoldable pub activate_profile : Answers → ℕ → Option SettingsConnection × Manager → Manager
activate_profile a d (some sc, m) = unless_failed d (activate a.exports_active sc d none m)
activate_profile a d (none, m) = set_auto_wired d false m

unfoldable pub wired_profile :
    Answers → Option SettingsConnection → Manager → Option SettingsConnection × Manager
wired_profile a (some sc) m = (some sc, m)
wired_profile a none m = add a.fresh a.written a.exports_profile wired_settings m

-- autoConnectWired: whether the device is to be left alone.
unfoldable pub has_connection : Option ℕ → Bool
has_connection none = false
has_connection (some p) = true

unfoldable pub may_connect : Device → Bool
may_connect dv =
    is_ethernet dv.kind
    && dv.managed
    && (dv.carrier && (not (has_connection dv.active_conn) && not dv.auto_wired))

-- autoConnectWired
unfoldable pub auto_connect : Answers → ℕ → Manager → Manager
auto_connect a d m =
    let tried = set_auto_wired d true m in
    if may_connect (m.device d)
    then activate_profile a d (wired_profile a (first_wired_profile d tried) tried)
    else m

-- manageWired: what the link reports after it was raised, if it does.
unfoldable pub read_carrier : ℕ → Option LinkInfo → Manager → Manager
read_carrier d none m = m
read_carrier d (some li) m = put_device d (record (m.device d) { carrier = li.carrier }) m

-- manageWired
unfoldable pub manage : Answers → Bool → Option LinkInfo → ℕ → Manager → Manager
manage a raised link d m =
    let asked = log (set_up (m.device d).index) m in
    if is_ethernet (m.device d).kind && (m.device d).managed
    then if raised then auto_connect a d (read_carrier d link asked) else asked
    else m
