-- ===== src/Nmapi/Control.antt =====
-- internal/nmapi/manager.go, vpn.go and device.go: what clients ask of the manager, and the state of
-- connectivity. What the bus, the disk and the kernel answer is an argument.
pub mod Reachability
use sinty_nm.Base.{
  ◌==◌, if◌then◌else◌, Bytes, Result, codes, ℕ, Bool, true, false, Option, none, some, List, [],
  ◌∷◌, ok, err,
}
use sinty_nm.Base.Dict.{find, bytes_equal, bytes_eq}
use sinty_nm.Core.{
  LinkInfo, Connectivity, conn_unknown, conn_none, conn_portal, conn_limited, conn_full,
}
use sinty_nm.Sys.Conn.{Probe, check}
use sinty_nm.Nmapi.Types.{is_wifi}
use sinty_nm.Nmapi.Profile.{SettingsConnection, conn_type, interface_name}
use sinty_nm.Nmapi.State.{
  ActiveConnection, Manager, World, wifi_disconnect, wg_configure, state_changed, has, without, log,
}
use sinty_nm.Nmapi.Registry.{on_link_event, resolve_device}
use sinty_nm.Nmapi.Store.{by_path, remove_profile}
use sinty_nm.Nmapi.WireGuard.{wg_config}
use sinty_nm.Nmapi.Activation.{activate, deactivate, settle}

-- The global states of nmapi.go at the start, and that connectivity leads to.
abbrev pub state_disconnected : ℕ
state_disconnected = 20

abbrev pub state_connected_local : ℕ
state_connected_local = 50

abbrev pub state_connected_site : ℕ
state_connected_site = 60

abbrev pub state_connected_global : ℕ
state_connected_global = 70

-- setState of the manager
unfoldable pub set_global_state : ℕ → Manager → Manager
set_global_state s m = if m.state == s then m else log (state_changed s) (record m { state = s })

-- pollConnectivity: the switch on what the probe found.
unfoldable pub global_state_for : Connectivity → Option ℕ
global_state_for conn_full = some state_connected_global
global_state_for conn_limited = some state_connected_site
global_state_for conn_portal = some state_connected_site
global_state_for conn_none = some state_connected_local
global_state_for conn_unknown = none

unfoldable pub reach_state : Option ℕ → Manager → Manager
reach_state none m = m
reach_state (some s) m = set_global_state s m

unfoldable pub record_connectivity : Connectivity × Bool → Manager → Manager
record_connectivity (c, true) m = m
record_connectivity (c, false) m = reach_state (global_state_for c) (record m { connectivity = c })

-- pollConnectivity, on what the HTTP client answers.
unfoldable pub poll_connectivity_with : Probe → Manager → Manager
poll_connectivity_with probe m = record_connectivity (check probe) m

-- runActivation, after the way up: the connection is published or fails, and the goroutine ends.
unfoldable pub finish_activation : Bool → ℕ → Bool → Manager → Manager
finish_activation stopped p succeeded m =
    let settled = settle stopped p succeeded m in
    record settled { running = without p settled.running }

-- The errors of the calls.
pub data Fault : Type 0 where
  unknown_connection unknown_device connection_not_active failed : Fault

-- ensureWireGuardDevice: the rounds until the deadline, with what LinkByName answers in each.
unfoldable pub await_device : Bool → Bytes → List (Option LinkInfo) → Manager → Option ℕ × Manager
await_device exported name [] m = (none, m)
await_device exported name (link ∷ rounds) m =
    let after : Manager = elim link [ some li ↦ on_link_event exported li true m | none ↦ m ] in
    let waited = await_device exported name rounds after in
    elim (find name m.dev_by_iface) [ some d ↦ (some d, m) | none ↦ waited ]

unfoldable pub configured_device :
    World → Bool → Bytes → List (Option LinkInfo) → Manager → Option ℕ × Manager
configured_device w exported name rounds m =
    if w.configures then await_device exported name rounds m else (none, m)

-- ensureWireGuardDevice
unfoldable pub ensure_wire_guard_device :
    World → Bool → SettingsConnection → List (Option LinkInfo) → Manager → Option ℕ × Manager
ensure_wire_guard_device w exported sc rounds m =
    let name = interface_name sc in
    let asked = log (wg_configure name (wg_config w sc)) m in
    elim (find name m.dev_by_iface) [
      | some d ↦ (some d, m)
      | none ↦ configured_device w exported name rounds asked
    ]

-- ActivateConnection: the device, made where a wireguard profile has none.
unfoldable pub or_failed : Option ℕ × Manager → Result Fault ℕ × Manager
or_failed (some d, m) = (ok d, m)
or_failed (none, m) = (err failed, m)

unfoldable pub device_for :
    World
    → Bool
    → SettingsConnection
    → List (Option LinkInfo)
    → Option ℕ
    → Manager
    → Result Fault ℕ × Manager
device_for w exported sc rounds (some d) m = (ok d, m)
device_for w exported sc rounds none m =
    if bytes_equal (conn_type sc) (codes "wireguard")
    then or_failed (ensure_wire_guard_device w exported sc rounds m)
    else (err unknown_device, m)

-- ActivateConnection: on the device, if there is one.
unfoldable pub activate_on :
    World → SettingsConnection → Option ℕ → Result Fault ℕ × Manager → Result Fault ℕ × Manager
activate_on w sc specific (err e, m) = (err e, m)
activate_on w sc specific (ok d, m) = or_failed (activate w.exports_active sc d specific m)

unfoldable pub activate_profile_at :
    World
    → Bool
    → List (Option LinkInfo)
    → Option ℕ
    → Option ℕ
    → Option SettingsConnection
    → Manager
    → Result Fault ℕ × Manager
activate_profile_at w exported rounds device specific none m = (err unknown_connection, m)
activate_profile_at w exported rounds device specific (some sc) m =
    activate_on w sc specific (device_for w exported sc rounds (resolve_device device sc m) m)

-- ActivateConnection
unfoldable pub activate_connection :
    World
    → Bool
    → List (Option LinkInfo)
    → ℕ
    → Option ℕ
    → Option ℕ
    → Manager
    → Result Fault ℕ × Manager
activate_connection w exported rounds connection device specific m =
    activate_profile_at w exported rounds device specific (by_path connection m.conns) m

-- DeactivateConnection
unfoldable pub deactivate_connection : ℕ → Manager → Option Fault × Manager
deactivate_connection p m =
    if has p m.active_conns then (none, deactivate p m) else (some connection_not_active, m)

-- Disconnect of a device
unfoldable pub disconnect_from : Option ℕ → ℕ → Manager → Manager
disconnect_from none d m =
    if is_wifi (m.device d).kind then log (wifi_disconnect (m.device d).iface) m else m
disconnect_from (some p) d m = if has p m.active_conns then deactivate p m else m

unfoldable pub disconnect : ℕ → Manager → Manager
disconnect d m = disconnect_from (m.device d).active_conn d m

-- Delete: the connections of a profile, in one of the orders of the map.
unfoldable pub is_of : ℕ → Option ℕ → Bool
is_of path none = false
is_of path (some p) = p == path

unfoldable pub users : ℕ → (ℕ → ActiveConnection) → List ℕ → List ℕ
users path active [] = []
users path active (p ∷ ps) =
    let rest = users path active ps in if is_of path (active p).conn then p ∷ rest else rest

unfoldable pub deactivate_all : List ℕ → Manager → Manager
deactivate_all [] m = m
deactivate_all (p ∷ ps) m = deactivate_all ps (deactivate p m)

-- Delete of a profile
unfoldable pub delete_profile : ℕ → Manager → Manager
delete_profile path m = remove_profile path (deactivate_all (users path m.active m.active_conns) m)
