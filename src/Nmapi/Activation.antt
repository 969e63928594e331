-- ===== src/Nmapi/Activation.antt =====
-- internal/nmapi/activate.go, active.go: how an active connection comes up and goes. An activation runs
-- in two steps, `start_up` and `settle`, between which any other operation may come.
pub mod Frame
pub mod Unbind
pub mod Paths
pub mod Invariant
pub mod Adding
pub mod Operations
pub mod Leaving
pub mod Race
use sinty_nm.Base.{
  ◌==◌, if◌then◌else◌, Bytes, ℕ, ◌+◌, ap, Bool, true, false, ◌||◌, Option, none, some, List, [],
  ◌∷◌,
}
use sinty_nm.Base.Dict.{bytes_equal}
use sinty_nm.Core.{DeviceKind, kind_wifi, kind_wire_guard}
use sinty_nm.Nmapi.Types.{
  dev_state_disconnected, dev_state_prepare, dev_state_activated, dev_state_deactivating,
  dev_state_failed, dev_reason_none, dev_reason_user_requested, ac_state_activating,
  ac_state_activated, ac_state_deactivating, ac_state_deactivated,
}
use sinty_nm.Nmapi.Profile.{SettingsConnection, conn_type}
use sinty_nm.Nmapi.State.{
  spawn, poll_connectivity, AccessPoint, Device, ActiveConnection, Manager, flush_addrs, dns_revert,
  wifi_disconnect, wg_remove, active_state_changed, has, without, update, log, put_device,
  put_active,
}
use sinty_nm.Nmapi.Device.{set_state, set_active_connection, set_ip4_config, set_active_ap}
use sinty_nm.Nmapi.WireGuard.{tear_down_wire_guard}

-- apPathForSSID
unfoldable pub ap_path_in : Bytes → List AccessPoint → Option ℕ
ap_path_in ssid [] = none
ap_path_in ssid (ap ∷ aps) = if bytes_equal ap.ssid ssid then some ap.path else ap_path_in ssid aps

unfoldable pub ap_path_for_ssid : Bytes → Device → Option ℕ
ap_path_for_ssid ssid dev = ap_path_in ssid dev.aps

-- newActiveConnection
unfoldable pub new_active_connection : SettingsConnection → ℕ → Option ℕ → ActiveConnection
new_active_connection sc d specific = record {
  conn = some sc.path;
  specific = specific;
  uuid = sc.uuid;
  id = sc.id;
  typ = conn_type sc;
  device = d;
  state = ac_state_activating;
  ip4 = none;
  adopted = false;
  vpn_routes = [];
  cancelled = false;
  gone = false;
}

-- setState of an active connection
unfoldable pub set_active_state : ℕ → ℕ → ℕ → Manager → Manager
set_active_state p state reason m =
    log (active_state_changed p state reason)
      (put_active p (record (m.active p) { state = state }) m)

-- setIP4
unfoldable pub set_ip4 : ℕ → Option ℕ → Manager → Manager
set_ip4 p ip4 m = put_active p (record (m.active p) { ip4 = ip4 }) m

-- deactivate: the mark, with the cancellation that follows it.
unfoldable pub mark_gone : ℕ → Manager → Manager
mark_gone p m = put_active p (record (m.active p) { gone = true; cancelled = true }) m

-- deactivate: the switch on the kind.
unfoldable pub tear_down : DeviceKind → ℕ → Device → Manager → Manager
tear_down kind_wifi p dev m = log (wifi_disconnect dev.iface) m
tear_down kind_wire_guard p dev m = log (wg_remove dev.iface) (tear_down_wire_guard p m)
tear_down _ p dev m = m

-- deactivate: the device lets go of its connection, its access point and its configuration.
unfoldable pub clear_device : ℕ → Manager → Manager
clear_device d m =
    let cleared = set_active_ap d none (set_active_connection d none m) in
    set_ip4_config d none none (put_device d (record (cleared.device d) { ip4obj = none }) cleared)

-- The primary connection after one left.
unfoldable pub primary_after : ℕ → Option ℕ → Option ℕ
primary_after p none = none
primary_after p (some q) = if q == p then none else some q

-- deactivate: the list of active connections, and the primary one.
unfoldable pub unlist : ℕ → Manager → Manager
unlist p m = record m {
  active_conns = without p m.active_conns;
  primary = primary_after p m.primary;
}

-- deactivate: what is done on the device.
unfoldable pub release_device : ℕ → ℕ → Manager → Manager
release_device p d m =
    let torn = tear_down (m.device d).kind p (m.device d) m in
    clear_device d (log (dns_revert (m.device d).iface) (log (flush_addrs (m.device d).index) torn))

unfoldable pub deactivate_live : ℕ → ℕ → Manager → Manager
deactivate_live p d m =
    let marked =
      set_active_state p ac_state_deactivating dev_reason_user_requested (mark_gone p m) in
    let leaving = set_state d dev_state_deactivating dev_reason_user_requested marked in
    let unlisted = unlist p (release_device p d leaving) in
    set_state d dev_state_disconnected dev_reason_user_requested
      (set_active_state p ac_state_deactivated dev_reason_user_requested unlisted)

-- deactivate
unfoldable pub deactivate : ℕ → Manager → Manager
deactivate p m = if (m.active p).gone then m else deactivate_live p (m.active p).device m

-- activeOn
unfoldable pub listed_path : List ℕ → Option ℕ → Option ℕ
listed_path listed none = none
listed_path listed (some p) = if has p listed then some p else none

abbrev pub active_on : ℕ → Manager → Option ℕ
active_on d m = listed_path m.active_conns (m.device d).active_conn

unfoldable pub deactivate_old : Option ℕ → Manager → Manager
deactivate_old none m = m
deactivate_old (some p) m = deactivate p m

-- activate: an active connection that the bus took.
unfoldable pub install : ℕ → ActiveConnection → Manager → Manager
install p ac m = record m {
  ac_gen = p;
  active_conns = p ∷ m.active_conns;
  active = update m.active p ac;
}

unfoldable pub bind : ℕ → ℕ → Manager → Manager
bind p d m =
    let bound =
      set_state d dev_state_prepare dev_reason_user_requested
        (set_active_connection d (some p) m) in
    record bound { running = p ∷ bound.running }

unfoldable pub activate_new :
    Bool → SettingsConnection → ℕ → Option ℕ → Manager → Option ℕ × Manager
activate_new exported sc d specific m =
    let p = m.ac_gen + 1 in
    let installed = install p (new_active_connection sc d specific) m in
    if exported
    then (some p, bind p d installed)
    else (none, record installed { active_conns = without p installed.active_conns })

-- activate: the new active connection, or `none` on an error. The source takes the lock for the check
-- of the device, the listing and the binding apart (Race); here nothing comes between them.
unfoldable pub activate : Bool → SettingsConnection → ℕ → Option ℕ → Manager → Option ℕ × Manager
activate exported sc d specific m =
    activate_new exported sc d specific (deactivate_old (active_on d m) m)

-- superseded
unfoldable pub superseded : Bool → ℕ → Manager → Bool
superseded stopped p m = stopped || (m.active p).cancelled || (m.active p).gone

-- runActivation: the last of it, with the probe of connectivity as a task.
unfoldable pub publish : ℕ → ℕ → Manager → Manager
publish p d m =
    let active = set_active_state p ac_state_activated dev_reason_none m in
    spawn poll_connectivity
      (record (set_state d dev_state_activated dev_reason_none active) { primary = some p })

unfoldable pub fail : ℕ → ℕ → Manager → Manager
fail p d m = deactivate p (set_state d dev_state_failed dev_reason_none m)

-- runActivation: what follows the way up, where nothing comes between the test and what follows it.
unfoldable pub settle : Bool → ℕ → Bool → Manager → Manager
settle stopped p succeeded m =
    if superseded stopped p m
    then m
    else if succeeded
    then publish p (m.active p).device m
    else fail p (m.active p).device m
