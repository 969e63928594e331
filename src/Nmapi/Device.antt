-- ===== src/Nmapi/Device.antt =====
-- internal/nmapi/device.go: the operations of a device. The property tables of the bus repeat the
-- fields and are not modelled; the signals are.
use sinty_nm.Base.{◌==◌, if◌then◌else◌, ℕ, false, not, ◌&&◌, Option, none, []}
use sinty_nm.Core.{LinkInfo}
use sinty_nm.Nmapi.Types.{dev_state_unmanaged, dev_state_disconnected, is_ethernet, is_loopback}
use sinty_nm.Nmapi.State.{
  Device, Manager, device_state_changed, auto_connect_wired, log, spawn, put_device,
}

-- newDevice: all but the path, which is drawn from the manager's counter.
unfoldable pub new_device : LinkInfo → Device
new_device li = record {
  iface = li.name;
  index = li.index;
  kind = li.kind;
  mac = li.mac;
  managed = not (is_loopback li.kind);
  aps = [];
  active_ap = none;
  active_conn = none;
  ip4 = none;
  dhcp4 = none;
  ip4obj = none;
  state = if is_loopback li.kind then dev_state_unmanaged else dev_state_disconnected;
  carrier = li.carrier;
  auto_wired = false;
}

-- setState: nothing where the state stays, else the signal with the state before.
unfoldable pub set_state : ℕ → ℕ → ℕ → Manager → Manager
set_state d new reason m =
    let old = (m.device d).state in
    if old == new
    then m
    else log (device_state_changed d new old reason)
        (put_device d (record (m.device d) { state = new }) m)

-- setActiveConnection
unfoldable pub set_active_connection : ℕ → Option ℕ → Manager → Manager
set_active_connection d p m = put_device d (record (m.device d) { active_conn = p }) m

-- setIP4Config
unfoldable pub set_ip4_config : ℕ → Option ℕ → Option ℕ → Manager → Manager
set_ip4_config d ip4 dhcp4 m = put_device d (record (m.device d) { ip4 = ip4; dhcp4 = dhcp4 }) m

-- setActiveAP
unfoldable pub set_active_ap : ℕ → Option ℕ → Manager → Manager
set_active_ap d p m = put_device d (record (m.device d) { active_ap = p }) m

-- updateLink
unfoldable pub update_link : ℕ → LinkInfo → Manager → Manager
update_link d li m =
    let dv = m.device d in
    let updated =
      put_device d (record dv { carrier = li.carrier; auto_wired = li.carrier && dv.auto_wired })
        m in
    if not (is_ethernet dv.kind)
    then m
    else if li.carrier && not dv.carrier
    then spawn (auto_connect_wired d) updated
    else updated
