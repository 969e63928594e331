-- ===== src/Nmapi/Registry.antt =====
-- internal/nmapi/manager.go and activate.go: the registry of devices. `exported` says whether the bus
-- takes a new object.
pub mod Devices
pub mod Sync
use sinty_nm.Base.{
  if◌then◌else◌, Bytes, codes, ℕ, ◌+◌, Bool, ◌&&◌, ◌||◌, Option, none, some, List, [], ◌∷◌, ◌++◌,
}
use sinty_nm.Base.Dict.{find, insert, remove, bytes_equal, bytes_eq}
use sinty_nm.Core.{LinkInfo}
use sinty_nm.Nmapi.State.{
  Device, Manager, device_added, device_removed, manage_wired, populate_aps, has, without, update,
  log, spawn,
}
use sinty_nm.Nmapi.Profile.{SettingsConnection, conn_type, interface_name}
use sinty_nm.Nmapi.Types.{is_wifi, is_ethernet, is_wire_guard}
use sinty_nm.Nmapi.Device.{new_device, update_link}

-- addDeviceLocked: a device of a name that is new.
abbrev pub register : LinkInfo → Manager → Manager
register li m =
    let d = m.dev_gen + 1 in
    record m {
      dev_gen = d;
      devices = m.devices ++ d ∷ [];
      dev_by_path = d ∷ m.dev_by_path;
      dev_by_iface = insert li.name d m.dev_by_iface;
      device = update m.device d (new_device li);
    }

-- addDeviceLocked
unfoldable pub add_device : LinkInfo → Manager → Manager
add_device li m = elim (find li.name m.dev_by_iface) [ some d ↦ m | none ↦ register li m ]

-- New: the links that are there at the start.
unfoldable pub add_devices : List LinkInfo → Manager → Manager
add_devices [] m = m
add_devices (li ∷ links) m = add_devices links (add_device li m)

-- onLinkEvent: a device leaves the registry.
abbrev pub unregister : Bytes → ℕ → Manager → Manager
unregister name d m = record m {
  devices = without d m.devices;
  dev_by_path = without d m.dev_by_path;
  dev_by_iface = remove name m.dev_by_iface;
}

-- onLinkEvent: the device `d` of a link that went.
unfoldable pub link_gone : Bytes → Option ℕ → Manager → Manager
link_gone name none m = m
link_gone name (some d) m = log (device_removed d) (unregister name d m)

-- onLinkEvent: what follows a new device.
unfoldable pub announce : ℕ → Manager → Manager
announce d m =
    let added = log (device_added d) m in
    let listed = if is_wifi (m.device d).kind then spawn (populate_aps d) added else added in
    if is_ethernet (m.device d).kind then spawn (manage_wired d) listed else listed

-- onLinkEvent: a link that is there, known as `d` or new.
unfoldable pub link_present : Bool → LinkInfo → Option ℕ → Manager → Manager
link_present exported li (some d) m = update_link d li m
link_present exported li none m =
    let added = register li m in if exported then announce (m.dev_gen + 1) added else added

-- onLinkEvent
unfoldable pub on_link_event : Bool → LinkInfo → Bool → Manager → Manager
on_link_event exported li up m =
    let d = find li.name m.dev_by_iface in
    if up then link_present exported li d m else link_gone li.name d m

-- managedPathsLocked, on the devices in order.
unfoldable pub managed_of : (ℕ → Device) → List ℕ → List ℕ
managed_of device [] = []
managed_of device (d ∷ ds) =
    if (device d).managed then d ∷ managed_of device ds else managed_of device ds

-- GetDevices
abbrev pub managed_paths : Manager → List ℕ
managed_paths m = managed_of m.device m.devices

-- GetAllDevices
abbrev pub all_paths : Manager → List ℕ
all_paths m = m.devices

-- GetDeviceByIpIface: `none` is the error.
abbrev pub device_by_ip_iface : Bytes → Manager → Option ℕ
device_by_ip_iface iface m = find iface m.dev_by_iface

-- resolveDevice: whether a device can carry a profile of a type.
unfoldable pub carries : Bytes → Device → Bool
carries want d =
    bytes_equal want (codes "802-11-wireless") && is_wifi d.kind
    || bytes_equal want (codes "802-3-ethernet") && is_ethernet d.kind

-- resolveDevice: the loop, in which the first managed device that fits is taken.
unfoldable pub first_carrying : Bytes → (ℕ → Device) → List ℕ → Option ℕ
first_carrying want device [] = none
first_carrying want device (d ∷ ds) =
    if (device d).managed && carries want (device d) then some d else first_carrying want device ds

-- resolveDevice: the wireguard device of a name.
unfoldable pub wire_guard_of : Manager → Option ℕ → Option ℕ
wire_guard_of m none = none
wire_guard_of m (some d) = if is_wire_guard (m.device d).kind then some d else none

-- resolveDevice: by the path that is given, else by the profile.
unfoldable pub resolve_device : Option ℕ → SettingsConnection → Manager → Option ℕ
resolve_device (some p) sc m = if has p m.dev_by_path then some p else none
resolve_device none sc m =
    if bytes_equal (conn_type sc) (codes "wireguard")
    then wire_guard_of m (find (interface_name sc) m.dev_by_iface)
    else first_carrying (conn_type sc) m.device m.devices
