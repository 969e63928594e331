-- ===== src/Nmapi/Complete.antt =====
-- internal/nmapi/manager.go, `completeSettings` and `AddAndActivateConnection`: a client's partial
-- settings are filled in from the device and the access point, and the new profile is activated.
pub mod Filling
use sinty_nm.Base.{
  ◌==◌, if◌then◌else◌, Bytes, Result, codes, ℕ, ap, Bool, ◌||◌, Option, none, some, List, [], ◌∷◌,
  err,
}
use sinty_nm.Base.Dict.{find, insert, bytes_eq, bytes_equal}
use sinty_nm.Core.{DeviceKind, kind_ethernet, kind_wifi, kind_wire_guard, LinkInfo}
use sinty_nm.Nmapi.Variant.{
  text, raw, Variant, plain, Group, SettingsMap, group_of, has_group, variant_string,
}
use sinty_nm.Nmapi.Profile.{SettingsConnection, or_default, ssid_value}
use sinty_nm.Nmapi.State.{AccessPoint, Device, Manager, World, has}
use sinty_nm.Nmapi.Registry.{resolve_device}
use sinty_nm.Nmapi.Store.{add}
use sinty_nm.Nmapi.Auto.{Answers}
use sinty_nm.Nmapi.Control.{Fault, failed, device_for, activate_on}

-- completeSettings: the type that the sections show.
unfoldable pub type_of_sections : SettingsMap → Bytes
type_of_sections settings =
    if has_group (codes "802-11-wireless") settings
      || has_group (codes "802-11-wireless-security") settings
    then codes "802-11-wireless"
    else if has_group (codes "wireguard") settings
    then codes "wireguard"
    else if has_group (codes "802-3-ethernet") settings
    then codes "802-3-ethernet"
    else []

-- completeSettings: the type that the device shows.
unfoldable pub type_of_kind : DeviceKind → Bytes
type_of_kind kind_wifi = codes "802-11-wireless"
type_of_kind kind_ethernet = codes "802-3-ethernet"
type_of_kind kind_wire_guard = codes "wireguard"
type_of_kind _ = []

unfoldable pub type_of_device : Option ℕ → Manager → Bytes
type_of_device none m = []
type_of_device (some d) m = if has d m.dev_by_path then type_of_kind (m.device d).kind else []

-- apSSID: the SSID of an access point, on one device or on any.
unfoldable pub ssid_among : ℕ → List AccessPoint → Option Bytes
ssid_among path [] = none
ssid_among path (ap ∷ aps) = if ap.path == path then some ap.ssid else ssid_among path aps

abbrev pub or_ssid : Option Bytes → Bytes → Bytes
or_ssid (some ssid) later = ssid
or_ssid none later = later

unfoldable pub ssid_on : ℕ → (ℕ → Device) → List ℕ → Bytes
ssid_on path device [] = []
ssid_on path device (d ∷ ds) = or_ssid (ssid_among path (device d).aps) (ssid_on path device ds)

unfoldable pub devices_at : Option ℕ → Manager → List ℕ
devices_at none m = m.devices
devices_at (some d) m = if has d m.dev_by_path then d ∷ [] else m.devices

unfoldable pub ap_ssid : Option ℕ → Option ℕ → Manager → Bytes
ap_ssid device none m = []
ap_ssid device (some path) m = ssid_on path m.device (devices_at device m)

-- completeSettings: the SSID of the wifi section, where it has none and the access point has one.
unfoldable pub fill_ssid : Bytes → Option Variant → Group → Group
fill_ssid ssid (some v) g = g
fill_ssid [] none g = g
fill_ssid (c ∷ cs) none g = insert (codes "ssid") (plain (raw (c ∷ cs))) g

unfoldable pub fill_wifi : Bytes → Bytes → SettingsMap → SettingsMap
fill_wifi conn_type ssid settings =
    let g = group_of (codes "802-11-wireless") settings in
    if bytes_equal conn_type (codes "802-11-wireless")
    then insert (codes "802-11-wireless") (fill_ssid ssid (find (codes "ssid") g) g) settings
    else settings

-- completeSettings: a text of the connection section, where it is empty and there is one for it.
unfoldable pub fill_text : Bytes → Bytes → Bytes → Group → Group
fill_text key (c ∷ cs) val g = g
fill_text key [] [] g = g
fill_text key [] (c ∷ cs) g = insert key (plain (text (c ∷ cs))) g

-- completeSettings: the id of a profile that has none.
unfoldable pub id_from : Group → Bytes
id_from wifi = or_default (codes "connection") (ssid_value (find (codes "ssid") wifi))

unfoldable pub fill_connection : Bytes → SettingsMap → SettingsMap
fill_connection conn_type settings =
    let c = group_of (codes "connection") settings in
    let typed = fill_text (codes "type") (variant_string c (codes "type")) conn_type c in
    let named =
      fill_text (codes "id") (variant_string typed (codes "id"))
        (id_from (group_of (codes "802-11-wireless") settings)) typed in
    insert (codes "connection") named settings

-- completeSettings
unfoldable pub complete_settings : SettingsMap → Option ℕ → Option ℕ → Manager → SettingsMap
complete_settings settings device specific m =
    let conn_type = or_default (type_of_device device m) (type_of_sections settings) in
    fill_connection conn_type (fill_wifi conn_type (ap_ssid device specific m) settings)

-- AddAndActivateConnection: the profile that was added, and the outcome of its activation.
unfoldable pub activate_added :
    World
    → Bool
    → List (Option LinkInfo)
    → Option ℕ
    → Option ℕ
    → Option SettingsConnection × Manager
    → Option ℕ × (Result Fault ℕ × Manager)
activate_added w exported rounds device specific (none, m) = (none, (err failed, m))
activate_added w exported rounds device specific (some sc, m) = (
  some sc.path,
  activate_on w sc specific (device_for w exported sc rounds (resolve_device device sc m) m),
)

-- AddAndActivateConnection
unfoldable pub add_and_activate_connection :
    World
    → Answers
    → Bool
    → List (Option LinkInfo)
    → SettingsMap
    → Option ℕ
    → Option ℕ
    → Manager
    → Option ℕ × (Result Fault ℕ × Manager)
add_and_activate_connection w a exported rounds settings device specific m =
    activate_added w exported rounds device specific
      (add a.fresh a.written a.exports_profile (complete_settings settings device specific m) m)
