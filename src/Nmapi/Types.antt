-- ===== src/Nmapi/Types.antt =====
-- internal/nmapi/types.go: the numbers of NetworkManager's D-Bus enumerations, and what maps to them.
use sinty_nm.Base.{ℕ, Bool, true, false}
use sinty_nm.Core.{
  DeviceKind, kind_unknown, kind_ethernet, kind_wifi, kind_wire_guard, kind_loopback, kind_bridge,
  kind_tun, WifiSecurity, sec_open, sec_wep, sec_psk, sec_enterprise,
}

-- NMDeviceState
abbrev pub dev_state_unmanaged : ℕ
dev_state_unmanaged = 10

abbrev pub dev_state_disconnected : ℕ
dev_state_disconnected = 30

abbrev pub dev_state_prepare : ℕ
dev_state_prepare = 40

abbrev pub dev_state_config : ℕ
dev_state_config = 50

abbrev pub dev_state_ip_config : ℕ
dev_state_ip_config = 70

abbrev pub dev_state_activated : ℕ
dev_state_activated = 100

abbrev pub dev_state_deactivating : ℕ
dev_state_deactivating = 110

abbrev pub dev_state_failed : ℕ
dev_state_failed = 120

-- NMDeviceStateReason
abbrev pub dev_reason_none : ℕ
dev_reason_none = 0

abbrev pub dev_reason_user_requested : ℕ
dev_reason_user_requested = 39

-- NMActiveConnectionState
abbrev pub ac_state_activating : ℕ
ac_state_activating = 1

abbrev pub ac_state_activated : ℕ
ac_state_activated = 2

abbrev pub ac_state_deactivating : ℕ
ac_state_deactivating = 3

abbrev pub ac_state_deactivated : ℕ
ac_state_deactivated = 4

-- deviceTypeFor
unfoldable pub device_type_for : DeviceKind → ℕ
device_type_for kind_ethernet = 1
device_type_for kind_wifi = 2
device_type_for kind_wire_guard = 29
device_type_for kind_loopback = 32
device_type_for kind_bridge = 13
device_type_for kind_tun = 16
device_type_for kind_unknown = 14

-- apSecFlags: the flags, and those of WPA and of RSN.
unfoldable pub ap_sec_flags : WifiSecurity → ℕ × ℕ × ℕ
ap_sec_flags sec_psk = (1, 0, 0x100)
ap_sec_flags sec_enterprise = (1, 0, 0x200)
ap_sec_flags sec_wep = (1, 1, 0)
ap_sec_flags sec_open = (0, 0, 0)

-- The tests on a device's kind that device.go and its neighbours make.
unfoldable pub is_wifi : DeviceKind → Bool
is_wifi kind_wifi = true
is_wifi _ = false

unfoldable pub is_ethernet : DeviceKind → Bool
is_ethernet kind_ethernet = true
is_ethernet _ = false

unfoldable pub is_wire_guard : DeviceKind → Bool
is_wire_guard kind_wire_guard = true
is_wire_guard _ = false

unfoldable pub is_loopback : DeviceKind → Bool
is_loopback kind_loopback = true
is_loopback _ = false
