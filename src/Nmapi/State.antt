-- ===== src/Nmapi/State.antt =====
-- internal/nmapi: the objects of manager.go, device.go and active.go. A device and an active connection
-- are pointers in the source: here they are the numbers of their object paths (paths.go), and the two
-- heaps hold what they point to, also after they left the registry. `none` is the path "/". What the
-- manager asks of the backends and tells the bus is a log, in order.
use sinty_nm.Base.{
  ◌==◌, if◌then◌else◌, Bytes, ℤ, ℕ, Bool, true, false, ◌||◌, Option, List, [], ◌∷◌, ◌++◌,
}
use sinty_nm.Core.{DeviceKind, Connectivity, RouteInfo, DnsEntry, WgConfig, Lease}
use sinty_nm.Net.{IpNet}
use sinty_nm.Nmapi.Profile.{SettingsConnection}

-- AccessPoint, as far as devices read it.
pub record AccessPoint : Type 0 where
  pub path : ℕ
  pub ssid : Bytes
  pub handle : Bytes

-- Device
pub record Device : Type 0 where
  pub iface : Bytes
  pub index : ℤ
  pub kind : DeviceKind
  pub mac : Bytes
  pub managed : Bool
  pub aps : List AccessPoint
  pub active_ap : Option ℕ
  pub active_conn : Option ℕ
  pub ip4 : Option ℕ
  pub dhcp4 : Option ℕ
  pub ip4obj : Option ℕ
  pub state : ℕ
  pub carrier : Bool
  pub auto_wired : Bool

-- ActiveConnection
pub record ActiveConnection : Type 0 where
  pub conn : Option ℕ
  pub specific : Option ℕ
  pub uuid : Bytes
  pub id : Bytes
  pub typ : Bytes
  pub device : ℕ
  pub state : ℕ
  pub ip4 : Option ℕ
  pub adopted : Bool
  pub vpn_routes : List (ℤ × RouteInfo)
  pub cancelled : Bool
  pub gone : Bool

-- What goes out: calls of the backends, and signals on the bus.
pub data Call : Type 0 where
  set_up flush_addrs : ℤ → Call
  add_addr : ℤ → Bytes → ℕ → Call
  add_route del_route : ℤ → RouteInfo → Call
  set_mtu : ℤ → ℤ → Call
  dns_set : DnsEntry → Call
  dns_revert wifi_disconnect wg_remove : Bytes → Call
  wifi_connect : Bytes → Bytes → Bytes → Call
  wg_configure : Bytes → WgConfig → Call
  device_state_changed : ℕ → ℕ → ℕ → ℕ → Call
  active_state_changed : ℕ → ℕ → ℕ → Call
  device_added device_removed : ℕ → Call
  state_changed : ℕ → Call

-- The goroutines that operations start, but for the activations.
pub data Task : Type 0 where
  manage_wired auto_connect_wired populate_aps : ℕ → Task
  poll_connectivity : Task

-- Manager with its Settings, the activations that run and the other tasks that wait.
pub record Manager : Type 0 where
  pub dev_gen : ℕ
  pub ac_gen : ℕ
  pub ip_gen : ℕ
  pub devices : List ℕ
  pub dev_by_path : List ℕ
  pub dev_by_iface : List (Bytes × ℕ)
  pub device : ℕ → Device
  pub active_conns : List ℕ
  pub active : ℕ → ActiveConnection
  pub state : ℕ
  pub connectivity : Connectivity
  pub primary : Option ℕ
  pub conn_gen : ℕ
  pub conns : List SettingsConnection
  pub running : List ℕ
  pub calls : List Call
  pub tasks : List Task

-- Membership and removal in a list of paths: the keys of a map, or a slice without one of its pointers.
abbrev pub has : ℕ → List ℕ → Bool
has p [] = false
has p (q ∷ qs) = q == p || has p qs

abbrev pub without : ℕ → List ℕ → List ℕ
without p [] = []
without p (q ∷ qs) = let rest = without p qs in if q == p then rest else q ∷ rest

-- A heap with one object written.
abbrev pub update {ℓ} : {A : Type ℓ} → (ℕ → A) → ℕ → A → ℕ → A
update h p a q = if q == p then a else h q

abbrev pub log : Call → Manager → Manager
log c m = record m { calls = m.calls ++ c ∷ [] }

abbrev pub spawn : Task → Manager → Manager
spawn t m = record m { tasks = t ∷ m.tasks }

abbrev pub put_device : ℕ → Device → Manager → Manager
put_device d v m = record m { device = update m.device d v }

abbrev pub put_active : ℕ → ActiveConnection → Manager → Manager
put_active p v m = record m { active = update m.active p v }

-- What the backends, the bus and the libraries answer while a connection comes up: true is no error.
pub record World : Type 0 where
  pub exports_active : Bool
  pub exports_ip4 : Bool
  pub wifi_connects : Bool
  pub raises : Bool
  pub flushes : Bool
  pub adds_address : Bytes → ℕ → Bool
  pub adds_route : ℤ → RouteInfo → Bool
  pub acquires : Option Lease
  pub mac : Bytes
  pub is_done : Bool
  pub configures : Bool
  pub parse_ip : Bytes → Option Bytes
  pub parse_cidr : Bytes → Option IpNet
  pub atoi : Bytes → ℤ
  pub gateway : Option (ℤ × Bytes)
  pub endpoint_ips : Bytes → List Bytes

-- A call that may fail, and what follows it where it does not.
abbrev pub and_then : Manager × Bool → (Manager → Manager × Bool) → Manager × Bool
and_then (m, true) next = next m
and_then (m, false) next = (m, false)

abbrev pub call : Call → Bool → Manager → Manager × Bool
call c succeeds m = (log c m, succeeds)
