-- ===== src/Core.antt =====
-- internal/core/core.go: the data that the backends and nmapi exchange.
-- A Go string or byte slice is `Bytes`; a `net.IP` that may be nil is an `Option Bytes`.
pub mod LinkLocal
use sinty_nm.Base.{Bytes, ℤ, ℕ, Bool, Option, List}
use sinty_nm.Net.{IpNet}

-- DeviceKind
pub data DeviceKind : Type 0 where
  kind_unknown kind_ethernet kind_wifi kind_wire_guard kind_loopback kind_bridge kind_tun :
      DeviceKind

-- WifiSecurity
pub data WifiSecurity : Type 0 where
  sec_open sec_wep sec_psk sec_enterprise : WifiSecurity

-- LinkInfo
pub record LinkInfo : Type 0 where
  pub index : ℤ
  pub name : Bytes
  pub kind : DeviceKind
  pub up : Bool
  pub carrier : Bool
  pub mac : Bytes
  pub mtu : ℕ

-- RouteInfo
pub record RouteInfo : Type 0 where
  pub dst : Option IpNet
  pub gw : Option Bytes
  pub metric : ℕ

-- DNSEntry
pub record DnsEntry : Type 0 where
  pub iface : Bytes
  pub nameservers : List Bytes
  pub domains : List Bytes
  pub priority : ℤ

-- WGPeer
pub record WgPeer : Type 0 where
  pub public_key : Bytes
  pub preshared_key : Bytes
  pub endpoint : Bytes
  pub keepalive : ℤ
  pub allowed_ips : List IpNet

-- WGConfig
pub record WgConfig : Type 0 where
  pub private_key : Bytes
  pub listen_port : ℤ
  pub fw_mark : ℤ
  pub peers : List WgPeer

-- Lease
pub record Lease : Type 0 where
  pub ip : Bytes
  pub prefix_len : ℕ
  pub gateway : Option Bytes
  pub dns : List Bytes
  pub domains : List Bytes
  pub server_id : Option Bytes
  pub lease_seconds : ℕ

-- ScannedAP
pub record ScannedAp : Type 0 where
  pub ssid : Bytes
  pub bssid : Bytes
  pub strength : ℕ
  pub frequency : ℕ
  pub security : WifiSecurity
  pub known : Bool
  pub handle : Bytes

-- WifiState
pub data WifiState : Type 0 where
  wifi_disconnected wifi_connecting wifi_connected wifi_disconnecting : WifiState

-- WifiEvent
pub record WifiEvent : Type 0 where
  pub device : Bytes
  pub state : WifiState
  pub connected_ssid : Bytes

-- Connectivity
pub data Connectivity : Type 0 where
  conn_unknown conn_none conn_portal conn_limited conn_full : Connectivity
