-- ===== src/Rtnl/Links.antt =====
-- internal/backend/rtnl/wire.go: `parseLink`, `classify`, `isWireless` and `cstr`. Whether `os.Stat`
-- finds a path is the argument `stat`. The flag tests read one bit each.
pub mod Decoding
pub mod Messages
use sinty_nm.Base.{
  ltb, leb, ◌==◌, if◌then◌else◌, length, drop, Bytes, byte_at, Result, ◌>>=◌, int32, ℕ, ◌+◌, ◌/◌,
  ◌%◌, ◌^◌, Bool, false, ◌||◌, Option, none, some, [], ◌∷◌, ◌++◌, ok,
}
use sinty_nm.Base.Dict.{bytes_equal}
use sinty_nm.Core.{
  DeviceKind, kind_unknown, kind_ethernet, kind_wifi, kind_wire_guard, kind_loopback, kind_bridge,
  kind_tun, LinkInfo,
}
use sinty_nm.Rtnl.Order.{ByteOrder, uint16, uint32}
use sinty_nm.Rtnl.Wire.{Panic, for_each_attr}

abbrev pub ifla_address : ℕ
ifla_address = 1

abbrev pub ifla_ifname : ℕ
ifla_ifname = 3

abbrev pub ifla_mtu : ℕ
ifla_mtu = 4

abbrev pub ifla_operstate : ℕ
ifla_operstate = 16

abbrev pub ifla_linkinfo : ℕ
ifla_linkinfo = 18

abbrev pub ifla_info_kind : ℕ
ifla_info_kind = 1

abbrev pub if_oper_up : ℕ
if_oper_up = 6

abbrev pub sizeof_if_infomsg : ℕ
sizeof_if_infomsg = 16

-- The flags IFF_UP (bit 0), IFF_LOOPBACK (bit 3) and IFF_LOWER_UP (bit 16).
abbrev pub has_bit : ℕ → ℕ → Bool
has_bit k flags = flags / 2 ^ k % 2 == 1

-- cstr, with the search of indexByte.
unfoldable pub cstr : Bytes → Bytes
cstr [] = []
cstr (c ∷ b) = if c == 0 then [] else c ∷ cstr b

-- `net.HardwareAddr.String`: two hexadecimal digits a byte, with colons between.
unfoldable pub hex_digit : ℕ → ℕ
hex_digit v = if ltb v 10 then 48 + v else 87 + v

unfoldable pub hardware_addr_string : Bytes → Bytes
hardware_addr_string [] = []
hardware_addr_string (v ∷ []) = hex_digit (v / 16) ∷ hex_digit (v % 16) ∷ []
hardware_addr_string (v ∷ w ∷ b) =
    hex_digit (v / 16) ∷ hex_digit (v % 16) ∷ 58 ∷ hardware_addr_string (w ∷ b)

-- "/sys/class/net/", "/wireless" and "/phy80211".
abbrev sys_class_net : Bytes
sys_class_net =
    47 ∷ 115 ∷ 121 ∷ 115 ∷ 47 ∷ 99 ∷ 108 ∷ 97 ∷ 115 ∷ 115 ∷ 47 ∷ 110 ∷ 101 ∷ 116 ∷ 47 ∷ []

abbrev wireless_node : Bytes
wireless_node = 47 ∷ 119 ∷ 105 ∷ 114 ∷ 101 ∷ 108 ∷ 101 ∷ 115 ∷ 115 ∷ []

abbrev phy80211_node : Bytes
phy80211_node = 47 ∷ 112 ∷ 104 ∷ 121 ∷ 56 ∷ 48 ∷ 50 ∷ 49 ∷ 49 ∷ []

-- isWireless
unfoldable pub is_wireless : (Bytes → Bool) → Bytes → Bool
is_wireless stat [] = false
is_wireless stat (c ∷ name) =
    stat (sys_class_net ++ (c ∷ name ++ wireless_node))
    || stat (sys_class_net ++ (c ∷ name ++ phy80211_node))

-- "wireguard", "bridge", "tun", "tap" and "wlan".
abbrev pub str_wireguard : Bytes
str_wireguard = 119 ∷ 105 ∷ 114 ∷ 101 ∷ 103 ∷ 117 ∷ 97 ∷ 114 ∷ 100 ∷ []

abbrev pub str_bridge : Bytes
str_bridge = 98 ∷ 114 ∷ 105 ∷ 100 ∷ 103 ∷ 101 ∷ []

abbrev pub str_tun : Bytes
str_tun = 116 ∷ 117 ∷ 110 ∷ []

abbrev pub str_tap : Bytes
str_tap = 116 ∷ 97 ∷ 112 ∷ []

abbrev pub str_wlan : Bytes
str_wlan = 119 ∷ 108 ∷ 97 ∷ 110 ∷ []

-- classify: whether the link is the loopback one (ARPHRD_LOOPBACK is 772).
unfoldable pub is_loopback : ℕ → ℕ → Bool
is_loopback arphrd flags = has_bit 3 flags || arphrd == 772

-- classify: a link with no info kind (ARPHRD_ETHER is 1).
unfoldable pub classify_plain : (Bytes → Bool) → Bytes → ℕ → DeviceKind
classify_plain stat name arphrd =
    if arphrd == 1
    then (if is_wireless stat name then kind_wifi else kind_ethernet)
    else kind_unknown

-- classify: the switch on the info kind, where the first test that holds decides.
unfoldable pub classify_kind : (Bytes → Bool) → Bytes → ℕ → Bytes → DeviceKind
classify_kind stat name arphrd [] = classify_plain stat name arphrd
classify_kind stat name arphrd (c ∷ kind) =
    if bytes_equal (c ∷ kind) str_wireguard
    then kind_wire_guard
    else if bytes_equal (c ∷ kind) str_bridge
    then kind_bridge
    else if bytes_equal (c ∷ kind) str_tun || bytes_equal (c ∷ kind) str_tap
    then kind_tun
    else if bytes_equal (c ∷ kind) str_wlan
    then kind_wifi
    else kind_unknown

-- classify
unfoldable pub classify : (Bytes → Bool) → Bytes → ℕ → ℕ → Bytes → DeviceKind
classify stat name arphrd flags info_kind =
    if is_loopback arphrd flags then kind_loopback else classify_kind stat name arphrd info_kind

-- parseLink: what the attributes say.
pub record LinkScan : Type 0 where
  pub name : Bytes
  pub mac : Bytes
  pub mtu : ℕ
  pub operstate : ℕ
  pub info_kind : Bytes

abbrev pub empty_scan : LinkScan
empty_scan = record { name = []; mac = []; mtu = 0; operstate = 0; info_kind = [] }

-- parseLink: an attribute nested in IFLA_LINKINFO.
unfoldable pub read_info_kind : Bytes → ℕ × Bytes → Result Panic Bytes
read_info_kind kind (t, d) = ok (if t == ifla_info_kind then cstr d else kind)

-- parseLink: the callback of `forEachAttr`.
unfoldable pub read_link_attr : ByteOrder → LinkScan → ℕ × Bytes → Result Panic LinkScan
unfolding hardware_addr_string hex_digit
read_link_attr o s (t, d) =
    if t == ifla_ifname
    then ok (record s { name = cstr d })
    else if t == ifla_address
    then ok (record s { mac = hardware_addr_string d })
    else if t == ifla_mtu
    then ok (if leb 4 (length d) then record s { mtu = uint32 o d } else s)
    else if t == ifla_operstate
    then ok (if leb 1 (length d) then record s { operstate = byte_at d 0 } else s)
    else if t == ifla_linkinfo
    then (for_each_attr o read_info_kind (length d) d s.info_kind >>= λ k.
        ok (record s { info_kind = k }))
    else ok s

-- parseLink: the link of a payload and of what its attributes say.
unfoldable pub link_of : ByteOrder → (Bytes → Bool) → Bytes → LinkScan → LinkInfo
link_of o stat data_bytes s =
    let flags = uint32 o (drop 8 data_bytes) in
    record {
      index = int32 (uint32 o (drop 4 data_bytes));
      name = s.name;
      kind = classify stat s.name (uint16 o (drop 2 data_bytes)) flags s.info_kind;
      up = has_bit 0 flags;
      carrier = has_bit 16 flags || s.operstate == if_oper_up;
      mac = s.mac;
      mtu = s.mtu;
    }

-- parseLink: `false` is `none`.
unfoldable pub parse_link : ByteOrder → (Bytes → Bool) → Bytes → Result Panic (Option LinkInfo)
parse_link o stat data_bytes =
    if ltb (length data_bytes) sizeof_if_infomsg
    then ok none
    else for_each_attr o (read_link_attr o) (length data_bytes) (drop sizeof_if_infomsg data_bytes)
        empty_scan
      >>= λ s. ok (some (link_of o stat data_bytes s))
