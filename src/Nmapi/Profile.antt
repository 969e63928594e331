-- ===== src/Nmapi/Profile.antt =====
-- internal/nmapi/settings.go and vpn.go: a profile and what is read from its settings map. net.ParseIP,
-- net.ParseCIDR and strconv.Atoi are arguments: an address is in the 16-byte form, `none` is an error.
pub mod Contents
use sinty_nm.Base.{
  ltb, leb, ◌==◌, if◌then◌else◌, length, take, Bytes, le32, ℤ, codes, ℕ, ◌+◌, Bool, false, ◌&&◌,
  ◌||◌, Option, none, some, List, [], ◌∷◌, ◌++◌, map, pos, negsuc,
}
use sinty_nm.Base.Dict.{find, bytes_equal, bytes_eq}
use sinty_nm.Core.{DeviceKind, Lease}
use sinty_nm.Net.{to4, IpNet}
use sinty_nm.Nmapi.Types.{is_wifi, is_ethernet, is_wire_guard}
use sinty_nm.Nmapi.Variant.{
  Plain, flag, Variant, plain, dicts, uint32_lists, uint32s, byte_lists, SettingsMap, group_of,
  plain_string, plain_of, variant_string, plain_int, variant_strings,
}

-- SettingsConnection. `file` is empty where the profile was never written.
pub record SettingsConnection : Type 0 where
  pub path : ℕ
  pub uuid : Bytes
  pub id : Bytes
  pub file : Bytes
  pub settings : SettingsMap

-- ipSettings
pub record IpSettings : Type 0 where
  pub addrs : List IpNet
  pub dns : List Bytes
  pub domains : List Bytes

-- connType
unfoldable pub conn_type : SettingsConnection → Bytes
conn_type sc = variant_string (group_of (codes "connection") sc.settings) (codes "type")

-- ssid
unfoldable pub ssid_value : Option Variant → Bytes
ssid_value v = plain_string (plain_of v)

unfoldable pub ssid_of : SettingsConnection → Bytes
ssid_of sc = ssid_value (find (codes "ssid") (group_of (codes "802-11-wireless") sc.settings))

-- psk
unfoldable pub psk_of : SettingsConnection → Bytes
psk_of sc = variant_string (group_of (codes "802-11-wireless-security") sc.settings) (codes "psk")

-- ipv4Method
abbrev pub or_default : Bytes → Bytes → Bytes
or_default default [] = default
or_default default (c ∷ cs) = c ∷ cs

unfoldable pub ipv4_method : SettingsConnection → Bytes
ipv4_method sc =
    or_default (codes "auto")
      (variant_string (group_of (codes "ipv4") sc.settings) (codes "method"))

-- interfaceName: strings.ToLower on ASCII; a letter of another script is dropped in either case.
unfoldable pub to_lower : ℕ → ℕ
to_lower c = if leb 65 c && leb c 90 then c + 32 else c

unfoldable pub is_name_char : ℕ → Bool
is_name_char c = leb 97 c && leb c 122 || leb 48 c && leb c 57 || c == 45 || c == 95

unfoldable pub name_chars : Bytes → Bytes
name_chars [] = []
name_chars (c ∷ cs) =
    let rest = name_chars cs in if is_name_char (to_lower c) then to_lower c ∷ rest else rest

unfoldable pub name_from_id : Bytes → Bytes
name_from_id id = take 15 (or_default (codes "wg0") (name_chars id))

unfoldable pub interface_name : SettingsConnection → Bytes
interface_name sc =
    or_default (name_from_id sc.id)
      (variant_string (group_of (codes "connection") sc.settings) (codes "interface-name"))

-- kindMatchesType
unfoldable pub kind_matches_type : DeviceKind → Bytes → Bool
kind_matches_type k conn_type =
    if bytes_equal conn_type (codes "802-11-wireless")
    then is_wifi k
    else if bytes_equal conn_type (codes "802-3-ethernet")
    then is_ethernet k
    else if bytes_equal conn_type (codes "wireguard")
    then is_wire_guard k
    else false

-- sanitize
unfoldable pub sanitize : Bytes → Bytes
sanitize [] = []
sanitize (c ∷ cs) = (if c == 47 || c == 32 || c == 92 then 95 else c) ∷ sanitize cs

-- ipConfig: a prefix out of range stands for a whole address.
unfoldable pub prefix_within : ℕ → ℤ → ℕ
prefix_within bits (pos n) = if n == 0 || ltb bits n then bits else n
prefix_within bits (negsuc n) = bits

-- ipConfig: an address is 4 bytes where it can be.
unfoldable pub net_of : Bytes → ℤ → IpNet
net_of ip prefix = elim (to4 ip) [
  | some v4 ↦ record { ip = v4; ones = prefix_within 32 prefix; bits = 32 }
  | none ↦ record { ip = ip; ones = prefix_within 128 prefix; bits = 128 }
]

-- ipConfig: the list of "addresses", each an address in the order of the bus and a prefix.
unfoldable pub old_addresses : List (List ℕ) → List IpNet
old_addresses [] = []
old_addresses ((a ∷ p ∷ more) ∷ list) =
    record { ip = le32 a; ones = prefix_within 32 (pos p); bits = 32 } ∷ old_addresses list
old_addresses (_ ∷ list) = old_addresses list

unfoldable pub old_addresses_in : Option Variant → List IpNet
old_addresses_in (some (uint32_lists list)) = old_addresses list
old_addresses_in _ = []

-- ipConfig: the nameservers of 16 bytes.
unfoldable pub sixteen_bytes : List Bytes → List Bytes
sixteen_bytes [] = []
sixteen_bytes (b ∷ list) =
    let rest = sixteen_bytes list in if length b == 16 then b ∷ rest else rest

-- ipConfig: the values of "dns-search".
unfoldable pub domains_in : Option Variant → List Bytes
domains_in none = []
domains_in (some v) = variant_strings v

-- The first list, or the second where it is empty.
abbrev pub first_of {ℓ} : {A : Type ℓ} → List A → List A → List A
first_of [] second = second
first_of (x ∷ xs) second = x ∷ xs

-- manualLease: the gateway is an IPv4 address or nil.
unfoldable pub gateway_of : Option Bytes → Option Bytes
gateway_of none = none
gateway_of (some ip) = to4 ip

unfoldable pub lease_from : Option Bytes → IpSettings → List IpNet → Option (Lease × List IpNet)
lease_from gateway cfg [] = none
lease_from gateway cfg (a ∷ more) = some (
  record {
    ip = a.ip;
    prefix_len = a.ones;
    gateway = gateway;
    dns = cfg.dns;
    domains = cfg.domains;
    server_id = none;
    lease_seconds = 0;
  },
  more,
)

-- mergeDNS: the value of "ignore-auto-dns".
unfoldable pub is_set : Option Variant → Bool
is_set (some (plain (flag b))) = b
is_set _ = false

module _ (parse_ip : Bytes → Option Bytes) (atoi : Bytes → ℤ) where
  -- ipConfig: the loop on "address-data".
  unfoldable pub address_data : List (List (Bytes × Plain)) → List IpNet
  address_data [] = []
  address_data (a ∷ list) =
      let rest = address_data list in
      elim (parse_ip (plain_string (find (codes "address") a))) [
        | none ↦ rest
        | some ip ↦ net_of ip (plain_int atoi (find (codes "prefix") a)) ∷ rest
      ]

  unfoldable pub address_data_in : Option Variant → List IpNet
  address_data_in (some (dicts list)) = address_data list
  address_data_in _ = []

  -- ipConfig: the texts that are addresses.
  unfoldable pub parsed_ips : List Bytes → List Bytes
  parsed_ips [] = []
  parsed_ips (s ∷ list) =
      let rest = parsed_ips list in elim (parse_ip s) [ none ↦ rest | some ip ↦ ip ∷ rest ]

  unfoldable pub dns_data_in : Option Variant → List Bytes
  dns_data_in none = []
  dns_data_in (some v) = parsed_ips (variant_strings v)

  -- ipConfig: the values of "dns", in each type it may have.
  unfoldable pub old_dns_in : Option Variant → List Bytes
  old_dns_in none = []
  old_dns_in (some (uint32s list)) = map le32 list
  old_dns_in (some (byte_lists list)) = sixteen_bytes list
  old_dns_in (some v) = parsed_ips (variant_strings v)

  -- ipConfig
  unfoldable pub ip_config : Bytes → SettingsConnection → IpSettings
  ip_config group sc =
      let g = group_of group sc.settings in
      let old =
        if bytes_equal group (codes "ipv4")
        then old_addresses_in (find (codes "addresses") g)
        else [] in
      record {
        addrs = first_of (address_data_in (find (codes "address-data") g)) old;
        dns =
            first_of (dns_data_in (find (codes "dns-data") g)) (old_dns_in (find (codes "dns") g));
        domains = domains_in (find (codes "dns-search") g);
      }

  -- manualLease: `none` is the error.
  unfoldable pub manual_lease : SettingsConnection → Option (Lease × List IpNet)
  manual_lease sc =
      let cfg = ip_config (codes "ipv4") sc in
      let gateway = variant_string (group_of (codes "ipv4") sc.settings) (codes "gateway") in
      lease_from (gateway_of (parse_ip gateway)) cfg cfg.addrs

  -- mergeDNS
  unfoldable pub merge_dns : SettingsConnection → Lease → Lease
  merge_dns sc lease =
      let cfg = ip_config (codes "ipv4") sc in
      let ignore = is_set (find (codes "ignore-auto-dns") (group_of (codes "ipv4") sc.settings)) in
      record lease {
        dns = cfg.dns ++ (if ignore then [] else lease.dns);
        domains = cfg.domains ++ (if ignore then [] else lease.domains);
      }
