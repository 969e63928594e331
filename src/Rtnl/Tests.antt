-- ===== src/Rtnl/Tests.antt =====
-- The theorems on internal/backend/rtnl at concrete messages.
use sinty_nm.Base.{
  length, drop, Bytes, zeros, pos, ◌==◌, ◌||◌, ◌/◌, ◌%◌, Result, ℕ, ◌≡◌, refl, ◌↔◌, Bool, false,
  some, List, [], ◌∷◌, ◌++◌, arith, ok, err,
}
use sinty_nm.Core.{kind_ethernet}
use sinty_nm.Rtnl.Order.{little_endian, big_endian}
use sinty_nm.Rtnl.Wire.{Panic, slice_out_of_range, for_each_attr}
use sinty_nm.Rtnl.Wire.Attrs.{bare_attr, encode_attrs, append_attrs, fold_attrs}
use sinty_nm.Rtnl.Wire.Fuel.{for_each_attr_fuel}
use sinty_nm.Rtnl.Wire.RoundTrip.{for_each_attr-append_attrs, for_each_attr_panics}
use sinty_nm.Net.{ipv4, to4}
use sinty_nm.Rtnl.Requests.{add_addr}
use sinty_nm.Rtnl.Requests.Contents.{address_attrs, add_addr_contents}
use sinty_nm.Rtnl.Links.{is_loopback, is_wireless, classify, parse_link, hardware_addr_string}
use sinty_nm.Rtnl.Links.Messages
use sinty_nm.Rtnl.Links.Messages.{link_header, parse_link-message}
use sinty_nm.Rtnl.Links.Decoding.{classify_ethernet}

-- A callback that collects the attributes.
abbrev collect : List (ℕ × Bytes) → ℕ × Bytes → Result Panic (List (ℕ × Bytes))
collect seen a = ok (a ∷ seen)

-- The name "eth0" with its zero, of five bytes, and an MTU of 1500.
abbrev name_attr : ℕ × Bytes
name_attr = (3, 101 ∷ 116 ∷ 104 ∷ 48 ∷ 0 ∷ [])

abbrev link_attrs : List (ℕ × Bytes)
link_attrs = name_attr ∷ (4, 220 ∷ 5 ∷ 0 ∷ 0 ∷ []) ∷ []

abbrev no_nodes : Bytes → Bool
no_nodes path = false

for_each_attr-append_attrs_example :
    for_each_attr big_endian collect 9
      (drop (length (zeros 16)) (append_attrs big_endian (zeros 16) link_attrs))
      []
    ≡ fold_attrs collect link_attrs []
for_each_attr-append_attrs_example =
    for_each_attr-append_attrs big_endian collect 9 (zeros 16) link_attrs [] refl
      ((omega arith, omega arith), ((omega arith, omega arith), tt)) (omega arith)

for_each_attr_panics_example :
    for_each_attr little_endian collect 9
      (encode_attrs little_endian ((4, 220 ∷ 5 ∷ 0 ∷ 0 ∷ []) ∷ [])
        ++ bare_attr little_endian name_attr)
      []
    ≡ err slice_out_of_range
for_each_attr_panics_example =
    for_each_attr_panics little_endian collect 9 ((4, 220 ∷ 5 ∷ 0 ∷ 0 ∷ []) ∷ []) name_attr []
      ((4, 220 ∷ 5 ∷ 0 ∷ 0 ∷ []) ∷ []) (name_attr ∷ (4, 220 ∷ 5 ∷ 0 ∷ 0 ∷ []) ∷ [])
      ((omega arith, omega arith), tt) (omega arith, omega arith) (omega arith) (omega arith) refl
      refl

classify_ethernet_example : (classify no_nodes (101 ∷ []) 1 0 [] ≡ kind_ethernet) ↔ (
    (is_loopback 1 0 ≡ false)
    × (◌≡◌ {A = Bytes} [] [])
    × (◌≡◌ {A = ℕ} 1 1)
    × (is_wireless no_nodes (101 ∷ []) ≡ false))
classify_ethernet_example = classify_ethernet no_nodes (101 ∷ []) 1 0 []

-- An ethernet card "eth0" that is up with a carrier, of index 2.
parse_link-message_example :
    parse_link little_endian no_nodes (
      append_attrs little_endian (link_header little_endian 1 2 65537) (
        Messages.link_attrs little_endian
          (101 ∷ 116 ∷ 104 ∷ 48 ∷ [])
          (2 ∷ 0 ∷ 0 ∷ 0 ∷ 0 ∷ 1 ∷ [])
          1500
          2
          []))
    ≡ ok (
        some (record {
          index = pos 2;
          name = 101 ∷ 116 ∷ 104 ∷ 48 ∷ [];
          kind = classify no_nodes (101 ∷ 116 ∷ 104 ∷ 48 ∷ []) 1 65537 [];
          up = 65537 / 1 % 2 == 1;
          carrier = 65537 / 65536 % 2 == 1 || 2 == 6;
          mac = hardware_addr_string (2 ∷ 0 ∷ 0 ∷ 0 ∷ 0 ∷ 1 ∷ []);
          mtu = 1500;
        }))
parse_link-message_example =
    parse_link-message little_endian no_nodes 1 2 65537 (101 ∷ 116 ∷ 104 ∷ 48 ∷ [])
      (2 ∷ 0 ∷ 0 ∷ 0 ∷ 0 ∷ 1 ∷ []) 1500 2 [] (omega arith) (omega arith) (omega arith) (omega arith)
      (
        λ e. omega (arith, e),
        (λ e. omega (arith, e), (λ e. omega (arith, e), (λ e. omega (arith, e), tt))),
      )
      tt (omega arith) (omega arith) (omega arith)

for_each_attr_fuel_example :
    for_each_attr little_endian collect 9 (12 ∷ 0 ∷ 3 ∷ 0 ∷ 7 ∷ []) []
    ≡ for_each_attr little_endian collect 100 (12 ∷ 0 ∷ 3 ∷ 0 ∷ 7 ∷ []) []
for_each_attr_fuel_example =
    for_each_attr_fuel little_endian collect 9 100 (12 ∷ 0 ∷ 3 ∷ 0 ∷ 7 ∷ []) [] (omega arith)
      (omega arith)

to4_example_ip : to4 (ipv4 10 0 0 7) ≡ some (10 ∷ 0 ∷ 0 ∷ 7 ∷ [])
unfolding to4
to4_example_ip = refl

add_addr_contents_example :
    (payload : Bytes) × (add_addr little_endian 2 (ipv4 10 0 0 7) 24 ≡ ok payload)
    × (for_each_attr little_endian collect 100 (drop 8 payload) []
        ≡ fold_attrs collect (address_attrs (10 ∷ 0 ∷ 0 ∷ 7 ∷ []) 24) [])
add_addr_contents_example =
    add_addr_contents little_endian collect [] 2 (ipv4 10 0 0 7) (10 ∷ 0 ∷ 0 ∷ 7 ∷ []) 24 100
      to4_example_ip refl (omega arith)
