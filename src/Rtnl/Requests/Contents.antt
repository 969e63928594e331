-- ===== src/Rtnl/Requests/Contents.antt =====
-- internal/backend/rtnl/rtnl.go: what the kernel reads from the requests.
use sinty_nm.Base.{
  ltb, if◌then◌else◌, Bool-cases, length, drop, All, Bytes, Result, ℕ, ◌≤◌, ◌≡◌, refl, inl, inr,
  some, List, [], ◌∷◌, arith, ok,
}
use sinty_nm.Net.{to4, cidr_mask}
use sinty_nm.Rtnl.Order.{ByteOrder, little_endian, big_endian, put32}
use sinty_nm.Rtnl.Wire.{Panic, ip_family, for_each_attr}
use sinty_nm.Rtnl.Wire.Attrs.{IsAttr, append_attrs, fold_attrs}
use sinty_nm.Rtnl.Wire.RoundTrip.{for_each_attr-append_attrs}
use sinty_nm.Rtnl.Requests.{if_addrmsg, broadcast_address, address_request, add_addr}

-- What the kernel is told about an address: the header, and the attributes in order.
abbrev pub address_attrs : Bytes → ℕ → List (ℕ × Bytes)
address_attrs raw prefix_len =
    (2, raw)
    ∷ (1, raw)
    ∷ (if ltb prefix_len 31 then (4, broadcast_address raw (cidr_mask prefix_len 4)) ∷ [] else [])

length-if_addrmsg :
    (o : ByteOrder) (family prefix_len index : ℕ)
    → length (if_addrmsg o family prefix_len index) ≡ 8
unfolding if_addrmsg put32
length-if_addrmsg little_endian family prefix_len index = refl
length-if_addrmsg big_endian family prefix_len index = refl

length-broadcast_address : (raw mask : Bytes) → length (broadcast_address raw mask) ≤ length raw
unfolding broadcast_address
length-broadcast_address [] mask = omega arith
length-broadcast_address (r ∷ raw) [] = omega arith
length-broadcast_address (r ∷ raw) (m ∷ mask) = omega (arith, length-broadcast_address raw mask)

address_attrs-IsAttr :
    (raw : Bytes) (prefix_len : ℕ) → length raw ≡ 4 → All IsAttr (address_attrs raw prefix_len)
address_attrs-IsAttr raw prefix_len four = elim (Bool-cases (ltb prefix_len 31)) [
  | inl wide ↦ rw wide (
    (omega arith, omega arith),
    (
      (omega arith, omega arith),
      ((omega arith, omega (arith, length-broadcast_address raw (cidr_mask prefix_len 4))), tt),
    ),
  )
  | inr narrow ↦ rw narrow ((omega arith, omega arith), ((omega arith, omega arith), tt))
]

ip_family-ipv4 : (ip raw : Bytes) → to4 ip ≡ some raw → ip_family ip ≡ (2, some raw)
unfolding ip_family
ip_family-ipv4 ip raw h = rw (h, ip_family) refl

address_request-ipv4 :
    (o : ByteOrder) (index prefix_len : ℕ) (raw : Bytes)
    → address_request o index prefix_len (2, some raw)
      ≡ ok (append_attrs o (if_addrmsg o 2 prefix_len index) (address_attrs raw prefix_len))
unfolding address_request
address_request-ipv4 o index prefix_len raw = elim (Bool-cases (ltb prefix_len 31)) [
  | inl wide ↦ rw wide refl
  | inr narrow ↦ rw narrow refl
]

length-address_attrs : (raw : Bytes) (prefix_len : ℕ) → length (address_attrs raw prefix_len) ≤ 3
length-address_attrs raw prefix_len = elim (Bool-cases (ltb prefix_len 31)) [
  | inl wide ↦ rw wide (omega arith)
  | inr narrow ↦ rw narrow (omega arith)
]

-- For an IPv4 address, `AddAddr` builds a request. A walk of three steps or more over what stands behind
-- its first eight bytes meets the address as IFA_LOCAL and as IFA_ADDRESS, then for a prefix length below 31 the bytes of
-- `broadcast_address` as IFA_BROADCAST. It meets nothing else, however far it may go.
pub add_addr_contents :
    {S : Type 0} (o : ByteOrder) (fn : S → ℕ × Bytes → Result Panic S) (s : S) (index : ℕ)
    (ip raw : Bytes) (prefix_len f : ℕ)
    → to4 ip ≡ some raw
    → length raw ≡ 4
    → 3 ≤ f
    → (payload : Bytes) × (add_addr o index ip prefix_len ≡ ok payload)
      × (for_each_attr o fn f (drop 8 payload) s ≡ fold_attrs fn (address_attrs raw prefix_len) s)
unfolding add_addr
add_addr_contents o fn s index ip raw prefix_len f at_ip four enough =
    let header = if_addrmsg o 2 prefix_len index in
    let size = length-if_addrmsg o 2 prefix_len index in
    (
      append_attrs o header (address_attrs raw prefix_len),
      rw (ip_family-ipv4 ip raw at_ip) (address_request-ipv4 o index prefix_len raw),
      rw size at (
          for_each_attr-append_attrs o fn f header (address_attrs raw prefix_len) s
            (omega (arith, size)) (address_attrs-IsAttr raw prefix_len four)
            (omega (arith, enough, length-address_attrs raw prefix_len))),
    )
