-- ===== src/Rtnl/Links/Decoding.antt =====
-- internal/backend/rtnl/wire.go: what `parseLink` and `classify` make of a link message.
use sinty_nm.Base.{
  ◌==◌, if◌then◌else◌, le→not_ltb, ==_iff, Bool-cases, length, All, length-append, Bytes, zeros,
  ◌>>=◌, ℕ, ◌≤◌, ◌≡◌, refl, ap, ◌≢◌, ◌↔◌, inl, inr, Bool, true, false, ◌||◌, some, List, [], ◌∷◌,
  ◌++◌, arith, ok,
}
use sinty_nm.Base.Dict.{bytes_equal}
use sinty_nm.Core.{kind_unknown, kind_ethernet, kind_wifi, kind_wire_guard, kind_bridge, kind_tun}
use sinty_nm.Rtnl.Order.{ByteOrder}
use sinty_nm.Rtnl.Wire.Attrs.{
  IsAttr, append_attrs, fold_attrs, encode_attrs, bare_attr, padding, length-bare_attr,
}
use sinty_nm.Rtnl.Wire.RoundTrip.{append_attrs_lem, for_each_attr-append_attrs}
use sinty_nm.Rtnl.Links.{
  str_wireguard, str_bridge, str_tun, str_tap, str_wlan, is_loopback, is_wireless, classify_plain,
  classify_kind, classify, read_link_attr, empty_scan, link_of, parse_link,
}

named_kind :
    (a b c d : Bool)
    → (if a
        then kind_wire_guard
        else if b
        then kind_bridge
        else if c
        then kind_tun
        else if d
        then kind_wifi
        else kind_unknown)
      ≢ kind_ethernet
named_kind true b c d h = cc h
named_kind false true c d h = cc h
named_kind false false true d h = cc h
named_kind false false false true h = cc h
named_kind false false false false h = cc h

classify_kind_ethernet :
    (stat : Bytes → Bool) (name : Bytes) (arphrd : ℕ) (kind : Bytes)
    → classify_kind stat name arphrd kind ≡ kind_ethernet
    → (kind ≡ []) × (arphrd ≡ 1) × (is_wireless stat name ≡ false)
unfolding classify_kind classify_plain
classify_kind_ethernet stat name arphrd [] h = elim (Bool-cases (arphrd == 1)) [
  | inr other ↦ absurd (cc (rw other at h))
  | inl ether ↦ elim (Bool-cases (is_wireless stat name)) [
    | inl wifi ↦ absurd (cc (rw (ether, wifi) at h))
    | inr wired ↦ (refl, (==_iff arphrd 1).0 ether, wired)
  ]
]
classify_kind_ethernet stat name arphrd (c ∷ kind) h = absurd (
    named_kind (bytes_equal (c ∷ kind) str_wireguard) (bytes_equal (c ∷ kind) str_bridge)
      (bytes_equal (c ∷ kind) str_tun || bytes_equal (c ∷ kind) str_tap)
      (bytes_equal (c ∷ kind) str_wlan) h)

-- A link is taken for ethernet exactly where it is not the loopback one, has no info kind, has the
-- ethernet hardware type, and sysfs has no wireless node for it.
pub classify_ethernet :
    (stat : Bytes → Bool) (name : Bytes) (arphrd flags : ℕ) (kind : Bytes)
    → (classify stat name arphrd flags kind ≡ kind_ethernet) ↔ (
        (is_loopback arphrd flags ≡ false)
        × (kind ≡ [])
        × (arphrd ≡ 1)
        × (is_wireless stat name ≡ false))
unfolding classify classify_kind classify_plain
classify_ethernet stat name arphrd flags kind = (
  λ h. elim (Bool-cases (is_loopback arphrd flags)) [
    | inl lo ↦ absurd (cc (rw lo at h))
    | inr other ↦
        let (plain, ether, wired) = classify_kind_ethernet stat name arphrd kind (rw other at h) in
        (other, plain, ether, wired)
  ],
  λ (other, none_named, ether, wired).
      rw (other, none_named, (==_iff arphrd 1).1 ether, wired) refl,
)

pub length-encode_attrs :
    (o : ByteOrder) (l : List (ℕ × Bytes)) → length l ≤ length (encode_attrs o l)
length-encode_attrs o [] = omega arith
length-encode_attrs o (a ∷ l) = omega (
  arith,
  length-encode_attrs o l,
  length-append (bare_attr o a) (zeros (padding (length a.1)) ++ encode_attrs o l),
  length-append (zeros (padding (length a.1))) (encode_attrs o l),
  length-bare_attr o a,
)

-- On a message of a link header and attributes that fit their headers, put behind it by `appendAttr`,
-- `parseLink` decodes the header and reads each attribute once, in order.
pub parse_link-append_attrs :
    (o : ByteOrder) (stat : Bytes → Bool) (header : Bytes) (l : List (ℕ × Bytes))
    → length header ≡ 16
    → All IsAttr l
    → parse_link o stat (append_attrs o header l) ≡ (
        fold_attrs (read_link_attr o) l empty_scan >>= λ s.
        ok (some (link_of o stat (append_attrs o header l) s)))
unfolding parse_link
parse_link-append_attrs o stat header l size h =
    let grown = append_attrs_lem o header l (omega (arith, size)) h in
    let long : 16 ≤ length (append_attrs o header l) =
      omega (arith, ap (λ b. length b) grown, length-append header (encode_attrs o l)) in
    let read =
      for_each_attr-append_attrs o (read_link_attr o) (length (append_attrs o header l)) header l
        empty_scan (omega (arith, size)) h
        (omega (
          arith,
          ap (λ b. length b) grown,
          length-append header (encode_attrs o l),
          length-encode_attrs o l,
        )) in
    rw (le→not_ltb (length (append_attrs o header l)) 16 long) (rw (rw size at read) refl)
