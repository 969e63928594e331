-- ===== src/Rtnl/Links/Messages.antt =====
-- internal/backend/rtnl/wire.go, `parseLink`: the link of a message that the kernel sends.
use sinty_nm.Base.{
  ◌==◌, lt→ltb, ==_iff, length, drop, All, length-append, length-replicate, Bytes, zeros, ℕ, ◌/◌,
  ◌%◌, ◌^◌, ◌≤◌, ◌<◌, ◌≡◌, refl, sym, ap, ◌∙◌, ◌≢◌, Bool, ◌||◌, some, List, [], ◌∷◌, ◌++◌,
  append-nil, arith, ok, pos,
}
use sinty_nm.Rtnl.Order.{
  ByteOrder, little_endian, big_endian, put16, put32, uint16, uint32, uint16-put16, uint32-put32,
  length-put32,
}
use sinty_nm.Rtnl.Wire.Attrs.{
  IsAttr, append_attrs, fold_attrs, encode_attrs, bare_attr, padding, length-bare_attr,
}
use sinty_nm.Rtnl.Wire.RoundTrip.{append_attrs_lem, for_each_attr-append_attrs}
use sinty_nm.Rtnl.Links.{
  cstr, hardware_addr_string, classify, read_info_kind, read_link_attr, LinkScan, empty_scan,
  link_of, parse_link, has_bit,
}
use sinty_nm.Rtnl.Links.Decoding.{parse_link-append_attrs, length-encode_attrs}

-- The header of a link message (struct ifinfomsg): two bytes, the hardware type, the index, the flags and
-- the change mask.
abbrev pub link_header : ByteOrder → ℕ → ℕ → ℕ → Bytes
link_header o arphrd index flags =
    0 ∷ 0 ∷ (put16 o arphrd ++ (put32 o index ++ (put32 o flags ++ put32 o 0)))

-- The attributes of a link: its name, address, MTU, operational state and info kind, each under its
-- number; names end with a zero byte, and the info kind is nested.
abbrev pub kind_attr : ByteOrder → Bytes → ℕ × Bytes
kind_attr o kind = (18, append_attrs o [] ((1, kind ++ 0 ∷ []) ∷ []))

abbrev pub link_attrs : ByteOrder → Bytes → Bytes → ℕ → ℕ → Bytes → List (ℕ × Bytes)
link_attrs o name mac mtu operstate kind =
    (3, name ++ 0 ∷ []) ∷ (1, mac) ∷ (4, put32 o mtu) ∷ (16, operstate ∷ []) ∷ kind_attr o kind ∷ []

cstr-zero : (name rest : Bytes) → All (λ c. c ≢ 0) name → cstr (name ++ 0 ∷ rest) ≡ name
unfolding cstr
cstr-zero [] rest h = refl
cstr-zero (c ∷ name) rest (some_c, h) = ground (arith, some_c, ==_iff c 0, cstr-zero name rest h)

header_parts :
    (o : ByteOrder) (arphrd index flags : ℕ) (tail : Bytes)
    → let b = link_header o arphrd index flags ++ tail in
      (drop 2 b ≡ put16 o arphrd ++ (put32 o index ++ (put32 o flags ++ (put32 o 0 ++ tail))))
      × (drop 4 b ≡ put32 o index ++ (put32 o flags ++ (put32 o 0 ++ tail)))
      × (drop 8 b ≡ put32 o flags ++ (put32 o 0 ++ tail))
unfolding put16 put32
header_parts little_endian arphrd index flags tail = (refl, refl, refl)
header_parts big_endian arphrd index flags tail = (refl, refl, refl)

length-link_header :
    (o : ByteOrder) (arphrd index flags : ℕ) → length (link_header o arphrd index flags) ≡ 16
unfolding put16 put32
length-link_header little_endian arphrd index flags = refl
length-link_header big_endian arphrd index flags = refl

-- The fields of a header are read where they stand.
link_of-fields :
    (o : ByteOrder) (stat : Bytes → Bool) (arphrd index flags : ℕ) (b : Bytes) (s : LinkScan)
    → uint16 o (drop 2 b) ≡ arphrd
    → uint32 o (drop 4 b) ≡ index
    → uint32 o (drop 8 b) ≡ flags
    → index < 2 ^ 31
    → link_of o stat b s ≡ record {
      index = pos index;
      name = s.name;
      kind = classify stat s.name arphrd flags s.info_kind;
      up = has_bit 0 flags;
      carrier = has_bit 16 flags || s.operstate == 6;
      mac = s.mac;
      mtu = s.mtu;
    }
unfolding link_of
link_of-fields o stat arphrd index flags b s at_2 at_4 at_8 h31 =
    rw (at_2, at_4, at_8, lt→ltb index (2 ^ 31) h31) refl

link_of-link_header :
    (o : ByteOrder) (stat : Bytes → Bool) (arphrd index flags : ℕ) (tail : Bytes) (s : LinkScan)
    → arphrd < 2 ^ 16
    → index < 2 ^ 31
    → flags < 2 ^ 32
    → link_of o stat (link_header o arphrd index flags ++ tail) s ≡ record {
      index = pos index;
      name = s.name;
      kind = classify stat s.name arphrd flags s.info_kind;
      up = has_bit 0 flags;
      carrier = has_bit 16 flags || s.operstate == 6;
      mac = s.mac;
      mtu = s.mtu;
    }
link_of-link_header o stat arphrd index flags tail s h16 h31 h32 =
    let (at_2, at_4, at_8) = header_parts o arphrd index flags tail in
    let wide : index < 2 ^ 32 = omega (arith, h31) in
    link_of-fields o stat arphrd index flags (link_header o arphrd index flags ++ tail) s
      (ap (uint16 o) at_2 ∙ uint16-put16 o arphrd _ h16)
      (ap (uint32 o) at_4 ∙ uint32-put32 o index _ wide)
      (ap (uint32 o) at_8 ∙ uint32-put32 o flags _ h32) h31

kind_attrs-IsAttr : (kind : Bytes) → length kind < 65000 → All IsAttr ((1, kind ++ 0 ∷ []) ∷ [])
kind_attrs-IsAttr kind small =
    ((omega arith, omega (arith, length-append kind (0 ∷ []), small)), tt)

length-kind_attr :
    (o : ByteOrder) (kind : Bytes)
    → length kind < 65000
    → (1 ≤ length (kind_attr o kind).1) × (length (kind_attr o kind).1 < 65100)
length-kind_attr o kind small =
    let zero_byte : ℕ = 0 in
    let grown =
      append_attrs_lem o [] ((1, kind ++ 0 ∷ []) ∷ []) refl (kind_attrs-IsAttr kind small) in
    (
      omega (arith, ap (λ b. length b) grown, length-encode_attrs o ((1, kind ++ 0 ∷ []) ∷ [])),
      omega (
        arith,
        small,
        ap (λ b. length b) grown,
        length-append kind (0 ∷ []),
        length-append (bare_attr o (1, kind ++ 0 ∷ []))
            (zeros (padding (length (kind ++ 0 ∷ []))) ++ []),
        length-bare_attr o (1, kind ++ 0 ∷ []),
        length-append (zeros (padding (length (kind ++ 0 ∷ [])))) [],
        length-replicate (padding (length (kind ++ 0 ∷ []))) zero_byte,
      ),
    )

read_kind :
    (o : ByteOrder) (kind : Bytes) (s : LinkScan)
    → All (λ c. c ≢ 0) kind
    → length kind < 65000
    → read_link_attr o s (kind_attr o kind) ≡ ok (record s { info_kind = kind })
unfolding read_link_attr read_info_kind
read_kind o kind s h small =
    let read =
      for_each_attr-append_attrs o read_info_kind (length (kind_attr o kind).1) []
        ((1, kind ++ 0 ∷ []) ∷ []) s.info_kind refl (kind_attrs-IsAttr kind small)
        (length-kind_attr o kind small).0 in
    rw read (rw (cstr-zero kind [] h) refl)

read_mtu :
    (o : ByteOrder) (mtu : ℕ) (s : LinkScan)
    → mtu < 2 ^ 32
    → read_link_attr o s (4, put32 o mtu) ≡ ok (record s { mtu = mtu })
unfolding read_link_attr
read_mtu o mtu s h =
    let value : uint32 o (put32 o mtu) ≡ mtu =
      ap (uint32 o) (sym (append-nil (put32 o mtu))) ∙ uint32-put32 o mtu [] h in
    rw (length-put32 o mtu, value) refl

read_name :
    (o : ByteOrder) (name : Bytes) (s : LinkScan)
    → All (λ c. c ≢ 0) name
    → read_link_attr o s (3, name ++ 0 ∷ []) ≡ ok (record s { name = name })
unfolding read_link_attr
read_name o name s h = rw (cstr-zero name [] h) refl

read_mac :
    (o : ByteOrder) (mac : Bytes) (s : LinkScan)
    → read_link_attr o s (1, mac) ≡ ok (record s { mac = hardware_addr_string mac })
unfolding read_link_attr
read_mac o mac s = refl

read_operstate :
    (o : ByteOrder) (operstate : ℕ) (s : LinkScan)
    → read_link_attr o s (16, operstate ∷ []) ≡ ok (record s { operstate = operstate })
unfolding read_link_attr
read_operstate o operstate s = refl

fold_step :
    (o : ByteOrder) (a : ℕ × Bytes) (l : List (ℕ × Bytes)) (s s1 : LinkScan)
    → read_link_attr o s a ≡ ok s1
    → fold_attrs (read_link_attr o) (a ∷ l) s ≡ fold_attrs (read_link_attr o) l s1
fold_step o a l s s1 e = rw e refl

fold_attrs-link_attrs :
    (o : ByteOrder) (name mac : Bytes) (mtu operstate : ℕ) (kind : Bytes)
    → All (λ c. c ≢ 0) name
    → All (λ c. c ≢ 0) kind
    → length kind < 65000
    → mtu < 2 ^ 32
    → fold_attrs (read_link_attr o) (link_attrs o name mac mtu operstate kind) empty_scan
      ≡ ok (record {
        name = name;
        mac = hardware_addr_string mac;
        mtu = mtu;
        operstate = operstate;
        info_kind = kind;
      })
fold_attrs-link_attrs o name mac mtu operstate kind h hk small hm =
    let l4 = kind_attr o kind ∷ [] in
    let l3 = (16, operstate ∷ []) ∷ l4 in
    let l2 = (4, put32 o mtu) ∷ l3 in
    let l1 = (1, mac) ∷ l2 in
    let s1 : LinkScan = record empty_scan { name = name } in
    let s2 : LinkScan = record s1 { mac = hardware_addr_string mac } in
    let s3 : LinkScan = record s2 { mtu = mtu } in
    let s4 : LinkScan = record s3 { operstate = operstate } in
    fold_step o (3, name ++ 0 ∷ []) l1 empty_scan s1 (read_name o name empty_scan h)
    ∙ fold_step o (1, mac) l2 s1 s2 (read_mac o mac s1)
    ∙ fold_step o (4, put32 o mtu) l3 s2 s3 (read_mtu o mtu s2 hm)
    ∙ fold_step o (16, operstate ∷ []) l4 s3 s4 (read_operstate o operstate s3)
    ∙ fold_step o (kind_attr o kind) [] s4 (record s4 { info_kind = kind })
        (read_kind o kind s4 hk small)

-- A message of the kernel about a link: the header and the attributes for its name, hardware address,
-- MTU, operational state and info kind, in either byte order. Where the numbers fit their fields (the
-- index as a signed word), the name and the info kind have no zero byte, and each text is shorter than
-- 65000 bytes, `parseLink` reads exactly that link: it is up by the flag 1, it has a carrier by the flag
-- 65536 or in operational state 6, and its kind is what `classify` makes of the fields.
pub parse_link-message :
    (o : ByteOrder) (stat : Bytes → Bool) (arphrd index flags : ℕ) (name mac : Bytes)
    (mtu operstate : ℕ) (kind : Bytes)
    → arphrd < 2 ^ 16
    → index < 2 ^ 31
    → flags < 2 ^ 32
    → mtu < 2 ^ 32
    → All (λ c. c ≢ 0) name
    → All (λ c. c ≢ 0) kind
    → length name < 65000
    → length mac < 65000
    → length kind < 65000
    → parse_link o stat (
        append_attrs o
          (link_header o arphrd index flags)
          (link_attrs o name mac mtu operstate kind))
      ≡ ok (
          some (record {
            index = pos index;
            name = name;
            kind = classify stat name arphrd flags kind;
            up = flags / 1 % 2 == 1;
            carrier = flags / 65536 % 2 == 1 || operstate == 6;
            mac = hardware_addr_string mac;
            mtu = mtu;
          }))
parse_link-message o stat arphrd index flags name mac mtu operstate kind h16 h31 h32 hm hn hk ln lm
      lk =
    let header = link_header o arphrd index flags in
    let l = link_attrs o name mac mtu operstate kind in
    let fits : All IsAttr l = (
      (omega arith, omega (arith, length-append name (0 ∷ []), ln)),
      (
        (omega arith, omega (arith, lm)),
        (
          (omega arith, omega (arith, length-put32 o mtu)),
          (
            (omega arith, omega arith),
            ((omega arith, omega (arith, (length-kind_attr o kind lk).1)), tt),
          ),
        ),
      ),
    ) in
    let size = length-link_header o arphrd index flags in
    let scan = fold_attrs-link_attrs o name mac mtu operstate kind hn hk lk hm in
    let grown = append_attrs_lem o header l (omega (arith, size)) fits in
    parse_link-append_attrs o stat header l size fits
    ∙ (rw scan (
        rw grown (
          ap (λ x. ok (some x))
            (link_of-link_header o stat arphrd index flags (encode_attrs o l) _ h16 h31 h32))))
