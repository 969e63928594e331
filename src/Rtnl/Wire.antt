-- ===== src/Rtnl/Wire.antt =====
-- internal/backend/rtnl/wire.go: framing of netlink messages and attributes. The callback of
-- `forEachAttr` passes its state on; a slice out of range is a panic in Go, and an error here.

pub mod Attrs
pub mod RoundTrip
pub mod Fuel
use sinty_nm.Base.{
  ltb, ◌==◌, if◌then◌else◌, length, take, drop, Bytes, zeros, copy_at, Result, ◌>>=◌, ℕ, zero, suc,
  ◌+◌, ◌*◌, ◌/◌, ◌%◌, ◌^◌, ◌||◌, Option, none, some, [], ◌∷◌, ◌++◌, ok, err,
}
use sinty_nm.Net.{to4, to16}
use sinty_nm.Rtnl.Order.{ByteOrder, put16, put32, uint16}

abbrev pub sizeof_rt_attr : ℕ
sizeof_rt_attr = 4

abbrev pub nlmsg_hdrlen : ℕ
nlmsg_hdrlen = 16

pub data Panic : Type 0 where
  slice_out_of_range : Panic

-- align
unfoldable pub align : ℕ → ℕ
align n = (n + 3) / 4 * 4

-- buildMessage: the header, and the payload behind it.
unfoldable pub build_message : ByteOrder → ℕ → ℕ → ℕ → Bytes → Bytes
build_message o msg_type flags seq payload =
    let total = nlmsg_hdrlen + length payload in
    let b0 = copy_at 0 (put32 o (total % 2 ^ 32)) (zeros nlmsg_hdrlen) in
    let b1 = copy_at 6 (put16 o flags) (copy_at 4 (put16 o msg_type) b0) in
    copy_at 8 (put32 o seq) b1 ++ payload

-- appendAttr: `for len(b)%4 != 0`, with fuel for the rounds.
unfoldable pub pad_to_four : ℕ → Bytes → Bytes
pad_to_four zero b = b
pad_to_four (suc f) b =
    let rest = pad_to_four f (b ++ 0 ∷ []) in if length b % 4 == 0 then b else rest

-- Three rounds bring any length to a multiple of four.
abbrev pub pad_fuel : ℕ
pad_fuel = 3

-- appendAttr: the header of an attribute of `l` bytes in all.
unfoldable pub rt_attr_header : ByteOrder → ℕ → ℕ → Bytes
rt_attr_header o l typ =
    copy_at 2 (put16 o typ) (copy_at 0 (put16 o (l % 2 ^ 16)) (zeros sizeof_rt_attr))

-- appendAttr
unfoldable pub append_attr : ByteOrder → Bytes → ℕ → Bytes → Bytes
append_attr o b typ data_bytes =
    pad_to_four pad_fuel
      ((b ++ rt_attr_header o (sizeof_rt_attr + length data_bytes) typ) ++ data_bytes)

-- appendAttrU32
unfoldable pub append_attr_u32 : ByteOrder → Bytes → ℕ → ℕ → Bytes
append_attr_u32 o b typ v = append_attr o b typ (put32 o v)

-- ipFamily: AF_INET, AF_INET6 or AF_UNSPEC, and the address.
unfoldable pub ip_family : Bytes → ℕ × Option Bytes
ip_family ip = elim (to4 ip) [
  | some v4 ↦ (2, some v4)
  | none ↦ elim (to16 ip) [ some v6 ↦ (10, some v6) | none ↦ (0, none) ]
]

-- forEachAttr: the loop, on fuel for the attributes.
unfoldable pub for_each_attr :
    {S : Type 0} → ByteOrder → (S → ℕ × Bytes → Result Panic S) → ℕ → Bytes → S → Result Panic S
for_each_attr o fn zero b s = ok s
for_each_attr o fn (suc f) b s =
    let l = uint16 o b in
    let t = uint16 o (drop 2 b) in
    if ltb (length b) sizeof_rt_attr || (ltb l sizeof_rt_attr || ltb (length b) l)
    then ok s
    else fn s (t, drop sizeof_rt_attr (take l b)) >>= λ s1.
        if ltb (length b) (align l)
        then err slice_out_of_range
        else for_each_attr o fn f (drop (align l) b) s1
