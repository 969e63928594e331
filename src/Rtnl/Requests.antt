-- ===== src/Rtnl/Requests.antt =====
-- internal/backend/rtnl: the headers of wire.go and the payloads that rtnl.go hands to `exec`. An
-- index is not negative, as the kernel numbers interfaces from 1; a prefix length is not negative
-- either. `exec` itself is system calls.
pub mod Contents
use sinty_nm.Base.{
  ltb, leb, ◌==◌, if◌then◌else◌, ltb→lt, lt→ltb, le→not_ltb, not_ltb→le, not_leb→lt, leb→le, ==_iff,
  tests, or_false, Bool-cases, Option-cases, length, get_or, take, drop, replicate, All,
  length-append, take-append-drop, take_all, length-take, length-drop, length-replicate,
  take_append, drop_append, All-append, Bytes, IsByte, zeros, byte_at, copy_at, be16, be32,
  get_be16, get_be32, le16, le32, get_le16, get_le32, get_be16-be16, get_be32-be32, get_le16-le16,
  get_le32-le32, lookup, delete, lookup-delete, Result, ◌>>=◌, bind-eq-ok, Result-cases, OnOk,
  OnOk-bind, ℤ, int32, ℕ, zero, suc, ◌+◌, ◌-◌, ◌*◌, ◌/◌, ◌%◌, ◌^◌, ◌≤◌, ◌<◌, min, max, ◌≡◌, refl,
  sym, ap, subst, ◌∙◌, ◌≢◌, ◌↔◌, ◌⊎◌, inl, inr, Bool, true, false, not, ◌&&◌, ◌||◌, Option, none,
  some, List, [], ◌∷◌, ◌++◌, map, append-nil, append_assoc, arith, ok, err, pos, negsuc,
}
use Prim.Native.Nat.{bit_or}
use sinty_nm.Net.{cidr_mask, mask_size}
use sinty_nm.Rtnl.Order.{ByteOrder, put32}
use sinty_nm.Rtnl.Wire.{append_attr, append_attr_u32, ip_family}

-- The error of AddAddr, by its text.
pub data Error : Type 0 where
  invalid_address : Error

abbrev pub af_unspec : ℕ
af_unspec = 0

abbrev pub af_inet : ℕ
af_inet = 2

-- ifInfomsg
unfoldable pub if_infomsg : ByteOrder → ℕ → ℕ → ℕ → ℕ → Bytes
if_infomsg o family index flags change =
    let b0 = copy_at 4 (put32 o (index % 2 ^ 32)) (copy_at 0 (family ∷ []) (zeros 16)) in
    copy_at 12 (put32 o change) (copy_at 8 (put32 o flags) b0)

-- ifAddrmsg
unfoldable pub if_addrmsg : ByteOrder → ℕ → ℕ → ℕ → Bytes
if_addrmsg o family prefix_len index =
    copy_at 4 (put32 o (index % 2 ^ 32)) (copy_at 0 (family ∷ prefix_len % 256 ∷ []) (zeros 8))

-- rtMsg: the main table (254), RTPROT_BOOT (3) and a unicast route (1).
unfoldable pub rt_msg : ℕ → ℕ → ℕ → Bytes
rt_msg family dst_len scope =
    copy_at 4 (254 ∷ 3 ∷ scope ∷ 1 ∷ []) (copy_at 0 (family % 256 ∷ dst_len % 256 ∷ []) (zeros 12))

-- SetUp
unfoldable pub set_up : ByteOrder → ℕ → Bool → Bytes
set_up o index up = if_infomsg o af_unspec index (if up then 1 else 0) 1

-- SetMTU
unfoldable pub set_mtu : ByteOrder → ℕ → ℕ → Bytes
set_mtu o index mtu = append_attr_u32 o (if_infomsg o af_unspec index 0 0) 4 (mtu % 2 ^ 32)

-- AddAddr: the directed broadcast address, byte by byte.
unfoldable pub broadcast_address : Bytes → Bytes → Bytes
broadcast_address (r ∷ raw) (m ∷ mask) = bit_or r (255 - m) ∷ broadcast_address raw mask
broadcast_address _ _ = []

-- AddAddr: the payload for a family and the bytes of an address, an error without them.
unfoldable pub address_request : ByteOrder → ℕ → ℕ → ℕ × Option Bytes → Result Error Bytes
address_request o index prefix_len (fam, none) = err invalid_address
address_request o index prefix_len (fam, some raw) =
    let p0 = if_addrmsg o (fam % 256) prefix_len index in
    let p2 = append_attr o (append_attr o p0 2 raw) 1 raw in
    let bcast = broadcast_address raw (cidr_mask prefix_len 4) in
    ok (if fam == af_inet && ltb prefix_len 31 then append_attr o p2 4 bcast else p2)

-- AddAddr
unfoldable pub add_addr : ByteOrder → ℕ → Bytes → ℕ → Result Error Bytes
add_addr o index ip prefix_len = address_request o index prefix_len (ip_family ip)
