-- ===== src/Rtnl/Order.antt =====
-- internal/backend/rtnl/rtnl.go, `hostOrder`: the byte order of the machine, either of the two.
use sinty_nm.Base.{
  length, drop, Bytes, be16, be32, get_be16, get_be32, le16, le32, get_le16, get_le32,
  get_be16-be16, get_be32-be32, get_le16-le16, get_le32-le32, ℕ, ◌^◌, ◌<◌, ◌≡◌, refl, ◌++◌,
}

pub data ByteOrder : Type 0 where
  little_endian big_endian : ByteOrder

-- `PutUint16`, `PutUint32`, `Uint16` and `Uint32` of an order.
unfoldable pub put16 : ByteOrder → ℕ → Bytes
put16 little_endian v = le16 v
put16 big_endian v = be16 v

unfoldable pub put32 : ByteOrder → ℕ → Bytes
put32 little_endian v = le32 v
put32 big_endian v = be32 v

unfoldable pub uint16 : ByteOrder → Bytes → ℕ
uint16 little_endian b = get_le16 b
uint16 big_endian b = get_be16 b

unfoldable pub uint32 : ByteOrder → Bytes → ℕ
uint32 little_endian b = get_le32 b
uint32 big_endian b = get_be32 b

pub uint16-put16 :
    (o : ByteOrder) (v : ℕ) (rest : Bytes) → v < 2 ^ 16 → uint16 o (put16 o v ++ rest) ≡ v
unfolding uint16 put16
uint16-put16 little_endian v rest h = get_le16-le16 v rest h
uint16-put16 big_endian v rest h = get_be16-be16 v rest h

pub uint32-put32 :
    (o : ByteOrder) (v : ℕ) (rest : Bytes) → v < 2 ^ 32 → uint32 o (put32 o v ++ rest) ≡ v
unfolding uint32 put32
uint32-put32 little_endian v rest h = get_le32-le32 v rest h
uint32-put32 big_endian v rest h = get_be32-be32 v rest h

pub length-put16 : (o : ByteOrder) (v : ℕ) → length (put16 o v) ≡ 2
unfolding put16
length-put16 little_endian v = refl
length-put16 big_endian v = refl

pub length-put32 : (o : ByteOrder) (v : ℕ) → length (put32 o v) ≡ 4
unfolding put32
length-put32 little_endian v = refl
length-put32 big_endian v = refl

-- The two bytes of a 16-bit field, and what stands behind it.
pub drop-put16 : (o : ByteOrder) (v : ℕ) (rest : Bytes) → drop 2 (put16 o v ++ rest) ≡ rest
unfolding put16
drop-put16 little_endian v rest = refl
drop-put16 big_endian v rest = refl
