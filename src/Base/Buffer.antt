-- ===== src/Base/Buffer.antt =====
-- Byte buffers as lists of numbers, and the integer codings of encoding/binary.
use Prim.Native.Nat.{ℕ, zero, suc, ◌+◌, ◌*◌, ◌/◌, ◌%◌, ◌^◌, ◌<◌}
use mathlib.Core.Path.{◌≡◌}
use mathlib.Core.List.{List, [], ◌∷◌, ◌++◌}
use native.Mathlib.Omega.{arith}
use sinty_nm.Base.Lists.{get_or, replicate}

abbrev pub Bytes : Type 0
Bytes = List ℕ

abbrev pub IsByte : ℕ → Type 0
IsByte b = b < 256

abbrev pub zeros : ℕ → Bytes
zeros n = replicate n 0

-- `b[i]`, read only where `i` is in range.
abbrev pub byte_at : Bytes → ℕ → ℕ
byte_at b i = get_or b i 0

-- `copy(dst[i:], src)`: what does not fit is left out.
abbrev pub copy_at : ℕ → Bytes → Bytes → Bytes
copy_at zero [] dst = dst
copy_at zero (s ∷ src) [] = []
copy_at zero (s ∷ src) (d ∷ dst) = s ∷ copy_at zero src dst
copy_at (suc i) src [] = []
copy_at (suc i) src (d ∷ dst) = d ∷ copy_at i src dst

-- `binary.BigEndian.PutUint16` and `PutUint32` as the bytes that they write, and the readers.
abbrev pub be16 : ℕ → Bytes
be16 v = (v / 256 % 256) ∷ (v % 256) ∷ []

abbrev pub be32 : ℕ → Bytes
be32 v = (v / 16777216 % 256) ∷ (v / 65536 % 256) ∷ (v / 256 % 256) ∷ (v % 256) ∷ []

abbrev pub get_be16 : Bytes → ℕ
get_be16 b = byte_at b 0 * 256 + byte_at b 1

abbrev pub get_be32 : Bytes → ℕ
get_be32 b = byte_at b 0 * 16777216 + byte_at b 1 * 65536 + byte_at b 2 * 256 + byte_at b 3

-- The same in little-endian order.
abbrev pub le16 : ℕ → Bytes
le16 v = (v % 256) ∷ (v / 256 % 256) ∷ []

abbrev pub le32 : ℕ → Bytes
le32 v = (v % 256) ∷ (v / 256 % 256) ∷ (v / 65536 % 256) ∷ (v / 16777216 % 256) ∷ []

abbrev pub get_le16 : Bytes → ℕ
get_le16 b = byte_at b 0 + byte_at b 1 * 256

abbrev pub get_le32 : Bytes → ℕ
get_le32 b = byte_at b 0 + byte_at b 1 * 256 + byte_at b 2 * 65536 + byte_at b 3 * 16777216

pub get_be16-be16 : (v : ℕ) (rest : Bytes) → v < 2 ^ 16 → get_be16 (be16 v ++ rest) ≡ v
get_be16-be16 v rest h = omega arith

pub get_be32-be32 : (v : ℕ) (rest : Bytes) → v < 2 ^ 32 → get_be32 (be32 v ++ rest) ≡ v
get_be32-be32 v rest h = omega arith

pub get_le16-le16 : (v : ℕ) (rest : Bytes) → v < 2 ^ 16 → get_le16 (le16 v ++ rest) ≡ v
get_le16-le16 v rest h = omega arith

pub get_le32-le32 : (v : ℕ) (rest : Bytes) → v < 2 ^ 32 → get_le32 (le32 v ++ rest) ≡ v
get_le32-le32 v rest h = omega arith
