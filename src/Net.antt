-- ===== src/Net.antt =====
-- Go's package net, as far as the program uses it: addresses and masks as byte slices.
-- `net.IP` has 4 or 16 bytes; an IPv4 address of 16 bytes carries the prefix of ::ffff:0:0/96.
-- A nil slice is `none` where the program tests for nil.
pub mod Masks
pub use sinty_nm.Base.Dict.{bytes_equal}
use sinty_nm.Base.{
  leb, ◌==◌, if◌then◌else◌, length, take, drop, Bytes, zeros, ℕ, zero, suc, ◌+◌, ◌-◌, ◌*◌, ◌/◌, ◌^◌,
  Bool, true, ◌&&◌, Option, none, some, [], ◌∷◌, ◌++◌,
}

-- net.IPNet, with its mask as ones and bits.
pub record IpNet : Type 0 where
  pub ip : Bytes
  pub ones : ℕ
  pub bits : ℕ

-- `net.IPv4(a, b, c, d)`
abbrev pub ipv4 : ℕ → ℕ → ℕ → ℕ → Bytes
ipv4 a b c d = zeros 10 ++ (255 ∷ 255 ∷ a ∷ b ∷ c ∷ d ∷ [])

-- `ip.To4()`
unfoldable pub to4 : Bytes → Option Bytes
to4 ip =
    if length ip == 4
    then some ip
    else if length ip == 16 && bytes_equal (take 12 ip) (zeros 10 ++ (255 ∷ 255 ∷ []))
    then some (drop 12 ip)
    else none

-- `ip.To4()` where nil is an empty slice.
abbrev pub to4_bytes : Bytes → Bytes
to4_bytes ip = elim (to4 ip) [ none ↦ [] | some b ↦ b ]

-- `ip.To16()`: nil exactly where the length is neither 4 nor 16.
unfoldable pub to16 : Bytes → Option Bytes
to16 ip =
    if length ip == 4
    then some (zeros 10 ++ (255 ∷ 255 ∷ ip))
    else if length ip == 16
    then some ip
    else none

-- The leading ones of a mask byte below 255, if nothing but zeros follows them.
abbrev pub byte_ones : ℕ → Option ℕ
byte_ones v =
    if v == 0
    then some 0
    else if v == 128
    then some 1
    else if v == 192
    then some 2
    else if v == 224
    then some 3
    else if v == 240
    then some 4
    else if v == 248
    then some 5
    else if v == 252
    then some 6
    else if v == 254
    then some 7
    else none

abbrev all_zero : Bytes → Bool
all_zero [] = true
all_zero (v ∷ m) = v == 0 && all_zero m

-- The length of a mask that is ones and then zeros, and `none` for any other.
unfoldable pub mask_length : Bytes → Option ℕ
mask_length [] = some 0
mask_length (v ∷ m) =
    let more : Option ℕ = elim (mask_length m) [ none ↦ none | some n ↦ some (8 + n) ] in
    if v == 255 then more else if all_zero m then byte_ones v else none

-- `mask.Size()`: ones and bits, both 0 for a mask that is not contiguous.
abbrev pub mask_size : Bytes → ℕ × ℕ
mask_size m = elim (mask_length m) [ none ↦ (0, 0) | some n ↦ (n, 8 * length m) ]

-- The bytes of `net.CIDRMask(ones, 8 * k)`, for `ones` at most `8 * k`.
unfoldable pub cidr_mask : ℕ → ℕ → Bytes
cidr_mask ones zero = []
cidr_mask ones (suc k) = (if leb 8 ones then 255 else 255 - 255 / 2 ^ ones) ∷ cidr_mask (ones - 8) k
