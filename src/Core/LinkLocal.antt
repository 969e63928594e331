-- ===== src/Core/LinkLocal.antt =====
-- internal/core/linklocal.go: the IPv4 link-local fallback of a wired link.
use Prim.Native.Nat.{bit_xor}
use sinty_nm.Base.{ℕ, ◌+◌, ◌*◌, ◌/◌, ◌%◌, ◌^◌, ◌≤◌, ◌<◌, [], ◌∷◌, none, ◌≡◌, refl, arith, Bytes}
use sinty_nm.Net.{ipv4, to4_bytes, to4}
use sinty_nm.Core.{Lease}

-- hash/fnv's `New32a` and `Write`: FNV-1a with 32 bits, one byte at a time.
fnv_write : ℕ → Bytes → ℕ
fnv_write h [] = h
fnv_write h (b ∷ bs) = fnv_write (bit_xor h b * 16777619 % 2 ^ 32) bs

pub sum32 : Bytes → ℕ
unfolding fnv_write
sum32 mac = fnv_write 2166136261 mac

-- LinkLocalLease
unfoldable pub link_local_lease : Bytes → Lease
link_local_lease mac =
    let v = sum32 mac % (254 * 256) in
    record {
      ip = to4_bytes (ipv4 169 254 ((1 + v / 256) % 256) (v % 256 % 256));
      prefix_len = 16;
      gateway = none;
      dns = [];
      domains = [];
      server_id = none;
      lease_seconds = 0;
    }

-- For every MAC the address is in 169.254.0.0/16 and outside its first and last /24, and the lease
-- has prefix length 16, no gateway and no nameserver.
pub link_local_lease_usable :
    (mac : Bytes)
    → (c : ℕ) × (d : ℕ) × ((link_local_lease mac).ip ≡ 169 ∷ 254 ∷ c ∷ d ∷ [])
      × (1 ≤ c)
      × (c ≤ 254)
      × (d < 256)
      × ((link_local_lease mac).prefix_len ≡ 16)
      × ((link_local_lease mac).gateway ≡ none)
      × ((link_local_lease mac).dns ≡ [])
unfolding link_local_lease to4
link_local_lease_usable mac = (
  (1 + sum32 mac % (254 * 256) / 256) % 256,
  sum32 mac % (254 * 256) % 256 % 256,
  refl,
  omega arith,
  omega arith,
  omega arith,
  refl,
  refl,
  refl,
)
