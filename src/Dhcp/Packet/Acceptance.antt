-- ===== src/Dhcp/Packet/Acceptance.antt =====
-- internal/backend/dhcp/packet.go: what `parseReply` accepts, and what `toLease` makes of it.
use sinty_nm.Base.{
  ℕ, ◌/◌, ◌≤◌, ◌<◌, true, false, [], ◌∷◌, Option, none, some, ◌≡◌, refl, sym, ◌⊎◌, inl, inr, arith,
  ltb, ltb→lt, not_ltb→le, Bool-cases, Option-cases, length, take, drop, take-append-drop, All,
  Bytes, byte_at, get_be32, lookup, ok, err, bind-eq-ok,
}
use sinty_nm.Net.{ipv4, bytes_equal, mask_length, cidr_mask}
use sinty_nm.Net.Masks.{mask_length-cidr_mask, length-cidr_mask, mask_length-le}
use sinty_nm.Core.{Lease}
use sinty_nm.Dhcp.Packet.{
  opt_subnet_mask, opt_dns, magic_cookie, short_packet, bad_magic_cookie, Reply, parse_options,
  parse_reply, to_lease, lease_prefix, dns_servers, dns_of, lease_of,
}
use sinty_nm.Dhcp.Packet.Options.{StandsIn, parse_options-StandsIn}

-- The reply that an accepted packet holds.
abbrev decoded : Bytes → Reply
decoded b = record {
  xid = get_be32 (drop 4 b);
  yiaddr = some (ipv4 (byte_at b 16) (byte_at b 17) (byte_at b 18) (byte_at b 19));
  opts = parse_options (length b) (drop 240 b) [];
}

-- `parseReply` refuses a packet below 240 bytes, refuses a longer one without the cookie at 236, and
-- accepts every other; each option of an accepted packet stands in it as code, length and value.
pub parse_reply_cases :
    (b : Bytes)
    → ((length b < 240) × (parse_reply b ≡ err short_packet))
      ⊎ ((240 ≤ length b)
          × (bytes_equal (take 4 (drop 236 b)) magic_cookie ≡ false)
          × (parse_reply b ≡ err bad_magic_cookie))
      ⊎ ((240 ≤ length b)
          × (bytes_equal (take 4 (drop 236 b)) magic_cookie ≡ true)
          × ((r : Reply) × (parse_reply b ≡ ok r) × All (StandsIn b) r.opts))
unfolding parse_reply
parse_reply_cases b = elim (Bool-cases (ltb (length b) 240)) [
  | inl short ↦ inl (ltb→lt _ _ short, rw short)
  | inr long ↦ elim (Bool-cases (bytes_equal (take 4 (drop 236 b)) magic_cookie)) [
    | inr bad ↦ inr (inl (not_ltb→le _ _ long, bad, rw (long, bad)))
    | inl good ↦ inr (
        inr (
          not_ltb→le _ _ long,
          good,
          (
            decoded b,
            rw (long, good),
            parse_options-StandsIn (length b) b (take 240 b) (drop 240 b) []
                (sym (take-append-drop 240 b)) tt,
          ),
        ))
  ]
]

length-dns_servers : (v : Bytes) → length (dns_servers v) ≡ length v / 4
unfolding dns_servers
length-dns_servers [] = refl
length-dns_servers (a ∷ []) = omega arith
length-dns_servers (a ∷ b ∷ []) = omega arith
length-dns_servers (a ∷ b ∷ c ∷ []) = omega arith
length-dns_servers (a ∷ b ∷ c ∷ d ∷ v) = omega (arith, length-dns_servers v)

lease_prefix-le : (o : Option Bytes) (n : ℕ) → lease_prefix o ≡ ok n → n ≤ 32
unfolding lease_prefix
lease_prefix-le none n h = ground arith
lease_prefix-le (some m) n h = elim (Option-cases (mask_length m)) [
  | inl e ↦ ground arith
  | inr (k, e) ↦ ground (arith, mask_length-le m k e)
]

pub record LeaseSound (r : Reply) (l : Lease) : Type 0 where
  pub address : r.yiaddr ≡ some l.ip
  pub address_nonzero : bytes_equal l.ip (ipv4 0 0 0 0) ≡ false
  pub prefix_in_range : l.prefix_len ≤ 32
  pub prefix_is_mask :
      (n : ℕ) → n ≤ 32 → lookup opt_subnet_mask r.opts ≡ some (cidr_mask n 4) → l.prefix_len ≡ n
  pub servers : (v : Bytes) → lookup opt_dns r.opts ≡ some v → length l.dns ≡ length v / 4

lease_prefix-mask : (n : ℕ) {k : ℕ} → n ≤ 32 → lease_prefix (some (cidr_mask n 4)) ≡ ok k → k ≡ n
unfolding lease_prefix
lease_prefix-mask n le h = ground (arith, mask_length-cidr_mask n le, length-cidr_mask n 4)

-- The parts of a successful `toLease`.
to_lease_parts :
    (r : Reply) (l : Lease)
    → to_lease r ≡ ok l
    → (ip : Bytes) × (n : ℕ) × (r.yiaddr ≡ some ip)
      × (bytes_equal ip (ipv4 0 0 0 0) ≡ false)
      × (lease_prefix (lookup opt_subnet_mask r.opts) ≡ ok n)
      × (lease_of r ip n ≡ l)
unfolding to_lease
to_lease_parts r l h = elim (Option-cases r.yiaddr) [
  | inl e ↦ absurd (cc (rw (e, to_lease) at h))
  | inr (ip, e) ↦ elim (Bool-cases (bytes_equal ip (ipv4 0 0 0 0))) [
    | inl z ↦ absurd (cc (rw (e, z, to_lease) at h))
    | inr nz ↦
        let (n, p, q) =
          bind-eq-ok (lease_prefix (lookup opt_subnet_mask r.opts)) (λ n. ok (lease_of r ip n))
            (rw (e, nz, to_lease) at h) in
        (ip, n, e, nz, p, cc q)
  ]
]

-- A lease of `toLease` has the reply's address, which is not 0.0.0.0; its prefix length is at most 32,
-- and is `n` where option 1 is the mask of `n` ones; and it has a nameserver for each four bytes of
-- option 6.
pub to_lease_sound : (r : Reply) (l : Lease) → to_lease r ≡ ok l → LeaseSound r l
unfolding lease_of
to_lease_sound r l h =
    let (ip, n, address, nonzero, prefix, e) = to_lease_parts r l h in
    rw (← e) (record {
      address = address;
      address_nonzero = nonzero;
      prefix_in_range = lease_prefix-le (lookup opt_subnet_mask r.opts) n prefix;
      prefix_is_mask = λ k le m. lease_prefix-mask k le (rw m at prefix);
      servers = λ v s. rw s (unfold dns_of in length-dns_servers v);
    })
