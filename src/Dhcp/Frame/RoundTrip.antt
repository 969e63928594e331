-- ===== src/Dhcp/Frame/RoundTrip.antt =====
-- internal/backend/dhcp/socket.go: `decodeIPUDP` reads back what `encodeIPUDP` frames, for the ports
-- of a server's reply only, and the IP header carries a checksum that verifies.
use sinty_nm.Base.{
  ltb, ◌==◌, if◌then◌else◌, le→not_ltb, length, take, drop, All, take_all, length-replicate,
  All-append, Bytes, IsByte, zeros, be16, get_be16, ℕ, zero, suc, ◌+◌, ◌%◌, ◌^◌, ◌≤◌, ◌<◌, ◌≡◌,
  refl, sym, ap, ◌∙◌, false, ◌&&◌, none, some, [], ◌∷◌, ◌++◌, arith,
}
use sinty_nm.Base.Window.{copy_at_whole}
use sinty_nm.Net.{to4_bytes}
use sinty_nm.Dhcp.Frame.Checksum.{checksum_verifies}
use sinty_nm.Dhcp.Frame.{
  ip_hdr_len, udp_hdr_len, client_port, server_port, checksum, udp_checksum, ip_header, seal_header,
  udp_datagram, frame_ip_udp, encode_ip_udp, decode_udp, decode_ip_udp,
}

replicate-add : (m n : ℕ) → zeros (m + n) ≡ zeros m ++ zeros n
replicate-add zero n = let e : 0 + n ≡ n = omega arith in rw e
replicate-add (suc m) n =
    let e : suc m + n ≡ suc (m + n) = omega arith in rw e (ap (◌∷◌ 0) (replicate-add m n))

-- Four bytes, taken apart.
abbrev IsFour : Bytes → Type 0
IsFour v = (a : ℕ) × (b : ℕ) × (c : ℕ) × (d : ℕ) × (v ≡ a ∷ b ∷ c ∷ d ∷ [])

quad_parts : (v : Bytes) → length v ≡ 4 → IsFour v
quad_parts [] h = absurd (omega arith)
quad_parts (a ∷ []) h = absurd (omega arith)
quad_parts (a ∷ b ∷ []) h = absurd (omega arith)
quad_parts (a ∷ b ∷ c ∷ []) h = absurd (omega arith)
quad_parts (a ∷ b ∷ c ∷ d ∷ []) h = (a, b, c, d, refl)
quad_parts (a ∷ b ∷ c ∷ d ∷ e ∷ v) h = absurd (omega arith)

buffer_split : (n : ℕ) → zeros (ip_hdr_len + (udp_hdr_len + n)) ≡ zeros 28 ++ zeros n
buffer_split n = let e : 20 + (8 + n) ≡ 28 + n = omega arith in rw e (replicate-add 28 n)

-- The IPv4 header of a packet of `total` bytes that carries checksum `c`.
abbrev sealed : Bytes → Bytes → ℕ → ℕ → Bytes
sealed s d total c =
    0x45 ∷ 0 ∷ (be16 (total % 2 ^ 16) ++ 0 ∷ 0 ∷ 0 ∷ 0 ∷ 64 ∷ 17 ∷ (be16 c ++ (s ++ d)))

abbrev datagram : ℕ → ℕ → ℕ → Bytes → Bytes
datagram sp dp c payload =
    be16 sp ++ (be16 dp ++ (be16 ((8 + length payload) % 2 ^ 16) ++ (be16 c ++ payload)))

sealed_header :
    (a b c e p q r t n : ℕ)
    → let total = ip_hdr_len + (udp_hdr_len + n) in
      let s = a ∷ b ∷ c ∷ e ∷ [] in
      let d = p ∷ q ∷ r ∷ t ∷ [] in
      seal_header (ip_header s d total)
      ≡ sealed s d total (checksum (sealed s d total 0)) ++ (zeros 8 ++ zeros n)
unfolding ip_header seal_header
sealed_header a b c e p q r t n = rw (buffer_split n)

filled_datagram :
    (sp dp : ℕ) (payload : Bytes)
    → udp_datagram sp dp (udp_hdr_len + length payload) payload (zeros 8 ++ zeros (length payload))
      ≡ datagram sp dp 0 payload
unfolding udp_datagram
filled_datagram sp dp payload =
    rw (copy_at_whole payload (zeros (length payload)) (sym (length-replicate (length payload) 0)))

framed :
    (a b c e p q r t sp dp : ℕ) (payload : Bytes)
    → let total = ip_hdr_len + (udp_hdr_len + length payload) in
      let s = a ∷ b ∷ c ∷ e ∷ [] in
      let d = p ∷ q ∷ r ∷ t ∷ [] in
      frame_ip_udp s d sp dp payload
      ≡ sealed s d total (checksum (sealed s d total 0))
        ++ datagram sp dp (udp_checksum s d (datagram sp dp 0 payload)) payload
unfolding frame_ip_udp
framed a b c e p q r t sp dp payload =
    rw (sealed_header a b c e p q r t (length payload)) (rw (filled_datagram sp dp payload))

-- The packet that is framed between two addresses of four bytes, written out.
pub frame_ip_udp_lem :
    (s d : Bytes) (sp dp : ℕ) (payload : Bytes)
    → length s ≡ 4
    → length d ≡ 4
    → let total = ip_hdr_len + (udp_hdr_len + length payload) in
      frame_ip_udp s d sp dp payload
      ≡ sealed s d total (checksum (sealed s d total 0))
        ++ datagram sp dp (udp_checksum s d (datagram sp dp 0 payload)) payload
frame_ip_udp_lem s d sp dp payload hs hd =
    let (a, b, c, e, es) = quad_parts s hs in
    let (p, q, r, t, ed) = quad_parts d hd in rw (es, ed) (framed a b c e p q r t sp dp payload)

-- The checks on the ports and the length of a datagram.
decode_udp-datagram :
    (sp dp c : ℕ) (payload : Bytes)
    → sp < 2 ^ 16
    → dp < 2 ^ 16
    → 8 + length payload < 2 ^ 16
    → decode_udp (datagram sp dp c payload)
      ≡ (if dp == client_port && sp == server_port then some payload else none)
unfolding decode_udp
decode_udp-datagram sp dp c payload hs hd hl =
    let u = datagram sp dp c payload in
    let dst : get_be16 (drop 2 u) ≡ dp = omega arith in
    let src : get_be16 u ≡ sp = omega arith in
    let len : get_be16 (drop 4 u) ≡ 8 + length payload = omega arith in
    let all : take (8 + length payload) u ≡ u = take_all (8 + length payload) u (omega arith) in
    rw (dst, src, len, all) (ground arith)

-- The checks of `decodeIPUDP` on the IP header pass, and the datagram is what is left.
decode_ip_udp-framed :
    (a b c e p q r t k : ℕ) (udp : Bytes)
    → 8 ≤ length udp
    → 20 + length udp < 2 ^ 16
    → decode_ip_udp (sealed (a ∷ b ∷ c ∷ e ∷ []) (p ∷ q ∷ r ∷ t ∷ []) (20 + length udp) k ++ udp)
      ≡ decode_udp udp
unfolding decode_ip_udp
decode_ip_udp-framed a b c e p q r t k udp h8 h =
    let pkt = sealed (a ∷ b ∷ c ∷ e ∷ []) (p ∷ q ∷ r ∷ t ∷ []) (20 + length udp) k ++ udp in
    let total : get_be16 (drop 2 pkt) ≡ 20 + length udp = omega arith in
    let all : take (20 + length udp) pkt ≡ pkt = take_all (20 + length udp) pkt (omega arith) in
    let long : ltb (length pkt) 20 ≡ false = le→not_ltb _ _ (omega arith) in
    let room : ltb (length pkt) 28 ≡ false = le→not_ltb _ _ (omega arith) in
    let fits : ltb (length pkt) (20 + length udp) ≡ false = le→not_ltb _ _ (omega arith) in
    let enough : ltb (20 + length udp) 28 ≡ false = le→not_ltb _ _ (omega arith) in
    rw (total, all, long, room, fits, enough)

decode_ip_udp-frame_ip_udp :
    (s d : Bytes) (sp dp : ℕ) (payload : Bytes)
    → length s ≡ 4
    → length d ≡ 4
    → sp < 2 ^ 16
    → dp < 2 ^ 16
    → length payload ≤ 65507
    → decode_ip_udp (frame_ip_udp s d sp dp payload)
      ≡ (if dp == client_port && sp == server_port then some payload else none)
decode_ip_udp-frame_ip_udp s d sp dp payload hs hd s16 d16 hl =
    let (a, b, c, e, es) = quad_parts s hs in
    let (p, q, r, t, ed) = quad_parts d hd in
    let k = udp_checksum (a ∷ b ∷ c ∷ e ∷ []) (p ∷ q ∷ r ∷ t ∷ []) (datagram sp dp 0 payload) in
    let udp = datagram sp dp k payload in
    let size : ip_hdr_len + (udp_hdr_len + length payload) ≡ 20 + length udp = omega arith in
    rw (es, ed, framed a b c e p q r t sp dp payload, size)
      (decode_ip_udp-framed a b c e p q r t _ udp (omega arith) (omega arith)
        ∙ decode_udp-datagram sp dp k payload s16 d16 (omega arith))

-- Between IPv4 addresses and 16-bit ports, and with at most 65507 bytes of payload, the packet that
-- `encodeIPUDP` builds is decoded to the payload if it goes from port 67 to port 68, and is refused
-- if it does not: the client takes a server's messages and never its own.
pub decode_ip_udp-encode_ip_udp :
    (src dst : Bytes) (sp dp : ℕ) (payload : Bytes)
    → length (to4_bytes src) ≡ 4
    → length (to4_bytes dst) ≡ 4
    → sp < 2 ^ 16
    → dp < 2 ^ 16
    → length payload ≤ 65507
    → decode_ip_udp (encode_ip_udp src dst sp dp payload)
      ≡ (if dp == client_port && sp == server_port then some payload else none)
decode_ip_udp-encode_ip_udp src dst sp dp payload hs hd s16 d16 hl =
    decode_ip_udp-frame_ip_udp (to4_bytes src) (to4_bytes dst) sp dp payload hs hd s16 d16 hl

-- The IP header without its checksum field.
abbrev before_checksum : ℕ → Bytes
before_checksum total = 0x45 ∷ 0 ∷ (be16 (total % 2 ^ 16) ++ 0 ∷ 0 ∷ 0 ∷ 0 ∷ 64 ∷ 17 ∷ [])

header-IsByte :
    (s d : Bytes) (total : ℕ)
    → All IsByte s
    → All IsByte d
    → All IsByte (before_checksum total ++ 0 ∷ 0 ∷ (s ++ d))
header-IsByte s d total bs bd =
    All-append IsByte (before_checksum total) (0 ∷ 0 ∷ (s ++ d)) (omega arith)
      (omega arith, (omega arith, All-append IsByte s d bs bd))

frame_ip_udp_verifies :
    (s d : Bytes) (sp dp : ℕ) (payload : Bytes)
    → length s ≡ 4
    → length d ≡ 4
    → All IsByte s
    → All IsByte d
    → checksum (take ip_hdr_len (frame_ip_udp s d sp dp payload)) ≡ 0
frame_ip_udp_verifies s d sp dp payload hs hd bs bd =
    let total = ip_hdr_len + (udp_hdr_len + length payload) in
    let (a, b, c, e, es) = quad_parts s hs in
    let (p, q, r, t, ed) = quad_parts d hd in
    let bytes =
      header-IsByte (a ∷ b ∷ c ∷ e ∷ []) (p ∷ q ∷ r ∷ t ∷ []) total (rw es at bs) (rw ed at bd) in
    rw (es, ed, framed a b c e p q r t sp dp payload)
      (checksum_verifies (before_checksum total) (a ∷ b ∷ c ∷ e ∷ p ∷ q ∷ r ∷ t ∷ []) (omega arith)
        (omega arith) bytes)

-- Between IPv4 addresses, the IP header of the packet that `encodeIPUDP` builds, its first 20 bytes,
-- has checksum 0 with its checksum field in place, as a receiver demands.
pub encode_ip_udp_verifies :
    (src dst : Bytes) (sp dp : ℕ) (payload : Bytes)
    → length (to4_bytes src) ≡ 4
    → length (to4_bytes dst) ≡ 4
    → All IsByte (to4_bytes src)
    → All IsByte (to4_bytes dst)
    → checksum (take ip_hdr_len (encode_ip_udp src dst sp dp payload)) ≡ 0
encode_ip_udp_verifies src dst sp dp payload hs hd bs bd =
    frame_ip_udp_verifies (to4_bytes src) (to4_bytes dst) sp dp payload hs hd bs bd

-- The packet is 28 bytes longer than its payload.
pub length-encode_ip_udp :
    (src dst : Bytes) (sp dp : ℕ) (payload : Bytes)
    → length (to4_bytes src) ≡ 4
    → length (to4_bytes dst) ≡ 4
    → length (encode_ip_udp src dst sp dp payload) ≡ 28 + length payload
length-encode_ip_udp src dst sp dp payload hs hd =
    let (a, b, c, e, es) = quad_parts (to4_bytes src) hs in
    let (p, q, r, t, ed) = quad_parts (to4_bytes dst) hd in
    rw (es, ed, framed a b c e p q r t sp dp payload) (omega arith)
