-- ===== src/Dhcp/Frame/Decoding.antt =====
-- internal/backend/dhcp/socket.go, `decodeIPUDP`: what a packet is that it takes.
use sinty_nm.Base.{
  if◌then◌else◌, ltb, ◌==◌, not, ◌||◌, length, take, drop, Bytes, byte_at, get_be16, ℕ, ◌+◌, ◌*◌,
  ◌/◌, ◌%◌, ◌≤◌, ◌≡◌, refl, sym, Bool, true, false, Option, none, some, arith,
}
use sinty_nm.Dhcp.Frame.{decode_udp, decode_ip_udp}

-- The packet is an IPv4 packet that carries a UDP datagram from port 67 to port 68, and the payload is
-- that of the datagram: what lies behind the header of `ihl` words, up to the packet's total length.
pub record IsDatagram (pkt payload : Bytes) : Type 0 where
  pub ihl : ℕ
  pub udp : Bytes
  pub version : byte_at pkt 0 / 16 ≡ 4
  pub header : ihl ≡ byte_at pkt 0 % 16 * 4
  pub protocol : byte_at pkt 9 ≡ 17
  pub behind : udp ≡ drop ihl (take (get_be16 (drop 2 pkt)) pkt)
  pub complete : get_be16 (drop 2 pkt) ≤ length pkt
  pub source_port : get_be16 udp ≡ 67
  pub dest_port : get_be16 (drop 2 udp) ≡ 68
  pub carried : payload ≡ drop 8 (take (get_be16 (drop 4 udp)) udp)
  pub whole : get_be16 (drop 4 udp) ≤ length udp

-- Tests that let something through.
unless_ok :
    (b : Bool) (o : Option Bytes) (x : Bytes)
    → (if b then none else o) ≡ some x
    → (b ≡ false) × (o ≡ some x)
unless_ok true o x h = absurd (cc h)
unless_ok false o x h = (refl, h)

decode_udp-ports :
    (udp payload : Bytes)
    → decode_udp udp ≡ some payload
    → (get_be16 udp ≡ 67)
      × (get_be16 (drop 2 udp) ≡ 68)
      × (payload ≡ drop 8 (take (get_be16 (drop 4 udp)) udp))
      × (get_be16 (drop 4 udp) ≤ length udp)
unfolding decode_udp
decode_udp-ports udp payload h =
    let (dest, h1) = unless_ok (not (get_be16 (drop 2 udp) == 68)) _ payload h in
    let (source, h2) = unless_ok (not (get_be16 udp == 67)) _ payload h1 in
    let ulen = get_be16 (drop 4 udp) in
    let (size, h3) = unless_ok (ltb ulen 8 || ltb (length udp) ulen) _ payload h2 in
    (ground (arith, source), ground (arith, dest), sym (cc h3), ground (arith, size))

pub decode_ip_udp-IsDatagram :
    (pkt payload : Bytes) → decode_ip_udp pkt ≡ some payload → IsDatagram pkt payload
unfolding decode_ip_udp
decode_ip_udp-IsDatagram pkt payload h =
    let ihl = byte_at pkt 0 % 16 * 4 in
    let total = get_be16 (drop 2 pkt) in
    let (long, h1) = unless_ok (ltb (length pkt) 20) _ payload h in
    let (v4, h2) = unless_ok (not (byte_at pkt 0 / 16 == 4)) _ payload h1 in
    let (room, h3) = unless_ok (ltb ihl 20 || ltb (length pkt) (ihl + 8)) _ payload h2 in
    let (proto, h4) = unless_ok (not (byte_at pkt 9 == 17)) _ payload h3 in
    let (size, h5) = unless_ok (ltb (length pkt) total || ltb total (ihl + 8)) _ payload h4 in
    let udp = drop ihl (take (get_be16 (drop 2 pkt)) pkt) in
    let (source, dest, carried, whole) = decode_udp-ports udp payload h5 in
    record {
      ihl = ihl;
      udp = udp;
      version = ground (arith, v4);
      header = refl;
      protocol = ground (arith, proto);
      behind = refl;
      complete = ground (arith, size);
      source_port = source;
      dest_port = dest;
      carried = carried;
      whole = whole;
    }
