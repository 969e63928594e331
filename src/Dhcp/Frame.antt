-- ===== src/Dhcp/Frame.antt =====
-- internal/backend/dhcp/socket.go: the IPv4 and UDP framing of the raw socket.
-- A slice of a buffer is a part of the list; `pkt[ipHdrLen:]` is written back behind the header.
pub mod Checksum
pub mod RoundTrip
pub mod Decoding
use sinty_nm.Base.{
  ltb, ◌==◌, if◌then◌else◌, length, take, drop, Bytes, zeros, byte_at, copy_at, be16, get_be16, ℕ,
  zero, suc, ◌+◌, ◌-◌, ◌*◌, ◌/◌, ◌%◌, ◌^◌, not, ◌||◌, Option, none, some, [], ◌∷◌, ◌++◌,
}
use sinty_nm.Net.{to4_bytes}

abbrev pub ip_hdr_len : ℕ
ip_hdr_len = 20

abbrev pub udp_hdr_len : ℕ
udp_hdr_len = 8

abbrev pub client_port : ℕ
client_port = 68

abbrev pub server_port : ℕ
server_port = 67

-- syscall.IPPROTO_UDP
abbrev pub ipproto_udp : ℕ
ipproto_udp = 17

-- checksum: the loop over the words; an odd last byte is the high half of a word.
unfoldable pub sum_words : ℕ → Bytes → ℕ
sum_words sum [] = sum
sum_words sum (b ∷ []) = (sum + b * 256) % 2 ^ 32
sum_words sum (b ∷ c ∷ bs) = sum_words ((sum + (b * 256 + c)) % 2 ^ 32) bs

-- checksum: `for sum>>16 != 0`, with fuel for the rounds.
unfoldable pub fold_carries : ℕ → ℕ → ℕ
fold_carries zero sum = sum
fold_carries (suc f) sum =
    let rest = fold_carries f ((sum % 2 ^ 16 + sum / 2 ^ 16) % 2 ^ 32) in
    if sum / 2 ^ 16 == 0 then sum else rest

-- Two rounds are enough for any 32-bit sum, and the third makes the last test.
abbrev pub fold_fuel : ℕ
fold_fuel = 3

-- checksum
unfoldable pub checksum : Bytes → ℕ
unfolding sum_words fold_carries
checksum b = 65535 - fold_carries fold_fuel (sum_words 0 b) % 2 ^ 16

-- udpChecksum
unfoldable pub udp_checksum : Bytes → Bytes → Bytes → ℕ
udp_checksum src dst udp =
    let p0 = zeros (12 + length udp) in
    let p1 = copy_at 4 (take 4 dst) (copy_at 0 (take 4 src) p0) in
    let p2 = copy_at 10 (be16 (length udp % 2 ^ 16)) (copy_at 9 (ipproto_udp ∷ []) p1) in
    let c = checksum (copy_at 12 udp p2) in if c == 0 then 65535 else c

-- encodeIPUDP: the IPv4 header without its checksum, in a buffer of `total` bytes.
unfoldable pub ip_header : Bytes → Bytes → ℕ → Bytes
ip_header src4 dst4 total =
    let p0 = copy_at 0 (0x45 ∷ []) (zeros total) in
    let p1 = copy_at 8 (64 ∷ ipproto_udp ∷ []) (copy_at 2 (be16 (total % 2 ^ 16)) p0) in
    copy_at 16 (take 4 dst4) (copy_at 12 (take 4 src4) p1)

-- encodeIPUDP: `pkt[10:12]` is the checksum of the first 20 bytes.
unfoldable pub seal_header : Bytes → Bytes
seal_header pkt = copy_at 10 (be16 (checksum (take ip_hdr_len pkt))) pkt

-- encodeIPUDP: the UDP datagram without its checksum.
unfoldable pub udp_datagram : ℕ → ℕ → ℕ → Bytes → Bytes → Bytes
udp_datagram src_port dst_port udp_len payload udp =
    let u0 = copy_at 2 (be16 dst_port) (copy_at 0 (be16 src_port) udp) in
    copy_at udp_hdr_len payload (copy_at 4 (be16 (udp_len % 2 ^ 16)) u0)

-- encodeIPUDP, between two addresses of four bytes.
unfoldable pub frame_ip_udp : Bytes → Bytes → ℕ → ℕ → Bytes → Bytes
frame_ip_udp src4 dst4 src_port dst_port payload =
    let udp_len = udp_hdr_len + length payload in
    let pkt = seal_header (ip_header src4 dst4 (ip_hdr_len + udp_len)) in
    let udp = udp_datagram src_port dst_port udp_len payload (drop ip_hdr_len pkt) in
    take ip_hdr_len pkt ++ copy_at 6 (be16 (udp_checksum src4 dst4 udp)) udp

-- encodeIPUDP
abbrev pub encode_ip_udp : Bytes → Bytes → ℕ → ℕ → Bytes → Bytes
encode_ip_udp src dst = frame_ip_udp (to4_bytes src) (to4_bytes dst)

-- decodeIPUDP: the checks on the UDP part; nil is `none`.
decode_udp : Bytes → Option Bytes
decode_udp udp =
    let ulen = get_be16 (drop 4 udp) in
    if not (get_be16 (drop 2 udp) == client_port)
    then none
    else if not (get_be16 udp == server_port)
    then none
    else if ltb ulen udp_hdr_len || ltb (length udp) ulen
    then none
    else some (drop udp_hdr_len (take ulen udp))

-- decodeIPUDP
unfoldable pub decode_ip_udp : Bytes → Option Bytes
unfolding decode_udp
decode_ip_udp pkt =
    let ihl = byte_at pkt 0 % 16 * 4 in
    let total = get_be16 (drop 2 pkt) in
    if ltb (length pkt) ip_hdr_len
    then none
    else if not (byte_at pkt 0 / 16 == 4)
    then none
    else if ltb ihl ip_hdr_len || ltb (length pkt) (ihl + udp_hdr_len)
    then none
    else if not (byte_at pkt 9 == ipproto_udp)
    then none
    else if ltb (length pkt) total || ltb total (ihl + udp_hdr_len)
    then none
    else decode_udp (drop ihl (take total pkt))
