-- ===== src/Dhcp/Packet.antt =====
-- internal/backend/dhcp/packet.go: DHCP messages. `buildMsg` writes into a zeroed buffer by offset,
-- as the source does; `parseReply` walks the options by the bytes that are left, on fuel.
pub mod Options
pub mod RoundTrip
pub mod Acceptance
use sinty_nm.Base.{
  ℕ, zero, suc, not, ◌&&◌, ◌||◌, List, [], ◌∷◌, ◌++◌, Option, none, some, ◌==◌, ltb, if◌then◌else◌,
  length, take, drop, Bytes, zeros, byte_at, copy_at, be16, be32, get_be32, lookup, Result, ok, err,
  ◌>>=◌,
}
use sinty_nm.Net.{ipv4, to4_bytes, bytes_equal, mask_size}
use sinty_nm.Core.{Lease}

-- The message types and option codes.
abbrev pub msg_discover : ℕ
msg_discover = 1

abbrev pub msg_offer : ℕ
msg_offer = 2

abbrev pub msg_request : ℕ
msg_request = 3

abbrev pub msg_ack : ℕ
msg_ack = 5

abbrev pub msg_nak : ℕ
msg_nak = 6

abbrev pub msg_release : ℕ
msg_release = 7

abbrev pub opt_subnet_mask : ℕ
opt_subnet_mask = 1

abbrev pub opt_router : ℕ
opt_router = 3

abbrev pub opt_dns : ℕ
opt_dns = 6

abbrev pub opt_domain : ℕ
opt_domain = 15

abbrev pub opt_requested_ip : ℕ
opt_requested_ip = 50

abbrev pub opt_lease_time : ℕ
opt_lease_time = 51

abbrev pub opt_msg_type : ℕ
opt_msg_type = 53

abbrev pub opt_server_id : ℕ
opt_server_id = 54

abbrev pub opt_param_list : ℕ
opt_param_list = 55

abbrev pub opt_client_id : ℕ
opt_client_id = 61

abbrev pub opt_end : ℕ
opt_end = 255

-- magicCookie
abbrev pub magic_cookie : Bytes
magic_cookie = 0x63 ∷ 0x82 ∷ 0x53 ∷ 0x63 ∷ []

-- The errors of this file, by their texts.
pub data Error : Type 0 where
  short_packet bad_magic_cookie no_yiaddr non_contiguous_mask : Error

-- buildMsg: the header up to the transaction id.
open_header : ℕ → Bytes
open_header xid = copy_at 4 (be32 xid) (copy_at 0 (1 ∷ 1 ∷ 6 ∷ []) (zeros 240))

-- buildMsg: ciaddr of a release.
release_header : Option Bytes → Bytes → Bytes
release_header none h = h
release_header (some ip) h = copy_at 12 (take 4 (to4_bytes ip)) h

-- buildMsg: the writes into the header, up to `copy(buf[236:240], magicCookie[:])`.
build_header : ℕ → ℕ → Bytes → Option Bytes → Bytes
build_header mtype xid mac req_ip =
    let opened = open_header xid in
    let flagged =
      if not (mtype == msg_release)
      then copy_at 10 (be16 0x8000) opened
      else release_header req_ip opened in
    copy_at 236 magic_cookie (copy_at 28 (take 6 mac) flagged)

-- buildMsg: option 50, for a request that names an address.
append_requested_ip : ℕ → Option Bytes → Bytes → Bytes
append_requested_ip mtype none o = o
append_requested_ip mtype (some ip) o =
    if mtype == msg_request then (o ++ opt_requested_ip ∷ 4 ∷ []) ++ to4_bytes ip else o

-- buildMsg: option 54.
append_server_id : Option Bytes → Bytes → Bytes
append_server_id none o = o
append_server_id (some ip) o = (o ++ opt_server_id ∷ 4 ∷ []) ++ to4_bytes ip

abbrev requested_params : Bytes
requested_params = opt_subnet_mask ∷ opt_router ∷ opt_dns ∷ opt_domain ∷ 28 ∷ opt_lease_time ∷ []

-- buildMsg: the options that are appended, in order.
build_options : ℕ → Bytes → Option Bytes → Option Bytes → Bytes
build_options mtype mac req_ip server_id =
    let o1 = opt_msg_type ∷ 1 ∷ mtype ∷ [] in
    let o2 = (o1 ++ opt_client_id ∷ 7 ∷ 1 ∷ []) ++ mac in
    let o3 = append_server_id server_id (append_requested_ip mtype req_ip o2) in
    let o4 =
      if mtype == msg_discover || mtype == msg_request
      then o3 ++ opt_param_list ∷ 6 ∷ requested_params
      else o3 in
    o4 ++ opt_end ∷ []

-- buildMsg
unfoldable pub build_msg : ℕ → ℕ → Bytes → Option Bytes → Option Bytes → Bytes
unfolding build_header build_options open_header release_header append_requested_ip append_server_id
build_msg mtype xid mac req_ip server_id =
    build_header mtype xid mac req_ip ++ build_options mtype mac req_ip server_id

-- reply: the option map keeps the last value of a code in front.
pub record Reply : Type 0 where
  pub xid : ℕ
  pub yiaddr : Option Bytes
  pub opts : List (ℕ × Bytes)

-- parseReply: the loop over the options, on the bytes from index `i` on. Each round reads at least
-- one byte, so as much fuel as there are bytes is enough.
unfoldable pub parse_options : ℕ → Bytes → List (ℕ × Bytes) → List (ℕ × Bytes)
parse_options zero b m = m
parse_options (suc f) [] m = m
parse_options (suc f) (code ∷ []) m =
    let rest = parse_options f [] m in if code == opt_end then m else if code == 0 then rest else m
parse_options (suc f) (code ∷ l ∷ body) m =
    let padded = parse_options f (l ∷ body) m in
    let after = parse_options f (drop l body) ((code, take l body) ∷ m) in
    if code == opt_end
    then m
    else if code == 0
    then padded
    else if ltb (length body) l
    then m
    else after

-- parseReply
unfoldable pub parse_reply : Bytes → Result Error Reply
parse_reply b =
    if ltb (length b) 240
    then err short_packet
    else if not (bytes_equal (take 4 (drop 236 b)) magic_cookie)
    then err bad_magic_cookie
    else ok (record {
      xid = get_be32 (drop 4 b);
      yiaddr = some (ipv4 (byte_at b 16) (byte_at b 17) (byte_at b 18) (byte_at b 19));
      opts = parse_options (length b) (drop 240 b) [];
    })

-- msgType
unfoldable pub msg_type : Reply → ℕ
msg_type r = elim (lookup opt_msg_type r.opts) [
  | none ↦ 0
  | some v ↦ if length v == 1 then byte_at v 0 else 0
]

-- opt4
unfoldable pub opt4 : Reply → ℕ → Option Bytes
opt4 r code = elim (lookup code r.opts) [
  | none ↦ none
  | some v ↦
      if length v == 4
      then some (ipv4 (byte_at v 0) (byte_at v 1) (byte_at v 2) (byte_at v 3))
      else none
]

-- toLease: the loop over option 6, four bytes a round.
unfoldable pub dns_servers : Bytes → List Bytes
dns_servers (a ∷ b ∷ c ∷ d ∷ v) = ipv4 a b c d ∷ dns_servers v
dns_servers _ = []

-- toLease: the prefix length of option 1, an error for a mask that is not contiguous.
lease_prefix : Option Bytes → Result Error ℕ
lease_prefix none = ok 0
lease_prefix (some m) =
    let (ones, bits) = mask_size m in
    if length m == 4
    then (if ones == 0 && bits == 0 then err non_contiguous_mask else ok ones)
    else ok 0

lease_domains : Option Bytes → List Bytes
lease_domains none = []
lease_domains (some []) = []
lease_domains (some (c ∷ v)) = (c ∷ v) ∷ []

lease_time : Option Bytes → ℕ
lease_time none = 0
lease_time (some v) = if length v == 4 then get_be32 v else 0

dns_of : Option Bytes → List Bytes
dns_of none = []
dns_of (some v) = dns_servers v

-- toLease: the lease of address `ip` with prefix length `ones`.
lease_of : Reply → Bytes → ℕ → Lease
unfolding lease_domains lease_time dns_of
lease_of r ip ones = record {
  ip = ip;
  prefix_len = ones;
  gateway = opt4 r opt_router;
  dns = dns_of (lookup opt_dns r.opts);
  domains = lease_domains (lookup opt_domain r.opts);
  server_id = opt4 r opt_server_id;
  lease_seconds = lease_time (lookup opt_lease_time r.opts);
}

-- toLease
unfoldable pub to_lease : Reply → Result Error Lease
unfolding lease_prefix lease_of
to_lease r = elim r.yiaddr [
  | none ↦ err no_yiaddr
  | some ip ↦
      if bytes_equal ip (ipv4 0 0 0 0)
      then err no_yiaddr
      else lease_prefix (lookup opt_subnet_mask r.opts) >>= λ ones. ok (lease_of r ip ones)
]
