-- ===== src/Dhcp/Tests.antt =====
-- The theorems on internal/backend/dhcp at concrete packets, leases and hosts.
use sinty_nm.Base.{
  length, take, drop, All, Bytes, zeros, copy_at, be16, be32, ℕ, ◌≤◌, ◌<◌, ◌≡◌, refl, ◌↔◌, ◌⊎◌,
  true, false, none, some, List, [], ◌∷◌, ◌++◌, arith, ok, err,
}
use sinty_nm.Base.Dict.{bytes_equal}
use sinty_nm.Net.{ipv4, to4, mask_length}
use sinty_nm.Core.{Lease}
use sinty_nm.Dhcp.Packet.{
  msg_offer, msg_request, msg_ack, opt_server_id, opt_msg_type, opt_subnet_mask, opt_dns, opt_end,
  magic_cookie, short_packet, bad_magic_cookie, build_msg, parse_reply, parse_options, dns_servers,
  Reply, to_lease, msg_type, opt4,
}
use sinty_nm.Dhcp.Packet.Options.{
  StandsIn, encode_options, record_all, Reads, parse_options-Reads, parse_options-encode_options,
}
use sinty_nm.Dhcp.Packet.RoundTrip.{sent_options, parse_reply-build_msg}
use sinty_nm.Dhcp.Packet.Acceptance.{parse_reply_cases, LeaseSound, to_lease_sound}
use sinty_nm.Dhcp.Frame.{
  client_port, server_port, checksum, encode_ip_udp, decode_ip_udp, frame_ip_udp, seal_header,
  ip_header, udp_datagram,
}
use sinty_nm.Dhcp.Frame.Checksum.{checksum_verifies}
use sinty_nm.Dhcp.Frame.RoundTrip.{decode_ip_udp-encode_ip_udp}
use sinty_nm.Dhcp.Bpf.{split_bpf, index_out_of_range}
use sinty_nm.Dhcp.Bpf.Split.{split_bpf_panics, split_bpf-Cut, Cut, caplen_of, hdrlen_of}
use sinty_nm.Dhcp.Client.{
  Round, reply_in, wanted, received, captured, again, Attempt, recv_reply, handshake, Client, Host,
  Line, acquire,
}
use sinty_nm.Dhcp.Client.Receive.{
  IsSkipped, IsAnswer, seen_of, recv_reply-first, recv_reply-delivers,
}
use sinty_nm.Dhcp.Client.Handshake.{Granted, handshake-Granted}
use sinty_nm.Dhcp.Client.Retries.{total_wait, broadcasts, acquire_bounded}
use sinty_nm.Dhcp.Client.Leases.{Acquired, state_of, acquire-Acquired, Released, release-Released}

abbrev test_mac : Bytes
test_mac = 2 ∷ 0x11 ∷ 0x22 ∷ 0x33 ∷ 0x44 ∷ 0x55 ∷ []

abbrev test_ip : Bytes
test_ip = ipv4 10 0 0 7

abbrev test_server : Bytes
test_server = ipv4 10 0 0 1

abbrev test_xid : ℕ
test_xid = 0x12345678

-- A server's message of a type, that offers 10.0.0.7/24 with one nameserver.
abbrev server_header : ℕ → Bytes
server_header xid =
    copy_at 236 magic_cookie (copy_at 16 (10 ∷ 0 ∷ 0 ∷ 7 ∷ []) (copy_at 4 (be32 xid) (zeros 240)))

abbrev server_options : ℕ → Bytes
server_options mtype =
    opt_msg_type ∷ 1 ∷ mtype ∷ opt_subnet_mask ∷ 4 ∷ 255 ∷ 255 ∷ 255 ∷ 0 ∷ opt_server_id ∷ 4 ∷ 10
    ∷ 0 ∷ 0 ∷ 1 ∷ opt_dns ∷ 4 ∷ 9 ∷ 9 ∷ 9 ∷ 9 ∷ opt_end ∷ []

abbrev server_packet : ℕ → Bytes
server_packet mtype =
    encode_ip_udp test_server test_ip server_port client_port
      (server_header test_xid ++ server_options mtype)

abbrev test_reply : ℕ → Reply
test_reply mtype = record {
  xid = test_xid;
  yiaddr = some test_ip;
  opts =
      (opt_dns, 9 ∷ 9 ∷ 9 ∷ 9 ∷ [])
      ∷ (opt_server_id, 10 ∷ 0 ∷ 0 ∷ 1 ∷ [])
      ∷ (opt_subnet_mask, 255 ∷ 255 ∷ 255 ∷ 0 ∷ [])
      ∷ (opt_msg_type, mtype ∷ [])
      ∷ [];
}

abbrev test_lease : Lease
test_lease = record {
  ip = test_ip;
  prefix_len = 24;
  gateway = none;
  dns = ipv4 9 9 9 9 ∷ [];
  domains = [];
  server_id = some test_server;
  lease_seconds = 0;
}

abbrev test_attempt : Attempt
test_attempt = record {
  done_before = false;
  fresh_xid = some test_xid;
  discover_sent = true;
  offers = again ∷ received (server_packet msg_offer) ∷ [];
  request_sent = true;
  acks = received (server_packet msg_ack) ∷ [];
  done_in_backoff = false;
}

abbrev test_host : Host
test_host = record { hardware_addr = some test_mac; interface_found = true; socket_opens = true }

abbrev test_line : Line
test_line = record { fresh_xid = some 9; dials = true; writes = true }

abbrev eth0 : Bytes
eth0 = 0x65 ∷ 0x74 ∷ 0x68 ∷ 0x30 ∷ []

parse_reply-build_msg_example :
    parse_reply (build_msg msg_request test_xid test_mac (some test_ip) (some test_server))
    ≡ ok (record {
      xid = test_xid;
      yiaddr = some (ipv4 0 0 0 0);
      opts = record_all (sent_options msg_request test_mac (some test_ip) (some test_server)) [];
    })
unfolding to4
parse_reply-build_msg_example =
    parse_reply-build_msg msg_request test_xid test_mac (some test_ip) (some test_server)
      (omega arith) refl refl refl

handshake_runs : (handshake test_mac test_attempt).1 ≡ ok test_lease
unfolding handshake recv_reply decode_ip_udp frame_ip_udp parse_reply parse_options to4 to_lease
    opt4 msg_type mask_length dns_servers seal_header ip_header udp_datagram
handshake_runs = refl

handshake-Granted_example :
    Granted test_mac test_attempt (handshake test_mac test_attempt).0 test_lease
handshake-Granted_example = handshake-Granted test_mac test_attempt test_lease handshake_runs

acquire-Acquired_example :
    Acquired [] eth0
      (λ k. test_attempt)
      (acquire [] test_host eth0 [] (λ k. test_attempt)).0
      (acquire [] test_host eth0 [] (λ k. test_attempt)).2
acquire-Acquired_example = acquire-Acquired [] test_host eth0 [] (λ k. test_attempt)

abbrev kept : Client
kept = (eth0, state_of test_mac test_lease) ∷ []

release-Released_example : Released kept eth0 test_ip test_server test_mac 9 test_line
release-Released_example =
    release-Released kept test_line eth0 test_mac test_server test_lease 9 refl refl refl refl

acquire_bounded_example :
    (total_wait (acquire [] test_host eth0 [] (λ k. test_attempt)).1 ≤ 10)
    × (broadcasts (acquire [] test_host eth0 [] (λ k. test_attempt)).1 ≤ 10)
acquire_bounded_example = acquire_bounded [] test_host eth0 [] (λ k. test_attempt)

-- A packet to another port, which the receive loop skips.
abbrev own_packet : Bytes
own_packet = encode_ip_udp test_ip test_server client_port server_port (1 ∷ 2 ∷ [])

own_packet-IsSkipped : All (IsSkipped test_xid (msg_offer ∷ [])) (again ∷ received own_packet ∷ [])
unfolding reply_in decode_ip_udp frame_ip_udp to4 seal_header ip_header udp_datagram
own_packet-IsSkipped = (tt, (refl, tt))

offer_parses :
    parse_reply (server_header test_xid ++ server_options msg_offer) ≡ ok (test_reply msg_offer)
unfolding parse_reply parse_options
offer_parses = refl

recv_reply-delivers_example :
    let skipped = again ∷ received own_packet ∷ [] in
    let later = received own_packet ∷ [] in
    (recv_reply test_xid (msg_offer ∷ []) (skipped ++ captured (server_packet msg_offer) ∷ later)
      ≡ ok (test_reply msg_offer))
    × ((2020 < length (server_header test_xid ++ server_options msg_offer))
        ⊎ (recv_reply test_xid
              (msg_offer ∷ [])
              (skipped ++ received (server_packet msg_offer) ∷ later)
            ≡ ok (test_reply msg_offer)))
unfolding to4 msg_type wanted
recv_reply-delivers_example =
    recv_reply-delivers test_xid (msg_offer ∷ []) (again ∷ received own_packet ∷ [])
      (received own_packet ∷ []) test_server test_ip
      (server_header test_xid ++ server_options msg_offer) (test_reply msg_offer)
      own_packet-IsSkipped refl refl (omega arith) offer_parses refl refl

abbrev test_rounds : List Round
test_rounds =
    again ∷ received own_packet ∷ received (server_packet msg_offer) ∷ received own_packet ∷ []

test_rounds_answer : recv_reply test_xid (msg_offer ∷ []) test_rounds ≡ ok (test_reply msg_offer)
unfolding recv_reply decode_ip_udp frame_ip_udp parse_reply parse_options to4 msg_type seal_header
    ip_header udp_datagram
test_rounds_answer = refl

recv_reply-first_example :
    (skipped : List Round) × (hit : Round) × (pkt : Bytes) × (later : List Round) × (test_rounds
      ≡ skipped ++ hit ∷ later)
    × All (IsSkipped test_xid (msg_offer ∷ [])) skipped
    × (seen_of hit ≡ some pkt)
    × IsAnswer test_xid (msg_offer ∷ []) pkt (test_reply msg_offer)
recv_reply-first_example =
    recv_reply-first test_xid (msg_offer ∷ []) test_rounds (test_reply msg_offer) test_rounds_answer

decode_ip_udp-encode_ip_udp_example :
    decode_ip_udp (encode_ip_udp test_ip test_server client_port server_port (1 ∷ 2 ∷ [])) ≡ none
unfolding to4
decode_ip_udp-encode_ip_udp_example =
    decode_ip_udp-encode_ip_udp test_ip test_server client_port server_port (1 ∷ 2 ∷ []) refl refl
      (omega arith) (omega arith) (omega arith)

checksum_verifies_example :
    checksum ((0x45 ∷ 0 ∷ []) ++ (be16 (checksum ((0x45 ∷ 0 ∷ []) ++ 0 ∷ 0 ∷ 7 ∷ [])) ++ 7 ∷ []))
    ≡ 0
checksum_verifies_example =
    checksum_verifies (0x45 ∷ 0 ∷ []) (7 ∷ []) refl (omega arith) (omega arith)

parse_options-encode_options_example :
    parse_options 9 (encode_options ((53, 2 ∷ []) ∷ (12, []) ∷ []) ++ opt_end ∷ 0 ∷ 0 ∷ []) []
    ≡ record_all ((53, 2 ∷ []) ∷ (12, []) ∷ []) []
parse_options-encode_options_example =
    parse_options-encode_options 9 ((53, 2 ∷ []) ∷ (12, []) ∷ []) (0 ∷ 0 ∷ []) []
      ((omega arith, omega arith), ((omega arith, omega arith), tt)) (omega arith)

parse_options-Reads_example :
    Reads (0 ∷ 53 ∷ 1 ∷ 2 ∷ []) [] (parse_options 4 (0 ∷ 53 ∷ 1 ∷ 2 ∷ []) [])
parse_options-Reads_example = parse_options-Reads 4 (0 ∷ 53 ∷ 1 ∷ 2 ∷ []) [] (omega arith)

parse_reply_cases_example :
    ((length (zeros 241) < 240) × (parse_reply (zeros 241) ≡ err short_packet))
    ⊎ ((240 ≤ length (zeros 241))
        × (bytes_equal (take 4 (drop 236 (zeros 241))) magic_cookie ≡ false)
        × (parse_reply (zeros 241) ≡ err bad_magic_cookie))
    ⊎ ((240 ≤ length (zeros 241))
        × (bytes_equal (take 4 (drop 236 (zeros 241))) magic_cookie ≡ true)
        × ((r : Reply) × (parse_reply (zeros 241) ≡ ok r) × All (StandsIn (zeros 241)) r.opts))
parse_reply_cases_example = parse_reply_cases (zeros 241)

offer_leases : to_lease (test_reply msg_offer) ≡ ok test_lease
unfolding to_lease mask_length opt4 dns_servers
offer_leases = refl

to_lease_sound_example : LeaseSound (test_reply msg_offer) test_lease
to_lease_sound_example = to_lease_sound (test_reply msg_offer) test_lease offer_leases

split_bpf_panics_example :
    (split_bpf (zeros 25) ≡ err index_out_of_range)
    ↔ ((24 ≤ length (zeros 25)) × (length (zeros 25) < 26))
split_bpf_panics_example = split_bpf_panics (zeros 25)

-- A header of 26 bytes with a frame of two bytes, and four bytes behind.
abbrev test_read : Bytes
test_read = zeros 16 ++ (2 ∷ 0 ∷ 0 ∷ 0 ∷ 0 ∷ 0 ∷ 0 ∷ 0 ∷ 26 ∷ 0 ∷ 8 ∷ 9 ∷ 0 ∷ 0 ∷ 0 ∷ 0 ∷ 7 ∷ [])

test_read_splits : split_bpf test_read ≡ ok (8 ∷ 9 ∷ [], 7 ∷ [])
unfolding split_bpf
test_read_splits = refl

split_bpf-Cut_example :
    (frame : Bytes) × (rest : Bytes) × (split_bpf test_read ≡ ok (frame, rest))
    × Cut test_read (caplen_of test_read) (hdrlen_of test_read) frame rest
split_bpf-Cut_example = split_bpf-Cut test_read (omega arith)
