-- ===== src/Dhcp/Client/Receive.antt =====
-- internal/backend/dhcp/socket.go, `recvReply`: which reply it returns.
use sinty_nm.Base.{
  ◌==◌, if◌then◌else◌, ==_iff, Option-cases, Bool-cases, ltb, take, take_all, Option, ◌⊎◌, ◌<◌,
  length, All, Bytes, Result, Result-cases, ℕ, ◌≤◌, ◌≡◌, refl, ap, ◌∙◌, inl, inr, Bool, true, false,
  not, ◌||◌, none, some, List, [], ◌∷◌, ◌++◌, arith, ok,
}
use sinty_nm.Net.{to4_bytes}
use sinty_nm.Dhcp.Packet.{Reply, parse_reply, msg_type}
use sinty_nm.Dhcp.Frame.{client_port, server_port, encode_ip_udp, decode_ip_udp}
use sinty_nm.Dhcp.Frame.RoundTrip.{decode_ip_udp-encode_ip_udp, length-encode_ip_udp}
use sinty_nm.Dhcp.Frame.Decoding.{IsDatagram, decode_ip_udp-IsDatagram}
use sinty_nm.Dhcp.Client.{
  Error, Round, context_done, budget_spent, timeout_refused, again, read_failed, received, captured,
  recv_buffer, wanted, reply_in, recv_reply,
}

-- A round that the loop passes over: a read to be tried again, or a packet that is no such reply.
abbrev pub IsSkipped : ℕ → List ℕ → Round → Type 0
IsSkipped xid wants again = Unit
IsSkipped xid wants (received pkt) = reply_in xid wants (take recv_buffer pkt) ≡ none
IsSkipped xid wants (captured pkt) = reply_in xid wants pkt ≡ none
IsSkipped xid wants _ = ⊥

-- What the loop looks at of a round: all of a captured frame, and of a received packet what fits the
-- buffer.
abbrev pub seen_of : Round → Option Bytes
seen_of (received pkt) = some (take recv_buffer pkt)
seen_of (captured pkt) = some pkt
seen_of _ = none

-- The packet is a DHCP reply from the server port with that id and one of those types.
pub record IsAnswer (xid : ℕ) (wants : List ℕ) (pkt : Bytes) (r : Reply) : Type 0 where
  pub payload : Bytes
  pub framed : decode_ip_udp pkt ≡ some payload
  pub datagram : IsDatagram pkt payload
  pub parsed : parse_reply payload ≡ ok r
  pub same_xid : r.xid ≡ xid
  pub right_type : wanted (msg_type r) wants ≡ true

passes :
    (a b : Bool) (q r : Reply)
    → (if not a || not b then none else some q) ≡ some r
    → (a ≡ true) × ((b ≡ true) × (q ≡ r))
passes true true q r h = (refl, (refl, cc))
passes true false q r h = cc
passes false b q r h = cc

reply_in-IsAnswer :
    (xid : ℕ) (wants : List ℕ) (pkt : Bytes) (r : Reply)
    → reply_in xid wants pkt ≡ some r
    → IsAnswer xid wants pkt r
unfolding reply_in
reply_in-IsAnswer xid wants pkt r h = elim (Option-cases (decode_ip_udp pkt)) [
  | inl none_framed ↦ absurd (cc (rw (none_framed, reply_in) at h))
  | inr (payload, framed) ↦ elim (Result-cases (parse_reply payload)) [
    | inr (e, bad) ↦ absurd (cc (rw (framed, bad, reply_in) at h))
    | inl (q, parsed) ↦
        let same : (if not (q.xid == xid) || not (wanted (msg_type q) wants) then none else some q)
            ≡ some r =
          rw (framed, parsed, reply_in) at h in
        let (xid_ok, type_ok) = passes (q.xid == xid) (wanted (msg_type q) wants) q r same in
        rw (← type_ok.1) (record {
          payload = payload;
          framed = framed;
          datagram = decode_ip_udp-IsDatagram pkt payload framed;
          parsed = parsed;
          same_xid = (==_iff q.xid xid).0 xid_ok;
          right_type = type_ok.0;
        })
  ]
]

-- If a reply is returned, it is that of a packet that carries a UDP datagram from port 67 to port 68
-- whose payload parses to it, with the id and one of the types asked for; of a packet longer than the
-- buffer only what fits counts. Every round before that packet is one that the loop passes over.
pub recv_reply-first :
    (xid : ℕ) (wants : List ℕ) (es : List Round) (r : Reply)
    → recv_reply xid wants es ≡ ok r
    → (skipped : List Round) × (hit : Round) × (pkt : Bytes) × (later : List Round) × (es
        ≡ skipped ++ hit ∷ later)
      × All (IsSkipped xid wants) skipped
      × (seen_of hit ≡ some pkt)
      × IsAnswer xid wants pkt r
unfolding recv_reply
recv_reply-first xid wants [] r h = absurd (cc h)
recv_reply-first xid wants (context_done ∷ es) r h = absurd (cc h)
recv_reply-first xid wants (budget_spent ∷ es) r h = absurd (cc h)
recv_reply-first xid wants (timeout_refused ∷ es) r h = absurd (cc h)
recv_reply-first xid wants (read_failed ∷ es) r h = absurd (cc h)
recv_reply-first xid wants (again ∷ es) r h =
    let (skipped, hit, pkt, later, e, all, at_pkt, rest) = recv_reply-first xid wants es r h in
    (again ∷ skipped, hit, pkt, later, ap (◌∷◌ again) e, (tt, all), at_pkt, rest)
recv_reply-first xid wants (received p ∷ es) r h =
    elim (Option-cases (reply_in xid wants (take recv_buffer p))) [
      | inl skip ↦
          let (skipped, hit, pkt, later, e, all, at_pkt, rest) =
            recv_reply-first xid wants es r (rw (skip, recv_reply) at h) in
          (
            received p ∷ skipped,
            hit,
            pkt,
            later,
            ap (◌∷◌ (received p)) e,
            (skip, all),
            at_pkt,
            rest,
          )
      | inr (q, answer) ↦
          let same : ◌≡◌ {A = Result Error Reply} (ok q) (ok r) = rw (answer, recv_reply) at h in
          (
            [],
            received p,
            take recv_buffer p,
            es,
            refl,
            tt,
            refl,
            reply_in-IsAnswer xid wants (take recv_buffer p) r (answer ∙ cc same),
          )
    ]
recv_reply-first xid wants (captured p ∷ es) r h = elim (Option-cases (reply_in xid wants p)) [
  | inl skip ↦
      let (skipped, hit, pkt, later, e, all, at_pkt, rest) =
        recv_reply-first xid wants es r (rw (skip, recv_reply) at h) in
      (captured p ∷ skipped, hit, pkt, later, ap (◌∷◌ (captured p)) e, (skip, all), at_pkt, rest)
  | inr (q, answer) ↦
      let same : ◌≡◌ {A = Result Error Reply} (ok q) (ok r) = rw (answer, recv_reply) at h in
      ([], captured p, p, es, refl, tt, refl, reply_in-IsAnswer xid wants p r (answer ∙ cc same))
]

recv_reply-skipped :
    (xid : ℕ) (wants : List ℕ) (skipped rest : List Round)
    → All (IsSkipped xid wants) skipped
    → recv_reply xid wants (skipped ++ rest) ≡ recv_reply xid wants rest
unfolding recv_reply
recv_reply-skipped xid wants [] rest h = refl
recv_reply-skipped xid wants (again ∷ es) rest h = recv_reply-skipped xid wants es rest h.1
recv_reply-skipped xid wants (received p ∷ es) rest h =
    rw (h.0, recv_reply) (recv_reply-skipped xid wants es rest h.1)
recv_reply-skipped xid wants (captured p ∷ es) rest h =
    rw (h.0, recv_reply) (recv_reply-skipped xid wants es rest h.1)
recv_reply-skipped xid wants (context_done ∷ es) rest h = absurd h.0
recv_reply-skipped xid wants (budget_spent ∷ es) rest h = absurd h.0
recv_reply-skipped xid wants (timeout_refused ∷ es) rest h = absurd h.0
recv_reply-skipped xid wants (read_failed ∷ es) rest h = absurd h.0

recv_reply-hit :
    (xid : ℕ) (wants : List ℕ) (round : Round) (pkt : Bytes) (later : List Round) (r : Reply)
    → seen_of round ≡ some pkt
    → reply_in xid wants pkt ≡ some r
    → recv_reply xid wants (round ∷ later) ≡ ok r
unfolding recv_reply
recv_reply-hit xid wants (received p) pkt later r seen hit =
    let same : take recv_buffer p ≡ pkt = cc seen in rw (same, hit, recv_reply)
recv_reply-hit xid wants (captured p) pkt later r seen hit =
    let same : p ≡ pkt = cc seen in rw (same, hit, recv_reply)
recv_reply-hit xid wants again pkt later r seen hit = absurd (cc seen)
recv_reply-hit xid wants context_done pkt later r seen hit = absurd (cc seen)
recv_reply-hit xid wants budget_spent pkt later r seen hit = absurd (cc seen)
recv_reply-hit xid wants timeout_refused pkt later r seen hit = absurd (cc seen)
recv_reply-hit xid wants read_failed pkt later r seen hit = absurd (cc seen)

reply_in-framed :
    (xid : ℕ) (wants : List ℕ) (src dst payload : Bytes) (r : Reply)
    → length (to4_bytes src) ≡ 4
    → length (to4_bytes dst) ≡ 4
    → length payload ≤ 65507
    → parse_reply payload ≡ ok r
    → r.xid ≡ xid
    → wanted (msg_type r) wants ≡ true
    → reply_in xid wants (encode_ip_udp src dst server_port client_port payload) ≡ some r
unfolding reply_in
reply_in-framed xid wants src dst payload r hs hd hl parsed same_xid right_type =
    rw
      (
        decode_ip_udp-encode_ip_udp src dst server_port client_port payload hs hd (omega arith)
            (omega arith) hl,
        reply_in,
      )
      (rw parsed (rw ((==_iff r.xid xid).1 same_xid, right_type)))

-- A DHCP message that is framed from port 67 to port 68, between IPv4 addresses, is returned if it has
-- the id and one of the types, whatever unrelated traffic arrives before it and whatever comes later:
-- from the packet socket if it is at most 2020 bytes, which with the 28 of the headers fill the buffer,
-- and from a BPF device up to the size of a UDP datagram.
pub recv_reply-delivers :
    (xid : ℕ) (wants : List ℕ) (skipped later : List Round) (src dst payload : Bytes) (r : Reply)
    → All (IsSkipped xid wants) skipped
    → length (to4_bytes src) ≡ 4
    → length (to4_bytes dst) ≡ 4
    → length payload ≤ 65507
    → parse_reply payload ≡ ok r
    → r.xid ≡ xid
    → wanted (msg_type r) wants ≡ true
    → let pkt = encode_ip_udp src dst server_port client_port payload in
      (recv_reply xid wants (skipped ++ captured pkt ∷ later) ≡ ok r)
      × ((2020 < length payload) ⊎ (recv_reply xid wants (skipped ++ received pkt ∷ later) ≡ ok r))
recv_reply-delivers xid wants skipped later src dst payload r skip hs hd hl parsed same_xid
      right_type =
    let pkt = encode_ip_udp src dst server_port client_port payload in
    let hit = reply_in-framed xid wants src dst payload r hs hd hl parsed same_xid right_type in
    let size = length-encode_ip_udp src dst server_port client_port payload hs hd in
    (
      recv_reply-skipped xid wants skipped _ skip
          ∙ recv_reply-hit xid wants (captured pkt) pkt later r refl hit,
      elim (Bool-cases (ltb 2020 (length payload))) [
        | inl big ↦ inl (ground (arith, big))
        | inr small ↦
            let whole : take recv_buffer pkt ≡ pkt =
              take_all recv_buffer pkt (ground (arith, size, small)) in
            inr (
              recv_reply-skipped xid wants skipped _ skip
              ∙ recv_reply-hit xid wants (received pkt) pkt later r (ap some whole) hit)
      ],
    )
