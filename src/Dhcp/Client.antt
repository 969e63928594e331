-- ===== src/Dhcp/Client.antt =====
-- internal/backend/dhcp/dhcp.go, with `recvReply`, `wanted` and `sendRelease` of socket.go.
-- What the kernel, the clock and the context answer is an argument: a list of receive rounds for each
-- wait, and a record for each attempt. What the client does to the outside is a list of actions.
pub mod Receive
pub mod Handshake
pub mod Retries
pub mod Leases
use sinty_nm.Base.{
  ◌==◌, if◌then◌else◌, length, take, Bytes, Result, ◌>>=◌, ℕ, zero, suc, ◌+◌, ◌-◌, Bool, true,
  false, not, ◌||◌, Option, none, some, List, [], ◌∷◌, ◌++◌, ok, err,
}
use sinty_nm.Base.Dict.{find, insert, remove, bytes_eq}
use sinty_nm.Core.{Lease}
use sinty_nm.Dhcp.Packet.{
  msg_discover, msg_offer, msg_request, msg_ack, msg_nak, msg_release, opt_server_id, build_msg,
  Reply, parse_reply, msg_type, opt4, to_lease,
}
use sinty_nm.Dhcp.Packet
use sinty_nm.Dhcp.Frame.{decode_ip_udp}

-- The errors, by their texts.
pub data Error : Type 0 where
  cancelled timeout recv_failed send_failed no_xid offer_incomplete declined : Error
  no_interface no_usable_mac no_socket no_lease : Error
  bad_ack : Packet.Error → Error

-- One round of the loop of `recvReply`: the context is done, the budget is used up, the timeout cannot
-- be set, the read is to be tried again (EAGAIN, EWOULDBLOCK, EINTR, or no BPF frame), the read fails,
-- a packet arrives on the packet socket, or a frame is taken from the BPF device.
pub data Round : Type 0 where
  context_done budget_spent timeout_refused again read_failed : Round
  received captured : Bytes → Round

-- recvReply: the size of the buffer, which cuts a longer packet of the packet socket.
abbrev pub recv_buffer : ℕ
recv_buffer = 2048

-- wanted
unfoldable pub wanted : ℕ → List ℕ → Bool
wanted t [] = false
wanted t (w ∷ wants) = t == w || wanted t wants

-- recvReply: what one packet gives, `none` for traffic that is skipped.
unfoldable pub reply_in : ℕ → List ℕ → Bytes → Option Reply
reply_in xid wants pkt = elim (decode_ip_udp pkt) [
  | none ↦ none
  | some payload ↦ elim (parse_reply payload) [
    | err _ ↦ none
    | ok r ↦ if not (r.xid == xid) || not (wanted (msg_type r) wants) then none else some r
  ]
]

-- recvReply. The budget is finite, so the rounds end by it if by nothing else.
unfoldable pub recv_reply : ℕ → List ℕ → List Round → Result Error Reply
unfolding reply_in wanted
recv_reply xid wants [] = err timeout
recv_reply xid wants (context_done ∷ es) = err cancelled
recv_reply xid wants (budget_spent ∷ es) = err timeout
recv_reply xid wants (timeout_refused ∷ es) = err recv_failed
recv_reply xid wants (again ∷ es) = recv_reply xid wants es
recv_reply xid wants (read_failed ∷ es) = err recv_failed
recv_reply xid wants (received pkt ∷ es) =
    let rest = recv_reply xid wants es in
    elim (reply_in xid wants (take recv_buffer pkt)) [ none ↦ rest | some r ↦ ok r ]
recv_reply xid wants (captured pkt ∷ es) =
    let rest = recv_reply xid wants es in
    elim (reply_in xid wants pkt) [ none ↦ rest | some r ↦ ok r ]

-- What the client does: a DHCP payload broadcast on the raw socket, one sent by UDP to a server from
-- an address, or a wait of some seconds.
pub data Action : Type 0 where
  broadcast : Bytes → Action
  unicast : Bytes → Bytes → Bytes → Action
  waited : ℕ → Action

-- One attempt, as the outside answers it.
pub record Attempt : Type 0 where
  pub done_before : Bool
  pub fresh_xid : Option ℕ
  pub discover_sent : Bool
  pub offers : List Round
  pub request_sent : Bool
  pub acks : List Round
  pub done_in_backoff : Bool

-- handshake: the ACK (or NAK) of a request.
accept_ack : Option Bytes → Reply → Result Error Lease
accept_ack server_id ack = if msg_type ack == msg_nak then err declined else elim (to_lease ack) [
  | err e ↦ err (bad_ack e)
  | ok lease ↦
      ok (record lease { server_id = elim lease.server_id [ none ↦ server_id | some s ↦ some s ] })
]

-- handshake: the REQUEST for an offered address, and its answer.
request_offered : Bytes → ℕ → Attempt → Bytes → Bytes → List Action × Result Error Lease
request_offered mac xid a offered server =
    let request = build_msg msg_request xid mac (some offered) (some server) in
    let answer =
      recv_reply xid (msg_ack ∷ msg_nak ∷ []) a.acks >>= λ ack. accept_ack (some server) ack in
    (broadcast request ∷ [], if a.request_sent then answer else err send_failed)

-- handshake: the offer's address and server, if it has both.
take_offer : Bytes → ℕ → Attempt → Reply → List Action × Result Error Lease
take_offer mac xid a offer = elim offer.yiaddr [
  | none ↦ ([], err offer_incomplete)
  | some ip ↦ elim (opt4 offer opt_server_id) [
    | none ↦ ([], err offer_incomplete)
    | some server ↦ request_offered mac xid a ip server
  ]
]

-- handshake: from DISCOVER on.
discover_with : Bytes → Attempt → ℕ → List Action × Result Error Lease
discover_with mac a xid =
    let discover = build_msg msg_discover xid mac none none in
    let step : List Action × Result Error Lease = elim (recv_reply xid (msg_offer ∷ []) a.offers) [
      | err e ↦ ([], err e)
      | ok offer ↦ take_offer mac xid a offer
    ] in
    if a.discover_sent
    then (broadcast discover ∷ step.0, step.1)
    else (broadcast discover ∷ [], err send_failed)

-- handshake: with the transaction id that `newXID` draws, or without one.
draw_xid : Bytes → Attempt → Option ℕ → List Action × Result Error Lease
draw_xid mac a none = ([], err no_xid)
draw_xid mac a (some xid) = discover_with mac a xid

-- handshake
unfoldable pub handshake : Bytes → Attempt → List Action × Result Error Lease
unfolding accept_ack request_offered take_offer discover_with draw_xid
handshake mac a = draw_xid mac a a.fresh_xid

abbrev pub max_tries : ℕ
max_tries = 5

is_declined : Error → Bool
is_declined declined = true
is_declined _ = false

or_no_lease : Option Error → Error
or_no_lease none = no_lease
or_no_lease (some e) = e

-- Actions in front of what follows.
abbrev pub after {ℓ} : {A : Type ℓ} → List Action → List Action × A → List Action × A
after acts r = (acts ++ r.0, r.1)

-- Acquire: the loop, with `left` rounds to go from round `try` on, and `lastErr`. The outside answers
-- round `try` by `env try`. A declined request goes on at once, any other failure but the last waits.
unfoldable pub attempts :
    ℕ → ℕ → Bytes → (ℕ → Attempt) → Option Error → List Action × Result Error Lease
unfolding is_declined or_no_lease
attempts zero try mac env last = ([], err (or_no_lease last))
attempts (suc left) try mac env last =
    let h = handshake mac (env try) in
    elim (env try).done_before [
      | true ↦ ([], err cancelled)
      | false ↦ elim h.1 [
        | ok lease ↦ (h.0, ok lease)
        | err e ↦
            let more = attempts left (try + 1) mac env (some e) in
            after h.0 (
              if is_declined e || try == max_tries - 1
              then more
              else if (env try).done_in_backoff
              then ([], err cancelled)
              else after (waited (try + 1) ∷ []) more)
      ]
    ]

-- leaseState
pub record LeaseState : Type 0 where
  pub mac : Bytes
  pub client_ip : Option Bytes
  pub server_id : Option Bytes

-- Client: the last lease of each interface.
abbrev pub Client : Type 0
Client = List (Bytes × LeaseState)

-- What `net.InterfaceByName` and `openRawSock` answer: the hardware address that the first lookup
-- gives, whether the second succeeds, and whether a socket opens.
pub record Host : Type 0 where
  pub hardware_addr : Option Bytes
  pub interface_found : Bool
  pub socket_opens : Bool

-- Acquire: the MAC of the interface that was looked up.
looked_up_mac : Option Bytes → Result Error Bytes
looked_up_mac none = err no_interface
looked_up_mac (some hw) = if length hw == 6 then ok hw else err no_usable_mac

-- Acquire: the MAC that is used.
usable_mac : Host → Bytes → Result Error Bytes
unfolding looked_up_mac
usable_mac host mac = if length mac == 6 then ok mac else looked_up_mac host.hardware_addr

keep_lease :
    Client
    → Bytes
    → Bytes
    → List Action × Result Error Lease
    → Client × List Action × Result Error Lease
keep_lease c ifname mac (acts, err e) = (c, acts, err e)
keep_lease c ifname mac (acts, ok lease) = (
  insert ifname (record { mac = mac; client_ip = some lease.ip; server_id = lease.server_id }) c,
  acts,
  ok lease,
)

-- Acquire: with the MAC that is used, after the second lookup and the opening of the socket.
acquire_as :
    Client
    → Bytes
    → (ℕ → Attempt)
    → Bool
    → Bool
    → Result Error Bytes
    → Client × List Action × Result Error Lease
acquire_as c ifname env found opens (err e) = (c, [], err e)
acquire_as c ifname env false opens (ok hw) = (c, [], err no_interface)
acquire_as c ifname env true false (ok hw) = (c, [], err no_socket)
acquire_as c ifname env true true (ok hw) =
    keep_lease c ifname hw (attempts max_tries 0 hw env none)

-- Acquire
unfoldable pub acquire :
    Client → Host → Bytes → Bytes → (ℕ → Attempt) → Client × List Action × Result Error Lease
unfolding usable_mac keep_lease acquire_as
acquire c host ifname mac env =
    acquire_as c ifname env host.interface_found host.socket_opens (usable_mac host mac)

-- What `sendRelease` meets: a transaction id, whether the socket dials, whether the write succeeds.
pub record Line : Type 0 where
  pub fresh_xid : Option ℕ
  pub dials : Bool
  pub writes : Bool

-- sendRelease: given the transaction id, whether the socket dials and whether the write succeeds.
release_over :
    Bytes → Bytes → Bytes → Option ℕ → Bool → Bool → List Action × Result Error (Unit {0})
release_over mac ip server none dials writes = ([], err no_xid)
release_over mac ip server (some xid) false writes = ([], err send_failed)
release_over mac ip server (some xid) true writes = (
  unicast ip server (build_msg msg_release xid mac (some ip) (some server)) ∷ [],
  if writes then ok tt else err send_failed,
)

-- sendRelease
send_release : Line → Bytes → Bytes → Bytes → List Action × Result Error (Unit {0})
unfolding release_over
send_release line mac ip server = release_over mac ip server line.fresh_xid line.dials line.writes

-- Release: of the tracked state that was found.
release_state : Line → LeaseState → List Action × Result Error (Unit {0})
release_state line st = elim st.client_ip [
  | none ↦ ([], ok tt)
  | some ip ↦ elim st.server_id [
    | none ↦ ([], ok tt)
    | some server ↦ send_release line st.mac ip server
  ]
]

-- Release
unfoldable pub release : Client → Line → Bytes → Client × List Action × Result Error (Unit {0})
unfolding send_release release_state
release c line ifname = elim (find ifname c) [
  | none ↦ (c, [], ok tt)
  | some st ↦ let r = release_state line st in (remove ifname c, r.0, r.1)
]
