-- ===== src/Dhcp/Client/Handshake.antt =====
-- internal/backend/dhcp/dhcp.go, `handshake`: what a granted lease rests on.
use sinty_nm.Base.{
  ◌==◌, Bool-cases, Option-cases, Bytes, Result, bind-eq-ok, Result-cases, ℕ, ◌≡◌, refl, sym, ap,
  ◌∙◌, ◌⊎◌, ◌≢◌, inl, inr, Option, none, some, List, [], ◌∷◌, arith, ok,
}
use sinty_nm.Core.{Lease}
use sinty_nm.Dhcp.Packet.{
  msg_discover, msg_offer, msg_request, msg_ack, msg_nak, opt_server_id, build_msg, Reply, msg_type,
  opt4, to_lease,
}
use sinty_nm.Dhcp.Client.{
  Error, recv_reply, Action, broadcast, Attempt, accept_ack, request_offered, take_offer,
  discover_with, draw_xid, handshake,
}

-- The lease of an acknowledged request: the ACK's, with the offer's server where the ACK names none.
pub record FromAck (server : Bytes) (ack : Reply) (lease : Lease) : Type 0 where
  pub no_nak : msg_type ack ≢ msg_nak
  pub acked : Lease
  pub decoded : to_lease ack ≡ ok acked
  pub same_rest :
      ◌≡◌ {A = Lease} (record lease { server_id = none }) (record acked { server_id = none })
  pub same_server :
      ((acked.server_id ≡ none) × (lease.server_id ≡ some server))
      ⊎ ((lease.server_id ≡ acked.server_id) × (lease.server_id ≢ none))

-- The lease with the server filled in where it has none.
filled-rest :
    (server : Bytes) (l lease : Lease)
    → ◌≡◌ {A = Result Error Lease}
        (ok (record l { server_id = elim l.server_id [ none ↦ some server | some s ↦ some s ] }))
        (ok lease)
    → ◌≡◌ {A = Lease} (record lease { server_id = none }) (record l { server_id = none })
      × (((l.server_id ≡ none) × (lease.server_id ≡ some server))
          ⊎ ((lease.server_id ≡ l.server_id) × (lease.server_id ≢ none)))
filled-rest server l lease h = elim (Option-cases l.server_id) [
  | inl e ↦
      let same : record l { server_id = some server } ≡ lease = cc (rw e at h) in
      (
        ap {A = Lease} {B = Lease} (λ x. record x { server_id = none }) (sym same),
        inl (e, ap (λ x. x.server_id) (sym same)),
      )
  | inr (s, e) ↦
      let same : record l { server_id = some s } ≡ lease = cc (rw e at h) in
      let id = ap (λ x. x.server_id) (sym same) in
      (
        ap {A = Lease} {B = Lease} (λ x. record x { server_id = none }) (sym same),
        inr (id ∙ sym e, λ lost. absurd (cc (id, lost))),
      )
]

accept_ack-FromAck :
    (server : Bytes) (ack : Reply) (lease : Lease)
    → accept_ack (some server) ack ≡ ok lease
    → FromAck server ack lease
unfolding accept_ack
accept_ack-FromAck server ack lease h = elim (Bool-cases (msg_type ack == msg_nak)) [
  | inl nak ↦ absurd (cc (rw (nak, accept_ack) at h))
  | inr ack_ok ↦ elim (Result-cases (to_lease ack)) [
    | inr (e, bad) ↦ absurd (cc (rw (ack_ok, bad, accept_ack) at h))
    | inl (l, good) ↦
        let (rest, id) = filled-rest server l lease (rw (ack_ok, good, accept_ack) at h) in
        record {
          no_nak = ground arith;
          acked = l;
          decoded = good;
          same_rest = rest;
          same_server = id;
        }
  ]
]

-- What a successful handshake did and met: it sent a DISCOVER and then a REQUEST for what the offer
-- names, both with one transaction id, and the lease is that of the ACK that came back.
pub record Granted (mac : Bytes) (a : Attempt) (acts : List Action) (lease : Lease) : Type 0 where
  pub xid : ℕ
  pub offer : Reply
  pub offered : Bytes
  pub server : Bytes
  pub ack : Reply
  pub drawn : a.fresh_xid ≡ some xid
  pub offer_received : recv_reply xid (msg_offer ∷ []) a.offers ≡ ok offer
  pub offer_ip : offer.yiaddr ≡ some offered
  pub offer_server : opt4 offer opt_server_id ≡ some server
  pub ack_received : recv_reply xid (msg_ack ∷ msg_nak ∷ []) a.acks ≡ ok ack
  pub from_ack : FromAck server ack lease
  pub sent :
      acts
      ≡ broadcast (build_msg msg_discover xid mac none none)
        ∷ broadcast (build_msg msg_request xid mac (some offered) (some server))
        ∷ []

-- The parts of a step that yields a lease.
request_offered-ok :
    (mac : Bytes) (xid : ℕ) (a : Attempt) (ip server : Bytes) (lease : Lease)
    → (request_offered mac xid a ip server).1 ≡ ok lease
    → (ack : Reply) × (recv_reply xid (msg_ack ∷ msg_nak ∷ []) a.acks ≡ ok ack)
      × FromAck server ack lease
unfolding request_offered
request_offered-ok mac xid a ip server lease h = elim (Bool-cases a.request_sent) [
  | inr unsent ↦ absurd (cc (rw unsent at h))
  | inl sent ↦
      let (ack, got, accepted) =
        bind-eq-ok (recv_reply xid (msg_ack ∷ msg_nak ∷ []) a.acks) (accept_ack (some server))
          (rw sent at h) in
      (ack, got, accept_ack-FromAck server ack lease accepted)
]

take_offer-ok :
    (mac : Bytes) (xid : ℕ) (a : Attempt) (offer : Reply) (lease : Lease)
    → (take_offer mac xid a offer).1 ≡ ok lease
    → (ip : Bytes) × (server : Bytes) × (offer.yiaddr ≡ some ip)
      × (opt4 offer opt_server_id ≡ some server)
      × (take_offer mac xid a offer ≡ request_offered mac xid a ip server)
unfolding take_offer
take_offer-ok mac xid a offer lease h = elim (Option-cases offer.yiaddr) [
  | inl e ↦ absurd (cc (rw (e, take_offer) at h))
  | inr (ip, e) ↦ elim (Option-cases (opt4 offer opt_server_id)) [
    | inl s ↦ absurd (cc (rw (e, s, take_offer) at h))
    | inr (server, s) ↦ (ip, server, e, s, rw (e, s, take_offer))
  ]
]

discover_with-ok :
    (mac : Bytes) (a : Attempt) (xid : ℕ) (lease : Lease)
    → (discover_with mac a xid).1 ≡ ok lease
    → (offer : Reply) × (recv_reply xid (msg_offer ∷ []) a.offers ≡ ok offer)
      × ((take_offer mac xid a offer).1 ≡ ok lease)
      × ((discover_with mac a xid).0
          ≡ broadcast (build_msg msg_discover xid mac none none) ∷ (take_offer mac xid a offer).0)
unfolding discover_with
discover_with-ok mac a xid lease h = elim (Bool-cases a.discover_sent) [
  | inr unsent ↦ absurd (cc (rw unsent at h))
  | inl sent ↦ elim (Result-cases (recv_reply xid (msg_offer ∷ []) a.offers)) [
    | inr (e, lost) ↦ absurd (cc (rw (sent, lost, discover_with) at h))
    | inl (offer, got) ↦ (
      offer,
      got,
      simp sent at (rw (got, discover_with) at h),
      simp sent (rw (got, discover_with)),
    )
  ]
]

draw_xid-Granted :
    (mac : Bytes) (a : Attempt) (drawn : Option ℕ) (lease : Lease)
    → a.fresh_xid ≡ drawn
    → (draw_xid mac a drawn).1 ≡ ok lease
    → Granted mac a (draw_xid mac a drawn).0 lease
unfolding draw_xid request_offered
draw_xid-Granted mac a none lease e h = absurd (cc h)
draw_xid-Granted mac a (some xid) lease e h =
    let (offer, got, taken, first) = discover_with-ok mac a xid lease h in
    let (ip, server, at_ip, at_server, same) = take_offer-ok mac xid a offer lease taken in
    let (ack, acked, from_ack) = request_offered-ok mac xid a ip server lease (rw same at taken) in
    record {
      xid = xid;
      offer = offer;
      offered = ip;
      server = server;
      ack = ack;
      drawn = e;
      offer_received = got;
      offer_ip = at_ip;
      offer_server = at_server;
      ack_received = acked;
      from_ack = from_ack;
      sent =
          first
          ∙ ap
              (λ (r : List Action × Result Error Lease).
                broadcast (build_msg msg_discover xid mac none none) ∷ r.0)
              same;
    }

-- A lease is granted only after a DISCOVER and a REQUEST for the address and the server that a received
-- OFFER names, both with the one id drawn. In every field but the server it is what `toLease` makes of
-- the ACK received for that id; its server is the ACK's, or the offer's where the ACK names none.
pub handshake-Granted :
    (mac : Bytes) (a : Attempt) (lease : Lease)
    → (handshake mac a).1 ≡ ok lease
    → Granted mac a (handshake mac a).0 lease
unfolding handshake
handshake-Granted mac a lease h = draw_xid-Granted mac a a.fresh_xid lease refl h
