-- ===== src/Dhcp/Client/Leases.antt =====
-- internal/backend/dhcp/dhcp.go, `Acquire` and `Release`: the client keeps exactly the leases that it
-- was granted and has not released.
use sinty_nm.Base.{
  ◌==◌, if◌then◌else◌, ==_iff, Bool-cases, length, Bytes, Result, Result-cases, OnOk, ℕ, zero, suc,
  ◌+◌, ◌-◌, ◌<◌, ◌≡◌, refl, ap, ◌∙◌, ◌≢◌, inl, inr, Bool, true, false, ◌||◌, Option, none, some,
  List, [], ◌∷◌, arith, ok, err,
}
use sinty_nm.Base.Dict.{
  find, remove, bytes_eq, find-remove_self, find-insert_other, find-insert_self, find-remove_other,
}
use sinty_nm.Core.{Lease}
use sinty_nm.Dhcp.Packet.{msg_release, build_msg}
use sinty_nm.Dhcp.Client.{
  Error, Action, unicast, waited, Attempt, handshake, max_tries, after, attempts, LeaseState,
  Client, Host, usable_mac, keep_lease, acquire, acquire_as, no_interface, no_usable_mac,
  looked_up_mac, no_socket, Line, send_release, release_over, release_state, release, cancelled,
  is_declined,
}

failed_round-ok :
    (again stop : Bool) (n : ℕ) (acts : List Action) (more : List Action × Result Error Lease)
    (lease : Lease)
    → (after acts (
        if again then more else if stop then ([], err cancelled) else after (waited n ∷ []) more)).1
      ≡ ok lease
    → more.1 ≡ ok lease
failed_round-ok true stop n acts more lease h = h
failed_round-ok false true n acts more lease h = absurd (cc h)
failed_round-ok false false n acts more lease h = h

attempts-ok :
    (left try : ℕ) (mac : Bytes) (env : ℕ → Attempt) (last : Option Error) (lease : Lease)
    → (attempts left try mac env last).1 ≡ ok lease
    → (k : ℕ) × (k < left + try) × ((handshake mac (env k)).1 ≡ ok lease)
unfolding attempts
attempts-ok zero try mac env last lease h = absurd (cc h)
attempts-ok (suc left) try mac env last lease h = elim (Bool-cases (env try).done_before) [
  | inl done ↦ absurd (cc (rw (done, attempts) at h))
  | inr go ↦ elim (Result-cases (handshake mac (env try)).1) [
    | inl (l, got) ↦ (try, omega arith, got ∙ (rw (go, got, attempts) at h))
    | inr (x, failed) ↦
        let more : (attempts left (try + 1) mac env (some x)).1 ≡ ok lease =
          failed_round-ok (is_declined x || try == max_tries - 1) (env try).done_in_backoff
            (try + 1) (handshake mac (env try)).0 (attempts left (try + 1) mac env (some x)) lease
            (rw (go, failed, attempts) at h) in
        let (k, near, granted) = attempts-ok left (try + 1) mac env (some x) lease more in
        (k, omega (arith, near), granted)
  ]
]

-- The state that is kept for a lease.
abbrev pub state_of : Bytes → Lease → LeaseState
state_of hw lease = record { mac = hw; client_ip = some lease.ip; server_id = lease.server_id }

-- What a call of `Acquire` leaves behind: the other interfaces as they were, everything as it was on
-- an error, and on success a lease of one of the five handshakes, kept with the hardware address.
pub record Acquired (c : Client) (ifname : Bytes) (env : ℕ → Attempt) (after_call : Client)
    (answer : Result Error Lease) : Type 0 where
  pub others : (other : Bytes) → other ≢ ifname → find other after_call ≡ find other c
  pub on_error : (e : Error) → answer ≡ err e → after_call ≡ c
  pub on_lease :
      (lease : Lease)
      → answer ≡ ok lease
      → (hw : Bytes) × (length hw ≡ 6)
        × (find ifname after_call ≡ some (state_of hw lease))
        × (k : ℕ) × (k < 5)
        × ((handshake hw (env k)).1 ≡ ok lease)

unchanged-Acquired :
    (c : Client) (ifname : Bytes) (env : ℕ → Attempt) (e : Error) → Acquired c ifname env c (err e)
unchanged-Acquired c ifname env e = record {
  others = λ other apart. refl;
  on_error = λ x h. refl;
  on_lease = λ lease h. absurd (cc h);
}

keep_lease-Acquired :
    (c : Client) (ifname hw : Bytes) (env : ℕ → Attempt) (r : List Action × Result Error Lease)
    → length hw ≡ 6
    → ((lease : Lease) → r.1 ≡ ok lease → (k : ℕ) × (k < 5) × ((handshake hw (env k)).1 ≡ ok lease))
    → Acquired c ifname env (keep_lease c ifname hw r).0 (keep_lease c ifname hw r).2
unfolding keep_lease
keep_lease-Acquired c ifname hw env (acts, err e) six from = unchanged-Acquired c ifname env e
keep_lease-Acquired c ifname hw env (acts, ok l) six from = record {
  others = λ other apart. find-insert_other ifname other (state_of hw l) c apart;
  on_error = λ x h. absurd (cc h);
  on_lease = λ lease h.
      let same : l ≡ lease = cc h in
      let (k, near, granted) = from lease h in
      (
        hw,
        six,
        find-insert_self ifname (state_of hw l) c ∙ ap (λ x. some (state_of hw x)) same,
        k,
        near,
        granted,
      );
}

acquire_as-Acquired :
    (c : Client) (ifname : Bytes) (env : ℕ → Attempt) (found opens : Bool)
    (used : Result Error Bytes)
    → OnOk (λ hw. length hw ≡ 6) used
    → Acquired c ifname env
        (acquire_as c ifname env found opens used).0
        (acquire_as c ifname env found opens used).2
unfolding acquire_as
acquire_as-Acquired c ifname env found opens (err e) six = unchanged-Acquired c ifname env e
acquire_as-Acquired c ifname env false opens (ok hw) six =
    unchanged-Acquired c ifname env no_interface
acquire_as-Acquired c ifname env true false (ok hw) six = unchanged-Acquired c ifname env no_socket
acquire_as-Acquired c ifname env true true (ok hw) six =
    keep_lease-Acquired c ifname hw env (attempts max_tries 0 hw env none) six
      (λ lease h. attempts-ok max_tries 0 hw env none lease h)

OnOk-if :
    {A : Type 0} (P : A → Type 0) (x : A) (b : Bool) (r : Result Error A)
    → (b ≡ true → P x)
    → OnOk P r
    → OnOk P (if b then ok x else r)
OnOk-if P x true r h k = h refl
OnOk-if P x false r h k = k

looked_up_mac-length : (hw : Option Bytes) → OnOk (λ b. length b ≡ 6) (looked_up_mac hw)
unfolding looked_up_mac
looked_up_mac-length none = tt
looked_up_mac-length (some hw) =
    OnOk-if (λ b. length b ≡ 6) hw (length hw == 6) (err no_usable_mac) (==_iff (length hw) 6).0 tt

usable_mac-length : (host : Host) (mac : Bytes) → OnOk (λ hw. length hw ≡ 6) (usable_mac host mac)
unfolding usable_mac
usable_mac-length host mac =
    OnOk-if (λ b. length b ≡ 6) mac (length mac == 6) (looked_up_mac host.hardware_addr)
      (==_iff (length mac) 6).0 (looked_up_mac-length host.hardware_addr)

-- A call of `Acquire` leaves the leases of all other interfaces alone, and on an error everything. If
-- it yields a lease, then one of its five handshakes granted it, with a six-byte hardware address, and
-- the client keeps that address, the lease's address and its server for the interface.
pub acquire-Acquired :
    (c : Client) (host : Host) (ifname mac : Bytes) (env : ℕ → Attempt)
    → Acquired c ifname env (acquire c host ifname mac env).0 (acquire c host ifname mac env).2
unfolding acquire
acquire-Acquired c host ifname mac env =
    acquire_as-Acquired c ifname env host.interface_found host.socket_opens (usable_mac host mac)
      (usable_mac-length host mac)

release_over-told :
    (hw ip server : Bytes) (drawn : Option ℕ) (dials writes : Bool) (xid : ℕ)
    → drawn ≡ some xid
    → dials ≡ true
    → (release_over hw ip server drawn dials writes).0
      ≡ unicast ip server (build_msg msg_release xid hw (some ip) (some server)) ∷ []
unfolding release_over
release_over-told hw ip server drawn dials writes xid e d = rw (e, d)

release_state-told :
    (line : Line) (hw server : Bytes) (lease : Lease)
    → lease.server_id ≡ some server
    → (release_state line (state_of hw lease)).0
      ≡ (release_over hw lease.ip server line.fresh_xid line.dials line.writes).0
unfolding release_state send_release
release_state-told line hw server lease named = simp named

release-found :
    (c : Client) (line : Line) (ifname : Bytes) (st : LeaseState)
    → find ifname c ≡ some st
    → ((release c line ifname).0 ≡ remove ifname c)
      × ((release c line ifname).1 ≡ (release_state line st).0)
unfolding release
release-found c line ifname st kept = (rw (kept, release), rw (kept, release))

release-lost :
    (c : Client) (line : Line) (ifname : Bytes)
    → find ifname c ≡ none
    → (release c line ifname).1 ≡ []
unfolding release
release-lost c line ifname lost = rw (lost, release)

-- What a release leaves behind that tells `server` that `ip` is given up.
pub record Released (c : Client) (ifname ip server hw : Bytes) (xid : ℕ) (line : Line)
    : Type 0 where
  pub told :
      (release c line ifname).1
      ≡ unicast ip server (build_msg msg_release xid hw (some ip) (some server)) ∷ []
  pub forgotten : (again : Line) → (release (release c line ifname).0 again ifname).1 ≡ []
  pub others :
      (other : Bytes) → other ≢ ifname → find other (release c line ifname).0 ≡ find other c

-- A release of a tracked lease that has a server, where an id is drawn and the socket dials, sends
-- that server one message from the leased address, with the hardware address the lease was acquired
-- with; it forgets the lease, so that a second release sends nothing, and it leaves the leases of all
-- other interfaces alone.
pub release-Released :
    (c : Client) (line : Line) (ifname hw server : Bytes) (lease : Lease) (xid : ℕ)
    → find ifname c ≡ some (state_of hw lease)
    → lease.server_id ≡ some server
    → line.fresh_xid ≡ some xid
    → line.dials ≡ true
    → Released c ifname lease.ip server hw xid line
release-Released c line ifname hw server lease xid kept named drawn dialled =
    let (left, told) = release-found c line ifname (state_of hw lease) kept in
    record {
      told =
          told
          ∙ release_state-told line hw server lease named
          ∙ release_over-told hw lease.ip server line.fresh_xid line.dials line.writes xid drawn
              dialled;
      forgotten = λ again.
          release-lost (release c line ifname).0 again ifname
            (ap (find ifname) left ∙ find-remove_self ifname c);
      others = λ other apart. ap (find other) left ∙ find-remove_other ifname other c apart;
    }
