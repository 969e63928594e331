-- ===== src/Dhcp/Client/Retries.antt =====
-- internal/backend/dhcp/dhcp.go, `Acquire`: what the retries send, and how long they wait.
use sinty_nm.Base.{
  ◌==◌, if◌then◌else◌, Bool-cases, Option-cases, Bytes, Result, Result-cases, ℕ, zero, suc, ◌+◌,
  ◌-◌, ◌*◌, ◌≤◌, ◌≡◌, refl, inl, inr, Bool, true, false, ◌||◌, Option, none, some, List, [], ◌∷◌,
  ◌++◌, arith, ok, err,
}
use sinty_nm.Base.Dict.{bytes_eq}
use sinty_nm.Core.{Lease}
use sinty_nm.Dhcp.Packet.{msg_offer, opt_server_id, Reply, opt4}
use sinty_nm.Dhcp.Client.{
  Error, Action, broadcast, unicast, waited, Attempt, request_offered, take_offer, discover_with,
  draw_xid, handshake, max_tries, after, attempts, Client, Host, usable_mac, keep_lease, acquire,
  acquire_as, cancelled, is_declined, recv_reply,
}

-- The seconds waited and the packets broadcast.
abbrev pub total_wait : List Action → ℕ
total_wait [] = 0
total_wait (waited n ∷ acts) = n + total_wait acts
total_wait (_ ∷ acts) = total_wait acts

abbrev pub broadcasts : List Action → ℕ
broadcasts [] = 0
broadcasts (broadcast p ∷ acts) = 1 + broadcasts acts
broadcasts (_ ∷ acts) = broadcasts acts

total_wait-append : (xs ys : List Action) → total_wait (xs ++ ys) ≡ total_wait xs + total_wait ys
total_wait-append [] ys = omega arith
total_wait-append (waited n ∷ xs) ys = omega (arith, total_wait-append xs ys)
total_wait-append (broadcast p ∷ xs) ys = total_wait-append xs ys
total_wait-append (unicast a b p ∷ xs) ys = total_wait-append xs ys

broadcasts-append : (xs ys : List Action) → broadcasts (xs ++ ys) ≡ broadcasts xs + broadcasts ys
broadcasts-append [] ys = omega arith
broadcasts-append (broadcast p ∷ xs) ys = omega (arith, broadcasts-append xs ys)
broadcasts-append (waited n ∷ xs) ys = broadcasts-append xs ys
broadcasts-append (unicast a b p ∷ xs) ys = broadcasts-append xs ys

-- A handshake waits for nothing but replies, and sends two packets at most.
abbrev IsBrief : List Action → Type 0
IsBrief acts = (total_wait acts ≡ 0) × (broadcasts acts ≤ 2)

request_offered-IsBrief :
    (mac : Bytes) (xid : ℕ) (a : Attempt) (ip server : Bytes)
    → (total_wait (request_offered mac xid a ip server).0 ≡ 0)
      × (broadcasts (request_offered mac xid a ip server).0 ≡ 1)
unfolding request_offered
request_offered-IsBrief mac xid a ip server = (refl, refl)

take_offer-IsBrief :
    (mac : Bytes) (xid : ℕ) (a : Attempt) (offer : Reply)
    → (total_wait (take_offer mac xid a offer).0 ≡ 0)
      × (broadcasts (take_offer mac xid a offer).0 ≤ 1)
unfolding take_offer request_offered
take_offer-IsBrief mac xid a offer = elim (Option-cases offer.yiaddr) [
  | inl e ↦ rw (e, take_offer) (refl, omega arith)
  | inr (ip, e) ↦ elim (Option-cases (opt4 offer opt_server_id)) [
    | inl s ↦ rw (e, s, take_offer) (refl, omega arith)
    | inr (server, s) ↦ rw (e, s, take_offer) (refl, omega arith)
  ]
]

draw_xid-IsBrief : (mac : Bytes) (a : Attempt) (drawn : Option ℕ) → IsBrief (draw_xid mac a drawn).0
unfolding draw_xid discover_with
draw_xid-IsBrief mac a none = (refl, omega arith)
draw_xid-IsBrief mac a (some xid) = elim (Bool-cases a.discover_sent) [
  | inr unsent ↦ simp unsent (refl, omega arith)
  | inl sent ↦ elim (Result-cases (recv_reply xid (msg_offer ∷ []) a.offers)) [
    | inr (e, lost) ↦ rw (lost, discover_with) (simp sent (refl, omega arith))
    | inl (offer, got) ↦
        let brief = take_offer-IsBrief mac xid a offer in
        rw (got, discover_with) (simp sent (brief.0, omega (arith, brief.1)))
  ]
]

handshake-IsBrief : (mac : Bytes) (a : Attempt) → IsBrief (handshake mac a).0
unfolding handshake
handshake-IsBrief mac a = draw_xid-IsBrief mac a a.fresh_xid

-- The waits that are left before the last of `left` rounds.
abbrev wait_budget : ℕ → ℕ
wait_budget zero = 0
wait_budget (suc zero) = 0
wait_budget (suc (suc l)) = (4 - l) + wait_budget (suc l)

-- A failed round, with what comes after it.
failed_round_bounded :
    (again stop : Bool) (n w b : ℕ) (acts : List Action) (more : List Action × Result Error Lease)
    → IsBrief acts
    → total_wait more.0 ≤ w
    → broadcasts more.0 ≤ b
    → (total_wait
          (after acts (
            if again
            then more
            else if stop
            then ([], err cancelled)
            else after (waited n ∷ []) more)).0
        ≤ (if again then 0 else n) + w)
      × (broadcasts
            (after acts (
              if again
              then more
              else if stop
              then ([], err cancelled)
              else after (waited n ∷ []) more)).0
          ≤ 2 + b)
failed_round_bounded true stop n w b acts more (w0, b2) hw hb =
    (omega (arith, total_wait-append acts more.0), omega (arith, broadcasts-append acts more.0))
failed_round_bounded false true n w b acts more (w0, b2) hw hb =
    (omega (arith, total_wait-append acts []), omega (arith, broadcasts-append acts []))
failed_round_bounded false false n w b acts more (w0, b2) hw hb = (
  omega (arith, total_wait-append acts (waited n ∷ more.0)),
  omega (arith, broadcasts-append acts (waited n ∷ more.0)),
)

-- What one more round costs.
budget_step :
    (left try : ℕ) (d : Bool)
    → suc left + try ≡ max_tries
    → (if d || try == max_tries - 1 then 0 else try + 1) + wait_budget left ≤ wait_budget (suc left)
budget_step zero try d e =
    let last : try ≡ 4 = omega (arith, e) in
    rw last (elim (Bool-cases d) [ inl y ↦ rw y (omega arith) | inr n ↦ rw n (omega arith) ])
budget_step (suc l) try d e = elim (Bool-cases (d || try == max_tries - 1)) [
  | inl y ↦ rw y (omega arith)
  | inr n ↦ rw n (omega (arith, e))
]

attempts_bounded :
    (left try : ℕ) (mac : Bytes) (env : ℕ → Attempt) (last : Option Error)
    → left + try ≡ max_tries
    → (total_wait (attempts left try mac env last).0 ≤ wait_budget left)
      × (broadcasts (attempts left try mac env last).0 ≤ 2 * left)
unfolding attempts
attempts_bounded zero try mac env last e = (omega arith, omega arith)
attempts_bounded (suc left) try mac env last e = elim (Bool-cases (env try).done_before) [
  | inl done ↦ rw (done, attempts) (omega arith, omega arith)
  | inr go ↦ elim (Result-cases (handshake mac (env try)).1) [
    | inl (lease, got) ↦
        let brief = handshake-IsBrief mac (env try) in
        rw (go, got, attempts) (omega (arith, brief), omega (arith, brief))
    | inr (x, failed) ↦
        let brief = handshake-IsBrief mac (env try) in
        let rest = attempts_bounded left (try + 1) mac env (some x) (omega arith) in
        let round =
          failed_round_bounded (is_declined x || try == max_tries - 1) (env try).done_in_backoff
            (try + 1) (wait_budget left) (2 * left) (handshake mac (env try)).0
            (attempts left (try + 1) mac env (some x)) brief rest.0 rest.1 in
        rw (go, failed, attempts)
          (omega (arith, round.0, budget_step left try (is_declined x) e), omega (arith, round.1))
  ]
]

keep_lease_bounded :
    (c : Client) (ifname hw : Bytes) (r : List Action × Result Error Lease)
    → (total_wait r.0 ≤ 10) × (broadcasts r.0 ≤ 10)
    → (total_wait (keep_lease c ifname hw r).1 ≤ 10)
      × (broadcasts (keep_lease c ifname hw r).1 ≤ 10)
unfolding keep_lease
keep_lease_bounded c ifname hw (acts, ok lease) h = h
keep_lease_bounded c ifname hw (acts, err e) h = h

acquire_as_bounded :
    (c : Client) (ifname : Bytes) (env : ℕ → Attempt) (found opens : Bool)
    (used : Result Error Bytes)
    → (total_wait (acquire_as c ifname env found opens used).1 ≤ 10)
      × (broadcasts (acquire_as c ifname env found opens used).1 ≤ 10)
unfolding acquire_as keep_lease
acquire_as_bounded c ifname env found opens (err e) = (omega arith, omega arith)
acquire_as_bounded c ifname env false opens (ok hw) = (omega arith, omega arith)
acquire_as_bounded c ifname env true false (ok hw) = (omega arith, omega arith)
acquire_as_bounded c ifname env true true (ok hw) =
    keep_lease_bounded c ifname hw (attempts max_tries 0 hw env none)
      (attempts_bounded max_tries 0 hw env none refl)

-- Acquiring broadcasts ten packets at most and backs off for ten seconds at most, whatever answers.
pub acquire_bounded :
    (c : Client) (host : Host) (ifname mac : Bytes) (env : ℕ → Attempt)
    → (total_wait (acquire c host ifname mac env).1 ≤ 10)
      × (broadcasts (acquire c host ifname mac env).1 ≤ 10)
unfolding acquire
acquire_bounded c host ifname mac env =
    acquire_as_bounded c ifname env host.interface_found host.socket_opens (usable_mac host mac)
