-- ===== src/Sys/Conn.antt =====
-- internal/backend/sys/conn.go, `Check`: how the answer to a probe becomes a connectivity state. The
-- answer of package net/http is an argument; the body is what was read before an error, if any.
use sinty_nm.Base.{
  ltb, leb, ◌==◌, if◌then◌else◌, ltb→lt, lt→ltb, leb→le, ==_iff, length, take, Bytes, ℕ, suc, ◌≤◌,
  ◌<◌, ◌≡◌, refl, ◌↔◌, Bool, true, false, ◌&&◌, [], ◌∷◌, arith,
}
use sinty_nm.Core.{Connectivity, conn_unknown, conn_none, conn_portal, conn_limited, conn_full}

abbrev pub max_probe_body : ℕ
max_probe_body = 4096

-- What the probe meets.
pub data Probe : Type 0 where
  no_request transport_failed : Probe
  response : ℕ → Bytes → Probe

-- Check: the switch on a status and the bytes that were read.
unfoldable pub response_state : ℕ → Bytes → Connectivity
response_state status body =
    if status == 204 && length body == 0
    then conn_full
    else if leb 200 status && ltb status 400
    then conn_portal
    else conn_limited

-- Check: the state, and whether an error comes with it.
unfoldable pub check : Probe → Connectivity × Bool
check no_request = (conn_unknown, true)
check transport_failed = (conn_none, true)
check (response status body) = (response_state status (take max_probe_body body), false)

status_floor : (status : ℕ) → 200 ≤ status → leb 200 status ≡ true
status_floor status h = ground arith

switch_iff :
    (full portal : Bool) (F P : Type 0)
    → ((full ≡ true) ↔ F)
    → ((portal ≡ true) ↔ P)
    → (((if full then conn_full else if portal then conn_portal else conn_limited) ≡ conn_full) ↔ F)
      × (((if full then conn_full else if portal then conn_portal else conn_limited) ≡ conn_portal)
          ↔ (P × ((F → ⊥))))
switch_iff true portal F P f p =
    ((λ e. f.0 refl, λ x. refl), (λ e. absurd (cc e), λ x. absurd (x.1 (f.0 refl))))
switch_iff false true F P f p = (
  (λ e. absurd (cc e), λ x. absurd (cc (f.1 x))),
  (λ e. (p.0 refl, λ x. absurd (cc (f.1 x))), λ x. refl),
)
switch_iff false false F P f p = (
  (λ e. absurd (cc e), λ x. absurd (cc (f.1 x))),
  (λ e. absurd (cc e), λ x. absurd (cc (p.1 x.0))),
)

empty_take : (n : ℕ) (b : Bytes) → length (take (suc n) b) ≡ 0 → b ≡ []
empty_take n [] e = refl
empty_take n (x ∷ b) e = absurd (omega arith)

both_iff :
    (a b : Bool) (A B : Type 0) → ((a ≡ true) ↔ A) → ((b ≡ true) ↔ B) → (a && b ≡ true) ↔ (A × B)
both_iff true b A B f g = (λ e. (f.0 refl, g.0 e), λ x. g.1 x.1)
both_iff false b A B f g = (λ e. absurd (cc e), λ x. absurd (cc (f.1 x.0)))

-- On a response, the state is full exactly for status 204 with an empty body, and portal exactly for
-- any other response with a status from 200 to 399; no error comes with it.
pub check_iff :
    (status : ℕ) (body : Bytes)
    → (((check (response status body)).0 ≡ conn_full) ↔ ((status ≡ 204) × (body ≡ [])))
      × (((check (response status body)).0 ≡ conn_portal)
          ↔ (((200 ≤ status) × (status < 400)) × (((status ≡ 204) × (body ≡ [])) → ⊥)))
      × ((check (response status body)).1 ≡ false)
unfolding check response_state
check_iff status body =
    let full =
      both_iff (status == 204) (length (take max_probe_body body) == 0) (status ≡ 204) (body ≡ [])
        (==_iff status 204)
        (λ e. empty_take 4095 body ((==_iff (length (take 4096 body)) 0).0 e), λ e. rw e refl) in
    let portal =
      both_iff (leb 200 status) (ltb status 400) (200 ≤ status) (status < 400)
        (leb→le 200 status, λ h. status_floor status h) (ltb→lt status 400, lt→ltb status 400) in
    let (at_full, at_portal) =
      switch_iff (status == 204 && length (take max_probe_body body) == 0)
        (leb 200 status && ltb status 400) _ _ full portal in
    (at_full, at_portal, refl)
