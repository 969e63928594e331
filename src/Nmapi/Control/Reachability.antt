-- ===== src/Nmapi/Control/Reachability.antt =====
-- internal/nmapi/manager.go, `pollConnectivity`, on what internal/backend/sys/conn.go reports.
use sinty_nm.Base.{
  ltb, leb, ◌==◌, if◌then◌else◌, ==_iff, Bool-cases, length, take, Bytes, ℕ, ◌≡◌, refl, sym, ◌∙◌,
  ap, [], ◌≢◌, ◌⊎◌, inl, inr, Bool, true, false, ◌&&◌, Option, some,
}
use sinty_nm.Core.{Connectivity, conn_unknown, conn_none, conn_portal, conn_limited, conn_full}
use sinty_nm.Sys.Conn.{no_request, transport_failed, response, response_state, check, check_iff}
use sinty_nm.Nmapi.State.{Manager}
use sinty_nm.Nmapi.Control.{
  state_connected_local, state_connected_site, state_connected_global, set_global_state,
  global_state_for, reach_state, record_connectivity, poll_connectivity_with,
}

set_global_state-state :
    (s : ℕ) (m : Manager)
    → ((set_global_state s m).state ≡ s) × ((set_global_state s m).connectivity ≡ m.connectivity)
unfolding set_global_state
set_global_state-state s m = elim (Bool-cases (m.state == s)) [
  | inl e ↦ rw e ((==_iff m.state s).0 e, refl)
  | inr e ↦ rw e (refl, refl)
]

told :
    (c : Connectivity) (s : ℕ) (m : Manager)
    → let n = set_global_state s (record m { connectivity = c }) in
      (n.connectivity ≡ c) × (◌≡◌ {A = Option ℕ} (some n.state) (some s))
told c s m = let h = set_global_state-state s (record m { connectivity = c }) in (h.1, ap some h.0)

recorded :
    (c : Connectivity) (m : Manager)
    → c ≢ conn_unknown
    → ((record_connectivity (c, false) m).connectivity ≡ c)
      × (some (record_connectivity (c, false) m).state ≡ global_state_for c)
unfolding record_connectivity reach_state global_state_for
recorded conn_unknown m known = absurd (known refl)
recorded conn_none m known = told conn_none state_connected_local m
recorded conn_portal m known = told conn_portal state_connected_site m
recorded conn_limited m known = told conn_limited state_connected_site m
recorded conn_full m known = told conn_full state_connected_global m

response_state-known : (status : ℕ) (body : Bytes) → response_state status body ≢ conn_unknown
unfolding response_state
response_state-known status body =
    by_test (status == 204 && length body == 0) (leb 200 status && ltb status 400)
  where
    by_test :
        (full portal : Bool)
        → (if full then conn_full else if portal then conn_portal else conn_limited) ≢ conn_unknown
    by_test true portal e = cc e
    by_test false true e = cc e
    by_test false false e = cc e

full_state : global_state_for conn_full ≡ some 70
unfolding global_state_for
full_state = refl

limited_state :
    (c : Connectivity)
    → c ≢ conn_unknown
    → c ≢ conn_none
    → c ≢ conn_full
    → global_state_for c ≡ some 60
unfolding global_state_for
limited_state conn_unknown a b d = absurd (a refl)
limited_state conn_none a b d = absurd (b refl)
limited_state conn_portal a b d = refl
limited_state conn_limited a b d = refl
limited_state conn_full a b d = absurd (d refl)

response_state-told : (status : ℕ) (body : Bytes) → response_state status body ≢ conn_none
unfolding response_state
response_state-told status body =
    by_test (status == 204 && length body == 0) (leb 200 status && ltb status 400)
  where
    by_test :
        (full portal : Bool)
        → (if full then conn_full else if portal then conn_portal else conn_limited) ≢ conn_none
    by_test true portal e = cc e
    by_test false true e = cc e
    by_test false false e = cc e

full-cases : (c : Connectivity) → (c ≡ conn_full) ⊎ (c ≢ conn_full)
full-cases conn_full = inl refl
full-cases conn_unknown = inr (λ e. cc e)
full-cases conn_none = inr (λ e. cc e)
full-cases conn_portal = inr (λ e. cc e)
full-cases conn_limited = inr (λ e. cc e)

-- A probe that got a response makes the connectivity full and the global state 70 (connected
-- everywhere) where the response has status 204 and an empty body; where it has not, the connectivity is
-- not full and the global state is 60 (connected to the site). A probe without a response, for it could
-- not be made or its transport failed, changes nothing.
pub poll_connectivity_lem :
    (status : ℕ) (body : Bytes) (m : Manager)
    → let n = poll_connectivity_with (response status body) m in
      (((status ≡ 204) × (body ≡ []) × (n.connectivity ≡ conn_full) × (n.state ≡ 70))
        ⊎ ((¬ ((status ≡ 204) × (body ≡ []))) × (n.connectivity ≢ conn_full) × (n.state ≡ 60)))
      × (poll_connectivity_with transport_failed m ≡ m)
      × (poll_connectivity_with no_request m ≡ m)
unfolding poll_connectivity_with check record_connectivity
poll_connectivity_lem status body m =
    let found = response_state status (take 4096 body) in
    let (same, state) = recorded found m (response_state-known status (take 4096 body)) in
    let (is_full, portal, fine) = check_iff status body in
    (
      elim (full-cases found) [
        | inl full ↦
            let (at_204, empty) = is_full.0 full in
            inl (at_204, empty, same ∙ full, cc (state, ap global_state_for full, full_state))
        | inr other ↦ inr (
          λ e. other (is_full.1 e),
          λ full. other (sym same ∙ full),
          cc (
            state,
            limited_state found (response_state-known status (take 4096 body))
                (response_state-told status (take 4096 body)) other,
          ),
        )
      ],
      refl,
      refl,
    )
