-- ===== src/Wpa/Status/Deliveries.antt =====
-- internal/backend/wpa/wpa.go, `follow`: what a subscriber hears.
use sinty_nm.Base.{
  Bool-cases, Bytes, ◌≡◌, refl, sym, ap, subst, ◌≢◌, ◌⊎◌, inl, inr, true, false, Option, none, some,
  List, [], ◌∷◌,
}
use sinty_nm.Core.{
  WifiState, wifi_disconnected, wifi_connecting, wifi_connected, wifi_disconnecting, WifiEvent,
}
use sinty_nm.Wpa.Status.{parse_status, same_state, was_state, ssid_in, follow}

same_state_refl : (x : WifiState) → same_state x x ≡ true
unfolding same_state
same_state_refl wifi_disconnected = refl
same_state_refl wifi_connecting = refl
same_state_refl wifi_connected = refl
same_state_refl wifi_disconnecting = refl

-- Each event tells of the interface, of another state than the event before it (or than `last`), and
-- names a network only if it is of a connection.
abbrev pub IsNews : Bytes → Option WifiState → List WifiEvent → Type 0
IsNews dev last [] = Unit
IsNews dev last (ev ∷ evs) =
    (ev.device ≡ dev)
    × (last ≢ some ev.state)
    × ((ev.state ≡ wifi_connected) ⊎ (ev.connected_ssid ≡ []))
    × IsNews dev (some ev.state) evs

ssid_in-cases :
    (state : WifiState) (ssid : Bytes) → (state ≡ wifi_connected) ⊎ (ssid_in state ssid ≡ [])
unfolding ssid_in
ssid_in-cases wifi_connected ssid = inl refl
ssid_in-cases wifi_disconnected ssid = inr refl
ssid_in-cases wifi_connecting ssid = inr refl
ssid_in-cases wifi_disconnecting ssid = inr refl

was_state-new :
    (last : Option WifiState) (state : WifiState) → was_state last state ≡ false → last ≢ some state
unfolding was_state
was_state-new none state e = λ same. absurd (cc same)
was_state-new (some x) state e = λ same.
    let is_state : x ≡ state = cc same in
    absurd (cc (e, same_state_refl state, ap (λ y. same_state y state) is_state))

same_state-one : (x y : WifiState) → same_state x y ≡ true → x ≡ y
unfolding same_state
same_state-one wifi_disconnected wifi_disconnected e = refl
same_state-one wifi_connecting wifi_connecting e = refl
same_state-one wifi_connected wifi_connected e = refl
same_state-one wifi_disconnecting wifi_disconnecting e = refl
same_state-one wifi_disconnected wifi_connecting e = absurd (cc e)
same_state-one wifi_disconnected wifi_connected e = absurd (cc e)
same_state-one wifi_disconnected wifi_disconnecting e = absurd (cc e)
same_state-one wifi_connecting wifi_disconnected e = absurd (cc e)
same_state-one wifi_connecting wifi_connected e = absurd (cc e)
same_state-one wifi_connecting wifi_disconnecting e = absurd (cc e)
same_state-one wifi_connected wifi_disconnected e = absurd (cc e)
same_state-one wifi_connected wifi_connecting e = absurd (cc e)
same_state-one wifi_connected wifi_disconnecting e = absurd (cc e)
same_state-one wifi_disconnecting wifi_disconnected e = absurd (cc e)
same_state-one wifi_disconnecting wifi_connecting e = absurd (cc e)
same_state-one wifi_disconnecting wifi_connected e = absurd (cc e)

was_state-same :
    (last : Option WifiState) (state : WifiState) → was_state last state ≡ true → last ≡ some state
unfolding was_state
was_state-same none state e = absurd (cc e)
was_state-same (some x) state e = ap some (same_state-one x state e)

-- The state of the last event, and of the last report before one fails; `last` where there is none.
abbrev pub last_heard : Option WifiState → List WifiEvent → Option WifiState
last_heard last [] = last
last_heard last (ev ∷ evs) = last_heard (some ev.state) evs

abbrev pub last_reported : Option WifiState → List (Option Bytes) → Option WifiState
last_reported last [] = last
last_reported last (none ∷ replies) = last
last_reported last (some reply ∷ replies) = last_reported (some (parse_status reply).0) replies

-- In one run of `follow` on an interface, whatever the reports say: each event tells of that interface,
-- never of the state of the event before it in the run, and names a network only with the state
-- connected; and the last event has the state of the last report that did not fail, so no change is lost.
pub follow-IsNews :
    (dev : Bytes) (last : Option WifiState) (replies : List (Option Bytes))
    → IsNews dev last (follow dev last replies)
      × (last_heard last (follow dev last replies) ≡ last_reported last replies)
unfolding follow
follow-IsNews dev last [] = (tt, refl)
follow-IsNews dev last (none ∷ replies) = (tt, refl)
follow-IsNews dev last (some reply ∷ replies) =
    let state = (parse_status reply).0 in
    let ssid = (parse_status reply).1 in
    let rest = follow-IsNews dev (some state) replies in
    elim (Bool-cases (was_state last state)) [
      | inl old ↦ rw old (
          subst
            (λ o.
              IsNews dev o (follow dev (some state) replies)
              × (last_heard o (follow dev (some state) replies)
                  ≡ last_reported (some state) replies))
            (sym (was_state-same last state old)) rest)
      | inr new ↦
          rw new ((refl, was_state-new last state new, ssid_in-cases state ssid, rest.0), rest.1)
    ]
