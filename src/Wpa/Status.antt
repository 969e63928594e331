-- ===== src/Wpa/Status.antt =====
-- internal/backend/wpa/wpa.go: the state of an interface, and what a subscriber hears of it.
pub mod Deliveries
use sinty_nm.Base.{
  if◌then◌else◌, Bytes, codes, split, cut, Bool, true, false, ◌||◌, Option, none, some, List, [],
  ◌∷◌,
}
use sinty_nm.Base.Dict.{bytes_equal}
use sinty_nm.Core.{
  WifiState, wifi_disconnected, wifi_connecting, wifi_connected, wifi_disconnecting, WifiEvent,
}
use sinty_nm.Wpa.Escape.{unescape}

-- stateOf
unfoldable pub state_of : Bytes → WifiState
state_of s =
    if bytes_equal s (codes "COMPLETED")
    then wifi_connected
    else if bytes_equal s (codes "AUTHENTICATING")
        || bytes_equal s (codes "ASSOCIATING")
        || bytes_equal s (codes "ASSOCIATED")
        || bytes_equal s (codes "4WAY_HANDSHAKE")
        || bytes_equal s (codes "GROUP_HANDSHAKE")
    then wifi_connecting
    else wifi_disconnected

-- parseStatus: the fields that are read, the last of each counting.
unfoldable pub read_field : Option (Bytes × Bytes) → WifiState × Bytes → WifiState × Bytes
read_field none s = s
read_field (some (k, v)) (state, ssid) =
    if bytes_equal k (codes "wpa_state")
    then (state_of v, ssid)
    else if bytes_equal k (codes "ssid")
    then (state, unescape v)
    else (state, ssid)

unfoldable pub read_fields : List Bytes → WifiState × Bytes → WifiState × Bytes
read_fields [] s = s
read_fields (line ∷ lines) s = read_fields lines (read_field (cut 61 line) s)

-- parseStatus
unfoldable pub parse_status : Bytes → WifiState × Bytes
parse_status text = read_fields (split 10 text) (wifi_disconnected, [])

-- State: `none` is the error of the request, with the state that is reported beside it.
unfoldable pub reported_state : Option Bytes → WifiState × Bool
reported_state none = (wifi_disconnected, true)
reported_state (some reply) = ((parse_status reply).0, false)

unfoldable pub same_state : WifiState → WifiState → Bool
same_state wifi_disconnected wifi_disconnected = true
same_state wifi_connecting wifi_connecting = true
same_state wifi_connected wifi_connected = true
same_state wifi_disconnecting wifi_disconnecting = true
same_state _ _ = false

unfoldable pub was_state : Option WifiState → WifiState → Bool
was_state none state = false
was_state (some last) state = same_state last state

unfoldable pub ssid_in : WifiState → Bytes → Bytes
ssid_in wifi_connected ssid = ssid
ssid_in _ ssid = []

-- follow: the reports, each with what STATUS answers, until one fails. `none` is the first state, -1,
-- which is no state; the waits for an event or a timeout between the reports are not seen.
unfoldable pub follow : Bytes → Option WifiState → List (Option Bytes) → List WifiEvent
follow dev last [] = []
follow dev last (none ∷ replies) = []
follow dev last (some reply ∷ replies) =
    let (state, ssid) = parse_status reply in
    let rest = follow dev (some state) replies in
    if was_state last state
    then rest
    else record { device = dev; state = state; connected_ssid = ssid_in state ssid } ∷ rest
