-- ===== src/Wpa/Connect.antt =====
-- internal/backend/wpa/wpa.go, `Connect`: the dialogue with the supplicant. What a request answers is a
-- function of the command, `none` for an error of the socket; the commands are logged.
pub mod Saving
use sinty_nm.Base.{
  if◌then◌else◌, Bytes, Result, codes, trim_space, split, split_n, contains, Bool, true, false,
  ◌||◌, Option, none, some, List, [], ◌∷◌, ◌++◌, map, ok, err,
}
use sinty_nm.Base.Dict.{bytes_equal}
use sinty_nm.Core.{WifiSecurity, sec_open, sec_wep, sec_psk, sec_enterprise}
use sinty_nm.Wpa.Escape.{hex_of, unescape}
use sinty_nm.Wpa.Profiles.{psk_value, saved_profile}
use sinty_nm.Wpa.Scan.{security_of}

-- Connect: the errors.
pub data Error : Type 0 where
  request_failed unsupported_security no_secret add_network set_network association : Error

-- Connect: the security of the network in the scan, by the first line that names it.
unfoldable pub flags_in : Bytes → List Bytes → Option Bytes
flags_in ssid (bssid ∷ freq ∷ sig ∷ flags ∷ name ∷ []) =
    if bytes_equal (unescape name) ssid then some flags else none
flags_in ssid _ = none

unfoldable pub or_flags : Option Bytes → Bytes → Bytes
or_flags (some flags) later = flags
or_flags none later = later

unfoldable pub flags_of : Bytes → List Bytes → Bytes
flags_of ssid [] = []
flags_of ssid (line ∷ lines) = or_flags (flags_in ssid (split_n 4 9 line)) (flags_of ssid lines)

-- Connect: the credential, and whether it is saved. `secret` is the caller's function, which may be
-- absent or answer an error.
pub data Secret : Type 0 where
  no_function : Secret
  answers : Option Bytes → Secret

unfoldable pub ask : Secret → Result Error (Option Bytes × Bool)
ask no_function = err no_secret
ask (answers none) = err request_failed
ask (answers (some pass)) = ok (some pass, false)

unfoldable pub credential :
    WifiSecurity → Option Bytes → Secret → Result Error (Option Bytes × Bool)
credential sec_enterprise saved secret = err unsupported_security
credential sec_wep saved secret = err unsupported_security
credential sec_open saved secret = ok (saved, true)
credential sec_psk none secret = ask secret
credential sec_psk (some []) secret = ask secret
credential sec_psk (some (c ∷ cs)) secret = ok (some (c ∷ cs), true)

-- Connect: the settings of the network.
unfoldable pub key_text : Option Bytes → Bytes
key_text none = []
key_text (some key) = key

unfoldable pub key_settings : (Bytes → Bytes) → WifiSecurity → Bytes → Bytes → List Bytes
key_settings quote sec_psk flags key =
    let sae = codes "key_mgmt WPA-PSK SAE" ∷ codes "ieee80211w 1" ∷ [] in
    (if contains flags (codes "SAE") then sae else []) ++ (codes "psk " ++ psk_value quote key) ∷ []
key_settings quote _ flags key = codes "key_mgmt NONE" ∷ []

unfoldable pub network_settings :
    (Bytes → Bytes) → WifiSecurity → Bytes → Bytes → Option Bytes → List Bytes
network_settings quote sec flags ssid cred =
    (codes "ssid " ++ hex_of ssid) ∷ key_settings quote sec flags (key_text cred)

-- request: the answer is OK.
unfoldable pub is_ok : Option Bytes → Bool
is_ok none = false
is_ok (some reply) = bytes_equal (trim_space reply) (codes "OK")

-- Connect: the commands that must be answered by OK, up to the first that is not.
unfoldable pub set_all : (Bytes → Option Bytes) → List Bytes → Bool × List Bytes
set_all answer [] = (true, [])
set_all answer (cmd ∷ cmds) =
    let rest = set_all answer cmds in
    if is_ok (answer cmd) then (rest.0, cmd ∷ rest.1) else (false, cmd ∷ [])

-- awaitConnected: the events until the deadline, where reading fails.
unfoldable pub await_connected : List Bytes → Bool
await_connected [] = false
await_connected (ev ∷ events) =
    let rest = await_connected events in
    if contains ev (codes "CTRL-EVENT-CONNECTED")
    then true
    else if contains ev (codes "CTRL-EVENT-SSID-TEMP-DISABLED")
        || contains ev (codes "WRONG_KEY")
        || contains ev (codes "CTRL-EVENT-ASSOC-REJECT")
    then false
    else rest

-- The supplicant, the saved networks and the libraries, as far as one connection meets them: `answer`
-- is what a command is answered, `events` what arrives after the selection, `saved` the key that is
-- saved for the network, and `is_number` whether strconv.Atoi reads a text.
pub record Supplicant : Type 0 where
  pub answer : Bytes → Option Bytes
  pub events : List Bytes
  pub saved : Option Bytes
  pub quote : Bytes → Bytes
  pub is_number : Bytes → Bool

-- Connect: the file that is written at the end, if any.
unfoldable pub file_to_save : Bytes → WifiSecurity → Option Bytes × Bool → Option (Bytes × Bytes)
file_to_save ssid sec (cred, false) = some (saved_profile ssid sec (key_text cred))
file_to_save ssid sec_open (none, true) = some (saved_profile ssid sec_open [])
file_to_save ssid _ _ = none

-- Connect: the outcome, after the commands that `sent` lists.
abbrev pub Outcome : Type 0
Outcome = Result Error (Option (Bytes × Bytes)) × List Bytes

unfoldable pub select :
    Supplicant → Bytes → WifiSecurity → Option Bytes × Bool → Bytes → List Bytes → Outcome
select s ssid sec cred id sent =
    let cmd = codes "SELECT_NETWORK " ++ id in
    let outcome : Result Error (Option (Bytes × Bytes)) =
      if await_connected s.events then ok (file_to_save ssid sec cred) else err association in
    if is_ok (s.answer cmd)
    then (outcome, sent ++ cmd ∷ [])
    else (err request_failed, sent ++ cmd ∷ [])

unfoldable pub configure :
    Supplicant → Bytes → WifiSecurity → Bytes → Option Bytes × Bool → Bytes → List Bytes → Outcome
configure s ssid sec flags cred id sent =
    let commands =
      map (λ setting. codes "SET_NETWORK " ++ id ++ 32 ∷ setting)
        (network_settings s.quote sec flags ssid cred.0) in
    let (done, asked) = set_all s.answer commands in
    let selected = select s ssid sec cred id (sent ++ asked) in
    if done then selected else (err set_network, sent ++ asked)

unfoldable pub add_reply :
    Supplicant
    → Bytes
    → WifiSecurity
    → Bytes
    → Option Bytes × Bool
    → Option Bytes
    → List Bytes
    → Outcome
add_reply s ssid sec flags cred none sent = (err request_failed, sent)
add_reply s ssid sec flags cred (some reply) sent =
    let id = trim_space reply in
    let configured = configure s ssid sec flags cred id sent in
    if s.is_number id then configured else (err add_network, sent)

-- Connect: a command whose answer is not read.
unfoldable pub unread : Option Bytes → List Bytes → Outcome → Outcome
unread none sent next = (err request_failed, sent)
unread (some reply) sent next = next

unfoldable pub join :
    Supplicant → Bytes → WifiSecurity → Bytes → Option Bytes × Bool → List Bytes → Outcome
join s ssid sec flags cred sent =
    let attach = codes "ATTACH" in
    let remove_all = codes "REMOVE_NETWORK all" in
    let add = codes "ADD_NETWORK" in
    unread (s.answer attach) (sent ++ attach ∷ []) (
      unread (s.answer remove_all) (sent ++ attach ∷ remove_all ∷ [])
        (add_reply s ssid sec flags cred (s.answer add) (sent ++ attach ∷ remove_all ∷ add ∷ [])))

unfoldable pub join_with :
    Supplicant
    → Bytes
    → WifiSecurity
    → Bytes
    → Result Error (Option Bytes × Bool)
    → List Bytes
    → Outcome
join_with s ssid sec flags (err e) sent = (err e, sent)
join_with s ssid sec flags (ok cred) sent = join s ssid sec flags cred sent

unfoldable pub connect_scanned : Supplicant → Bytes → Secret → Option Bytes → List Bytes → Outcome
connect_scanned s ssid secret none sent = (err request_failed, sent)
connect_scanned s ssid secret (some reply) sent =
    let flags = flags_of ssid (split 10 reply) in
    let sec = security_of flags in join_with s ssid sec flags (credential sec s.saved secret) sent

-- Connect
unfoldable pub connect : Supplicant → Bytes → Secret → Outcome
connect s ssid secret =
    let scan = codes "SCAN_RESULTS" in connect_scanned s ssid secret (s.answer scan) (scan ∷ [])
