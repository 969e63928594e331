-- ===== src/Wpa/Connect/Saving.antt =====
-- internal/backend/wpa/wpa.go, `Connect`: a network is saved only after it was joined.
use sinty_nm.Base.{
  if◌then◌else◌, contains, ap, All, ◌||◌, Bytes, Result, codes, trim_space, split, ◌≡◌, refl, Bool,
  true, false, Option, none, some, List, [], ◌∷◌, ◌++◌, map, ok, err,
}
use sinty_nm.Core.{WifiSecurity}
use sinty_nm.Wpa.Scan.{security_of}
use sinty_nm.Wpa.Connect.{
  Error, request_failed, add_network, set_network, association, Secret, flags_of, credential,
  network_settings, is_ok, set_all, await_connected, Supplicant, file_to_save, Outcome, select,
  configure, add_reply, unread, join, join_with, connect_scanned, connect,
}

-- An outcome without an error comes from events that end in a connection.
abbrev IsJoined : Supplicant → Outcome → Type 0
IsJoined s r = (file : Option (Bytes × Bytes)) → r.0 ≡ ok file → await_connected s.events ≡ true

refused_IsJoined : (s : Supplicant) (e : Error) (sent : List Bytes) → IsJoined s (err e, sent)
refused_IsJoined s e sent file same = absurd (cc same)

select-IsJoined :
    (s : Supplicant) (ssid : Bytes) (sec : WifiSecurity) (cred : Option Bytes × Bool) (id : Bytes)
    (sent : List Bytes)
    → IsJoined s (select s ssid sec cred id sent)
unfolding select
select-IsJoined s ssid sec cred id sent file =
    by_tests (is_ok (s.answer (codes "SELECT_NETWORK " ++ id))) (await_connected s.events)
  where
    by_tests :
        (taken joined : Bool)
        → let outcome : Result Error (Option (Bytes × Bytes)) =
            if joined then ok (file_to_save ssid sec cred) else err association in
          let asked = sent ++ (codes "SELECT_NETWORK " ++ id) ∷ [] in
          let r : Outcome = if taken then (outcome, asked) else (err request_failed, asked) in
          r.0 ≡ ok file → joined ≡ true
    by_tests true true e = refl
    by_tests true false e = absurd (cc e)
    by_tests false joined e = absurd (cc e)

configure-IsJoined :
    (s : Supplicant) (ssid : Bytes) (sec : WifiSecurity) (flags : Bytes)
    (cred : Option Bytes × Bool) (id : Bytes) (sent : List Bytes)
    → IsJoined s (configure s ssid sec flags cred id sent)
unfolding configure
configure-IsJoined s ssid sec flags cred id sent = by_done commands.0 commands.1
  where
    commands : Bool × List Bytes
    commands = set_all s.answer (
        map (λ setting. codes "SET_NETWORK " ++ id ++ 32 ∷ setting)
          (network_settings s.quote sec flags ssid cred.0))

    by_done :
        (done : Bool) (asked : List Bytes)
        → IsJoined s (
            if done
            then select s ssid sec cred id (sent ++ asked)
            else (err set_network, sent ++ asked))
    by_done true asked = select-IsJoined s ssid sec cred id (sent ++ asked)
    by_done false asked = refused_IsJoined s set_network (sent ++ asked)

add_reply-IsJoined :
    (s : Supplicant) (ssid : Bytes) (sec : WifiSecurity) (flags : Bytes)
    (cred : Option Bytes × Bool) (reply : Option Bytes) (sent : List Bytes)
    → IsJoined s (add_reply s ssid sec flags cred reply sent)
unfolding add_reply
add_reply-IsJoined s ssid sec flags cred none sent = refused_IsJoined s request_failed sent
add_reply-IsJoined s ssid sec flags cred (some reply) sent = by_id (s.is_number (trim_space reply))
  where
    by_id :
        (b : Bool)
        → IsJoined s (
            if b
            then configure s ssid sec flags cred (trim_space reply) sent
            else (err add_network, sent))
    by_id true = configure-IsJoined s ssid sec flags cred (trim_space reply) sent
    by_id false = refused_IsJoined s add_network sent

unread-IsJoined :
    (s : Supplicant) (reply : Option Bytes) (sent : List Bytes) (next : Outcome)
    → IsJoined s next
    → IsJoined s (unread reply sent next)
unfolding unread
unread-IsJoined s none sent next h = refused_IsJoined s request_failed sent
unread-IsJoined s (some reply) sent next h = h

join_with-IsJoined :
    (s : Supplicant) (ssid : Bytes) (sec : WifiSecurity) (flags : Bytes)
    (cred : Result Error (Option Bytes × Bool)) (sent : List Bytes)
    → IsJoined s (join_with s ssid sec flags cred sent)
unfolding join_with join
join_with-IsJoined s ssid sec flags (err e) sent = refused_IsJoined s e sent
join_with-IsJoined s ssid sec flags (ok cred) sent =
    unread-IsJoined s (s.answer (codes "ATTACH")) _ _ (
      unread-IsJoined s (s.answer (codes "REMOVE_NETWORK all")) _ _
        (add_reply-IsJoined s ssid sec flags cred (s.answer (codes "ADD_NETWORK")) _))

connect_scanned-IsJoined :
    (s : Supplicant) (ssid : Bytes) (secret : Secret) (reply : Option Bytes) (sent : List Bytes)
    → IsJoined s (connect_scanned s ssid secret reply sent)
unfolding connect_scanned
connect_scanned-IsJoined s ssid secret none sent = refused_IsJoined s request_failed sent
connect_scanned-IsJoined s ssid secret (some reply) sent =
    let flags = flags_of ssid (split 10 reply) in
    join_with-IsJoined s ssid (security_of flags) flags
      (credential (security_of flags) s.saved secret) sent

connect-await_connected :
    (s : Supplicant) (ssid : Bytes) (secret : Secret) → IsJoined s (connect s ssid secret)
unfolding connect
connect-await_connected s ssid secret =
    connect_scanned-IsJoined s ssid secret (s.answer (codes "SCAN_RESULTS"))
      (codes "SCAN_RESULTS" ∷ [])

-- The event says that the association was completed.
abbrev pub IsCompletion : Bytes → Type 0
IsCompletion ev = contains ev (codes "CTRL-EVENT-CONNECTED") ≡ true

-- The event says neither that the association was completed nor that it failed.
abbrev pub IsUndecided : Bytes → Type 0
IsUndecided ev =
    (contains ev (codes "CTRL-EVENT-CONNECTED") ≡ false)
    × (contains ev (codes "CTRL-EVENT-SSID-TEMP-DISABLED") ≡ false)
    × (contains ev (codes "WRONG_KEY") ≡ false)
    × (contains ev (codes "CTRL-EVENT-ASSOC-REJECT") ≡ false)

-- The events have a completion with none but undecided ones before it.
abbrev pub IsCompleted : List Bytes → Type 0
IsCompleted events =
    (before : List Bytes) × (ev : Bytes) × (later : List Bytes) × (events ≡ before ++ ev ∷ later)
    × All IsUndecided before
    × IsCompletion ev

await_connected-IsCompleted :
    (events : List Bytes) → await_connected events ≡ true → IsCompleted events
unfolding await_connected
await_connected-IsCompleted [] e = absurd (cc e)
await_connected-IsCompleted (ev ∷ events) e =
    by_tests (contains ev (codes "CTRL-EVENT-CONNECTED"))
      (contains ev (codes "CTRL-EVENT-SSID-TEMP-DISABLED")) (contains ev (codes "WRONG_KEY"))
      (contains ev (codes "CTRL-EVENT-ASSOC-REJECT")) (await_connected-IsCompleted events) refl refl
      refl refl e
  where
    by_tests :
        (a b c d : Bool)
        → (await_connected events ≡ true → IsCompleted events)
        → contains ev (codes "CTRL-EVENT-CONNECTED") ≡ a
        → contains ev (codes "CTRL-EVENT-SSID-TEMP-DISABLED") ≡ b
        → contains ev (codes "WRONG_KEY") ≡ c
        → contains ev (codes "CTRL-EVENT-ASSOC-REJECT") ≡ d
        → (if a then true else if b || c || d then false else await_connected events) ≡ true
        → IsCompleted (ev ∷ events)
    by_tests true b c d further at_a at_b at_c at_d h = ([], ev, events, refl, tt, at_a)
    by_tests false true c d further at_a at_b at_c at_d h = absurd (cc h)
    by_tests false false true d further at_a at_b at_c at_d h = absurd (cc h)
    by_tests false false false true further at_a at_b at_c at_d h = absurd (cc h)
    by_tests false false false false further at_a at_b at_c at_d h =
        let (before, end, later, same, quiet, done) = further h in
        (ev ∷ before, end, later, ap (λ l. ev ∷ l) same, ((at_a, at_b, at_c, at_d), quiet), done)

-- Connect returns without an error, and so writes the file of a network, only where an event of the
-- supplicant said CTRL-EVENT-CONNECTED, and no event before it said that, CTRL-EVENT-SSID-TEMP-DISABLED,
-- WRONG_KEY or CTRL-EVENT-ASSOC-REJECT.
pub connect-IsCompleted :
    (s : Supplicant) (ssid : Bytes) (secret : Secret) (file : Option (Bytes × Bytes))
    → (connect s ssid secret).0 ≡ ok file
    → IsCompleted s.events
connect-IsCompleted s ssid secret file e =
    await_connected-IsCompleted s.events (connect-await_connected s ssid secret file e)
