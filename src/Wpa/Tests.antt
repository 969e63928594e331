-- ===== src/Wpa/Tests.antt =====
-- Concrete scans and dialogues, and the theorems of Wpa on them.
use sinty_nm.Base.{
  Bytes, ℤ, codes, ◌≡◌, refl, true, Option, none, some, List, [], ◌∷◌, ◌++◌, arith, pos,
}
use sinty_nm.Core.{sec_open}
use sinty_nm.Wpa.Scan.{parse_scan_results, security_of}
use sinty_nm.Wpa.Scan.Networks.{Pairwise, IsApart, IsWeaker, parse_scan_results-Pairwise}
use sinty_nm.Wpa.Status.{follow}
use sinty_nm.Wpa.Status.Deliveries.{IsNews, last_heard, last_reported, follow-IsNews}
use sinty_nm.Wpa.Profiles.Names.{profile_name-one}
use sinty_nm.Wpa.Connect.{
  Supplicant, answers, connect, connect_scanned, join_with, join, unread, add_reply, configure,
  select, file_to_save, await_connected, is_ok, set_all, credential, flags_of, flags_in, or_flags,
  network_settings, key_settings,
}
use sinty_nm.Wpa.Connect.Saving.{IsCompleted, connect-IsCompleted}

-- Two networks, read with numbers that are all 35.
abbrev scan : Bytes
scan =
    codes "bssid"
    ++ 10 ∷ codes "aa"
    ++ 9 ∷ codes "2412"
    ++ 9 ∷ codes "35"
    ++ 9 ∷ codes "[ESS]"
    ++ 9 ∷ codes "home"
    ++ 10 ∷ codes "bb"
    ++ 9 ∷ codes "2437"
    ++ 9 ∷ codes "35"
    ++ 9 ∷ codes "[ESS]"
    ++ 9 ∷ codes "cafe"

abbrev reads_35 : Bytes → ℤ
reads_35 s = pos 35

parse_scan_results-Pairwise_example :
    Pairwise IsApart (parse_scan_results reads_35 scan)
    × Pairwise IsWeaker (parse_scan_results reads_35 scan)
parse_scan_results-Pairwise_example = parse_scan_results-Pairwise reads_35 scan

profile_name-one_example : ◌≡◌ {A = Bytes} (65 ∷ 61 ∷ []) (65 ∷ 61 ∷ [])
profile_name-one_example =
    profile_name-one (65 ∷ 61 ∷ []) (65 ∷ 61 ∷ []) (omega arith, (omega arith, tt))
      (omega arith, (omega arith, tt)) refl

abbrev replies : List (Option Bytes)
replies = some (codes "wpa_state=COMPLETED") ∷ some (codes "wpa_state=SCANNING") ∷ none ∷ []

follow-IsNews_example :
    IsNews (codes "wlan0") none (follow (codes "wlan0") none replies)
    × (last_heard none (follow (codes "wlan0") none replies) ≡ last_reported none replies)
follow-IsNews_example = follow-IsNews (codes "wlan0") none replies

-- A supplicant that says OK to all, before an open network.
abbrev willing : Supplicant
willing = record {
  answer = λ cmd. some (codes "OK");
  events = codes "CTRL-EVENT-CONNECTED" ∷ [];
  saved = none;
  quote = λ s. s;
  is_number = λ s. true;
}

connect-IsCompleted_example : IsCompleted willing.events
unfolding connect connect_scanned join_with join unread add_reply configure select file_to_save
    await_connected is_ok set_all credential flags_of flags_in or_flags network_settings
    key_settings security_of
connect-IsCompleted_example =
    connect-IsCompleted willing (codes "cafe") (answers none)
      (file_to_save (codes "cafe") sec_open (none, true)) refl
