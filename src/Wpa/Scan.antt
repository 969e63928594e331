-- ===== src/Wpa/Scan.antt =====
-- internal/backend/wpa/wpa.go: the networks of a scan. `atoi` is strconv.Atoi, with 0 on an error.
pub mod Networks
use sinty_nm.Base.{
  ltb, leb, if◌then◌else◌, drop, Bytes, ℤ, codes, split, split_n, contains, ℕ, ◌-◌, ◌*◌, ◌%◌, ◌^◌,
  min, ap, Bool, false, ◌||◌, Option, none, some, List, [], ◌∷◌, pos, negsuc,
}
use sinty_nm.Base.Dict.{bytes_equal}
use sinty_nm.Core.{WifiSecurity, sec_open, sec_wep, sec_psk, sec_enterprise, ScannedAp}
use sinty_nm.Wpa.Escape.{unescape}

-- strength: the arithmetic is that of a 64-bit int, and a negative signal `negsuc n` is -(n + 1).
unfoldable pub positive_strength : ℕ → ℕ
positive_strength twice = if ltb twice (2 ^ 63) then min twice 100 else twice % 256

unfoldable pub negative_strength : ℕ → ℕ
negative_strength twice = if leb twice (2 ^ 63) then 0 else min (2 ^ 64 - twice) 100

unfoldable pub strength : ℤ → ℕ
strength (pos n) = positive_strength (2 * n % 2 ^ 64)
strength (negsuc n) =
    if leb n 99 then min (2 * (99 - n)) 100 else negative_strength (2 * (n - 99) % 2 ^ 64)

-- securityOf
unfoldable pub security_of : Bytes → WifiSecurity
security_of flags =
    if contains flags (codes "EAP")
    then sec_enterprise
    else if contains flags (codes "PSK") || contains flags (codes "SAE")
    then sec_psk
    else if contains flags (codes "WEP")
    then sec_wep
    else sec_open

-- uint32 of an int
unfoldable pub to_uint32 : ℤ → ℕ
to_uint32 (pos n) = n % 2 ^ 32
to_uint32 (negsuc n) = 2 ^ 32 - 1 - n % 2 ^ 32

-- parseScanResults: a line of five fields, the last not empty.
unfoldable pub ap_of : (Bytes → ℤ) → Bytes → Bytes → Bytes → Bytes → Bytes → ScannedAp
ap_of atoi bssid freq sig flags ssid = record {
  ssid = unescape ssid;
  bssid = bssid;
  strength = strength (atoi sig);
  frequency = to_uint32 (atoi freq);
  security = security_of flags;
  known = false;
  handle = [];
}

unfoldable pub ap_in : (Bytes → ℤ) → List Bytes → Option ScannedAp
ap_in atoi (bssid ∷ freq ∷ sig ∷ flags ∷ (c ∷ cs) ∷ []) =
    some (ap_of atoi bssid freq sig flags (c ∷ cs))
ap_in atoi _ = none

-- parseScanResults: one entry per SSID, the strongest. `seen` finds the entry of an SSID.
unfoldable pub merge_ap : ScannedAp → List ScannedAp → List ScannedAp
merge_ap ap [] = ap ∷ []
merge_ap ap (x ∷ out) =
    let rest = merge_ap ap out in
    if bytes_equal x.ssid ap.ssid
    then (if ltb x.strength ap.strength then ap ∷ out else x ∷ out)
    else x ∷ rest

unfoldable pub merge_line : Option ScannedAp → List ScannedAp → List ScannedAp
merge_line none out = out
merge_line (some ap) out = merge_ap ap out

unfoldable pub merge_lines : (Bytes → ℤ) → List Bytes → List ScannedAp → List ScannedAp
merge_lines atoi [] out = out
merge_lines atoi (line ∷ lines) out =
    merge_lines atoi lines (merge_line (ap_in atoi (split_n 4 9 line)) out)

-- parseScanResults: the sort. The entries before `i` are sorted; here they stand in reverse, and the
-- next one moves past those that are weaker.
unfoldable pub sink : ScannedAp → List ScannedAp → List ScannedAp
sink ap [] = ap ∷ []
sink ap (x ∷ sorted) =
    let rest = sink ap sorted in if ltb x.strength ap.strength then x ∷ rest else ap ∷ x ∷ sorted

unfoldable pub sort_from : List ScannedAp → List ScannedAp → List ScannedAp
sort_from sorted [] = sorted
sort_from sorted (ap ∷ aps) = sort_from (sink ap sorted) aps

unfoldable pub reversed : List ScannedAp → List ScannedAp → List ScannedAp
reversed done [] = done
reversed done (ap ∷ aps) = reversed (ap ∷ done) aps

unfoldable pub strongest_first : List ScannedAp → List ScannedAp
strongest_first out = reversed [] (sort_from [] out)

-- parseScanResults
unfoldable pub parse_scan_results : (Bytes → ℤ) → Bytes → List ScannedAp
parse_scan_results atoi text = strongest_first (merge_lines atoi (drop 1 (split 10 text)) [])

-- OrderedNetworks, with what is known of the saved networks; `none` is the error of the request.
unfoldable pub with_known : (Bytes → Bool) → List ScannedAp → List ScannedAp
with_known known [] = []
with_known known (ap ∷ aps) =
    record ap { known = known ap.ssid; handle = ap.ssid } ∷ with_known known aps

unfoldable pub ordered_networks :
    (Bytes → ℤ) → (Bytes → Bool) → Option Bytes → Option (List ScannedAp)
ordered_networks atoi known none = none
ordered_networks atoi known (some reply) = some (with_known known (parse_scan_results atoi reply))
