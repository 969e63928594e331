-- ===== src/Wpa/Profiles.antt =====
-- internal/backend/wpa/wpa.go: the saved networks, in iwd's profile files. A file of the profile
-- directory is its name and what reading it answers.
pub mod Names
use sinty_nm.Base.{
  leb, ◌==◌, if◌then◌else◌, length, Bytes, codes, trim_space, split, cut, ℕ, Bool, true, ◌&&◌, ◌||◌,
  Option, none, some, List, [], ◌∷◌, ◌++◌,
}
use sinty_nm.Base.Dict.{bytes_equal}
use sinty_nm.Core.{WifiSecurity, sec_open}
use sinty_nm.Wpa.Escape.{hex_of}

-- profileName: the bytes that stand for themselves.
unfoldable pub is_plain : ℕ → Bool
is_plain c =
    leb 97 c && leb c 122
    || leb 65 c && leb c 90
    || leb 48 c && leb c 57
    || c == 45
    || c == 95
    || c == 32

unfoldable pub all_plain : Bytes → Bool
all_plain [] = true
all_plain (c ∷ cs) = is_plain c && all_plain cs

-- profileName
unfoldable pub profile_name : Bytes → Bytes
profile_name ssid = if all_plain ssid then ssid else 61 ∷ hex_of ssid

-- rawPSK: 64 hexadecimal digits.
unfoldable pub is_hex : ℕ → Bool
is_hex c = leb 48 c && leb c 57 || leb 97 c && leb c 102 || leb 65 c && leb c 70

unfoldable pub all_hex : Bytes → Bool
all_hex [] = true
all_hex (c ∷ cs) = is_hex c && all_hex cs

unfoldable pub is_raw_psk : Bytes → Bool
is_raw_psk p = length p == 64 && all_hex p

-- pskValue: `quote` is strconv.Quote.
unfoldable pub psk_value : (Bytes → Bytes) → Bytes → Bytes
psk_value quote p = if is_raw_psk p then p else quote p

-- profile: a line of a profile. A passphrase counts more than a key.
abbrev pub or_key : Bytes → Bytes → Bytes
or_key [] key = key
or_key (c ∷ cs) key = c ∷ cs

unfoldable pub read_line : Option (Bytes × Bytes) → Bytes → Bytes
read_line none psk = psk
read_line (some (k, v)) psk =
    if bytes_equal (trim_space k) (codes "Passphrase")
    then trim_space v
    else if bytes_equal (trim_space k) (codes "PreSharedKey")
    then or_key psk (trim_space v)
    else psk

unfoldable pub read_lines : List Bytes → Bytes → Bytes
read_lines [] psk = psk
read_lines (line ∷ lines) psk = read_lines lines (read_line (cut 61 line) psk)

unfoldable pub psk_in : Option Bytes → Option Bytes
psk_in none = none
psk_in (some data_read) = some (read_lines (split 10 data_read) [])

-- profile: the key of the network, empty for an open one, or `none` where none is saved.
unfoldable pub profile : (Bytes → Bool) → (Bytes → Option Bytes) → Bytes → Option Bytes
profile exists read_file ssid =
    let name = profile_name ssid in
    let saved = psk_in (read_file (name ++ codes ".psk")) in
    if exists (name ++ codes ".open") then some [] else saved

-- saveProfile: the name of the file that is written, and its contents.
unfoldable pub key_name : Bytes → Bytes
key_name psk = if is_raw_psk psk then codes "PreSharedKey" else codes "Passphrase"

unfoldable pub contents_of : Bytes → Bytes
contents_of psk = codes "[Security]" ++ 10 ∷ key_name psk ++ 61 ∷ psk ++ 10 ∷ []

unfoldable pub saved_profile : Bytes → WifiSecurity → Bytes → Bytes × Bytes
saved_profile ssid sec_open psk = (profile_name ssid ++ codes ".open", [])
saved_profile ssid _ psk = (profile_name ssid ++ codes ".psk", contents_of psk)

-- Forget: what removing each of the two files answers.
pub data Removal : Type 0 where
  removed missing refused : Removal

pub data Forgotten : Type 0 where
  forgotten unknown_network failed : Forgotten

unfoldable pub forget : Removal → Removal → Forgotten
forget refused _ = failed
forget removed refused = failed
forget missing refused = failed
forget removed _ = forgotten
forget missing removed = forgotten
forget missing missing = unknown_network
