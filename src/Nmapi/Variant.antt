-- ===== src/Nmapi/Variant.antt =====
-- internal/nmapi/settings.go and vpn.go: the settings map of a profile, a{sa{sv}} on the bus. A Go map
-- is an association list. A value inside a dictionary is plain, as the code reads no deeper one.
pub mod Secrets
pub mod Keeping
use sinty_nm.Base.{
  ◌==◌, if◌then◌else◌, Bytes, ℤ, codes, ℕ, Bool, true, false, not, ◌&&◌, ◌||◌, Option, none, some,
  List, [], ◌∷◌, ◌++◌, pos,
}
use sinty_nm.Base.Dict.{find, insert, remove, bytes_equal, bytes_eq}

-- dbus.Variant: the types that the code tells apart. `number` is a value of one of the four integer
-- types that variantUint reads, as the int it makes of it.
pub data Plain : Type 0 where
  text raw : Bytes → Plain
  flag : Bool → Plain
  number : ℤ → Plain
  texts : List Bytes → Plain
  other : Plain

pub data Variant : Type 0 where
  plain : Plain → Variant
  dicts : List (List (Bytes × Plain)) → Variant
  uint32_lists : List (List ℕ) → Variant
  uint32s : List ℕ → Variant
  byte_lists : List Bytes → Variant

abbrev pub Group : Type 0
Group = List (Bytes × Variant)

abbrev pub SettingsMap : Type 0
SettingsMap = List (Bytes × Group)

-- `settings[group]`, where a nil group has no keys.
unfoldable pub group_of : Bytes → SettingsMap → Group
group_of name settings = elim (find name settings) [ some g ↦ g | none ↦ [] ]

unfoldable pub has_group : Bytes → SettingsMap → Bool
has_group name settings = elim (find name settings) [ some g ↦ true | none ↦ false ]

-- variantString, on the value of the key.
unfoldable pub plain_string : Option Plain → Bytes
plain_string (some (text s)) = s
plain_string (some (raw b)) = b
plain_string _ = []

-- The plain value of a key.
unfoldable pub plain_of : Option Variant → Option Plain
plain_of (some (plain p)) = some p
plain_of (some _) = some other
plain_of none = none

-- variantString
unfoldable pub variant_string : Group → Bytes → Bytes
variant_string g key = plain_string (plain_of (find key g))

-- variantUint: `atoi` is strconv.Atoi, with 0 on an error.
unfoldable pub plain_int : (Bytes → ℤ) → Option Plain → ℤ
plain_int atoi (some (number n)) = n
plain_int atoi (some (text s)) = atoi s
plain_int atoi _ = pos 0

unfoldable pub variant_uint : (Bytes → ℤ) → Group → Bytes → ℤ
variant_uint atoi g key = plain_int atoi (plain_of (find key g))

-- variantStrings: a text is split at commas, semicolons and spaces, and empty fields are dropped.
unfoldable pub is_separator : ℕ → Bool
is_separator c = c == 44 || c == 59 || c == 32

unfoldable pub put_field : Bytes → List Bytes → List Bytes
put_field [] fields = fields
put_field (c ∷ cs) fields = (c ∷ cs) ∷ fields

unfoldable pub fields_of : Bytes → Bytes → List Bytes
fields_of field [] = put_field field []
fields_of field (c ∷ cs) =
    let split = put_field field (fields_of [] cs) in
    let joined = fields_of (field ++ c ∷ []) cs in if is_separator c then split else joined

unfoldable pub plain_strings : Plain → List Bytes
plain_strings (texts ss) = ss
plain_strings (text s) = fields_of [] s
plain_strings _ = []

unfoldable pub variant_strings : Variant → List Bytes
variant_strings (plain p) = plain_strings p
variant_strings _ = []

-- setVariant, with a text.
unfoldable pub set_variant : SettingsMap → Bytes → Bytes → Bytes → SettingsMap
set_variant settings group key val =
    insert group (insert key (plain (text val)) (group_of group settings)) settings

-- cloneSettings: the groups as they are, but for the secret of a wifi network. cloneGroup copies a
-- group, which a list is already.
unfoldable pub strip_group : Bool → Bytes → Group → Group
strip_group with_secrets group kv =
    if not with_secrets && bytes_equal group (codes "802-11-wireless-security")
    then remove (codes "psk") kv
    else kv

unfoldable pub clone_settings : SettingsMap → Bool → SettingsMap
clone_settings [] with_secrets = []
clone_settings ((group, kv) ∷ settings) with_secrets =
    (group, strip_group with_secrets group kv) ∷ clone_settings settings with_secrets

-- keepSecrets: one secret key, with the value the profile has for it, if any.
unfoldable pub keep_value : Bytes → Bytes → Option Variant → SettingsMap → SettingsMap
keep_value group key none next = next
keep_value group key (some old) next = elim (find group next) [
  | none ↦ next
  | some g ↦ elim (find key g) [ some v ↦ next | none ↦ insert group (insert key old g) next ]
]

unfoldable pub keep_secret : Bytes → Bytes → SettingsMap → SettingsMap → SettingsMap
keep_secret group key next prev = keep_value group key (find key (group_of group prev)) next

-- keepSecrets
unfoldable pub keep_secrets : SettingsMap → SettingsMap → SettingsMap
keep_secrets next prev =
    keep_secret (codes "wireguard") (codes "private-key")
      (keep_secret (codes "802-11-wireless-security") (codes "psk") next prev) prev
