-- ===== src/Nmapi/Store.antt =====
-- internal/nmapi/settings.go, `Settings`: the profiles, and their files. The random UUID, and whether a
-- file is written and an object taken by the bus, are arguments.
use sinty_nm.Base.{
  ◌==◌, if◌then◌else◌, Bytes, codes, ℕ, ◌+◌, Bool, false, Option, none, some, List, [], ◌∷◌, ◌++◌,
  map,
}
use sinty_nm.Core.{DeviceKind}
use sinty_nm.Nmapi.Variant.{
  SettingsMap, group_of, has_group, variant_string, set_variant, keep_secrets, clone_settings,
}
use sinty_nm.Nmapi.Profile.{SettingsConnection, conn_type, or_default, kind_matches_type, sanitize}
use sinty_nm.Nmapi.State.{Manager}
use sinty_nm.Base.Dict.{bytes_equal}

abbrev system_conn_dir : Bytes
system_conn_dir = codes "/etc/NetworkManager/system-connections"

-- add: the file of an id.
unfoldable pub file_of : Bytes → Bytes
file_of id = system_conn_dir ++ codes "/" ++ sanitize id ++ codes ".nmconnection"

-- newConnection: the settings with a UUID.
unfoldable pub with_uuid : Bytes → SettingsMap → SettingsMap
with_uuid fresh settings =
    elim (variant_string (group_of (codes "connection") settings) (codes "uuid")) [
      | [] ↦ set_variant settings (codes "connection") (codes "uuid") fresh
      | ◌∷◌ c cs ↦ settings
    ]

-- newConnection
unfoldable pub new_connection : ℕ → Bytes → Bytes → SettingsMap → SettingsConnection
new_connection path fresh file settings =
    let c = group_of (codes "connection") settings in
    record {
      path = path;
      uuid = or_default fresh (variant_string c (codes "uuid"));
      id = variant_string c (codes "id");
      file = file;
      settings = with_uuid fresh settings;
    }

-- add: the id that names the file.
unfoldable pub file_id : SettingsMap → Bytes
file_id settings =
    let c = group_of (codes "connection") settings in
    or_default (variant_string c (codes "uuid")) (variant_string c (codes "id"))

-- add: the profile is kept also where its file is not written, or the bus refuses it.
unfoldable pub add_valid :
    Bytes → Bool → Bool → SettingsMap → Manager → Option SettingsConnection × Manager
add_valid fresh written exported settings m =
    let path = m.conn_gen + 1 in
    let full = with_uuid fresh settings in
    let file = if written then file_of (file_id full) else [] in
    let sc = new_connection path fresh file full in
    let kept = record m { conn_gen = path; conns = m.conns ++ sc ∷ [] } in
    if exported then (some sc, kept) else (none, kept)

-- add
unfoldable pub add :
    Bytes → Bool → Bool → SettingsMap → Manager → Option SettingsConnection × Manager
add fresh written exported settings m =
    if has_group (codes "connection") settings
    then add_valid fresh written exported settings m
    else (none, m)

-- remove: the profiles but one, which is a pointer in the source and its path here.
unfoldable pub without_path : ℕ → List SettingsConnection → List SettingsConnection
without_path p [] = []
without_path p (sc ∷ conns) =
    let rest = without_path p conns in if sc.path == p then rest else sc ∷ rest

unfoldable pub remove_profile : ℕ → Manager → Manager
remove_profile p m = record m { conns = without_path p m.conns }

-- byPath
unfoldable pub by_path : ℕ → List SettingsConnection → Option SettingsConnection
by_path p [] = none
by_path p (sc ∷ conns) = if sc.path == p then some sc else by_path p conns

-- GetConnectionByUuid
unfoldable pub by_uuid : Bytes → List SettingsConnection → Option SettingsConnection
by_uuid uuid [] = none
by_uuid uuid (sc ∷ conns) = if bytes_equal sc.uuid uuid then some sc else by_uuid uuid conns

-- ListConnections
unfoldable pub conn_paths : List SettingsConnection → List ℕ
conn_paths conns = map (λ sc. sc.path) conns

-- availableFor
unfoldable pub available_for : DeviceKind → List SettingsConnection → List ℕ
available_for kind [] = []
available_for kind (sc ∷ conns) =
    let rest = available_for kind conns in
    if kind_matches_type kind (conn_type sc) then sc.path ∷ rest else rest

-- Update: the profile with the new settings, and whether its file was written.
unfoldable pub updated : SettingsMap → SettingsConnection → SettingsConnection
updated settings sc =
    let next = keep_secrets settings sc.settings in
    let c = group_of (codes "connection") next in
    record sc {
      settings = next;
      id = variant_string c (codes "id");
      uuid = variant_string c (codes "uuid");
    }

-- Update2: empty settings leave the profile as it is.
unfoldable pub updated2 : SettingsMap → SettingsConnection → SettingsConnection
updated2 [] sc = sc
updated2 (g ∷ settings) sc = updated (g ∷ settings) sc

-- GetSettings
unfoldable pub get_settings : SettingsConnection → SettingsMap
get_settings sc = clone_settings sc.settings false
