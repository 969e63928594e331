-- ===== src/Nmapi/Complete/Filling.antt =====
-- internal/nmapi/manager.go, `completeSettings`: what a completed profile has.
use sinty_nm.Base.{
  Bytes, codes, ℕ, ◌≡◌, refl, sym, ap, subst, ◌≢◌, ◌⊎◌, inl, inr, true, false, Option, none, some,
  [], ◌∷◌,
}
use sinty_nm.Base.Dict.{
  find, insert, bytes_eq, bytes_equal_iff, find-insert_self, find-insert_other,
}
use sinty_nm.Nmapi.Variant.{
  text, plain, Group, SettingsMap, group_of, has_group, plain_string, plain_of, variant_string,
}
use sinty_nm.Nmapi.Profile.{or_default, ssid_value}
use sinty_nm.Nmapi.State.{Manager}
use sinty_nm.Nmapi.Complete.{
  type_of_sections, type_of_device, fill_wifi, fill_text, id_from, fill_connection,
  complete_settings, ap_ssid,
}

or_default-filled : (d s : Bytes) → d ≢ [] → or_default d s ≢ []
or_default-filled d [] some_d = some_d
or_default-filled d (c ∷ cs) some_d = λ e. cc e

-- A text that was filled in, or was there, is not empty.
fill_text-filled :
    (key val : Bytes) (g : Group)
    → val ≢ []
    → variant_string (fill_text key (variant_string g key) val g) key ≢ []
unfolding fill_text variant_string plain_string plain_of
fill_text-filled key val g some_val = at (variant_string g key) refl val some_val
  where
    at :
        (old : Bytes)
        → variant_string g key ≡ old
        → (v : Bytes) → v ≢ []
        → variant_string (fill_text key old v g) key ≢ []
    at (c ∷ cs) e v nonempty same = cc (e, same)
    at [] e [] nonempty same = absurd (nonempty refl)
    at [] e (c ∷ cs) nonempty same =
        cc (
          ap (λ o. plain_string (plain_of o)) (find-insert_self key (plain (text (c ∷ cs))) g),
          same,
        )

-- Filling in one text leaves another one as it is.
fill_text-other :
    (key other val old : Bytes) (g : Group)
    → other ≢ key
    → variant_string (fill_text key old val g) other ≡ variant_string g other
unfolding fill_text variant_string
fill_text-other key other val (c ∷ cs) g apart = refl
fill_text-other key other [] [] g apart = refl
fill_text-other key other (c ∷ cs) [] g apart =
    ap (λ o. plain_string (plain_of o))
      (find-insert_other key other (plain (text (c ∷ cs))) g apart)

group_of-insert :
    (name : Bytes) (g : Group) (settings : SettingsMap) → group_of name (insert name g settings) ≡ g
unfolding group_of
group_of-insert name g settings =
    ap (λ o. elim o [ some x ↦ x | none ↦ [] ]) (find-insert_self name g settings)

has_group-insert :
    (name : Bytes) (g : Group) (settings : SettingsMap)
    → has_group name (insert name g settings) ≡ true
unfolding has_group
has_group-insert name g settings =
    ap (λ o. elim o [ some x ↦ true | none ↦ false ]) (find-insert_self name g settings)

-- The connection section that is put in.
abbrev section : Bytes → SettingsMap → Group
section conn_type settings = group_of (codes "connection") (fill_connection conn_type settings)

fill_connection_lem :
    (conn_type : Bytes) (settings : SettingsMap)
    → (has_group (codes "connection") (fill_connection conn_type settings) ≡ true)
      × (variant_string (section conn_type settings) (codes "id") ≢ [])
      × ((conn_type ≡ []) ⊎ (variant_string (section conn_type settings) (codes "type") ≢ []))
unfolding fill_connection id_from
fill_connection_lem conn_type settings = (has_group-insert _ _ settings, named, typed conn_type)
  where
    c : Group
    c = group_of (codes "connection") settings

    with_type : Bytes → Group
    with_type ty = fill_text (codes "type") (variant_string c (codes "type")) ty c

    id : Bytes
    id = id_from (group_of (codes "802-11-wireless") settings)

    full : Bytes → Group
    full ty = fill_text (codes "id") (variant_string (with_type ty) (codes "id")) id (with_type ty)

    some_id : id ≢ []
    some_id =
        or_default-filled (codes "connection")
          (ssid_value (find (codes "ssid") (group_of (codes "802-11-wireless") settings)))
          (λ e. cc e)

    id_key : codes "type" ≢ codes "id"
    id_key same = absurd (cc ((bytes_equal_iff (codes "type") (codes "id")).1 same))

    put : (ty : Bytes) → section ty settings ≡ full ty
    put ty = group_of-insert (codes "connection") (full ty) settings

    named : variant_string (section conn_type settings) (codes "id") ≢ []
    named =
        subst (λ g. variant_string g (codes "id") ≢ []) (sym (put conn_type))
          (fill_text-filled (codes "id") id (with_type conn_type) some_id)

    typed : (ty : Bytes) → (ty ≡ []) ⊎ (variant_string (section ty settings) (codes "type") ≢ [])
    typed [] = inl refl
    typed (x ∷ xs) = inr (
        subst (λ g. variant_string g (codes "type") ≢ []) (sym (put (x ∷ xs)))
          (subst (λ s. s ≢ [])
            (sym (
              fill_text-other (codes "id") (codes "type") id
                (variant_string (with_type (x ∷ xs)) (codes "id")) (with_type (x ∷ xs)) id_key))
            (fill_text-filled (codes "type") (x ∷ xs) c (λ e. cc e))))

-- Whatever a client sends, the completed settings have a connection section with an id that is not
-- empty, and with a type that is not empty unless neither the sections nor the device tell one.
pub complete_settings_lem :
    (settings : SettingsMap) (device specific : Option ℕ) (m : Manager)
    → (has_group (codes "connection") (complete_settings settings device specific m) ≡ true)
      × (variant_string
            (group_of (codes "connection") (complete_settings settings device specific m))
            (codes "id")
          ≢ [])
      × ((or_default (type_of_device device m) (type_of_sections settings) ≡ [])
          ⊎ (variant_string
                (group_of (codes "connection") (complete_settings settings device specific m))
                (codes "type")
              ≢ []))
unfolding complete_settings
complete_settings_lem settings device specific m =
    fill_connection_lem (or_default (type_of_device device m) (type_of_sections settings)) (
      fill_wifi (or_default (type_of_device device m) (type_of_sections settings))
        (ap_ssid device specific m) settings)
