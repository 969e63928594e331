-- ===== src/Nmapi/Variant/Secrets.antt =====
-- internal/nmapi/settings.go: what the copies and updates of a settings map do with its secrets.
use sinty_nm.Base.{
  if◌then◌else◌, Bool-cases, Bytes, codes, ◌≡◌, refl, ap, ◌∙◌, ◌≢◌, inl, inr, Bool, true, false,
  not, ◌&&◌, Option, none, [], ◌∷◌,
}
use sinty_nm.Base.Dict.{
  find, remove, bytes_eq, bytes_equal, bytes_equal_iff, find-remove_self, find-remove_other,
}
use sinty_nm.Nmapi.Variant.{Variant, Group, SettingsMap, group_of, strip_group, clone_settings}

-- The value of a key in a group.
abbrev pub value_of : Bytes → Bytes → SettingsMap → Option Variant
value_of group key settings = find key (group_of group settings)

abbrev pub security : Bytes
security = codes "802-11-wireless-security"

abbrev pub psk : Bytes
psk = codes "psk"

-- A clone without secrets, group by group.
group_of-clone_settings :
    (group : Bytes) (settings : SettingsMap)
    → group_of group (clone_settings settings false)
      ≡ strip_group false group (group_of group settings)
unfolding clone_settings group_of strip_group
group_of-clone_settings group [] =
    elim (Bool-cases (bytes_equal group (codes "802-11-wireless-security"))) [
      | inl e ↦ rw e refl
      | inr e ↦ rw e refl
    ]
group_of-clone_settings group ((name, kv) ∷ settings) = elim (Bool-cases (bytes_equal name group)) [
  | inl e ↦ rw (e, group_of) (ap (λ n. strip_group false n kv) ((bytes_equal_iff name group).0 e))
  | inr e ↦ rw (e, group_of) (group_of-clone_settings group settings)
]

-- What GetSettings hands out: the value of every key of every group, but for the pre-shared key of a
-- wifi network, which is absent.
pub clone_settings-find :
    (group key : Bytes) (settings : SettingsMap)
    → value_of group key (clone_settings settings false) ≡ (
        if bytes_equal group security && bytes_equal key psk
        then none
        else value_of group key settings)
unfolding strip_group
clone_settings-find group key settings =
    ap (find key) (group_of-clone_settings group settings)
    ∙ by_group (bytes_equal group security) (group_of group settings)
  where
    apart : bytes_equal key psk ≡ false → key ≢ psk
    apart e same = cc (e, (bytes_equal_iff key psk).1 same)

    by_group :
        (b : Bool) (kv : Group)
        → find key (if not false && b then remove psk kv else kv)
          ≡ (if b && bytes_equal key psk then none else find key kv)
    by_group false kv = refl
    by_group true kv = elim (Bool-cases (bytes_equal key psk)) [
      | inl e ↦ rw e (rw ((bytes_equal_iff key psk).0 e) (find-remove_self psk kv))
      | inr e ↦ rw e (find-remove_other psk key kv (apart e))
    ]
