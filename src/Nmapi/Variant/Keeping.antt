-- ===== src/Nmapi/Variant/Keeping.antt =====
-- internal/nmapi/settings.go, `keepSecrets`: an update that leaves a secret out keeps the one there was.
use sinty_nm.Base.{
  Bool-cases, Option-cases, Bytes, codes, ◌≡◌, refl, ap, ◌∙◌, ◌≢◌, ◌⊎◌, inl, inr, false, Option,
  none, some,
}
use sinty_nm.Base.Dict.{
  find, insert, bytes_eq, bytes_equal, bytes_equal_iff, find-insert_self, find-insert_other,
}
use sinty_nm.Nmapi.Variant.{
  Variant, Group, SettingsMap, group_of, keep_value, keep_secret, keep_secrets,
}
use sinty_nm.Nmapi.Variant.Secrets.{value_of, security, psk}

abbrev wireguard : Bytes
wireguard = codes "wireguard"

abbrev private_key : Bytes
private_key = codes "private-key"

Equal-cases : (a b : Bytes) → (a ≡ b) ⊎ (a ≢ b)
Equal-cases a b = elim (Bool-cases (bytes_equal a b)) [
  | inl e ↦ inl ((bytes_equal_iff a b).0 e)
  | inr e ↦ inr (λ same. absurd (cc (e, (bytes_equal_iff a b).1 same)))
]

group_of-found :
    (group : Bytes) (g : Group) (settings : SettingsMap)
    → find group settings ≡ some g
    → group_of group settings ≡ g
unfolding group_of
group_of-found group g settings e = rw (e, group_of) refl

group_of-same : (b : Bytes) (s t : SettingsMap) → find b s ≡ find b t → group_of b s ≡ group_of b t
unfolding group_of
group_of-same b s t e = rw (e, group_of) refl

-- One secret that is left out of a group that is there is filled in.
keep_value-fills :
    (group key : Bytes) (o : Option Variant) (g : Group) (next : SettingsMap)
    → find group next ≡ some g
    → find key g ≡ none
    → value_of group key (keep_value group key o next) ≡ o
unfolding keep_value
keep_value-fills group key none g next at_group out =
    ap (find key) (group_of-found group g next at_group) ∙ out
keep_value-fills group key (some old) g next at_group out =
    let same : keep_value group key (some old) next ≡ insert group (insert key old g) next =
      rw (at_group, out, keep_value) refl in
    ap (value_of group key) same
    ∙ (ap (find key) (
          group_of-found group (insert key old g) (insert group (insert key old g) next)
            (find-insert_self group (insert key old g) next))
        ∙ find-insert_self key old g)

-- Another group stays as it is.
keep_value-other :
    (b group key : Bytes) (o : Option Variant) (next : SettingsMap)
    → b ≢ group
    → find b (keep_value group key o next) ≡ find b next
unfolding keep_value
keep_value-other b group key none next apart = refl
keep_value-other b group key (some old) next apart = at (find group next) refl
  where
    at :
        (o : Option Group)
        → find group next ≡ o
        → find b (elim o [
          | none ↦ next
          | some g ↦ elim (find key g) [
            | some v ↦ next
            | none ↦ insert group (insert key old g) next
          ]
        ])
          ≡ find b next
    at none e = refl
    at (some g) e = elim (Option-cases (find key g)) [
      | inl out ↦ rw out (find-insert_other group b (insert key old g) next apart)
      | inr (v, there) ↦ rw there refl
    ]

-- The keys that hold a secret.
pub data Secret : Bytes → Bytes → Type 0 where
  wifi_psk : Secret security psk
  tunnel_key : Secret wireguard private_key

apart_of : {a b : Bytes} → bytes_equal a b ≡ false → a ≢ b
apart_of {a = a} {b = b} e = λ same. absurd (cc (e, (bytes_equal_iff a b).1 same))

-- An update that has the group of a secret, a wifi network's pre-shared key or a tunnel's private key,
-- and not the secret itself, gets the value that the profile has, or none if it has none.
pub keep_secrets-fills :
    {group key : Bytes} (next prev : SettingsMap) (g : Group)
    → Secret group key
    → find group next ≡ some g
    → find key g ≡ none
    → value_of group key (keep_secrets next prev) ≡ value_of group key prev
unfolding keep_secrets keep_secret
keep_secrets-fills next prev g wifi_psk at_group out =
    let old_psk = value_of security psk prev in
    let old_key = value_of wireguard private_key prev in
    let first = keep_value security psk old_psk next in
    ap (find psk) (
      group_of-same security (keep_value wireguard private_key old_key first) first
        (keep_value-other security wireguard private_key old_key first (apart_of refl)))
    ∙ keep_value-fills security psk old_psk g next at_group out
keep_secrets-fills next prev g tunnel_key at_group out =
    let old_psk = value_of security psk prev in
    let old_key = value_of wireguard private_key prev in
    keep_value-fills wireguard private_key old_key g (keep_value security psk old_psk next)
      (keep_value-other wireguard security psk old_psk next (apart_of refl) ∙ at_group) out
