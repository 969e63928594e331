-- ===== src/Nmapi/Steps/Events.antt =====
-- internal/nmapi, onWifiEvent and autowired.go: wifi events and automatic wired connections keep devices
-- and active connections in agreement.
use sinty_nm.Base.{
  if◌then◌else◌, Bool-cases, Bytes, codes, ℕ, ◌≤◌, ◌≡◌, refl, ap, ◌∙◌, inl, inr, Bool, true, false,
  ◌&&◌, Option, none, some, [], ◌∷◌,
}
use sinty_nm.Base.Dict.{find, bytes_eq}
use sinty_nm.Core.{
  LinkInfo, WifiState, wifi_disconnected, wifi_connecting, wifi_connected, wifi_disconnecting,
  WifiEvent,
}
use sinty_nm.Nmapi.Types.{
  dev_state_disconnected, dev_state_config, dev_state_activated, dev_state_deactivating,
  dev_reason_none, is_wifi, is_ethernet,
}
use sinty_nm.Nmapi.Variant.{SettingsMap, has_group}
use sinty_nm.Nmapi.Profile.{SettingsConnection}
use sinty_nm.Nmapi.State.{Manager, set_up, populate_aps, log, spawn}
use sinty_nm.Nmapi.Device.{set_state}
use sinty_nm.Nmapi.Store.{add, add_valid}
use sinty_nm.Nmapi.Activation.{ap_path_for_ssid, activate}
use sinty_nm.Nmapi.Activation.Frame.{
  bindings, put_device-bindings, set_state-bindings, set_active_ap-bindings,
}
use sinty_nm.Nmapi.Activation.Invariant.{Bound}
use sinty_nm.Nmapi.Activation.Operations.{Bound-along, Bound-activate}
use sinty_nm.Nmapi.Auto.{
  wired_settings, Answers, drop_adopted_wifi, joined_ap, on_wifi_state, wifi_event_at,
  on_wifi_event, first_wired_profile, set_auto_wired, unless_failed, activate_profile,
  wired_profile, may_connect, auto_connect, read_carrier, manage,
}
use sinty_nm.Nmapi.Steps.Adoption.{Bound-drop_adopted_wifi, Bound-adopt_wifi}

joined_ap-bindings :
    (d : ℕ) (ssid : Bytes) (m : Manager) → bindings (joined_ap d ssid m) ≡ bindings m
unfolding joined_ap
joined_ap-bindings d [] m = refl
joined_ap-bindings d (c ∷ cs) m =
    set_active_ap-bindings d (ap_path_for_ssid (c ∷ cs) (m.device d)) m

Bound-on_wifi_state :
    (state : WifiState) (exported : Bool) (d : ℕ) (ssid : Bytes) (m : Manager)
    → Bound (bindings m)
    → d ≤ m.dev_gen
    → Bound (bindings (on_wifi_state state exported d ssid m))
unfolding on_wifi_state
Bound-on_wifi_state wifi_connected exported d ssid m h known =
    let activated = set_state d dev_state_activated dev_reason_none m in
    let same =
      joined_ap-bindings d ssid activated
      ∙ set_state-bindings d dev_state_activated dev_reason_none m in
    Bound-adopt_wifi exported d ssid (spawn (populate_aps d) (joined_ap d ssid activated))
      (Bound-along same h) (rw (ap (λ b. b.dev_gen) same) known)
Bound-on_wifi_state wifi_connecting exported d ssid m h known =
    Bound-along (set_state-bindings d dev_state_config dev_reason_none m) h
Bound-on_wifi_state wifi_disconnecting exported d ssid m h known =
    Bound-along (set_state-bindings d dev_state_deactivating dev_reason_none m) h
Bound-on_wifi_state wifi_disconnected exported d ssid m h known =
    let dropped = drop_adopted_wifi d m in
    let settled = set_state d dev_state_disconnected dev_reason_none dropped in
    Bound-along
      (set_active_ap-bindings d none settled
        ∙ set_state-bindings d dev_state_disconnected dev_reason_none dropped)
      (Bound-drop_adopted_wifi d m h)

-- A wifi event.
pub Bound-on_wifi_event :
    (exported : Bool) (ev : WifiEvent) (m : Manager)
    → Bound (bindings m)
    → Bound (bindings (on_wifi_event exported ev m))
unfolding on_wifi_event wifi_event_at
Bound-on_wifi_event exported ev m h = at (find ev.device m.dev_by_iface) refl
  where
    moved :
        (d : ℕ)
        → d ≤ m.dev_gen
        → (b : Bool)
        → Bound (bindings (if b then on_wifi_state ev.state exported d ev.connected_ssid m else m))
    moved d known true = Bound-on_wifi_state ev.state exported d ev.connected_ssid m h known
    moved d known false = h

    at :
        (o : Option ℕ)
        → find ev.device m.dev_by_iface ≡ o
        → Bound (bindings (wifi_event_at o exported ev m))
    at none e = h
    at (some d) e = moved d (h.known d (h.found ev.device d e).0).2 (is_wifi (m.device d).kind)

set_auto_wired-bindings :
    (d : ℕ) (tried : Bool) (m : Manager) → bindings (set_auto_wired d tried m) ≡ bindings m
unfolding set_auto_wired
set_auto_wired-bindings d tried m =
    put_device-bindings d (record (m.device d) { auto_wired = tried }) m refl refl

pub add-bindings :
    (fresh : Bytes) (written exported : Bool) (settings : SettingsMap) (m : Manager)
    → bindings ((add fresh written exported settings m).1) ≡ bindings m
unfolding add add_valid
add-bindings fresh written exported settings m =
    elim (Bool-cases (has_group (codes "connection") settings)) [
      | inr e ↦ rw e refl
      | inl e ↦ rw e (elim (Bool-cases exported) [ inl x ↦ rw x refl | inr x ↦ rw x refl ])
    ]

wired_profile-bindings :
    (a : Answers) (o : Option SettingsConnection) (m : Manager)
    → bindings ((wired_profile a o m).1) ≡ bindings m
unfolding wired_profile
wired_profile-bindings a (some sc) m = refl
wired_profile-bindings a none m = add-bindings a.fresh a.written a.exports_profile wired_settings m

Bound-activate_profile :
    (a : Answers) (d : ℕ) (found : Option SettingsConnection × Manager)
    → Bound (bindings (found.1))
    → d ≤ found.1.dev_gen
    → Bound (bindings (activate_profile a d found))
unfolding activate_profile unless_failed
Bound-activate_profile a d (none, m) h known = Bound-along (set_auto_wired-bindings d false m) h
Bound-activate_profile a d (some sc, m) h known =
    after (activate a.exports_active sc d none m)
      (Bound-activate a.exports_active sc d none m h known)
  where
    after : (r : Option ℕ × Manager) → Bound (bindings (r.1)) → Bound (bindings (unless_failed d r))
    after (some p, n) k = k
    after (none, n) k = Bound-along (set_auto_wired-bindings d false n) k

-- The automatic connection of a wired device.
pub Bound-auto_connect :
    (a : Answers) (d : ℕ) (m : Manager)
    → Bound (bindings m)
    → d ≤ m.dev_gen
    → Bound (bindings (auto_connect a d m))
unfolding auto_connect
Bound-auto_connect a d m h known = by_test (may_connect (m.device d))
  where
    tried : Manager
    tried = set_auto_wired d true m

    same :
        bindings (
          (wired_profile a
            (first_wired_profile d (set_auto_wired d true m))
            (set_auto_wired d true m)).1)
        ≡ bindings m
    same =
        wired_profile-bindings a (first_wired_profile d (set_auto_wired d true m))
          (set_auto_wired d true m)
        ∙ set_auto_wired-bindings d true m

    by_test :
        (b : Bool)
        → Bound (
            bindings (
              if b
              then activate_profile a d (
                  wired_profile a
                    (first_wired_profile d (set_auto_wired d true m))
                    (set_auto_wired d true m))
              else m))
    by_test true =
        Bound-activate_profile a d
          (wired_profile a (first_wired_profile d (set_auto_wired d true m))
            (set_auto_wired d true m))
          (Bound-along same h) (rw (ap (λ b. b.dev_gen) same) known)
    by_test false = h

read_carrier-bindings :
    (d : ℕ) (link : Option LinkInfo) (m : Manager) → bindings (read_carrier d link m) ≡ bindings m
unfolding read_carrier
read_carrier-bindings d none m = refl
read_carrier-bindings d (some li) m =
    put_device-bindings d (record (m.device d) { carrier = li.carrier }) m refl refl

-- The management of a wired device that appeared.
pub Bound-manage :
    (a : Answers) (raised : Bool) (link : Option LinkInfo) (d : ℕ) (m : Manager)
    → Bound (bindings m)
    → d ≤ m.dev_gen
    → Bound (bindings (manage a raised link d m))
unfolding manage
Bound-manage a raised link d m h known =
    by_test (is_ethernet (m.device d).kind && (m.device d).managed) raised
  where
    asked : Manager
    asked = log (set_up (m.device d).index) m

    by_test :
        (b up : Bool)
        → Bound (
            bindings
              (if b then if up then auto_connect a d (read_carrier d link asked) else asked else m))
    by_test false up = h
    by_test true false = h
    by_test true true =
        let same = read_carrier-bindings d link asked in
        Bound-auto_connect a d (read_carrier d link asked) (Bound-along same h)
          (rw (ap (λ b. b.dev_gen) same) known)
