-- ===== src/Nmapi/Activation/Unbind.antt =====
-- internal/nmapi/activate.go, `deactivate` and `activate`: what they do to the bindings of devices and
-- active connections.
use sinty_nm.Base.{
  ◌==◌, if◌then◌else◌, Bool-cases, ℕ, ◌≡◌, refl, ap, ◌∙◌, inl, inr, true, Option, none,
}
use sinty_nm.Core.{
  DeviceKind, kind_unknown, kind_ethernet, kind_wifi, kind_wire_guard, kind_loopback, kind_bridge,
  kind_tun,
}
use sinty_nm.Nmapi.Types.{
  dev_state_disconnected, dev_state_deactivating, dev_reason_user_requested, ac_state_deactivating,
  ac_state_deactivated,
}
use sinty_nm.Nmapi.State.{
  Device, Manager, dns_revert, flush_addrs, without, log, update, put_device, put_active,
}
use sinty_nm.Nmapi.Device.{set_state, set_active_connection, set_active_ap}
use sinty_nm.Nmapi.Activation.{
  set_active_state, mark_gone, tear_down, clear_device, primary_after, unlist, release_device,
  deactivate_live,
}
use sinty_nm.Nmapi.Activation.Frame.{
  field-update, Bindings, bindings, put_device-bindings, set_state-bindings,
  set_active_state-bindings, set_ip4_config-bindings, set_active_ap-bindings,
}
use sinty_nm.Nmapi.WireGuard.Frame.{tear_down_wire_guard-bindings}

-- A function with one value replaced.
abbrev pub at_one {ℓ} : {A : Type ℓ} → ℕ → A → (ℕ → A) → ℕ → A
at_one d v f e = if e == d then v else f e

-- A binding of `d`, and a mark on `p`.
abbrev pub bound_to : ℕ → Option ℕ → Bindings → Bindings
bound_to d v b = record b { bound = at_one d v b.bound }

abbrev pub marked : ℕ → Bindings → Bindings
marked p b = record b { gone = at_one p true b.gone }

-- What a deactivation does.
abbrev pub unbind : ℕ → ℕ → Bindings → Bindings
unbind p d b = record b {
  listed = without p b.listed;
  primary = primary_after p b.primary;
  bound = at_one d none b.bound;
  gone = at_one p true b.gone;
}

pub field-update_one {ℓ κ} :
    {A : Type ℓ} {B : Type κ} (field : A → B) (h : ℕ → A) (p : ℕ) (v : A)
    → ◌≡◌ {A = ℕ → B} (λ q. field (update h p v q)) (at_one p (field v) (λ q. field (h q)))
field-update_one field h p v i q = at q i
  where
    at : (q : ℕ) → field (update h p v q) ≡ at_one p (field v) (λ x. field (h x)) q
    at q = elim (Bool-cases (q == p)) [ inl e ↦ rw e refl | inr e ↦ rw e refl ]

pub set_active_connection-bindings :
    (d : ℕ) (v : Option ℕ) (m : Manager)
    → bindings (set_active_connection d v m) ≡ bound_to d v (bindings m)
unfolding set_active_connection
set_active_connection-bindings d v m =
    let named = record (m.device d) { active_conn = v } in
    ap (λ bound. record (bindings (put_device d named m)) { bound = bound })
      (field-update_one (λ dev. dev.active_conn) m.device d named)
    ∙ ap (λ iface. record (bound_to d v (bindings m)) { iface = iface })
        (field-update (λ dev. dev.iface) m.device d named refl)

mark_gone-bindings : (p : ℕ) (m : Manager) → bindings (mark_gone p m) ≡ marked p (bindings m)
unfolding mark_gone
mark_gone-bindings p m =
    let v = record (m.active p) { gone = true; cancelled = true } in
    ap (λ owner. record (bindings (put_active p v m)) { owner = owner })
      (field-update (λ ac. ac.device) m.active p v refl)
    ∙ (ap (λ g. record (bindings (put_active p v m)) { owner = (bindings m).owner; gone = g })
          (field-update_one (λ ac. ac.gone) m.active p v)
        ∙ ap (λ a. record (marked p (bindings m)) { adopted = a })
            (field-update (λ ac. ac.adopted) m.active p v refl))

tear_down-bindings :
    (k : DeviceKind) (p : ℕ) (dev : Device) (m : Manager)
    → bindings (tear_down k p dev m) ≡ bindings m
unfolding tear_down
tear_down-bindings kind_wifi p dev m = refl
tear_down-bindings kind_wire_guard p dev m = tear_down_wire_guard-bindings p m
tear_down-bindings kind_unknown p dev m = refl
tear_down-bindings kind_ethernet p dev m = refl
tear_down-bindings kind_loopback p dev m = refl
tear_down-bindings kind_bridge p dev m = refl
tear_down-bindings kind_tun p dev m = refl

clear_device-bindings :
    (d : ℕ) (m : Manager) → bindings (clear_device d m) ≡ bound_to d none (bindings m)
unfolding clear_device
clear_device-bindings d m =
    let freed = set_active_connection d none m in
    let cleared = set_active_ap d none freed in
    let emptied = record (cleared.device d) { ip4obj = none } in
    set_ip4_config-bindings d none none (put_device d emptied cleared)
    ∙ (put_device-bindings d emptied cleared refl refl
        ∙ (set_active_ap-bindings d none freed ∙ set_active_connection-bindings d none m))

release_device-bindings :
    (p d : ℕ) (m : Manager) → bindings (release_device p d m) ≡ bound_to d none (bindings m)
unfolding release_device
release_device-bindings p d m =
    let torn = tear_down (m.device d).kind p (m.device d) m in
    let left = log (dns_revert (m.device d).iface) (log (flush_addrs (m.device d).index) torn) in
    clear_device-bindings d left
    ∙ ap (bound_to d none) (tear_down-bindings (m.device d).kind p (m.device d) m)

abbrev unlisted : ℕ → Bindings → Bindings
unlisted p b = record b { listed = without p b.listed; primary = primary_after p b.primary }

-- A deactivation that is not a repetition unlists the connection, marks it, and frees its device.
pub deactivate_live-bindings :
    (p d : ℕ) (m : Manager) → bindings (deactivate_live p d m) ≡ unbind p d (bindings m)
unfolding deactivate_live unlist
deactivate_live-bindings p d m =
    let gone = mark_gone p m in
    let told = set_active_state p ac_state_deactivating dev_reason_user_requested gone in
    let leaving = set_state d dev_state_deactivating dev_reason_user_requested told in
    let freed = release_device p d leaving in
    let off = unlist p freed in
    let said = set_active_state p ac_state_deactivated dev_reason_user_requested off in
    set_state-bindings d dev_state_disconnected dev_reason_user_requested said
    ∙ (set_active_state-bindings p ac_state_deactivated dev_reason_user_requested off
        ∙ ap (unlisted p) (
            release_device-bindings p d leaving
            ∙ ap (bound_to d none) (
                set_state-bindings d dev_state_deactivating dev_reason_user_requested told
                ∙ (set_active_state-bindings p ac_state_deactivating dev_reason_user_requested gone
                    ∙ mark_gone-bindings p m))))
