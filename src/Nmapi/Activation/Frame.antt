-- ===== src/Nmapi/Activation/Frame.antt =====
-- internal/nmapi/activate.go: which operations leave alone what binds devices and active connections.
use sinty_nm.Base.{
  ◌==◌, ==_iff, Bool-cases, Bytes, ℕ, ◌≡◌, refl, ap, ◌∙◌, inl, inr, Bool, Option, List,
}
use sinty_nm.Nmapi.State.{Device, ActiveConnection, Manager, update, put_device, put_active}
use sinty_nm.Nmapi.Device.{set_state, set_ip4_config, set_active_ap}
use sinty_nm.Nmapi.Activation.{set_active_state, set_ip4}

-- The bindings: the lists of devices and active connections, and what their objects say of each other.
pub record Bindings : Type 0 where
  pub dev_gen : ℕ
  pub devices : List ℕ
  pub by_path : List ℕ
  pub by_iface : List (Bytes × ℕ)
  pub iface : ℕ → Bytes
  pub ac_gen : ℕ
  pub listed : List ℕ
  pub primary : Option ℕ
  pub running : List ℕ
  pub bound : ℕ → Option ℕ
  pub owner : ℕ → ℕ
  pub gone : ℕ → Bool
  pub adopted : ℕ → Bool

abbrev pub bindings : Manager → Bindings
bindings m = record {
  dev_gen = m.dev_gen;
  devices = m.devices;
  by_path = m.dev_by_path;
  by_iface = m.dev_by_iface;
  iface = λ d. (m.device d).iface;
  ac_gen = m.ac_gen;
  listed = m.active_conns;
  primary = m.primary;
  running = m.running;
  bound = λ d. (m.device d).active_conn;
  owner = λ p. (m.active p).device;
  gone = λ p. (m.active p).gone;
  adopted = λ p. (m.active p).adopted;
}

-- What an object says, after a write that does not change it.
pub field-update {ℓ κ} :
    {A : Type ℓ} {B : Type κ} (field : A → B) (h : ℕ → A) (p : ℕ) (v : A)
    → field v ≡ field (h p)
    → ◌≡◌ {A = ℕ → B} (λ q. field (update h p v q)) (λ q. field (h q))
field-update field h p v same i q = at q i
  where
    at : (q : ℕ) → field (update h p v q) ≡ field (h q)
    at q = elim (Bool-cases (q == p)) [
      | inl e ↦ rw e (rw ((==_iff q p).0 e) same)
      | inr e ↦ rw e refl
    ]

-- A write of a device that keeps its connection and its name.
pub put_device-bindings :
    (d : ℕ) (v : Device) (m : Manager)
    → v.active_conn ≡ (m.device d).active_conn
    → v.iface ≡ (m.device d).iface
    → bindings (put_device d v m) ≡ bindings m
put_device-bindings d v m same named =
    ap (λ bound. record (bindings (put_device d v m)) { bound = bound })
      (field-update (λ dev. dev.active_conn) m.device d v same)
    ∙ ap (λ iface. record (bindings m) { iface = iface })
        (field-update (λ dev. dev.iface) m.device d v named)

-- A write of an active connection that keeps its device and marks.
pub put_active-bindings :
    (p : ℕ) (v : ActiveConnection) (m : Manager)
    → v.device ≡ (m.active p).device
    → v.gone ≡ (m.active p).gone
    → v.adopted ≡ (m.active p).adopted
    → bindings (put_active p v m) ≡ bindings m
put_active-bindings p v m device gone adopted =
    ap (λ owner. record (bindings (put_active p v m)) { owner = owner })
      (field-update (λ ac. ac.device) m.active p v device)
    ∙ (ap (λ g. record (bindings (put_active p v m)) { owner = (bindings m).owner; gone = g })
          (field-update (λ ac. ac.gone) m.active p v gone)
        ∙ ap (λ a. record (bindings m) { adopted = a })
            (field-update (λ ac. ac.adopted) m.active p v adopted))

pub set_state-bindings : (d s r : ℕ) (m : Manager) → bindings (set_state d s r m) ≡ bindings m
unfolding set_state
set_state-bindings d s r m = elim (Bool-cases ((m.device d).state == s)) [
  | inl e ↦ rw e refl
  | inr e ↦ rw e (put_device-bindings d (record (m.device d) { state = s }) m refl refl)
]

pub set_active_state-bindings :
    (p s r : ℕ) (m : Manager) → bindings (set_active_state p s r m) ≡ bindings m
unfolding set_active_state
set_active_state-bindings p s r m =
    put_active-bindings p (record (m.active p) { state = s }) m refl refl refl

pub set_ip4-bindings :
    (p : ℕ) (ip4 : Option ℕ) (m : Manager) → bindings (set_ip4 p ip4 m) ≡ bindings m
unfolding set_ip4
set_ip4-bindings p ip4 m =
    put_active-bindings p (record (m.active p) { ip4 = ip4 }) m refl refl refl

pub set_ip4_config-bindings :
    (d : ℕ) (ip4 dhcp4 : Option ℕ) (m : Manager)
    → bindings (set_ip4_config d ip4 dhcp4 m) ≡ bindings m
unfolding set_ip4_config
set_ip4_config-bindings d ip4 dhcp4 m =
    put_device-bindings d (record (m.device d) { ip4 = ip4; dhcp4 = dhcp4 }) m refl refl

pub set_active_ap-bindings :
    (d : ℕ) (ap : Option ℕ) (m : Manager) → bindings (set_active_ap d ap m) ≡ bindings m
unfolding set_active_ap
set_active_ap-bindings d path m =
    put_device-bindings d (record (m.device d) { active_ap = path }) m refl refl
