-- ===== src/Nmapi/Activation/Leaving.antt =====
-- internal/nmapi/activate.go, `deactivate`: what is left of a connection and its device.
use sinty_nm.Base.{
  ◌==◌, ==_iff, Bool-cases, ℕ, ◌≡◌, refl, sym, ap, subst, ◌∙◌, ◌≢◌, inl, inr, true, false, Option,
  none, some, List, arith,
}
use sinty_nm.Nmapi.Types.{dev_state_disconnected, dev_reason_user_requested}
use sinty_nm.Nmapi.State.{Device, Manager, has, without}
use sinty_nm.Nmapi.Device.{set_state, set_active_connection, set_ip4_config, set_active_ap}
use sinty_nm.Nmapi.Activation.{
  set_active_state, clear_device, unlist, release_device, deactivate_live, deactivate,
  primary_after,
}
use sinty_nm.Nmapi.Activation.Frame.{bindings}
use sinty_nm.Nmapi.Activation.Paths.{has-without, at_one_self}
use sinty_nm.Nmapi.Activation.Invariant.{Bound}
use sinty_nm.Nmapi.Activation.Operations.{deactivate-bindings}

-- A device without a connection, an access point or a configuration.
abbrev IsIdle : Device → Type 0
IsIdle dev =
    (dev.active_conn ≡ none) × (dev.active_ap ≡ none) × (dev.ip4 ≡ none) × (dev.ip4obj ≡ none)

clear_device-IsIdle : (d : ℕ) (m : Manager) → IsIdle ((clear_device d m).device d)
unfolding clear_device set_active_connection set_active_ap set_ip4_config
clear_device-IsIdle d m =
    let here = (==_iff d d).1 refl in (rw here refl, rw here refl, rw here refl, rw here refl)

set_state-IsIdle :
    (d s r : ℕ) (m : Manager)
    → IsIdle (m.device d)
    → IsIdle ((set_state d s r m).device d) × (((set_state d s r m).device d).state ≡ s)
unfolding set_state
set_state-IsIdle d s r m h = elim (Bool-cases ((m.device d).state == s)) [
  | inl e ↦ rw e (h, (==_iff (m.device d).state s).0 e)
  | inr e ↦ rw (e, (==_iff d d).1 refl) (h, refl)
]

primary_after-other : (p : ℕ) (o : Option ℕ) → primary_after p o ≢ some p
unfolding primary_after
primary_after-other p none = λ e. absurd (cc e)
primary_after-other p (some q) = elim (Bool-cases (q == p)) [
  | inl e ↦ rw e (λ same. absurd (cc same))
  | inr e ↦ rw e (λ same. absurd (differs e (cc same)))
]
  where
    differs : (q == p) ≡ false → q ≡ p → ⊥
    differs e same = cc (e, (==_iff q p).1 same)

live-IsIdle :
    (p d : ℕ) (m : Manager)
    → IsIdle ((deactivate_live p d m).device d)
      × (((deactivate_live p d m).device d).state ≡ dev_state_disconnected)
unfolding deactivate_live set_active_state unlist release_device
live-IsIdle p d m =
    set_state-IsIdle d dev_state_disconnected dev_reason_user_requested _ (clear_device-IsIdle d _)

live_lem :
    (p : ℕ) (m : Manager)
    → (m.active p).gone ≡ false
    → deactivate p m ≡ deactivate_live p (m.active p).device m
unfolding deactivate
live_lem p m lives = rw lives refl

gone_lem : (p : ℕ) (m : Manager) → (m.active p).gone ≡ true → deactivate p m ≡ m
unfolding deactivate
gone_lem p m gone = rw gone refl

-- In a state where devices and active connections agree, deactivating a listed connection unlists it
-- and leaves it not primary, its device is disconnected, without a connection, an access point or an
-- IP configuration, and a second deactivation of the connection changes nothing.
pub deactivate_lem :
    (p : ℕ) (m : Manager)
    → Bound (bindings m)
    → has p m.active_conns ≡ true
    → let n = deactivate p m in
      let dev = n.device (m.active p).device in
      (has p n.active_conns ≡ false)
      × (n.primary ≢ some p)
      × (dev.active_conn ≡ none)
      × (dev.active_ap ≡ none)
      × (dev.ip4 ≡ none)
      × (dev.ip4obj ≡ none)
      × (dev.state ≡ dev_state_disconnected)
      × (deactivate p n ≡ n)
deactivate_lem p m h at_p =
    let lives = (h.listed_lives p at_p).0 in
    let same = deactivate-bindings p m lives in
    let (idle, state) = settled lives in
    let gone = ap (λ b. b.gone p) same ∙ at_one_self p true (bindings m).gone in
    (
      ap (λ b. has p b.listed) same ∙ unlisted m.active_conns,
      subst (λ o. o ≢ some p) (sym (ap (λ b. b.primary) same)) (primary_after-other p m.primary),
      idle.0,
      idle.1,
      idle.2,
      idle.3,
      state,
      gone_lem p (deactivate p m) gone,
    )
  where
    settled :
        (m.active p).gone ≡ false
        → IsIdle ((deactivate p m).device (m.active p).device)
          × (((deactivate p m).device (m.active p).device).state ≡ dev_state_disconnected)
    settled lives =
        subst
          (λ n.
            IsIdle (n.device (m.active p).device)
            × ((n.device (m.active p).device).state ≡ dev_state_disconnected))
          (sym (live_lem p m lives)) (live-IsIdle p (m.active p).device m)

    unlisted : (ps : List ℕ) → has p (without p ps) ≡ false
    unlisted ps = rw (has-without p p ps, (==_iff p p).1 refl) (ground arith)
