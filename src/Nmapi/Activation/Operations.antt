-- ===== src/Nmapi/Activation/Operations.antt =====
-- internal/nmapi/activate.go: activation and deactivation keep devices and active connections in
-- agreement.
use sinty_nm.Base.{
  if◌then◌else◌, ==_iff, Bool-cases, ℕ, ◌+◌, ◌≤◌, ◌≡◌, refl, sym, ap, subst, ◌∙◌, inl, inr, Bool,
  true, false, Option, none, some, List, [], ◌∷◌, arith,
}
use sinty_nm.Nmapi.Types.{dev_state_prepare, dev_reason_user_requested}
use sinty_nm.Nmapi.Profile.{SettingsConnection}
use sinty_nm.Nmapi.State.{ActiveConnection, Manager, has, without}
use sinty_nm.Nmapi.Device.{set_active_connection}
use sinty_nm.Nmapi.Activation.{
  new_active_connection, deactivate, listed_path, deactivate_old, active_on, install, bind,
  activate_new, activate,
}
use sinty_nm.Nmapi.Activation.Frame.{Bindings, bindings, set_state-bindings}
use sinty_nm.Nmapi.Activation.Unbind.{
  at_one, field-update_one, bound_to, unbind, set_active_connection-bindings,
  deactivate_live-bindings,
}
use sinty_nm.Nmapi.Activation.Paths.{has-cons, at_one_same, at_one_self, at_one_other}
use sinty_nm.Nmapi.Activation.Invariant.{Bound, Bound-removed}
use sinty_nm.Nmapi.Activation.Adding.{created, Bound-created, Bound-bound_up}

-- A property of the bindings, along an equality.
pub Bound-along : {b c : Bindings} → b ≡ c → Bound c → Bound b
Bound-along e h = subst Bound (sym e) h

-- Deactivating what is listed.
pub Bound-deactivate_listed :
    (p : ℕ) (m : Manager)
    → Bound (bindings m)
    → has p m.active_conns ≡ true
    → Bound (bindings (deactivate p m))
unfolding deactivate
Bound-deactivate_listed p m h at_p =
    let lives = (h.listed_lives p at_p).0 in
    let marks = at_one p true (bindings m).gone in
    rw lives (
      Bound-along (deactivate_live-bindings p (m.active p).device m) (
        Bound-removed (bindings m) p marks h at_p
          (λ q apart. at_one_other p q true (bindings m).gone apart)
          (inl (at_one_self p true (bindings m).gone))))

-- The connection that is on a device is listed, and after it left, the device is free.
listed_path-some :
    (listed : List ℕ) (o : Option ℕ) (p : ℕ)
    → listed_path listed o ≡ some p
    → (o ≡ some p) × (has p listed ≡ true)
unfolding listed_path
listed_path-some listed none p e = absurd (cc e)
listed_path-some listed (some q) p e = elim (Bool-cases (has q listed)) [
  | inl at_q ↦
      let same : ◌≡◌ {A = Option ℕ} (some q) (some p) = rw at_q at e in
      let q_is_p : q ≡ p = cc same in (same, rw (sym q_is_p) at_q)
  | inr off ↦ absurd (none_some off e)
]
  where
    none_some : has q listed ≡ false → (if has q listed then some q else none) ≡ some p → ⊥
    none_some off e = ground (arith, off, e)

listed_path-none :
    (listed : List ℕ) (o : Option ℕ)
    → ((p : ℕ) → o ≡ some p → has p listed ≡ true)
    → listed_path listed o ≡ none
    → o ≡ none
unfolding listed_path
listed_path-none listed none known e = refl
listed_path-none listed (some q) known e = absurd (ground (arith, known q refl, e))

pub deactivate-bindings :
    (p : ℕ) (m : Manager)
    → (m.active p).gone ≡ false
    → bindings (deactivate p m) ≡ unbind p (m.active p).device (bindings m)
unfolding deactivate
deactivate-bindings p m lives = rw lives (deactivate_live-bindings p (m.active p).device m)

-- What holds of a device whose connection was deactivated.
abbrev pub IsFree : ℕ → Manager → Manager → Type 0
IsFree d m n =
    Bound (bindings n)
    × ((bindings n).bound d ≡ none)
    × (n.dev_gen ≡ m.dev_gen)
    × (n.running ≡ m.running)

freed :
    (o : Option ℕ) (d : ℕ) (m : Manager)
    → Bound (bindings m)
    → active_on d m ≡ o
    → IsFree d m (deactivate_old o m)
unfolding deactivate_old
freed none d m h e = (
  h,
  listed_path-none m.active_conns (m.device d).active_conn (λ p named. (h.bound_listed d p named).0)
      e,
  refl,
  refl,
)
freed (some p) d m h e =
    let (named, at_p) = listed_path-some m.active_conns (m.device d).active_conn p e in
    let owned : d ≡ (m.active p).device = sym ((h.bound_listed d p named).1) in
    let same = deactivate-bindings p m (h.listed_lives p at_p).0 in
    (
      Bound-deactivate_listed p m h at_p,
      ap (λ b. b.bound d) same ∙ at_one_same (m.active p).device d none (bindings m).bound owned,
      ap (λ b. b.dev_gen) same,
      ap (λ b. b.running) same,
    )

pub deactivate_old-IsFree :
    (d : ℕ) (m : Manager) → Bound (bindings m) → IsFree d m (deactivate_old (active_on d m) m)
deactivate_old-IsFree d m h = freed (active_on d m) d m h refl

-- A new object in the heap and the list.
pub install-bindings :
    (p : ℕ) (ac : ActiveConnection) (m : Manager)
    → bindings (install p ac m) ≡ record (bindings m) {
      ac_gen = p;
      listed = p ∷ m.active_conns;
      owner = at_one p ac.device (bindings m).owner;
      gone = at_one p ac.gone (bindings m).gone;
      adopted = at_one p ac.adopted (bindings m).adopted;
    }
unfolding install
install-bindings p ac m =
    let b = bindings (install p ac m) in
    ap (λ f. record b { owner = f }) (field-update_one (λ v. v.device) m.active p ac)
    ∙ (ap (λ f. record b { owner = at_one p ac.device (bindings m).owner; gone = f })
          (field-update_one (λ v. v.gone) m.active p ac)
        ∙ ap
            (λ f. record b {
              owner = at_one p ac.device (bindings m).owner;
              gone = at_one p ac.gone (bindings m).gone;
              adopted = f;
            })
            (field-update_one (λ v. v.adopted) m.active p ac))

pub bind-bindings :
    (p d : ℕ) (m : Manager)
    → bindings (bind p d m) ≡ record (bound_to d (some p) (bindings m)) { running = p ∷ m.running }
unfolding bind
bind-bindings p d m =
    let named = set_active_connection d (some p) m in
    ap {A = Bindings} (λ b. record b { running = p ∷ b.running })
      (set_state-bindings d dev_state_prepare dev_reason_user_requested named
        ∙ set_active_connection-bindings d (some p) m)

-- The list with a path put in and taken out is the list, as the path is new.
pub without_new : (p : ℕ) (ps : List ℕ) → has p ps ≡ false → without p (p ∷ ps) ≡ ps
without_new p ps new = ground (arith, ==_iff p p, absent ps new)
  where
    absent : (qs : List ℕ) → has p qs ≡ false → without p qs ≡ qs
    absent [] h = refl
    absent (q ∷ qs) h = ground (arith, h, absent qs)

Bound-activate_new :
    (exported : Bool) (sc : SettingsConnection) (d : ℕ) (specific : Option ℕ) (m : Manager)
    → Bound (bindings m)
    → (bindings m).bound d ≡ none
    → d ≤ m.dev_gen
    → Bound (bindings ((activate_new exported sc d specific m).1))
unfolding activate_new new_active_connection
Bound-activate_new true sc d specific m h free known =
    let p = m.ac_gen + 1 in
    let ac = new_active_connection sc d specific in
    let new = Bound-created (bindings m) d false h in
    Bound-along
      (bind-bindings p d (install p ac m)
        ∙ ap {A = Bindings} (λ b. record (bound_to d (some p) b) { running = p ∷ b.running })
            (install-bindings p ac m))
      (Bound-bound_up (created p d false (bindings m)) p d m.primary (p ∷ m.running) new free known
        (omega arith) (at_one_self p false (bindings m).gone) (at_one_self p d (bindings m).owner)
        (λ q e. inr e)
        (λ q runs. elim (has-cons q p m.running runs) [
          | inl same ↦ inl (same, at_one_self p false (bindings m).adopted)
          | inr was ↦ inr was
        ]))
Bound-activate_new false sc d specific m h free known =
    let p = m.ac_gen + 1 in
    let ac = new_active_connection sc d specific in
    Bound-along
      (ap {A = Bindings} (λ b. record b { listed = without p b.listed }) (install-bindings p ac m)
        ∙ ap (λ listed. record (created p d false (bindings m)) { listed = listed })
            (without_new p m.active_conns (absent (has p m.active_conns) refl)))
      (Bound-created (bindings m) d false h)
  where
    past : m.ac_gen + 1 ≤ m.ac_gen → ⊥
    past le = omega arith

    absent : (b : Bool) → has (m.ac_gen + 1) m.active_conns ≡ b → b ≡ false
    absent true e = absurd (past (h.listed_lives (m.ac_gen + 1) e).1)
    absent false e = refl

-- An activation on a device that the registry has numbered.
pub Bound-activate :
    (exported : Bool) (sc : SettingsConnection) (d : ℕ) (specific : Option ℕ) (m : Manager)
    → Bound (bindings m)
    → d ≤ m.dev_gen
    → Bound (bindings ((activate exported sc d specific m).1))
unfolding activate
Bound-activate exported sc d specific m h known =
    let (kept, free, same, runs) = deactivate_old-IsFree d m h in
    Bound-activate_new exported sc d specific (deactivate_old (active_on d m) m) kept free
      (rw same known)
