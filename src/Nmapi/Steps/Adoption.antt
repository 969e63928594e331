-- ===== src/Nmapi/Steps/Adoption.antt =====
-- internal/nmapi/autowifi.go: adopting and dropping a wifi connection keeps devices and active
-- connections in agreement.
use sinty_nm.Base.{
  if◌then◌else◌, Bool-cases, Bytes, ℕ, ◌+◌, ◌≤◌, ◌≡◌, refl, sym, ap, ◌∙◌, ◌⊎◌, inl, inr, Bool, true,
  false, ◌&&◌, Option, none, some, List, [], ◌∷◌, arith,
}
use sinty_nm.Nmapi.Types.{dev_reason_none, ac_state_deactivated}
use sinty_nm.Nmapi.Profile.{SettingsConnection}
use sinty_nm.Nmapi.State.{ActiveConnection, Manager, has, without}
use sinty_nm.Nmapi.Activation.{
  ap_path_for_ssid, new_active_connection, set_active_state, unlist, install,
}
use sinty_nm.Nmapi.Activation.Frame.{Bindings, bindings, set_active_state-bindings}
use sinty_nm.Nmapi.Activation.Unbind.{at_one, bound_to, set_active_connection-bindings}
use sinty_nm.Nmapi.Activation.Paths.{at_one_self}
use sinty_nm.Nmapi.Activation.Invariant.{Bound, removed, Bound-removed}
use sinty_nm.Nmapi.Activation.Adding.{created, Bound-created, Bound-bound_up}
use sinty_nm.Nmapi.Activation.Operations.{Bound-along, install-bindings, without_new}
use sinty_nm.Nmapi.Auto.{
  wifi_profile, found_connection, primary_or, adopt_bound, adopt_free, adopt_unless, adopt_wifi,
  drop_listed, drop_of, drop_adopted_wifi,
}

-- An adopted connection that is listed leaves with its device's binding.
drop_listed-bindings :
    (p d : ℕ) (m : Manager)
    → bindings (drop_listed p d m) ≡ removed p d (bindings m).gone (bindings m)
unfolding drop_listed unlist
drop_listed-bindings p d m =
    let off = unlist p m in
    let said = set_active_state p ac_state_deactivated dev_reason_none off in
    set_active_connection-bindings d none said
    ∙ ap (bound_to d none) (set_active_state-bindings p ac_state_deactivated dev_reason_none off)

pub Bound-drop_adopted_wifi :
    (d : ℕ) (m : Manager) → Bound (bindings m) → Bound (bindings (drop_adopted_wifi d m))
unfolding drop_adopted_wifi drop_of
Bound-drop_adopted_wifi d m h = at (m.device d).active_conn refl
  where
    dropped :
        (p : ℕ)
        → (m.device d).active_conn ≡ some p
        → (b : Bool) → (has p m.active_conns && (m.active p).adopted) ≡ b
        → Bound (bindings (if b then drop_listed p d m else m))
    dropped p named false e = h
    dropped p named true e =
        let (at_p, owned, old) = h.bound_listed d p named in
        let adopted : (m.active p).adopted ≡ true = ground (arith, e) in
        Bound-along
          (drop_listed-bindings p d m
            ∙ ap (λ x. removed p x (bindings m).gone (bindings m)) (sym owned))
          (Bound-removed (bindings m) p (bindings m).gone h at_p (λ q apart. refl) (inr adopted))

    at : (o : Option ℕ) → (m.device d).active_conn ≡ o → Bound (bindings (drop_of o d m))
    at none e = h
    at (some p) e = dropped p e (has p m.active_conns && (m.active p).adopted) refl

-- What an adoption makes of the connection, whether there is a profile or not.
found_connection_lem :
    (ssid : Bytes) (d : ℕ) (specific : Option ℕ) (sc : Option SettingsConnection)
    → let ac = found_connection ssid d specific sc in
      (ac.device ≡ d) × (ac.gone ≡ false) × (ac.adopted ≡ true)
unfolding found_connection new_active_connection
found_connection_lem ssid d specific (some sc) = (refl, refl, refl)
found_connection_lem ssid d specific none = (refl, refl, refl)

-- A found connection in the heap and the list.
found-bindings :
    (ac : ActiveConnection) (p d : ℕ) (m : Manager)
    → (ac.device ≡ d) × (ac.gone ≡ false) × (ac.adopted ≡ true)
    → bindings (install p ac m)
      ≡ record (created p d true (bindings m)) { listed = p ∷ m.active_conns }
found-bindings ac p d m (device, gone, adopted) =
    install-bindings p ac m
    ∙ (ap {A = ℕ}
          (λ x. record (bindings m) {
            ac_gen = p;
            listed = p ∷ m.active_conns;
            owner = at_one p x (bindings m).owner;
            gone = at_one p ac.gone (bindings m).gone;
            adopted = at_one p ac.adopted (bindings m).adopted;
          })
          device
        ∙ (ap {A = Bool}
              (λ x. record (bindings m) {
                ac_gen = p;
                listed = p ∷ m.active_conns;
                owner = at_one p d (bindings m).owner;
                gone = at_one p x (bindings m).gone;
                adopted = at_one p ac.adopted (bindings m).adopted;
              })
              gone
            ∙ ap {A = Bool}
                (λ x. record (created p d true (bindings m)) {
                  listed = p ∷ m.active_conns;
                  adopted = at_one p x (bindings m).adopted;
                })
                adopted))

primary_or_lem :
    (p : ℕ) (listed : List ℕ) (o : Option ℕ) (q : ℕ)
    → primary_or p listed o ≡ some q
    → (q ≡ p) ⊎ (o ≡ some q)
unfolding primary_or
primary_or_lem p listed none q e = inl (cc e)
primary_or_lem p listed (some x) q e = elim (Bool-cases (has x listed)) [
  | inl at_x ↦ inr (rw at_x at e)
  | inr off ↦ let same : ◌≡◌ {A = Option ℕ} (some p) (some q) = rw off at e in inl (cc same)
]

adopt_bound-bindings :
    (p d : ℕ) (m : Manager)
    → bindings (adopt_bound p d m) ≡ record (bound_to d (some p) (bindings m)) {
      primary = primary_or p m.active_conns m.primary;
    }
unfolding adopt_bound
adopt_bound-bindings p d m =
    ap {A = Bindings} (λ b. record b { primary = primary_or p b.listed b.primary })
      (set_active_connection-bindings d (some p) m)

-- An adoption on a device without a connection.
Bound-adopt_free :
    (exported : Bool) (d : ℕ) (ssid : Bytes) (m : Manager)
    → Bound (bindings m)
    → (m.device d).active_conn ≡ none
    → d ≤ m.dev_gen
    → Bound (bindings (adopt_free exported d ssid m))
unfolding adopt_free
Bound-adopt_free exported d ssid m h free known = by_export exported
  where
    p : ℕ
    p = m.ac_gen + 1

    ac : ActiveConnection
    ac = found_connection ssid d (ap_path_for_ssid ssid (m.device d)) (wifi_profile ssid m.conns)

    same :
        bindings (install (m.ac_gen + 1) ac m)
        ≡ record (created (m.ac_gen + 1) d true (bindings m)) {
          listed = (m.ac_gen + 1) ∷ m.active_conns;
        }
    same = found-bindings ac (m.ac_gen + 1) d m (
        found_connection_lem ssid d (ap_path_for_ssid ssid (m.device d))
          (wifi_profile ssid m.conns))

    new : Bound (created (m.ac_gen + 1) d true (bindings m))
    new = Bound-created (bindings m) d true h

    past : m.ac_gen + 1 ≤ m.ac_gen → ⊥
    past le = omega arith

    last : m.ac_gen + 1 ≤ m.ac_gen + 1
    last = omega arith

    absent : (b : Bool) → has (m.ac_gen + 1) m.active_conns ≡ b → b ≡ false
    absent true e = absurd (past (h.listed_lives (m.ac_gen + 1) e).1)
    absent false e = refl

    by_export :
        (e : Bool)
        → Bound (
            bindings (
              if e
              then adopt_bound (m.ac_gen + 1) d (install (m.ac_gen + 1) ac m)
              else record (install (m.ac_gen + 1) ac m) {
                active_conns = without (m.ac_gen + 1) (install (m.ac_gen + 1) ac m).active_conns;
              }))
    by_export true =
        Bound-along
          (adopt_bound-bindings p d (install p ac m)
            ∙ ap {A = Bindings}
                (λ b. record (bound_to d (some p) b) { primary = primary_or p b.listed b.primary })
                same)
          (Bound-bound_up (created p d true (bindings m)) p d
            (primary_or p (p ∷ m.active_conns) m.primary) m.running new free known last
            (at_one_self p false (bindings m).gone) (at_one_self p d (bindings m).owner)
            (λ q e. primary_or_lem p (p ∷ m.active_conns) m.primary q e) (λ q runs. inr runs))
    by_export false =
        Bound-along
          (ap {A = Bindings} (λ b. record b { listed = without p b.listed }) same
            ∙ ap (λ listed. record (created p d true (bindings m)) { listed = listed })
                (without_new p m.active_conns (absent (has p m.active_conns) refl)))
          new

pub Bound-adopt_wifi :
    (exported : Bool) (d : ℕ) (ssid : Bytes) (m : Manager)
    → Bound (bindings m)
    → d ≤ m.dev_gen
    → Bound (bindings (adopt_wifi exported d ssid m))
unfolding adopt_wifi adopt_unless
Bound-adopt_wifi exported d [] m h known = h
Bound-adopt_wifi exported d (c ∷ cs) m h known = at (m.device d).active_conn refl
  where
    at :
        (o : Option ℕ)
        → (m.device d).active_conn ≡ o
        → Bound (bindings (adopt_unless o exported d (c ∷ cs) m))
    at (some p) e = h
    at none e = Bound-adopt_free exported d (c ∷ cs) m h e known
