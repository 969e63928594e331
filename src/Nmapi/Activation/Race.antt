-- ===== src/Nmapi/Activation/Race.antt =====
-- internal/nmapi/activate.go, `runActivation`: a connection that is deactivated while it comes up.
use sinty_nm.Base.{
  List, ◌==◌, if◌then◌else◌, ==_iff, ℕ, ◌≡◌, ◌≢◌, ◌+◌, ◌∷◌, Option, none, refl, ap, ◌∙◌, Bool, true,
  false, not, ◌&&◌, ◌||◌, some, arith,
}
use sinty_nm.Nmapi.Types.{dev_state_activated, dev_reason_none, ac_state_activated}
use sinty_nm.Nmapi.State.{ActiveConnection, Manager, has, update}
use sinty_nm.Nmapi.Activation.{
  set_active_state, deactivate, superseded, publish, fail, settle, install, bind,
  new_active_connection, deactivate_old, active_on, listed_path,
}
use sinty_nm.Nmapi.Profile.{SettingsConnection}
use sinty_nm.Nmapi.Activation.Frame.{
  Bindings, bindings, set_state-bindings, set_active_state-bindings,
}
use sinty_nm.Nmapi.Activation.Unbind.{bound_to, at_one}
use sinty_nm.Nmapi.Activation.Paths.{has-without, at_one_self}
use sinty_nm.Nmapi.Activation.Invariant.{Bound}
use sinty_nm.Nmapi.Activation.Operations.{deactivate-bindings, bind-bindings}

gone_settles :
    (stopped : Bool) (p : ℕ) (succeeded : Bool) (m : Manager)
    → (m.active p).gone ≡ true
    → settle stopped p succeeded m ≡ m
unfolding settle superseded
gone_settles stopped p succeeded m gone =
    over (stopped || (m.active p).cancelled || (m.active p).gone) (ground (arith, gone))
  where
    over :
        (b : Bool)
        → b ≡ true
        → (if b
            then m
            else if succeeded
            then publish p (m.active p).device m
            else fail p (m.active p).device m)
          ≡ m
    over true e = refl
    over false e = absurd (cc e)

publish-primary :
    (p d : ℕ) (m : Manager)
    → ((publish p d m).primary ≡ some p)
      × (has p (publish p d m).active_conns ≡ has p m.active_conns)
unfolding publish
publish-primary p d m =
    let active = set_active_state p ac_state_activated dev_reason_none m in
    (
      refl,
      ap (λ b. has p b.listed)
          (set_state-bindings d dev_state_activated dev_reason_none active
            ∙ set_active_state-bindings p ac_state_activated dev_reason_none m),
    )

-- In a state where devices and active connections agree, an activation whose listed connection was
-- deactivated ends without a change. The test for it and the publication that follows are not one
-- step in the source: a deactivation between the two leaves a primary connection that is not listed.
pub settle-deactivate :
    (stopped : Bool) (p : ℕ) (succeeded : Bool) (m : Manager)
    → Bound (bindings m)
    → has p m.active_conns ≡ true
    → let n = deactivate p m in
      let late = publish p (n.active p).device n in
      (settle stopped p succeeded n ≡ n)
      × (late.primary ≡ some p)
      × (has p late.active_conns ≡ false)
settle-deactivate stopped p succeeded m h at_p =
    let lives = (h.listed_lives p at_p).0 in
    let same = deactivate-bindings p m lives in
    let n = deactivate p m in
    let (primary, listed) = publish-primary p (n.active p).device n in
    (
      gone_settles stopped p succeeded n
          (ap (λ b. b.gone p) same ∙ at_one_self p true (bindings m).gone),
      primary,
      listed
          ∙ (ap (λ b. has p b.listed) same
              ∙ (has-without p p m.active_conns ∙ self (has p m.active_conns))),
    )
  where
    self : (b : Bool) → (b && not (p == p)) ≡ false
    self b = rw ((==_iff p p).1 refl) (ground arith)

has_first : (q : ℕ) (l : List ℕ) → has q (q ∷ l) ≡ true
has_first q l = rw ((==_iff q q).1 refl) refl

has_second : (p q : ℕ) (l : List ℕ) → has p (q ∷ p ∷ l) ≡ true
has_second p q l = ground (arith, has_first p l)

put_last : (q : ℕ) (ac : ActiveConnection) (f : ℕ → ActiveConnection) → update f q ac q ≡ ac
put_last q ac f = rw ((==_iff q q).1 refl) refl

put_first :
    (p q : ℕ) (ac late : ActiveConnection) (f : ℕ → ActiveConnection)
    → p ≢ q
    → update (update f p ac) q late p ≡ ac
put_first p q ac late f apart =
    let other : (p == q) ≡ false = ground (arith, apart, ==_iff p q) in rw other (put_last p ac f)

-- Both activations have bound their device.
abbrev overlapped : ℕ → ℕ → ℕ → Bindings → Bindings
overlapped p q d b = record (bound_to d (some q) (bound_to d (some p) b)) {
  running = q ∷ p ∷ b.running;
}

-- Two calls of `activate` on a device without a connection, where both make their check before either
-- binds the device (the source takes the lock for the check, the listing and the binding apart): neither
-- check finds anything to deactivate, and in the end both connections are listed on the device and live,
-- while the device names the second only.
pub activate_overlaps :
    (sc other : SettingsConnection) (d : ℕ) (specific : Option ℕ) (m : Manager)
    → (m.device d).active_conn ≡ none
    → let p = m.ac_gen + 1 in
      let q = p + 1 in
      let m1 = install p (new_active_connection sc d specific) m in
      let m2 = install q (new_active_connection other d specific) m1 in
      let n = bind q d (bind p d m2) in
      (deactivate_old (active_on d m) m ≡ m)
      × (deactivate_old (active_on d m1) m1 ≡ m1)
      × (has p n.active_conns ≡ true)
      × (has q n.active_conns ≡ true)
      × (p ≢ q)
      × ((n.active p).device ≡ d)
      × ((n.active q).device ≡ d)
      × ((n.active p).gone ≡ false)
      × ((n.active q).gone ≡ false)
      × ((n.device d).active_conn ≡ some q)
unfolding install new_active_connection deactivate_old listed_path
activate_overlaps sc other d specific m free =
    let p = m.ac_gen + 1 in
    let q = p + 1 in
    let m2 =
      install q (new_active_connection other d specific)
        (install p (new_active_connection sc d specific) m) in
    let same : bindings (bind q d (bind p d m2)) ≡ overlapped p q d (bindings m2) =
      bind-bindings q d (bind p d m2)
      ∙ ap (λ b. record (bound_to d (some q) b) { running = q ∷ b.running })
          (bind-bindings p d m2) in
    let apart : p ≢ q = λ e. omega (arith, e) in
    let ac = new_active_connection sc d specific in
    let late = new_active_connection other d specific in
    let at_p = put_first p q ac late m.active apart in
    let at_q = put_last q late (update m.active p ac) in
    (
      rw free refl,
      rw free refl,
      ap (λ b. has p b.listed) same ∙ has_second p q m.active_conns,
      ap (λ b. has q b.listed) same ∙ has_first q (p ∷ m.active_conns),
      apart,
      ap (λ b. b.owner p) same ∙ ap (λ x. x.device) at_p,
      ap (λ b. b.owner q) same ∙ ap (λ x. x.device) at_q,
      ap (λ b. b.gone p) same ∙ ap (λ x. x.gone) at_p,
      ap (λ b. b.gone q) same ∙ ap (λ x. x.gone) at_q,
      ap (λ b. b.bound d) same ∙ at_one_self d (some q) (at_one d (some p) (bindings m2).bound),
    )
