-- ===== src/Nmapi/Steps/Serving.antt =====
-- internal/nmapi/manager.go and settings.go: the calls of clients keep devices and active connections in
-- agreement.
use sinty_nm.Base.{
  ◌==◌, if◌then◌else◌, ==_iff, Bool-cases, Result, codes, ℕ, ◌≤◌, ◌≡◌, refl, sym, ap, ◌∙◌, ◌⊎◌, inl,
  inr, Bool, true, false, Option, none, some, List, [], ◌∷◌, ok, err,
}
use sinty_nm.Nmapi.Variant.{SettingsMap}
use sinty_nm.Nmapi.Store.{add}
use sinty_nm.Nmapi.Auto.{Answers}
use sinty_nm.Nmapi.Complete.{complete_settings, activate_added, add_and_activate_connection}
use sinty_nm.Nmapi.Steps.Events.{add-bindings}
use sinty_nm.Base.Dict.{bytes_equal}
use sinty_nm.Core.{LinkInfo}
use sinty_nm.Nmapi.Types.{is_wifi}
use sinty_nm.Nmapi.Profile.{SettingsConnection, conn_type}
use sinty_nm.Nmapi.State.{ActiveConnection, Manager, World, has}
use sinty_nm.Nmapi.Registry.{resolve_device}
use sinty_nm.Nmapi.Store.{by_path, remove_profile}
use sinty_nm.Nmapi.Activation.{activate, deactivate}
use sinty_nm.Nmapi.Activation.Frame.{bindings}
use sinty_nm.Nmapi.Activation.Paths.{has-without_other, at_one_same, at_one_other, Same-cases}
use sinty_nm.Nmapi.Activation.Invariant.{Bound}
use sinty_nm.Nmapi.Activation.Operations.{
  Bound-along, Bound-deactivate_listed, deactivate-bindings, Bound-activate,
}
use sinty_nm.Nmapi.Control.{
  Fault, unknown_device, ensure_wire_guard_device, or_failed, device_for, activate_on,
  activate_profile_at, activate_connection, deactivate_connection, disconnect_from, disconnect,
  is_of, users, deactivate_all, delete_profile,
}
use sinty_nm.Nmapi.Steps.Requests.{resolve_device-some, IsKnown, ensure-IsKnown}

-- The device of a request is known, if there is no error.
abbrev IsServed : Result Fault ℕ × Manager → Type 0
IsServed (r, m) = Bound (bindings m) × ((d : ℕ) → r ≡ ok d → d ≤ m.dev_gen)

device_for-IsServed :
    (w : World) (exported : Bool) (sc : SettingsConnection) (rounds : List (Option LinkInfo))
    (path : Option ℕ) (m : Manager)
    → Bound (bindings m)
    → (o : Option ℕ) → resolve_device path sc m ≡ o
    → IsServed (device_for w exported sc rounds o m)
unfolding device_for or_failed
device_for-IsServed w exported sc rounds path m h (some d) e = (
  h,
  λ x same.
      let d_is_x : d ≡ x = cc same in
      rw (sym d_is_x) (h.known d (resolve_device-some path sc m d h e)).2,
)
device_for-IsServed w exported sc rounds path m h none e =
    by_type (bytes_equal (conn_type sc) (codes "wireguard"))
  where
    told : (r : Option ℕ × Manager) → IsKnown r → IsServed (or_failed r)
    told (some d, n) (k, old) = (k, λ x same. old x (cc same))
    told (none, n) (k, old) = (k, λ x same. absurd (cc same))

    by_type :
        (b : Bool)
        → IsServed (
            if b
            then or_failed (ensure_wire_guard_device w exported sc rounds m)
            else (err unknown_device, m))
    by_type true =
        told (ensure_wire_guard_device w exported sc rounds m)
          (ensure-IsKnown w exported sc rounds m h)
    by_type false = (h, λ x same. absurd (cc same))

Bound-activate_on :
    (w : World) (sc : SettingsConnection) (specific : Option ℕ) (r : Result Fault ℕ × Manager)
    → IsServed r
    → Bound (bindings ((activate_on w sc specific r).1))
unfolding activate_on or_failed
Bound-activate_on w sc specific (err e, m) (h, known) = h
Bound-activate_on w sc specific (ok d, m) (h, known) =
    told (activate w.exports_active sc d specific m)
      (Bound-activate w.exports_active sc d specific m h (known d refl))
  where
    told : (r : Option ℕ × Manager) → Bound (bindings (r.1)) → Bound (bindings ((or_failed r).1))
    told (some p, n) k = k
    told (none, n) k = k

-- A profile on a device that is resolved for it.
Bound-activate_resolved :
    (w : World) (exported : Bool) (rounds : List (Option LinkInfo)) (device specific : Option ℕ)
    (sc : SettingsConnection) (m : Manager)
    → Bound (bindings m)
    → Bound (
        bindings (
          (activate_on w sc specific
            (device_for w exported sc rounds (resolve_device device sc m) m)).1))
Bound-activate_resolved w exported rounds device specific sc m h =
    Bound-activate_on w sc specific (device_for w exported sc rounds (resolve_device device sc m) m)
      (device_for-IsServed w exported sc rounds device m h (resolve_device device sc m) refl)

-- AddAndActivateConnection.
pub Bound-add_and_activate_connection :
    (w : World) (a : Answers) (exported : Bool) (rounds : List (Option LinkInfo))
    (settings : SettingsMap) (device specific : Option ℕ) (m : Manager)
    → Bound (bindings m)
    → Bound (
        bindings ((add_and_activate_connection w a exported rounds settings device specific m).1.1))
unfolding add_and_activate_connection activate_added
Bound-add_and_activate_connection w a exported rounds settings device specific m h =
    added (add a.fresh a.written a.exports_profile full m)
      (Bound-along (add-bindings a.fresh a.written a.exports_profile full m) h)
  where
    full : SettingsMap
    full = complete_settings settings device specific m

    added :
        (r : Option SettingsConnection × Manager)
        → Bound (bindings (r.1))
        → Bound (bindings ((activate_added w exported rounds device specific r).1.1))
    added (none, n) k = k
    added (some sc, n) k = Bound-activate_resolved w exported rounds device specific sc n k

-- ActivateConnection.
pub Bound-activate_connection :
    (w : World) (exported : Bool) (rounds : List (Option LinkInfo)) (connection : ℕ)
    (device specific : Option ℕ) (m : Manager)
    → Bound (bindings m)
    → Bound (bindings ((activate_connection w exported rounds connection device specific m).1))
unfolding activate_connection activate_profile_at
Bound-activate_connection w exported rounds connection device specific m h =
    at (by_path connection m.conns)
  where
    at :
        (sc : Option SettingsConnection)
        → Bound (bindings ((activate_profile_at w exported rounds device specific sc m).1))
    at none = h
    at (some sc) = Bound-activate_resolved w exported rounds device specific sc m h

-- A deactivation of what is listed or gone.
pub Bound-deactivate :
    (p : ℕ) (m : Manager)
    → Bound (bindings m)
    → ((has p m.active_conns ≡ true) ⊎ ((m.active p).gone ≡ true))
    → Bound (bindings (deactivate p m))
unfolding deactivate
Bound-deactivate p m h (inl at_p) = Bound-deactivate_listed p m h at_p
Bound-deactivate p m h (inr gone) = rw gone h

-- DeactivateConnection.
pub Bound-deactivate_connection :
    (p : ℕ) (m : Manager) → Bound (bindings m) → Bound (bindings ((deactivate_connection p m).1))
unfolding deactivate_connection
Bound-deactivate_connection p m h = elim (Bool-cases (has p m.active_conns)) [
  | inl at_p ↦ rw at_p (Bound-deactivate_listed p m h at_p)
  | inr off ↦ rw off h
]

-- Disconnect.
pub Bound-disconnect :
    (d : ℕ) (m : Manager) → Bound (bindings m) → Bound (bindings (disconnect d m))
unfolding disconnect disconnect_from
Bound-disconnect d m h = at (m.device d).active_conn
  where
    at : (o : Option ℕ) → Bound (bindings (disconnect_from o d m))
    at none = elim (Bool-cases (is_wifi (m.device d).kind)) [ inl e ↦ rw e h | inr e ↦ rw e h ]
    at (some p) = elim (Bool-cases (has p m.active_conns)) [
      | inl at_p ↦ rw at_p (Bound-deactivate_listed p m h at_p)
      | inr off ↦ rw off h
    ]

-- Every path of a list is of a listed connection or a gone one.
abbrev IsSettled : List ℕ → Manager → Type 0
IsSettled ps m =
    (p : ℕ) → has p ps ≡ true → (has p m.active_conns ≡ true) ⊎ ((m.active p).gone ≡ true)

-- A deactivation leaves each connection listed or gone.
deactivate-IsSettled :
    (ps : List ℕ) (q : ℕ) (m : Manager) → IsSettled ps m → IsSettled ps (deactivate q m)
unfolding deactivate
deactivate-IsSettled ps q m settled p at_p = elim (Bool-cases (m.active q).gone) [
  | inl gone ↦ rw gone (settled p at_p)
  | inr lives ↦
      let same = deactivate-bindings q m lives in
      let listed = ap (λ b. has p b.listed) same in
      let mark = ap (λ b. b.gone p) same in
      elim (Same-cases p q) [
        | inl is_q ↦ inr (mark ∙ at_one_same q p true (bindings m).gone is_q)
        | inr apart ↦ elim (settled p at_p) [
          | inl before ↦ inl (listed ∙ (has-without_other p q m.active_conns apart ∙ before))
          | inr gone ↦ inr (mark ∙ (at_one_other q p true (bindings m).gone apart ∙ gone))
        ]
      ]
]

Bound-deactivate_all :
    (ps : List ℕ) (m : Manager)
    → Bound (bindings m)
    → IsSettled ps m
    → Bound (bindings (deactivate_all ps m))
unfolding deactivate_all
Bound-deactivate_all [] m h settled = h
Bound-deactivate_all (p ∷ ps) m h settled =
    Bound-deactivate_all ps (deactivate p m) (Bound-deactivate p m h (settled p (first p ps)))
      (deactivate-IsSettled ps p m (λ q at_q. settled q (later q p ps at_q)))
  where
    first : (p : ℕ) (ps : List ℕ) → has p (p ∷ ps) ≡ true
    first p ps = rw ((==_iff p p).1 refl) refl

    later : (q p : ℕ) (ps : List ℕ) → has q ps ≡ true → has q (p ∷ ps) ≡ true
    later q p ps e = elim (Bool-cases (p == q)) [ inl s ↦ rw s refl | inr s ↦ rw s e ]

users-listed :
    (path : ℕ) (active : ℕ → ActiveConnection) (ps : List ℕ) (p : ℕ)
    → has p (users path active ps) ≡ true
    → has p ps ≡ true
unfolding users
users-listed path active [] p e = e
users-listed path active (q ∷ ps) p e = elim (Bool-cases (q == p)) [
  | inl same ↦ rw same refl
  | inr apart ↦ rw apart (users-listed path active ps p (tail (is_of path (active q).conn) apart e))
]
  where
    tail :
        (b : Bool)
        → (q == p) ≡ false
        → has p (if b then q ∷ users path active ps else users path active ps) ≡ true
        → has p (users path active ps) ≡ true
    tail true apart e = rw apart at e
    tail false apart e = e

-- Delete of a profile.
pub Bound-delete_profile :
    (path : ℕ) (m : Manager) → Bound (bindings m) → Bound (bindings (delete_profile path m))
unfolding delete_profile remove_profile
Bound-delete_profile path m h =
    Bound-deactivate_all (users path m.active m.active_conns) m h
      (λ p at_p. inl (users-listed path m.active m.active_conns p at_p))
