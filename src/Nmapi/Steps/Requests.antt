-- ===== src/Nmapi/Steps/Requests.antt =====
-- internal/nmapi/manager.go, vpn.go and settings.go: what clients ask for keeps devices and active
-- connections in agreement.
use sinty_nm.Base.{
  ◌==◌, if◌then◌else◌, ==_iff, Bool-cases, Bytes, codes, ℕ, ◌≤◌, ◌≡◌, refl, sym, inl, inr, Bool,
  true, false, ◌&&◌, Option, none, some, List, [], ◌∷◌,
}
use sinty_nm.Base.Dict.{find, bytes_equal, bytes_eq}
use sinty_nm.Core.{LinkInfo}
use sinty_nm.Nmapi.Types.{is_wire_guard}
use sinty_nm.Nmapi.Profile.{SettingsConnection, conn_type, interface_name}
use sinty_nm.Nmapi.State.{Device, Manager, World, wg_configure, has, log}
use sinty_nm.Nmapi.Registry.{on_link_event, carries, first_carrying, wire_guard_of, resolve_device}
use sinty_nm.Nmapi.Registry.Sync.{Bound-on_link_event}
use sinty_nm.Nmapi.WireGuard.{wg_config}
use sinty_nm.Nmapi.Activation.Frame.{bindings}
use sinty_nm.Nmapi.Activation.Invariant.{Bound}
use sinty_nm.Nmapi.Control.{await_device, configured_device, ensure_wire_guard_device}

first_carrying-some :
    (want : Bytes) (device : ℕ → Device) (ds : List ℕ) (d : ℕ)
    → first_carrying want device ds ≡ some d
    → has d ds ≡ true
unfolding first_carrying
first_carrying-some want device [] d e = absurd (cc e)
first_carrying-some want device (x ∷ ds) d e =
    elim (Bool-cases ((device x).managed && carries want (device x))) [
      | inl fits ↦
          let same : ◌≡◌ {A = Option ℕ} (some x) (some d) = rw fits at e in
          let x_is_d : x ≡ d = cc same in rw ((==_iff x d).1 x_is_d) refl
      | inr misses ↦ later (first_carrying-some want device ds d (rw misses at e))
    ]
  where
    later : has d ds ≡ true → has d (x ∷ ds) ≡ true
    later h = elim (Bool-cases (x == d)) [ inl e ↦ rw e refl | inr e ↦ rw e h ]

-- What a request resolves to is in the registry, so its number was drawn.
pub resolve_device-some :
    (path : Option ℕ) (sc : SettingsConnection) (m : Manager) (d : ℕ)
    → Bound (bindings m)
    → resolve_device path sc m ≡ some d
    → has d m.devices ≡ true
unfolding resolve_device wire_guard_of
resolve_device-some (some p) sc m d h e = elim (Bool-cases (has p m.dev_by_path)) [
  | inl at_p ↦
      let same : ◌≡◌ {A = Option ℕ} (some p) (some d) = rw at_p at e in
      let p_is_d : p ≡ d = cc same in rw (sym p_is_d) (h.pathed p at_p)
  | inr off ↦ let clash : ◌≡◌ {A = Option ℕ} none (some d) = rw off at e in absurd (cc clash)
]
resolve_device-some none sc m d h e =
    elim (Bool-cases (bytes_equal (conn_type sc) (codes "wireguard"))) [
      | inr plain ↦ first_carrying-some (conn_type sc) m.device m.devices d (rw plain at e)
      | inl tunnel ↦ at (find (interface_name sc) m.dev_by_iface) refl (rw tunnel at e)
    ]
  where
    at :
        (o : Option ℕ)
        → find (interface_name sc) m.dev_by_iface ≡ o
        → wire_guard_of m o ≡ some d
        → has d m.devices ≡ true
    at none f w = absurd (cc w)
    at (some x) f w = elim (Bool-cases (is_wire_guard (m.device x).kind)) [
      | inl fits ↦
          let same : ◌≡◌ {A = Option ℕ} (some x) (some d) = rw fits at w in
          let x_is_d : x ≡ d = cc same in rw (sym x_is_d) (h.found (interface_name sc) x f).0
      | inr other ↦
          let clash : ◌≡◌ {A = Option ℕ} none (some d) = rw other at w in absurd (cc clash)
    ]

-- The device is known, if there is one.
abbrev pub IsKnown : Option ℕ × Manager → Type 0
IsKnown (o, m) = Bound (bindings m) × ((d : ℕ) → o ≡ some d → d ≤ m.dev_gen)

await_device-IsKnown :
    (exported : Bool) (name : Bytes) (rounds : List (Option LinkInfo)) (m : Manager)
    → Bound (bindings m)
    → IsKnown (await_device exported name rounds m)
unfolding await_device
await_device-IsKnown exported name [] m h = (h, λ d e. absurd (cc e))
await_device-IsKnown exported name (link ∷ rounds) m h =
    at (find name m.dev_by_iface) refl
      (await_device-IsKnown exported name rounds (next link) (kept link))
  where
    next : Option LinkInfo → Manager
    next link = elim link [ some li ↦ on_link_event exported li true m | none ↦ m ]

    kept : (link : Option LinkInfo) → Bound (bindings (next link))
    kept none = h
    kept (some li) = Bound-on_link_event exported li true m h

    at :
        (o : Option ℕ)
        → find name m.dev_by_iface ≡ o
        → IsKnown (await_device exported name rounds (next link))
        → IsKnown
            (elim o [ some d ↦ (some d, m) | none ↦ await_device exported name rounds (next link) ])
    at none e waited = waited
    at (some x) e waited = (
      h,
      λ d same. let x_is_d : x ≡ d = cc same in rw (sym x_is_d) (h.known x (h.found name x e).0).2,
    )

pub ensure-IsKnown :
    (w : World) (exported : Bool) (sc : SettingsConnection) (rounds : List (Option LinkInfo))
    (m : Manager)
    → Bound (bindings m)
    → IsKnown (ensure_wire_guard_device w exported sc rounds m)
unfolding ensure_wire_guard_device configured_device
ensure-IsKnown w exported sc rounds m h = at (find (interface_name sc) m.dev_by_iface) refl
  where
    asked : Manager
    asked = log (wg_configure (interface_name sc) (wg_config w sc)) m

    configured :
        (b : Bool)
        → IsKnown
            (if b then await_device exported (interface_name sc) rounds asked else (none, asked))
    configured true = await_device-IsKnown exported (interface_name sc) rounds asked h
    configured false = (h, λ d e. absurd (cc e))

    at :
        (o : Option ℕ)
        → find (interface_name sc) m.dev_by_iface ≡ o
        → IsKnown (elim o [
          | some d ↦ (some d, m)
          | none ↦ configured_device w exported (interface_name sc) rounds asked
        ])
    at none e = configured w.configures
    at (some x) e = (
      h,
      λ d same.
          let x_is_d : x ≡ d = cc same in
          rw (sym x_is_d) (h.known x (h.found (interface_name sc) x e).0).2,
    )
