-- ===== src/Nmapi/Registry/Sync.antt =====
-- internal/nmapi, `onLinkEvent`: the lists and maps of devices agree after every link event.
use sinty_nm.Base.{
  if◌then◌else◌, Bool-cases, ℕ, ◌+◌, ◌≡◌, refl, ap, ◌∙◌, inl, inr, Bool, true, false, not, ◌&&◌,
  Option, none, some, List, [], ◌∷◌,
}
use sinty_nm.Base.Dict.{find, bytes_eq}
use sinty_nm.Core.{LinkInfo}
use sinty_nm.Nmapi.Types.{is_wifi, is_ethernet}
use sinty_nm.Nmapi.State.{
  put_device, Manager, device_added, populate_aps, auto_connect_wired, log, spawn,
}
use sinty_nm.Nmapi.Device.{new_device, update_link}
use sinty_nm.Nmapi.Registry.{
  register, add_device, add_devices, link_gone, announce, link_present, on_link_event,
}
use sinty_nm.Nmapi.Activation.Frame.{bindings, put_device-bindings}
use sinty_nm.Nmapi.Activation.Unbind.{at_one, field-update_one}
use sinty_nm.Nmapi.Activation.Invariant.{Bound}
use sinty_nm.Nmapi.Activation.Operations.{Bound-along}
use sinty_nm.Nmapi.Registry.Devices.{with_device, Bound-with_device, Bound-without_device}

register-bindings :
    (li : LinkInfo) (m : Manager)
    → bindings (register li m) ≡ with_device li.name (m.dev_gen + 1) (bindings m)
unfolding new_device
register-bindings li m =
    let b = bindings (register li m) in
    let d = m.dev_gen + 1 in
    ap (λ f. record b { iface = f })
      (field-update_one (λ dev. dev.iface) m.device d (new_device li))
    ∙ ap (λ f. record b { iface = at_one d li.name (bindings m).iface; bound = f })
        (field-update_one (λ dev. dev.active_conn) m.device d (new_device li))

pub Bound-register :
    (li : LinkInfo) (m : Manager)
    → Bound (bindings m)
    → find li.name m.dev_by_iface ≡ none
    → Bound (bindings (register li m))
Bound-register li m h unknown =
    Bound-along (register-bindings li m) (Bound-with_device li.name (bindings m) h unknown)

announce-bindings : (d : ℕ) (m : Manager) → bindings (announce d m) ≡ bindings m
unfolding announce
announce-bindings d m = elim (Bool-cases (is_ethernet (m.device d).kind)) [
  | inl e ↦ rw e (told (is_wifi (m.device d).kind))
  | inr e ↦ rw e (told (is_wifi (m.device d).kind))
]
  where
    told :
        (b : Bool)
        → bindings
            (if b then spawn (populate_aps d) (log (device_added d) m) else log (device_added d) m)
          ≡ bindings m
    told true = refl
    told false = refl

update_link-bindings :
    (d : ℕ) (li : LinkInfo) (m : Manager) → bindings (update_link d li m) ≡ bindings m
unfolding update_link
update_link-bindings d li m =
    by_test (is_ethernet (m.device d).kind) (li.carrier && not (m.device d).carrier)
  where
    updated : Manager
    updated =
        put_device d
          (record (m.device d) {
            carrier = li.carrier;
            auto_wired = li.carrier && (m.device d).auto_wired;
          })
          m

    by_test :
        (wired up : Bool)
        → bindings
            (if not wired then m else if up then spawn (auto_connect_wired d) updated else updated)
          ≡ bindings m
    by_test false up = refl
    by_test true true = put_device-bindings d _ m refl refl
    by_test true false = put_device-bindings d _ m refl refl

-- A link event keeps the lists and maps of devices, and the active connections on them, in agreement.
pub Bound-on_link_event :
    (exported : Bool) (li : LinkInfo) (up : Bool) (m : Manager)
    → Bound (bindings m)
    → Bound (bindings (on_link_event exported li up m))
unfolding on_link_event link_present link_gone
Bound-on_link_event exported li true m h = at (find li.name m.dev_by_iface) refl
  where
    new :
        (e : Bool)
        → Bound (bindings (register li m))
        → Bound (bindings (if e then announce (m.dev_gen + 1) (register li m) else register li m))
    new true r = Bound-along (announce-bindings (m.dev_gen + 1) (register li m)) r
    new false r = r

    at :
        (o : Option ℕ)
        → find li.name m.dev_by_iface ≡ o
        → Bound (bindings (link_present exported li o m))
    at (some d) e = Bound-along (update_link-bindings d li m) h
    at none e = new exported (Bound-register li m h e)
Bound-on_link_event exported li false m h = at (find li.name m.dev_by_iface) refl
  where
    at : (o : Option ℕ) → find li.name m.dev_by_iface ≡ o → Bound (bindings (link_gone li.name o m))
    at none e = h
    at (some d) e = Bound-without_device li.name d (bindings m) h e

-- The devices that are there at the start.
pub Bound-add_devices :
    (links : List LinkInfo) (m : Manager)
    → Bound (bindings m)
    → Bound (bindings (add_devices links m))
unfolding add_devices add_device
Bound-add_devices [] m h = h
Bound-add_devices (li ∷ links) m h =
    Bound-add_devices links (add_device li m) (added (find li.name m.dev_by_iface) refl)
  where
    added :
        (o : Option ℕ)
        → find li.name m.dev_by_iface ≡ o
        → Bound (bindings (elim o [ some d ↦ m | none ↦ register li m ]))
    added (some d) e = h
    added none e = Bound-register li m h e
