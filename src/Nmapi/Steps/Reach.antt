-- ===== src/Nmapi/Steps/Reach.antt =====
-- internal/nmapi: the states that the manager reaches from its start, by any order of link events, wifi
-- events, calls of clients and goroutines.
use sinty_nm.Base.{
  ◌==◌, if◌then◌else◌, Bool-cases, Bytes, map, ℕ, ◌≤◌, ◌≡◌, refl, inl, inr, Bool, true, false,
  Option, none, some, List, [], pos,
}
use sinty_nm.Nmapi.Variant.{SettingsMap}
use sinty_nm.Nmapi.Complete.{add_and_activate_connection}
use sinty_nm.Core.{LinkInfo, WifiEvent, Connectivity, conn_unknown, kind_unknown}
use sinty_nm.Sys.Conn.{Probe, check}
use sinty_nm.Nmapi.Profile.{SettingsConnection}
use sinty_nm.Nmapi.State.{Device, ActiveConnection, Manager, World, has, without}
use sinty_nm.Nmapi.Registry.{add_devices, on_link_event}
use sinty_nm.Nmapi.Registry.Sync.{Bound-on_link_event, Bound-add_devices}
use sinty_nm.Nmapi.Store.{add, updated2}
use sinty_nm.Nmapi.BringUp.{bring_up}
use sinty_nm.Nmapi.BringUp.Frame.{bring_up-bindings}
use sinty_nm.Nmapi.Auto.{Answers, on_wifi_event, auto_connect, manage}
use sinty_nm.Nmapi.Control.{
  state_disconnected, set_global_state, reach_state, record_connectivity, global_state_for,
  poll_connectivity_with, finish_activation, activate_connection, deactivate_connection, disconnect,
  delete_profile,
}
use sinty_nm.Nmapi.Activation.Frame.{bindings}
use sinty_nm.Nmapi.Activation.Invariant.{Bound}
use sinty_nm.Nmapi.Activation.Operations.{Bound-along}
use sinty_nm.Nmapi.Activation.{publish, fail}
use sinty_nm.Nmapi.Steps.{Bound-ended, Bound-publish, Bound-given_up, Bound-finish_activation}
use sinty_nm.Nmapi.Steps.Events.{
  Bound-on_wifi_event, Bound-auto_connect, Bound-manage, add-bindings,
}
use sinty_nm.Nmapi.Steps.Serving.{
  Bound-activate_connection, Bound-add_and_activate_connection, Bound-deactivate_connection,
  Bound-disconnect, Bound-delete_profile,
}

-- One operation, from its first lock to its last, with no other between. But an activation is several:
-- its way up, its publication or its failure, and its end; the test that it is not superseded comes
-- before the last two and is another critical section, so they may come at any time while it runs
-- (`finished` is the test and what follows at once). What the outside answers is any value; the devices of goroutines have been drawn.
pub data Step (m : Manager) : Manager → Type 0 where
  link_event :
      (exported : Bool) (li : LinkInfo) (up : Bool) → Step m (on_link_event exported li up m)
  wifi_event : (exported : Bool) (ev : WifiEvent) → Step m (on_wifi_event exported ev m)
  wired_managed :
      (a : Answers) (raised : Bool) (link : Option LinkInfo) (d : ℕ)
      → d ≤ m.dev_gen
      → Step m (manage a raised link d m)
  wired_connected : (a : Answers) (d : ℕ) → d ≤ m.dev_gen → Step m (auto_connect a d m)
  requested :
      (w : World) (exported : Bool) (rounds : List (Option LinkInfo)) (connection : ℕ)
      (device specific : Option ℕ)
      → Step m ((activate_connection w exported rounds connection device specific m).1)
  added :
      (w : World) (a : Answers) (exported : Bool) (rounds : List (Option LinkInfo))
      (settings : SettingsMap) (device specific : Option ℕ)
      → Step m ((add_and_activate_connection w a exported rounds settings device specific m).1.1)
  brought_up :
      (w : World) (p : ℕ) (sc : SettingsConnection) (d : ℕ) → Step m ((bring_up w p sc d m).0)
  finished :
      (stopped : Bool) (p : ℕ) (succeeded : Bool)
      → has p m.running ≡ true
      → Step m (finish_activation stopped p succeeded m)
  published : (p : ℕ) → has p m.running ≡ true → Step m (publish p (m.active p).device m)
  given_up : (p : ℕ) → has p m.running ≡ true → Step m (fail p (m.active p).device m)
  ended : (p : ℕ) → Step m (record m { running = without p m.running })
  deactivated : (p : ℕ) → Step m ((deactivate_connection p m).1)
  disconnected : (d : ℕ) → Step m (disconnect d m)
  profile_deleted : (path : ℕ) → Step m (delete_profile path m)
  profile_added :
      (fresh : Bytes) (written exported : Bool) (settings : SettingsMap)
      → Step m ((add fresh written exported settings m).1)
  profile_updated :
      (path : ℕ) (settings : SettingsMap)
      → Step m (record m {
        conns = map (λ sc. if sc.path == path then updated2 settings sc else sc) m.conns;
      })
  polled : (probe : Probe) → Step m (poll_connectivity_with probe m)

-- New: a manager with the profiles that were loaded, as many paths drawn for them, and without devices
-- and active connections.
unfoldable pub new_manager : ℕ → List SettingsConnection → Manager
new_manager drawn profiles = record {
  dev_gen = 0;
  ac_gen = 0;
  ip_gen = 0;
  devices = [];
  dev_by_path = [];
  dev_by_iface = [];
  device = λ d. no_device;
  active_conns = [];
  active = λ p. no_connection;
  state = state_disconnected;
  connectivity = conn_unknown;
  primary = none;
  conn_gen = drawn;
  conns = profiles;
  running = [];
  calls = [];
  tasks = [];
}
  where
    no_device : Device
    no_device = record {
      iface = [];
      index = pos 0;
      kind = kind_unknown;
      mac = [];
      managed = false;
      aps = [];
      active_ap = none;
      active_conn = none;
      ip4 = none;
      dhcp4 = none;
      ip4obj = none;
      state = 0;
      carrier = false;
      auto_wired = false;
    }

    no_connection : ActiveConnection
    no_connection = record {
      conn = none;
      specific = none;
      uuid = [];
      id = [];
      typ = [];
      device = 0;
      state = 0;
      ip4 = none;
      adopted = false;
      vpn_routes = [];
      cancelled = false;
      gone = false;
    }

pub data Reach : Manager → Type 0 where
  start :
      (drawn : ℕ) (profiles : List SettingsConnection) (links : List LinkInfo)
      → Reach (add_devices links (new_manager drawn profiles))
  then_step : {m n : Manager} → Reach m → Step m n → Reach n

set_global_state-bindings : (s : ℕ) (m : Manager) → bindings (set_global_state s m) ≡ bindings m
unfolding set_global_state
set_global_state-bindings s m = elim (Bool-cases (m.state == s)) [
  | inl e ↦ rw e refl
  | inr e ↦ rw e refl
]

reach_state-bindings : (o : Option ℕ) (m : Manager) → bindings (reach_state o m) ≡ bindings m
unfolding reach_state
reach_state-bindings none m = refl
reach_state-bindings (some s) m = set_global_state-bindings s m

record_connectivity-bindings :
    (r : Connectivity × Bool) (m : Manager) → bindings (record_connectivity r m) ≡ bindings m
unfolding record_connectivity
record_connectivity-bindings (c, true) m = refl
record_connectivity-bindings (c, false) m =
    reach_state-bindings (global_state_for c) (record m { connectivity = c })

-- Every step keeps devices and active connections in agreement.
pub Bound-Step : {m n : Manager} → Step m n → Bound (bindings m) → Bound (bindings n)
unfolding poll_connectivity_with
Bound-Step (link_event exported li up) h = Bound-on_link_event exported li up _ h
Bound-Step (wifi_event exported ev) h = Bound-on_wifi_event exported ev _ h
Bound-Step (wired_managed a raised link d known) h = Bound-manage a raised link d _ h known
Bound-Step (wired_connected a d known) h = Bound-auto_connect a d _ h known
Bound-Step (requested w exported rounds connection device specific) h =
    Bound-activate_connection w exported rounds connection device specific _ h
Bound-Step (added w a exported rounds settings device specific) h =
    Bound-add_and_activate_connection w a exported rounds settings device specific _ h
Bound-Step (brought_up w p sc d) h = Bound-along (bring_up-bindings w p sc d _) h
Bound-Step (finished stopped p succeeded runs) h =
    Bound-finish_activation stopped p succeeded _ h runs
Bound-Step (published p runs) h = Bound-publish p _ _ h (h.running_known p runs).0
Bound-Step (given_up p runs) h = Bound-given_up p _ h runs
Bound-Step (ended p) h = Bound-ended _ p h
Bound-Step (deactivated p) h = Bound-deactivate_connection p _ h
Bound-Step (disconnected d) h = Bound-disconnect d _ h
Bound-Step (profile_deleted path) h = Bound-delete_profile path _ h
Bound-Step (profile_added fresh written exported settings) h =
    Bound-along (add-bindings fresh written exported settings _) h
Bound-Step (profile_updated path settings) h = h
Bound-Step (polled probe) h = Bound-along (record_connectivity-bindings (check probe) _) h

Bound-new_manager :
    (drawn : ℕ) (profiles : List SettingsConnection) → Bound (bindings (new_manager drawn profiles))
unfolding new_manager
Bound-new_manager drawn profiles = record {
  found = λ name d e. absurd (cc e);
  known = λ d e. absurd (cc e);
  pathed = λ d e. e;
  listed_lives = λ p e. absurd (cc e);
  bound_listed = λ d p e. absurd (cc e);
  primary_known = λ p e. absurd (cc e);
  running_known = λ p e. absurd (cc e);
}

-- In every state that the manager reaches by operations that run one after the other (activations come
-- up, publish late and fail late between them, but nothing comes between two locks of another
-- operation): a name in the map of
-- interfaces is that of a device in the list, a device in the list is in both maps, under its own name; a
-- listed active connection is not gone and is the one that its device names; a device names only a
-- listed active connection of its own; the path of the primary connection was drawn; an activation that runs
-- is of a gone connection, or of a listed one that was not adopted.
pub Reach-Bound : {m : Manager} → Reach m → Bound (bindings m)
Reach-Bound (start drawn profiles links) =
    Bound-add_devices links (new_manager drawn profiles) (Bound-new_manager drawn profiles)
Reach-Bound (then_step before step) = Bound-Step step (Reach-Bound before)

-- In every state that the manager reaches, two registered devices of one name are the same.
pub Reach-one_device :
    {m : Manager} (d e : ℕ)
    → Reach m
    → has d m.devices ≡ true
    → has e m.devices ≡ true
    → (m.device d).iface ≡ (m.device e).iface
    → d ≡ e
Reach-one_device d e reached at_d at_e same =
    let h = Reach-Bound reached in cc ((h.known d at_d).0, (h.known e at_e).0, same)
