-- ===== src/Nmapi/Access.antt =====
-- internal/nmapi/wireless.go and accesspoint.go: the access points of a wifi device, kept in step with
-- the networks of the backend. An access point is a pointer: here it is the number of its object path.
pub mod Listing
use sinty_nm.Base.{
  ltb, leb, ◌==◌, if◌then◌else◌, Bytes, ℕ, suc, ap, Bool, true, false, ◌&&◌, ◌||◌, Option, none,
  some, List, [], ◌∷◌, ◌++◌,
}
use sinty_nm.Base.Dict.{find, insert, remove, bytes_eq, bytes_equal}
use sinty_nm.Core.{ScannedAp}
use sinty_nm.Nmapi.Types.{dev_state_prepare, dev_state_activated}

-- AccessPoint: what was last scanned, and whether it has properties on the bus.
pub record ApObject : Type 0 where
  pub bssid : Bytes
  pub ssid : Bytes
  pub handle : Bytes
  pub last : ScannedAp
  pub exported : Bool

-- What goes to the bus.
pub data ApCall : Type 0 where
  ap_refresh ap_export ap_added ap_removed ap_unexport : ℕ → ApCall
  set_access_points : List ℕ → ApCall

-- Device, as far as its access points go, with the paths given out and what went to the bus.
pub record WifiList : Type 0 where
  pub ap_gen : ℕ
  pub object : ℕ → ApObject
  pub aps : List ℕ
  pub ap_by_handle : List (Bytes × ℕ)
  pub sent : List ApCall

-- populateAPs: the locals of its loop.
pub record Pass : Type 0 where
  pub gen : ℕ
  pub object : ℕ → ApObject
  pub new_list : List ℕ
  pub new_by_handle : List (Bytes × ℕ)
  pub added : List ℕ
  pub sent : List ApCall

-- newAccessPoint
unfoldable pub new_access_point : ScannedAp → ApObject
new_access_point n = record {
  bssid = n.bssid;
  ssid = n.ssid;
  handle = n.handle;
  last = n;
  exported = false;
}

-- AccessPoint.update
unfoldable pub update_ap : ScannedAp → ApObject → ApObject
update_ap n ap = record ap { last = n; handle = n.handle }

abbrev pub put_object : ℕ → ApObject → (ℕ → ApObject) → ℕ → ApObject
put_object q ap object p = if p == q then ap else object p

-- populateAPs: an access point of the new list.
unfoldable pub place : ℕ → ℕ → ApObject → Bytes → List ℕ → List ApCall → Pass → Pass
place gen q ap handle fresh sent s = record {
  gen = gen;
  object = put_object q ap s.object;
  new_list = s.new_list ++ q ∷ [];
  new_by_handle = insert handle q (remove handle s.new_by_handle);
  added = s.added ++ fresh;
  sent = s.sent ++ sent;
}

-- populateAPs: the properties of a survivor are written again, where it has any.
unfoldable pub refreshed : ℕ → ApObject → List ApCall
refreshed q ap = if ap.exported then ap_refresh q ∷ [] else []

-- populateAPs: one network, by the access point that had its handle.
unfoldable pub take_in : Option ℕ → ScannedAp → Pass → Pass
take_in (some q) n s =
    place s.gen q (update_ap n (s.object q)) n.handle [] (refreshed q (s.object q)) s
take_in none n s = place (suc s.gen) s.gen (new_access_point n) n.handle (s.gen ∷ []) [] s

-- populateAPs: the loop over the networks.
unfoldable pub reconcile : List (Bytes × ℕ) → List ScannedAp → Pass → Pass
reconcile old [] s = s
reconcile old (n ∷ nets) s = reconcile old nets (take_in (find n.handle old) n s)

unfoldable pub seen : Bytes → List ScannedAp → Bool
seen h [] = false
seen h (n ∷ nets) = bytes_equal n.handle h || seen h nets

-- populateAPs: the access points whose handle was not seen.
unfoldable pub vanished : List ScannedAp → List (Bytes × ℕ) → List ℕ
vanished nets [] = []
vanished nets ((h, p) ∷ old) =
    let rest = vanished nets old in if seen h nets then rest else p ∷ rest

-- AccessPoint.export: what the bus takes, the properties and then the introspection.
pub data ExportAnswer : Type 0 where
  refused only_properties taken : ExportAnswer

-- populateAPs: what is new is exported, and announced where the bus took all of it.
unfoldable pub announce_one : ExportAnswer → ℕ → WifiList → WifiList
announce_one taken p l = record l {
  object = put_object p (record (l.object p) { exported = true }) l.object;
  sent = l.sent ++ ap_export p ∷ ap_added p ∷ [];
}
announce_one only_properties p l = record l {
  object = put_object p (record (l.object p) { exported = true }) l.object;
  sent = l.sent ++ ap_export p ∷ [];
}
announce_one refused p l = record l { sent = l.sent ++ ap_export p ∷ [] }

unfoldable pub announce_added : (ℕ → ExportAnswer) → List ℕ → WifiList → WifiList
announce_added exports [] l = l
announce_added exports (p ∷ ps) l = announce_added exports ps (announce_one (exports p) p l)

-- populateAPs: what is gone is announced and taken from the bus.
unfoldable pub withdrawn : List ℕ → List ApCall
withdrawn [] = []
withdrawn (p ∷ ps) = ap_removed p ∷ ap_unexport p ∷ withdrawn ps

-- populateAPs: the property of the device.
unfoldable pub republished : Bool → List ℕ → List ApCall
republished true paths = set_access_points paths ∷ []
republished false paths = []

unfoldable pub first_pass : WifiList → Pass
first_pass l = record {
  gen = l.ap_gen;
  object = l.object;
  new_list = [];
  new_by_handle = [];
  added = [];
  sent = l.sent;
}

unfoldable pub stored : Pass → WifiList
stored s = record {
  ap_gen = s.gen;
  object = s.object;
  aps = s.new_list;
  ap_by_handle = s.new_by_handle;
  sent = s.sent;
}

-- populateAPs, given the answer of the backend, which objects the bus takes, and whether the device
-- has properties.
unfoldable pub populate_aps :
    Option (List ScannedAp) → (ℕ → ExportAnswer) → Bool → WifiList → WifiList
populate_aps none exports published l = l
populate_aps (some nets) exports published l =
    let s = reconcile l.ap_by_handle nets (first_pass l) in
    let shown = announce_added exports s.added (stored s) in
    record shown {
      sent =
          shown.sent ++ withdrawn (vanished nets l.ap_by_handle) ++ republished published shown.aps;
    }

-- scanAndPopulate: nothing while an activation goes on. That the radio is powered and a scan started
-- before the list is read is not recorded.
unfoldable pub scan_and_populate :
    ℕ → Option (List ScannedAp) → (ℕ → ExportAnswer) → Bool → WifiList → WifiList
scan_and_populate state answer exports published l =
    if leb dev_state_prepare state && ltb state dev_state_activated
    then l
    else populate_aps answer exports published l
