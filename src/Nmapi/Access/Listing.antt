-- ===== src/Nmapi/Access/Listing.antt =====
-- internal/nmapi/wireless.go, `populateAPs`: the access points that are listed after it.
use sinty_nm.Base.{
  All-append, ◌==◌, if◌then◌else◌, ==_iff, Bool-cases, All, Bytes, ℕ, suc, ◌≤◌, ◌<◌, ◌≡◌, refl, sym,
  ap, subst, ◌∙◌, ◌≢◌, ◌⊎◌, inl, inr, Bool, true, false, ◌||◌, Option, none, some, List, [], ◌∷◌,
  ◌++◌, map, append-nil, append_assoc, arith,
}
use sinty_nm.Base.Dict.{
  find, insert, remove, bytes_eq, bytes_equal, bytes_equal_iff, find-remove_other,
}
use sinty_nm.Core.{ScannedAp}
use sinty_nm.Nmapi.Access.{
  ApObject, WifiList, Pass, new_access_point, update_ap, put_object, place, take_in, reconcile,
  ApCall, ExportAnswer, taken, only_properties, refused, announce_one, announce_added, first_pass,
  stored, seen, populate_aps,
}

-- The path that a handle has was given out, to an access point with that handle.
abbrev pub Keyed : List (Bytes × ℕ) → ℕ → (ℕ → ApObject) → Type 0
Keyed t gen object = (h : Bytes) (p : ℕ) → find h t ≡ some p → (p < gen) × ((object p).handle ≡ h)

-- No two networks have the same handle.
abbrev pub Distinct : List ScannedAp → Type 0
Distinct [] = Unit
Distinct (n ∷ nets) = All (λ x. n.handle ≢ x.handle) nets × Distinct nets

-- The listed access points have no handle of the networks to come.
abbrev Done : List ScannedAp → ℕ → (ℕ → ApObject) → List ℕ → Type 0
Done nets gen object listed =
    All (λ p. (p < gen) × All (λ n. (object p).handle ≢ n.handle) nets) listed

-- The write at `q` is of a new access point, or of one with the same handle.
abbrev Fits : ℕ → ℕ → ApObject → ℕ → (ℕ → ApObject) → Type 0
Fits gen' q a gen object =
    (gen ≤ gen') × (q < gen') × ((p : ℕ) → p < gen → p ≡ q → (object p).handle ≡ a.handle)

Keyed-put :
    (t : List (Bytes × ℕ)) (gen' q : ℕ) (a : ApObject) (gen : ℕ) (object : ℕ → ApObject)
    → Fits gen' q a gen object
    → Keyed t gen object
    → Keyed t gen' (put_object q a object)
Keyed-put t gen' q a gen object (more, below, fits) k h p e =
    let (low, same) = k h p e in (omega (arith, low, more), at low same (p == q) refl)
  where
    at :
        p < gen
        → (object p).handle ≡ h
        → (b : Bool) → (p == q) ≡ b
        → (if b then a else object p).handle ≡ h
    at low same false e = same
    at low same true e = sym (fits p low ((==_iff p q).0 e)) ∙ same

put_object_self : (q : ℕ) (a : ApObject) (object : ℕ → ApObject) → put_object q a object q ≡ a
put_object_self q a object = rw ((==_iff q q).1 refl)

put_object_other :
    (q p : ℕ) (a : ApObject) (object : ℕ → ApObject)
    → (p == q) ≡ false
    → put_object q a object p ≡ object p
put_object_other q p a object e = rw e

Keyed-insert :
    (t : List (Bytes × ℕ)) (gen' q : ℕ) (a : ApObject) (gen : ℕ) (object : ℕ → ApObject)
    → Fits gen' q a gen object
    → Keyed t gen object
    → Keyed (insert a.handle q (remove a.handle t)) gen' (put_object q a object)
Keyed-insert t gen' q a gen object (more, below, fits) k h p e = at (bytes_equal a.handle h) refl e
  where
    apart : bytes_equal a.handle h ≡ false → h ≢ a.handle
    apart other same = absurd (cc (other, (bytes_equal_iff a.handle h).1 (sym same)))

    at :
        (b : Bool)
        → bytes_equal a.handle h ≡ b
        → (if b then some q else find h (remove a.handle t)) ≡ some p
        → (p < gen') × ((put_object q a object p).handle ≡ h)
    at true same found =
        subst (λ x. (x < gen') × ((put_object q a object x).handle ≡ h)) (cc found)
          (
            below,
            ap (λ x. x.handle) (put_object_self q a object) ∙ (bytes_equal_iff a.handle h).0 same,
          )
    at false other found =
        Keyed-put t gen' q a gen object (more, below, fits) k h p
          (sym (find-remove_other a.handle h t (apart other)) ∙ found)

last_of : (ℕ → ApObject) → ℕ → ScannedAp
last_of object p = (object p).last

put-Done :
    (nets : List ScannedAp) (gen' q : ℕ) (a : ApObject) (gen : ℕ) (object : ℕ → ApObject)
    (n : ScannedAp) (listed : List ℕ)
    → a.handle ≡ n.handle
    → Fits gen' q a gen object
    → Done (n ∷ nets) gen object listed
    → Done nets gen' (put_object q a object) listed
      × (map (last_of (put_object q a object)) listed ≡ map (last_of object) listed)
unfolding last_of
put-Done nets gen' q a gen object n [] same fit d = (tt, refl)
put-Done nets gen' q a gen object n (p ∷ listed) same (more, below, fits)
      ((low, (not_n, rest)), d) =
    let (d', kept) = put-Done nets gen' q a gen object n listed same (more, below, fits) d in
    elim (Bool-cases (p == q)) [
      | inl e ↦ absurd (not_n (fits p low ((==_iff p q).0 e) ∙ same))
      | inr e ↦
          let still = put_object_other q p a object e in
          (
            (
              (
                omega (arith, low, more),
                subst (λ x. All (λ n. x.handle ≢ n.handle) nets) (sym still) rest,
              ),
              d',
            ),
            cc (ap (λ x. x.last) still, kept),
          )
    ]

map_snoc : (f : ℕ → ScannedAp) (l : List ℕ) (q : ℕ) → map f (l ++ q ∷ []) ≡ map f l ++ f q ∷ []
map_snoc f [] q = refl
map_snoc f (p ∷ l) q = ap (λ x. f p ∷ x) (map_snoc f l q)

-- What the loop keeps: both maps are keyed, and what is listed is done.
Sound : List (Bytes × ℕ) → List ScannedAp → Pass → Type 0
Sound old nets s =
    Keyed old s.gen s.object
    × Keyed s.new_by_handle s.gen s.object
    × Done nets s.gen s.object s.new_list

place-Sound :
    (old : List (Bytes × ℕ)) (nets : List ScannedAp) (n : ScannedAp) (gen' q : ℕ) (a : ApObject)
    (fresh : List ℕ) (sent : List ApCall) (s : Pass)
    → a.handle ≡ n.handle
    → a.last ≡ n
    → Fits gen' q a s.gen s.object
    → All (λ x. n.handle ≢ x.handle) nets
    → Sound old (n ∷ nets) s
    → let s' = place gen' q a a.handle fresh sent s in
      Sound old nets s'
      × (map (last_of s'.object) s'.new_list ≡ map (last_of s.object) s.new_list ++ n ∷ [])
unfolding Sound place last_of
place-Sound old nets n gen' q a fresh sent s same now fit apart (k, kn, d) =
    let (d', kept) = put-Done nets gen' q a s.gen s.object n s.new_list same fit d in
    (
      (
        Keyed-put old gen' q a s.gen s.object fit k,
        Keyed-insert s.new_by_handle gen' q a s.gen s.object fit kn,
        All-append _ s.new_list (q ∷ []) d' (
          (
            fit.1,
            subst (λ h. All (λ x. h ≢ x.handle) nets)
                (sym (ap (λ x. x.handle) (put_object_self q a s.object) ∙ same)) apart,
          ),
          tt,
        ),
      ),
      map_snoc _ s.new_list q ∙ cc (kept, ap (λ x. x.last) (put_object_self q a s.object), now),
    )

take_in-Sound :
    (old : List (Bytes × ℕ)) (nets : List ScannedAp) (n : ScannedAp) (s : Pass)
    → All (λ x. n.handle ≢ x.handle) nets
    → Sound old (n ∷ nets) s
    → let s' = take_in (find n.handle old) n s in
      Sound old nets s'
      × (map (last_of s'.object) s'.new_list ≡ map (last_of s.object) s.new_list ++ n ∷ [])
unfolding take_in new_access_point update_ap Sound
take_in-Sound old nets n s apart sound = at (find n.handle old) refl
  where
    at :
        (o : Option ℕ)
        → find n.handle old ≡ o
        → let s' = take_in o n s in
          Sound old nets s'
          × (map (last_of s'.object) s'.new_list ≡ map (last_of s.object) s.new_list ++ n ∷ [])
    at (some q) e =
        let (below, same) = sound.0 n.handle q e in
        place-Sound old nets n s.gen q (update_ap n (s.object q)) [] _ s refl refl
          (omega arith, below, λ p low here. ap (λ x. (s.object x).handle) here ∙ same) apart sound
    at none e =
        place-Sound old nets n (suc s.gen) s.gen (new_access_point n) (s.gen ∷ []) [] s refl refl
          (omega arith, omega arith, λ p low here. absurd (omega (arith, low, here))) apart sound

reconcile-Sound :
    (old : List (Bytes × ℕ)) (nets : List ScannedAp) (s : Pass)
    → Distinct nets
    → Sound old nets s
    → let s' = reconcile old nets s in
      Keyed s'.new_by_handle s'.gen s'.object
      × (map (last_of s'.object) s'.new_list ≡ map (last_of s.object) s.new_list ++ nets)
unfolding reconcile Sound
reconcile-Sound old [] s d sound = (sound.1, sym (append-nil _))
reconcile-Sound old (n ∷ nets) s (apart, d) sound =
    let (next, one) = take_in-Sound old nets n s apart sound in
    let (keyed, all) = reconcile-Sound old nets (take_in (find n.handle old) n s) d next in
    (keyed, all ∙ ap (λ l. l ++ nets) one ∙ append_assoc _ (n ∷ []) nets)

-- Two states of the objects with the same scans and handles.
Kept : (ℕ → ApObject) → (ℕ → ApObject) → Type 0
Kept object object' =
    (p : ℕ) → ((object' p).last ≡ (object p).last) × ((object' p).handle ≡ (object p).handle)

export-Kept :
    (q : ℕ) (object : ℕ → ApObject)
    → Kept object (put_object q (record (object q) { exported = true }) object)
unfolding Kept
export-Kept q object p = at (p == q) refl
  where
    at :
        (b : Bool)
        → (p == q) ≡ b
        → let x = if b then record (object q) { exported = true } else object p in
          (x.last ≡ (object p).last) × (x.handle ≡ (object p).handle)
    at false e = (refl, refl)
    at true e =
        let here = (==_iff p q).0 e in
        (ap (λ x. (object x).last) (sym here), ap (λ x. (object x).handle) (sym here))

IsSameList : WifiList → WifiList → Type 0
IsSameList l l' =
    (l'.ap_gen ≡ l.ap_gen)
    × (l'.aps ≡ l.aps)
    × (l'.ap_by_handle ≡ l.ap_by_handle)
    × Kept l.object l'.object

announce_one_lem :
    (answer : ExportAnswer) (p : ℕ) (l : WifiList) → IsSameList l (announce_one answer p l)
unfolding announce_one IsSameList Kept
announce_one_lem taken p l = (refl, refl, refl, export-Kept p l.object)
announce_one_lem only_properties p l = (refl, refl, refl, export-Kept p l.object)
announce_one_lem refused p l = (refl, refl, refl, λ q. (refl, refl))

announce_added_lem :
    (exports : ℕ → ExportAnswer) (ps : List ℕ) (l : WifiList)
    → IsSameList l (announce_added exports ps l)
unfolding announce_added IsSameList Kept
announce_added_lem exports [] l = (refl, refl, refl, λ p. (refl, refl))
announce_added_lem exports (p ∷ ps) l =
    let (gen, aps, handles, kept) = announce_one_lem (exports p) p l in
    let (gens, all, others, more) = announce_added_lem exports ps (announce_one (exports p) p l) in
    (
      gens ∙ gen,
      all ∙ aps,
      others ∙ handles,
      λ q. ((more q).0 ∙ (kept q).0, (more q).1 ∙ (kept q).1),
    )

map-Kept :
    (object object' : ℕ → ApObject) (l : List ℕ)
    → Kept object object'
    → map (last_of object') l ≡ map (last_of object) l
unfolding last_of Kept
map-Kept object object' [] kept = refl
map-Kept object object' (p ∷ l) kept = cc ((kept p).0, map-Kept object object' l kept)

take_in_self :
    (h : Bytes) (p : ℕ) (o : Option ℕ) (n : ScannedAp) (s : Pass)
    → o ≡ some p
    → bytes_equal n.handle h ≡ true
    → find h (take_in o n s).new_by_handle ≡ some p
unfolding take_in place
take_in_self h p none n s e same = absurd (cc e)
take_in_self h p (some q) n s e same = simp same e

take_in_other :
    (h : Bytes) (o : Option ℕ) (n : ScannedAp) (s : Pass)
    → bytes_equal n.handle h ≡ false
    → find h (take_in o n s).new_by_handle ≡ find h s.new_by_handle
unfolding take_in place
take_in_other h o n s other = at o
  where
    apart : h ≢ n.handle
    apart same = absurd (cc (other, (bytes_equal_iff n.handle h).1 (sym same)))

    at : (o : Option ℕ) → find h (take_in o n s).new_by_handle ≡ find h s.new_by_handle
    at none = simp other (find-remove_other n.handle h s.new_by_handle apart)
    at (some q) = simp other (find-remove_other n.handle h s.new_by_handle apart)

-- A handle that is seen again keeps its path.
reconcile-find :
    (old : List (Bytes × ℕ)) (h : Bytes) (p : ℕ) (nets : List ScannedAp) (s : Pass)
    → find h old ≡ some p
    → (find h s.new_by_handle ≡ some p) ⊎ (seen h nets ≡ true)
    → find h (reconcile old nets s).new_by_handle ≡ some p
unfolding reconcile seen
reconcile-find old h p [] s known (inl e) = e
reconcile-find old h p [] s known (inr e) = absurd (cc e)
reconcile-find old h p (n ∷ nets) s known here =
    reconcile-find old h p nets (take_in (find n.handle old) n s) known
      (at (bytes_equal n.handle h) refl here)
  where
    at :
        (b : Bool)
        → bytes_equal n.handle h ≡ b
        → (find h s.new_by_handle ≡ some p) ⊎ ((b || seen h nets) ≡ true)
        → (find h (take_in (find n.handle old) n s).new_by_handle ≡ some p) ⊎ (seen h nets ≡ true)
    at true same _ = inl (
        take_in_self h p (find n.handle old) n s
          (ap (λ k. find k old) ((bytes_equal_iff n.handle h).0 same) ∙ known) same)
    at false other (inl e) = inl (take_in_other h (find n.handle old) n s other ∙ e)
    at false other (inr e) = inr e

-- Where the handles of the networks that the backend answers are distinct, and every handle known
-- before names an access point with that handle, whatever the bus takes: the access points listed
-- afterwards hold the networks of the answer, in its order, every handle names an access point with
-- that handle, and a handle that was known and is in the answer still names the same access point.
pub populate_aps_lem :
    (nets : List ScannedAp) (exports : ℕ → ExportAnswer) (published : Bool) (l : WifiList)
    → Distinct nets
    → Keyed l.ap_by_handle l.ap_gen l.object
    → let l' = populate_aps (some nets) exports published l in
      (map (λ p. (l'.object p).last) l'.aps ≡ nets)
      × Keyed l'.ap_by_handle l'.ap_gen l'.object
      × ((h : Bytes) (p : ℕ)
          → find h l.ap_by_handle ≡ some p
          → seen h nets ≡ true
          → find h l'.ap_by_handle ≡ some p)
unfolding populate_aps first_pass stored Sound IsSameList Kept last_of
populate_aps_lem nets exports published l distinct keyed =
    let s = reconcile l.ap_by_handle nets (first_pass l) in
    let (keyed', listed) =
      reconcile-Sound l.ap_by_handle nets (first_pass l) distinct
        (keyed, (λ h p e. absurd (cc e)), tt) in
    let (gen, aps, handles, kept) = announce_added_lem exports s.added (stored s) in
    (
      map-Kept s.object (announce_added exports s.added (stored s)).object _ kept
          ∙ ap (map (last_of s.object)) aps
          ∙ listed,
      λ h p e.
          let (low, same) = keyed' h p (subst (λ t. find h t ≡ some p) handles e) in
          (subst (λ g. p < g) (sym gen) low, (kept p).1 ∙ same),
      λ h p known again.
          ap (find h) handles
          ∙ reconcile-find l.ap_by_handle h p nets (first_pass l) known (inr again),
    )
