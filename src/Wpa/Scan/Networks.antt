-- ===== src/Wpa/Scan/Networks.antt =====
-- internal/backend/wpa/wpa.go, `parseScanResults`: one entry for each SSID, the strongest first.
use sinty_nm.Base.{
  ltb, ltb→lt, not_ltb→le, Bool-cases, drop, All, Bytes, ℤ, split, split_n, ◌≤◌, ◌<◌, ◌≡◌, sym, ap,
  ◌∙◌, ◌≢◌, inl, inr, false, Option, none, some, List, [], ◌∷◌, arith,
}
use sinty_nm.Base.Dict.{bytes_equal, bytes_equal_iff}
use sinty_nm.Core.{ScannedAp}
use sinty_nm.Wpa.Scan.{
  ap_in, merge_ap, merge_line, merge_lines, sink, sort_from, reversed, strongest_first,
  parse_scan_results,
}

-- Every two entries of a list, in their order.
abbrev pub Pairwise : (ScannedAp → ScannedAp → Type 0) → List ScannedAp → Type 0
Pairwise R [] = Unit
Pairwise R (x ∷ xs) = All (R x) xs × Pairwise R xs

abbrev pub IsApart : ScannedAp → ScannedAp → Type 0
IsApart x y = y.ssid ≢ x.ssid

abbrev pub IsWeaker : ScannedAp → ScannedAp → Type 0
IsWeaker x y = y.strength ≤ x.strength

IsStronger : ScannedAp → ScannedAp → Type 0
IsStronger x y = x.strength ≤ y.strength

-- Reversing a list turns its pairs around.
reversed-Pairwise :
    (R S : ScannedAp → ScannedAp → Type 0) (done xs : List ScannedAp)
    → ((x y : ScannedAp) → R x y → S y x)
    → Pairwise S done
    → Pairwise R xs
    → All (λ x. All (S x) done) xs
    → Pairwise S (reversed done xs)
unfolding reversed
reversed-Pairwise R S done [] turn h k cross = h
reversed-Pairwise R S done (x ∷ xs) turn h (first, k) (over, cross) =
    reversed-Pairwise R S (x ∷ done) xs turn (over, h) k (both xs first cross)
  where
    both :
        (ys : List ScannedAp)
        → All (R x) ys
        → All (λ y. All (S y) done) ys
        → All (λ y. All (S y) (x ∷ done)) ys
    both [] a b = tt
    both (y ∷ ys) (a, more) (b, others) = ((turn x y a, b), both ys more others)

nothing_done :
    (S : ScannedAp → ScannedAp → Type 0) (xs : List ScannedAp) → All (λ x. All (S x) []) xs
nothing_done S [] = tt
nothing_done S (x ∷ xs) = (tt, nothing_done S xs)

All-mono :
    (P Q : ScannedAp → Type 0) (xs : List ScannedAp)
    → ((x : ScannedAp) → P x → Q x)
    → All P xs
    → All Q xs
All-mono P Q [] f h = tt
All-mono P Q (x ∷ xs) f (h, rest) = (f x h, All-mono P Q xs f rest)

-- The entry that sinks and those that it passes are the ones there were.
sink-All :
    (P : ScannedAp → Type 0) (ap : ScannedAp) (sorted : List ScannedAp)
    → P ap
    → All P sorted
    → All P (sink ap sorted)
unfolding sink
sink-All P ap [] p h = (p, tt)
sink-All P ap (x ∷ sorted) p (first, h) = elim (Bool-cases (ltb x.strength ap.strength)) [
  | inl e ↦ simp e (first, sink-All P ap sorted p h)
  | inr e ↦ simp e (p, (first, h))
]

sink-IsStronger :
    (ap : ScannedAp) (sorted : List ScannedAp)
    → Pairwise IsStronger sorted
    → Pairwise IsStronger (sink ap sorted)
unfolding sink IsStronger
sink-IsStronger ap [] h = (tt, tt)
sink-IsStronger ap (x ∷ sorted) (first, h) = elim (Bool-cases (ltb x.strength ap.strength)) [
  | inl e ↦
      let weaker : x.strength ≤ ap.strength = le_of (ltb→lt x.strength ap.strength e) in
      simp e (sink-All (IsStronger x) ap sorted weaker first, sink-IsStronger ap sorted h)
  | inr e ↦
      let stronger : ap.strength ≤ x.strength = not_ltb→le x.strength ap.strength e in
      simp e (
        (
          stronger,
          All-mono (IsStronger x) (IsStronger ap) sorted (λ y le. le_trans_of y stronger le) first,
        ),
        (first, h),
      )
]
  where
    le_of : x.strength < ap.strength → x.strength ≤ ap.strength
    le_of h = omega arith

    le_trans_of :
        (y : ScannedAp)
        → ap.strength ≤ x.strength
        → x.strength ≤ y.strength
        → ap.strength ≤ y.strength
    le_trans_of y a b = omega arith

sort_from-IsStronger :
    (sorted aps : List ScannedAp)
    → Pairwise IsStronger sorted
    → Pairwise IsStronger (sort_from sorted aps)
unfolding sort_from
sort_from-IsStronger sorted [] h = h
sort_from-IsStronger sorted (ap ∷ aps) h =
    sort_from-IsStronger (sink ap sorted) aps (sink-IsStronger ap sorted h)

IsApart-sym : (x y : ScannedAp) → IsApart x y → IsApart y x
IsApart-sym x y h e = h (sym e)

sink-IsApart :
    (ap : ScannedAp) (sorted : List ScannedAp)
    → All (IsApart ap) sorted
    → Pairwise IsApart sorted
    → Pairwise IsApart (sink ap sorted)
unfolding sink
sink-IsApart ap [] other h = (tt, tt)
sink-IsApart ap (x ∷ sorted) (apart, others) (first, h) =
    elim (Bool-cases (ltb x.strength ap.strength)) [
      | inl e ↦ simp e (
        sink-All (IsApart x) ap sorted (IsApart-sym ap x apart) first,
        sink-IsApart ap sorted others h,
      )
      | inr e ↦ simp e ((apart, others), (first, h))
    ]

-- The entries that are still to be sorted are apart from those that are.
sort_from-IsApart :
    (sorted aps : List ScannedAp)
    → Pairwise IsApart sorted
    → Pairwise IsApart aps
    → All (λ y. All (IsApart y) sorted) aps
    → Pairwise IsApart (sort_from sorted aps)
unfolding sort_from
sort_from-IsApart sorted [] h k cross = h
sort_from-IsApart sorted (ap ∷ aps) h (first, k) (over, cross) =
    sort_from-IsApart (sink ap sorted) aps (sink-IsApart ap sorted over h) k (sunk aps first cross)
  where
    sunk :
        (ys : List ScannedAp)
        → All (IsApart ap) ys
        → All (λ y. All (IsApart y) sorted) ys
        → All (λ y. All (IsApart y) (sink ap sorted)) ys
    sunk [] a b = tt
    sunk (y ∷ ys) (a, more) (b, others) =
        (sink-All (IsApart y) ap sorted (IsApart-sym ap y a) b, sunk ys more others)

-- The entries that a line leaves apart from another one stay so.
merge_ap-All :
    (x ap : ScannedAp) (out : List ScannedAp)
    → IsApart x ap
    → All (IsApart x) out
    → All (IsApart x) (merge_ap ap out)
unfolding merge_ap
merge_ap-All x ap [] apart h = (apart, tt)
merge_ap-All x ap (y ∷ out) apart (first, h) = elim (Bool-cases (bytes_equal y.ssid ap.ssid)) [
  | inr e ↦ simp e (first, merge_ap-All x ap out apart h)
  | inl e ↦ simp e (elim (Bool-cases (ltb y.strength ap.strength)) [
    | inl s ↦ simp s (apart, h)
    | inr s ↦ simp s (first, h)
  ])
]

merge_ap-IsApart :
    (ap : ScannedAp) (out : List ScannedAp)
    → Pairwise IsApart out
    → Pairwise IsApart (merge_ap ap out)
unfolding merge_ap
merge_ap-IsApart ap [] h = (tt, tt)
merge_ap-IsApart ap (y ∷ out) (first, h) = elim (Bool-cases (bytes_equal y.ssid ap.ssid)) [
  | inr e ↦ simp e (merge_ap-All y ap out (other e) first, merge_ap-IsApart ap out h)
  | inl e ↦
      let same : y.ssid ≡ ap.ssid = (bytes_equal_iff y.ssid ap.ssid).0 e in
      simp e (elim (Bool-cases (ltb y.strength ap.strength)) [
        | inl s ↦
            simp s (All-mono (IsApart y) (IsApart ap) out (λ z a b. a (b ∙ sym same)) first, h)
        | inr s ↦ simp s (first, h)
      ])
]
  where
    other : bytes_equal y.ssid ap.ssid ≡ false → IsApart y ap
    other e same = cc (e, (bytes_equal_iff y.ssid ap.ssid).1 (sym same))

merge_lines-IsApart :
    (atoi : Bytes → ℤ) (lines : List Bytes) (out : List ScannedAp)
    → Pairwise IsApart out
    → Pairwise IsApart (merge_lines atoi lines out)
unfolding merge_lines merge_line
merge_lines-IsApart atoi [] out h = h
merge_lines-IsApart atoi (line ∷ lines) out h =
    merge_lines-IsApart atoi lines (merge_line (ap_in atoi (split_n 4 9 line)) out)
      (merged (ap_in atoi (split_n 4 9 line)))
  where
    merged : (o : Option ScannedAp) → Pairwise IsApart (merge_line o out)
    merged none = h
    merged (some ap) = merge_ap-IsApart ap out h

-- The networks of a scan, whatever the supplicant prints and however its numbers are read, have
-- distinct SSIDs, and none of them is stronger than one before it.
pub parse_scan_results-Pairwise :
    (atoi : Bytes → ℤ) (text : Bytes)
    → Pairwise IsApart (parse_scan_results atoi text)
      × Pairwise IsWeaker (parse_scan_results atoi text)
unfolding parse_scan_results strongest_first IsStronger
parse_scan_results-Pairwise atoi text =
    let out = merge_lines atoi (drop 1 (split 10 text)) [] in
    let sorted = sort_from [] out in
    (
      reversed-Pairwise IsApart IsApart [] sorted IsApart-sym tt
          (sort_from-IsApart [] out tt (merge_lines-IsApart atoi (drop 1 (split 10 text)) [] tt)
            (nothing_done IsApart out))
          (nothing_done IsApart sorted),
      reversed-Pairwise IsStronger IsWeaker [] sorted (λ x y h. h) tt
          (sort_from-IsStronger [] out tt) (nothing_done IsWeaker sorted),
    )
