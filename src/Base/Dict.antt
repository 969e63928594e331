-- ===== src/Base/Dict.antt =====
-- Go maps over any key with an equality test, as association lists: a write puts the new binding in
-- front. The order of a Go map is not fixed, and nothing here depends on it.
use mathlib.Core.Path.{sym, ◌≡◌, refl}
use mathlib.Core.Logic.{inl, inr, ◌≢◌, ◌↔◌}
use mathlib.Core.Bool.{Bool, true, false, ◌&&◌}
use mathlib.Core.List.{List, [], ◌∷◌}
use mathlib.Core.Option.{Option, none, some}
use native.Mathlib.Omega.{arith}
use sinty_nm.Base.Tests.{Bool-cases, ◌==◌ as nat_beq, ==_iff, if◌then◌else◌}
use Prim.Native.Nat.{ℕ}

pub record Key {ℓ} (K : Type ℓ) : Type ℓ where
  pub same_key : K → K → Bool
  pub same_key_iff : (j k : K) → (same_key j k ≡ true) ↔ (j ≡ k)

module _ {ℓ κ} {K : Type ℓ} {V : Type κ} ⦃e : Key K⦄ where
  abbrev pub find : K → List (K × V) → Option V
  find k [] = none
  find k ((j, v) ∷ m) = if e.same_key j k then some v else find k m

  abbrev pub insert : K → V → List (K × V) → List (K × V)
  insert k v m = (k, v) ∷ m

  abbrev pub remove : K → List (K × V) → List (K × V)
  remove k [] = []
  remove k ((j, v) ∷ m) = let rest = remove k m in if e.same_key j k then rest else (j, v) ∷ rest

  pub find-remove :
      (k j : K) (m : List (K × V))
      → find j (remove k m) ≡ (if e.same_key k j then none else find j m)
  find-remove k j [] = ground arith
  find-remove k j ((i, v) ∷ m) =
      ground (arith, e.same_key_iff k j, e.same_key_iff i k, e.same_key_iff i j, find-remove k j m)

  pub find-remove_self : (k : K) (m : List (K × V)) → find k (remove k m) ≡ none
  find-remove_self k m = rw (find-remove k k m, (e.same_key_iff k k).1 refl)

  pub find-insert_self : (k : K) (v : V) (m : List (K × V)) → find k (insert k v m) ≡ some v
  find-insert_self k v m = rw ((e.same_key_iff k k).1 refl)

  pub find-insert_other :
      (k j : K) (v : V) (m : List (K × V)) → j ≢ k → find j (insert k v m) ≡ find j m
  find-insert_other k j v m apart = elim (Bool-cases (e.same_key k j)) [
    | inl same ↦ absurd (apart (sym ((e.same_key_iff k j).0 same)))
    | inr other ↦ rw other
  ]

  pub find-remove_other : (k j : K) (m : List (K × V)) → j ≢ k → find j (remove k m) ≡ find j m
  find-remove_other k j m apart = elim (Bool-cases (e.same_key k j)) [
    | inl same ↦ absurd (apart (sym ((e.same_key_iff k j).0 same)))
    | inr other ↦ rw (find-remove k j m, other)
  ]

-- `==` on strings, and `bytes.Equal`.
abbrev pub bytes_equal : List ℕ → List ℕ → Bool
bytes_equal [] [] = true
bytes_equal (x ∷ xs) (y ∷ ys) = nat_beq x y && bytes_equal xs ys
bytes_equal _ _ = false

pub bytes_equal_iff : (a b : List ℕ) → (bytes_equal a b ≡ true) ↔ (a ≡ b)
bytes_equal_iff (x ∷ a) (y ∷ b) = ground (arith, bytes_equal_iff a b)
bytes_equal_iff _ _ = ground arith

instance abbrev pub nat_eq : Key ℕ
nat_eq = record { same_key = nat_beq; same_key_iff = ==_iff }

instance abbrev pub bytes_eq : Key (List ℕ)
bytes_eq = record { same_key = bytes_equal; same_key_iff = bytes_equal_iff }
