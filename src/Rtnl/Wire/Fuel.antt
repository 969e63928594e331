-- ===== src/Rtnl/Wire/Fuel.antt =====
-- internal/backend/rtnl/wire.go, `forEachAttr`: the loop ends by itself.
use sinty_nm.Base.{
  ltb, lt→ltb, not_ltb→le, or_false, Bool-cases, length, take, drop, length-drop, Bytes, Result,
  Result-cases, ℕ, zero, suc, ◌≤◌, ◌≡◌, refl, inl, inr, false, ◌||◌, arith,
}
use sinty_nm.Rtnl.Order.{ByteOrder, uint16}
use sinty_nm.Rtnl.Wire.{Panic, align, for_each_attr}

align-le : (n : ℕ) → n ≤ align n
unfolding align
align-le n = omega arith

-- On fuel of at least the bytes that are left, `forEachAttr` gives the same whatever the fuel, on any
-- bytes and for any callback: it ends by itself.
pub for_each_attr_fuel :
    {S : Type 0} (o : ByteOrder) (fn : S → ℕ × Bytes → Result Panic S) (f g : ℕ) (b : Bytes) (s : S)
    → length b ≤ f
    → length b ≤ g
    → for_each_attr o fn f b s ≡ for_each_attr o fn g b s
unfolding for_each_attr
for_each_attr_fuel o fn zero zero b s p q = refl
for_each_attr_fuel o fn zero (suc g) b s p q =
    let short = lt→ltb (length b) 4 (omega arith) in rw short refl
for_each_attr_fuel o fn (suc f) zero b s p q =
    let short = lt→ltb (length b) 4 (omega arith) in rw short refl
for_each_attr_fuel o fn (suc f) (suc g) b s p q =
    let l = uint16 o b in
    let a : ℕ × Bytes = (uint16 o (drop 2 b), drop 4 (take l b)) in
    elim (Bool-cases (ltb (length b) 4 || (ltb l 4 || ltb (length b) l))) [
      | inl stops ↦ rw stops refl
      | inr there ↦ elim (Result-cases (fn s a)) [
        | inr (e, fails) ↦ rw (there, fails) refl
        | inl (s1, takes) ↦
            let rest : (ltb l 4 ≡ false) × (ltb (length b) l ≡ false) =
              or_false (or_false there).1 in
            let big : 4 ≤ l = not_ltb→le l 4 rest.0 in
            let shorter = length-drop (align l) b in
            let same =
              for_each_attr_fuel o fn f g (drop (align l) b) s1
                (omega (arith, shorter, big, align-le l))
                (omega (arith, shorter, big, align-le l)) in
            rw (there, takes, same) refl
      ]
    ]
