-- ===== src/Rtnl/Wire/RoundTrip.antt =====
-- internal/backend/rtnl/wire.go: `forEachAttr` reads back what `appendAttr` wrote, and panics on a
-- last attribute without its padding.
use sinty_nm.Base.{
  ltb, lt→ltb, le→not_ltb, length, drop, All, length-append, length-replicate, drop_append, Bytes,
  zeros, Result, ◌>>=◌, Result-cases, ℕ, zero, suc, ◌-◌, ◌%◌, ◌≤◌, ◌<◌, ◌≡◌, refl, sym, ap, ◌∙◌,
  ◌≢◌, inl, inr, true, false, List, [], ◌∷◌, ◌++◌, append-nil, append_assoc, arith, ok, err,
}
use sinty_nm.Rtnl.Order.{ByteOrder}
use sinty_nm.Rtnl.Wire.{Panic, slice_out_of_range, for_each_attr}
use sinty_nm.Rtnl.Wire.Attrs.{
  IsAttr, bare_attr, padding, encode_attrs, append_attrs, fold_attrs, append_attr_lem,
  for_each_attr_step, length-bare_attr, drop_at,
}

pub append_attrs_lem :
    (o : ByteOrder) (b : Bytes) (l : List (ℕ × Bytes))
    → length b % 4 ≡ 0
    → All IsAttr l
    → append_attrs o b l ≡ b ++ encode_attrs o l
append_attrs_lem o b [] even h = sym (append-nil b)
append_attrs_lem o b (a ∷ l) even (fits, more) =
    let z = zeros (padding (length a.1)) in
    let grown : length ((b ++ bare_attr o a) ++ z) % 4 ≡ 0 = omega (
      arith,
      length-append (b ++ bare_attr o a) z,
      length-append b (bare_attr o a),
      length-bare_attr o a,
      length-replicate {A = ℕ} (padding (length a.1)) 0,
    ) in
    rw (append_attr_lem o b a.0 a.1 even fits.1) (
      append_attrs_lem o ((b ++ bare_attr o a) ++ z) l grown more
      ∙ append_assoc (b ++ bare_attr o a) z (encode_attrs o l)
      ∙ append_assoc b (bare_attr o a) (z ++ encode_attrs o l))

-- The loop, over encoded attributes and what is behind them.
for_each_attr-encode_attrs :
    {S : Type 0} (o : ByteOrder) (fn : S → ℕ × Bytes → Result Panic S) (f : ℕ)
    (l : List (ℕ × Bytes)) (x : Bytes) (s : S)
    → All IsAttr l
    → length l ≤ f
    → for_each_attr o fn f (encode_attrs o l ++ x) s
      ≡ (fold_attrs fn l s >>= λ s1. for_each_attr o fn (f - length l) x s1)
for_each_attr-encode_attrs o fn f [] x s h le =
    let all_left : f - 0 ≡ f = omega arith in rw all_left
for_each_attr-encode_attrs o fn zero (a ∷ l) x s h le = absurd (omega arith)
for_each_attr-encode_attrs o fn (suc f) (a ∷ l) x s (fits, more) le =
    let z = zeros (padding (length a.1)) in
    let padded : length z ≡ padding (length a.1) = length-replicate (padding (length a.1)) 0 in
    let here : ltb (length (z ++ (encode_attrs o l ++ x))) (padding (length a.1)) ≡ false =
      le→not_ltb _ _ (omega (arith, padded, length-append z (encode_attrs o l ++ x))) in
    let left : suc f - suc (length l) ≡ f - length l = omega arith in
    rw
      (
        append_assoc (bare_attr o a) (z ++ encode_attrs o l) x,
        append_assoc z (encode_attrs o l) x,
        for_each_attr_step o fn f a (z ++ (encode_attrs o l ++ x)) s fits,
        here,
        drop_at (padding (length a.1)) z (encode_attrs o l ++ x) padded,
        left,
      )
      (elim (Result-cases (fn s a)) [
        | inl (s1, e) ↦ rw e (for_each_attr-encode_attrs o fn f l x s1 more (omega arith))
        | inr (e, fails) ↦ rw fails refl
      ])

for_each_attr-nil :
    {S : Type 0} (o : ByteOrder) (fn : S → ℕ × Bytes → Result Panic S) (f : ℕ) (s : S)
    → for_each_attr o fn f [] s ≡ ok s
unfolding for_each_attr
for_each_attr-nil o fn zero s = refl
for_each_attr-nil o fn (suc f) s = refl

for_each_attr_encoded :
    {S : Type 0} (o : ByteOrder) (fn : S → ℕ × Bytes → Result Panic S) (f : ℕ)
    (l : List (ℕ × Bytes)) (s : S)
    → All IsAttr l
    → length l ≤ f
    → for_each_attr o fn f (encode_attrs o l) s ≡ fold_attrs fn l s
for_each_attr_encoded o fn f l s h le =
    ap (λ b. for_each_attr o fn f b s) (sym (append-nil (encode_attrs o l)))
    ∙ for_each_attr-encode_attrs o fn f l [] s h le
    ∙ elim (Result-cases (fold_attrs fn l s)) [
      | inl (s1, e) ↦ rw e (for_each_attr-nil o fn (f - length l) s1)
      | inr (e, fails) ↦ rw fails refl
    ]

-- On a message of an aligned header and attributes that `appendAttr` put behind it, `forEachAttr` calls
-- back with exactly these attributes in order, where each type and each length fits its 16 bits and the
-- fuel counts them.
pub for_each_attr-append_attrs :
    {S : Type 0} (o : ByteOrder) (fn : S → ℕ × Bytes → Result Panic S) (f : ℕ) (header : Bytes)
    (l : List (ℕ × Bytes)) (s : S)
    → length header % 4 ≡ 0
    → All IsAttr l
    → length l ≤ f
    → for_each_attr o fn f (drop (length header) (append_attrs o header l)) s ≡ fold_attrs fn l s
for_each_attr-append_attrs o fn f header l s even h le =
    rw (append_attrs_lem o header l even h, drop_append header (encode_attrs o l))
      (for_each_attr_encoded o fn f l s h le)

-- Where a callback takes all attributes, a last one without the zeros that its length calls for makes
-- `forEachAttr` panic behind it.
pub for_each_attr_panics :
    {S : Type 0} (o : ByteOrder) (fn : S → ℕ × Bytes → Result Panic S) (f : ℕ)
    (l : List (ℕ × Bytes)) (a : ℕ × Bytes) (s s1 s2 : S)
    → All IsAttr l
    → IsAttr a
    → length a.1 % 4 ≢ 0
    → length l < f
    → fold_attrs fn l s ≡ ok s1
    → fn s1 a ≡ ok s2
    → for_each_attr o fn f (encode_attrs o l ++ bare_attr o a) s ≡ err slice_out_of_range
for_each_attr_panics o fn f l a s s1 s2 h fits odd lt before last =
    let k = f - length l - 1 in
    let left : f - length l ≡ suc k = omega (arith, lt) in
    let missing : ltb 0 (padding (length a.1)) ≡ true = lt→ltb _ _ (ground (arith, odd)) in
    rw (for_each_attr-encode_attrs o fn f l (bare_attr o a) s h (omega (arith, lt)), before, left)
      (ap (λ b. for_each_attr o fn (suc k) b s1) (sym (append-nil (bare_attr o a)))
        ∙ for_each_attr_step o fn k a [] s1 fits
        ∙ rw (last, missing) refl)
