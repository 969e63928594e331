-- ===== src/Rtnl/Wire/Attrs.antt =====
-- internal/backend/rtnl/wire.go: `forEachAttr` reads back what `appendAttr` wrote.
use sinty_nm.Base.{
  ltb, ◌==◌, if◌then◌else◌, ltb→lt, lt→ltb, le→not_ltb, not_ltb→le, ==_iff, Bool-cases, length,
  take, drop, length-append, length-replicate, take_append, drop_append, Bytes, zeros, Result,
  ◌>>=◌, ℕ, zero, suc, ◌+◌, ◌-◌, ◌*◌, ◌/◌, ◌%◌, ◌^◌, ◌≤◌, ◌<◌, ◌≡◌, refl, sym, ap, ◌∙◌, inl, inr,
  List, [], ◌∷◌, ◌++◌, append-nil, append_assoc, arith, ok, err,
}
use sinty_nm.Rtnl.Order.{
  ByteOrder, little_endian, big_endian, put16, uint16, uint16-put16, length-put16, drop-put16,
}
use sinty_nm.Rtnl.Wire.{
  Panic, slice_out_of_range, align, pad_to_four, rt_attr_header, append_attr, for_each_attr,
}

-- An attribute that fits its header: a 16-bit type, and a length that with the header is below 2^16.
abbrev pub IsAttr : ℕ × Bytes → Type 0
IsAttr a = (a.0 < 2 ^ 16) × (4 + length a.1 < 2 ^ 16)

-- An attribute with its header, and with the zeros behind it.
abbrev pub bare_attr : ByteOrder → ℕ × Bytes → Bytes
bare_attr o (t, d) = put16 o (4 + length d) ++ (put16 o t ++ d)

abbrev pub padding : ℕ → ℕ
padding n = (4 - n % 4) % 4

abbrev pub encode_attrs : ByteOrder → List (ℕ × Bytes) → Bytes
encode_attrs o [] = []
encode_attrs o (a ∷ as_) = bare_attr o a ++ (zeros (padding (length a.1)) ++ encode_attrs o as_)

-- The attributes appended one by one, as the requests are built.
abbrev pub append_attrs : ByteOrder → Bytes → List (ℕ × Bytes) → Bytes
append_attrs o b [] = b
append_attrs o b (a ∷ as_) = append_attrs o (append_attr o b a.0 a.1) as_

-- The callback, on each attribute in order.
abbrev pub fold_attrs :
    {S : Type 0} → (S → ℕ × Bytes → Result Panic S) → List (ℕ × Bytes) → S → Result Panic S
fold_attrs fn [] s = ok s
fold_attrs fn (a ∷ as_) s = fn s a >>= λ s1. fold_attrs fn as_ s1

-- One round of the padding loop.
pad_step :
    (f : ℕ) (b : Bytes)
    → pad_to_four (suc f) b ≡ (if length b % 4 == 0 then b else pad_to_four f (b ++ 0 ∷ []))
unfolding pad_to_four
pad_step f b = refl

-- Fuel for the zeros that are missing is enough.
pad_to_four_lem :
    (f : ℕ) (b : Bytes) → padding (length b) ≤ f → pad_to_four f b ≡ b ++ zeros (padding (length b))
unfolding pad_to_four
pad_to_four_lem zero b h =
    let none_missing : padding (length b) ≡ 0 = omega arith in rw (none_missing, append-nil)
pad_to_four_lem (suc f) b h = elim (Bool-cases (length b % 4 == 0)) [
  | inl full ↦
      let none_missing : padding (length b) ≡ 0 = omega (arith, (==_iff (length b % 4) 0).0 full) in
      rw (full, none_missing, append-nil)
  | inr part ↦
      let longer = length-append b (0 ∷ []) in
      let one_less : padding (length b) ≡ suc (padding (length (b ++ 0 ∷ []))) =
        ground (arith, longer) in
      rw (part, pad_to_four_lem f (b ++ 0 ∷ []) (omega arith), append_assoc b (0 ∷ []), one_less)
]

pub length-bare_attr : (o : ByteOrder) (a : ℕ × Bytes) → length (bare_attr o a) ≡ 4 + length a.1
length-bare_attr o (t, d) = omega (
  arith,
  length-append (put16 o (4 + length d)) (put16 o t ++ d),
  length-append (put16 o t) d,
  length-put16 o t,
  length-put16 o (4 + length d),
)

length-zeros : (n : ℕ) → length (zeros n) ≡ n
length-zeros n = length-replicate n 0

rt_attr_header_lem :
    (o : ByteOrder) (l t : ℕ) → l < 2 ^ 16 → rt_attr_header o l t ≡ put16 o l ++ put16 o t
unfolding rt_attr_header put16
rt_attr_header_lem little_endian l t h = let small : l % 2 ^ 16 ≡ l = omega arith in rw small
rt_attr_header_lem big_endian l t h = let small : l % 2 ^ 16 ≡ l = omega arith in rw small

-- Appending to an aligned buffer puts the attribute and its zeros behind it.
pub append_attr_lem :
    (o : ByteOrder) (b : Bytes) (t : ℕ) (d : Bytes)
    → length b % 4 ≡ 0
    → 4 + length d < 2 ^ 16
    → append_attr o b t d ≡ (b ++ bare_attr o (t, d)) ++ zeros (padding (length d))
unfolding append_attr
append_attr_lem o b t d even fits =
    let bare = bare_attr o (t, d) in
    let header = rt_attr_header_lem o (4 + length d) t fits in
    let shape : (b ++ rt_attr_header o (4 + length d) t) ++ d ≡ b ++ bare = rw header (
      append_assoc b (put16 o (4 + length d) ++ put16 o t) d
      ∙ ap (◌++◌ b) (append_assoc (put16 o (4 + length d)) (put16 o t) d)) in
    let missing : padding (length (b ++ bare)) ≡ padding (length d) =
      omega (arith, length-append b bare, length-bare_attr o (t, d)) in
    rw shape
      (pad_to_four_lem 3 (b ++ bare) (omega arith) ∙ ap (λ n. (b ++ bare) ++ zeros n) missing)

take_at : (n : ℕ) (xs ys : Bytes) → length xs ≡ n → take n (xs ++ ys) ≡ xs
take_at n xs ys e = rw (← e) (take_append xs ys)

pub drop_at : (n : ℕ) (xs ys : Bytes) → length xs ≡ n → drop n (xs ++ ys) ≡ ys
drop_at n xs ys e = rw (← e) (drop_append xs ys)

drop_further : (n k : ℕ) (xs ys : Bytes) → length xs ≡ n → drop (n + k) (xs ++ ys) ≡ drop k ys
drop_further n k [] ys e = let none_left : n + k ≡ k = omega (arith, e) in rw none_left refl
drop_further zero k (x ∷ xs) ys e = absurd (omega arith)
drop_further (suc n) k (x ∷ xs) ys e =
    let shifted : suc n + k ≡ suc (n + k) = omega arith in
    rw shifted (drop_further n k xs ys (omega arith))

ltb_shift : (n a b : ℕ) → ltb (n + a) (n + b) ≡ ltb a b
ltb_shift n a b = elim (Bool-cases (ltb a b)) [
  | inl lt ↦ lt→ltb (n + a) (n + b) (omega (arith, ltb→lt a b lt)) ∙ sym lt
  | inr ge ↦ le→not_ltb (n + a) (n + b) (omega (arith, not_ltb→le a b ge)) ∙ sym ge
]

bare_attr_value : (o : ByteOrder) (t : ℕ) (d : Bytes) → drop 4 (bare_attr o (t, d)) ≡ d
unfolding put16
bare_attr_value little_endian t d = refl
bare_attr_value big_endian t d = refl

-- The fields of an attribute in front of `x`.
uint16-bare_attr :
    (o : ByteOrder) (t : ℕ) (d x : Bytes)
    → 4 + length d < 2 ^ 16
    → uint16 o (bare_attr o (t, d) ++ x) ≡ 4 + length d
uint16-bare_attr o t d x h =
    rw (append_assoc (put16 o (4 + length d)) (put16 o t ++ d) x)
      (uint16-put16 o (4 + length d) ((put16 o t ++ d) ++ x) h)

bare_attr_type :
    (o : ByteOrder) (t : ℕ) (d x : Bytes)
    → t < 2 ^ 16
    → uint16 o (drop 2 (bare_attr o (t, d) ++ x)) ≡ t
bare_attr_type o t d x h =
    rw
      (
        append_assoc (put16 o (4 + length d)) (put16 o t ++ d) x,
        drop-put16 o (4 + length d) ((put16 o t ++ d) ++ x),
        append_assoc (put16 o t) d x,
      )
      (uint16-put16 o t (d ++ x) h)

-- One round of the loop on an attribute of `l` bytes that is there: the callback, then the rest, if
-- the padding is there.
pub for_each_attr_step :
    {S : Type 0} (o : ByteOrder) (fn : S → ℕ × Bytes → Result Panic S) (f : ℕ) (a : ℕ × Bytes)
    (x : Bytes) (s : S)
    → IsAttr a
    → for_each_attr o fn (suc f) (bare_attr o a ++ x) s ≡ (
        fn s a >>= λ s1.
        if ltb (length x) (padding (length a.1))
        then err slice_out_of_range
        else for_each_attr o fn f (drop (padding (length a.1)) x) s1)
unfolding for_each_attr align
for_each_attr_step o fn f (t, d) x s (t_fits, l_fits) =
    let w = bare_attr o (t, d) ++ x in
    let size : length w ≡ 4 + length d + length x =
      length-append (bare_attr o (t, d)) x ∙ ap (λ n. n + length x) (length-bare_attr o (t, d)) in
    let long = le→not_ltb (length w) 4 (omega arith) in
    let value : drop 4 (take (4 + length d) w) ≡ d =
      rw (take_at (4 + length d) (bare_attr o (t, d)) x (length-bare_attr o (t, d)))
        (bare_attr_value o t d) in
    let bound : (4 + length d + 3) / 4 * 4 ≡ 4 + length d + padding (length d) = omega arith in
    let further =
      drop_further (4 + length d) (padding (length d)) (bare_attr o (t, d)) x
        (length-bare_attr o (t, d)) in
    rw
      (
        long,
        uint16-bare_attr o t d x l_fits,
        bare_attr_type o t d x t_fits,
        value,
        le→not_ltb (4 + length d) 4 (omega arith),
        le→not_ltb (length w) (4 + length d) (omega arith),
        bound,
        size,
        ltb_shift (4 + length d) (length x) (padding (length d)),
        further,
      )
      refl
