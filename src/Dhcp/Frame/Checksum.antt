-- ===== src/Dhcp/Frame/Checksum.antt =====
-- internal/backend/dhcp/socket.go, `checksum`: the folding of the carries ends, and a buffer that
-- holds its own checksum sums up to zero.
use sinty_nm.Base.{
  length, All, Bytes, IsByte, be16, ℕ, ◌+◌, ◌-◌, ◌*◌, ◌%◌, ◌^◌, ◌≤◌, ◌<◌, ◌≡◌, ◌∙◌, [], ◌∷◌, ◌++◌,
  arith,
}
use sinty_nm.Dhcp.Frame.{sum_words, checksum, fold_carries, fold_fuel}

-- The rounds keep the sum modulo 65535, never raise it, and bring any 32-bit sum below 2^16, to 0
-- only from 0.
pub fold_carries_lem :
    (s : ℕ)
    → s < 2 ^ 32
    → (fold_carries fold_fuel s < 2 ^ 16)
      × (fold_carries fold_fuel s % 65535 ≡ s % 65535)
      × (0 < s → 0 < fold_carries fold_fuel s)
      × (fold_carries fold_fuel s ≤ s)
unfolding fold_carries
fold_carries_lem s h = ground arith

-- The sum of the big-endian words, without a modulus.
abbrev pub words_total : Bytes → ℕ
words_total [] = 0
words_total (b ∷ []) = b * 256
words_total (b ∷ c ∷ bs) = b * 256 + c + words_total bs

-- Where the total fits 32 bits, the loop computes it.
sum_words-words_total :
    (s : ℕ) (b : Bytes) → s + words_total b < 2 ^ 32 → sum_words s b ≡ s + words_total b
unfolding sum_words
sum_words-words_total s [] h = omega arith
sum_words-words_total s (b ∷ []) h = omega arith
sum_words-words_total s (b ∷ c ∷ bs) h =
    let e : (s + (b * 256 + c)) % 2 ^ 32 ≡ s + (b * 256 + c) = omega arith in
    rw e (omega (arith, sum_words-words_total (s + (b * 256 + c)) bs (omega arith)))

pub words_total-append :
    (pre post : Bytes)
    → length pre % 2 ≡ 0
    → words_total (pre ++ post) ≡ words_total pre + words_total post
words_total-append [] post h = omega arith
words_total-append (b ∷ []) post h = absurd (omega arith)
words_total-append (b ∷ c ∷ pre) post h = omega (arith, words_total-append pre post (omega arith))

words_total-bound : (b : Bytes) → All IsByte b → words_total b ≤ 32768 * (length b + 1)
words_total-bound [] h = omega arith
words_total-bound (b ∷ []) h = omega arith
words_total-bound (b ∷ c ∷ bs) h = omega (arith, words_total-bound bs h.1.1)

checksum-fold :
    (b : Bytes)
    → words_total b < 2 ^ 32
    → checksum b ≡ 65535 - fold_carries fold_fuel (words_total b) % 2 ^ 16
unfolding checksum
checksum-fold b h =
    let e : sum_words 0 b ≡ words_total b =
      omega (arith, sum_words-words_total 0 b (omega arith)) in
    rw e

-- The ones' complement of a total, added to it, checks out.
checksum_complement :
    (t u : ℕ)
    → t < 2 ^ 31
    → u ≡ t + (65535 - fold_carries fold_fuel t % 2 ^ 16)
    → fold_carries fold_fuel u ≡ 65535
checksum_complement t u h e =
    let at_t = fold_carries_lem t (omega arith) in
    let positive : 0 < u = omega (arith, at_t.0, at_t.1, at_t.3) in
    let at_u = fold_carries_lem u (omega arith) in
    omega (arith, at_t.0, at_t.1, at_u.0, at_u.1, at_u.2 positive)

-- In fewer than 65535 bytes that hold a zero 16-bit field at an even offset, the checksum, put into the
-- field, makes the checksum of the whole 0, which is how a receiver tests it.
pub checksum_verifies :
    (pre post : Bytes)
    → length pre % 2 ≡ 0
    → length (pre ++ 0 ∷ 0 ∷ post) < 2 ^ 16 - 1
    → All IsByte (pre ++ 0 ∷ 0 ∷ post)
    → checksum (pre ++ (be16 (checksum (pre ++ 0 ∷ 0 ∷ post)) ++ post)) ≡ 0
checksum_verifies pre post even short bytes =
    let b = pre ++ 0 ∷ 0 ∷ post in
    let c = checksum b in
    let w = pre ++ (be16 c ++ post) in
    let bound = words_total-bound b bytes in
    let small : words_total b < 2 ^ 31 = omega (arith, bound) in
    let c_is = checksum-fold b (omega arith) in
    let grown : words_total w
        ≡ words_total b + (65535 - fold_carries fold_fuel (words_total b) % 2 ^ 16) =
      omega (
        arith,
        c_is,
        words_total-append pre (0 ∷ 0 ∷ post) even,
        words_total-append pre (be16 c ++ post) even,
      ) in
    let full = checksum_complement (words_total b) (words_total w) small grown in
    checksum-fold w (omega arith) ∙ rw full
