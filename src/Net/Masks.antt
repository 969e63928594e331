-- ===== src/Net/Masks.antt =====
-- Masks and addresses of package net: what the proofs use of them.
use sinty_nm.Base.{
  ◌==◌, ==_iff, Bool-cases, Option-cases, length, Bytes, ℕ, zero, suc, ◌-◌, ◌*◌, ◌≤◌, ◌<◌, ◌≡◌,
  refl, inl, inr, Bool, true, false, ◌&&◌, Option, none, some, [], ◌∷◌, arith,
}
use sinty_nm.Net.{mask_length, cidr_mask, ipv4, to4, byte_ones}

-- A test at every number up to a small one, by evaluation.
pub holds_upto : (ℕ → Bool) → ℕ → Bool
holds_upto test zero = test 0
holds_upto test (suc top) = holds_upto test top && test (suc top)

pub holds_upto_lem :
    (test : ℕ → Bool) (top k : ℕ) → k ≤ top → holds_upto test top ≡ true → test k ≡ true
unfolding holds_upto
holds_upto_lem test zero k le h = let first : k ≡ 0 = omega arith in rw first h
holds_upto_lem test (suc top) k le h = elim (Bool-cases (k == suc top)) [
  | inl last ↦ rw ((==_iff k (suc top)).0 last) (ground arith)
  | inr before ↦ holds_upto_lem test top k (ground arith) (ground arith)
]

abbrev has_length : Option ℕ → ℕ → Bool
has_length none n = false
has_length (some m) n = m == n

has_length_lem : (o : Option ℕ) (n : ℕ) → has_length o n ≡ true → o ≡ some n
has_length_lem none n h = ground arith
has_length_lem (some m) n h = ground arith

mask_table : holds_upto (λ n. has_length (mask_length (cidr_mask n 4)) n) 32 ≡ true
unfolding holds_upto mask_length cidr_mask
mask_table = refl

-- The mask of an IPv4 prefix has that prefix's length.
pub mask_length-cidr_mask : (n : ℕ) → n ≤ 32 → mask_length (cidr_mask n 4) ≡ some n
mask_length-cidr_mask n h =
    has_length_lem _ n
      (holds_upto_lem (λ k. has_length (mask_length (cidr_mask k 4)) k) 32 n h mask_table)

pub length-cidr_mask : (n k : ℕ) → length (cidr_mask n k) ≡ k
unfolding cidr_mask
length-cidr_mask n zero = refl
length-cidr_mask n (suc k) = omega (arith, length-cidr_mask (n - 8) k)

byte_ones-lt : (v n : ℕ) → byte_ones v ≡ some n → n < 8
byte_ones-lt v n h = ground arith

-- No mask counts more ones than it has bits.
pub mask_length-le : (m : Bytes) (n : ℕ) → mask_length m ≡ some n → n ≤ 8 * length m
unfolding mask_length
mask_length-le [] n h = ground arith
mask_length-le (v ∷ m) n h = elim (Option-cases (mask_length m)) [
  | inl e ↦ ground (arith, byte_ones-lt v n)
  | inr (k, e) ↦ ground (arith, byte_ones-lt v n, mask_length-le m k e)
]

pub to4-ipv4 : (a b c d : ℕ) → to4 (ipv4 a b c d) ≡ some (a ∷ b ∷ c ∷ d ∷ [])
unfolding to4
to4-ipv4 a b c d = refl
