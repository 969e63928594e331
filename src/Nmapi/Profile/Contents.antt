-- ===== src/Nmapi/Profile/Contents.antt =====
-- internal/nmapi/settings.go and vpn.go: what the readers of a profile find.
use sinty_nm.Base.{
  ◌==◌, if◌then◌else◌, ==_iff, Bool-cases, length, take, All, Bytes, ℤ, codes, ℕ, zero, suc, ◌≤◌,
  ◌≡◌, refl, ap, ◌≢◌, inl, inr, Bool, true, false, ◌||◌, [], ◌∷◌, arith, pos, negsuc,
}
use sinty_nm.Nmapi.Profile.{
  to_lower, is_name_char, name_chars, name_from_id, or_default, sanitize, prefix_within,
}

-- A letter, a digit, a dash or an underscore.
abbrev pub IsNameChar : ℕ → Type 0
IsNameChar c = is_name_char c ≡ true

take-All : (n : ℕ) (P : ℕ → Type 0) (xs : Bytes) → All P xs → All P (take n xs)
take-All zero P xs h = tt
take-All (suc n) P [] h = tt
take-All (suc n) P (x ∷ xs) (first, rest) = (first, take-All n P xs rest)

name_chars-All : (id : Bytes) → All IsNameChar (name_chars id)
unfolding name_chars
name_chars-All [] = tt
name_chars-All (c ∷ cs) = elim (Bool-cases (is_name_char (to_lower c))) [
  | inl e ↦ rw e (e, name_chars-All cs)
  | inr e ↦ rw e (name_chars-All cs)
]

wg0-All : (name : Bytes) → All IsNameChar name → All IsNameChar (or_default (codes "wg0") name)
unfolding is_name_char
wg0-All [] h = (refl, (refl, (refl, tt)))
wg0-All (c ∷ cs) h = h

length-take_le : (n : ℕ) (xs : Bytes) → length (take n xs) ≤ n
length-take_le zero xs = omega arith
length-take_le (suc n) [] = omega arith
length-take_le (suc n) (x ∷ xs) = let rest = length-take_le n xs in omega (arith, rest)

nonempty : (n : ℕ) (c : ℕ) (cs : Bytes) → 1 ≤ length (take (suc n) (c ∷ cs))
nonempty n c cs = omega arith

-- The name of a tunnel whose profile names no interface is taken from the profile's id: it has one to
-- fifteen characters, as the kernel requires, each a small letter, a digit, a dash or an underscore.
name_from_id-bounds :
    (id : Bytes)
    → (1 ≤ length (name_from_id id))
      × (length (name_from_id id) ≤ 15)
      × All IsNameChar (name_from_id id)
unfolding name_from_id
name_from_id-bounds id = (
  long_enough (name_chars id),
  length-take_le 15 (or_default (codes "wg0") (name_chars id)),
  take-All 15 IsNameChar (or_default (codes "wg0") (name_chars id))
      (wg0-All (name_chars id) (name_chars-All id)),
)
  where
    long_enough : (name : Bytes) → 1 ≤ length (take 15 (or_default (codes "wg0") name))
    long_enough [] = omega arith
    long_enough (c ∷ cs) = nonempty 14 c cs

-- The file name of a profile has as many bytes as its id, and none of them is a slash, a space or a
-- backslash, so that the file is in the directory of profiles.
pub sanitize-All :
    (id : Bytes)
    → (length (sanitize id) ≡ length id) × All (λ c. (c ≢ 47) × (c ≢ 32) × (c ≢ 92)) (sanitize id)
unfolding sanitize
sanitize-All [] = (refl, tt)
sanitize-All (c ∷ cs) =
    let (same, rest) = sanitize-All cs in
    (ap suc same, (safe (c == 47 || c == 32 || c == 92) refl, rest))
  where
    safe :
        (b : Bool)
        → (c == 47 || c == 32 || c == 92) ≡ b
        → let x = if b then 95 else c in (x ≢ 47) × (x ≢ 32) × (x ≢ 92)
    safe true e = (λ s. omega (arith, s), λ s. omega (arith, s), λ s. omega (arith, s))
    safe false e = (
      λ s. ground (arith, e, s, ==_iff c 47),
      λ s. ground (arith, e, s, ==_iff c 32),
      λ s. ground (arith, e, s, ==_iff c 92),
    )

-- For addresses of at least one bit, any prefix that a profile gives, zero and negative ones too, is read
-- as a length from 1 to the bits of the address, and a length in that range is read as itself.
prefix_within-bounds :
    (bits : ℕ) (prefix : ℤ) (n : ℕ)
    → 1 ≤ n
    → n ≤ bits
    → (1 ≤ prefix_within bits prefix)
      × (prefix_within bits prefix ≤ bits)
      × (prefix_within bits (pos n) ≡ n)
unfolding prefix_within
prefix_within-bounds bits (pos k) n low high = (ground arith, ground arith, ground arith)
prefix_within-bounds bits (negsuc k) n low high = (omega arith, omega arith, ground arith)
