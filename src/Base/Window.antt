-- ===== src/Base/Window.antt =====
-- The part of a buffer that starts at an offset, under writes and appends elsewhere.
use Prim.Native.Nat.{ℕ, zero, suc, ◌+◌, ◌≤◌, ◌<◌}
use mathlib.Core.Path.{◌≡◌, refl, ap, ◌∙◌}
use mathlib.Core.Logic.{◌⊎◌, inl, inr}
use mathlib.Core.List.{[], ◌∷◌, ◌++◌}
use native.Mathlib.Omega.{arith}
use sinty_nm.Base.Lists.{length, take, drop}
use sinty_nm.Base.Buffer.{Bytes, byte_at, copy_at, get_be32}

abbrev pub window : ℕ → ℕ → Bytes → Bytes
window k n b = take n (drop k b)

pub length-copy_at : (i : ℕ) (src dst : Bytes) → length (copy_at i src dst) ≡ length dst
length-copy_at zero [] dst = refl
length-copy_at zero (s ∷ src) [] = refl
length-copy_at zero (s ∷ src) (d ∷ dst) = ap suc (length-copy_at zero src dst)
length-copy_at (suc i) src [] = refl
length-copy_at (suc i) src (d ∷ dst) = ap suc (length-copy_at i src dst)

-- A write leaves what lies before and behind it.
pub window-copy_at :
    (k n i : ℕ) (src dst : Bytes)
    → (k + n ≤ i) ⊎ (i + length src ≤ k)
    → window k n (copy_at i src dst) ≡ window k n dst
window-copy_at k n zero [] dst h = refl
window-copy_at k n zero (s ∷ src) [] h = refl
window-copy_at k n (suc i) src [] h = refl
window-copy_at zero zero zero (s ∷ src) (d ∷ dst) h = refl
window-copy_at zero (suc n) zero (s ∷ src) (d ∷ dst) h = absurd (omega arith)
window-copy_at (suc k) n zero (s ∷ src) (d ∷ dst) h =
    window-copy_at k n zero src dst (inr (omega arith))
window-copy_at zero zero (suc i) src (d ∷ dst) h = refl
window-copy_at zero (suc n) (suc i) src (d ∷ dst) h =
    ap (◌∷◌ d) (window-copy_at zero n i src dst (inl (omega arith)))
window-copy_at (suc k) n (suc i) src (d ∷ dst) h = window-copy_at k n i src dst (omega arith)

-- A write that fits is read back.
pub window-copy_at_self :
    (i : ℕ) (src dst : Bytes)
    → i + length src ≤ length dst
    → window i (length src) (copy_at i src dst) ≡ src
window-copy_at_self zero (s ∷ src) [] h = absurd (omega arith)
window-copy_at_self (suc i) src [] h = absurd (omega arith)
window-copy_at_self zero [] dst h = refl
window-copy_at_self zero (s ∷ src) (d ∷ dst) h =
    ap (◌∷◌ s) (window-copy_at_self zero src dst (omega arith))
window-copy_at_self (suc i) src (d ∷ dst) h = window-copy_at_self i src dst (omega arith)

-- A write over the whole buffer.
pub copy_at_whole : (src dst : Bytes) → length src ≡ length dst → copy_at 0 src dst ≡ src
copy_at_whole [] [] h = refl
copy_at_whole [] (d ∷ dst) h = absurd (omega arith)
copy_at_whole (s ∷ src) [] h = absurd (omega arith)
copy_at_whole (s ∷ src) (d ∷ dst) h = ap (◌∷◌ s) (copy_at_whole src dst (omega arith))

pub window-append :
    (k n : ℕ) (xs ys : Bytes) → k + n ≤ length xs → window k n (xs ++ ys) ≡ window k n xs
window-append zero zero xs ys h = refl
window-append (suc k) n [] ys h = absurd (omega arith)
window-append (suc k) n (x ∷ xs) ys h = window-append k n xs ys (omega arith)
window-append zero (suc n) [] ys h = absurd (omega arith)
window-append zero (suc n) (x ∷ xs) ys h = ap (◌∷◌ x) (window-append zero n xs ys (omega arith))

byte_at-take : (i n : ℕ) (b : Bytes) → i < n → byte_at (take n b) i ≡ byte_at b i
byte_at-take i zero b h = absurd (omega arith)
byte_at-take i (suc n) [] h = refl
byte_at-take zero (suc n) (x ∷ b) h = refl
byte_at-take (suc i) (suc n) (x ∷ b) h = byte_at-take i n b (omega arith)

byte_at-drop : (i k : ℕ) (b : Bytes) → byte_at (drop k b) i ≡ byte_at b (k + i)
byte_at-drop i zero b = let e : 0 + i ≡ i = omega arith in rw e
byte_at-drop i (suc k) [] = refl
byte_at-drop i (suc k) (x ∷ b) =
    let e : suc k + i ≡ suc (k + i) = omega arith in rw e (byte_at-drop i k b)

-- One byte of a window.
pub byte_at-window : (i k n : ℕ) (b : Bytes) → i < n → byte_at (window k n b) i ≡ byte_at b (k + i)
byte_at-window i k n b h = byte_at-take i n (drop k b) h ∙ byte_at-drop i k b

pub get_be32-take : (b : Bytes) → get_be32 (take 4 b) ≡ get_be32 b
get_be32-take [] = refl
get_be32-take (w ∷ []) = refl
get_be32-take (w ∷ x ∷ []) = refl
get_be32-take (w ∷ x ∷ y ∷ []) = refl
get_be32-take (w ∷ x ∷ y ∷ z ∷ b) = refl
