-- ===== src/Base/Text.antt =====
-- Texts of the source as the bytes that they are; the program's are ASCII.
use Prim.Native.Char.{code}
use Prim.Native.String.{String}
use mathlib.Core.List.{List, [], ◌∷◌}
use mathlib.Core.Bool.{Bool, true, false, ◌&&◌, ◌||◌}
use mathlib.Core.Option.{Option, none, some}
use Prim.Native.Nat.{ℕ, zero, suc}
use sinty_nm.Base.Tests.{◌==◌, leb, if◌then◌else◌}
use sinty_nm.Base.Buffer.{Bytes}

abbrev pub codes : String → Bytes
codes String.[] = []
codes (String.◌∷◌ letter text) = code letter ∷ codes text

-- strings.TrimSpace, on ASCII.
abbrev pub is_space : ℕ → Bool
is_space c = leb 9 c && leb c 13 || c == 32

abbrev pub trim_left : Bytes → Bytes
trim_left [] = []
trim_left (c ∷ cs) = let rest = trim_left cs in if is_space c then rest else c ∷ cs

abbrev pub trim_right : Bytes → Bytes
trim_right [] = []
trim_right (c ∷ cs) = elim (trim_right cs) [
  | [] ↦ (if is_space c then [] else c ∷ [])
  | ◌∷◌ x xs ↦ c ∷ x ∷ xs
]

abbrev pub trim_space : Bytes → Bytes
trim_space s = trim_left (trim_right s)

-- strings.Split with a separator of one byte: one part more than there are separators.
abbrev pub push_byte : ℕ → List Bytes → List Bytes
push_byte c [] = (c ∷ []) ∷ []
push_byte c (part ∷ parts) = (c ∷ part) ∷ parts

abbrev pub split : ℕ → Bytes → List Bytes
split sep [] = [] ∷ []
split sep (c ∷ cs) = let rest = split sep cs in if c == sep then [] ∷ rest else push_byte c rest

-- strings.SplitN: at most `suc n` parts, the last of them whole.
abbrev pub split_n : ℕ → ℕ → Bytes → List Bytes
split_n n sep [] = [] ∷ []
split_n zero sep (c ∷ cs) = (c ∷ cs) ∷ []
split_n (suc n) sep (c ∷ cs) =
    let last = split_n n sep cs in
    let rest = split_n (suc n) sep cs in if c == sep then [] ∷ last else push_byte c rest

-- strings.Cut at a byte: the parts before and after the first one, or `none` where there is none.
abbrev pub push_before : ℕ → Option (Bytes × Bytes) → Option (Bytes × Bytes)
push_before c none = none
push_before c (some (before, after)) = some (c ∷ before, after)

abbrev pub cut : ℕ → Bytes → Option (Bytes × Bytes)
cut sep [] = none
cut sep (c ∷ cs) = let rest = cut sep cs in if c == sep then some ([], cs) else push_before c rest

-- strings.HasPrefix and strings.Contains.
abbrev pub has_prefix : Bytes → Bytes → Bool
has_prefix [] s = true
has_prefix (p ∷ ps) [] = false
has_prefix (p ∷ ps) (c ∷ cs) = p == c && has_prefix ps cs

abbrev pub contains : Bytes → Bytes → Bool
contains [] part = has_prefix part []
contains (c ∷ cs) part = has_prefix part (c ∷ cs) || contains cs part
