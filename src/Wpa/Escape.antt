-- ===== src/Wpa/Escape.antt =====
-- internal/backend/wpa/wpa.go: the texts of an SSID, as the supplicant prints it (`unescape`) and as the
-- backend writes it (`hexOf`).
pub mod RoundTrip
use sinty_nm.Base.{
  ltb, leb, ◌==◌, if◌then◌else◌, Bytes, ℕ, ◌+◌, ◌-◌, ◌*◌, ◌/◌, ◌%◌, true, false, ◌&&◌, Option, none,
  some, [], ◌∷◌,
}

-- hexOf: two digits for each byte.
unfoldable pub hex_digit : ℕ → ℕ
hex_digit v = if ltb v 10 then 48 + v else 87 + v

unfoldable pub hex_of : Bytes → Bytes
hex_of [] = []
hex_of (b ∷ bs) = hex_digit (b / 16) ∷ hex_digit (b % 16) ∷ hex_of bs

-- strconv.ParseUint of two hexadecimal digits.
unfoldable pub digit_value : ℕ → Option ℕ
digit_value c =
    if leb 48 c && leb c 57
    then some (c - 48)
    else if leb 97 c && leb c 102
    then some (c - 87)
    else if leb 65 c && leb c 70
    then some (c - 55)
    else none

unfoldable pub two_digits : Option ℕ → Option ℕ → Option ℕ
two_digits (some h) (some l) = some (h * 16 + l)
two_digits _ _ = none

unfoldable pub hex_byte : ℕ → ℕ → Option ℕ
hex_byte h l = two_digits (digit_value h) (digit_value l)

-- unescape: the byte that a letter after a backslash stands for.
unfoldable pub letter_value : ℕ → ℕ
letter_value c =
    if c == 110
    then 10
    else if c == 114
    then 13
    else if c == 116
    then 9
    else if c == 101
    then 27
    else c

-- unescape: a backslash at the end stands for itself, and `\x` without two digits for nothing.
unfoldable pub unescape : Bytes → Bytes
unescape [] = []
unescape (c ∷ []) = c ∷ []
unescape (c ∷ d ∷ []) = elim (c == 92) [
  | false ↦ c ∷ unescape (d ∷ [])
  | true ↦ elim (d == 120) [ true ↦ [] | false ↦ letter_value d ∷ [] ]
]
unescape (c ∷ d ∷ h ∷ []) = elim (c == 92) [
  | false ↦ c ∷ unescape (d ∷ h ∷ [])
  | true ↦ elim (d == 120) [ true ↦ unescape (h ∷ []) | false ↦ letter_value d ∷ unescape (h ∷ []) ]
]
unescape (c ∷ d ∷ h ∷ l ∷ rest) = elim (c == 92) [
  | false ↦ c ∷ unescape (d ∷ h ∷ l ∷ rest)
  | true ↦ elim (d == 120) [
    | false ↦ letter_value d ∷ unescape (h ∷ l ∷ rest)
    | true ↦ elim (hex_byte h l) [ some v ↦ v ∷ unescape rest | none ↦ unescape (h ∷ l ∷ rest) ]
  ]
]
