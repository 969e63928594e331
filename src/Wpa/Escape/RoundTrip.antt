-- ===== src/Wpa/Escape/RoundTrip.antt =====
-- internal/backend/wpa/wpa.go: hexadecimal texts and the bytes that they stand for.
use sinty_nm.Base.{
  ltb, leb, if◌then◌else◌, ltb→lt, not_ltb→le, Bool-cases, All, Bytes, IsByte, ℕ, ◌+◌, ◌-◌, ◌*◌,
  ◌/◌, ◌%◌, ◌≤◌, ◌<◌, ◌≡◌, refl, ap, inl, inr, ◌&&◌, Option, none, some, [], ◌∷◌, arith,
}
use sinty_nm.Wpa.Escape.{hex_digit, hex_of, digit_value, two_digits, hex_byte, unescape}

digit_value-hex_digit : (v : ℕ) → v < 16 → digit_value (hex_digit v) ≡ some v
unfolding digit_value hex_digit
digit_value-hex_digit v small = elim (Bool-cases (ltb v 10)) [
  | inl e ↦ rw e (low (ltb→lt v 10 e))
  | inr e ↦ rw e (high (not_ltb→le v 10 e))
]
  where
    low :
        v < 10
        → (if leb 48 (48 + v) && leb (48 + v) 57
            then some (48 + v - 48)
            else if leb 97 (48 + v) && leb (48 + v) 102
            then some (48 + v - 87)
            else if leb 65 (48 + v) && leb (48 + v) 70
            then some (48 + v - 55)
            else none)
          ≡ some v
    low h = ground arith

    high :
        10 ≤ v
        → (if leb 48 (87 + v) && leb (87 + v) 57
            then some (87 + v - 48)
            else if leb 97 (87 + v) && leb (87 + v) 102
            then some (87 + v - 87)
            else if leb 65 (87 + v) && leb (87 + v) 70
            then some (87 + v - 55)
            else none)
          ≡ some v
    high h = ground arith

hex_byte-hex_digit : (b : ℕ) → b < 256 → hex_byte (hex_digit (b / 16)) (hex_digit (b % 16)) ≡ some b
unfolding hex_byte two_digits
hex_byte-hex_digit b small =
    let high : b / 16 < 16 = omega arith in
    let low : b % 16 < 16 = omega arith in
    let whole : b / 16 * 16 + b % 16 ≡ b = omega arith in
    rw (digit_value-hex_digit (b / 16) high, digit_value-hex_digit (b % 16) low) (ap some whole)

-- Each byte as a backslash, the letter x and two digits.
abbrev pub escaped : Bytes → Bytes
escaped [] = []
escaped (b ∷ bs) = 92 ∷ 120 ∷ hex_digit (b / 16) ∷ hex_digit (b % 16) ∷ escaped bs

-- A text of bytes that are all escaped in hexadecimal is read back as those bytes.
pub unescape-escaped : (bs : Bytes) → All IsByte bs → unescape (escaped bs) ≡ bs
unfolding unescape
unescape-escaped [] h = refl
unescape-escaped (b ∷ bs) (small, h) =
    rw (hex_byte-hex_digit b small, unescape) (ap (λ xs. b ∷ xs) (unescape-escaped bs h))

-- Two digits of the same byte.
hex_digit-one :
    (a b : ℕ)
    → a < 256
    → b < 256
    → hex_digit (a / 16) ≡ hex_digit (b / 16)
    → hex_digit (a % 16) ≡ hex_digit (b % 16)
    → a ≡ b
hex_digit-one a b small_a small_b high low =
    let of_a = hex_byte-hex_digit a small_a in
    let of_b = hex_byte-hex_digit b small_b in
    let same : ◌≡◌ {A = Option ℕ} (some a) (some b) = cc (of_a, of_b, high, low) in cc same

-- Different bytes have different hexadecimal texts.
pub hex_of-one : (a b : Bytes) → All IsByte a → All IsByte b → hex_of a ≡ hex_of b → a ≡ b
unfolding hex_of
hex_of-one [] [] h k e = refl
hex_of-one [] (y ∷ b) h k e = absurd (cc e)
hex_of-one (x ∷ a) [] h k e = absurd (cc e)
hex_of-one (x ∷ a) (y ∷ b) (small_x, h) (small_y, k) e =
    let high : hex_digit (x / 16) ≡ hex_digit (y / 16) = cc e in
    let low : hex_digit (x % 16) ≡ hex_digit (y % 16) = cc e in
    let rest : hex_of a ≡ hex_of b = cc e in
    let first = hex_digit-one x y small_x small_y high low in
    let others = hex_of-one a b h k rest in cc (first, others)
