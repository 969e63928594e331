-- ===== src/Dhcp/Packet/Options.antt =====
-- internal/backend/dhcp/packet.go, the option loop of `parseReply`: what it reads back from an
-- encoded list of options, that it ends, and that it stays inside the packet.
use sinty_nm.Base.{
  ℕ, zero, suc, ◌≤◌, List, [], ◌∷◌, ◌++◌, ◌≡◌, ◌≢◌, refl, sym, ap, ◌∙◌, inl, inr, arith,
  append_assoc, ◌==◌, ltb, ==_iff, ◌<◌, subst, Bool-cases, length, length-append, length-drop, take,
  drop, take_append, drop_append, take-append-drop, length-take, All, Bytes,
}
use sinty_nm.Dhcp.Packet.{opt_end, parse_options}

-- Options as a packet carries them: code, length, value.
abbrev pub encode_options : List (ℕ × Bytes) → Bytes
encode_options [] = []
encode_options ((code, v) ∷ os) = code ∷ length v ∷ (v ++ encode_options os)

-- A code that stands for an option: neither the pad byte nor the end mark.
abbrev pub IsCode : ℕ × Bytes → Type 0
IsCode o = (o.0 ≢ 0) × (o.0 ≢ opt_end)

-- The options put on a map one after the other.
abbrev pub record_all : List (ℕ × Bytes) → List (ℕ × Bytes) → List (ℕ × Bytes)
record_all [] m = m
record_all (o ∷ os) m = record_all os (o ∷ m)

length-tail-le : (l : ℕ) (body : Bytes) → length (drop l body) ≤ length body
length-tail-le l body = omega (arith, length-drop l body)

-- What the loop of `parseReply` reads, without fuel: from bytes and the map so far to the map at the
-- end. It ends where the bytes end, at the end mark, at an option without a length, and at one that is
-- longer than what is left; it skips a pad byte, and it puts any other option on the map.
pub data Reads : Bytes → List (ℕ × Bytes) → List (ℕ × Bytes) → Type 0 where
  no_bytes : {m : List (ℕ × Bytes)} → Reads [] m m
  end_mark : {b : Bytes} {m : List (ℕ × Bytes)} → Reads (255 ∷ b) m m
  no_length : {code : ℕ} {m : List (ℕ × Bytes)} → code ≢ 0 → code ≢ 255 → Reads (code ∷ []) m m
  too_long :
      {code l : ℕ} {body : Bytes} {m : List (ℕ × Bytes)}
      → code ≢ 0
      → code ≢ 255
      → length body < l
      → Reads (code ∷ l ∷ body) m m
  pad_byte : {b : Bytes} {m n : List (ℕ × Bytes)} → Reads b m n → Reads (0 ∷ b) m n
  option :
      {code l : ℕ} {body : Bytes} {m n : List (ℕ × Bytes)}
      → code ≢ 0
      → code ≢ 255
      → l ≤ length body
      → Reads (drop l body) ((code, take l body) ∷ m) n
      → Reads (code ∷ l ∷ body) m n

-- On fuel of at least the bytes that are left, the option loop of `parseReply` reads what it reads
-- without fuel, by finitely many rounds: it ends by itself, at one of the four ends of `Reads`.
pub parse_options-Reads :
    (f : ℕ) (b : Bytes) (m : List (ℕ × Bytes)) → length b ≤ f → Reads b m (parse_options f b m)
unfolding parse_options
parse_options-Reads zero [] m h = no_bytes
parse_options-Reads zero (c ∷ b) m h = absurd (omega arith)
parse_options-Reads (suc f) [] m h = no_bytes
parse_options-Reads (suc f) (c ∷ []) m h = elim (Bool-cases (c == opt_end)) [
  | inl end ↦ rw end (subst (λ k. Reads (k ∷ []) m m) (sym ((==_iff c 255).0 end)) end_mark)
  | inr more ↦ elim (Bool-cases (c == 0)) [
    | inl zeroed ↦
        rw (more, zeroed)
          (subst (λ k. Reads (k ∷ []) m (parse_options f [] m)) (sym ((==_iff c 0).0 zeroed))
            (pad_byte (parse_options-Reads f [] m (omega arith))))
    | inr code ↦ rw (more, code) (no_length (ground arith) (ground arith))
  ]
]
parse_options-Reads (suc f) (c ∷ l ∷ body) m h = elim (Bool-cases (c == opt_end)) [
  | inl end ↦ rw end (subst (λ k. Reads (k ∷ l ∷ body) m m) (sym ((==_iff c 255).0 end)) end_mark)
  | inr more ↦ elim (Bool-cases (c == 0)) [
    | inl zeroed ↦
        rw (more, zeroed)
          (subst (λ k. Reads (k ∷ l ∷ body) m (parse_options f (l ∷ body) m))
            (sym ((==_iff c 0).0 zeroed))
            (pad_byte (parse_options-Reads f (l ∷ body) m (omega arith))))
    | inr code ↦ elim (Bool-cases (ltb (length body) l)) [
      | inl short ↦ rw (more, code, short) (too_long (ground arith) (ground arith) (ground arith))
      | inr fits ↦
          rw (more, code, fits)
            (option (ground arith) (ground arith) (ground arith) (
              parse_options-Reads f (drop l body) ((c, take l body) ∷ m)
                (omega (arith, length-tail-le l body))))
    ]
  ]
]

-- One option in front of `rest` is put on the map.
parse_options_step :
    (f code : ℕ) (v rest : Bytes) (m : List (ℕ × Bytes))
    → IsCode (code, v)
    → parse_options (suc f) (code ∷ length v ∷ (v ++ rest)) m ≡ parse_options f rest ((code, v) ∷ m)
unfolding parse_options
parse_options_step f code v rest m h =
    ground (arith, take_append v rest, drop_append v rest, length-append v rest)

-- Options whose codes are neither the pad byte nor the end mark, encoded one behind the other and then
-- the end mark, are read back exactly and in order, whatever follows, on fuel for all the bytes.
pub parse_options-encode_options :
    (f : ℕ) (os : List (ℕ × Bytes)) (rest : Bytes) (m : List (ℕ × Bytes))
    → All IsCode os
    → length (encode_options os ++ opt_end ∷ rest) ≤ f
    → parse_options f (encode_options os ++ opt_end ∷ rest) m ≡ record_all os m
unfolding parse_options
parse_options-encode_options zero [] rest m h p = absurd (omega arith)
parse_options-encode_options (suc f) [] [] m h p = refl
parse_options-encode_options (suc f) [] (c ∷ rest) m h p = refl
parse_options-encode_options zero ((code, v) ∷ os) rest m h p = absurd (omega arith)
parse_options-encode_options (suc f) ((code, v) ∷ os) rest m h p = rw append_assoc (
    parse_options_step f code v (encode_options os ++ opt_end ∷ rest) m h.0
    ∙ parse_options-encode_options f os rest ((code, v) ∷ m) h.1 (
        omega (
          arith,
          length-append v (encode_options os),
          length-append (v ++ encode_options os) (opt_end ∷ rest),
          length-append (encode_options os) (opt_end ∷ rest),
        )))

-- The option stands in the packet: its code, its length and its value, one behind the other.
abbrev pub StandsIn : Bytes → ℕ × Bytes → Type 0
StandsIn b o =
    (before : Bytes) × (after : Bytes) × (b ≡ before ++ o.0 ∷ length o.1 ∷ (o.1 ++ after))

StandsIn-here :
    (w front : Bytes) (c l : ℕ) (body : Bytes)
    → w ≡ front ++ c ∷ l ∷ body
    → l ≤ length body
    → StandsIn w (c, take l body)
StandsIn-here w front c l body e h = (
  front,
  drop l body,
  e
      ∙ rw (take-append-drop l body, length-take l body)
          (ap (λ k. front ++ c ∷ k ∷ body) (omega arith)),
)

one_further :
    (w front : Bytes) (c : ℕ) (b : Bytes) → w ≡ front ++ c ∷ b → w ≡ (front ++ c ∷ []) ++ b
one_further w front c b e = e ∙ sym (append_assoc front (c ∷ []) b)

option_further :
    (w front : Bytes) (c l : ℕ) (body : Bytes)
    → w ≡ front ++ c ∷ l ∷ body
    → w ≡ (front ++ c ∷ l ∷ take l body) ++ drop l body
option_further w front c l body e =
    e ∙ sym (append_assoc front (c ∷ l ∷ take l body) (drop l body) ∙ rw (take-append-drop l body))

-- Every option that the loop adds stands in the packet `w`, of which it reads the part `b`.
pub parse_options-StandsIn :
    (f : ℕ) (w front b : Bytes) (m : List (ℕ × Bytes))
    → w ≡ front ++ b
    → All (StandsIn w) m
    → All (StandsIn w) (parse_options f b m)
unfolding parse_options
parse_options-StandsIn zero w front b m e h = h
parse_options-StandsIn (suc f) w front [] m e h = h
parse_options-StandsIn (suc f) w front (c ∷ []) m e h = elim (Bool-cases (c == opt_end)) [
  | inl end ↦ rw end h
  | inr more ↦ elim (Bool-cases (c == 0)) [
    | inl pad ↦
        rw (more, pad)
          (parse_options-StandsIn f w (front ++ c ∷ []) [] m (one_further w front c [] e) h)
    | inr code ↦ rw (more, code) h
  ]
]
parse_options-StandsIn (suc f) w front (c ∷ l ∷ body) m e h = elim (Bool-cases (c == opt_end)) [
  | inl end ↦ rw end h
  | inr more ↦ elim (Bool-cases (c == 0)) [
    | inl pad ↦
        rw (more, pad)
          (parse_options-StandsIn f w (front ++ c ∷ []) (l ∷ body) m
            (one_further w front c (l ∷ body) e) h)
    | inr code ↦ elim (Bool-cases (ltb (length body) l)) [
      | inl short ↦ rw (more, code, short) h
      | inr fits ↦
          rw (more, code, fits)
            (parse_options-StandsIn f w (front ++ c ∷ l ∷ take l body) (drop l body)
              ((c, take l body) ∷ m) (option_further w front c l body e)
              (StandsIn-here w front c l body e (ground arith), h))
    ]
  ]
]
