-- ===== src/Dhcp/Bpf/Split.antt =====
-- internal/backend/dhcp/socket_bpf.go: `splitBPF` cuts inside the read and makes progress, and panics
-- on a remainder of 24 or 25 bytes only.
use sinty_nm.Base.{
  ltb, leb, false, le→not_ltb, ◌%◌, not_ltb→le, or_false, Bool-cases, length, take, drop,
  take-append-drop, length-drop, Bytes, get_le16, get_le32, length-take, length-append, ap,
  Result-cases, ℕ, zero, suc, ◌+◌, ◌-◌, ◌≤◌, ◌<◌, ◌≡◌, refl, sym, subst, ◌∙◌, ◌↔◌, ◌⊎◌, inl, inr,
  ◌||◌, [], ◌∷◌, ◌++◌, append_assoc, arith, ok, err,
}
use sinty_nm.Dhcp.Bpf.{
  bpf_header_len, index_out_of_range, slice, slice_from, align_bpf, cut_frame, split_bpf,
  take_pending,
}

-- The source reads the header length at offset 24 behind a test for 24 bytes, so it panics exactly
-- where 24 or 25 bytes are left.
pub split_bpf_panics :
    (b : Bytes) → (split_bpf b ≡ err index_out_of_range) ↔ ((24 ≤ length b) × (length b < 26))
unfolding split_bpf
split_bpf_panics b = (
  λ h. ground (arith, length-drop 16 b, length-drop 24 b),
  λ h. ground (arith, length-drop 16 b, length-drop 24 b),
)

cut_parts : (i j : ℕ) (b : Bytes) → b ≡ take i (take j b) ++ (drop i (take j b) ++ drop j b)
cut_parts i j b = sym (
    sym (append_assoc (take i (take j b)) (drop i (take j b)) (drop j b))
    ∙ rw (take-append-drop i (take j b)) (take-append-drop j b))

drop_nil : (n : ℕ) → ◌≡◌ {A = Bytes} (drop n []) []
drop_nil zero = refl
drop_nil (suc n) = refl

drop-drop : (i k : ℕ) (b : Bytes) → drop k (drop i b) ≡ drop (i + k) b
drop-drop zero k b = ap (λ n. drop n b) (omega arith)
drop-drop (suc i) k [] = drop_nil k ∙ sym (drop_nil (suc i + k))
drop-drop (suc i) k (x ∷ b) =
    let next : suc (i + k) ≡ suc i + k = omega arith in
    drop-drop i k b ∙ ap (λ n. drop n (x ∷ b)) next

-- What a cut finds: nothing where the header is too short or the frame does not fit, else the frame of
-- `caplen` bytes at `hdrlen`, and behind fewer than eight bytes of padding, up to a multiple of
-- eight, the rest.
pub data Cut (b : Bytes) (caplen hdrlen : ℕ) : Bytes → Bytes → Type 0 where
  none_fits : (hdrlen < 24) ⊎ (length b < hdrlen + caplen) → Cut b caplen hdrlen [] []
  found :
      {frame rest : Bytes} (header gap : Bytes)
      → 24 ≤ hdrlen
      → b ≡ header ++ (frame ++ (gap ++ rest))
      → length header ≡ hdrlen
      → length frame ≡ caplen
      → length gap < 8
      → (rest ≡ []) ⊎ ((hdrlen + caplen + length gap) % 8 ≡ 0)
      → Cut b caplen hdrlen frame rest

-- The frame from `hdrlen` on, with `k` bytes of padding behind it.
found-parts :
    (b : Bytes) (caplen hdrlen k : ℕ)
    → 24 ≤ hdrlen
    → hdrlen + caplen ≤ length b
    → k < 8
    → (drop k (drop (hdrlen + caplen) b) ≡ []) ⊎ ((hdrlen + caplen + k) % 8 ≡ 0)
    → k ≤ length b - (hdrlen + caplen)
    → Cut b caplen hdrlen
        (drop hdrlen (take (hdrlen + caplen) b))
        (drop k (drop (hdrlen + caplen) b))
found-parts b caplen hdrlen k room inside few aligned within =
    let end = hdrlen + caplen in
    let size : length (take k (drop end b)) ≡ k =
      omega (arith, length-take k (drop end b), length-drop end b) in
    found (take hdrlen (take end b)) (take k (drop end b)) room
      (cut_parts hdrlen end b
        ∙ ap (λ x. take hdrlen (take end b) ++ (drop hdrlen (take end b) ++ x))
            (sym (take-append-drop k (drop end b))))
      (omega (arith, length-take hdrlen (take end b), length-take end b))
      (omega (arith, length-drop hdrlen (take end b), length-take end b)) (omega (arith, size))
      (rw size aligned)

nothing_left : (end : ℕ) (b : Bytes) → drop (length b - end) (drop end b) ≡ []
nothing_left end b =
    subst (λ n. drop n (drop end b) ≡ []) (length-drop end b) (drop_all (drop end b))
  where
    drop_all : (x : Bytes) → drop (length x) x ≡ []
    drop_all [] = refl
    drop_all (y ∷ x) = drop_all x

cut_frame-Cut :
    (b : Bytes) (caplen hdrlen : ℕ)
    → (frame : Bytes) × (rest : Bytes) × (cut_frame b caplen hdrlen ≡ ok (frame, rest))
      × Cut b caplen hdrlen frame rest
unfolding cut_frame slice slice_from
cut_frame-Cut b caplen hdrlen =
    let end = hdrlen + caplen in
    elim (Bool-cases (ltb hdrlen bpf_header_len || ltb (length b) end)) [
      | inl bad ↦ ([], [], rw (bad, cut_frame) refl, none_fits (ground (arith, bad)))
      | inr good ↦
          let (long, fits) = or_false good in
          let room : 24 ≤ hdrlen = not_ltb→le hdrlen 24 long in
          let inside : end ≤ length b = not_ltb→le (length b) end fits in
          let ordered : ltb end hdrlen ≡ false = le→not_ltb end hdrlen (omega arith) in
          elim (Bool-cases (leb (length b) (align_bpf end))) [
            | inl last ↦ (
              drop hdrlen (take end b),
              [],
              rw (good, fits, ordered, last, cut_frame) refl,
              subst (λ x. Cut b caplen hdrlen (drop hdrlen (take end b)) x) (nothing_left end b)
                  (found-parts b caplen hdrlen (length b - end) room inside (ground (arith, last))
                    (inl (nothing_left end b)) (omega arith)),
            )
            | inr more ↦ (
              drop hdrlen (take end b),
              drop (align_bpf end) b,
              rw (good, fits, ordered, more, cut_frame)
                  (rw (le→not_ltb (length b) (align_bpf end) (ground (arith, more))) refl),
              subst (λ x. Cut b caplen hdrlen (drop hdrlen (take end b)) x)
                  (drop-drop end (align_bpf end - end) b ∙ ap (λ n. drop n b) (omega arith))
                  (found-parts b caplen hdrlen (align_bpf end - end) room inside (omega arith)
                    (inr (omega arith)) (ground (arith, more))),
            )
          ]
    ]

-- The length field of the header, and the length of the header itself.
abbrev pub caplen_of : Bytes → ℕ
caplen_of b = get_le32 (drop 16 b)

abbrev pub hdrlen_of : Bytes → ℕ
hdrlen_of b = get_le16 (drop 24 b)

split_bpf-long : (b : Bytes) → 26 ≤ length b → split_bpf b ≡ cut_frame b (caplen_of b) (hdrlen_of b)
unfolding split_bpf
split_bpf-long b long =
    rw
      (
        le→not_ltb (length b) 24 (omega arith),
        le→not_ltb (length (drop 16 b)) 4 (omega (arith, length-drop 16 b)),
        le→not_ltb (length (drop 24 b)) 2 (omega (arith, length-drop 24 b)),
      )
      refl

-- A read of at least 26 bytes is split without a panic, by the two lengths in its header. Nothing comes
-- of it where the header is shorter than 24 bytes or the frame does not fit; else the frame is the
-- `caplen` bytes at `hdrlen`, and the rest follows it behind fewer than eight bytes of padding, at a
-- multiple of eight if there is any.
pub split_bpf-Cut :
    (b : Bytes)
    → 26 ≤ length b
    → (frame : Bytes) × (rest : Bytes) × (split_bpf b ≡ ok (frame, rest))
      × Cut b (caplen_of b) (hdrlen_of b) frame rest
split_bpf-Cut b long =
    let (frame, rest, done, cut) = cut_frame-Cut b (caplen_of b) (hdrlen_of b) in
    (frame, rest, split_bpf-long b long ∙ done, cut)

Cut-shorter :
    {b frame rest : Bytes} {caplen hdrlen : ℕ}
    → Cut b caplen hdrlen frame rest
    → (rest ≡ []) ⊎ (length rest + 24 ≤ length b)
Cut-shorter (none_fits why) = inl refl
Cut-shorter {b = b} (found {frame} {rest} header gap room parts size size_frame few aligned) = inr (
    omega (
      arith,
      room,
      size,
      ap (λ x. length x) parts,
      length-append header (frame ++ (gap ++ rest)),
      length-append frame (gap ++ rest),
      length-append gap rest,
    ))

split_bpf-rest :
    (b : Bytes) (s : Bytes × Bytes) → split_bpf b ≡ ok s → (s.1 ≡ []) ⊎ (length s.1 + 24 ≤ length b)
unfolding split_bpf
split_bpf-rest b s h = elim (Bool-cases (ltb (length b) 24)) [
  | inl short ↦
      let same : ◌≡◌ {A = Bytes × Bytes} ([], []) s = cc (rw short at h) in
      inl (ap (λ x. x.1) (sym same))
  | inr long ↦ elim (Bool-cases (ltb (length b) 26)) [
    | inl panics ↦
        absurd (cc (h, (split_bpf_panics b).1 (ground (arith, long), ground (arith, panics))))
    | inr enough ↦
        let (frame, rest, done, cut) = split_bpf-Cut b (not_ltb→le (length b) 26 enough) in
        let same : (frame, rest) ≡ s = cc (done, h) in
        subst (λ x. (x ≡ []) ⊎ (length x + 24 ≤ length b)) (ap (λ x. x.1) same) (Cut-shorter cut)
  ]
]

split_bpf-shorter :
    (x : ℕ) (b : Bytes) (s : Bytes × Bytes) → split_bpf (x ∷ b) ≡ ok s → length s.1 ≤ length b
split_bpf-shorter x b s h = elim (split_bpf-rest (x ∷ b) s h) [
  | inl e ↦ rw e (omega arith)
  | inr le ↦ omega arith
]

-- On fuel for at least as many rounds as there are pending bytes, the loop of `next` gives the same
-- whatever the fuel.
pub take_pending_fuel :
    (f g : ℕ) (b : Bytes) → length b ≤ f → length b ≤ g → take_pending f b ≡ take_pending g b
unfolding take_pending
take_pending_fuel zero zero b p q = refl
take_pending_fuel zero (suc g) [] p q = refl
take_pending_fuel zero (suc g) (x ∷ b) p q = absurd (omega arith)
take_pending_fuel (suc f) zero [] p q = refl
take_pending_fuel (suc f) zero (x ∷ b) p q = absurd (omega arith)
take_pending_fuel (suc f) (suc g) [] p q = refl
take_pending_fuel (suc f) (suc g) (x ∷ b) p q = elim (Result-cases (split_bpf (x ∷ b))) [
  | inr (e, failed) ↦ rw failed
  | inl (s, cut) ↦
      let shorter = split_bpf-shorter x b s cut in
      rw (cut, take_pending_fuel f g s.1 (omega arith) (omega arith))
]
