-- ===== src/Sys/Rfkill/Switches.antt =====
-- internal/backend/sys/rfkill.go: what the state of the switches and its deliveries mean.
use sinty_nm.Base.{
  ltb, ◌==◌, if◌then◌else◌, ltb→lt, not_ltb→le, Bool-cases, length, ℕ, ◌^◌, ◌≤◌, ◌<◌, ◌≡◌, refl,
  sym, ap, ◌∙◌, ◌≢◌, ◌↔◌, ◌⊎◌, inl, inr, Bool, true, false, not, ◌||◌, Option, none, some, List, [],
  ◌∷◌, map, arith,
}
use sinty_nm.Rtnl.Order.{ByteOrder, little_endian, big_endian, put32, uint32}
use sinty_nm.Sys.Rfkill.{
  RfkillEvent, decode_event, encode_event, DeviceRead, interrupted, ended, read_bytes, is_switch,
  read_wlan_state, Tick, tick_state, same_state, deliver, subscribe,
}

abbrev with_idx : RfkillEvent → ℕ → RfkillEvent
with_idx e i = record e { idx = i }

encoded_idx :
    (o : ByteOrder) (e : RfkillEvent) → e.idx < 2 ^ 32 → uint32 o (encode_event o e) ≡ e.idx
unfolding encode_event put32 uint32
encoded_idx little_endian e h = omega arith
encoded_idx big_endian e h = omega arith

-- An event with an index of 32 bits comes back from its eight bytes.
pub decode_event-encode_event :
    (o : ByteOrder) (e : RfkillEvent) → e.idx < 2 ^ 32 → decode_event o (encode_event o e) ≡ e
unfolding decode_event encode_event put32 uint32
decode_event-encode_event little_endian e h =
    ap (λ (i : ℕ). with_idx e i) (encoded_idx little_endian e h)
decode_event-encode_event big_endian e h = ap (λ (i : ℕ). with_idx e i) (encoded_idx big_endian e h)

-- A read of the burst that tells of a wifi switch, before the burst ends.
abbrev pub Reports : ByteOrder → (RfkillEvent → Bool) → List DeviceRead → Type 0
Reports o p [] = ⊥
Reports o p (interrupted ∷ rs) = Reports o p rs
Reports o p (ended ∷ rs) = ⊥
Reports o p (read_bytes b ∷ rs) =
    (8 ≤ length b)
    × (((is_switch (decode_event o b) ≡ true) × (p (decode_event o b) ≡ true)) ⊎ Reports o p rs)

abbrev pub soft_blocked : RfkillEvent → Bool
soft_blocked e = not (e.soft == 0)

abbrev pub hard_blocked : RfkillEvent → Bool
hard_blocked e = not (e.hard == 0)

-- The loop on one of the two flags.
flag_state : ByteOrder → (RfkillEvent → Bool) → List DeviceRead → Bool → Bool
flag_state o p [] s = s
flag_state o p (interrupted ∷ rs) s = flag_state o p rs s
flag_state o p (ended ∷ rs) s = s
flag_state o p (read_bytes b ∷ rs) s =
    let skipped = flag_state o p rs s in
    let counted = flag_state o p rs (s || p (decode_event o b)) in
    if ltb (length b) 8 then s else if is_switch (decode_event o b) then counted else skipped

read_wlan_state-flag_state :
    (o : ByteOrder) (rs : List DeviceRead) (s : Bool × Bool)
    → read_wlan_state o rs s ≡ (flag_state o soft_blocked rs s.0, flag_state o hard_blocked rs s.1)
unfolding read_wlan_state flag_state
read_wlan_state-flag_state o [] s = refl
read_wlan_state-flag_state o (interrupted ∷ rs) s = read_wlan_state-flag_state o rs s
read_wlan_state-flag_state o (ended ∷ rs) s = refl
read_wlan_state-flag_state o (read_bytes b ∷ rs) s = elim (Bool-cases (ltb (length b) 8)) [
  | inl short ↦ rw short refl
  | inr full ↦ elim (Bool-cases (is_switch (decode_event o b))) [
    | inl counts ↦
        rw (full, counts)
          (read_wlan_state-flag_state o rs
            (s.0 || soft_blocked (decode_event o b), s.1 || hard_blocked (decode_event o b)))
    | inr other ↦ rw (full, other) (read_wlan_state-flag_state o rs s)
  ]
]

counted_flag :
    {F R Full : Type 0} (s p : Bool)
    → Full
    → (F ↔ ((s || p ≡ true) ⊎ R))
    → F ↔ ((s ≡ true) ⊎ (Full × (((true ≡ true) × (p ≡ true)) ⊎ R)))
counted_flag true p full h = (λ f. inl refl, λ x. h.1 (inl refl))
counted_flag false true full h = (λ f. inr (full, inl (refl, refl)), λ x. h.1 (inl refl))
counted_flag false false full h = (
  λ f. elim (h.0 f) [ inl e ↦ inl e | inr r ↦ inr (full, inr r) ],
  λ x. h.1 (elim x [ inl e ↦ inl e | inr (g, y) ↦ elim y [ inl (_, e) ↦ inl e | inr r ↦ inr r ] ]),
)

skipped_flag :
    {F R P Q Full : Type 0} → Full → (F ↔ (P ⊎ R)) → F ↔ (P ⊎ (Full × (((false ≡ true) × Q) ⊎ R)))
skipped_flag full h = (
  λ f. elim (h.0 f) [ inl e ↦ inl e | inr r ↦ inr (full, inr r) ],
  λ x. h.1 (elim x [
    | inl e ↦ inl e
    | inr (g, y) ↦ elim y [ inl (e, _) ↦ absurd (cc e) | inr r ↦ inr r ]
  ]),
)

flag_state-Reports :
    (o : ByteOrder) (p : RfkillEvent → Bool) (rs : List DeviceRead) (s : Bool)
    → (flag_state o p rs s ≡ true) ↔ ((s ≡ true) ⊎ Reports o p rs)
unfolding flag_state
flag_state-Reports o p [] s = (inl, λ h. elim h [ inl e ↦ e | inr n ↦ absurd n ])
flag_state-Reports o p (interrupted ∷ rs) s = flag_state-Reports o p rs s
flag_state-Reports o p (ended ∷ rs) s = (inl, λ h. elim h [ inl e ↦ e | inr n ↦ absurd n ])
flag_state-Reports o p (read_bytes b ∷ rs) s = elim (Bool-cases (ltb (length b) 8)) [
  | inl short ↦
      rw short
        (inl, λ h. elim h [ inl e ↦ e | inr n ↦ absurd (omega (arith, n.0, ltb→lt _ _ short)) ])
  | inr full ↦ elim (Bool-cases (is_switch (decode_event o b))) [
    | inl counts ↦
        rw (full, counts)
          (counted_flag s (p (decode_event o b)) (not_ltb→le _ _ full)
            (flag_state-Reports o p rs (s || p (decode_event o b))))
    | inr other ↦
        rw (full, other) (skipped_flag (not_ltb→le _ _ full) (flag_state-Reports o p rs s))
  ]
]

-- Each state differs from the one before it.
abbrev pub Changing : Bool × Bool → List (Bool × Bool) → Type 0
Changing last [] = Unit
Changing last (s ∷ ss) = (s ≢ last) × Changing s ss

abbrev pub last_of : Bool × Bool → List (Bool × Bool) → Bool × Bool
last_of d [] = d
last_of d (s ∷ ss) = last_of s ss

-- The state that the last tick with a state read.
abbrev pub last_read : Bool × Bool → List (Option (Bool × Bool)) → Bool × Bool
last_read d [] = d
last_read d (none ∷ ts) = last_read d ts
last_read d (some s ∷ ts) = last_read s ts

same_state_iff : (s t : Bool × Bool) → (same_state s t ≡ true) ↔ (s ≡ t)
same_state_iff (true, true) (true, true) = ground arith
same_state_iff (true, true) (true, false) = ground arith
same_state_iff (true, false) (true, true) = ground arith
same_state_iff (true, false) (true, false) = ground arith
same_state_iff (false, true) (false, true) = ground arith
same_state_iff (false, true) (false, false) = ground arith
same_state_iff (false, false) (false, true) = ground arith
same_state_iff (false, false) (false, false) = ground arith
same_state_iff (true, a) (false, b) = ground arith
same_state_iff (false, a) (true, b) = ground arith

deliver-Changing :
    (ts : List (Option (Bool × Bool))) (last : Bool × Bool)
    → Changing last (deliver ts last) × (last_of last (deliver ts last) ≡ last_read last ts)
unfolding deliver
deliver-Changing [] last = (tt, refl)
deliver-Changing (none ∷ ts) last = deliver-Changing ts last
deliver-Changing (some s ∷ ts) last = elim (Bool-cases (same_state s last)) [
  | inl same ↦
      let (changing, final) = deliver-Changing ts last in
      rw same (changing, final ∙ ap (λ x. last_read x ts) (sym ((same_state_iff s last).0 same)))
  | inr other ↦
      let (changing, final) = deliver-Changing ts s in
      rw other (((λ e. absurd (cc ((same_state_iff s last).1 e))), changing), final)
]

from_false : {F R : Type 0} → (F ↔ ((false ≡ true) ⊎ R)) → F ↔ R
from_false h = (λ f. elim (h.0 f) [ inl e ↦ absurd (cc e) | inr r ↦ r ], λ r. h.1 (inr r))

-- The state that a burst gives has a flag set exactly where the burst, before its end, has a wifi
-- event other than a removal that reports it: soft and hard block alike.
pub read_wlan_state_iff :
    (o : ByteOrder) (rs : List DeviceRead)
    → (((read_wlan_state o rs (false, false)).0 ≡ true) ↔ Reports o soft_blocked rs)
      × (((read_wlan_state o rs (false, false)).1 ≡ true) ↔ Reports o hard_blocked rs)
read_wlan_state_iff o rs = rw (read_wlan_state-flag_state o rs (false, false)) (
  from_false (flag_state-Reports o soft_blocked rs false),
  from_false (flag_state-Reports o hard_blocked rs false),
)

-- A subscriber hears the first state and then only changes, and the last state that it hears is the
-- last that was read.
pub subscribe-Changing :
    (o : ByteOrder) (snapshot : List DeviceRead) (ticks : List Tick)
    → let first = read_wlan_state o snapshot (false, false) in
      (later : List (Bool × Bool)) × (subscribe o (some snapshot) ticks ≡ first ∷ later)
      × Changing first later
      × (last_of first later ≡ last_read first (map (tick_state o) ticks))
unfolding subscribe
subscribe-Changing o snapshot ticks =
    let first = read_wlan_state o snapshot (false, false) in
    let states = map (tick_state o) ticks in
    let (changing, final) = deliver-Changing states first in
    (deliver states first, refl, changing, final)
