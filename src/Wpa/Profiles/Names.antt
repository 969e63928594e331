-- ===== src/Wpa/Profiles/Names.antt =====
-- internal/backend/wpa/wpa.go, `profileName`: two networks have two files.
use sinty_nm.Base.{
  if◌then◌else◌, All, Bytes, IsByte, ℕ, ◌≡◌, refl, sym, ◌≢◌, Bool, true, false, [], ◌∷◌, arith,
}
use sinty_nm.Wpa.Escape.{hex_of}
use sinty_nm.Wpa.Escape.RoundTrip.{hex_of-one}
use sinty_nm.Wpa.Profiles.{is_plain, all_plain, profile_name}

-- A plain name has no equals sign.
plain_first : (c : ℕ) (cs : Bytes) → all_plain (c ∷ cs) ≡ true → c ≢ 61
unfolding all_plain is_plain
plain_first c cs h e = ground (arith, h, e)

-- SSIDs that give the same profile name are the same, so no network reads or overwrites the key of
-- another one.
pub profile_name-one :
    (a b : Bytes) → All IsByte a → All IsByte b → profile_name a ≡ profile_name b → a ≡ b
unfolding profile_name
profile_name-one a b h k e = by_tests (all_plain a) (all_plain b) refl refl e
  where
    clash : (x y : Bytes) → all_plain x ≡ true → x ≡ 61 ∷ hex_of y → ⊥
    clash [] y plain same = cc same
    clash (c ∷ cs) y plain same = plain_first c cs plain (cc same)

    by_tests :
        (p q : Bool)
        → all_plain a ≡ p
        → all_plain b ≡ q
        → (if p then a else 61 ∷ hex_of a) ≡ (if q then b else 61 ∷ hex_of b)
        → a ≡ b
    by_tests true true at_a at_b same = same
    by_tests true false at_a at_b same = absurd (clash a b at_a same)
    by_tests false true at_a at_b same = absurd (clash b a at_b (sym same))
    by_tests false false at_a at_b same =
        let texts : hex_of a ≡ hex_of b = cc same in hex_of-one a b h k texts
