-- ===== src/Nmapi/Activation/Paths.antt =====
-- Lists of paths, and functions with one value replaced.
use sinty_nm.Base.{
  ◌==◌, ==_iff, Bool-cases, ℕ, ◌≡◌, refl, sym, ◌≢◌, ◌⊎◌, inl, inr, true, not, ◌&&◌, List, [], ◌∷◌,
  arith,
}
use sinty_nm.Nmapi.State.{has, without}
use sinty_nm.Nmapi.Activation.Unbind.{at_one}

pub has-without : (q p : ℕ) (ps : List ℕ) → has q (without p ps) ≡ has q ps && not (q == p)
has-without q p [] = refl
has-without q p (x ∷ ps) = ground (arith, ==_iff x p, ==_iff x q, ==_iff q p, has-without q p ps)

pub has-without-true :
    (q p : ℕ) (ps : List ℕ) → has q (without p ps) ≡ true → (has q ps ≡ true) × (q ≢ p)
has-without-true q p ps h = ground (arith, ==_iff q p, has-without q p ps, h)

pub has-without_other : (q p : ℕ) (ps : List ℕ) → q ≢ p → has q (without p ps) ≡ has q ps
has-without_other q p ps apart = elim (Bool-cases (q == p)) [
  | inl e ↦ absurd (apart ((==_iff q p).0 e))
  | inr e ↦ ground (arith, has-without q p ps, e)
]

pub has-cons : (q p : ℕ) (ps : List ℕ) → has q (p ∷ ps) ≡ true → (q ≡ p) ⊎ (has q ps ≡ true)
has-cons q p ps h = elim (Bool-cases (p == q)) [
  | inl e ↦ inl (sym ((==_iff p q).0 e))
  | inr e ↦ inr (ground (arith, e, h))
]

pub at_one_self {ℓ} : {A : Type ℓ} (p : ℕ) (v : A) (f : ℕ → A) → at_one p v f p ≡ v
at_one_self p v f = rw ((==_iff p p).1 refl) refl

pub at_one_same {ℓ} : {A : Type ℓ} (p q : ℕ) (v : A) (f : ℕ → A) → q ≡ p → at_one p v f q ≡ v
at_one_same p q v f same = rw ((==_iff q p).1 same) refl

pub at_one_other {ℓ} : {A : Type ℓ} (p q : ℕ) (v : A) (f : ℕ → A) → q ≢ p → at_one p v f q ≡ f q
at_one_other p q v f apart = elim (Bool-cases (q == p)) [
  | inl e ↦ absurd (apart ((==_iff q p).0 e))
  | inr e ↦ rw e refl
]

-- A number is another one or not.
pub Same-cases : (p q : ℕ) → (p ≡ q) ⊎ (p ≢ q)
Same-cases p q = elim (Bool-cases (p == q)) [
  | inl e ↦ inl ((==_iff p q).0 e)
  | inr e ↦ inr (λ same. absurd (cc (e, (==_iff p q).1 same)))
]
