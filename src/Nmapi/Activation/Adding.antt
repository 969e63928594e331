-- ===== src/Nmapi/Activation/Adding.antt =====
-- internal/nmapi: a new active connection on a device keeps devices and active connections in agreement.
use sinty_nm.Base.{
  ◌==◌, ==_iff, Bool-cases, ℕ, ◌+◌, ◌≤◌, ◌≡◌, refl, sym, ap, ◌∙◌, ◌≢◌, ◌⊎◌, inl, inr, Bool, true,
  false, Option, none, some, List, ◌∷◌, arith,
}
use sinty_nm.Nmapi.State.{has}
use sinty_nm.Nmapi.Activation.Frame.{Bindings}
use sinty_nm.Nmapi.Activation.Unbind.{at_one}
use sinty_nm.Nmapi.Activation.Paths.{has-cons, at_one_self, at_one_same, at_one_other, Same-cases}
use sinty_nm.Nmapi.Activation.Invariant.{Bound}

-- The bindings with one more active connection object `p` of the device `d`, not listed yet.
abbrev pub created : ℕ → ℕ → Bool → Bindings → Bindings
created p d adopted b = record b {
  ac_gen = p;
  owner = at_one p d b.owner;
  gone = at_one p false b.gone;
  adopted = at_one p adopted b.adopted;
}

-- An object that nothing names yet changes nothing.
pub Bound-created :
    (b : Bindings) (d : ℕ) (adopted : Bool) → Bound b → Bound (created (b.ac_gen + 1) d adopted b)
Bound-created b d adopted h = record {
  found = h.found;
  known = h.known;
  pathed = h.pathed;
  listed_lives = λ q at_q.
      let (lives, old, names) = h.listed_lives q at_q in
      let other : q ≢ p = λ same. absurd (new q old same) in
      (
        at_one_other p q false b.gone other ∙ lives,
        below q old,
        ap b.bound (at_one_other p q d b.owner other) ∙ names,
      );
  bound_listed = λ e q at_e.
      let (at_q, owned, old) = h.bound_listed e q at_e in
      let other : q ≢ p = λ same. absurd (new q (h.listed_lives q at_q).1 same) in
      (at_q, at_one_other p q d b.owner other ∙ owned, old);
  primary_known = λ q e. below q (h.primary_known q e);
  running_known = λ q runs.
      let (old, state) = h.running_known q runs in
      let other : q ≢ p = λ same. absurd (new q old same) in (below q old, moved q other state);
}
  where
    p : ℕ
    p = b.ac_gen + 1

    new : (q : ℕ) → q ≤ b.ac_gen → q ≡ b.ac_gen + 1 → ⊥
    new q old same = omega arith

    below : (q : ℕ) → q ≤ b.ac_gen → q ≤ b.ac_gen + 1
    below q old = omega arith

    moved :
        (q : ℕ)
        → q ≢ b.ac_gen + 1
        → ((b.gone q ≡ true) ⊎ ((has q b.listed ≡ true) × (b.adopted q ≡ false)))
        → (at_one (b.ac_gen + 1) false b.gone q ≡ true)
          ⊎ ((has q b.listed ≡ true) × (at_one (b.ac_gen + 1) adopted b.adopted q ≡ false))
    moved q other (inl was) = inl (at_one_other (b.ac_gen + 1) q false b.gone other ∙ was)
    moved q other (inr (at_q, own)) =
        inr (at_q, at_one_other (b.ac_gen + 1) q adopted b.adopted other ∙ own)

-- The bindings with `p` listed and named by its device `d`.
abbrev pub bound_up : ℕ → ℕ → Option ℕ → List ℕ → Bindings → Bindings
bound_up p d primary running b = record b {
  listed = p ∷ b.listed;
  primary = primary;
  running = running;
  bound = at_one d (some p) b.bound;
}

-- A connection object of a free device is listed, and may become primary and start to run.
pub Bound-bound_up :
    (b : Bindings) (p d : ℕ) (primary : Option ℕ) (running : List ℕ)
    → Bound b
    → b.bound d ≡ none
    → d ≤ b.dev_gen
    → p ≤ b.ac_gen
    → b.gone p ≡ false
    → b.owner p ≡ d
    → ((q : ℕ) → primary ≡ some q → (q ≡ p) ⊎ (b.primary ≡ some q))
    → ((q : ℕ)
        → has q running ≡ true
        → ((q ≡ p) × (b.adopted p ≡ false)) ⊎ (has q b.running ≡ true))
    → Bound (bound_up p d primary running b)
Bound-bound_up b p d primary running h free known old lives owned leads runs = record {
  found = h.found;
  known = h.known;
  pathed = h.pathed;
  listed_lives = λ q at_q. elim (has-cons q p b.listed at_q) [
    | inl same ↦ rw same (lives, old, rw owned (at_one_self d (some p) b.bound))
    | inr before ↦
        let (l, o, names) = h.listed_lives q before in
        let other : b.owner q ≢ d = λ same. absurd (cc (names, free, same)) in
        (l, o, at_one_other d (b.owner q) (some p) b.bound other ∙ names)
  ];
  bound_listed = λ e q at_e. elim (Same-cases e d) [
    | inl same ↦
        let names : ◌≡◌ {A = Option ℕ} (some p) (some q) =
          sym (at_one_same d e (some p) b.bound same) ∙ at_e in
        let is_p : q ≡ p = cc names in (here is_p, rw (is_p, same) owned, rw same known)
    | inr apart ↦
        let (at_q, o, k) =
          h.bound_listed e q (sym (at_one_other d e (some p) b.bound apart) ∙ at_e) in
        (there q at_q, o, k)
  ];
  primary_known =
      λ q e. elim (leads q e) [ inl same ↦ rw same old | inr was ↦ h.primary_known q was ];
  running_known = λ q r. elim (runs q r) [
    | inl (same, own) ↦ (rw same old, inr (here same, rw same own))
    | inr was ↦ let (o, state) = h.running_known q was in (o, moved q state)
  ];
}
  where
    here : {q : ℕ} → q ≡ p → has q (p ∷ b.listed) ≡ true
    here {q = q} same = ground (arith, same, ==_iff p q)

    there : (q : ℕ) → has q b.listed ≡ true → has q (p ∷ b.listed) ≡ true
    there q at_q = elim (Bool-cases (p == q)) [ inl e ↦ rw e refl | inr e ↦ rw e at_q ]

    moved :
        (q : ℕ)
        → ((b.gone q ≡ true) ⊎ ((has q b.listed ≡ true) × (b.adopted q ≡ false)))
        → (b.gone q ≡ true) ⊎ ((has q (p ∷ b.listed) ≡ true) × (b.adopted q ≡ false))
    moved q (inl was) = inl was
    moved q (inr (at_q, own)) = inr (there q at_q, own)
