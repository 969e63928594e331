-- ===== src/Nmapi/Activation/Invariant.antt =====
-- internal/nmapi: devices and active connections agree on who is bound to whom.
use sinty_nm.Base.{
  ◌==◌, if◌then◌else◌, ==_iff, Bytes, ℕ, ◌≤◌, ◌≡◌, sym, ◌∙◌, ◌≢◌, ◌⊎◌, inl, inr, Bool, true, false,
  Option, none, some, arith,
}
use sinty_nm.Base.Dict.{find, bytes_eq}
use sinty_nm.Nmapi.State.{has, without}
use sinty_nm.Nmapi.Activation.{primary_after}
use sinty_nm.Nmapi.Activation.Frame.{Bindings}
use sinty_nm.Nmapi.Activation.Unbind.{at_one}
use sinty_nm.Nmapi.Activation.Paths.{
  has-without-true, has-without_other, at_one_same, at_one_other, Same-cases,
}

-- A name that is registered is that of its device, and a device is registered under its own name and
-- its path, which was drawn. A listed connection lives, and its device names it; a device names a listed connection of its own;
-- the path of the primary connection was drawn; an activation that runs is of a listed connection or a gone one.
pub record Bound (b : Bindings) : Type 0 where
  pub found :
      (name : Bytes) (d : ℕ)
      → find name b.by_iface ≡ some d
      → (has d b.devices ≡ true) × (b.iface d ≡ name)
  pub known :
      (d : ℕ)
      → has d b.devices ≡ true
      → (find (b.iface d) b.by_iface ≡ some d) × (has d b.by_path ≡ true) × (d ≤ b.dev_gen)
  pub pathed : (d : ℕ) → has d b.by_path ≡ true → has d b.devices ≡ true
  pub listed_lives :
      (p : ℕ)
      → has p b.listed ≡ true
      → (b.gone p ≡ false) × (p ≤ b.ac_gen) × (b.bound (b.owner p) ≡ some p)
  pub bound_listed :
      (d p : ℕ) → b.bound d ≡ some p → (has p b.listed ≡ true) × (b.owner p ≡ d) × (d ≤ b.dev_gen)
  pub primary_known : (p : ℕ) → b.primary ≡ some p → p ≤ b.ac_gen
  pub running_known :
      (p : ℕ)
      → has p b.running ≡ true
      → (p ≤ b.ac_gen) × ((b.gone p ≡ true) ⊎ ((has p b.listed ≡ true) × (b.adopted p ≡ false)))

-- The bindings without the listed connection `p` of `d`.
abbrev pub removed : ℕ → ℕ → (ℕ → Bool) → Bindings → Bindings
removed p d gone b = record b {
  listed = without p b.listed;
  primary = primary_after p b.primary;
  bound = at_one d none b.bound;
  gone = gone;
}

primary_after-some : (p q : ℕ) (o : Option ℕ) → primary_after p o ≡ some q → (o ≡ some q) × (q ≢ p)
unfolding primary_after
primary_after-some p q none h = absurd (cc h)
primary_after-some p q (some x) h = elim (Same-cases x p) [
  | inl same ↦ absurd (cc (trans_none same h))
  | inr apart ↦
      let kept : ◌≡◌ {A = Option ℕ} (some x) (some q) = kept_lem apart h in
      (kept, λ e. apart (cc (kept, e)))
]
  where
    trans_none :
        x ≡ p → (if x == p then none else some x) ≡ some q → ◌≡◌ {A = Option ℕ} none (some q)
    trans_none same h = ground (arith, same, h, ==_iff x p)

    kept_lem :
        x ≢ p → (if x == p then none else some x) ≡ some q → ◌≡◌ {A = Option ℕ} (some x) (some q)
    kept_lem apart h = ground (arith, apart, h, ==_iff x p)

-- Two listed connections of one device are one.
one_of_device :
    (b : Bindings)
    → Bound b
    → (p q : ℕ) → has p b.listed ≡ true
    → has q b.listed ≡ true
    → b.owner q ≡ b.owner p
    → q ≡ p
one_of_device b h p q at_p at_q same =
    let by_q = (h.listed_lives q at_q).2 in
    let by_p = (h.listed_lives p at_p).2 in cc (by_q, by_p, same)

-- A listed connection leaves, and is then gone or was adopted.
pub Bound-removed :
    (b : Bindings) (p : ℕ) (gone : ℕ → Bool)
    → Bound b
    → has p b.listed ≡ true
    → ((q : ℕ) → q ≢ p → gone q ≡ b.gone q)
    → ((gone p ≡ true) ⊎ (b.adopted p ≡ true))
    → Bound (removed p (b.owner p) gone b)
Bound-removed b p gone h at_p others left = record {
  found = h.found;
  known = h.known;
  pathed = h.pathed;
  listed_lives = λ q at_q.
      let (kept, apart) = has-without-true q p b.listed at_q in
      let (lives, old, names) = h.listed_lives q kept in
      let other : b.owner q ≢ b.owner p = λ same. apart (one_of_device b h p q at_p kept same) in
      (
        others q apart ∙ lives,
        old,
        at_one_other (b.owner p) (b.owner q) none b.bound other ∙ names,
      );
  bound_listed = λ d q e. elim (Same-cases d (b.owner p)) [
    | inl same ↦ absurd (freed d q same e)
    | inr apart ↦
        let (at_q, owned, old) =
          h.bound_listed d q (sym (at_one_other (b.owner p) d none b.bound apart) ∙ e) in
        let other : q ≢ p = λ same. apart (cc (same, owned)) in
        (has-without_other q p b.listed other ∙ at_q, owned, old)
  ];
  primary_known = λ q e. h.primary_known q (primary_after-some p q b.primary e).0;
  running_known = λ q runs. let (old, state) = h.running_known q runs in (old, after q state);
}
  where
    freed : (d q : ℕ) → d ≡ b.owner p → at_one (b.owner p) none b.bound d ≡ some q → ⊥
    freed d q same e = cc (at_one_same (b.owner p) d none b.bound same, e)

    at_last :
        {q : ℕ}
        → q ≡ p
        → ((b.gone q ≡ true) ⊎ ((has q b.listed ≡ true) × (b.adopted q ≡ false)))
        → ((gone p ≡ true) ⊎ (b.adopted p ≡ true))
        → (gone q ≡ true) ⊎ ((has q (without p b.listed) ≡ true) × (b.adopted q ≡ false))
    at_last same state (inl left) = inl (rw same left)
    at_last same (inl was) (inr adopted) = absurd (cc ((h.listed_lives p at_p).0, was, same))
    at_last same (inr (at_q, own)) (inr adopted) = absurd (cc (own, adopted, same))

    after :
        (q : ℕ)
        → ((b.gone q ≡ true) ⊎ ((has q b.listed ≡ true) × (b.adopted q ≡ false)))
        → (gone q ≡ true) ⊎ ((has q (without p b.listed) ≡ true) × (b.adopted q ≡ false))
    after q state = elim (Same-cases q p) [
      | inr apart ↦ elim state [
        | inl was ↦ inl (others q apart ∙ was)
        | inr (at_q, own) ↦ inr (has-without_other q p b.listed apart ∙ at_q, own)
      ]
      | inl same ↦ at_last same state left
    ]
