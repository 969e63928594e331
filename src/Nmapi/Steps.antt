-- ===== src/Nmapi/Steps.antt =====
-- internal/nmapi: every operation of the manager as a step, and what holds in every state it reaches.
pub mod Adoption
pub mod Events
pub mod Requests
pub mod Serving
pub mod Reach
use sinty_nm.Base.{
  if◌then◌else◌, Bool-cases, ◌≤◌, ℕ, ◌≡◌, refl, ap, ◌∙◌, ◌⊎◌, inl, inr, Bool, true, false, ◌||◌,
  Option, some, arith,
}
use sinty_nm.Nmapi.Types.{
  dev_state_activated, dev_state_failed, dev_reason_none, ac_state_activated,
}
use sinty_nm.Nmapi.State.{Manager, has, without}
use sinty_nm.Nmapi.Device.{set_state}
use sinty_nm.Nmapi.Activation.{set_active_state, superseded, publish, fail, settle, deactivate}
use sinty_nm.Nmapi.Activation.Frame.{
  Bindings, bindings, set_state-bindings, set_active_state-bindings,
}
use sinty_nm.Nmapi.Activation.Paths.{has-without-true}
use sinty_nm.Nmapi.Activation.Invariant.{Bound}
use sinty_nm.Nmapi.Activation.Operations.{Bound-along, Bound-deactivate_listed}
use sinty_nm.Nmapi.Control.{finish_activation}

-- Which connection is primary, where its path was drawn.
pub Bound-primary :
    (b : Bindings) (primary : Option ℕ)
    → Bound b
    → ((p : ℕ) → primary ≡ some p → p ≤ b.ac_gen)
    → Bound (record b { primary = primary })
Bound-primary b primary h leads = record {
  found = h.found;
  known = h.known;
  pathed = h.pathed;
  listed_lives = h.listed_lives;
  bound_listed = h.bound_listed;
  primary_known = leads;
  running_known = h.running_known;
}

-- An activation ends.
pub Bound-ended :
    (b : Bindings) (p : ℕ) → Bound b → Bound (record b { running = without p b.running })
Bound-ended b p h = record {
  found = h.found;
  known = h.known;
  pathed = h.pathed;
  listed_lives = h.listed_lives;
  bound_listed = h.bound_listed;
  primary_known = h.primary_known;
  running_known = λ q runs. h.running_known q (has-without-true q p b.running runs).0;
}

pub Bound-publish :
    (p d : ℕ) (m : Manager) → Bound (bindings m) → p ≤ m.ac_gen → Bound (bindings (publish p d m))
unfolding publish
Bound-publish p d m h old =
    let active = set_active_state p ac_state_activated dev_reason_none m in
    Bound-along
      (ap {A = Bindings} (λ b. record b { primary = some p })
        (set_state-bindings d dev_state_activated dev_reason_none active
          ∙ set_active_state-bindings p ac_state_activated dev_reason_none m))
      (Bound-primary (bindings m) (some p) h (λ q e. leads q e))
  where
    leads : (q : ℕ) → ◌≡◌ {A = Option ℕ} (some p) (some q) → q ≤ m.ac_gen
    leads q e = let same : q ≡ p = cc e in rw same old

Bound-fail :
    (p d : ℕ) (m : Manager)
    → Bound (bindings m)
    → has p m.active_conns ≡ true
    → Bound (bindings (fail p d m))
unfolding fail
Bound-fail p d m h at_p =
    let failed = set_state d dev_state_failed dev_reason_none m in
    let same = set_state-bindings d dev_state_failed dev_reason_none m in
    Bound-deactivate_listed p failed (Bound-along same h) (ap (λ b. has p b.listed) same ∙ at_p)

-- A failure that comes late, after the connection may have gone.
pub Bound-given_up :
    (p : ℕ) (m : Manager)
    → Bound (bindings m)
    → has p m.running ≡ true
    → Bound (bindings (fail p (m.active p).device m))
unfolding fail deactivate
Bound-given_up p m h runs = elim (Bool-cases (failed.active p).gone) [
  | inl gone ↦ rw gone (Bound-along same h)
  | inr lives ↦ Bound-fail p (m.active p).device m h (listed (h.running_known p runs).1 lives)
]
  where
    failed : Manager
    failed = set_state (m.active p).device dev_state_failed dev_reason_none m

    same : bindings failed ≡ bindings m
    same = set_state-bindings (m.active p).device dev_state_failed dev_reason_none m

    listed :
        ((m.active p).gone ≡ true)
          ⊎ ((has p m.active_conns ≡ true) × ((m.active p).adopted ≡ false))
        → (failed.active p).gone ≡ false
        → has p m.active_conns ≡ true
    listed (inl gone) alive = absurd (cc (gone, ap (λ b. b.gone p) same, alive))
    listed (inr (at_p, own)) alive = at_p

Bound-settle :
    (stopped : Bool) (p : ℕ) (succeeded : Bool) (m : Manager)
    → Bound (bindings m)
    → has p m.running ≡ true
    → Bound (bindings (settle stopped p succeeded m))
unfolding settle superseded
Bound-settle stopped p succeeded m h runs =
    by_test (stopped || (m.active p).cancelled || (m.active p).gone) refl succeeded
  where
    lives :
        (stopped || (m.active p).cancelled || (m.active p).gone) ≡ false → (m.active p).gone ≡ false
    lives e = ground (arith, e)

    listed :
        ((m.active p).gone ≡ true)
          ⊎ ((has p m.active_conns ≡ true) × ((m.active p).adopted ≡ false))
        → (m.active p).gone ≡ false
        → has p m.active_conns ≡ true
    listed (inl gone) alive = absurd (cc (gone, alive))
    listed (inr (at_p, own)) alive = at_p

    by_test :
        (b : Bool)
        → (stopped || (m.active p).cancelled || (m.active p).gone) ≡ b
        → (up : Bool)
        → Bound (
            bindings (
              if b
              then m
              else if up
              then publish p (m.active p).device m
              else fail p (m.active p).device m))
    by_test true e up = h
    by_test false e true = Bound-publish p _ m h (h.running_known p runs).0
    by_test false e false = Bound-fail p _ m h (listed (h.running_known p runs).1 (lives e))

-- The end of an activation that runs.
pub Bound-finish_activation :
    (stopped : Bool) (p : ℕ) (succeeded : Bool) (m : Manager)
    → Bound (bindings m)
    → has p m.running ≡ true
    → Bound (bindings (finish_activation stopped p succeeded m))
unfolding finish_activation
Bound-finish_activation stopped p succeeded m h runs =
    let settled = settle stopped p succeeded m in
    Bound-ended (bindings settled) p (Bound-settle stopped p succeeded m h runs)
