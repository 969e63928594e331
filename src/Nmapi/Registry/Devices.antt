-- ===== src/Nmapi/Registry/Devices.antt =====
-- internal/nmapi, `onLinkEvent`: a device that comes or goes, in the lists and maps of devices.
use sinty_nm.Base.{
  ◌==◌, ==_iff, Bool-cases, Bytes, ℕ, ◌+◌, ◌≤◌, ◌≡◌, refl, sym, ap, ◌∙◌, ◌≢◌, ◌⊎◌, inl, inr, true,
  Option, none, some, List, [], ◌∷◌, ◌++◌, arith,
}
use sinty_nm.Base.Dict.{
  find, insert, remove, bytes_eq, bytes_equal, bytes_equal_iff, find-insert_self, find-insert_other,
  find-remove_self, find-remove_other,
}
use sinty_nm.Nmapi.State.{has, without}
use sinty_nm.Nmapi.Activation.Frame.{Bindings}
use sinty_nm.Nmapi.Activation.Unbind.{at_one}
use sinty_nm.Nmapi.Activation.Paths.{
  has-without-true, has-without_other, has-cons, at_one_same, at_one_other, Same-cases,
}
use sinty_nm.Nmapi.Activation.Invariant.{Bound}

-- The bindings with one more device.
abbrev pub with_device : Bytes → ℕ → Bindings → Bindings
with_device name d b = record b {
  dev_gen = d;
  devices = b.devices ++ d ∷ [];
  by_path = d ∷ b.by_path;
  by_iface = insert name d b.by_iface;
  iface = at_one d name b.iface;
  bound = at_one d none b.bound;
}

has-append_one : (q d : ℕ) (ds : List ℕ) → has q (ds ++ d ∷ []) ≡ true → (has q ds ≡ true) ⊎ (q ≡ d)
has-append_one q d [] h = elim (has-cons q d [] h) [ inl same ↦ inr same | inr e ↦ inl e ]
has-append_one q d (x ∷ ds) h = elim (Bool-cases (x == q)) [
  | inl e ↦ inl (rw e refl)
  | inr e ↦ elim (has-append_one q d ds (rw e at h)) [
    | inl before ↦ inl (rw e before)
    | inr same ↦ inr same
  ]
]

has-append_left : (q d : ℕ) (ds : List ℕ) → has q ds ≡ true → has q (ds ++ d ∷ []) ≡ true
has-append_left q d (x ∷ ds) h = elim (Bool-cases (x == q)) [
  | inl e ↦ rw e refl
  | inr e ↦ rw e (has-append_left q d ds (rw e at h))
]
has-append_left q d [] h = absurd (cc h)

has-append_last : (q d : ℕ) (ds : List ℕ) → q ≡ d → has q (ds ++ d ∷ []) ≡ true
has-append_last q d [] same = rw ((==_iff d q).1 (sym same)) refl
has-append_last q d (x ∷ ds) same = elim (Bool-cases (x == q)) [
  | inl e ↦ rw e refl
  | inr e ↦ rw e (has-append_last q d ds same)
]

has-first : (q d : ℕ) (ds : List ℕ) → q ≡ d → has q (d ∷ ds) ≡ true
has-first q d ds same = rw ((==_iff d q).1 (sym same)) refl

find-insert_same :
    (n name : Bytes) (d : ℕ) (m : List (Bytes × ℕ)) → n ≡ name → find n (insert name d m) ≡ some d
find-insert_same n name d m same = rw ((bytes_equal_iff name n).1 (sym same)) refl

has-later : (q d : ℕ) (ds : List ℕ) → has q ds ≡ true → has q (d ∷ ds) ≡ true
has-later q d ds h = elim (Bool-cases (d == q)) [ inl e ↦ rw e refl | inr e ↦ rw e h ]

-- A name is another one or not.
Name-cases : (a b : Bytes) → (a ≡ b) ⊎ (a ≢ b)
Name-cases a b = elim (Bool-cases (bytes_equal a b)) [
  | inl e ↦ inl ((bytes_equal_iff a b).0 e)
  | inr e ↦ inr (λ same. absurd (cc (e, (bytes_equal_iff a b).1 same)))
]

pub Bound-with_device :
    (name : Bytes) (b : Bindings)
    → Bound b
    → find name b.by_iface ≡ none
    → Bound (with_device name (b.dev_gen + 1) b)
Bound-with_device name b h unknown = record {
  found = λ n q e. elim (Name-cases n name) [
    | inl same ↦
        let names : ◌≡◌ {A = Option ℕ} (some d) (some q) =
          sym (find-insert_same n name d b.by_iface same) ∙ e in
        let is_d : q ≡ d = cc names in
        (has-append_last q d b.devices is_d, at_one_same d q name b.iface is_d ∙ sym same)
    | inr apart ↦
        let (at_q, named) = h.found n q (sym (find-insert_other name n d b.by_iface apart) ∙ e) in
        (
          has-append_left q d b.devices at_q,
          at_one_other d q name b.iface (new q (h.known q at_q).2) ∙ named,
        )
  ];
  known = λ q at_q. elim (has-append_one q d b.devices at_q) [
    | inl before ↦
        let (own, path, old) = h.known q before in
        let other = new q old in
        let apart : b.iface q ≢ name = λ same. absurd (unknown_name q own same) in
        (
          ap (λ n. find n (insert name d b.by_iface)) (at_one_other d q name b.iface other)
              ∙ (find-insert_other name (b.iface q) d b.by_iface apart ∙ own),
          has-later q d b.by_path path,
          below q old,
        )
    | inr same ↦ (
      ap (λ n. find n (insert name d b.by_iface)) (at_one_same d q name b.iface same)
          ∙ (find-insert_self name d b.by_iface ∙ ap some (sym same)),
      has-first q d b.by_path same,
      last q same,
    )
  ];
  pathed = λ q at_q. elim (has-cons q d b.by_path at_q) [
    | inl same ↦ has-append_last q d b.devices same
    | inr before ↦ has-append_left q d b.devices (h.pathed q before)
  ];
  listed_lives = λ p at_p.
      let (lives, old, names) = h.listed_lives p at_p in
      let owner_old = (h.bound_listed (b.owner p) p names).2 in
      (lives, old, at_one_other d (b.owner p) none b.bound (new (b.owner p) owner_old) ∙ names);
  bound_listed = λ e p named. elim (Same-cases e d) [
    | inl same ↦ absurd (cc (at_one_same d e none b.bound same, named))
    | inr apart ↦
        let (at_p, owned, old) =
          h.bound_listed e p (sym (at_one_other d e none b.bound apart) ∙ named) in
        (at_p, owned, below e old)
  ];
  primary_known = h.primary_known;
  running_known = h.running_known;
}
  where
    d : ℕ
    d = b.dev_gen + 1

    new : (q : ℕ) → q ≤ b.dev_gen → q ≢ b.dev_gen + 1
    new q old = λ same. omega arith

    below : (q : ℕ) → q ≤ b.dev_gen → q ≤ b.dev_gen + 1
    below q old = omega arith

    last : (q : ℕ) → q ≡ b.dev_gen + 1 → q ≤ b.dev_gen + 1
    last q same = omega arith

    unknown_name : (q : ℕ) → find (b.iface q) b.by_iface ≡ some q → b.iface q ≡ name → ⊥
    unknown_name q own same = cc (own, unknown, same)

-- The bindings without one device.
abbrev pub without_device : Bytes → ℕ → Bindings → Bindings
without_device name d b = record b {
  devices = without d b.devices;
  by_path = without d b.by_path;
  by_iface = remove name b.by_iface;
}

pub Bound-without_device :
    (name : Bytes) (d : ℕ) (b : Bindings)
    → Bound b
    → find name b.by_iface ≡ some d
    → Bound (without_device name d b)
Bound-without_device name d b h at_d = record {
  found = λ n q e. elim (Name-cases n name) [
    | inl same ↦ absurd (gone n q same e)
    | inr apart ↦
        let (at_q, named) = h.found n q (sym (find-remove_other name n b.by_iface apart) ∙ e) in
        let other : q ≢ d = λ same. absurd (apart (cc (named, (h.found name d at_d).1, same))) in
        (has-without_other q d b.devices other ∙ at_q, named)
  ];
  known = λ q at_q.
      let (before, other) = has-without-true q d b.devices at_q in
      let (own, path, old) = h.known q before in
      let apart : b.iface q ≢ name = λ same. absurd (other (cc (own, at_d, same))) in
      (
        find-remove_other name (b.iface q) b.by_iface apart ∙ own,
        has-without_other q d b.by_path other ∙ path,
        old,
      );
  pathed = λ q at_q.
      let (before, other) = has-without-true q d b.by_path at_q in
      has-without_other q d b.devices other ∙ h.pathed q before;
  listed_lives = h.listed_lives;
  bound_listed = h.bound_listed;
  primary_known = h.primary_known;
  running_known = h.running_known;
}
  where
    gone : (n : Bytes) (q : ℕ) → n ≡ name → find n (remove name b.by_iface) ≡ some q → ⊥
    gone n q same e =
        let none_left : find n (remove name b.by_iface) ≡ none =
          rw same (find-remove_self name b.by_iface) in
        cc (none_left, e)
