-- ===== src/Book/Table/Invariant.antt =====
-- The invariant of the table, and what the loops return on a valid table.
use tickpipe.Base.{
  ℕ, zero, suc, ◌+◌, ◌<◌, ◌≡◌, refl, sym, ap, ◌∙◌, ◌≢◌, ◌⊎◌, inl, inr, true, false, Option, none,
  some, arith, ◌==◌, Bool-cases, subst, ==_iff, ltb, ltb→lt,
}
use tickpipe.Book.Table.{
  Book, SlotState, empty, occupied, tombstone, home, next, find_loop, seek, insert_loop, Scan, same,
  free, full, first_tombstone, target,
}
use tickpipe.Book.Table.Probe.{
  IsMasked, at, at-lt, home-at, next-at, HasKey, Passed, find_loop_complete,
}

-- The reference that slot `i` holds.
abbrev pub key : Book → ℕ → ℕ
key b i = (b.slots i).order_ref

-- Slot `i` is on the way of its reference, behind no empty slot.
abbrev pub IsReachable : Book → ℕ → ℕ → Type 0
IsReachable b ref i = (d : ℕ) × (d < b.capacity) × (at b ref d ≡ i) × Passed b ref d

pub record IsValid (b : Book) : Type 0 where
  pub masked : IsMasked b
  pub placed : (i : ℕ) → i < b.capacity → b.state i ≡ occupied → IsReachable b (key b i) i
  pub unique :
      (i j : ℕ)
      → i < b.capacity
      → j < b.capacity
      → b.state i ≡ occupied
      → b.state j ≡ occupied
      → key b i ≡ key b j
      → i ≡ j

pub State-cases : (s : SlotState) → (s ≡ empty) ⊎ ((s ≡ occupied) ⊎ (s ≡ tombstone))
State-cases empty = inl refl
State-cases occupied = inr (inl refl)
State-cases tombstone = inr (inr refl)

-- The tombstone that `insert_loop` remembers stands before distance `d`.
abbrev pub Reusable : Book → ℕ → ℕ → Option ℕ → Type 0
Reusable b ref d none = Unit {0}
Reusable b ref d (some r) = (e : ℕ) × (e < d) × (at b ref e ≡ r) × (b.state r ≡ tombstone)

-- What the loop of `insert` knows when it has come to distance `d`.
pub record Scanned (b : Book) (ref d : ℕ) (reuse : Option ℕ) : Type 0 where
  pub passed : Passed b ref d
  pub absent : (e : ℕ) → e < d → ¬ HasKey b ref (at b ref e)
  pub reusable : Reusable b ref d reuse

abbrev pub ScanEnds : Book → ℕ → Scan → Type 0
ScanEnds b ref (same i) = (i < b.capacity) × HasKey b ref i
ScanEnds b ref (free i n reuse) =
    (d : ℕ) × (d < b.capacity) × (at b ref d ≡ i) × (b.state i ≡ empty) × Scanned b ref d reuse
ScanEnds b ref full = (reuse : Option ℕ) × Scanned b ref b.capacity reuse

Reusable-later :
    (b : Book) (ref d : ℕ) (reuse : Option ℕ)
    → Reusable b ref d reuse
    → Reusable b ref (d + 1) reuse
Reusable-later b ref d none r = tt
Reusable-later b ref d (some i) r = (r.0, omega arith, r.2, r.3)

Reusable-first :
    (b : Book) (ref d : ℕ) (reuse : Option ℕ)
    → Reusable b ref d reuse
    → b.state (at b ref d) ≡ tombstone
    → Reusable b ref (d + 1) (first_tombstone reuse (at b ref d))
Reusable-first b ref d none r t = (d, omega arith, refl, t)
Reusable-first b ref d (some i) r t = (r.0, omega arith, r.2, r.3)

module _ (b : Book) (ref : ℕ) where
  -- The rounds of the loop of `insert`.
  at_empty :
      (left idx probes : ℕ) (reuse : Option ℕ)
      → b.state idx ≡ empty
      → insert_loop b ref (suc left) idx probes reuse ≡ free idx probes reuse
  unfolding insert_loop
  at_empty left idx probes reuse c = ground arith

  at_same :
      (left idx probes : ℕ) (reuse : Option ℕ)
      → b.state idx ≡ occupied
      → (key b idx == ref) ≡ true
      → insert_loop b ref (suc left) idx probes reuse ≡ same idx
  unfolding insert_loop
  at_same left idx probes reuse c k = ground arith

  at_other :
      (left idx idx' probes : ℕ) (reuse : Option ℕ)
      → b.state idx ≡ occupied
      → (key b idx == ref) ≡ false
      → next b idx ≡ idx'
      → insert_loop b ref (suc left) idx probes reuse
        ≡ insert_loop b ref left idx' (probes + 1) reuse
  unfolding insert_loop
  at_other left idx idx' probes reuse c k e = ground arith

  at_tombstone :
      (left idx idx' probes : ℕ) (reuse : Option ℕ)
      → b.state idx ≡ tombstone
      → next b idx ≡ idx'
      → insert_loop b ref (suc left) idx probes reuse
        ≡ insert_loop b ref left idx' (probes + 1) (first_tombstone reuse idx)
  unfolding insert_loop
  at_tombstone left idx idx' probes reuse c e = ground arith

  at_end : (idx probes : ℕ) (reuse : Option ℕ) → insert_loop b ref zero idx probes reuse ≡ full
  unfolding insert_loop
  at_end idx probes reuse = refl

module _ (b : Book) (m : IsMasked b) (ref : ℕ) where
  -- One more slot passed, which is not empty and does not hold the reference.
  Scanned-next :
      (d : ℕ) (reuse reuse' : Option ℕ)
      → Scanned b ref d reuse
      → b.state (at b ref d) ≢ empty
      → ¬ HasKey b ref (at b ref d)
      → Reusable b ref (d + 1) reuse'
      → Scanned b ref (d + 1) reuse'
  Scanned-next d reuse reuse' s full_slot other r = record {
    passed = λ e h. elim (Bool-cases (e == d)) [
      | inl p ↦ subst (λ k. b.state (at b ref k) ≢ empty) (sym ((==_iff e d).0 p)) full_slot
      | inr p ↦ s.passed e (ground arith)
    ];
    absent = λ e h. elim (Bool-cases (e == d)) [
      | inl p ↦ subst (λ k. ¬ HasKey b ref (at b ref k)) (sym ((==_iff e d).0 p)) other
      | inr p ↦ s.absent e (ground arith)
    ];
    reusable = r;
  }

  insert_loop_ends :
      (left d probes : ℕ) (reuse : Option ℕ)
      → left + d ≡ b.capacity
      → Scanned b ref d reuse
      → ScanEnds b ref (insert_loop b ref left (at b ref d) probes reuse)
  insert_loop_ends zero d probes reuse e s =
      let all : d ≡ b.capacity = omega arith in
      subst (ScanEnds b ref) (sym (at_end b ref (at b ref d) probes reuse))
        (reuse, subst (λ k. Scanned b ref k reuse) all s)
  insert_loop_ends (suc left) d probes reuse e s = elim (State-cases (b.state (at b ref d))) [
    | inl c ↦
        subst (ScanEnds b ref) (sym (at_empty b ref left (at b ref d) probes reuse c))
          (d, omega arith, refl, c, s)
    | inr (inl c) ↦ elim (Bool-cases (key b (at b ref d) == ref)) [
      | inl k ↦
          subst (ScanEnds b ref) (sym (at_same b ref left (at b ref d) probes reuse c k))
            (at-lt b m ref d, (c, (==_iff _ ref).0 k))
      | inr k ↦
          subst (ScanEnds b ref)
            (sym (at_other b ref left (at b ref d) _ probes reuse c k (next-at b m ref d)))
            (insert_loop_ends left (d + 1) (probes + 1) reuse (omega arith) (
              Scanned-next d reuse reuse s (λ x. cc (c, x)) (λ h. ground (arith, h.1))
                (Reusable-later b ref d reuse s.reusable)))
    ]
    | inr (inr c) ↦
        subst (ScanEnds b ref)
          (sym (at_tombstone b ref left (at b ref d) _ probes reuse c (next-at b m ref d)))
          (insert_loop_ends left (d + 1) (probes + 1) (first_tombstone reuse (at b ref d))
            (omega arith)
            (Scanned-next d reuse (first_tombstone reuse (at b ref d)) s (λ x. cc (c, x))
              (λ h. cc (c, h.0)) (Reusable-first b ref d reuse s.reusable c)))
  ]

  -- The whole loop of `insert`.
  pub insert_scan : ScanEnds b ref (insert_loop b ref b.capacity (home b ref) 0 none)
  insert_scan =
      subst (λ i. ScanEnds b ref (insert_loop b ref b.capacity i 0 none)) (sym (home-at b m ref))
        (insert_loop_ends b.capacity 0 0 none (omega arith) (record {
          passed = λ e h. absurd (omega arith);
          absent = λ e h. absurd (omega arith);
          reusable = tt;
        }))

-- Where `insert` writes a new order: a slot on the way, free, behind no empty slot.
pub target-free :
    (b : Book) (ref d idx : ℕ) (reuse : Option ℕ)
    → d < b.capacity
    → at b ref d ≡ idx
    → b.state idx ≡ empty
    → Scanned b ref d reuse
    → IsReachable b ref (target idx reuse) × (b.state (target idx reuse) ≢ occupied)
target-free b ref d idx none h e c s = ((d, h, e, s.passed), λ x. cc (x, c))
target-free b ref d idx (some r) h e c s =
    let (k, lt, at_r, t) = s.reusable in
    ((k, omega arith, at_r, λ j p. s.passed j (omega arith)), λ x. cc (x, t))

module _ {b : Book} (v : IsValid b) where
  reach : (ref i : ℕ) → i < b.capacity → HasKey b ref i → IsReachable b ref i
  reach ref i h found = subst (λ r. IsReachable b r i) found.1 (v.placed i h found.0)

  -- `find` sees every resting order.
  pub seek_complete : (ref i : ℕ) → i < b.capacity → HasKey b ref i → seek b ref ≢ none
  seek_complete ref i h found =
      let (d, lt, e, p) = reach ref i h found in
      let shift : d ≡ 0 + d = omega arith in
      subst (λ k. find_loop b ref b.capacity k 0 ≢ none) (sym (home-at b v.masked ref))
        (find_loop_complete b v.masked ref b.capacity 0 0 d lt (subst (Passed b ref) shift p)
          (subst (HasKey b ref) (sym e ∙ ap (at b ref) shift) found))

  -- The reference is nowhere if the loop of `insert` came to a free slot.
  pub free-absent :
      (ref d idx : ℕ) (reuse : Option ℕ)
      → at b ref d ≡ idx
      → b.state idx ≡ empty
      → Scanned b ref d reuse
      → (i : ℕ) → i < b.capacity
      → ¬ HasKey b ref i
  free-absent ref d idx reuse e c s i h found =
      let (k, lt, at_i, p) = reach ref i h found in
      elim (Bool-cases (ltb k d)) [
        | inl q ↦ s.absent k (ltb→lt k d q) (subst (HasKey b ref) (sym at_i) found)
        | inr q ↦ elim (Bool-cases (k == d)) [
          | inl r ↦ let e' : k ≡ d = (==_iff k d).0 r in cc (e', at_i, e, c, found.0)
          | inr r ↦ p d (ground arith) (ap b.state e ∙ c)
        ]
      ]
