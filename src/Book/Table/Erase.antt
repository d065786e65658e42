-- ===== src/Book/Table/Erase.antt =====
-- `BookState::erase` against the abstract view: a tombstone keeps the chains behind it.
use tickpipe.Base.{
  ℕ, ◌<◌, ◌≡◌, refl, sym, ap, ◌∙◌, ◌≢◌, inl, inr, Bool, true, false, none, some, arith, ◌==◌,
  Bool-cases, subst, ==_iff, if◌then◌else◌, if_true, if_false, update, update_ne, ne_of_eq_false,
  dec64,
}
use tickpipe.Book.Table.{Book, Stats, empty, occupied, tombstone, seek, erase}
use tickpipe.Book.Table.Probe.{at, HasKey}
use tickpipe.Book.Table.Invariant.{IsValid, key}
use tickpipe.Book.Table.Lookup.{view, view-absent, view-cases, view-transfer}

module _ {b : Book} (v : IsValid b) (i : ℕ) (stats : Stats) (digest : ℕ) where
  -- `state_[idx] = TOMBSTONE`
  abbrev pub buried : Book
  buried = record b { state = update b.state i tombstone; stats = stats; digest = digest }

  other_slot : (j : ℕ) → buried.state j ≡ occupied → (j == i) ≡ false
  other_slot j o = elim (Bool-cases (j == i)) [ inl q ↦ ground arith | inr q ↦ q ]

  was_occupied : (j : ℕ) → buried.state j ≡ occupied → b.state j ≡ occupied
  was_occupied j o = sym (update_ne b.state tombstone (ne_of_eq_false (other_slot j o))) ∙ o

  still_full : (j : ℕ) → b.state j ≢ empty → buried.state j ≢ empty
  still_full j n = ground arith

  pub buried-IsValid : IsValid buried
  unfolding at
  buried-IsValid = record {
    masked = record {
      power = v.masked.power;
      capacity = v.masked.capacity;
      mask = v.masked.mask;
      nonempty = v.masked.nonempty;
    };
    placed = λ j p o.
        let (d, lt, e, way) = v.placed j p (was_occupied j o) in
        (d, lt, e, λ k q. still_full (at b (key b j) k) (way k q));
    unique =
        λ j k p q o o' same_key. v.unique j k p q (was_occupied j o) (was_occupied k o') same_key;
  }

  pub view-buried :
      (ref : ℕ)
      → i < b.capacity
      → HasKey b ref i
      → (r : ℕ) → view buried r ≡ (if r == ref then none else view b r)
  view-buried ref lt found r = elim (Bool-cases (r == ref)) [
    | inl q ↦
        let eq : r ≡ ref = (==_iff r ref).0 q in
        view-absent buried buried-IsValid.masked r (λ j p k.
          let at_i = v.unique j i p lt (was_occupied j k.0) found.0 (k.1 ∙ eq ∙ sym found.1) in
          ne_of_eq_false (other_slot j k.0) at_i)
        ∙ sym (if_true _ _ q)
    | inr q ↦
        view-transfer v buried-IsValid r refl
          (λ j k.
            let apart = λ (p : j ≡ i). ne_of_eq_false q (sym k.1 ∙ ap (key b) p ∙ found.1) in
            ((update_ne b.state tombstone apart ∙ k.0, k.1), refl))
          (λ j k. (was_occupied j k.0, k.1))
        ∙ sym (if_false _ _ q)
  ]

-- An `erase` that returned `r`.
pub record Erases (b : Book) (ref : ℕ) (r : Bool × Book) : Type 0 where
  pub valid : IsValid r.1
  pub erased : (q : ℕ) → view r.1 q ≡ (if q == ref then none else view b q)
  pub succeeds : (view b ref ≢ none) → r.0 ≡ true
  pub fails : view b ref ≡ none → r ≡ (false, b)

erase-none : (b : Book) (ref : ℕ) → seek b ref ≡ none → erase b ref ≡ (false, b)
unfolding erase
erase-none b ref s = ground arith

pub erase-some :
    (b : Book) (ref i n : ℕ)
    → seek b ref ≡ some (i, n)
    → erase b ref ≡ (
      true,
      record b {
        state = update b.state i tombstone;
        stats = record (b.stats) { live = dec64 b.stats.live };
      },
    )
unfolding erase
erase-some b ref i n s = ground arith

-- `erase` keeps a valid table valid, removes what stands under its reference and nothing else,
-- and returns true when the reference had an order; when it had none, the table stays as it was.
pub erase-Erases : {b : Book} (v : IsValid b) (ref : ℕ) → Erases b ref (erase b ref)
erase-Erases {b} v ref = elim (view-cases b v.masked ref) [
  | inl (e, s) ↦ subst (Erases b ref) (sym (erase-none b ref s)) (record {
    valid = v;
    erased = λ q. unchanged q e;
    succeeds = λ h. absurd (h e);
    fails = λ _. refl;
  })
  | inr (i, n, s, lt, found, e) ↦
      let stats = record (b.stats) { live = dec64 b.stats.live } in
      subst (Erases b ref) (sym (erase-some b ref i n s)) (record {
        valid = buried-IsValid v i stats b.digest;
        erased = view-buried v i stats b.digest ref lt found;
        succeeds = λ _. refl;
        fails = λ h. cc (h, e);
      })
]
  where
    unchanged : (q : ℕ) → view b ref ≡ none → view b q ≡ (if q == ref then none else view b q)
    unchanged q e = elim (Bool-cases (q == ref)) [
      | inl p ↦ ap (view b) ((==_iff q ref).0 p) ∙ e ∙ sym (if_true _ _ p)
      | inr p ↦ sym (if_false _ _ p)
    ]
