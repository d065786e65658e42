-- ===== src/Book/Table/Update.antt =====
-- The two writes of `insert`: over an order with the same reference, and into a free slot.
use tickpipe.Base.{
  ℕ, ◌<◌, ◌≡◌, refl, sym, ap, ◌∙◌, ◌≢◌, inl, inr, false, some, arith, ◌==◌, Bool-cases, subst,
  ==_iff, if◌then◌else◌, update, update_self, update_ne, if_true, if_false, ne_of_eq_false,
}
use tickpipe.Book.Table.{Book, RestingOrder, Stats, empty, occupied}
use tickpipe.Book.Table.Probe.{at, HasKey}
use tickpipe.Book.Table.Invariant.{IsValid, IsReachable, key}
use tickpipe.Book.Table.Lookup.{view, view-held, view-transfer}

-- The counters and the digest do not matter to the table.
module _ {b : Book} (v : IsValid b) (stats : Stats) (digest : ℕ) where
  pub counted-IsValid : IsValid (record b { stats = stats; digest = digest })
  unfolding at
  counted-IsValid = record {
    masked = record {
      power = v.masked.power;
      capacity = v.masked.capacity;
      mask = v.masked.mask;
      nonempty = v.masked.nonempty;
    };
    placed = v.placed;
    unique = v.unique;
  }

  pub view-counted : (r : ℕ) → view (record b { stats = stats; digest = digest }) r ≡ view b r
  view-counted r = view-transfer v counted-IsValid r refl (λ i k. (k, refl)) (λ i k. k)

module _ {b : Book} (v : IsValid b) (ref i : ℕ) (ro : RestingOrder) (e : ro.order_ref ≡ ref)
    (h : i < b.capacity) (stats : Stats) (digest : ℕ) where
  -- `slots_[idx] = ro`, where the slot holds the same reference.
  abbrev pub overwritten : Book
  overwritten = record b { slots = update b.slots i ro; stats = stats; digest = digest }

  key-overwritten : HasKey b ref i → (j : ℕ) → key overwritten j ≡ key b j
  key-overwritten found j = ground (arith, ==_iff j i)

  pub overwritten-IsValid : HasKey b ref i → IsValid overwritten
  unfolding at
  overwritten-IsValid found = record {
    masked = record {
      power = v.masked.power;
      capacity = v.masked.capacity;
      mask = v.masked.mask;
      nonempty = v.masked.nonempty;
    };
    placed =
        λ j p o. subst (λ r. IsReachable b r j) (sym (key-overwritten found j)) (v.placed j p o);
    unique = λ j k p q o o' same_key.
        v.unique j k p q o o' (sym (key-overwritten found j) ∙ same_key ∙ key-overwritten found k);
  }

  pub view-overwritten :
      HasKey b ref i → (r : ℕ) → view overwritten r ≡ (if r == ref then some ro else view b r)
  view-overwritten found r = elim (Bool-cases (r == ref)) [
    | inl q ↦
        let eq : r ≡ ref = (==_iff r ref).0 q in
        view-held (overwritten-IsValid found) r i h
          (found.0, key-overwritten found i ∙ found.1 ∙ sym eq)
        ∙ ap some (update_self b.slots i ro)
        ∙ sym (if_true _ _ q)
    | inr q ↦
        let apart = λ (j : ℕ) (k : HasKey b r j) (p : j ≡ i).
          ne_of_eq_false q (sym k.1 ∙ ap (key b) p ∙ found.1) in
        view-transfer v (overwritten-IsValid found) r refl
          (λ j k. ((k.0, key-overwritten found j ∙ k.1), update_ne b.slots ro (apart j k)))
          (λ j k. (k.0, sym (key-overwritten found j) ∙ k.1))
        ∙ sym (if_false _ _ q)
  ]

  -- `slots_[idx] = ro; state_[idx] = OCCUPIED`
  abbrev pub placed_at : Book
  placed_at = record b {
    slots = update b.slots i ro;
    state = update b.state i occupied;
    stats = stats;
    digest = digest;
  }

  module _ (way : IsReachable b ref i) (unused : b.state i ≢ occupied)
      (absent : (j : ℕ) → j < b.capacity → ¬ HasKey b ref j) where
    still_full : (j : ℕ) → b.state j ≢ empty → placed_at.state j ≢ empty
    still_full j n = elim (Bool-cases (j == i)) [ inl q ↦ ground arith | inr q ↦ ground arith ]

    way_after : (r j : ℕ) → IsReachable b r j → IsReachable placed_at r j
    unfolding at
    way_after r j (d, lt, e', p) = (d, lt, e', λ k q. still_full (at b r k) (p k q))

    own_key : key placed_at i ≡ ref
    own_key = ap (λ (o : RestingOrder). o.order_ref) (update_self b.slots i ro) ∙ e

    other_slot : (j : ℕ) → (j == i) ≡ false → placed_at.slots j ≡ b.slots j
    other_slot j q = update_ne b.slots ro (ne_of_eq_false q)

    other_key : (j : ℕ) → (j == i) ≡ false → key placed_at j ≡ key b j
    other_key j q = ap (λ (o : RestingOrder). o.order_ref) (other_slot j q)

    other_state : (j : ℕ) → (j == i) ≡ false → placed_at.state j ≡ b.state j
    other_state j q = update_ne b.state occupied (ne_of_eq_false q)

    there : (r j : ℕ) → HasKey b r j → HasKey placed_at r j × (placed_at.slots j ≡ b.slots j)
    there r j k = elim (Bool-cases (j == i)) [
      | inl q ↦ absurd (unused (ap b.state (sym ((==_iff j i).0 q)) ∙ k.0))
      | inr q ↦ ((other_state j q ∙ k.0, other_key j q ∙ k.1), other_slot j q)
    ]

    back : (r j : ℕ) → r ≢ ref → HasKey placed_at r j → HasKey b r j
    back r j n k = elim (Bool-cases (j == i)) [
      | inl q ↦ absurd (n (sym k.1 ∙ ap (key placed_at) ((==_iff j i).0 q) ∙ own_key))
      | inr q ↦ (sym (other_state j q) ∙ k.0, sym (other_key j q) ∙ k.1)
    ]

    pub placed_at-IsValid : IsValid placed_at
    unfolding at
    placed_at-IsValid = record {
      masked = record {
        power = v.masked.power;
        capacity = v.masked.capacity;
        mask = v.masked.mask;
        nonempty = v.masked.nonempty;
      };
      placed = λ j p o. elim (Bool-cases (j == i)) [
        | inl q ↦
            let at_i : j ≡ i = (==_iff j i).0 q in
            subst (λ k. IsReachable placed_at (key placed_at k) k) (sym at_i)
              (subst (λ k. IsReachable placed_at k i) (sym own_key) (way_after ref i way))
        | inr q ↦
            subst (λ k. IsReachable placed_at k j) (sym (other_key j q))
              (way_after (key b j) j (v.placed j p (sym (other_state j q) ∙ o)))
      ];
      unique = λ j k p p' o o' same_key. elim (Bool-cases (j == i)) [
        | inl q ↦ elim (Bool-cases (k == i)) [
          | inl q' ↦ (==_iff j i).0 q ∙ sym ((==_iff k i).0 q')
          | inr q' ↦ absurd (
              absent k p' (
                sym (other_state k q') ∙ o',
                sym (other_key k q')
                    ∙ sym same_key
                    ∙ ap (key placed_at) ((==_iff j i).0 q)
                    ∙ own_key,
              ))
        ]
        | inr q ↦ elim (Bool-cases (k == i)) [
          | inl q' ↦ absurd (
              absent j p (
                sym (other_state j q) ∙ o,
                sym (other_key j q) ∙ same_key ∙ ap (key placed_at) ((==_iff k i).0 q') ∙ own_key,
              ))
          | inr q' ↦
              v.unique j k p p' (sym (other_state j q) ∙ o) (sym (other_state k q') ∙ o')
                (sym (other_key j q) ∙ same_key ∙ other_key k q')
        ]
      ];
    }

    pub view-placed_at : (r : ℕ) → view placed_at r ≡ (if r == ref then some ro else view b r)
    view-placed_at r = elim (Bool-cases (r == ref)) [
      | inl q ↦
          view-held placed_at-IsValid r i h
            (update_self b.state i occupied, own_key ∙ sym ((==_iff r ref).0 q))
          ∙ ap some (update_self b.slots i ro)
          ∙ sym (if_true _ _ q)
      | inr q ↦
          view-transfer v placed_at-IsValid r refl (there r) (λ j k. back r j (ne_of_eq_false q) k)
          ∙ sym (if_false _ _ q)
    ]
