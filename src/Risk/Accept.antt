-- ===== src/Risk/Accept.antt =====
-- What an order that `RiskEngine::check` accepts fulfils.
use tickpipe.Base.{
  ℕ, ◌≤◌, ◌<◌, ◌≡◌, refl, sym, ap, ◌≢◌, ◌↔◌, ◌⊎◌, inl, inr, Bool, true, false, ◌||◌, arith, ltb,
  leb, ◌==◌, Bool-cases, ltb→lt, if_true, if_false, not_both, subst, ℤ, pos, ◌+ℤ◌, ◌-ℤ◌, ◌≤ℤ◌,
  ltb_ℤ, inc64,
}
use tickpipe.Itch.Order.{Order}
use tickpipe.Risk.{
  RiskEngine, RiskResult, accepted, exceeds_max_size, exceeds_position, price_out_of_band,
  invalid_order, max_order_size, max_net_position, max_price_band, find_or_create, reject, distance,
  signed_quantity, check_position, check_entry, check,
}

unfoldable pub is_accepted : RiskResult → Bool
is_accepted accepted = true
is_accepted exceeds_max_size = false
is_accepted exceeds_position = false
is_accepted price_out_of_band = false
is_accepted invalid_order = false

abbrev pub low_limit : ℤ
low_limit = pos 0 -ℤ pos max_net_position

-- A position within the limit on both sides.
pub record InLimit (p : ℤ) : Type 0 where
  pub above : low_limit ≤ℤ p
  pub below : p ≤ℤ pos max_net_position

-- What the checks on entry `idx` let through.
pub record Passes (r : RiskEngine) (idx : ℕ) (o : Order) : Type 0 where
  pub band : 0 < r.ref_prices idx → distance o.price (r.ref_prices idx) < max_price_band
  pub limit : InLimit ((r.positions idx).net_position +ℤ signed_quantity o)

abbrev pub count_accepted : RiskEngine → RiskEngine
count_accepted r = record r { accepted_count = inc64 r.accepted_count }

abbrev pub count_rejected : RiskEngine → RiskEngine
count_rejected r = record r { rejected_count = inc64 r.rejected_count }

-- Both ways out of a check on the entry.
unfoldable pub Decides : (r : RiskEngine) → ℕ → Order → RiskResult × RiskEngine → Type 0
Decides r idx o (why, after) =
    ((why ≡ accepted) × (after ≡ count_accepted r) × Passes r idx o)
    ⊎ ((why ≢ accepted) × (after ≡ count_rejected r) × ((Passes r idx o) → ⊥))

outside : ℤ → Bool
outside p = ltb_ℤ (pos max_net_position) p || ltb_ℤ p low_limit

far_lem : (n : ℕ) → leb max_price_band n ≡ true → n < max_price_band → ⊥
far_lem n h lt = ground arith

near_lem : (n : ℕ) → leb max_price_band n ≡ false → n < max_price_band
near_lem n h = ground arith

-- The test of the code is the limit.
not_outside : (p : ℤ) → outside p ≡ false → InLimit p
unfolding outside
not_outside p h = record { above = ground arith; below = ground arith }

InLimit-outside : (p : ℤ) → InLimit p → outside p ≡ false
unfolding outside
InLimit-outside p h = ground (arith, h.above, h.below)

rejects :
    (r : RiskEngine) (idx : ℕ) (o : Order) (why : RiskResult)
    → is_accepted why ≡ false
    → (Passes r idx o → ⊥)
    → Decides r idx o (reject why r)
unfolding Decides is_accepted
rejects r idx o why h fails = inr (λ e. not_both (ap is_accepted e) h, refl, fails)

check_position_lem :
    (r : RiskEngine) (idx : ℕ) (o : Order)
    → (0 < r.ref_prices idx → distance o.price (r.ref_prices idx) < max_price_band)
    → Decides r idx o (check_position r idx o)
unfolding check_position Decides outside is_accepted
check_position_lem r idx o band =
    let p = (r.positions idx).net_position +ℤ signed_quantity o in
    elim (Bool-cases (outside p)) [
      | inl h ↦ subst (Decides r idx o) (sym (if_true _ _ h)) (
          rejects r idx o exceeds_position refl
            (λ passes. not_both h (InLimit-outside p passes.limit)))
      | inr h ↦
          subst (Decides r idx o) (sym (if_false _ _ h))
            (inl (refl, refl, record { band = band; limit = not_outside p h }))
    ]

check_entry_lem : (r : RiskEngine) (idx : ℕ) (o : Order) → Decides r idx o (check_entry r idx o)
unfolding check_entry is_accepted
check_entry_lem r idx o =
    let ref = r.ref_prices idx in
    elim (Bool-cases (ltb 0 ref)) [
      | inr h ↦
          subst (Decides r idx o) (sym (if_false _ _ h))
            (check_position_lem r idx o (λ lt. absurd (ground arith)))
      | inl h ↦
          subst (Decides r idx o) (sym (if_true _ _ h))
            (elim (Bool-cases (leb max_price_band (distance o.price ref))) [
              | inl far ↦ subst (Decides r idx o) (sym (if_true _ _ far)) (
                  rejects r idx o price_out_of_band refl
                    (λ passes. far_lem _ far (passes.band (ltb→lt _ _ h))))
              | inr near ↦
                  subst (Decides r idx o) (sym (if_false _ _ near))
                    (check_position_lem r idx o (λ lt. near_lem _ near))
            ])
    ]

-- Everything that an order is checked for: on the table `find_or_create` returns, and the entry.
pub record Admits (r : RiskEngine) (o : Order) : Type 0 where
  pub some_shares : 0 < o.quantity
  pub some_price : 0 < o.price
  pub small : o.quantity ≤ max_order_size
  pub passes : Passes (find_or_create r o.stock).1 (find_or_create r o.stock).0 o

Checked : (r : RiskEngine) → Order → RiskResult × RiskEngine → Type 0
Checked r o (why, after) =
    ((why ≡ accepted) × (after ≡ count_accepted (find_or_create r o.stock).1) × Admits r o)
    ⊎ ((why ≢ accepted) × (Admits r o → ⊥))

refuses :
    (r : RiskEngine) (o : Order) (why : RiskResult)
    → is_accepted why ≡ false
    → (Admits r o → ⊥)
    → Checked r o (reject why r)
unfolding Checked is_accepted
refuses r o why h fails = inr (λ e. not_both (ap is_accepted e) h, fails)

empty_lem : (q p : ℕ) → (q == 0 || p == 0) ≡ true → 0 < q → 0 < p → ⊥
empty_lem q p h hq hp = ground arith

big_lem : (q : ℕ) → ltb max_order_size q ≡ true → q ≤ max_order_size → ⊥
big_lem q h h' = ground arith

-- The order passed the two checks on itself: the entry decides.
entry_lem :
    (r : RiskEngine) (o : Order) (d : RiskResult × RiskEngine)
    → 0 < o.quantity
    → 0 < o.price
    → o.quantity ≤ max_order_size
    → Decides (find_or_create r o.stock).1 (find_or_create r o.stock).0 o d
    → Checked r o d
unfolding Checked Decides
entry_lem r o (why, after) q p s (inl (e, e', passes)) =
    inl (e, e', record { some_shares = q; some_price = p; small = s; passes = passes })
entry_lem r o (why, after) q p s (inr (n, e', fails)) = inr (n, λ a. fails a.passes)

nonempty_lem : (q p : ℕ) → (q == 0 || p == 0) ≡ false → (0 < q) × (0 < p)
nonempty_lem q p h = (ground arith, ground arith)

not_big_lem : (q : ℕ) → ltb max_order_size q ≡ false → q ≤ max_order_size
not_big_lem q h = ground arith

check_lem : (r : RiskEngine) (o : Order) → Checked r o (check r o)
unfolding check Checked Decides is_accepted
check_lem r o = elim (Bool-cases (o.quantity == 0 || o.price == 0)) [
  | inl h ↦ subst (Checked r o) (sym (if_true _ _ h)) (
      refuses r o invalid_order refl
        (λ a. empty_lem o.quantity o.price h a.some_shares a.some_price))
  | inr h ↦
      subst (Checked r o) (sym (if_false _ _ h))
        (elim (Bool-cases (ltb max_order_size o.quantity)) [
          | inl big ↦
              subst (Checked r o) (sym (if_true _ _ big))
                (refuses r o exceeds_max_size refl (λ a. big_lem _ big a.small))
          | inr small ↦ subst (Checked r o) (sym (if_false _ _ small)) (
              entry_lem r o _ (nonempty_lem _ _ h).0 (nonempty_lem _ _ h).1 (not_big_lem _ small)
                (check_entry_lem _ _ o))
        ])
]

-- `check` accepts an order exactly when it is for 1 to 10000 shares at a price other than 0, its
-- price is less than 500000 from a known reference price, and the position on the entry that the
-- code finds for its symbol stays within 100000 on both sides if all of it is filled.
pub check-accepted_iff : (r : RiskEngine) (o : Order) → ((check r o).0 ≡ accepted) ↔ Admits r o
unfolding Checked
check-accepted_iff r o = elim (check_lem r o) [
  | inl (e, e', a) ↦ (λ h. a, λ h. e)
  | inr (n, fails) ↦ (λ h. absurd (n h), λ a. absurd (fails a))
]

pub check-after :
    (r : RiskEngine) (o : Order)
    → (check r o).0 ≡ accepted
    → (check r o).1 ≡ count_accepted (find_or_create r o.stock).1
unfolding Checked
check-after r o h = elim (check_lem r o) [ inl (e, e', a) ↦ e' | inr (n, fails) ↦ absurd (n h) ]
