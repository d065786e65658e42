-- ===== src/Risk/Limits.antt =====
-- The entry that `RiskEngine::find_or_create` returns for a symbol.
use tickpipe.Base.{
  ℕ, zero, suc, ◌+◌, ◌≤◌, ◌<◌, ◌≡◌, refl, sym, ap, ◌∙◌, ◌≢◌, ◌⊎◌, inl, inr, Bool, true, false, List,
  arith, ltb, ◌==◌, Bool-cases, ltb→lt, if_true, if_false, not_both, lt→ltb, update_self, update_ne,
  subst, pos, ==_iff,
}
use tickpipe.Itch.Order.{same_stock, same_stock_refl}
use tickpipe.Risk.{RiskEngine, PositionEntry, max_instruments, scan, create, find_or_create}

-- Whether entry `k` is for this symbol.
abbrev pub matches : RiskEngine → List ℕ → ℕ → Bool
matches r stock k = same_stock (r.positions k).stock stock

record Scans (r : RiskEngine) (stock : List ℕ) (left i j : ℕ) : Type 0 where
  from : i ≤ j
  upto : j ≤ i + left
  hit : j < i + left → matches r stock j ≡ true
  first : (k : ℕ) → i ≤ k → k < j → matches r stock k ≡ false

scan_lem :
    (r : RiskEngine) (stock : List ℕ) (left i : ℕ) → Scans r stock left i (scan r stock left i)
unfolding scan
scan_lem r stock zero i = record {
  from = omega arith;
  upto = omega arith;
  hit = λ h. absurd (omega arith);
  first = λ k h h'. absurd (omega arith);
}
scan_lem r stock (suc left) i = elim (Bool-cases (matches r stock i)) [
  | inl m ↦ subst (Scans r stock (suc left) i) (ground arith) (record {
    from = omega arith;
    upto = omega arith;
    hit = λ h. m;
    first = λ k h h'. absurd (omega arith);
  })
  | inr m ↦
      let s = scan_lem r stock left (i + 1) in
      subst (Scans r stock (suc left) i) (ground arith) (record {
        from = omega (arith, s.from);
        upto = omega (arith, s.upto);
        hit = λ h. s.hit (omega arith);
        first = λ k h h'. elim (Bool-cases (k == i)) [
          | inl e ↦ subst (λ n. matches r stock n ≡ false) (sym ((==_iff k i).0 e)) m
          | inr e ↦ s.first k (ground arith) h'
        ];
      })
]

pub record IsValid (r : RiskEngine) : Type 0 where
  pub few : r.instrument_count ≤ max_instruments

-- Entry `j` is the first for this symbol; the table is full of other symbols.
pub record IsFirst (r : RiskEngine) (stock : List ℕ) (j : ℕ) : Type 0 where
  pub used : j < r.instrument_count
  pub match : matches r stock j ≡ true
  pub before : (k : ℕ) → k < j → matches r stock k ≡ false

pub record IsFull (r : RiskEngine) (stock : List ℕ) : Type 0 where
  pub count : r.instrument_count ≡ max_instruments
  pub none_there : (k : ℕ) → k < max_instruments → matches r stock k ≡ false

-- What `find_or_create` returns: the entry of the symbol, or entry 0 when there is none and no room.
pub record Finds (r : RiskEngine) (stock : List ℕ) (f : ℕ × RiskEngine) : Type 0 where
  pub valid : IsValid f.1
  pub in_table : f.0 < max_instruments
  pub found : IsFirst f.1 stock f.0 ⊎ ((f ≡ (0, r)) × IsFull r stock)
  pub others : (k : ℕ) → k ≢ f.0 → f.1.positions k ≡ r.positions k
  pub kept : (f.1.positions f.0 ≡ r.positions f.0) ⊎ ((f.1.positions f.0).net_position ≡ pos 0)
  pub prices : f.1.ref_prices ≡ r.ref_prices

create_lem :
    {r : RiskEngine} (stock : List ℕ)
    → IsValid r
    → ((k : ℕ) → k < r.instrument_count → matches r stock k ≡ false)
    → Finds r stock (create r stock)
unfolding create
create_lem {r} stock v none_there = elim (Bool-cases (ltb r.instrument_count max_instruments)) [
  | inl h ↦ subst (Finds r stock) (sym (if_true _ _ h)) (record {
    valid = record { few = ground arith };
    in_table = ltb→lt _ _ h;
    found = inl (record {
      used = omega arith;
      match =
          subst (λ (p : PositionEntry). same_stock p.stock stock ≡ true)
            (sym (update_self r.positions r.instrument_count _)) (same_stock_refl stock);
      before = λ k lt.
          subst (λ (p : PositionEntry). same_stock p.stock stock ≡ false)
            (sym (update_ne r.positions _ (ground arith))) (none_there k lt);
    });
    others = λ k n. update_ne r.positions _ n;
    kept =
        inr (
          ap (λ (p : PositionEntry). p.net_position)
            (update_self r.positions r.instrument_count _));
    prices = refl;
  })
  | inr h ↦ subst (Finds r stock) (sym (if_false _ _ h)) (record {
    valid = v;
    in_table = omega arith;
    found = inr (
      refl,
      record {
        count = ground (arith, v.few);
        none_there = λ k lt. none_there k (ground (arith, v.few));
      },
    );
    others = λ k n. refl;
    kept = inl refl;
    prices = refl;
  })
]

-- With at most 128 instruments in use, `find_or_create` returns an index into the table. The
-- entry there is the first for the symbol, unless the table is full of other symbols: then it is
-- entry 0, and nothing changes. No other entry and no reference price changes.
pub find_or_create_lem :
    {r : RiskEngine} (stock : List ℕ) → IsValid r → Finds r stock (find_or_create r stock)
unfolding find_or_create
find_or_create_lem {r} stock v =
    let i = scan r stock r.instrument_count 0 in
    let s = scan_lem r stock r.instrument_count 0 in
    elim (Bool-cases (ltb i r.instrument_count)) [
      | inl h ↦ subst (Finds r stock) (sym (if_true _ _ h)) (record {
        valid = v;
        in_table = omega (arith, ltb→lt _ _ h, v.few);
        found = inl (record {
          used = ltb→lt _ _ h;
          match = s.hit (omega (arith, ltb→lt _ _ h));
          before = λ k lt. s.first k (omega arith) lt;
        });
        others = λ k n. refl;
        kept = inl refl;
        prices = refl;
      })
      | inr h ↦
          subst (Finds r stock) (sym (if_false _ _ h))
            (create_lem stock v (λ k lt. s.first k (omega arith) (ground arith)))
    ]

-- The search goes by the symbols alone, so it finds the same entry again.
pub find_or_create-IsFirst :
    {r : RiskEngine} {stock : List ℕ} {j : ℕ} → IsFirst r stock j → find_or_create r stock ≡ (j, r)
unfolding find_or_create
find_or_create-IsFirst {r} {stock} {j} f =
    let i = scan r stock r.instrument_count 0 in
    let s = scan_lem r stock r.instrument_count 0 in
    let not_after : ¬ (j < i) = λ lt. not_both f.match (s.first j (omega arith) lt) in
    let not_before : ¬ (i < j) = λ lt. not_both (s.hit (omega (arith, f.used))) (f.before i lt) in
    let same : i ≡ j = omega (arith, not_after, not_before) in
    let used : ltb i r.instrument_count ≡ true = lt→ltb _ _ (omega (arith, f.used, same)) in
    if_true _ _ used ∙ ap (λ n. (n, r)) same

pub find_or_create-IsFull :
    {r : RiskEngine} {stock : List ℕ} → IsFull r stock → find_or_create r stock ≡ (0, r)
unfolding find_or_create create
find_or_create-IsFull {r} {stock} f =
    let i = scan r stock r.instrument_count 0 in
    let s = scan_lem r stock r.instrument_count 0 in
    let not_in : ¬ (i < r.instrument_count) =
      λ lt. not_both (s.hit (omega arith)) (f.none_there i (omega (arith, f.count))) in
    let missed : ltb i r.instrument_count ≡ false = ground (arith, not_in) in
    let full : ltb r.instrument_count max_instruments ≡ false = ground (arith, f.count) in
    if_false _ _ missed ∙ if_false _ _ full
