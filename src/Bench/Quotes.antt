-- ===== src/Bench/Quotes.antt =====
-- The synthetic quotes and trades of bench/validate_microstructure.cpp, and the integer metrics on
-- them. The double-precision reference beside them is left out.
use tickpipe.Base.{
  ℕ, zero, suc, ◌+◌, ◌-◌, ◌*◌, ◌%◌, ◌^◌, ◌≤◌, ◌<◌, ◌≡◌, refl, sym, subst, ◌∙◌, Bool, false, arith,
  max, leb, ltb, ◌==◌, ◌||◌, if◌then◌else◌, if_both, if_false, u32, u64, inc64, pos, ℤ, not, ◌+ℤ◌,
  ◌-ℤ◌,
}
use tickpipe.Micro.{
  Metrics, Microstructure, reset, imbalance, add_return, price_update, flow_update, on_book,
  add_impact, spread_of, on_trade,
}
use tickpipe.Micro.Prices.{Shows, on_book_lem}
use tickpipe.Bench.{lcg}

pub record Harness : Type 0 where
  pub fx : Microstructure
  pub bid : ℕ
  pub ask : ℕ
  pub seed : ℕ

unfoldable pub start : Harness
start = record { fx = reset; bid = 2_180_000; ask = 2_180_100; seed = 20_190_730 }

-- The quote of a round. The bid moves by -100 to 100; where it would go below 0 it is set to the
-- least bid in any case.
unfoldable pub quote : Harness → Harness
quote h =
    let s1 = lcg h.seed in
    let s2 = lcg s1 in
    let s3 = lcg s2 in
    let s4 = lcg s3 in
    let bid = u32 (max 1_000_000 (h.bid + s1 % 201 - 100)) in
    let ask = u32 (bid + 100 + s2 % 400) in
    record {
      fx = on_book h.fx bid (1 + s3 % 5000) ask (1 + s4 % 5000);
      bid = bid;
      ask = ask;
      seed = s4;
    }

-- One round in four has a trade at one of the two prices.
unfoldable pub take_trade : Harness → Harness
take_trade h =
    let s1 = lcg h.seed in
    let s2 = lcg s1 in
    let s3 = lcg s2 in
    let px = if s2 % 2 == 0 then h.bid else h.ask in
    if s1 % 4 == 0
    then record h { fx = on_trade h.fx px (1 + s3 % 800) (px == h.ask); seed = s3 }
    else record h { seed = s1 }

unfoldable pub rounds : ℕ → Harness → Harness
rounds zero h = h
rounds (suc n) h = rounds n (take_trade (quote h))

-- The books that were counted, and those of them that were counted as degenerate.
record Counts (updates : ℕ) (m : Metrics) : Type 0 where
  all : m.book_updates ≡ updates
  degenerate : m.degenerate_books ≡ 0

Counts-add_return :
    {n : ℕ} (s : Microstructure) (mid : ℕ) → Counts n s.m → Counts n (add_return s mid).m
unfolding add_return
Counts-add_return s mid c = record { all = c.all; degenerate = c.degenerate }

Counts-flow_update :
    {n : ℕ} (s : Microstructure) (b bq a aq : ℕ)
    → Counts n s.m
    → Counts n (flow_update s b bq a aq).m
unfolding flow_update
Counts-flow_update {n} s b bq a aq c =
    let P : Microstructure → Type 0 = λ t. Counts n t.m in
    let counted = record s { m = record (s.m) { ofi = s.m.ofi +ℤ imbalance s b bq a aq } } in
    let kept : P counted = record { all = c.all; degenerate = c.degenerate } in
    if_both P s.have_prev (if_both P _ (Counts-add_return counted (b + a) kept) kept) c

on_book-Counts :
    (n : ℕ) (s : Microstructure) (b bq a aq : ℕ)
    → n + 1 < 2 ^ 64
    → 0 < b
    → 0 < bq
    → 0 < aq
    → b < a
    → Counts n s.m
    → Counts (n + 1) (on_book s b bq a aq).m
unfolding on_book price_update
on_book-Counts n s b bq a aq room pb pbq paq lt c =
    let s1 = price_update s b bq a aq in
    let c1 : Counts (n + 1) s1.m = record {
      all = omega (arith, c.all);
      degenerate = c.degenerate;
    } in
    let c2 = Counts-flow_update s1 b bq a aq c1 in
    let two_sided : (b == 0 || a == 0 || bq == 0 || aq == 0) ≡ false = ground arith in
    let uncrossed : leb a b ≡ false = ground arith in
    subst (λ (t : Microstructure). Counts (n + 1) t.m)
      (sym (if_false _ _ two_sided ∙ if_false _ _ uncrossed)) c2

-- A trade leaves the prices and the counts of the books.
record Same (m m' : Metrics) : Type 0 where
  micro : m'.microprice_1e8 ≡ m.microprice_1e8
  mid : m'.mid_1e8 ≡ m.mid_1e8
  gap : m'.micro_minus_mid_1e8 ≡ m.micro_minus_mid_1e8
  all : m'.book_updates ≡ m.book_updates
  degenerate : m'.degenerate_books ≡ m.degenerate_books

same : (m : Metrics) → Same m m
same m = record { micro = refl; mid = refl; gap = refl; all = refl; degenerate = refl }

add_impact-Same :
    (s : Microstructure) (mid : ℕ) (v : ℤ) (m : Metrics)
    → Same m s.m
    → Same m (add_impact s mid v).m
unfolding add_impact
add_impact-Same s mid v m e =
    if_both (λ (t : Microstructure). Same m t.m) _
      (record { micro = e.micro; mid = e.mid; gap = e.gap; all = e.all; degenerate = e.degenerate })
      e

on_trade-Same :
    (s : Microstructure) (px qty : ℕ) (buyer : Bool) → Same s.m (on_trade s px qty buyer).m
unfolding on_trade
on_trade-Same s px qty buyer =
    let P : Microstructure → Type 0 = λ t. Same s.m t.m in
    let mid_x2 = s.pb + s.pa in
    let v = if buyer then pos qty else pos 0 -ℤ pos qty in
    let s1 = record s {
      m = record (s.m) {
        trades = inc64 s.m.trades;
        effective_spread_sum_1e4 = u64 (s.m.effective_spread_sum_1e4 + spread_of s px);
        effective_spread_n = inc64 s.m.effective_spread_n;
      };
    } in
    let s2 = if ltb 0 s.prev_trade_mid_x2 then add_impact s1 mid_x2 v else s1 in
    let counted : P s1 = record {
      micro = refl;
      mid = refl;
      gap = refl;
      all = refl;
      degenerate = refl;
    } in
    if_both P (not s.have_prev || s.pb == 0 || s.pa == 0) {x = s}
      {y = record s2 { prev_trade_mid_x2 = mid_x2 }} (same s.m)
      (if_both P (ltb 0 s.prev_trade_mid_x2) (add_impact-Same s1 mid_x2 v s.m counted) counted)

Shows-Same : {b a : ℕ} (m m' : Metrics) → Same m m' → Shows b a m → Shows b a m'
Shows-Same m m' e h = record {
  price = h.price;
  microprice = e.micro ∙ h.microprice;
  low = h.low;
  high = h.high;
  mid = e.mid ∙ h.mid;
  gap = e.gap ∙ h.gap;
}

-- The state behind `n` rounds.
pub record IsSound (n : ℕ) (h : Harness) : Type 0 where
  pub low : 1_000_000 ≤ h.bid
  pub high : h.bid ≤ 2_180_000 + 100 * n
  pub spread : h.bid + 100 ≤ h.ask
  pub narrow : h.ask ≤ h.bid + 499
  pub updates : h.fx.m.book_updates ≡ n
  pub degenerate : h.fx.m.degenerate_books ≡ 0
  pub shows : 0 < n → Shows h.bid h.ask h.fx.m

quote-IsSound : (n : ℕ) (h : Harness) → n < 1_300_000 → IsSound n h → IsSound (n + 1) (quote h)
unfolding quote
quote-IsSound n h few i =
    let s1 = lcg h.seed in
    let s2 = lcg s1 in
    let s3 = lcg s2 in
    let s4 = lcg s3 in
    let bid = u32 (max 1_000_000 (h.bid + s1 % 201 - 100)) in
    let ask = u32 (bid + 100 + s2 % 400) in
    let low : 1_000_000 ≤ bid = omega (arith, i.high) in
    let high : bid ≤ 2_180_000 + 100 * (n + 1) = omega (arith, i.high) in
    let spread : bid + 100 ≤ ask = omega (arith, high) in
    let narrow : ask ≤ bid + 499 = omega (arith, high) in
    let c =
      on_book-Counts n h.fx bid (1 + s3 % 5000) ask (1 + s4 % 5000) (omega arith)
        (omega (arith, low)) (omega arith) (omega arith) (omega (arith, spread))
        (record { all = i.updates; degenerate = i.degenerate }) in
    let book =
      on_book_lem h.fx bid (1 + s3 % 5000) ask (1 + s4 % 5000) (omega (arith, low)) (omega arith)
        (omega arith) (omega (arith, spread)) in
    record {
      low = low;
      high = high;
      spread = spread;
      narrow = narrow;
      updates = c.all;
      degenerate = c.degenerate;
      shows = λ _. book.0;
    }

take_trade-IsSound : (n : ℕ) (h : Harness) → IsSound n h → IsSound n (take_trade h)
unfolding take_trade
take_trade-IsSound n h i =
    let s2 = lcg (lcg h.seed) in
    let px = if s2 % 2 == 0 then h.bid else h.ask in
    let e = on_trade-Same h.fx px (1 + lcg s2 % 800) (px == h.ask) in
    if_both (IsSound n) _
      (record {
        low = i.low;
        high = i.high;
        spread = i.spread;
        narrow = i.narrow;
        updates = e.all ∙ i.updates;
        degenerate = e.degenerate ∙ i.degenerate;
        shows = λ pos. Shows-Same h.fx.m _ e (i.shows pos);
      })
      (record {
        low = i.low;
        high = i.high;
        spread = i.spread;
        narrow = i.narrow;
        updates = i.updates;
        degenerate = i.degenerate;
        shows = i.shows;
      })

rounds-IsSound :
    (n done : ℕ) (h : Harness)
    → done + n ≤ 1_300_000
    → IsSound done h
    → IsSound (done + n) (rounds n h)
unfolding rounds
rounds-IsSound zero done h few i = subst (λ (k : ℕ). IsSound k h) {x = done} (omega arith) i
rounds-IsSound (suc n) done h few i =
    subst (λ (k : ℕ). IsSound k (rounds n (take_trade (quote h)))) {x = done + 1 + n} (omega arith)
      (rounds-IsSound n (done + 1) (take_trade (quote h)) (omega arith)
        (take_trade-IsSound (done + 1) (quote h) (quote-IsSound done h (omega arith) i)))

-- After `n` rounds of the harness, 1300000 at most, the bid is 1000000 or more and at most 100
-- for each round above its start, and the ask is 100 to 499 above the bid; all `n` books are
-- counted and none as degenerate; after the first round the metrics show the mid of the last
-- quote and a microprice between its bid and its ask.
pub rounds_lem : (n : ℕ) → n ≤ 1_300_000 → IsSound n (rounds n start)
unfolding start reset
rounds_lem n few =
    subst (λ (k : ℕ). IsSound k (rounds n start)) {x = 0 + n} (omega arith)
      (rounds-IsSound n 0 start (omega arith) (record {
        low = omega arith;
        high = omega arith;
        spread = omega arith;
        narrow = omega arith;
        updates = refl;
        degenerate = refl;
        shows = λ some_rounds. absurd (omega (arith, some_rounds));
      }))
