-- ===== src/Bench/Orders.antt =====
-- The orders of the comparison stay within the price window of the pipeline.
use tickpipe.Base.{
  ℕ, zero, suc, ◌+◌, ◌-◌, ◌/◌, ◌≤◌, ◌<◌, ◌≡◌, refl, sym, ap, subst, ◌∙◌, inl, inr, true, not,
  Option, none, some, arith, ltb, Bool-cases, if_true, if_false, if_with,
}
use tickpipe.Itch.Order.{Order}
use tickpipe.Pipeline.Slots.{Window, tick, ladder_slots, centred, slot_in, slot_of}
use tickpipe.Pipeline.Books.{PriceLevel, PipelineRegister}
use tickpipe.Pipeline.Clock.{FpgaPipeline, new, stage1_decode, routed, stage2_route, clock}
use tickpipe.Bench.{make_order, clock_orders, bench_pipeline, compare_pipeline}

-- A price of the comparison.
abbrev pub InSpread : ℕ → ℕ → Type 0
InSpread base price = (base ≤ price) × (price ≤ base + 19_900)

-- The window is not set yet, or was centred on such a price; nothing has missed it.
pub record IsCentred (base : ℕ) (w : Window) : Type 0 where
  pub low : w.base_set ≡ true → w.base_price ≤ base
  pub high : w.base_set ≡ true → base + 19_900 < w.base_price + 204_800
  pub misses : w.window_misses ≡ 0

centred-IsCentred :
    (base price : ℕ) (w : Window)
    → InSpread base price
    → IsCentred base w
    → IsCentred base (centred w price) × ((centred w price).base_set ≡ true)
unfolding centred
centred-IsCentred base price w (low, high) c = elim (Bool-cases w.base_set) [
  | inl e ↦
      subst (λ (u : Window). IsCentred base u × (u.base_set ≡ true)) (sym (if_true w _ e)) (c, e)
  | inr e ↦
      subst (λ (u : Window). IsCentred base u × (u.base_set ≡ true)) (sym (if_false w _ e))
        (record { low = λ _. ground arith; high = λ _. ground arith; misses = c.misses }, refl)
]

slot_of-IsCentred :
    (base price : ℕ) (w : Window)
    → InSpread base price
    → IsCentred base w
    → (slot : ℕ) × (w' : Window) × (slot_of w price ≡ (some slot, w')) × IsCentred base w'
unfolding slot_of slot_in
slot_of-IsCentred base price w spread c =
    let w' = centred w price in
    let (c', set) = centred-IsCentred base price w spread c in
    let low = c'.low set in
    let high = c'.high set in
    (
      (price - w'.base_price) / tick,
      w',
      ap (λ (s : Option ℕ). (s, w'))
          (if_false {c = ltb price w'.base_price} none _ (ground (arith, low, spread))
            ∙ if_true {c = ltb ((price - w'.base_price) / tick) ladder_slots} _ none
                (ground (arith, high, spread))),
      c',
    )

-- The register behind stage 1.
Waits : ℕ → PipelineRegister → Type 0
Waits base reg = reg.valid ≡ true → InSpread base reg.order.price

stage2-IsCentred :
    (base : ℕ) (w : Window) (reg : PipelineRegister)
    → Waits base reg
    → IsCentred base w
    → IsCentred base (stage2_route w reg).1
unfolding stage2_route Waits routed
stage2-IsCentred base w reg waits c =
    if_with (λ (t : PipelineRegister × Window). IsCentred base t.1) (not reg.valid) (λ _. c)
      (λ valid.
        let (slot, w', e, c') =
          slot_of-IsCentred base reg.order.price w (waits (ground (arith, valid))) c in
        subst (λ (t : Option ℕ × Window). IsCentred base (routed (record reg { stage = 2 }) t).1)
          (sym e) c')

-- No order of the comparison has missed the window, nor will the one behind stage 1.
pub record IsInside (base : ℕ) (p : FpgaPipeline) : Type 0 where
  pub window : IsCentred base p.window
  pub waits : (p.stages 1).valid ≡ true → InSpread base (p.stages 1).order.price

clock-IsInside :
    (base : ℕ) (p : FpgaPipeline) (o : Order)
    → InSpread base o.price
    → IsInside base p
    → IsInside base (clock p o).1
unfolding clock stage1_decode Waits
clock-IsInside base p o spread i = record {
  window = stage2-IsCentred base p.window (p.stages 1) i.waits i.window;
  waits = λ _. spread;
}

make_order-InSpread : (base seed id : ℕ) → InSpread base (make_order base seed id).0.price
unfolding make_order
make_order-InSpread base seed id = (omega arith, omega arith)

-- So do any number of steps.
pub clock_orders-IsInside :
    (base count id seed : ℕ) (p : FpgaPipeline)
    → IsInside base p
    → IsInside base (clock_orders base count id seed p).1
unfolding clock_orders
clock_orders-IsInside base zero id seed p i = i
clock_orders-IsInside base (suc count) id seed p i =
    let (o, seed') = make_order base seed id in
    clock_orders-IsInside base count (id + 1) seed' (clock p o).1
      (clock-IsInside base p o (make_order-InSpread base seed id) i)

new-IsInside : (base : ℕ) (buys sells : ℕ → PriceLevel) → IsInside base (new buys sells)
unfolding new
new-IsInside base buys sells = record {
  window = record {
    low = λ set. absurd (ground (arith, set));
    high = λ set. absurd (ground (arith, set));
    misses = refl;
  };
  waits = λ valid. absurd (ground (arith, valid));
}

-- From a new pipeline neither the 1010000 orders of bench/benchmark.cpp nor those of src/main.cpp
-- miss the price window.
pub no_misses :
    (buys sells : ℕ → PriceLevel)
    → ((bench_pipeline (new buys sells)).window.window_misses ≡ 0)
      × ((compare_pipeline (new buys sells)).window.window_misses ≡ 0)
unfolding bench_pipeline compare_pipeline
no_misses buys sells =
    let p = new buys sells in
    let fast = clock_orders 2_000_000 10_000 0 999 p in
    let main = clock_orders 1_500_000 10_000 0 999 p in
    let in_fast =
      clock_orders-IsInside 2_000_000 1_000_000 0 fast.0 fast.1
        (clock_orders-IsInside 2_000_000 10_000 0 999 p (new-IsInside 2_000_000 buys sells)) in
    let in_main =
      clock_orders-IsInside 1_500_000 1_000_000 10_000 main.0 main.1
        (clock_orders-IsInside 1_500_000 10_000 0 999 p (new-IsInside 1_500_000 buys sells)) in
    (in_fast.window.misses, in_main.window.misses)
