-- ===== src/Pipeline/Clock.antt =====
-- The clock of `FpgaPipeline`: the other stages, `clock` and `flush`.
pub mod Sequential
pub mod Valid
use tickpipe.Base.{
  ℕ, ◌-◌, Bool, true, false, Option, none, some, List, [], ◌∷◌, if◌then◌else◌, not, update, inc64,
  ◌==◌,
}
use tickpipe.Itch.Order.{Order, empty_order}
use tickpipe.Engine.Book.{MatchResult, no_match}
use tickpipe.Pipeline.Slots.{Window, slot_of}
use tickpipe.Pipeline.Books.{
  PriceLevel, clear, Half, Books, PipelineRegister, empty_register, stage3_match, stage4_execute,
}

pub record FpgaPipeline : Type 0 where
  pub stages : ℕ → PipelineRegister
  pub books : Books
  pub window : Window
  pub cycles : ℕ
  pub orders_processed : ℕ

-- The constructor, on levels as the memory has them.
unfoldable pub new : (ℕ → PriceLevel) → (ℕ → PriceLevel) → FpgaPipeline
new buys sells = record {
  stages = λ _. empty_register;
  books = record {
    buys = record { levels = λ i. clear (buys i); bits = λ _. 0 };
    sells = record { levels = λ i. clear (sells i); bits = λ _. 0 };
    matches_made = 0;
  };
  window = record { base_price = 0; base_set = false; window_misses = 0 };
  cycles = 0;
  orders_processed = 0;
}

unfoldable pub stage1_decode : Order → PipelineRegister
stage1_decode o = record empty_register { order = o; valid = not (o.valid == 0); stage = 1 }

-- `stage2_route`, with the slot and the window that `slot_of` returns.
unfoldable pub routed : PipelineRegister → Option ℕ × Window → PipelineRegister × Window
routed reg (none, w) =
    (record reg { valid = false }, record w { window_misses = inc64 w.window_misses })
routed reg (some slot, w) = (record reg { level_index = slot }, w)

unfoldable pub stage2_route : Window → PipelineRegister → PipelineRegister × Window
stage2_route w reg0 =
    let reg = record reg0 { stage = 2 } in
    if not reg0.valid then (reg, w) else routed reg (slot_of w reg0.order.price)

unfoldable pub stage5_respond : PipelineRegister → PipelineRegister
stage5_respond reg = record reg { stage = 5 }

unfoldable pub clock : FpgaPipeline → Order → MatchResult × FpgaPipeline
clock p incoming =
    let output = (stage5_respond (p.stages 4)).result in
    let (r4, books) = stage4_execute p.books (p.stages 3) in
    let r3 = stage3_match books (p.stages 2) in
    let (r2, window) = stage2_route p.window (p.stages 1) in
    let r1 = stage1_decode incoming in
    (
      output,
      record {
        stages = update (update (update (update p.stages 4 r4) 3 r3) 2 r2) 1 r1;
        books = books;
        window = window;
        cycles = inc64 p.cycles;
        orders_processed =
            if incoming.valid == 0 then p.orders_processed else inc64 p.orders_processed;
      },
    )

-- Five clocks with an order that is not valid; the result of the last one.
unfoldable pub flush : FpgaPipeline → MatchResult × FpgaPipeline
flush p =
    let empty = record empty_order { valid = 0 } in
    let p1 = (clock p empty).1 in
    let p2 = (clock p1 empty).1 in
    let p3 = (clock p2 empty).1 in let p4 = (clock p3 empty).1 in clock p4 empty
