-- ===== src/Pipeline/Tests.antt =====
-- The pipeline on concrete orders.
use tickpipe.Base.{ℕ, arith, ◌≡◌, refl, true, List, [], ◌∷◌, ◌++◌}
use tickpipe.Itch.Order.{Order, empty_order, add, buy, sell, no_side}
use tickpipe.Engine.Book.{MatchResult, no_match}
use tickpipe.Pipeline.Slots.{
  Bitmap, set_bit, clear_bit, ladder_slots, slot_of, slot_in, centred, top_slot, bottom_slot,
  top_loop, bottom_loop, clzll, ctzll, leading_zeros, trailing_zeros,
}
use tickpipe.Pipeline.Slots.Bits.{bit_of, IsBitmap, set_bit-IsBitmap}
use tickpipe.Pipeline.Slots.Encode.{IsHighest, IsLowest, encoders_lem}
use tickpipe.Pipeline.Books.{
  PriceLevel, PipelineRegister, empty_register, clear, execute, offer, match_buy, match_sell,
  rest_at, join, take_best, take_at, take_level, pop_front, shift_loop, stage3_match,
  stage4_execute,
}
use tickpipe.Pipeline.Books.Priority.{StageOutcome, stage3_match-StageOutcome}
use tickpipe.Pipeline.Clock.{
  FpgaPipeline, new, flush, clock, stage1_decode, stage2_route, routed, stage5_respond,
}
use tickpipe.Pipeline.Clock.Sequential.{
  run, flushed, prepend, one_by_one, run_sequential, flush-no_match,
}
use tickpipe.Pipeline.Clock.Valid.{IsPipeline, IsBooks, flush-IsPipeline}

abbrev raw : ℕ → PriceLevel
raw i = record { order_refs = λ j. 7; quantities = λ j. 9; price = 5; count = 3; side = no_side }

abbrev order_of : ℕ → ℕ → ℕ → Order
order_of ref price quantity = record empty_order {
  action = add;
  side = sell;
  order_ref = ref;
  price = price;
  quantity = quantity;
  valid = 1;
}

-- A sell rests, and two buys come: one in reach and one below.
abbrev three_orders : List Order
three_orders =
    order_of 1 1_000_000 50
    ∷ record (order_of 2 1_000_100 20) { side = buy }
    ∷ record (order_of 3 999_900 10) { side = buy }
    ∷ []

abbrev fresh : FpgaPipeline
fresh = new raw raw

abbrev after_orders : FpgaPipeline
after_orders = (run fresh three_orders).1

run_sequential_example :
    (
      (run fresh three_orders).0 ++ flushed after_orders,
      (flush after_orders).1.window,
      (flush after_orders).1.books,
    )
    ≡ prepend
        (no_match ∷ no_match ∷ no_match ∷ no_match ∷ [])
        (one_by_one fresh.window fresh.books three_orders)
run_sequential_example = run_sequential raw raw three_orders

abbrev fill : MatchResult
fill = record {
  buy_order_ref = 2;
  sell_order_ref = 1;
  price = 1_000_000;
  quantity = 20;
  matched = true;
}

-- The fill of the second order is in flight when the orders end.
flushed-fill : flushed after_orders ≡ no_match ∷ no_match ∷ fill ∷ no_match ∷ []
unfolding flushed run clock stage1_decode stage2_route routed stage3_match stage4_execute
    stage5_respond new clear execute slot_of slot_in centred rest_at join set_bit clear_bit top_slot
    bottom_slot top_loop bottom_loop clzll ctzll leading_zeros trailing_zeros offer match_buy
    match_sell take_best take_at take_level pop_front shift_loop
flushed-fill = refl

flush-no_match_example : (flush after_orders).0 ≡ no_match
flush-no_match_example = flush-no_match after_orders

flush-IsPipeline_example : IsPipeline after_orders × IsPipeline (flush after_orders).1
flush-IsPipeline_example = flush-IsPipeline raw raw three_orders

abbrev two_bits : Bitmap
two_bits = set_bit (set_bit (λ w. 0) 70) 2047

encoders_lem_example :
    IsHighest (bit_of two_bits) ladder_slots (top_slot two_bits)
    × IsLowest (bit_of two_bits) 0 ladder_slots (bottom_slot two_bits)
unfolding IsBitmap
encoders_lem_example =
    encoders_lem two_bits (
      set_bit-IsBitmap (set_bit (λ w. 0) 70) 2047 (set_bit-IsBitmap (λ w. 0) 70 (λ w. omega arith)))

-- Stage 3 of a buy that meets the resting sell.
abbrev flushed_pipeline : FpgaPipeline
flushed_pipeline = (flush (run fresh (order_of 1 1_000_000 50 ∷ [])).1).1

abbrev crossing : PipelineRegister
crossing = record empty_register {
  order = record (order_of 2 1_000_100 20) { side = buy };
  valid = true;
}

stage3_match-StageOutcome_example :
    StageOutcome true flushed_pipeline.books crossing.order
      (stage3_match flushed_pipeline.books crossing).result
unfolding IsPipeline IsBooks
stage3_match-StageOutcome_example =
    stage3_match-StageOutcome flushed_pipeline.window.base_price flushed_pipeline.books crossing
      (flush-IsPipeline raw raw (order_of 1 1_000_000 50 ∷ [])).1.0.0
      (flush-IsPipeline raw raw (order_of 1 1_000_000 50 ∷ [])).1.0.1 refl refl
