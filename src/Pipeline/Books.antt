-- ===== src/Pipeline/Books.antt =====
-- The price levels of `FpgaPipeline` and the stages that read and write them. The levels and the
-- bitmap of one side stand together.
pub mod Valid
pub mod Priority
use tickpipe.Base.{
  ℕ, zero, suc, ◌+◌, ◌-◌, ◌^◌, Bool, true, false, Option, none, some, ltb, leb, ◌==◌, if◌then◌else◌,
  not, min, update, sub32, inc64,
}
use tickpipe.Itch.Order.{Side, buy, sell, no_side, Order, empty_order, is_buy}
use tickpipe.Engine.Book.{MatchResult, no_match}
use tickpipe.Pipeline.Slots.{Bitmap, set_bit, clear_bit, top_slot, bottom_slot}

abbrev pub max_orders : ℕ
max_orders = 16

pub record PriceLevel : Type 0 where
  pub order_refs : ℕ → ℕ
  pub quantities : ℕ → ℕ
  pub price : ℕ
  pub count : ℕ
  pub side : Side

unfoldable pub clear : PriceLevel → PriceLevel
clear l = record l { count = 0; price = 0 }

abbrev pub is_full : PriceLevel → Bool
is_full l = leb max_orders l.count

abbrev pub is_empty : PriceLevel → Bool
is_empty l = l.count == 0

-- `buy_levels_` with `buy_bits_`, or `sell_levels_` with `sell_bits_`.
pub record Half : Type 0 where
  pub levels : ℕ → PriceLevel
  pub bits : Bitmap

pub record Books : Type 0 where
  pub buys : Half
  pub sells : Half
  pub matches_made : ℕ

pub record PipelineRegister : Type 0 where
  pub order : Order
  pub level_index : ℕ
  pub result : MatchResult
  pub valid : Bool
  pub stage : ℕ

-- `PipelineRegister{}`
abbrev pub empty_register : PipelineRegister
empty_register = record {
  order = empty_order;
  level_index = 0;
  result = no_match;
  valid = false;
  stage = 0;
}

-- The lines of `stage3_match` for one side, with the slot that `best_ask` or `best_bid` finds.
unfoldable pub offer : Half → Option ℕ → Option PriceLevel
offer h none = none
offer h (some s) = if is_empty (h.levels s) then none else some (h.levels s)

unfoldable pub match_buy : Order → Option PriceLevel → MatchResult → MatchResult
match_buy o none result = result
match_buy o (some ask) result =
    if leb ask.price o.price
    then record {
      matched = true;
      buy_order_ref = o.order_ref;
      sell_order_ref = ask.order_refs 0;
      price = ask.price;
      quantity = min o.quantity (ask.quantities 0);
    }
    else result

unfoldable pub match_sell : Order → Option PriceLevel → MatchResult → MatchResult
match_sell o none result = result
match_sell o (some bid) result =
    if leb o.price bid.price
    then record {
      matched = true;
      buy_order_ref = bid.order_refs 0;
      sell_order_ref = o.order_ref;
      price = bid.price;
      quantity = min o.quantity (bid.quantities 0);
    }
    else result

unfoldable pub stage3_match : Books → PipelineRegister → PipelineRegister
stage3_match b reg0 =
    let reg = record reg0 { stage = 3 } in
    let o = reg0.order in
    if not reg0.valid
    then reg
    else if is_buy o.side
    then record reg { result = match_buy o (offer b.sells (bottom_slot b.sells.bits)) reg.result }
    else record reg { result = match_sell o (offer b.buys (top_slot b.buys.bits)) reg.result }

-- `for (i = 0; i < count - 1; ++i)`: `left` entries move down, from `i` on.
unfoldable pub shift_loop : ℕ → ℕ → PriceLevel → PriceLevel
shift_loop zero i l = l
shift_loop (suc left) i l = shift_loop left (i + 1) (record l {
  order_refs = update l.order_refs i (l.order_refs (i + 1));
  quantities = update l.quantities i (l.quantities (i + 1));
})

unfoldable pub pop_front : PriceLevel → PriceLevel
pop_front l = let l' = shift_loop (l.count - 1) 0 l in record l' { count = l'.count - 1 }

-- The first order of the level gives `quantity` shares.
unfoldable pub take_level : PriceLevel → ℕ → PriceLevel
take_level l quantity =
    let left = sub32 (l.quantities 0) quantity in
    let l' = record l { quantities = update l.quantities 0 left } in
    if left == 0 then pop_front l' else l'

-- The level at the slot after a fill; the bit goes with its last order.
unfoldable pub take_at : Half → ℕ → ℕ → Half
take_at h slot quantity =
    let l = h.levels slot in
    let l' = take_level l quantity in
    let h' = record h { levels = update h.levels slot l' } in
    if is_empty l then h else if is_empty l' then record h' { bits = clear_bit h.bits slot } else h'

unfoldable pub take_best : Half → Option ℕ → ℕ → Half
take_best h none quantity = h
take_best h (some slot) quantity = take_at h slot quantity

-- An order joins the level at its slot; a full level drops it.
unfoldable pub join : PriceLevel → Order → PriceLevel
join l o = record {
  order_refs = update l.order_refs l.count o.order_ref;
  quantities = update l.quantities l.count o.quantity;
  price = o.price;
  side = if is_buy o.side then buy else sell;
  count = l.count + 1;
}

unfoldable pub rest_at : Half → ℕ → Order → Half
rest_at h slot o = if is_full (h.levels slot) then h else record h {
  levels = update h.levels slot (join (h.levels slot) o);
  bits = set_bit h.bits slot;
}

-- `stage4_execute` on the levels.
unfoldable pub execute : Books → PipelineRegister → Books
execute b reg =
    let o = reg.order in
    let q = reg.result.quantity in
    if reg.result.matched
    then (if is_buy o.side
        then record b {
          sells = take_best b.sells (bottom_slot b.sells.bits) q;
          matches_made = inc64 b.matches_made;
        }
        else record b {
          buys = take_best b.buys (top_slot b.buys.bits) q;
          matches_made = inc64 b.matches_made;
        })
    else if is_buy o.side
    then record b { buys = rest_at b.buys reg.level_index o }
    else record b { sells = rest_at b.sells reg.level_index o }

unfoldable pub stage4_execute : Books → PipelineRegister → PipelineRegister × Books
stage4_execute b reg0 =
    let reg = record reg0 { stage = 4 } in
    if not reg0.valid then (reg, b) else (reg, execute b reg0)
