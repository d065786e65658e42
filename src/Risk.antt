-- ===== src/Risk.antt =====
-- Pre-trade risk checks: include/risk_engine.hpp and src/risk_engine.cpp. `int64_t` positions are
-- integers: leaving their range takes more than 2 ^ 31 fills on one side.
pub mod Limits
pub mod Accept
pub mod Exposure
pub mod Trading
mod Tests
use tickpipe.Base.{
  ℕ, zero, suc, ◌+◌, ◌-◌, Bool, true, false, ◌||◌, List, ltb, leb, ◌==◌, if◌then◌else◌, update,
  sub32, u64, inc64, ℤ, pos, negsuc, ◌+ℤ◌, ◌-ℤ◌, ltb_ℤ,
}
use tickpipe.Itch.Order.{Side, Order, is_buy, same_stock, no_stock}

pub data RiskResult : Type 0 where
  accepted exceeds_max_size exceeds_position price_out_of_band invalid_order : RiskResult

pub record PositionEntry : Type 0 where
  pub stock : List ℕ
  pub net_position : ℤ
  pub gross_bought : ℕ
  pub gross_sold : ℕ

abbrev pub max_order_size : ℕ
max_order_size = 10000

abbrev pub max_net_position : ℕ
max_net_position = 100000

abbrev pub max_price_band : ℕ
max_price_band = 500000

abbrev pub max_instruments : ℕ
max_instruments = 128

pub record RiskEngine : Type 0 where
  pub positions : ℕ → PositionEntry
  pub ref_prices : ℕ → ℕ
  pub instrument_count : ℕ
  pub accepted_count : ℕ
  pub rejected_count : ℕ

abbrev pub no_position : PositionEntry
no_position = record { stock = no_stock; net_position = pos 0; gross_bought = 0; gross_sold = 0 }

unfoldable pub new : RiskEngine
new = record {
  positions = λ _. no_position;
  ref_prices = λ _. 0;
  instrument_count = 0;
  accepted_count = 0;
  rejected_count = 0;
}

-- The scan of `find_or_create`, with `left` entries to look at from `i` on. It returns the count
-- of instruments when it finds none.
unfoldable pub scan : RiskEngine → List ℕ → ℕ → ℕ → ℕ
scan r stock zero i = i
scan r stock (suc left) i = elim (same_stock (r.positions i).stock stock) [
  | true ↦ i
  | false ↦ scan r stock left (i + 1)
]

-- A new instrument takes the next entry; with no entry left the code falls back on entry 0.
unfoldable pub create : RiskEngine → List ℕ → ℕ × RiskEngine
create r stock =
    let n = r.instrument_count in
    if ltb n max_instruments
    then (
      n,
      record r {
        positions =
            update r.positions n (record (r.positions n) { stock = stock; net_position = pos 0 });
        instrument_count = n + 1;
      },
    )
    else (0, r)

unfoldable pub find_or_create : RiskEngine → List ℕ → ℕ × RiskEngine
find_or_create r stock =
    let i = scan r stock r.instrument_count 0 in
    if ltb i r.instrument_count then (i, r) else create r stock

abbrev pub reject : RiskResult → RiskEngine → RiskResult × RiskEngine
reject why r = (why, record r { rejected_count = inc64 r.rejected_count })

-- How far the price is from the reference.
abbrev pub distance : ℕ → ℕ → ℕ
distance price ref = if ltb ref price then price - ref else ref - price

abbrev pub signed_quantity : Order → ℤ
signed_quantity o = if is_buy o.side then pos o.quantity else pos 0 -ℤ pos o.quantity

-- The position check and what follows it.
unfoldable pub check_position : RiskEngine → ℕ → Order → RiskResult × RiskEngine
check_position r idx o =
    let projected = (r.positions idx).net_position +ℤ signed_quantity o in
    if ltb_ℤ (pos max_net_position) projected || ltb_ℤ projected (pos 0 -ℤ pos max_net_position)
    then reject exceeds_position r
    else (accepted, record r { accepted_count = inc64 r.accepted_count })

-- The price band check on the entry of the instrument, and the checks behind it.
unfoldable pub check_entry : RiskEngine → ℕ → Order → RiskResult × RiskEngine
check_entry r idx o =
    let ref = r.ref_prices idx in
    if ltb 0 ref
    then (if leb max_price_band (distance o.price ref)
        then reject price_out_of_band r
        else check_position r idx o)
    else check_position r idx o

unfoldable pub check : RiskEngine → Order → RiskResult × RiskEngine
check r o =
    if o.quantity == 0 || o.price == 0
    then reject invalid_order r
    else if ltb max_order_size o.quantity
    then reject exceeds_max_size r
    else let (idx, r') = find_or_create r o.stock in check_entry r' idx o

unfoldable pub fill : Side → ℕ → PositionEntry → PositionEntry
fill side quantity p =
    if is_buy side
    then record p {
      net_position = p.net_position +ℤ pos quantity;
      gross_bought = u64 (p.gross_bought + quantity);
    }
    else record p {
      net_position = p.net_position -ℤ pos quantity;
      gross_sold = u64 (p.gross_sold + quantity);
    }

unfoldable pub on_fill : RiskEngine → List ℕ → Side → ℕ → RiskEngine
on_fill r stock side quantity =
    let (idx, r') = find_or_create r stock in
    record r' { positions = update r'.positions idx (fill side quantity (r'.positions idx)) }

unfoldable pub set_reference_price : RiskEngine → List ℕ → ℕ → RiskEngine
set_reference_price r stock price =
    let (idx, r') = find_or_create r stock in
    record r' { ref_prices = update r'.ref_prices idx price }
