-- ===== src/Visualizer.antt =====
-- `Visualizer` of src/visualizer.cpp: the clock, the rows, the colours that depend on the book, and
-- what is kept for the next frame. The text of a frame and its way to the terminal are left out.
pub mod Clock
mod Tests
use tickpipe.Base.{
  ℕ, ◌+◌, ◌/◌, ◌%◌, Bool, true, false, ◌&&◌, not, Option, none, some, List, [], ◌∷◌, ◌++◌, ltb,
  ◌==◌, if◌then◌else◌, max, min, length, u32,
}
use tickpipe.Itch.Order.{buy, sell}
use tickpipe.Engine.Ladder.{DepthLevel}
use tickpipe.Engine.Book.{Engine, depth}

-- The top of book and the last price of the frame before.
pub record Visualizer : Type 0 where
  pub prev_bid_px : ℕ
  pub prev_ask_px : ℕ
  pub prev_last : ℕ

unfoldable pub new : Visualizer
new = record { prev_bid_px = 0; prev_ask_px = 0; prev_last = 0 }

-- `%02u` of a number below 100, and `%03u` of one below 1000.
abbrev pub two_digits : ℕ → List ℕ
two_digits n = (48 + n / 10) ∷ (48 + n % 10) ∷ []

abbrev pub three_digits : ℕ → List ℕ
three_digits n = (48 + n / 100) ∷ (48 + n / 10 % 10) ∷ (48 + n % 10) ∷ []

unfoldable pub fmt_time : ℕ → List ℕ
fmt_time ns =
    let total_ms = ns / 1_000_000 in
    let ms = u32 (total_ms % 1000) in
    let secs = total_ms / 1000 in
    let h = u32 (secs / 3600) in
    let m = u32 (secs / 60 % 60) in
    let s = u32 (secs % 60) in
    two_digits (h % 100)
    ++ (b':' ∷ (two_digits m ++ (b':' ∷ (two_digits s ++ (b'.' ∷ three_digits ms)))))

pub data Colour : Type 0 where
  green red yellow cyan : Colour

abbrev pub max_levels : ℕ
max_levels = 10

-- The rows of the table: one at least, and no more than there are levels to show.
unfoldable pub rows : ℕ → ℕ → ℕ
rows nb na = let n = max nb na in min (if n == 0 then 1 else n) max_levels

-- The colour of the spread: red when the book is crossed.
unfoldable pub spread_colour : List DepthLevel → List DepthLevel → Option Colour
spread_colour (bid ∷ bids) (ask ∷ asks) = some (if ltb ask.price bid.price then red else cyan)
spread_colour bids asks = none

unfoldable pub last_colour : ℕ → ℕ → Option Colour
last_colour prev_last last_price =
    if not (ltb 0 last_price)
    then none
    else if ltb prev_last last_price && not (prev_last == 0)
    then some green
    else if ltb last_price prev_last && not (prev_last == 0)
    then some red
    else some yellow

abbrev pub first_price : List DepthLevel → ℕ
first_price [] = 0
first_price (l ∷ ls) = l.price

-- A frame: its clock, its rows, the colours of the spread and of the last price.
pub record Frame : Type 0 where
  pub clock : List ℕ
  pub row_count : ℕ
  pub spread : Option Colour
  pub last : Option Colour

unfoldable pub render : Visualizer → Engine → ℕ → ℕ → Frame × Visualizer
render v eng timestamp_ns last_price =
    let bid = depth eng buy max_levels in
    let ask = depth eng sell max_levels in
    (
      record {
        clock = fmt_time timestamp_ns;
        row_count = rows (length bid) (length ask);
        spread = spread_colour bid ask;
        last = last_colour v.prev_last last_price;
      },
      record {
        prev_bid_px = first_price bid;
        prev_ask_px = first_price ask;
        prev_last = last_price;
      },
    )
