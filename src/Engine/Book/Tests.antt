-- ===== src/Engine/Book/Tests.antt =====
-- The matching engine on a book with one bid and one ask.
use tickpipe.Base.{[], ◌∷◌}
use tickpipe.Itch.Order.{Order, empty_order, Side, buy, add, execute, no_stock}
use tickpipe.Book.Resolve.{ResolvedOp}
use tickpipe.Engine.Book.{Engine, cleared}
use tickpipe.Engine.Book.Valid.{IsValid, cleared-IsValid, apply_all, apply_all-IsValid}

abbrev two_sided : Engine
two_sided = record cleared { bids = (99, (1, 50) ∷ []) ∷ []; asks = (101, (2, 30) ∷ []) ∷ [] }

abbrev taker : Side → Order
taker side = record empty_order { order_ref = 3; quantity = 40; price = 100; side = side }

abbrev adding : ResolvedOp
adding = record {
  action = add;
  order_ref = 7;
  quantity = 100;
  price = 1_502_500;
  match_number = 0;
  timestamp_ns = 0;
  side = buy;
  stock = no_stock;
}

abbrev executing : ResolvedOp
executing = record adding { action = execute; quantity = 40; match_number = 9 }

apply_all-IsValid_example : IsValid (apply_all cleared (adding ∷ executing ∷ []))
apply_all-IsValid_example = apply_all-IsValid cleared (adding ∷ executing ∷ []) cleared-IsValid
