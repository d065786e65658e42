-- ===== src/Ouch/Tests.antt =====
-- The three messages for one order.
use tickpipe.Base.{◌≡◌, true, some, Bytes, arith}
use tickpipe.Itch.Order.{Order, empty_order, buy}
use tickpipe.Engine.Book.{MatchResult}
use tickpipe.Ouch.{write_accepted}
use tickpipe.Ouch.Frame.{Accepted, write_accepted_lem}

abbrev order : Order
order = record empty_order { order_ref = 1001; quantity = 300; price = 1_502_500; side = buy }

abbrev fill : MatchResult
fill = record {
  buy_order_ref = 1001;
  sell_order_ref = 900;
  price = 1_502_400;
  quantity = 200;
  matched = true;
}

abbrev memory : Bytes
memory i = 255

write_accepted_lem_example :
    (out : Bytes) × (write_accepted (some memory) 32 order 34_200 ≡ (32, some out))
    × Accepted memory out order 34_200
write_accepted_lem_example =
    write_accepted_lem memory 32 order 34_200 (ground arith) (ground arith) (ground arith)
      (ground arith) (ground arith)
