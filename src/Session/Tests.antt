-- ===== src/Session/Tests.antt =====
-- An order before the close, one at it and one behind it.
use tickpipe.Base.{ℕ, ◌≡◌, refl, false, true, [], ◌∷◌, ◌++◌, arith}
use tickpipe.Itch.Order.{Order, empty_order, add, buy}
use tickpipe.Book.Table
use tickpipe.Engine.Book.{cleared}
use tickpipe.Micro
use tickpipe.Session.{ReplayCtx, snapshot}
use tickpipe.Session.Close.{on_messages, close_once}

abbrev resting : Table.RestingOrder
resting = record { order_ref = 0; quantity = 0; price = 0; side = buy; stock = [] }

abbrev started : ReplayCtx
started = record {
  book = Table.new (λ _. resting) 4;
  engine = cleared;
  micro = Micro.reset;
  last_bid = (0, 0);
  last_ask = (0, 0);
  close_taken = false;
  close = record {
    micro = Micro.reset.m;
    digest = 0;
    bid = (0, 0);
    ask = (0, 0);
    last = 0;
    shares = 0;
    bid_levels = 0;
    ask_levels = 0;
  };
}

abbrev order_at : ℕ → ℕ → Order
order_at time ref = record empty_order {
  action = add;
  order_ref = ref;
  timestamp_ns = time;
  quantity = 100;
  price = 50;
  side = buy;
}

close_once_example :
    let c =
      on_messages
        ((order_at 1 1 ∷ [])
          ++ (order_at 57_600_000_000_000 2 ∷ order_at 57_600_000_000_001 3 ∷ []))
        started in
    (c.close_taken ≡ true) × (c.close ≡ snapshot (on_messages (order_at 1 1 ∷ []) started))
close_once_example =
    close_once (order_at 1 1 ∷ []) (order_at 57_600_000_000_000 2)
      (order_at 57_600_000_000_001 3 ∷ []) started refl (omega arith, tt) (omega arith)
