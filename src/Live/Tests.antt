-- ===== src/Live/Tests.antt =====
-- An order that is added and executed.
use tickpipe.Base.{false, some, List, [], ◌∷◌, ℕ}
use tickpipe.Itch.Order.{Order, empty_order, add, execute, buy}
use tickpipe.Book.Table
use tickpipe.Engine.Book.Valid.{IsValid}
use tickpipe.Wal.{Stdio}
use tickpipe.Wal.Amd64.{amd64}
use tickpipe.Live.{start}
use tickpipe.Live.Ladders.{on_orders}
use tickpipe.Live.Sizes.{live_book_lem}
use tickpipe.Engine.Book.Capped.{AllCapped}
use tickpipe.Risk.{max_order_size}

abbrev resting : Table.RestingOrder
resting = record { order_ref = 0; quantity = 0; price = 0; side = buy; stock = [] }

abbrev at_once : Stdio
at_once = record { accepted = 192; spilled = 192; written = 0; keeps = false }

abbrev feed : List (ℕ × Stdio × ℕ × Order)
feed =
    (
      10,
      at_once,
      30,
      record empty_order { action = add; order_ref = 1; quantity = 100; price = 50; side = buy },
    )
    ∷ (20, at_once, 40, record empty_order { action = execute; order_ref = 1; quantity = 40 })
    ∷ []

live_book_lem_example :
    IsValid (on_orders amd64 feed (start (λ _. resting) (some []) 5)).engine
    × AllCapped max_order_size (on_orders amd64 feed (start (λ _. resting) (some []) 5)).engine
live_book_lem_example = live_book_lem amd64 (λ _. resting) (some []) 5 feed
