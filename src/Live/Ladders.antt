-- ===== src/Live/Ladders.antt =====
-- The book of the live consumer stays well formed, whatever the feed and the risk engine say.
use tickpipe.Base.{ℕ, List, [], ◌∷◌, leb, if_both}
use tickpipe.Itch.Order.{Order}
use tickpipe.Book.Resolve.{ResolvedOp, resolve}
use tickpipe.Engine.Book.Valid.{IsValid, apply-IsValid}
use tickpipe.Wal.{Layout, Stdio}
use tickpipe.Live.{ExchangeState, log, on_add, on_op, on_ops, on_order, show, is_add}

module _ (layout : Layout) (now : ℕ) (io : Stdio) where
  on_add-IsValid :
      (op : ResolvedOp) (s : ExchangeState)
      → IsValid s.engine
      → IsValid (on_add layout now io op s).engine
  unfolding on_add log
  on_add-IsValid op s v =
      if_both (λ (t : ExchangeState). IsValid t.engine) _ (apply-IsValid s.engine op v) v

  on_op-IsValid :
      (op : ResolvedOp) (s : ExchangeState)
      → IsValid s.engine
      → IsValid (on_op layout now io op s).engine
  unfolding on_op
  on_op-IsValid op s v =
      if_both (λ (t : ExchangeState). IsValid t.engine) (is_add op.action) (on_add-IsValid op s v)
        (apply-IsValid s.engine op v)

  on_ops-IsValid :
      (ops : List ResolvedOp) (s : ExchangeState)
      → IsValid s.engine
      → IsValid (on_ops layout now io ops s).engine
  unfolding on_ops
  on_ops-IsValid [] s v = v
  on_ops-IsValid (op ∷ ops) s v =
      on_ops-IsValid ops (on_op layout now io op s) (on_op-IsValid op s v)

  show-IsValid : (tick : ℕ) (s : ExchangeState) → IsValid s.engine → IsValid (show tick s).engine
  unfolding show
  show-IsValid tick s v =
      if_both (λ (t : ExchangeState). IsValid t.engine) (leb s.next_render tick) v v

  on_order-IsValid :
      (tick : ℕ) (msg : Order) (s : ExchangeState)
      → IsValid s.engine
      → IsValid (on_order layout now io tick msg s).engine
  unfolding on_order
  on_order-IsValid tick msg s v = show-IsValid tick _ (
      if_both (λ (t : ExchangeState). IsValid t.engine) (resolve s.book msg).0
        (on_ops-IsValid (resolve s.book msg).1 _ v) v)

-- The messages of a feed; the clocks and the stream answer each of them anew.
unfoldable pub on_orders : Layout → List (ℕ × Stdio × ℕ × Order) → ExchangeState → ExchangeState
on_orders layout [] s = s
on_orders layout ((now, io, tick, msg) ∷ rest) s =
    on_orders layout rest (on_order layout now io tick msg s)

-- Whatever messages the live consumer is handed, and whatever the clock and the stream of the log
-- answer, a valid engine is valid after them: its levels are in the order of their prices, with
-- no empty level and no entry for 0 shares.
pub on_orders-IsValid :
    (layout : Layout) (feed : List (ℕ × Stdio × ℕ × Order)) (s : ExchangeState)
    → IsValid s.engine
    → IsValid (on_orders layout feed s).engine
unfolding on_orders
on_orders-IsValid layout [] s v = v
on_orders-IsValid layout ((now, io, tick, msg) ∷ rest) s v =
    on_orders-IsValid layout rest (on_order layout now io tick msg s)
      (on_order-IsValid layout now io tick msg s v)
