-- ===== src/Live/Sizes.antt =====
-- The live book: its ladders, and no resting order larger than the risk engine admits.
use tickpipe.Base.{
  ℕ, ◌≡◌, refl, ap, true, false, not_both, List, [], ◌∷◌, Option, if_both, if_with, leb, arith,
}
use tickpipe.Itch.Order.{Order, Action, add}
use tickpipe.Book.Table.{RestingOrder}
use tickpipe.Book.Resolve.{ResolvedOp, resolve}
use tickpipe.Engine.Book.Valid.{IsValid, cleared-IsValid}
use tickpipe.Engine.Book.Capped.{AllCapped, cleared-AllCapped, apply-AllCapped}
use tickpipe.Risk.{
  RiskResult, accepted, exceeds_max_size, exceeds_position, price_out_of_band, invalid_order,
  max_order_size, check,
}
use tickpipe.Risk.Accept.{check-accepted_iff}
use tickpipe.Wal.{Layout, Stdio, FileBytes}
use tickpipe.Live.{
  ExchangeState, is_accepted, is_add, probe_of, log, on_add, on_op, on_ops, on_order, show, start,
}
use tickpipe.Live.Ladders.{on_orders, on_orders-IsValid}

-- The bound of the risk engine on every resting order.
abbrev pub IsLimited : ExchangeState → Type 0
IsLimited s = AllCapped max_order_size s.engine

is_accepted-accepted : (r : RiskResult) → is_accepted r ≡ true → r ≡ accepted
is_accepted-accepted accepted e = refl
is_accepted-accepted invalid_order e = absurd (ground (arith, e))
is_accepted-accepted exceeds_max_size e = absurd (ground (arith, e))
is_accepted-accepted price_out_of_band e = absurd (ground (arith, e))
is_accepted-accepted exceeds_position e = absurd (ground (arith, e))

is_add-add : (a : Action) → is_add a ≡ false → a ≡ add → ⊥
is_add-add a e h = not_both (ap is_add h) e

module _ (layout : Layout) (now : ℕ) (io : Stdio) where
  on_add-IsLimited :
      (op : ResolvedOp) (s : ExchangeState) → IsLimited s → IsLimited (on_add layout now io op s)
  unfolding on_add log probe_of
  on_add-IsLimited op s v =
      if_with IsLimited (is_accepted (check s.risk (probe_of op)).0)
        (λ e.
          let admitted =
            (check-accepted_iff s.risk (probe_of op)).0
              (is_accepted-accepted (check s.risk (probe_of op)).0 e) in
          apply-AllCapped max_order_size s.engine op (λ _. admitted.small) v)
        (λ _. v)

  on_op-IsLimited :
      (op : ResolvedOp) (s : ExchangeState) → IsLimited s → IsLimited (on_op layout now io op s)
  unfolding on_op
  on_op-IsLimited op s v =
      if_with IsLimited (is_add op.action) (λ _. on_add-IsLimited op s v)
        (λ other.
          apply-AllCapped max_order_size s.engine op
            (λ added. absurd (is_add-add op.action other added)) v)

  on_ops-IsLimited :
      (ops : List ResolvedOp) (s : ExchangeState)
      → IsLimited s
      → IsLimited (on_ops layout now io ops s)
  unfolding on_ops
  on_ops-IsLimited [] s v = v
  on_ops-IsLimited (op ∷ ops) s v =
      on_ops-IsLimited ops (on_op layout now io op s) (on_op-IsLimited op s v)

  show-IsLimited : (tick : ℕ) (s : ExchangeState) → IsLimited s → IsLimited (show tick s)
  unfolding show
  show-IsLimited tick s v = if_both IsLimited (leb s.next_render tick) v v

  on_order-IsLimited :
      (tick : ℕ) (msg : Order) (s : ExchangeState)
      → IsLimited s
      → IsLimited (on_order layout now io tick msg s)
  unfolding on_order
  on_order-IsLimited tick msg s v =
      show-IsLimited tick _
        (if_both IsLimited (resolve s.book msg).0 (on_ops-IsLimited (resolve s.book msg).1 _ v) v)

on_orders-IsLimited :
    (layout : Layout) (feed : List (ℕ × Stdio × ℕ × Order)) (s : ExchangeState)
    → IsLimited s
    → IsLimited (on_orders layout feed s)
unfolding on_orders
on_orders-IsLimited layout [] s v = v
on_orders-IsLimited layout ((now, io, tick, msg) ∷ rest) s v =
    on_orders-IsLimited layout rest (on_order layout now io tick msg s)
      (on_order-IsLimited layout now io tick msg s v)

-- The live consumer is set up as in `main` and handed any messages, with any answers of the
-- clocks and the stream of the log. The levels of its book are in the order of their prices, with
-- no empty level and no entry for 0 shares, and no entry is for more shares than
-- `max_order_size`.
pub live_book_lem :
    (layout : Layout) (slots : ℕ → RestingOrder) (file : Option FileBytes) (tick : ℕ)
    (feed : List (ℕ × Stdio × ℕ × Order))
    → let s = on_orders layout feed (start slots file tick) in
      IsValid s.engine × AllCapped max_order_size s.engine
unfolding start
live_book_lem layout slots file tick feed = (
  on_orders-IsValid layout feed (start slots file tick) cleared-IsValid,
  on_orders-IsLimited layout feed (start slots file tick) (cleared-AllCapped max_order_size),
)
