-- ===== src/Live/Frames.antt =====
-- The pace of the screen.
use tickpipe.Base.{ℕ, ◌+◌, ◌≤◌, List, [], ◌∷◌, Option, if_both, if_with, arith, leb}
use tickpipe.Itch.Order.{Order}
use tickpipe.Book.Table.{RestingOrder}
use tickpipe.Book.Resolve.{ResolvedOp, resolve}
use tickpipe.Risk.{check}
use tickpipe.Visualizer.{Frame}
use tickpipe.Wal.{Layout, Stdio, FileBytes}
use tickpipe.Live.{
  ExchangeState, is_accepted, is_add, probe_of, log, on_add, on_op, on_ops, on_order, show, start,
}
use tickpipe.Live.Ladders.{on_orders}

-- Frames, last first, each 100 ms behind the one before it, and the last as far from `next`.
unfoldable pub Spaced : ℕ → List (ℕ × Frame) → Type 0
Spaced next [] = Unit
Spaced next ((tick, frame) ∷ frames) = (tick + 100_000_000 ≤ next) × Spaced tick frames

Paced : ExchangeState → Type 0
Paced s = Spaced s.next_render s.frames

Spaced-le :
    (next later : ℕ) (frames : List (ℕ × Frame))
    → next ≤ later
    → Spaced next frames
    → Spaced later frames
unfolding Spaced
Spaced-le next later [] le h = tt
Spaced-le next later ((tick, frame) ∷ frames) le (first, h) = (omega (arith, first), h)

module _ (layout : Layout) (now : ℕ) (io : Stdio) where
  on_add-Paced : (op : ResolvedOp) (s : ExchangeState) → Paced s → Paced (on_add layout now io op s)
  unfolding on_add log Paced
  on_add-Paced op s h = if_both Paced (is_accepted (check s.risk (probe_of op)).0) h h

  on_op-Paced : (op : ResolvedOp) (s : ExchangeState) → Paced s → Paced (on_op layout now io op s)
  unfolding on_op Paced
  on_op-Paced op s h = if_both Paced (is_add op.action) (on_add-Paced op s h) h

  on_ops-Paced :
      (ops : List ResolvedOp) (s : ExchangeState) → Paced s → Paced (on_ops layout now io ops s)
  unfolding on_ops
  on_ops-Paced [] s h = h
  on_ops-Paced (op ∷ ops) s h = on_ops-Paced ops (on_op layout now io op s) (on_op-Paced op s h)

  show-Paced : (tick : ℕ) (s : ExchangeState) → Paced s → Paced (show tick s)
  unfolding show Paced Spaced
  show-Paced tick s h =
      if_with Paced (leb s.next_render tick)
        (λ due. (omega arith, Spaced-le s.next_render tick s.frames (ground (arith, due)) h))
        (λ _. h)

  on_order-Paced :
      (tick : ℕ) (msg : Order) (s : ExchangeState)
      → Paced s
      → Paced (on_order layout now io tick msg s)
  unfolding on_order Paced
  on_order-Paced tick msg s h =
      show-Paced tick _
        (if_both Paced (resolve s.book msg).0 (on_ops-Paced (resolve s.book msg).1 _ h) h)

on_orders-Paced :
    (layout : Layout) (feed : List (ℕ × Stdio × ℕ × Order)) (s : ExchangeState)
    → Paced s
    → Paced (on_orders layout feed s)
unfolding on_orders
on_orders-Paced layout [] s h = h
on_orders-Paced layout ((now, io, tick, msg) ∷ rest) s h =
    on_orders-Paced layout rest (on_order layout now io tick msg s)
      (on_order-Paced layout now io tick msg s h)

-- Two frames are drawn 100 ms apart, whatever the clock reads.
pub live_frames :
    (layout : Layout) (slots : ℕ → RestingOrder) (file : Option FileBytes) (tick : ℕ)
    (feed : List (ℕ × Stdio × ℕ × Order))
    → let s = on_orders layout feed (start slots file tick) in Spaced s.next_render s.frames
unfolding start Paced Spaced
live_frames layout slots file tick feed = on_orders-Paced layout feed (start slots file tick) tt
