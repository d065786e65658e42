-- ===== src/Engine/Book/Capped.antt =====
-- `apply` keeps a bound on the shares of every entry, when the orders that it adds keep it.
use tickpipe.Base.{ℕ, ◌≤◌, ◌≡◌, refl, Option, none, some, if_both, ◌==◌}
use tickpipe.Itch.Order.{
  Side, Action, no_action, add, execute, cancel, delete, replace, trade, is_buy,
}
use tickpipe.Book.Resolve.{ResolvedOp}
use tickpipe.Engine.Ladder.{Ladder, descending, ascending, shrink}
use tickpipe.Engine.Ladder.Sorted.{OnSome, found}
use tickpipe.Engine.Ladder.Capped.{
  IsCapped, shrink-IsCapped, strip-IsCapped, scan-IsCapped, push_back-IsCapped,
}
use tickpipe.Engine.Book.{
  Engine, cleared, print_trade, rest_order, on_side, remove_ref, reduce_ref, or_orphan,
  execute_shares, apply_case, apply,
}

pub record AllCapped (cap : ℕ) (s : Engine) : Type 0 where
  pub bids : IsCapped cap s.bids
  pub asks : IsCapped cap s.asks

pub cleared-AllCapped : (cap : ℕ) → AllCapped cap cleared
unfolding IsCapped
cleared-AllCapped cap = record { bids = tt; asks = tt }

module _ (cap : ℕ) where
  on_side-AllCapped :
      (side : Side) (change : Ladder → Option Ladder) (s : Engine)
      → ((l : Ladder) → IsCapped cap l → OnSome (IsCapped cap) (change l))
      → AllCapped cap s
      → OnSome (AllCapped cap) (on_side side change s)
  unfolding on_side
  on_side-AllCapped side change s k v =
      if_both (OnSome (AllCapped cap)) (is_buy side)
        (found (IsCapped cap) (AllCapped cap) (λ l. record s { bids = l }) (change s.bids) none
          (λ l h. record { bids = h; asks = v.asks }) (k s.bids v.bids) tt)
        (found (IsCapped cap) (AllCapped cap) (λ l. record s { asks = l }) (change s.asks) none
          (λ l h. record { bids = v.bids; asks = h }) (k s.asks v.asks) tt)

  or_orphan-AllCapped :
      (s : Engine) (o : Option Engine)
      → AllCapped cap s
      → OnSome (AllCapped cap) o
      → AllCapped cap (or_orphan s o)
  or_orphan-AllCapped s none v h = record { bids = v.bids; asks = v.asks }
  or_orphan-AllCapped s (some s') v h = h

  first_or :
      (o : Option Engine) (later : Engine)
      → OnSome (AllCapped cap) o
      → AllCapped cap later
      → AllCapped cap (elim o [ some s' ↦ s' | none ↦ later ])
  first_or none later h v = v
  first_or (some s') later h v = h

  rest_order-AllCapped :
      (side : Side) (price ref qty : ℕ) (s : Engine)
      → qty ≤ cap
      → AllCapped cap s
      → AllCapped cap (rest_order side price ref qty s)
  unfolding rest_order
  rest_order-AllCapped side price ref qty s le v = if_both (AllCapped cap) (qty == 0) v (
      if_both (AllCapped cap) (is_buy side)
        (record {
          bids = push_back-IsCapped cap descending price (ref, qty) s.bids le v.bids;
          asks = v.asks;
        })
        (record {
          bids = v.bids;
          asks = push_back-IsCapped cap ascending price (ref, qty) s.asks le v.asks;
        }))

  execute_shares-AllCapped :
      (op : ResolvedOp) (s : Engine) → AllCapped cap s → AllCapped cap (execute_shares op s)
  unfolding execute_shares reduce_ref
  execute_shares-AllCapped op s v =
      first_or (on_side op.side (shrink op.price op.order_ref op.quantity) s) _
        (on_side-AllCapped op.side _ s (shrink-IsCapped cap op.price op.order_ref op.quantity) v)
        (or_orphan-AllCapped s _ v
          (on_side-AllCapped op.side _ s (scan-IsCapped cap op.order_ref op.quantity) v))

  traded :
      (quantity price : ℕ) (s : Engine)
      → AllCapped cap s
      → AllCapped cap (print_trade quantity price s)
  traded quantity price s v = record { bids = v.bids; asks = v.asks }

  apply_case-AllCapped :
      (a : Action) (op : ResolvedOp) (s : Engine)
      → (a ≡ add → op.quantity ≤ cap)
      → AllCapped cap s
      → AllCapped cap (apply_case a op s)
  unfolding apply_case reduce_ref remove_ref
  apply_case-AllCapped add op s le v =
      let rested = rest_order-AllCapped op.side op.price op.order_ref op.quantity s (le refl) v in
      record { bids = rested.bids; asks = rested.asks }
  apply_case-AllCapped execute op s le v =
      let done = execute_shares-AllCapped op s v in
      if_both (AllCapped cap) _ (traded op.quantity op.price _ done) done
  apply_case-AllCapped cancel op s le v =
      or_orphan-AllCapped s _ v
        (on_side-AllCapped op.side _ s (shrink-IsCapped cap op.price op.order_ref op.quantity) v)
  apply_case-AllCapped delete op s le v =
      or_orphan-AllCapped s _ v
        (on_side-AllCapped op.side _ s (strip-IsCapped cap op.price op.order_ref) v)
  apply_case-AllCapped trade op s le v = traded op.quantity op.price s v
  apply_case-AllCapped replace op s le v = v
  apply_case-AllCapped no_action op s le v = v

  pub apply-AllCapped :
      (s : Engine) (op : ResolvedOp)
      → (op.action ≡ add → op.quantity ≤ cap)
      → AllCapped cap s
      → AllCapped cap (apply s op)
  unfolding apply
  apply-AllCapped s op le v = apply_case-AllCapped op.action op s le v
