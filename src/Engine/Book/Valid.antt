-- ===== src/Engine/Book/Valid.antt =====
-- The invariant of `SoftwareEngine` under `apply`, the path of the replayed feed.
use tickpipe.Base.{
  ℕ, sym, inl, inr, Option, none, some, List, [], ◌∷◌, arith, ◌==◌, if_true, if_false, if_both,
  Bool-cases, subst,
}
use tickpipe.Itch.Order.{
  Side, Action, no_action, add, execute, cancel, delete, replace, trade, is_buy,
}
use tickpipe.Book.Resolve.{ResolvedOp}
use tickpipe.Engine.Ladder.{Ladder, descending, ascending, shrink, strip, scan}
use tickpipe.Engine.Ladder.Sorted.{
  IsLadder, OnSome, found, shrink-IsLadder, strip-IsLadder, scan-IsLadder, descending-IsOrder,
  ascending-IsOrder, push_back-IsLadder,
}
use tickpipe.Engine.Book.{
  Engine, cleared, print_trade, rest_order, on_side, remove_ref, reduce_ref, or_orphan,
  execute_shares, apply_case, apply,
}

-- Bids fall and asks rise from level to level; no level is empty and no entry is for 0 shares.
pub record IsValid (s : Engine) : Type 0 where
  pub bids : IsLadder descending s.bids
  pub asks : IsLadder ascending s.asks

pub cleared-IsValid : IsValid cleared
unfolding IsLadder
cleared-IsValid = record { bids = tt; asks = tt }

-- A change of either side that leaves a ladder.
Keeps : (Ladder → Option Ladder) → Type 0
Keeps change =
    ((l : Ladder) → IsLadder descending l → OnSome (IsLadder descending) (change l))
    × ((l : Ladder) → IsLadder ascending l → OnSome (IsLadder ascending) (change l))

on_side-IsValid :
    (side : Side) (change : Ladder → Option Ladder) (s : Engine)
    → Keeps change
    → IsValid s
    → OnSome IsValid (on_side side change s)
unfolding on_side Keeps
on_side-IsValid side change s k v =
    if_both (OnSome IsValid) (is_buy side)
      (found (IsLadder descending) IsValid (λ l. record s { bids = l }) (change s.bids) none
        (λ l h. record { bids = h; asks = v.asks }) (k.0 s.bids v.bids) tt)
      (found (IsLadder ascending) IsValid (λ l. record s { asks = l }) (change s.asks) none
        (λ l h. record { bids = v.bids; asks = h }) (k.1 s.asks v.asks) tt)

or_orphan-IsValid :
    (s : Engine) (o : Option Engine) → IsValid s → OnSome IsValid o → IsValid (or_orphan s o)
or_orphan-IsValid s none v h = record { bids = v.bids; asks = v.asks }
or_orphan-IsValid s (some s') v h = h

shrink-Keeps : (price ref qty : ℕ) → Keeps (shrink price ref qty)
unfolding Keeps
shrink-Keeps price ref qty =
    (shrink-IsLadder descending price ref qty, shrink-IsLadder ascending price ref qty)

strip-Keeps : (price ref : ℕ) → Keeps (strip price ref)
unfolding Keeps
strip-Keeps price ref = (strip-IsLadder descending price ref, strip-IsLadder ascending price ref)

scan-Keeps : (ref qty : ℕ) → Keeps (scan ref qty)
unfolding Keeps
scan-Keeps ref qty = (scan-IsLadder descending ref qty, scan-IsLadder ascending ref qty)

rest_order-IsValid :
    (side : Side) (price ref qty : ℕ) (s : Engine)
    → IsValid s
    → IsValid (rest_order side price ref qty s)
unfolding rest_order
rest_order-IsValid side price ref qty s v = elim (Bool-cases (qty == 0)) [
  | inl z ↦ subst IsValid (sym (if_true _ _ z)) v
  | inr nz ↦ subst IsValid (sym (if_false _ _ nz)) (
      if_both IsValid (is_buy side)
        (record {
          bids =
              push_back-IsLadder descending descending-IsOrder price ref qty s.bids (ground arith)
                v.bids;
          asks = v.asks;
        })
        (record {
          bids = v.bids;
          asks =
              push_back-IsLadder ascending ascending-IsOrder price ref qty s.asks (ground arith)
                v.asks;
        }))
]

-- The first search, and the second where the first finds nothing.
either :
    (o : Option Engine) (later : Engine)
    → OnSome IsValid o
    → IsValid later
    → IsValid (elim o [ some s' ↦ s' | none ↦ later ])
either none later h v = v
either (some s') later h v = h

execute_shares-IsValid : (op : ResolvedOp) (s : Engine) → IsValid s → IsValid (execute_shares op s)
unfolding execute_shares reduce_ref
execute_shares-IsValid op s v =
    either (on_side op.side (shrink op.price op.order_ref op.quantity) s) _
      (on_side-IsValid op.side _ s (shrink-Keeps op.price op.order_ref op.quantity) v)
      (or_orphan-IsValid s _ v
        (on_side-IsValid op.side _ s (scan-Keeps op.order_ref op.quantity) v))

print_trade-IsValid :
    (quantity price : ℕ) (s : Engine) → IsValid s → IsValid (print_trade quantity price s)
print_trade-IsValid quantity price s v = record { bids = v.bids; asks = v.asks }

apply_case-IsValid :
    (a : Action) (op : ResolvedOp) (s : Engine) → IsValid s → IsValid (apply_case a op s)
unfolding apply_case reduce_ref remove_ref
apply_case-IsValid add op s v =
    let rested = rest_order-IsValid op.side op.price op.order_ref op.quantity s v in
    record { bids = rested.bids; asks = rested.asks }
apply_case-IsValid execute op s v =
    let done = execute_shares-IsValid op s v in
    if_both IsValid _ (print_trade-IsValid op.quantity op.price _ done) done
apply_case-IsValid cancel op s v =
    or_orphan-IsValid s _ v
      (on_side-IsValid op.side _ s (shrink-Keeps op.price op.order_ref op.quantity) v)
apply_case-IsValid delete op s v =
    or_orphan-IsValid s _ v (on_side-IsValid op.side _ s (strip-Keeps op.price op.order_ref) v)
apply_case-IsValid trade op s v = print_trade-IsValid op.quantity op.price s v
apply_case-IsValid replace op s v = v
apply_case-IsValid no_action op s v = v

pub apply-IsValid : (s : Engine) (op : ResolvedOp) → IsValid s → IsValid (apply s op)
unfolding apply
apply-IsValid s op v = apply_case-IsValid op.action op s v

-- The operations of a feed, one after the other.
abbrev pub apply_all : Engine → List ResolvedOp → Engine
apply_all s [] = s
apply_all s (op ∷ ops) = apply_all (apply s op) ops

-- Whatever operations `apply` is given, in whatever order, the levels of a valid engine stay in
-- the order of their prices, and no empty level and no entry for 0 shares is left.
pub apply_all-IsValid : (s : Engine) (ops : List ResolvedOp) → IsValid s → IsValid (apply_all s ops)
apply_all-IsValid s [] v = v
apply_all-IsValid s (op ∷ ops) v = apply_all-IsValid (apply s op) ops (apply-IsValid s op v)
