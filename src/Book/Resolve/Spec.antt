-- ===== src/Book/Resolve/Spec.antt =====
-- `BookState::resolve` against a book that maps references to orders, with no table.
use tickpipe.Base.{
  ℕ, ◌^◌, ◌<◌, ◌≡◌, Bool, true, false, Option, none, some, List, [], ◌∷◌, ◌==◌, if◌then◌else◌, min,
}
use tickpipe.Itch.Order.{Action, no_action, add, execute, cancel, delete, replace, trade, Order}
use tickpipe.Book.Table.{Book, RestingOrder, empty}
use tickpipe.Book.Table.Invariant.{IsValid}
use tickpipe.Book.Table.Lookup.{view}
use tickpipe.Book.Resolve.{ResolvedOp, Resolved}
use tickpipe.Book.Resolve.Effect.{remaining, put_at}

abbrev pub AbstractBook : Type 0
AbstractBook = ℕ → Option RestingOrder

-- The order that a message adds.
abbrev pub resting_of : Order → RestingOrder
resting_of msg = record {
  order_ref = msg.order_ref;
  quantity = msg.quantity;
  price = msg.price;
  side = msg.side;
  stock = msg.stock;
}

-- The order that takes the place of `ro`.
abbrev pub replacement : Order → RestingOrder → RestingOrder
replacement msg ro = record ro {
  order_ref = msg.new_order_ref;
  quantity = msg.quantity;
  price = msg.price;
}

-- The operation that touches `q` shares of the resting order `ro`.
abbrev pub op_on : Action → Order → RestingOrder → ℕ → ResolvedOp
op_on a msg ro q = record {
  action = a;
  order_ref = ro.order_ref;
  quantity = q;
  price = ro.price;
  match_number = 0;
  timestamp_ns = msg.timestamp_ns;
  side = ro.side;
  stock = ro.stock;
}

abbrev pub execution : Order → RestingOrder → ResolvedOp
execution msg ro = record (op_on execute msg ro (min msg.quantity ro.quantity)) {
  price = if msg.price == 0 then ro.price else msg.price;
  match_number = msg.match_number;
}

abbrev pub trade_of : Order → ResolvedOp
trade_of msg = record (op_on trade msg (resting_of msg) msg.quantity) {
  match_number = msg.match_number;
}

-- What a message that refers to a resting order does, given that order: the operations, and the
-- book after it.
abbrev pub on_order : Action → Order → RestingOrder → AbstractBook → List ResolvedOp × AbstractBook
on_order execute msg ro f =
    (execution msg ro ∷ [], put_at f msg.order_ref (remaining ro (min msg.quantity ro.quantity)))
on_order cancel msg ro f =
    let q = min msg.quantity ro.quantity in
    (op_on cancel msg ro q ∷ [], put_at f msg.order_ref (remaining ro q))
on_order delete msg ro f = (op_on delete msg ro ro.quantity ∷ [], put_at f msg.order_ref none)
on_order replace msg ro f = (
  op_on delete msg ro ro.quantity ∷ op_on add msg (replacement msg ro) msg.quantity ∷ [],
  put_at (put_at f msg.order_ref none) msg.new_order_ref (some (replacement msg ro)),
)
on_order _ msg ro f = ([], f)

-- The whole of `resolve`, on a book in which every new order finds room.
abbrev pub spec_at :
    Action → Order → Option RestingOrder → AbstractBook → Bool × List ResolvedOp × AbstractBook
spec_at a msg none f = (false, [], f)
spec_at a msg (some ro) f = let (ops, f') = on_order a msg ro f in (true, ops, f')

abbrev pub spec : Action → Order → AbstractBook → Bool × List ResolvedOp × AbstractBook
spec no_action msg f = (false, [], f)
spec add msg f = (
  true,
  op_on add msg (resting_of msg) msg.quantity ∷ [],
  put_at f msg.order_ref (some (resting_of msg)),
)
spec trade msg f = (true, trade_of msg ∷ [], f)
spec a msg f = spec_at a msg (f msg.order_ref) f

-- A result of `resolve` that agrees with an abstract one.
pub record Does (r : Resolved) (s : Bool × List ResolvedOp × AbstractBook) : Type 0 where
  pub ok : r.0 ≡ s.0
  pub ops : r.1 ≡ s.1
  pub valid : IsValid r.2
  pub reads : (ref : ℕ) → view r.2 ref ≡ s.2 ref

-- Some slot has never been used.
abbrev pub HasRoom : Book → Type 0
HasRoom b = (i : ℕ) × (i < b.capacity) × (b.state i ≡ empty)

-- Resting quantities are uint32_t.
abbrev pub IsSized : Book → Type 0
IsSized b = (ref : ℕ) (ro : RestingOrder) → view b ref ≡ some ro → ro.quantity < 2 ^ 32
