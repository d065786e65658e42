-- ===== src/Book/Resolve.antt =====
-- `BookState::resolve`. The operations written to `out` are a list, whose length is `out.count`.
pub mod Effect
pub mod Spec
pub mod Refine
mod Tests
use tickpipe.Base.{
  ℕ, ◌+◌, ◌-◌, Bool, true, false, Option, none, some, List, [], ◌∷◌, ltb, ◌==◌, if◌then◌else◌,
  update, sub32, inc64, not,
}
use tickpipe.Itch.Order.{
  Side, Action, no_action, add, execute, cancel, delete, replace, trade, Order, side_code,
  action_code,
}
use tickpipe.Book.Digest.{fold}
use tickpipe.Book.Table.{RestingOrder, Stats, Book, find, insert, erase}

pub record ResolvedOp : Type 0 where
  pub action : Action
  pub order_ref : ℕ
  pub quantity : ℕ
  pub price : ℕ
  pub match_number : ℕ
  pub timestamp_ns : ℕ
  pub side : Side
  pub stock : List ℕ

unfoldable pub fold_op : ℕ → ResolvedOp → ℕ
fold_op h op =
    let h1 = fold h (action_code op.action) in
    let h2 = fold h1 op.order_ref in
    let h3 = fold h2 op.quantity in let h4 = fold h3 op.price in fold h4 (side_code op.side)

-- What `resolve_impl` and `resolve` return and leave behind.
abbrev pub Resolved : Type 0
Resolved = Bool × List ResolvedOp × Book

abbrev pub fewer : ℕ → ℕ → ℕ
fewer a b = if ltb a b then a else b

-- `ro->quantity -= q; if (ro->quantity == 0) erase(ref);`
unfoldable pub take_shares : Book → ℕ → ℕ → ℕ → Book
take_shares b idx ref q =
    let ro = b.slots idx in
    let left = sub32 ro.quantity q in
    let b' = record b { slots = update b.slots idx (record ro { quantity = left }) } in
    if left == 0 then (erase b' ref).1 else b'

abbrev pub unresolved : Book → Resolved
unresolved b =
    (false, [], record b { stats = record (b.stats) { unresolved = inc64 b.stats.unresolved } })

-- `Action::Add`
unfoldable pub resolve_add : Book → Order → Resolved
resolve_add b msg =
    let ro : RestingOrder = record {
      order_ref = msg.order_ref;
      quantity = msg.quantity;
      price = msg.price;
      side = msg.side;
      stock = msg.stock;
    } in
    let op : ResolvedOp = record {
      action = add;
      order_ref = msg.order_ref;
      quantity = msg.quantity;
      price = msg.price;
      match_number = 0;
      timestamp_ns = msg.timestamp_ns;
      side = msg.side;
      stock = msg.stock;
    } in
    let (inserted, b') = insert b ro in
    if not inserted
    then (false, [], b')
    else (true, op ∷ [], record b' { stats = record (b'.stats) { adds = inc64 b'.stats.adds } })

-- `Action::Execute`, with the slot that `find` returned.
unfoldable pub execute_at : Book → Order → ℕ → Resolved
execute_at b msg idx =
    let ro = b.slots idx in
    let filled = fewer msg.quantity ro.quantity in
    let op : ResolvedOp = record {
      action = execute;
      order_ref = msg.order_ref;
      quantity = filled;
      price = if not (msg.price == 0) then msg.price else ro.price;
      match_number = msg.match_number;
      timestamp_ns = msg.timestamp_ns;
      side = ro.side;
      stock = ro.stock;
    } in
    let b' = take_shares b idx msg.order_ref filled in
    (true, op ∷ [], record b' { stats = record (b'.stats) { executes = inc64 b'.stats.executes } })

-- `Action::Cancel`
unfoldable pub cancel_at : Book → Order → ℕ → Resolved
cancel_at b msg idx =
    let ro = b.slots idx in
    let pulled = fewer msg.quantity ro.quantity in
    let op : ResolvedOp = record {
      action = cancel;
      order_ref = msg.order_ref;
      quantity = pulled;
      price = ro.price;
      match_number = 0;
      timestamp_ns = msg.timestamp_ns;
      side = ro.side;
      stock = ro.stock;
    } in
    let b' = take_shares b idx msg.order_ref pulled in
    (true, op ∷ [], record b' { stats = record (b'.stats) { cancels = inc64 b'.stats.cancels } })

-- The removal that `Action::Delete` and `Action::Replace` hand on.
unfoldable pub removal : Order → RestingOrder → ResolvedOp
removal msg ro = record {
  action = delete;
  order_ref = msg.order_ref;
  quantity = ro.quantity;
  price = ro.price;
  match_number = 0;
  timestamp_ns = msg.timestamp_ns;
  side = ro.side;
  stock = ro.stock;
}

-- `Action::Delete`
unfoldable pub delete_at : Book → Order → ℕ → Resolved
delete_at b msg idx =
    let b' = (erase b msg.order_ref).1 in
    (
      true,
      removal msg (b.slots idx) ∷ [],
      record b' { stats = record (b'.stats) { deletes = inc64 b'.stats.deletes } },
    )

-- `Action::Replace`: the old order goes and the new one takes its side and symbol.
unfoldable pub replace_at : Book → Order → ℕ → Resolved
replace_at b msg idx =
    let ro = b.slots idx in
    let del = removal msg ro in
    let b1 = (erase b msg.order_ref).1 in
    let nro : RestingOrder = record {
      order_ref = msg.new_order_ref;
      quantity = msg.quantity;
      price = msg.price;
      side = ro.side;
      stock = ro.stock;
    } in
    let op : ResolvedOp = record {
      action = add;
      order_ref = msg.new_order_ref;
      quantity = msg.quantity;
      price = msg.price;
      match_number = 0;
      timestamp_ns = msg.timestamp_ns;
      side = ro.side;
      stock = ro.stock;
    } in
    let (inserted, b') = insert b1 nro in
    if not inserted then (true, del ∷ [], b') else (
      true,
      del ∷ op ∷ [],
      record b' { stats = record (b'.stats) { replaces = inc64 b'.stats.replaces } },
    )

-- `Action::Trade`: nothing rests, so the table is left alone.
unfoldable pub resolve_trade : Book → Order → Resolved
resolve_trade b msg =
    let op : ResolvedOp = record {
      action = trade;
      order_ref = msg.order_ref;
      quantity = msg.quantity;
      price = msg.price;
      match_number = msg.match_number;
      timestamp_ns = msg.timestamp_ns;
      side = msg.side;
      stock = msg.stock;
    } in
    (true, op ∷ [], record b { stats = record (b.stats) { trades = inc64 b.stats.trades } })

-- What a handler does with the pointer that `find` returned.
unfoldable pub with_slot : Order → (Book → Order → ℕ → Resolved) → Option ℕ × Book → Resolved
with_slot msg act (none, b) = unresolved b
with_slot msg act (some idx, b) = act b msg idx

-- `RestingOrder* ro = find(msg.order_ref); if (!ro) …`
unfoldable pub on_resting : Book → Order → (Book → Order → ℕ → Resolved) → Resolved
unfolding with_slot
on_resting b msg act = with_slot msg act (find b msg.order_ref)

-- The cases of `resolve_impl`.
unfoldable pub resolve_case : Action → Book → Order → Resolved
resolve_case add b msg = resolve_add b msg
resolve_case execute b msg = on_resting b msg execute_at
resolve_case cancel b msg = on_resting b msg cancel_at
resolve_case delete b msg = on_resting b msg delete_at
resolve_case replace b msg = on_resting b msg replace_at
resolve_case trade b msg = resolve_trade b msg
resolve_case no_action b msg = (false, [], b)

unfoldable pub resolve_impl : Book → Order → Resolved
resolve_impl b msg = resolve_case msg.action b msg

unfoldable pub fold_ops : ℕ → List ResolvedOp → ℕ
fold_ops h [] = h
fold_ops h (op ∷ ops) = fold_ops (fold_op h op) ops

unfoldable pub resolve : Book → Order → Resolved
resolve b msg =
    let (ok, ops, b') = resolve_impl b msg in
    if ok then (ok, ops, record b' { digest = fold_ops b'.digest ops }) else (ok, ops, b')
