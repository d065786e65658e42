-- ===== src/Engine/Book.antt =====
-- `SoftwareEngine`: both sides, the statistics, `submit`, `apply` and the queries.
pub mod Valid
pub mod Matching
pub mod Capped
mod Tests
use tickpipe.Base.{
  ℕ, ◌+◌, ◌-◌, ◌^◌, Bool, true, false, Option, none, some, List, [], ◌∷◌, ltb, leb, ◌==◌,
  if◌then◌else◌, min, not, u64, inc64,
}
use tickpipe.Itch.Order.{
  Side, Action, no_action, add, execute, cancel, delete, replace, trade, Order, is_buy,
}
use tickpipe.Book.Digest.{fnv_offset}
use tickpipe.Book.Resolve.{ResolvedOp}
use tickpipe.Engine.Ladder.{
  Level, Ladder, descending, ascending, push_back, keep_level, shrink_entry, shrink, strip, scan,
  DepthLevel, depth_walk, best, digest_ladder,
}

pub record MatchResult : Type 0 where
  pub buy_order_ref : ℕ
  pub sell_order_ref : ℕ
  pub price : ℕ
  pub quantity : ℕ
  pub matched : Bool

-- `MatchResult{}`
abbrev pub no_match : MatchResult
no_match = record {
  buy_order_ref = 0;
  sell_order_ref = 0;
  price = 0;
  quantity = 0;
  matched = false;
}

pub record Engine : Type 0 where
  pub bids : Ladder
  pub asks : Ladder
  pub orders_processed : ℕ
  pub matches_made : ℕ
  pub shares_traded : ℕ
  pub orphan_ops : ℕ
  pub last_price : ℕ

-- A new engine, and what `clear` leaves.
abbrev pub cleared : Engine
cleared = record {
  bids = [];
  asks = [];
  orders_processed = 0;
  matches_made = 0;
  shares_traded = 0;
  orphan_ops = 0;
  last_price = 0;
}

unfoldable pub clear : Engine → Engine
clear s = cleared

abbrev pub print_trade : ℕ → ℕ → Engine → Engine
print_trade quantity price s = record s {
  matches_made = inc64 s.matches_made;
  shares_traded = u64 (s.shares_traded + quantity);
  last_price = price;
}

-- No match: rest in the book.
unfoldable pub rest_bid : Engine → Order → Engine
rest_bid s o = record s { bids = push_back descending o.price (o.order_ref, o.quantity) s.bids }

unfoldable pub rest_ask : Engine → Order → Engine
rest_ask s o = record s { asks = push_back ascending o.price (o.order_ref, o.quantity) s.asks }

-- `try_match_buy`. `none` is `front()` of an empty queue, which is undefined.
unfoldable pub try_match_buy : Engine → Order → Ladder → Option (MatchResult × Engine)
try_match_buy s o [] = some (no_match, rest_bid s o)
try_match_buy s o ((px, []) ∷ rest) = if leb px o.price then none else some (no_match, rest_bid s o)
try_match_buy s o ((px, (ref, qty) ∷ queue) ∷ rest) =
    let filled = min o.quantity qty in
    let result : MatchResult = record {
      buy_order_ref = o.order_ref;
      sell_order_ref = ref;
      price = px;
      quantity = filled;
      matched = true;
    } in
    if leb px o.price
    then some (
      result,
      print_trade filled px
          (record s { asks = keep_level px (shrink_entry ref qty o.quantity queue) rest }),
    )
    else some (no_match, rest_bid s o)

-- `try_match_sell`
unfoldable pub try_match_sell : Engine → Order → Ladder → Option (MatchResult × Engine)
try_match_sell s o [] = some (no_match, rest_ask s o)
try_match_sell s o ((px, []) ∷ rest) =
    if leb o.price px then none else some (no_match, rest_ask s o)
try_match_sell s o ((px, (ref, qty) ∷ queue) ∷ rest) =
    let filled = min o.quantity qty in
    let result : MatchResult = record {
      buy_order_ref = ref;
      sell_order_ref = o.order_ref;
      price = px;
      quantity = filled;
      matched = true;
    } in
    if leb o.price px
    then some (
      result,
      print_trade filled px
          (record s { bids = keep_level px (shrink_entry ref qty o.quantity queue) rest }),
    )
    else some (no_match, rest_ask s o)

unfoldable pub submit : Engine → Order → Option (MatchResult × Engine)
submit s o =
    let s' = record s { orders_processed = inc64 s.orders_processed } in
    if is_buy o.side then try_match_buy s' o s.asks else try_match_sell s' o s.bids

-- `rest_order`: an order for no shares does not rest.
unfoldable pub rest_order : Side → ℕ → ℕ → ℕ → Engine → Engine
rest_order side price ref qty s =
    if qty == 0
    then s
    else if is_buy side
    then record s { bids = push_back descending price (ref, qty) s.bids }
    else record s { asks = push_back ascending price (ref, qty) s.asks }

-- A search on one side; `none` stands for false, with the book as it was.
unfoldable pub on_side : Side → (Ladder → Option Ladder) → Engine → Option Engine
on_side side change s =
    if is_buy side
    then elim (change s.bids) [ none ↦ none | some l ↦ some (record s { bids = l }) ]
    else elim (change s.asks) [ none ↦ none | some l ↦ some (record s { asks = l }) ]

unfoldable pub remove_ref : Side → ℕ → ℕ → Engine → Option Engine
remove_ref side price ref = on_side side (strip price ref)

unfoldable pub reduce_ref : Side → ℕ → ℕ → ℕ → Engine → Option Engine
reduce_ref side price ref qty = on_side side (shrink price ref qty)

-- `++orphan_ops_` where the reference is not found.
abbrev pub or_orphan : Engine → Option Engine → Engine
or_orphan s none = record s { orphan_ops = inc64 s.orphan_ops }
or_orphan s (some s') = s'

-- The removal of `Action::Execute`: at its level, or by a scan of that side.
unfoldable pub execute_shares : ResolvedOp → Engine → Engine
execute_shares op s = elim (reduce_ref op.side op.price op.order_ref op.quantity s) [
  | some s' ↦ s'
  | none ↦ or_orphan s (on_side op.side (scan op.order_ref op.quantity) s)
]

unfoldable pub apply_case : Action → ResolvedOp → Engine → Engine
apply_case add op s =
    let s' = rest_order op.side op.price op.order_ref op.quantity s in
    record s' { orders_processed = inc64 s'.orders_processed }
apply_case execute op s =
    let s' = execute_shares op s in
    if not (op.match_number == 0) then print_trade op.quantity op.price s' else s'
apply_case cancel op s = or_orphan s (reduce_ref op.side op.price op.order_ref op.quantity s)
apply_case delete op s = or_orphan s (remove_ref op.side op.price op.order_ref s)
apply_case trade op s = print_trade op.quantity op.price s
apply_case replace op s = s
apply_case no_action op s = s

unfoldable pub apply : Engine → ResolvedOp → Engine
apply s op = apply_case op.action op s

-- The levels that `depth` writes; it returns their number.
unfoldable pub depth : Engine → Side → ℕ → List DepthLevel
depth s side max = if is_buy side then depth_walk max 0 s.bids else depth_walk max 0 s.asks

unfoldable pub best_bid : Engine → Option (ℕ × ℕ)
best_bid s = best s.bids

unfoldable pub best_ask : Engine → Option (ℕ × ℕ)
best_ask s = best s.asks

unfoldable pub book_digest : Engine → ℕ
book_digest s = digest_ladder (digest_ladder fnv_offset s.bids) s.asks
