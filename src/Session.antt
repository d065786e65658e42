-- ===== src/Session.antt =====
-- The replay of a session in src/main.cpp: `on_message` with its snapshot at the close, and the work
-- of `on_paced` on the book.
pub mod Close
mod Tests
use tickpipe.Base.{
  ℕ, Bool, true, false, Option, none, some, List, [], ◌∷◌, ◌||◌, ◌&&◌, not, ltb, leb, ◌==◌,
  if◌then◌else◌, length, inc64,
}
use tickpipe.Itch.Order.{Side, buy, sell, no_side, Action, execute, trade, Order}
use tickpipe.Book.Table.{Book}
use tickpipe.Book.Resolve.{ResolvedOp, resolve}
use tickpipe.Engine.Book.{Engine, apply, best_bid, best_ask, book_digest}
use tickpipe.Micro.{Metrics, Microstructure, on_book, on_trade}

-- 16:00:00 and 09:30:00 in nanoseconds.
abbrev pub market_close : ℕ
market_close = 57_600_000_000_000

abbrev pub market_open : ℕ
market_open = 34_200_000_000_000

-- The fields `close_…` of `ReplayCtx`, but for `close_taken`. A price stands with its quantity.
pub record Snapshot : Type 0 where
  pub micro : Metrics
  pub digest : ℕ
  pub bid : ℕ × ℕ
  pub ask : ℕ × ℕ
  pub last : ℕ
  pub shares : ℕ
  pub bid_levels : ℕ
  pub ask_levels : ℕ

pub record ReplayCtx : Type 0 where
  pub book : Book
  pub engine : Engine
  pub micro : Microstructure
  pub last_bid : ℕ × ℕ
  pub last_ask : ℕ × ℕ
  pub close_taken : Bool
  pub close : Snapshot

-- `best_bid` and `best_ask` leave their arguments as they are on an empty side.
abbrev pub assign : Option (ℕ × ℕ) → ℕ × ℕ → ℕ × ℕ
assign none old = old
assign (some new) old = new

unfoldable pub snapshot : ReplayCtx → Snapshot
snapshot c = record {
  micro = c.micro.m;
  digest = book_digest c.engine;
  bid = assign (best_bid c.engine) c.close.bid;
  ask = assign (best_ask c.engine) c.close.ask;
  last = c.engine.last_price;
  shares = c.engine.shares_traded;
  bid_levels = length c.engine.bids;
  ask_levels = length c.engine.asks;
}

-- The first message at or past the bell, before it is applied.
unfoldable pub take_close : ReplayCtx → ℕ → ReplayCtx
take_close c timestamp_ns =
    if not c.close_taken && leb market_close timestamp_ns
    then record c { close_taken = true; close = snapshot c }
    else c

abbrev pub is_trade : Action → Bool
is_trade execute = true
is_trade trade = true
is_trade _ = false

abbrev pub is_sell : Side → Bool
is_sell sell = true
is_sell _ = false

-- One operation; a printed execution is a trade of the side that was not resting.
unfoldable pub on_op : ResolvedOp → ReplayCtx → ReplayCtx
on_op op c =
    let c' = record c { engine = apply c.engine op } in
    if is_trade op.action && not (op.match_number == 0)
    then record c' { micro = on_trade c.micro op.price op.quantity (is_sell op.side) }
    else c'

unfoldable pub on_ops : List ResolvedOp → ReplayCtx → ReplayCtx
on_ops [] c = c
on_ops (op ∷ ops) c = on_ops ops (on_op op c)

abbrev pub same_top : ℕ × ℕ → ℕ × ℕ → Bool
same_top (px, qty) (px', qty') = (px == px') && (qty == qty')

-- The analytics move when the top of a two-sided book does.
unfoldable pub observe_top : ReplayCtx → Option (ℕ × ℕ) → Option (ℕ × ℕ) → ReplayCtx
observe_top c none ask = c
observe_top c (some bid) none = c
observe_top c (some bid) (some ask) =
    if same_top bid c.last_bid && same_top ask c.last_ask then c else record c {
      micro = on_book c.micro bid.0 bid.1 ask.0 ask.1;
      last_bid = bid;
      last_ask = ask;
    }

unfoldable pub observe : ReplayCtx → ReplayCtx
observe c = observe_top c (best_bid c.engine) (best_ask c.engine)

unfoldable pub on_message : Order → ReplayCtx → ReplayCtx
on_message msg c =
    let c1 = take_close c msg.timestamp_ns in
    let (ok, ops, book) = resolve c1.book msg in
    let c2 = record c1 { book = book } in if not ok then c2 else observe (on_ops ops c2)

-- `on_paced`, up to the clock: whether the message is one to wait for and to draw.
pub record PacedCtx : Type 0 where
  pub book : Book
  pub engine : Engine
  pub itch_t0 : ℕ
  pub msgs : ℕ
  pub started : Bool

unfoldable pub apply_all : List ResolvedOp → Engine → Engine
apply_all [] e = e
apply_all (op ∷ ops) e = apply_all ops (apply e op)

unfoldable pub on_paced : Order → PacedCtx → Bool × PacedCtx
on_paced msg x =
    let (ok, ops, book) = resolve x.book msg in
    let x1 = record x {
      book = book;
      engine = if ok then apply_all ops x.engine else x.engine;
      msgs = inc64 x.msgs;
    } in
    if ltb msg.timestamp_ns market_open
    then (false, x1)
    else if x.started
    then (true, x1)
    else (true, record x1 { started = true; itch_t0 = msg.timestamp_ns })
