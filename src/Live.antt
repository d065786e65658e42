-- ===== src/Live.antt =====
-- The live consumer of src/live_exchange_main.cpp: `on_order`, and the state that `main` sets up.
pub mod Ladders
pub mod Sizes
pub mod Frames
mod Tests
use tickpipe.Base.{
  ℕ, ◌+◌, Bool, true, false, Option, some, List, [], ◌∷◌, leb, if◌then◌else◌, inc64,
}
use tickpipe.Itch.Order.{Action, add, Order, empty_order}
use tickpipe.Book.Table
use tickpipe.Book.Table.{RestingOrder, Book}
use tickpipe.Book.Resolve.{ResolvedOp, resolve}
use tickpipe.Engine.Book.{Engine, cleared, apply, no_match}
use tickpipe.Risk
use tickpipe.Risk.{RiskEngine, RiskResult, accepted, check, set_reference_price}
use tickpipe.Symbols
use tickpipe.Symbols.{SymbolDirectory, pad8, subscribe}
use tickpipe.Visualizer
use tickpipe.Visualizer.{Visualizer, Frame, render}
use tickpipe.Wal.{
  Layout, Stdio, FileBytes, WriteAheadLog, closed, open_log, append, WalEntryType, order_submitted,
  order_rejected,
}

-- The clock readings are nanoseconds. The frames that were drawn stand last first, each with its
-- time; the code does not keep them.
pub record ExchangeState : Type 0 where
  pub book : Book
  pub engine : Engine
  pub risk : RiskEngine
  pub wal : WriteAheadLog
  pub messages : ℕ
  pub rejected : ℕ
  pub last_ts : ℕ
  pub viz : Visualizer
  pub next_render : ℕ
  pub frames : List (ℕ × Frame)

abbrev pub is_accepted : RiskResult → Bool
is_accepted accepted = true
is_accepted _ = false

abbrev pub is_add : Action → Bool
is_add add = true
is_add _ = false

-- The order that the risk engine is shown.
unfoldable pub probe_of : ResolvedOp → Order
probe_of op = record empty_order {
  order_ref = op.order_ref;
  price = op.price;
  quantity = op.quantity;
  side = op.side;
  timestamp_ns = op.timestamp_ns;
  valid = 1;
  stock = op.stock;
}

-- The screen is drawn when it is due, and next after 100 ms.
unfoldable pub show : ℕ → ExchangeState → ExchangeState
show tick s =
    let (frame, viz) = render s.viz s.engine s.last_ts s.engine.last_price in
    if leb s.next_render tick
    then record s { viz = viz; next_render = tick + 100_000_000; frames = (tick, frame) ∷ s.frames }
    else s

-- `now` is the clock of the log and `io` what its stream does.
module _ (layout : Layout) (now : ℕ) (io : Stdio) where
  unfoldable pub log : WalEntryType → Order → ExchangeState → ExchangeState
  log kind probe s = record s { wal = (append layout s.wal now io kind probe no_match).1 }

  -- An add is checked and logged before it rests; a rejected one is only logged.
  unfoldable pub on_add : ResolvedOp → ExchangeState → ExchangeState
  on_add op s =
      let probe = probe_of op in
      let (verdict, risk) = check s.risk probe in
      let s' = record s { risk = risk } in
      let refused = log order_rejected probe s' in
      let logged = log order_submitted probe s' in
      if is_accepted verdict
      then record logged { engine = apply s.engine op }
      else record refused { rejected = inc64 s.rejected }

  unfoldable pub on_op : ResolvedOp → ExchangeState → ExchangeState
  on_op op s = if is_add op.action then on_add op s else record s { engine = apply s.engine op }

  unfoldable pub on_ops : List ResolvedOp → ExchangeState → ExchangeState
  on_ops [] s = s
  on_ops (op ∷ ops) s = on_ops ops (on_op op s)

  unfoldable pub on_order : ℕ → Order → ExchangeState → ExchangeState
  on_order tick msg s =
      let (ok, ops, book) = resolve s.book msg in
      let s' = record s { messages = inc64 s.messages; last_ts = msg.timestamp_ns; book = book } in
      show tick (if ok then on_ops ops s' else s')

-- `set_ref`, whose ticker is cut or padded to eight characters.
unfoldable pub set_ref : RiskEngine → List ℕ × ℕ → RiskEngine
set_ref r (ticker, price) = set_reference_price r (pad8 ticker) price

abbrev pub references : List (List ℕ × ℕ)
references =
    ((b'A' ∷ b'A' ∷ b'P' ∷ b'L' ∷ []), 2_100_000)
    ∷ ((b'M' ∷ b'S' ∷ b'F' ∷ b'T' ∷ []), 1_400_000)
    ∷ ((b'A' ∷ b'M' ∷ b'Z' ∷ b'N' ∷ []), 18_000_000)
    ∷ ((b'G' ∷ b'O' ∷ b'O' ∷ b'G' ∷ []), 12_000_000)
    ∷ ((b'M' ∷ b'E' ∷ b'T' ∷ b'A' ∷ []), 1_900_000)
    ∷ []

unfoldable pub set_refs : RiskEngine → List (List ℕ × ℕ) → RiskEngine
set_refs r [] = r
set_refs r (x ∷ xs) = set_refs (set_ref r x) xs

-- The state before the first message. The table's memory, the log on the disk and the clock are
-- arguments.
unfoldable pub start : (ℕ → RestingOrder) → Option FileBytes → ℕ → ExchangeState
start slots log tick = record {
  book = Table.new slots 22;
  engine = cleared;
  risk = set_refs Risk.new references;
  wal = (open_log closed log).1;
  messages = 0;
  rejected = 0;
  last_ts = 0;
  viz = Visualizer.new;
  next_render = tick;
  frames = [];
}

-- The directory that the receiver is given.
unfoldable pub watched : SymbolDirectory
watched = (subscribe Symbols.new (some (b'A' ∷ b'A' ∷ b'P' ∷ b'L' ∷ []))).1
