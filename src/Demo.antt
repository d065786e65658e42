-- ===== src/Demo.antt =====
-- The sections of src/main.cpp that run the parser, the risk engine, the log and the OUCH writers on
-- inputs of their own. The comparison of the engines is in Bench; what is timed and printed is left
-- out.
mod Tests
use tickpipe.Base.{
  ℕ, zero, suc, ◌+◌, Bool, true, false, some, none, Option, List, [], ◌∷◌, Bytes, bytes_of, length,
}
use tickpipe.Itch.Order.{Side, buy, sell, Order, empty_order}
use tickpipe.Itch.Parser.{Counts, no_counts, parse}
use tickpipe.Engine.Book.{MatchResult, no_match}
use tickpipe.Risk
use tickpipe.Risk.{RiskResult, RiskEngine, check, set_reference_price}
use tickpipe.Wal.{
  Layout, Stdio, FileBytes, WriteAheadLog, WalEntryType, order_submitted, order_matched,
  order_rejected, WalEntry, closed, open_log, close, append, entry_size, replay,
}
use tickpipe.Ouch.{write_accepted, write_rejected, write_executed}

abbrev pub aapl : List ℕ
aapl = b'A' ∷ b'A' ∷ b'P' ∷ b'L' ∷ b' ' ∷ b' ' ∷ b' ' ∷ b' ' ∷ []

-- The order of every section: `Order o{}` with these fields.
unfoldable pub order_of : ℕ → ℕ → ℕ → Side → Order
order_of ref price qty side = record empty_order {
  order_ref = ref;
  price = price;
  quantity = qty;
  side = side;
  valid = 1;
  stock = aapl;
}

-- `demo_itch_parser`
abbrev pub itch_message : List ℕ
itch_message =
    b'A' ∷ 0 ∷ 1 ∷ 0 ∷ 0 ∷ 0 ∷ 0 ∷ 15 ∷ 66 ∷ 64 ∷ 0 ∷ 0 ∷ 0 ∷ 0 ∷ 0 ∷ 0 ∷ 0 ∷ 0 ∷ 1 ∷ b'B' ∷ 0 ∷ 0
    ∷ 0 ∷ 100 ∷ b'A' ∷ b'A' ∷ b'P' ∷ b'L' ∷ b' ' ∷ b' ' ∷ b' ' ∷ b' ' ∷ 0 ∷ 22 ∷ 227 ∷ 96 ∷ []

unfoldable pub parse_times : ℕ → Counts → Order → Order × Counts
parse_times zero c order = (order, c)
parse_times (suc n) c order =
    let (ok, order', c') = parse c (some (bytes_of itch_message)) (length itch_message) order in
    parse_times n c' order'

unfoldable pub demo_itch_parser : Order × Counts
demo_itch_parser =
    let (order, c) = parse_times 100_000 no_counts empty_order in parse_times 1_000_000 c order

-- `test` of `demo_risk_engine`, and its calls.
unfoldable pub test : RiskEngine → ℕ → ℕ → Side → RiskResult × RiskEngine
test risk qty price side = check risk (order_of 1 price qty side)

unfoldable pub test_all : RiskEngine → List (ℕ × ℕ × Side) → List RiskResult × RiskEngine
test_all risk [] = ([], risk)
test_all risk ((qty, price, side) ∷ rest) =
    let (verdict, risk') = test risk qty price side in
    let (verdicts, last) = test_all risk' rest in (verdict ∷ verdicts, last)

unfoldable pub demo_risk_engine : List RiskResult × RiskEngine
demo_risk_engine = test_all (set_reference_price Risk.new aapl 1_500_000) (
    (100, 1_500_000, buy)
    ∷ (50_000, 1_500_000, buy)
    ∷ (100, 2_000_000, buy)
    ∷ (0, 1_500_000, buy)
    ∷ (100, 1_500_000, sell)
    ∷ [])

-- A stream that takes an entry, and writes it when it is flushed.
abbrev pub flushing : Stdio
flushing = record { accepted = entry_size; spilled = 0; written = entry_size; keeps = false }

-- `write_entry` of `demo_wal`, at a time, with such a stream.
module _ (layout : Layout) where
  unfoldable pub write_entry : WriteAheadLog → ℕ → ℕ → Side → ℕ → WalEntryType → WriteAheadLog
  write_entry wal now id side qty kind =
      (append layout wal now flushing kind (order_of id 1_500_000 qty side) no_match).1

  -- The five entries in a log as it is on the disk, and what the replay hands to the callback.
  unfoldable pub demo_wal : Option FileBytes → (ℕ → ℕ) → Bool × List WalEntry
  demo_wal disk now =
      let w0 = (open_log closed disk).1 in
      let w1 = write_entry w0 (now 1) 1 sell 100 order_submitted in
      let w2 = write_entry w1 (now 2) 2 buy 100 order_submitted in
      let w3 = write_entry w2 (now 3) 3 buy 100 order_matched in
      let w4 = write_entry w3 (now 4) 4 buy 50_000 order_rejected in
      let w5 = write_entry w4 (now 5) 5 sell 200 order_submitted in replay layout (close w5 0).0

-- The lengths that `demo_ouch` prints, for a buffer and a time.
unfoldable pub demo_ouch : Bytes → ℕ → ℕ × ℕ × ℕ
demo_ouch buf ts =
    let o = order_of 42 1_500_000 100 buy in
    let result : MatchResult = record {
      matched = true;
      buy_order_ref = 42;
      sell_order_ref = 43;
      price = 1_500_000;
      quantity = 100;
    } in
    let (n1, b1) = write_accepted (some buf) 64 o ts in
    let (n2, b2) = write_rejected b1 64 o 1 ts in
    let (n3, b3) = write_executed b2 64 o result 1 ts in (n1, n2, n3)
