-- ===== src/Feed/Replay.antt =====
-- `ItchReplay::replay_all`: the walk over the mapped file. The orders that the callback is given
-- are a list. Reading the clock is left out.
pub mod Account
mod Tests
use tickpipe.Base.{
  ℕ, zero, suc, ◌+◌, Bool, true, false, ◌||◌, ◌&&◌, not, Option, none, some, List, [], ◌∷◌, ◌++◌,
  ltb, leb, ◌==◌, if◌then◌else◌, Bytes, advance, u64, inc64,
}
use tickpipe.Itch.Order.{Order, empty_order}
use tickpipe.Itch.Parser.{Counts, be16, parse, no_counts}
use tickpipe.Symbols.{SymbolDirectory, feed, is_subscribed}

pub record Stats : Type 0 where
  pub messages_total : ℕ
  pub messages_parsed : ℕ
  pub messages_skipped : ℕ
  pub messages_filtered : ℕ
  pub directory_messages : ℕ
  pub bytes_read : ℕ

-- The locals of `replay_all` and the directory.
pub record Walk : Type 0 where
  pub stats : Stats
  pub parser : Counts
  pub order : Order
  pub directory : Option SymbolDirectory

unfoldable pub start : Option SymbolDirectory → Walk
start directory = record {
  stats = record {
    messages_total = 0;
    messages_parsed = 0;
    messages_skipped = 0;
    messages_filtered = 0;
    directory_messages = 0;
    bytes_read = 0;
  };
  parser = no_counts;
  order = empty_order;
  directory = directory;
}

-- A round returns the orders, and whether it came to the test of `max_messages` behind the parser,
-- which `continue` leaves out.
unfoldable pub parse_message : Walk → Bytes → ℕ → List Order × Bool × Walk
parse_message w p len =
    let (ok, order, counts) = parse w.parser (some p) len w.order in
    let w' = record w { parser = counts; order = order } in
    if ok
    then (
      order ∷ [],
      true,
      record w' { stats = record (w.stats) { messages_parsed = inc64 w.stats.messages_parsed } },
    )
    else (
      [],
      true,
      record w' { stats = record (w.stats) { messages_skipped = inc64 w.stats.messages_skipped } },
    )

unfoldable pub handle_known : Walk → SymbolDirectory → Bytes → ℕ → List Order × Bool × Walk
handle_known w dir p len =
    let (consumed, dir') = feed dir (some p) len in
    let w' = record w { directory = some dir' } in
    if consumed
    then (
      [],
      false,
      record w' {
        stats = record (w.stats) { directory_messages = inc64 w.stats.directory_messages };
      },
    )
    else if leb 3 len && not (is_subscribed dir' (be16 (advance p 1)))
    then (
      [],
      false,
      record w' {
        stats = record (w.stats) { messages_filtered = inc64 w.stats.messages_filtered };
      },
    )
    else parse_message w' p len

-- One message, counted and handed on.
unfoldable pub handle_message : Walk → Bytes → ℕ → List Order × Bool × Walk
handle_message w p len =
    let w' = record w {
      stats = record (w.stats) {
        messages_total = inc64 w.stats.messages_total;
        bytes_read = u64 (w.stats.bytes_read + 2 + len);
      };
    } in
    elim w.directory [ none ↦ parse_message w' p len | some dir ↦ handle_known w' dir p len ]

-- `if (cfg.max_messages && stats.messages_total >= cfg.max_messages) break;`
abbrev pub at_limit : ℕ → Walk → Bool
at_limit max_messages w = not (max_messages == 0) && leb max_messages w.stats.messages_total

-- The loop, at offset `off` of `size` bytes. A round takes three bytes at least, so `size` rounds
-- are enough.
unfoldable pub replay_loop : Bytes → ℕ → ℕ → ℕ → ℕ → Walk → List Order × Walk
replay_loop file size max_messages zero off w = ([], w)
replay_loop file size max_messages (suc fuel) off w =
    let len = be16 (advance file off) in
    let body = off + 2 in
    let (orders, parsed, w') = handle_message w (advance file body) len in
    let rest = replay_loop file size max_messages fuel (body + len) w' in
    let next : List Order × Walk = (orders ++ rest.0, rest.1) in
    let done : List Order × Walk = (orders, w') in
    if ltb size (off + 2)
    then ([], w)
    else if len == 0 || ltb size (body + len)
    then ([], w)
    else if parsed && at_limit max_messages w'
    then done
    else next

-- The file is `none` when it is not mapped.
unfoldable pub replay_all : Option (Bytes × ℕ) → Option SymbolDirectory → ℕ → List Order × Walk
replay_all none directory max_messages = ([], start directory)
replay_all (some (file, size)) directory max_messages =
    replay_loop file size max_messages size 0 (start directory)
