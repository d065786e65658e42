-- ===== src/Wal.antt =====
-- The write-ahead log: include/wal.hpp and src/wal.cpp. A file is the list of its bytes. How a
-- `WalEntry` lies in memory is the compiler's choice: it is the parameter `Layout`. The clock and
-- what stdio does with a write (`Stdio`) are arguments.
pub mod Replay
pub mod Torn
pub mod Amd64
mod Tests
use tickpipe.Base.{
  ℕ, zero, suc, ◌+◌, ◌^◌, ◌<◌, ◌/◌, not, All, IsByte, Bool, true, false, Option, none, some, List,
  [], ◌∷◌, ◌++◌, ltb, leb, if◌then◌else◌, inc64, length, take, drop, ◌≡◌,
}
use tickpipe.Itch.Order.{Order}
use tickpipe.Engine.Book.{MatchResult}

pub data WalEntryType : Type 0 where
  order_submitted order_matched order_rejected : WalEntryType

pub record WalEntry : Type 0 where
  pub sequence : ℕ
  pub timestamp_ns : ℕ
  pub kind : WalEntryType
  pub order : Order
  pub result : MatchResult

abbrev pub entry_size : ℕ
entry_size = 192

-- The fields of an order and of a result fit their widths.
pub record FitsOrder (o : Order) : Type 0 where
  pub timestamp_ns : o.timestamp_ns < 2 ^ 64
  pub order_ref : o.order_ref < 2 ^ 64
  pub new_order_ref : o.new_order_ref < 2 ^ 64
  pub match_number : o.match_number < 2 ^ 64
  pub quantity : o.quantity < 2 ^ 32
  pub price : o.price < 2 ^ 32
  pub stock_locate : o.stock_locate < 2 ^ 16
  pub valid : o.valid < 2 ^ 8
  pub eight : length o.stock ≡ 8
  pub characters : All IsByte o.stock

pub record FitsResult (r : MatchResult) : Type 0 where
  pub buy_order_ref : r.buy_order_ref < 2 ^ 64
  pub sell_order_ref : r.sell_order_ref < 2 ^ 64
  pub price : r.price < 2 ^ 32
  pub quantity : r.quantity < 2 ^ 32

pub record IsEntry (e : WalEntry) : Type 0 where
  pub sequence : e.sequence < 2 ^ 64
  pub timestamp_ns : e.timestamp_ns < 2 ^ 64
  pub order : FitsOrder e.order
  pub result : FitsResult e.result

-- `sizeof(WalEntry) == 192`, an entry is written as bytes, and those are read as that entry.
pub record Layout : Type 0 where
  pub to_bytes : WalEntry → List ℕ
  pub of_bytes : List ℕ → WalEntry
  pub size : (e : WalEntry) → length (to_bytes e) ≡ entry_size
  pub bytes : (e : WalEntry) → IsEntry e → All IsByte (to_bytes e)
  pub read_back : (e : WalEntry) → IsEntry e → of_bytes (to_bytes e) ≡ e

abbrev pub FileBytes : Type 0
FileBytes = List ℕ

-- An open stream: the file, and the bytes that stdio holds back.
pub record Stream : Type 0 where
  pub on_disk : FileBytes
  pub buffered : FileBytes

-- What stdio and the disk do in one `append`: the bytes that `fwrite` takes, how many of those it
-- holds then go to the file at once, how many `fflush` writes, and whether the stream still holds
-- what `fflush` could not write.
pub record Stdio : Type 0 where
  pub accepted : ℕ
  pub spilled : ℕ
  pub written : ℕ
  pub keeps : Bool

-- `file` is `none` for a null pointer.
pub record WriteAheadLog : Type 0 where
  pub file : Option Stream
  pub sequence : ℕ

abbrev pub closed : WriteAheadLog
closed = record { file = none; sequence = 0 }

-- What another reader of the file sees.
abbrev pub disk : WriteAheadLog → Option FileBytes
disk w = elim w.file [ none ↦ none | some s ↦ some s.on_disk ]

-- `open`, on the file as it is on the disk; `none` if the stream could not be opened.
unfoldable pub open_log : WriteAheadLog → Option FileBytes → Bool × WriteAheadLog
open_log w none = (false, record w { file = none })
open_log w (some bytes) = (
  true,
  record {
    file = some (record { on_disk = bytes; buffered = [] });
    sequence = length bytes / entry_size;
  },
)

-- `close`, of whose buffer the disk takes `written` bytes: the file it leaves, and the log.
unfoldable pub close : WriteAheadLog → ℕ → Option FileBytes × WriteAheadLog
close w written = elim w.file [
  | none ↦ (none, w)
  | some s ↦ (some (s.on_disk ++ take written s.buffered), record w { file = none })
]

-- `fwrite` of an entry's bytes.
unfoldable pub fwrite_entry : Stdio → List ℕ → Stream → Stream
fwrite_entry io bytes s =
    let held = s.buffered ++ take io.accepted bytes in
    record { on_disk = s.on_disk ++ take io.spilled held; buffered = drop io.spilled held }

unfoldable pub fflush : Stdio → Stream → Stream
fflush io s = record {
  on_disk = s.on_disk ++ take io.written s.buffered;
  buffered = if io.keeps then drop io.written s.buffered else [];
}

module _ (layout : Layout) where
  -- `append` to the open stream. What `fflush` returns is not looked at.
  unfoldable pub append_to :
      Stream → ℕ → ℕ → Stdio → WalEntryType → Order → MatchResult → Bool × WriteAheadLog
  append_to s sequence now io kind order result =
      let n = inc64 sequence in
      let entry : WalEntry = record {
        sequence = n;
        timestamp_ns = now;
        kind = kind;
        order = order;
        result = result;
      } in
      let s' = fwrite_entry io (layout.to_bytes entry) s in
      if not (leb entry_size io.accepted)
      then (false, record { file = some s'; sequence = n })
      else (true, record { file = some (fflush io s'); sequence = n })

  unfoldable pub append :
      WriteAheadLog → ℕ → Stdio → WalEntryType → Order → MatchResult → Bool × WriteAheadLog
  append w now io kind order result = elim w.file [
    | none ↦ (false, w)
    | some s ↦ append_to s w.sequence now io kind order result
  ]

  -- The loop of `replay`: the entries that the callback is given. Each round takes an entry's
  -- bytes, so there are at most as many rounds as bytes.
  unfoldable pub replay_loop : ℕ → FileBytes → List WalEntry
  replay_loop zero bytes = []
  replay_loop (suc fuel) bytes =
      let rest =
        layout.of_bytes (take entry_size bytes) ∷ replay_loop fuel (drop entry_size bytes) in
      if ltb (length bytes) entry_size then [] else rest

  -- The entries handed to the callback, and whether there was one.
  unfoldable pub replay : Option FileBytes → Bool × List WalEntry
  replay none = (false, [])
  replay (some bytes) =
      let entries = replay_loop (length bytes) bytes in (ltb 0 (length entries), entries)
