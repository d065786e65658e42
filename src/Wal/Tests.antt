-- ===== src/Wal/Tests.antt =====
-- Requests appended to an empty log, in the layout of x86-64.
use tickpipe.Base.{◌≡◌, refl, true, false, some, List, [], ◌∷◌, arith, All}
use tickpipe.Itch.Order.{empty_order}
use tickpipe.Engine.Book.{no_match}
use tickpipe.Wal.{
  order_submitted, order_matched, order_rejected, Stdio, FitsOrder, FitsResult, disk, closed,
  open_log, append, replay,
}
use tickpipe.Wal.Amd64.{amd64}
use tickpipe.Wal.Torn.{append-torn}
use tickpipe.Wal.Replay.{Request, IsRequest, entries_from, append_all, replay-append_all}

-- The first entry goes to the disk when it is written, the second when it is flushed.
abbrev at_once : Stdio
at_once = record { accepted = 192; spilled = 192; written = 0; keeps = true }

abbrev flushed : Stdio
flushed = record { accepted = 192; spilled = 0; written = 192; keeps = false }

-- `fwrite` takes all of the third, of which `fflush` writes 100 bytes.
abbrev cut : Stdio
cut = record { accepted = 192; spilled = 0; written = 100; keeps = false }

abbrev requests : List Request
requests =
    record {
      now = 10;
      io = at_once;
      kind = order_submitted;
      order = empty_order;
      result = no_match;
    }
    ∷ record {
      now = 20;
      io = flushed;
      kind = order_rejected;
      order = empty_order;
      result = no_match;
    }
    ∷ []

abbrev last_request : Request
last_request = record {
  now = 30;
  io = cut;
  kind = order_matched;
  order = empty_order;
  result = no_match;
}

empty_order-Fits : FitsOrder empty_order
empty_order-Fits = record {
  timestamp_ns = omega arith;
  order_ref = omega arith;
  new_order_ref = omega arith;
  match_number = omega arith;
  quantity = omega arith;
  price = omega arith;
  stock_locate = omega arith;
  valid = omega arith;
  eight = refl;
  characters = ground arith;
}

no_match-Fits : FitsResult no_match
no_match-Fits = record {
  buy_order_ref = omega arith;
  sell_order_ref = omega arith;
  price = omega arith;
  quantity = omega arith;
}

requests-IsRequest : All IsRequest requests
requests-IsRequest = (
  record {
    whole = record { accepted = omega arith; written = omega arith };
    loggable = record { now = omega arith; order = empty_order-Fits; result = no_match-Fits };
  },
  (
    record {
      whole = record { accepted = omega arith; written = omega arith };
      loggable = record { now = omega arith; order = empty_order-Fits; result = no_match-Fits };
    },
    tt,
  ),
)

replay-append_all_example :
    replay amd64 (disk (append_all amd64 (open_log closed (some [])).1 requests))
    ≡ (true, entries_from 0 requests)
replay-append_all_example = replay-append_all amd64 closed [] requests tt requests-IsRequest

-- `append` returns true, and the entry is not in the log.
append-torn_example :
    let before = append_all amd64 (open_log closed (some [])).1 requests in
    let (ok, after) = append amd64 before 30 cut order_matched empty_order no_match in
    (ok ≡ true) × (replay amd64 (disk after) ≡ (true, entries_from 0 requests))
append-torn_example =
    append-torn amd64 closed [] requests last_request tt requests-IsRequest
      (record { now = omega arith; order = empty_order-Fits; result = no_match-Fits })
