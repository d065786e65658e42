-- ===== src/Demo/Tests.antt =====
-- What the sections print: the verdicts, the entries replayed, the lengths.
use mathlib.Core.List.{append-nil}
use tickpipe.Base.{
  ℕ, ◌+ℤ◌, ◌-ℤ◌, ◌≡◌, ◌<◌, ◌^◌, ◌∙◌, All, ap, arith, refl, true, some, List, [], ◌∷◌, Bytes,
}
use tickpipe.Itch.Order.{Side, buy, sell, same_stock}
use tickpipe.Engine.Book.{no_match}
use tickpipe.Risk
use tickpipe.Risk.{
  accepted, exceeds_max_size, price_out_of_band, invalid_order, check, check_entry, check_position,
  find_or_create, create, scan, set_reference_price,
}
use tickpipe.Wal
use tickpipe.Wal.{
  Layout, WriteAheadLog, WalEntryType, FitsOrder, FitsResult, replay, order_submitted,
  order_matched, order_rejected, closed,
}
use tickpipe.Wal.Replay.{
  Request, IsRequest, entries_from, entries_from-IsEntry, append_all, opened, replay-encode,
}
use tickpipe.Ouch.{write_accepted, write_rejected, write_executed}
use tickpipe.Demo.{
  flushing, order_of, test, test_all, demo_risk_engine, write_entry, demo_wal, demo_ouch,
}

verdicts :
    demo_risk_engine.0
    ≡ accepted ∷ exceeds_max_size ∷ price_out_of_band ∷ invalid_order ∷ accepted ∷ []
unfolding demo_risk_engine test_all test order_of check check_entry find_or_create scan
    set_reference_price Risk.new create same_stock check_position ◌+ℤ◌ ◌-ℤ◌
verdicts = refl

abbrev written : (ℕ → ℕ) → List Request
written now =
    record {
      now = now 1;
      io = flushing;
      kind = order_submitted;
      order = order_of 1 1_500_000 100 sell;
      result = no_match;
    }
    ∷ record {
      now = now 2;
      io = flushing;
      kind = order_submitted;
      order = order_of 2 1_500_000 100 buy;
      result = no_match;
    }
    ∷ record {
      now = now 3;
      io = flushing;
      kind = order_matched;
      order = order_of 3 1_500_000 100 buy;
      result = no_match;
    }
    ∷ record {
      now = now 4;
      io = flushing;
      kind = order_rejected;
      order = order_of 4 1_500_000 50_000 buy;
      result = no_match;
    }
    ∷ record {
      now = now 5;
      io = flushing;
      kind = order_submitted;
      order = order_of 5 1_500_000 200 sell;
      result = no_match;
    }
    ∷ []

fits :
    (ref qty : ℕ) (side : Side)
    → ref < 2 ^ 64
    → qty < 2 ^ 32
    → FitsOrder (order_of ref 1_500_000 qty side)
unfolding order_of
fits ref qty side h h' = record {
  timestamp_ns = omega arith;
  order_ref = h;
  new_order_ref = omega arith;
  match_number = omega arith;
  quantity = h';
  price = omega arith;
  stock_locate = omega arith;
  valid = omega arith;
  eight = refl;
  characters = ground arith;
}

no_match-Fits : FitsResult no_match
no_match-Fits = record {
  buy_order_ref = omega arith;
  sell_order_ref = omega arith;
  price = omega arith;
  quantity = omega arith;
}

writes :
    (n ref qty : ℕ) (side : Side) (kind : WalEntryType)
    → n < 2 ^ 64
    → ref < 2 ^ 64
    → qty < 2 ^ 32
    → IsRequest (record {
      now = n;
      io = flushing;
      kind = kind;
      order = order_of ref 1_500_000 qty side;
      result = no_match;
    })
writes n ref qty side kind h h' h'' = record {
  whole = record { accepted = omega arith; written = omega arith };
  loggable = record { now = h; order = fits ref qty side h' h''; result = no_match-Fits };
}

-- On an empty log all five entries are replayed, in their order.
recovered :
    (layout : Layout) (now : ℕ → ℕ)
    → ((i : ℕ) → now i < 2 ^ 64)
    → demo_wal layout (some []) now ≡ (true, entries_from 0 (written now))
unfolding demo_wal write_entry append_all Wal.close
recovered layout now h =
    let requests : All IsRequest (written now) = (
      writes (now 1) 1 100 sell order_submitted (h 1) (omega arith) (omega arith),
      (
        writes (now 2) 2 100 buy order_submitted (h 2) (omega arith) (omega arith),
        (
          writes (now 3) 3 100 buy order_matched (h 3) (omega arith) (omega arith),
          (
            writes (now 4) 4 50_000 buy order_rejected (h 4) (omega arith) (omega arith),
            (writes (now 5) 5 200 sell order_submitted (h 5) (omega arith) (omega arith), tt),
          ),
        ),
      ),
    ) in
    ap (λ (v : WriteAheadLog). replay layout (Wal.close v 0).0)
      (opened layout closed [] (written now) requests)
    ∙ ap (λ (b : List ℕ). replay layout (some b)) (append-nil _)
    ∙ replay-encode layout (entries_from 0 (written now))
        (entries_from-IsEntry 0 (written now) requests)

lengths : (buf : Bytes) (ts : ℕ) → demo_ouch buf ts ≡ (32, 19, 34)
unfolding demo_ouch write_accepted write_rejected write_executed
lengths buf ts = refl
