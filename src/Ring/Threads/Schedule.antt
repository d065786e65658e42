-- ===== src/Ring/Threads/Schedule.antt =====
-- Any schedule of the two threads.
use tickpipe.Base.{ℕ, ◌+◌, ◌^◌, ◌<◌, refl, List, [], ◌∷◌, arith, Bytes}
use tickpipe.Ring.{new}
use tickpipe.Ring.Cells.{IsRing, at_pos}
use tickpipe.Ring.Fifo.{Message, Holds, IsQueue}
use tickpipe.Ring.Threads.{
  Threads, start, Move, push_load, push_write, push_publish, pop_load, pop_copy, pop_publish, step,
  run,
}
use tickpipe.Ring.Threads.InOrder.{
  Delivered, AllFit, IsSmall, AllSmall, bytes_of_move, bytes_of_moves, IsProducer, IsConsumer, IsAt,
}
use tickpipe.Ring.Threads.Producing.{
  IsAt-fewer, load_tail-IsAt, write_record-IsAt, publish_head-IsAt,
}
use tickpipe.Ring.Threads.Consuming.{load_head-IsAt, copy_record-IsAt, publish_tail-IsAt}

module _ (k out_cap left : ℕ) (few : 4 + out_cap < 2 ^ 32) where
  step-IsAt :
      (q : List Message) (s : Threads) (m : Move)
      → IsSmall out_cap m
      → IsAt k out_cap (bytes_of_move m + left) q s
      → (q' : List Message) × IsAt k out_cap left q' (step out_cap s m)
  unfolding step IsSmall bytes_of_move
  step-IsAt q s (push_load payload len) (pos, le) h =
      (q, load_tail-IsAt k out_cap left q s few payload len pos le h)
  step-IsAt q s push_write small h =
      (q, write_record-IsAt k out_cap left q s few (IsAt-fewer k out_cap 0 left q s h))
  step-IsAt q s push_publish small h =
      publish_head-IsAt k out_cap left q s few (IsAt-fewer k out_cap 0 left q s h)
  step-IsAt q s pop_load small h =
      (q, load_head-IsAt k out_cap left q s (IsAt-fewer k out_cap 0 left q s h))
  step-IsAt q s (pop_copy out) small h =
      (q, copy_record-IsAt k out_cap left q s out (IsAt-fewer k out_cap 0 left q s h))
  step-IsAt q s pop_publish small h =
      publish_tail-IsAt k out_cap left q s (IsAt-fewer k out_cap 0 left q s h)

start-IsAt :
    (k out_cap left : ℕ) (buf : Bytes) → left < 2 ^ 64 → IsAt k out_cap left [] (start (new buf k))
unfolding IsAt IsQueue IsRing Holds AllFit Delivered IsProducer IsConsumer start new
start-IsAt k out_cap left buf low =
    (((refl, refl), omega arith, omega arith, refl), tt, refl, omega arith, tt)

run-IsAt :
    (k out_cap : ℕ) (ms : List Move) (q : List Message) (s : Threads)
    → 4 + out_cap < 2 ^ 32
    → AllSmall out_cap ms
    → IsAt k out_cap (bytes_of_moves ms) q s
    → (q' : List Message) × IsAt k out_cap 0 q' (run out_cap s ms)
unfolding run AllSmall bytes_of_moves
run-IsAt k out_cap [] q s few small h = (q, h)
run-IsAt k out_cap (m ∷ ms) q s few (first, rest) h =
    let (q', h') = step-IsAt k out_cap (bytes_of_moves ms) few q s m first h in
    run-IsAt k out_cap ms q' (step out_cap s m) few rest h'

-- The two threads start at a new ring and take any steps, the messages having 1 to `out_cap`
-- bytes and, with their lengths, fewer than 2 ^ 64 bytes in all; the buffer that `pop` copies to
-- has `out_cap` bytes. Then there is a queue of which the ring holds the records, and the
-- messages that `push` took are those that `pop` gave, byte for byte and in their order, and then
-- that queue.
pub run_in_order :
    (k out_cap : ℕ) (buf : Bytes) (ms : List Move)
    → 4 + out_cap < 2 ^ 32
    → AllSmall out_cap ms
    → bytes_of_moves ms < 2 ^ 64
    → let s = run out_cap (start (new buf k)) ms in
      (q : List Message) × Delivered s.sent s.received q
      × Holds (at_pos s.ring) s.ring.tail s.ring.head q
unfolding IsAt IsQueue
run_in_order k out_cap buf ms few small low =
    let (q, (queue, fit, sent, producing, consuming)) =
      run-IsAt k out_cap ms [] (start (new buf k)) few small
        (start-IsAt k out_cap (bytes_of_moves ms) buf low) in
    let (ok, within, head, holds) = queue in (q, sent, holds)
