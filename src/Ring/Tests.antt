-- ===== src/Ring/Tests.antt =====
-- The ring and its threads on concrete messages.
use tickpipe.Base.{ℕ, arith, refl, List, [], ◌∷◌, Bytes, bytes_of}
use tickpipe.Ring.{SpscRing, new, used, push, pop}
use tickpipe.Ring.Cells.{IsRing, at_pos}
use tickpipe.Ring.Fifo.{Message, Holds, IsQueue, Pushed, Popped, push-Pushed, pop-Popped}
use tickpipe.Ring.Threads.{
  start, run, Move, push_load, push_write, push_publish, pop_load, pop_copy, pop_publish,
}
use tickpipe.Ring.Threads.InOrder.{Delivered, AllSmall, IsSmall, bytes_of_move, bytes_of_moves}
use tickpipe.Ring.Threads.Schedule.{run_in_order}

abbrev zeros : Bytes
zeros i = 0

abbrev payload_of : List ℕ → Bytes
payload_of = bytes_of

abbrev sixteen : SpscRing
sixteen = new zeros 4

sixteen-IsQueue : IsQueue 4 sixteen []
unfolding IsQueue IsRing Holds new
sixteen-IsQueue = ((refl, refl), omega arith, omega arith, refl)

push-Pushed_example :
    Pushed 4 sixteen []
      (payload_of (1 ∷ 2 ∷ 3 ∷ []), 3)
      (push sixteen (payload_of (1 ∷ 2 ∷ 3 ∷ [])) 3)
unfolding new
push-Pushed_example =
    push-Pushed 4 sixteen [] (payload_of (1 ∷ 2 ∷ 3 ∷ [])) 3 sixteen-IsQueue (omega arith)
      (omega arith) (omega arith)

abbrev holding : SpscRing
holding = (push sixteen (payload_of (1 ∷ 2 ∷ 3 ∷ [])) 3).1

pop-Popped_example : Popped 4 [] (payload_of (1 ∷ 2 ∷ 3 ∷ []), 3) zeros (pop holding zeros 2048)
unfolding push new used Pushed
pop-Popped_example =
    pop-Popped 4 holding [] (payload_of (1 ∷ 2 ∷ 3 ∷ []), 3) zeros 2048 push-Pushed_example.1
      (omega arith)

-- The second message is written while the first is copied out, and fills the ring.
abbrev schedule : List Move
schedule =
    push_load (payload_of (1 ∷ 2 ∷ 3 ∷ [])) 3
    ∷ push_write
    ∷ pop_load
    ∷ push_publish
    ∷ pop_load
    ∷ push_load (payload_of (4 ∷ 5 ∷ 6 ∷ 7 ∷ 8 ∷ [])) 5
    ∷ pop_copy zeros
    ∷ push_write
    ∷ pop_publish
    ∷ push_publish
    ∷ pop_load
    ∷ pop_copy zeros
    ∷ pop_publish
    ∷ []

run_in_order_example :
    let s = run 2048 (start (new zeros 4)) schedule in
    (q : List Message) × Delivered s.sent s.received q
    × Holds (at_pos s.ring) s.ring.tail s.ring.head q
unfolding AllSmall IsSmall bytes_of_move bytes_of_moves
run_in_order_example =
    run_in_order 4 2048 zeros schedule (omega arith)
      (
        (omega arith, omega arith),
        (
          tt,
          (
            tt,
            (tt, (tt, ((omega arith, omega arith), (tt, (tt, (tt, (tt, (tt, (tt, (tt, tt)))))))))),
          ),
        ),
      )
      (omega arith)
