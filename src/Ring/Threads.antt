-- ===== src/Ring/Threads.antt =====
-- The socket thread and the book thread at the ring of include/spsc_ring.hpp: `push` and `pop` cut
-- at their atomic accesses, and the steps of both in any order. What a thread copies between two
-- atomic accesses is one step.
pub mod InOrder
mod Producing
mod Consuming
pub mod Schedule
use tickpipe.Base.{
  ℕ, ◌+◌, ◌^◌, Bool, true, false, ◌||◌, List, [], ◌∷◌, ◌++◌, ltb, ◌==◌, if◌then◌else◌, Bytes, u32,
  u64, inc64,
}
use tickpipe.Ring.{SpscRing, write, read, used, length_bytes, length_of}
use tickpipe.Ring.Fifo.{Message}

-- Where the socket thread stands: outside `push`, behind the test of the room, behind the writes.
pub data Producer : Type 0 where
  ready : Producer
  checked : Bytes → ℕ → Producer
  written : Bytes → ℕ → Producer

-- Where the book thread stands: outside `pop`, with a head it has seen, with a copied message.
pub data Consumer : Type 0 where
  waiting : Consumer
  seen : ℕ → Consumer
  copied : Bytes → ℕ → Consumer

-- The ring, both threads, the messages that `push` took and those that `pop` gave.
pub record Threads : Type 0 where
  pub ring : SpscRing
  pub producer : Producer
  pub consumer : Consumer
  pub sent : List Message
  pub received : List Message

unfoldable pub start : SpscRing → Threads
start r = record { ring = r; producer = ready; consumer = waiting; sent = []; received = [] }

-- The start of `push`: both cursors are read and the room is tested.
unfoldable pub load_tail : Bytes → ℕ → Threads → Producer → Threads
load_tail payload len s ready =
    let r = s.ring in
    let have = used r in
    if ltb r.capacity (u64 (have + u32 (4 + len)))
    then record s { ring = record r { dropped = inc64 r.dropped } }
    else record s {
      ring = record r { high_water = if ltb r.high_water have then have else r.high_water };
      producer = checked payload len;
    }
load_tail payload len s (checked p n) = s
load_tail payload len s (written p n) = s

unfoldable pub write_record : Threads → Producer → Threads
write_record s ready = s
write_record s (checked payload len) =
    let r1 = record (s.ring) { buf = write s.ring s.ring.head (length_bytes len) 4 } in
    let r2 = record r1 { buf = write r1 (u64 (s.ring.head + 4)) payload len } in
    record s { ring = r2; producer = written payload len }
write_record s (written payload len) = s

unfoldable pub publish_head : Threads → Producer → Threads
publish_head s ready = s
publish_head s (checked payload len) = s
publish_head s (written payload len) = record s {
  ring = record (s.ring) { head = u64 (s.ring.head + u32 (4 + len)) };
  producer = ready;
  sent = s.sent ++ ((payload, len) ∷ []);
}

-- The start of `pop`.
unfoldable pub load_head : Threads → Consumer → Threads
load_head s waiting =
    if s.ring.head == s.ring.tail then s else record s { consumer = seen s.ring.head }
load_head s (seen h) = s
load_head s (copied out n) = s

unfoldable pub copy_record : ℕ → Bytes → Threads → Consumer → Threads
copy_record out_cap out s waiting = s
copy_record out_cap out s (seen h) =
    let r = s.ring in
    let len = length_of (read r r.tail 4 (λ _. 0)) in
    if len == 0 || ltb out_cap len
    then record s { ring = record r { tail = h }; consumer = waiting }
    else record s { consumer = copied (read r (u64 (r.tail + 4)) len out) len }
copy_record out_cap out s (copied p n) = s

unfoldable pub publish_tail : Threads → Consumer → Threads
publish_tail s waiting = s
publish_tail s (seen h) = s
publish_tail s (copied out n) = record s {
  ring = record (s.ring) { tail = u64 (s.ring.tail + 4 + n) };
  consumer = waiting;
  received = s.received ++ ((out, n) ∷ []);
}

-- The next step of one of the threads. One that the thread cannot take does nothing.
pub data Move : Type 0 where
  push_load : Bytes → ℕ → Move
  push_write : Move
  push_publish : Move
  pop_load : Move
  pop_copy : Bytes → Move
  pop_publish : Move

unfoldable pub step : ℕ → Threads → Move → Threads
step out_cap s (push_load payload len) = load_tail payload len s s.producer
step out_cap s push_write = write_record s s.producer
step out_cap s push_publish = publish_head s s.producer
step out_cap s pop_load = load_head s s.consumer
step out_cap s (pop_copy out) = copy_record out_cap out s s.consumer
step out_cap s pop_publish = publish_tail s s.consumer

-- A schedule is the list of the steps taken.
unfoldable pub run : ℕ → Threads → List Move → Threads
run out_cap s [] = s
run out_cap s (m ∷ ms) = run out_cap (step out_cap s m) ms
