-- ===== src/Feed/Listen.antt =====
-- `UdpReceiver::receive_loop` and `recv_thread` of src/udp_receiver.cpp: the socket thread that puts
-- datagrams into the ring, the book thread that takes them out, and any order of their steps. The
-- rounds of the clock and what `recv` returns are arguments. A `push` or a `pop` is one step here;
-- Ring/Threads cuts them up.
pub mod Within
pub mod Valid
mod Keeping
mod Rounds
pub mod Schedule
pub mod Ending
pub mod Outcome
mod Tests
use tickpipe.Base.{
  ℕ, ◌+◌, Bool, true, false, ◌&&◌, not, Option, none, some, List, [], ◌∷◌, ◌++◌, ◌==◌,
  if◌then◌else◌, Bytes, bytes_of, length, take, u64, inc64, sub64,
}
use tickpipe.Itch.Order.{Order, empty_order}
use tickpipe.Itch.Parser.{no_counts}
use tickpipe.Symbols.{SymbolDirectory}
use tickpipe.Ring
use tickpipe.Ring.{SpscRing, push, pop, used}
use tickpipe.Feed.Receiver.{UdpReceiver, receive_packet}

abbrev pub max_packet_size : ℕ
max_packet_size = 2048

-- The counters as the constructor leaves them, with a new parser and order.
unfoldable pub new_receiver : Option SymbolDirectory → UdpReceiver
new_receiver directory = record {
  orders_parsed = 0;
  messages_filtered = 0;
  directory_messages = 0;
  short_packets = 0;
  gaps = 0;
  messages_lost = 0;
  out_of_order = 0;
  expected_seq = 0;
  parser = no_counts;
  order = empty_order;
  directory = directory;
}

-- Where the book thread stands: at the head of its loop, behind a `pop` that gave nothing, behind
-- the loop.
pub data Phase : Type 0 where
  polling checking finished : Phase

-- Both threads: the ring, the counters of each, the orders given to the callback. Last come the
-- datagrams that `recv` returned and those that `push` took, which the code does not keep.
pub record Listener : Type 0 where
  pub ring : SpscRing
  pub running : Bool
  pub armed : Bool
  pub packets_received : ℕ
  pub bytes_received : ℕ
  pub phase : Phase
  pub buf : Bytes
  pub t_prev : ℕ
  pub process_ns : ℕ
  pub idle_ns : ℕ
  pub receiver : UdpReceiver
  pub orders : List Order
  pub arrived : List (List ℕ)
  pub taken : List (List ℕ)

-- `receive_loop` up to its loop. The ring's bytes, those of `buf` and the clock are arguments.
unfoldable pub start : Bytes → Bytes → ℕ → ℕ → Option SymbolDirectory → Listener
start cells buf ring_pow2 now directory = record {
  ring = Ring.new cells ring_pow2;
  running = true;
  armed = false;
  packets_received = 0;
  bytes_received = 0;
  phase = polling;
  buf = buf;
  t_prev = now;
  process_ns = 0;
  idle_ns = 0;
  receiver = new_receiver directory;
  orders = [];
  arrived = [];
  taken = [];
}

-- `recv` returns nothing: before the first datagram the thread goes on, behind it it ends.
unfoldable pub on_silence : Listener → Listener
on_silence s = if not s.armed then s else record s { running = false }

-- What `push` answered for the bytes of a datagram.
unfoldable pub store : List ℕ → Bool × SpscRing → Listener → Listener
store got (ok, ring) s = record s {
  armed = true;
  packets_received = inc64 s.packets_received;
  bytes_received = u64 (s.bytes_received + length got);
  ring = ring;
  arrived = s.arrived ++ (got ∷ []);
  taken = if ok then s.taken ++ (got ∷ []) else s.taken;
}

-- `recv` fills its buffer with a datagram, and drops what does not fit.
unfoldable pub on_datagram : List ℕ → Listener → Listener
on_datagram d s =
    let got = take max_packet_size d in
    if length got == 0 then on_silence s else store got (push s.ring (bytes_of got) (length got)) s

unfoldable pub on_recv : Option (List ℕ) → Listener → Listener
on_recv none s = on_silence s
on_recv (some d) s = on_datagram d s

-- A round of the book thread with what `pop` gave, up to its test of the end. `now` is the clock
-- behind the `pop`.
unfoldable pub handle : ℕ → ℕ × Bytes × SpscRing → Listener → Listener
handle now (n, buf, ring) s =
    let dt = sub64 now s.t_prev in
    let s' = record s { ring = ring; buf = buf; t_prev = now } in
    let (os, r) = receive_packet s.receiver buf n in
    if n == 0
    then record s' { idle_ns = u64 (s.idle_ns + dt); phase = checking }
    else record s' { process_ns = u64 (s.process_ns + dt); receiver = r; orders = s.orders ++ os }

unfoldable pub poll : ℕ → Listener → Listener
poll now s = handle now (pop s.ring s.buf max_packet_size) s

-- The test itself: the socket thread has ended and the ring is empty.
unfoldable pub check : Listener → Listener
check s = record s { phase = if not s.running && (used s.ring == 0) then finished else polling }

-- A step of one of the threads. One that the thread does not stand at does nothing.
pub data Event : Type 0 where
  recv : Option (List ℕ) → Event
  round : ℕ → Event
  test : Event

unfoldable pub round_at : ℕ → Listener → Phase → Listener
round_at now s polling = poll now s
round_at now s checking = s
round_at now s finished = s

unfoldable pub test_at : Listener → Phase → Listener
test_at s polling = s
test_at s checking = check s
test_at s finished = s

unfoldable pub step : Listener → Event → Listener
step s (recv o) = if s.running then on_recv o s else s
step s (round now) = round_at now s s.phase
step s test = test_at s s.phase

unfoldable pub run : Listener → List Event → Listener
run s [] = s
run s (e ∷ es) = run (step s e) es

-- `ring_dropped_` and `ring_high_water_` behind the loop.
abbrev pub ring_report : Listener → ℕ × ℕ
ring_report s = (s.ring.dropped, s.ring.high_water)
