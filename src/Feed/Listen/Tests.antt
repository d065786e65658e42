-- ===== src/Feed/Listen/Tests.antt =====
-- A datagram with a deletion through the ring, with a round of the book thread before it comes and
-- the rest behind it.
use tickpipe.Base.{
  ℕ, ◌+◌, ◌*◌, ◌≡◌, refl, ap, true, false, none, some, List, [], ◌∷◌, ◌++◌, arith, length,
}
use tickpipe.Itch.Parser.{be16}
use tickpipe.Ring
use tickpipe.Ring.{push, pop, used, read, write}
use tickpipe.Feed.Server.{UdpServer, new, datagram, queue_message, send_message, flush}
use tickpipe.Feed.Server.File.{Conditions, pause, replay_message, replay_loop, replay_file}
use tickpipe.Feed.Wire.{handle_all, receive_all}
use tickpipe.Feed.Wire.Frames.{frames}
use tickpipe.Feed.Wire.Replayed.{IsRecorded}
use tickpipe.Feed.Listen.{
  new_receiver, Listener, finished, start, Event, recv, round, test, round_at, test_at, step,
  on_recv, on_silence, on_datagram, store, poll, handle, check, run,
}
use tickpipe.Feed.Listen.Valid.{size, incoming, Taken, Ends}
use tickpipe.Feed.Listen.Ending.{Ended, rounds, listening_ends}
use tickpipe.Feed.Listen.Outcome.{listening_accounts, replay_file-listening}

abbrev deletion : List ℕ
deletion = b'D' ∷ 0 ∷ 1 ∷ 0 ∷ 0 ∷ 0 ∷ 0 ∷ 0 ∷ 0 ∷ 0 ∷ 9 ∷ 0 ∷ 0 ∷ 0 ∷ 0 ∷ 0 ∷ 0 ∷ 0 ∷ 5 ∷ []

abbrev server : UdpServer
server = (send_message true deletion new).2

abbrev sent : List ℕ
sent =
    (b'T' ∷ b'I' ∷ b'C' ∷ b'K' ∷ b'P' ∷ b'I' ∷ b'P' ∷ b'E' ∷ b'0' ∷ b'1' ∷ [])
    ++ (0 ∷ 0 ∷ 0 ∷ 0 ∷ 0 ∷ 0 ∷ 0 ∷ 1 ∷ 0 ∷ 1 ∷ 0 ∷ 19 ∷ deletion)

abbrev events : List Event
events = recv none ∷ round 10 ∷ recv (some sent) ∷ test ∷ recv none ∷ []

abbrev before : Listener
before = run (start (λ _. 0) (λ _. 0) 7 0 none) events

listening_accounts_example :
    (handled : List (List ℕ)) × (waiting : List (List ℕ)) × (n : ℕ) × (before.taken
      ≡ handled ++ waiting)
    × (receive_all (new_receiver none) handled ≡ (before.orders, before.receiver))
    × Taken n before.arrived before.taken
    × (before.ring.dropped ≡ n)
    × (before.packets_received ≡ length before.arrived)
    × (before.bytes_received + 4 * before.packets_received ≡ size before.arrived)
    × Ends before.running waiting before.phase
unfolding incoming
listening_accounts_example = listening_accounts 7 0 (λ _. 0) (λ _. 0) none events (omega arith)

abbrev unlimited : Conditions
unlimited = record {
  paced = false;
  speed = 0;
  wall_elapsed = λ i. 0;
  pause_sent = λ i. true;
  message_sent = λ i. true;
  last_sent = true;
}

replayed :
    replay_file unlimited (some (frames (deletion ∷ []))) new
    ≡ some (sent ∷ [], (flush true server).2)
unfolding replay_file replay_loop replay_message pause frames send_message queue_message flush new
    be16 datagram
replayed = refl

before-arrived : before.arrived ≡ sent ∷ []
unfolding run step used start on_recv on_silence on_datagram store round_at test_at poll handle
    check push pop Ring.new read write
before-arrived = refl

before-running : before.running ≡ false
unfolding run step used start on_recv on_silence on_datagram store round_at test_at poll handle
    check push pop Ring.new read write
before-running = refl

before-taken : before.taken ≡ sent ∷ []
unfolding run step used start on_recv on_silence on_datagram store round_at test_at poll handle
    check push pop Ring.new read write
before-taken = refl

listening_ends_example : Ended (new_receiver none) before (run before (rounds (30 ∷ 40 ∷ 50 ∷ [])))
unfolding incoming
listening_ends_example =
    listening_ends 7 0 (λ _. 0) (λ _. 0) none events (30 ∷ 40 ∷ 50 ∷ []) (omega arith)
      before-running (omega (arith, ap (λ (ds : List (List ℕ)). length ds) before-taken))

none_dropped : before.ring.dropped ≡ 0
unfolding run step used start on_recv on_silence on_datagram store round_at test_at poll handle
    check push pop Ring.new read write
none_dropped = refl

replay_file-listening_example :
    ((run before (rounds (30 ∷ 40 ∷ 50 ∷ []))).phase ≡ finished)
    × ((run before (rounds (30 ∷ 40 ∷ 50 ∷ []))).orders
        ≡ (handle_all (new_receiver none) (deletion ∷ [])).0)
    × (record ((run before (rounds (30 ∷ 40 ∷ 50 ∷ []))).receiver) { expected_seq = 0 }
        ≡ record ((handle_all (new_receiver none) (deletion ∷ [])).1) { expected_seq = 0 })
unfolding IsRecorded incoming
replay_file-listening_example =
    replay_file-listening unlimited (deletion ∷ []) (sent ∷ []) (flush true server).2 7 0 (λ _. 0)
      (λ _. 0) none events (30 ∷ 40 ∷ 50 ∷ [])
      (record {
        speed = λ paced. absurd (ground (arith, paced));
        pauses_sent = λ i. refl;
        messages_sent = λ i. refl;
        end_sent = refl;
      })
      ((omega arith, omega arith), tt) (omega arith) replayed (omega arith) before-arrived
      before-running none_dropped (omega arith)
