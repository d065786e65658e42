-- ===== src/Feed/Listen/Outcome.antt =====
-- What the callback has been given after any schedule, and what it is given of a file that the
-- server replays.
use tickpipe.Base.{
  ℕ, ◌+◌, ◌*◌, ◌^◌, ◌≤◌, ◌<◌, ◌≡◌, refl, sym, ap, subst, ◌∙◌, inl, false, Option, none, some, List,
  [], ◌++◌, arith, Bytes, length, All,
}
use tickpipe.Itch.Order.{Order}
use tickpipe.Symbols.{SymbolDirectory}
use tickpipe.Feed.Server.{UdpServer, new}
use tickpipe.Feed.Server.File.{Conditions, replay_file}
use tickpipe.Feed.Receiver.{UdpReceiver}
use tickpipe.Feed.Wire.{handle_all, receive_all}
use tickpipe.Feed.Wire.Frames.{frames}
use tickpipe.Feed.Wire.Replayed.{IsRecorded, IsSending, replay_file-receive_all}
use tickpipe.Feed.Listen.{new_receiver, finished, start, Event, run}
use tickpipe.Feed.Listen.Valid.{size, incoming, Taken, Taken-all, Ends, IsReached}
use tickpipe.Feed.Listen.Schedule.{run-IsReached, start-IsValid}
use tickpipe.Feed.Listen.Ending.{rounds, listening_ends}

module _ (k now : ℕ) (cells buf : Bytes) (directory : Option SymbolDirectory) (es : List Event)
    (low : size (incoming es) < 2 ^ 64) where
  run-start-IsReached :
      IsReached k 0 (new_receiver directory) (run (start cells buf k now directory) es)
  run-start-IsReached =
      run-IsReached k 0 (new_receiver directory) es (start cells buf k now directory)
        ([], [], 0, start-IsValid k (size (incoming es) + 0) now cells buf directory (omega arith))

  -- After any schedule of the two threads from a new receiver the datagrams that `push` took
  -- are those handled, which gave the orders and the state of the receiver, and then those that
  -- wait. They are those that arrived without the dropped ones, in the same order, and the ring
  -- counts the dropped ones. The two counters of the socket thread count the datagrams that
  -- arrived and their bytes. If the book thread has left its loop, the socket thread has ended
  -- and nothing waits.
  pub listening_accounts :
      let s = run (start cells buf k now directory) es in
      (handled : List (List ℕ)) × (waiting : List (List ℕ)) × (n : ℕ) × (s.taken
        ≡ handled ++ waiting)
      × (receive_all (new_receiver directory) handled ≡ (s.orders, s.receiver))
      × Taken n s.arrived s.taken
      × (s.ring.dropped ≡ n)
      × (s.packets_received ≡ length s.arrived)
      × (s.bytes_received + 4 * s.packets_received ≡ size s.arrived)
      × Ends s.running waiting s.phase
  listening_accounts =
      let (handled, waiting, n, v) = run-start-IsReached in
      (handled, waiting, n, v.taken, v.outcome, v.losses, v.drops, v.packets, v.bytes, v.ends)

  pub taken_all :
      let s = run (start cells buf k now directory) es in s.ring.dropped ≡ 0 → s.taken ≡ s.arrived
  taken_all none_dropped =
      let (handled, waiting, n, v) = run-start-IsReached in
      Taken-all v.losses (sym v.drops ∙ none_dropped)

  -- A ring with room for all that arrives drops nothing.
  room_lem :
      let s = run (start cells buf k now directory) es in
      size s.arrived ≤ 2 ^ k → s.ring.dropped ≡ 0
  room_lem room = let (handled, waiting, n, v) = run-start-IsReached in v.drops ∙ v.room room

sent_of : Option (List (List ℕ) × UdpServer) → List (List ℕ)
sent_of none = []
sent_of (some (ds, s)) = ds

-- A new server replays a file of messages of 1 to 1024 bytes, fewer than 2 ^ 64 - 1 of them,
-- without a pace or at a speed of 1 or more, with every datagram sent. Any schedule of the two
-- threads of a new receiver, fewer than 2 ^ 64 bytes coming in with 4 for every datagram, leads
-- to a state where the socket thread has received those datagrams, in order, and ended, and the
-- ring has dropped none. After two more rounds of the book thread than there are datagrams it has
-- left its loop. The callback was given the orders that the messages give one by one, and
-- counters, parser and directory are the same; only the number that is expected next is left
-- open.
pub replay_file-listening :
    (c : Conditions) (ms ds : List (List ℕ)) (server : UdpServer) (k now : ℕ) (cells buf : Bytes)
    (directory : Option SymbolDirectory) (es : List Event) (ts : List ℕ)
    → IsSending c
    → All IsRecorded ms
    → length ms + 1 < 2 ^ 64
    → replay_file c (some (frames ms)) new ≡ some (ds, server)
    → size (incoming es) < 2 ^ 64
    → let s = run (start cells buf k now directory) es in
      s.arrived ≡ ds
      → s.running ≡ false
      → s.ring.dropped ≡ 0
      → length ds + 2 ≤ length ts
      → let s' = run s (rounds ts) in
        let (orders, r) = handle_all (new_receiver directory) ms in
        (s'.phase ≡ finished)
        × (s'.orders ≡ orders)
        × (record (s'.receiver) { expected_seq = 0 } ≡ record r { expected_seq = 0 })
unfolding sent_of new_receiver
replay_file-listening c ms ds server k now cells buf directory es ts u rec few replay low all down
      none_dropped enough =
    let r = new_receiver directory in
    let s = run (start cells buf k now directory) es in
    let (ds', server', replay', orders, state) =
      replay_file-receive_all c r ms u rec (inl refl) few in
    let sent : ds' ≡ ds = ap sent_of (sym replay' ∙ replay) in
    let taken : s.taken ≡ ds = taken_all k now cells buf directory es low none_dropped ∙ all in
    let ended =
      listening_ends k now cells buf directory es ts low down
        (subst (λ (x : List (List ℕ)). length x + 2 ≤ length ts) (sym taken) enough) in
    let outcome = ap (receive_all r) (sent ∙ sym taken ∙ sym ended.taken) ∙ ended.outcome in
    (
      ended.phase,
      sym (ap (λ (t : List Order × UdpReceiver). t.0) outcome) ∙ orders,
      sym (ap (λ (t : List Order × UdpReceiver). record (t.1) { expected_seq = 0 }) outcome)
          ∙ state,
    )
