-- ===== src/Feed/Server/Replaying.antt =====
-- `replay_file` on any bytes: that it ends, and what it has sent by then.
use tickpipe.Base.{
  ℕ, zero, suc, ◌+◌, ◌^◌, ◌%◌, ◌≤◌, ◌<◌, ◌≡◌, refl, sym, ap, subst, Bool, true, false, ◌||◌, not,
  Option, none, some, List, [], ◌∷◌, ◌++◌, ltb, ◌==◌, length, length-append, take, drop, bytes_of,
  arith, All, All-append, if_both,
}
use tickpipe.Itch.Parser.{be16}
use tickpipe.Feed.Server.{UdpServer, new, max_payload, flush, queue_message, send_message}
use tickpipe.Feed.Server.Packets.{
  IsPacked, Small, flush-Keeps, flush-empty, send_message-Keeps, length-datagram,
}
use tickpipe.Feed.Server.File.{
  Conditions, max_msg_size, pause, replay_message, finish, before, replay_loop, replay_file,
}
use tickpipe.Feed.Wire.Replayed.{pause-some}

-- The bytes of the datagrams.
abbrev pub total : List (List ℕ) → ℕ
total [] = 0
total (d ∷ ds) = length d + total ds

total-append : (ds es : List (List ℕ)) → total (ds ++ es) ≡ total ds + total es
total-append [] es = omega arith
total-append (d ∷ ds) es = omega (arith, total-append ds es)

-- The counters are 64-bit words.
pub record IsCounted (s : UdpServer) : Type 0 where
  pub packets : s.packets_sent < 2 ^ 64
  pub bytes : s.bytes_sent < 2 ^ 64

-- The counters count what was sent in between.
pub record Counts (s : UdpServer) (out : List (List ℕ)) (s' : UdpServer) : Type 0 where
  pub packets : s'.packets_sent ≡ (s.packets_sent + length out) % 2 ^ 64
  pub bytes : s'.bytes_sent ≡ (s.bytes_sent + total out) % 2 ^ 64

pub record Progress (s : UdpServer) (out : List (List ℕ)) (s' : UdpServer) : Type 0 where
  pub packed : IsPacked s'
  pub small : All Small out
  pub counted : IsCounted s'
  pub counts : Counts s out s'

Progress-append :
    (s s1 s2 : UdpServer) (out later : List (List ℕ))
    → Progress s out s1
    → Progress s1 later s2
    → Progress s (out ++ later) s2
Progress-append s s1 s2 out later p q = record {
  packed = q.packed;
  small = All-append Small out later p.small q.small;
  counted = q.counted;
  counts = record {
    packets = omega (arith, p.counts.packets, q.counts.packets, length-append out later);
    bytes = omega (arith, p.counts.bytes, q.counts.bytes, total-append out later);
  };
}

-- What is counted when a call ends.
abbrev Tallies : UdpServer → Bool × List (List ℕ) × UdpServer → Type 0
Tallies s (ok, out, s') = IsCounted s' × Counts s out s'

unchanged : (s : UdpServer) → IsCounted s → Counts s [] s
unchanged s c = record { packets = omega (arith, c.packets); bytes = omega (arith, c.bytes) }

flush-Tallies : (sent : Bool) (s : UdpServer) → IsCounted s → Tallies s (flush sent s)
unfolding flush
flush-Tallies sent s c =
    if_both (Tallies s) (s.packet_msgs == 0) (c, unchanged s c)
      (if_both (Tallies s) (not sent)
        (
          record { packets = c.packets; bytes = c.bytes },
          record { packets = omega (arith, c.packets); bytes = omega (arith, c.bytes) },
        )
        (
          record { packets = omega arith; bytes = omega arith },
          record { packets = omega arith; bytes = omega (arith, length-datagram s) },
        ))

queued :
    (message : List ℕ) (s s' : UdpServer) (out : List (List ℕ))
    → IsCounted s'
    → Counts s out s'
    → IsCounted (queue_message message s') × Counts s out (queue_message message s')
unfolding queue_message
queued message s s' out c n = (
  record { packets = c.packets; bytes = c.bytes },
  record { packets = n.packets; bytes = n.bytes },
)

send_message-Tallies :
    (sent : Bool) (message : List ℕ) (s : UdpServer)
    → IsCounted s
    → Tallies s (send_message sent message s)
unfolding send_message
send_message-Tallies sent message s c =
    let (fc, fn) = flush-Tallies sent s c in
    let f = flush sent s in
    if_both (Tallies s) (ltb max_payload (2 + length message)) (c, unchanged s c)
      (if_both (Tallies s)
        (ltb max_payload (length s.packet + (2 + length message)) || s.packet_msgs == 0xffff)
        (if_both (Tallies s) (not f.0) (fc, fn) (queued message s f.2 f.1 fc fn))
        (queued message s s [] c (unchanged s c)))

flush-Progress :
    (sent : Bool) (s : UdpServer)
    → IsPacked s
    → IsCounted s
    → Progress s (flush sent s).1 (flush sent s).2
flush-Progress sent s p c =
    let k = flush-Keeps sent s p in
    let (counted, counts) = flush-Tallies sent s c in
    record { packed = k.packed; small = k.sent; counted = counted; counts = counts }

send_message-Progress :
    (sent : Bool) (message : List ℕ) (s : UdpServer)
    → IsPacked s
    → IsCounted s
    → Progress s (send_message sent message s).1 (send_message sent message s).2
send_message-Progress sent message s p c =
    let k = send_message-Keeps sent message s p in
    let (counted, counts) = send_message-Tallies sent message s c in
    record { packed = k.packed; small = k.sent; counted = counted; counts = counts }

replay_message-Progress :
    (c : Conditions) (i : ℕ) (flushing : Bool) (msg : List ℕ) (s : UdpServer)
    → IsPacked s
    → IsCounted s
    → let (out, s') = replay_message c i flushing msg s in Progress s out s'
unfolding replay_message
replay_message-Progress c i true msg s p n =
    let f = flush-Progress (c.pause_sent i) s p n in
    let s' = (flush (c.pause_sent i) s).2 in
    Progress-append s s' _ _ _ f
      (send_message-Progress (c.message_sent i) msg s' f.packed f.counted)
replay_message-Progress c i false msg s p n = send_message-Progress (c.message_sent i) msg s p n

-- The replay ends, with every datagram small, all of them counted, and nothing left to send.
unfoldable pub Ends : UdpServer → Option (List (List ℕ) × UdpServer) → Type 0
Ends s o =
    (out : List (List ℕ)) × (s' : UdpServer) × (o ≡ some (out, s'))
    × Progress s out s'
    × (s'.packet_msgs ≡ 0)

finish-Ends : (c : Conditions) (s : UdpServer) → IsPacked s → IsCounted s → Ends s (finish c s)
unfolding Ends
finish-Ends c s p n = (_, _, refl, flush-Progress c.last_sent s p n, flush-empty c.last_sent s p)

before-Ends :
    (s s1 : UdpServer) (out : List (List ℕ)) (rest : Option (List (List ℕ) × UdpServer))
    → Progress s out s1
    → Ends s1 rest
    → Ends s (before out rest)
unfolding Ends
before-Ends s s1 out rest p (later, s2, e, q, empty) =
    (out ++ later, s2, ap (before out) e, Progress-append s s1 s2 out later p q, empty)

round-Ends :
    (s : UdpServer) (stop : Bool) (last : Option (List (List ℕ) × UdpServer))
    (p : Option (Bool × Option ℕ)) (go_on : Bool → Option ℕ → Option (List (List ℕ) × UdpServer))
    → Ends s last
    → ((q : Bool × Option ℕ) × (p ≡ some q))
    → ((flushing : Bool) (first : Option ℕ) → Ends s (go_on flushing first))
    → Ends s (elim stop [
      | true ↦ last
      | false ↦ elim p [ none ↦ none | some (flushing, first) ↦ go_on flushing first ]
    ])
round-Ends s true last p go_on ends pauses goes = ends
round-Ends s false last p go_on ends ((flushing, first), e) goes =
    subst
      (λ (o : Option (Bool × Option ℕ)).
        Ends s (elim o [ none ↦ none | some (flushing, first) ↦ go_on flushing first ]))
      (sym e) (goes flushing first)

length-drop : (n : ℕ) (xs : List ℕ) → length (drop n xs) ≤ length xs
length-drop zero xs = omega arith
length-drop (suc n) [] = omega arith
length-drop (suc n) (x ∷ xs) = omega (arith, length-drop n xs)

replay_loop-Ends :
    (c : Conditions) (fuel : ℕ) (bytes : List ℕ) (i : ℕ) (first : Option ℕ) (s : UdpServer)
    → (c.paced ≡ true → 0 < c.speed)
    → length bytes < fuel
    → IsPacked s
    → IsCounted s
    → Ends s (replay_loop c fuel bytes i first s)
unfolding replay_loop
replay_loop-Ends c zero bytes i first s speed enough p n = absurd (omega (arith, enough))
replay_loop-Ends c (suc fuel) [] i first s speed enough p n = finish-Ends c s p n
replay_loop-Ends c (suc fuel) (b ∷ []) i first s speed enough p n = finish-Ends c s p n
replay_loop-Ends c (suc fuel) (b ∷ b' ∷ bytes) i first s speed enough p n =
    let len = be16 (bytes_of (b ∷ b' ∷ [])) in
    let msg = take len bytes in
    round-Ends s (len == 0 || ltb max_msg_size len || ltb (length bytes) len) (finish c s)
      (pause c i first msg)
      (λ flushing first'.
        let (out, s') = replay_message c i flushing msg s in
        before out (replay_loop c fuel (drop len bytes) (i + 1) first' s'))
      (finish-Ends c s p n) (pause-some c i first msg speed)
      (λ flushing first'.
        let (out, s') = replay_message c i flushing msg s in
        let q = replay_message-Progress c i flushing msg s p n in
        before-Ends s s' out _ q (
          replay_loop-Ends c fuel (drop len bytes) (i + 1) first' s' speed
            (omega (arith, enough, length-drop len bytes)) q.packed q.counted))

-- Without a pace or at a speed of 1 or more, `replay_file` of any bytes ends, whatever the clock
-- reads and whichever datagrams are sent, from a server whose datagram is within its limits and
-- whose counters are 64-bit words. Each datagram that went out is at most 1420 bytes long,
-- `packets_sent` and `bytes_sent` have counted them and their bytes, modulo 2 ^ 64, and no
-- message is left in the datagram.
pub replay_file-Ends :
    (c : Conditions) (file : List ℕ) (s : UdpServer)
    → (c.paced ≡ true → 0 < c.speed)
    → IsPacked s
    → IsCounted s
    → Ends s (replay_file c (some file) s)
unfolding replay_file
replay_file-Ends c file s speed p n =
    replay_loop-Ends c (suc (length file)) file 0 none s speed (omega arith) p n

pub new-IsPacked : IsPacked new
unfolding new
new-IsPacked = record { fits = omega arith; counted = omega arith; some_messages = λ e. refl }

pub new-IsCounted : IsCounted new
unfolding new
new-IsCounted = record { packets = omega arith; bytes = omega arith }
