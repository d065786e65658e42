-- ===== src/Feed/Server/File.antt =====
-- `UdpServer::replay_file` and `close`. What the clock, the speed and `sendto` answer are arguments;
-- the file is the list of its bytes. The reports on the terminal are left out.
use tickpipe.Base.{
  ℕ, zero, suc, ◌+◌, ◌-◌, ◌/◌, Bool, true, false, ◌||◌, ◌&&◌, Option, none, some, List, [], ◌∷◌,
  ◌++◌, ltb, leb, ◌==◌, if◌then◌else◌, sub64, length, take, drop, bytes_of, advance,
}
use tickpipe.Itch.Parser.{be16, be48}
use tickpipe.Feed.Server.{UdpServer, flush, send_message}

abbrev pub max_msg_size : ℕ
max_msg_size = 1024

-- `speed_multiplier > 0` and its integer part; and for the message with a number the elapsed time
-- of the wall clock at that speed, and whether its datagrams go out.
pub record Conditions : Type 0 where
  pub paced : Bool
  pub speed : ℕ
  pub wall_elapsed : ℕ → ℕ
  pub pause_sent : ℕ → Bool
  pub message_sent : ℕ → Bool
  pub last_sent : Bool

-- The loop over the bytes 5 to 10 is that of `be48`.
unfoldable pub timestamp : List ℕ → ℕ
timestamp msg = be48 (advance (bytes_of msg) 5)

-- How long to sleep before a message; `none` for the division by 0 of a speed below 1.
unfoldable pub sleep_ns : Conditions → ℕ → ℕ → Option ℕ
sleep_ns c file_elapsed wall_elapsed =
    if ltb wall_elapsed file_elapsed
    then (if c.speed == 0 then none else some ((file_elapsed - wall_elapsed) / c.speed))
    else some 0

-- The first timestamp, once it is set.
abbrev pub first_of : Option ℕ → ℕ → ℕ
first_of none ts = ts
first_of (some first) ts = first

-- Whether the datagram is flushed before a message, and the first timestamp after it.
unfoldable pub pause : Conditions → ℕ → Option ℕ → List ℕ → Option (Bool × Option ℕ)
pause c i first msg =
    let ts = timestamp msg in
    let first_ts = first_of first ts in
    if c.paced && leb 11 (length msg)
    then elim (sleep_ns c (sub64 ts first_ts) (c.wall_elapsed i)) [
      | none ↦ none
      | some ns ↦ some (ltb 200_000 ns && ltb 2_000_000 ns, some first_ts)
    ]
    else some (false, first)

-- Message `i`: the datagrams that go out, and the server.
unfoldable pub replay_message :
    Conditions → ℕ → Bool → List ℕ → UdpServer → List (List ℕ) × UdpServer
replay_message c i flushing msg s =
    let (ok, out, s') = flush (c.pause_sent i) s in
    let (ok1, out1, s1) = send_message (c.message_sent i) msg s' in
    let (ok2, out2, s2) = send_message (c.message_sent i) msg s in
    if flushing then (out ++ out1, s1) else (out2, s2)

-- The last lines of `replay_file`.
abbrev pub finish : Conditions → UdpServer → Option (List (List ℕ) × UdpServer)
finish c s = some ((flush c.last_sent s).1, (flush c.last_sent s).2)

abbrev pub before :
    List (List ℕ) → Option (List (List ℕ) × UdpServer) → Option (List (List ℕ) × UdpServer)
before out none = none
before out (some (later, s)) = some (out ++ later, s)

-- The loop, at the bytes that are left; `none` when the rounds run out or the division fails. A
-- round takes three bytes at least.
unfoldable pub replay_loop :
    Conditions → ℕ → List ℕ → ℕ → Option ℕ → UdpServer → Option (List (List ℕ) × UdpServer)
replay_loop c zero file i first s = none
replay_loop c (suc fuel) [] i first s = finish c s
replay_loop c (suc fuel) (b ∷ []) i first s = finish c s
replay_loop c (suc fuel) (b ∷ b' ∷ file) i first s =
    let len = be16 (bytes_of (b ∷ b' ∷ [])) in
    let msg = take len file in
    elim (len == 0 || ltb max_msg_size len || ltb (length file) len) [
      | true ↦ finish c s
      | false ↦ elim (pause c i first msg) [
        | none ↦ none
        | some (flushing, first') ↦
            let (out, s') = replay_message c i flushing msg s in
            before out (replay_loop c fuel (drop len file) (i + 1) first' s')
      ]
    ]

-- `none` in place of the file when it cannot be opened.
unfoldable pub replay_file :
    Conditions → Option (List ℕ) → UdpServer → Option (List (List ℕ) × UdpServer)
replay_file c none s = some ([], s)
replay_file c (some file) s = replay_loop c (suc (length file)) file 0 none s

-- `close` of a server whose socket is open, or not.
unfoldable pub close : Bool → Bool → UdpServer → List (List ℕ) × UdpServer
close is_open sent s = if is_open then ((flush sent s).1, (flush sent s).2) else ([], s)
