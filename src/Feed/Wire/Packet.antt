-- ===== src/Feed/Wire/Packet.antt =====
-- One datagram of the server at the receiver.
use tickpipe.Base.{
  ℕ, ◌+◌, ◌/◌, ◌%◌, ◌^◌, ◌<◌, ◌≡◌, ◌⊎◌, refl, sym, ap, ap₂, subst, ◌∙◌, List, ◌++◌, arith, ltb,
  ◌==◌, if_false, if_with, Bytes, advance, bytes_of, length, All, u64, sub64,
}
use tickpipe.Itch.Parser.{be16, be64, copy8}
use tickpipe.Itch.Parser.Words.{be16_sum, be64_sum}
use tickpipe.Itch.Parser.Wire.{bytes_of-IsByte}
use tickpipe.Itch.Parser.Reads.{be16_ext, be64_ext}
use tickpipe.Feed.Server.{UdpServer, be16_bytes, be64_bytes, session, datagram}
use tickpipe.Feed.Receiver.{UdpReceiver, track, message_loop, receive_packet, short as cut}
use tickpipe.Feed.Wire.{handle_all}
use tickpipe.Feed.Wire.Within.{put_seq, handle_all-put_seq}
use tickpipe.Feed.Wire.Frames.{frames, Stands, IsShort, frames-Stands, message_loop-handle_all}

-- The queued messages of a server.
unfoldable pub IsPending : UdpServer → List (List ℕ) → Type 0
IsPending s ms =
    (s.packet ≡ frames ms) × (s.packet_msgs ≡ length ms) × (length ms < 2 ^ 16) × All IsShort ms

-- The number of the first of them.
abbrev pub first_seq : UdpServer → ℕ
first_seq s = sub64 s.next_seq s.packet_msgs

-- A receiver that has seen nothing yet, or all up to this number.
abbrev pub Joins : UdpReceiver → ℕ → Type 0
Joins r seq = (r.expected_seq ≡ 0) ⊎ (r.expected_seq ≡ seq)

track-Joins :
    (seq count : ℕ) (r : UdpReceiver)
    → Joins r seq
    → track seq count r ≡ record r { expected_seq = u64 (seq + count) }
unfolding track
track-Joins seq count r joins =
    let lost = sub64 seq r.expected_seq in
    ap (λ (t : UdpReceiver). record t { expected_seq = u64 (seq + count) })
      (if_with (λ (t : UdpReceiver). t ≡ r) (r.expected_seq == 0) (λ _. refl)
        (λ joined.
          if_with (λ (t : UdpReceiver). t ≡ r) (ltb r.expected_seq seq)
            (λ gap. absurd (ground (arith, joined, gap, joins)))
            (λ _.
              if_with (λ (t : UdpReceiver). t ≡ r) (ltb seq r.expected_seq)
                (λ back. absurd (ground (arith, joined, back, joins))) (λ _. refl))))

be64_back : (p : Bytes) (v : ℕ) → v < 2 ^ 64 → copy8 p ≡ be64_bytes v → be64 p ≡ v
be64_back p v lt e =
    let at : (i : ℕ) → bytes_of (copy8 p) i ≡ bytes_of (be64_bytes v) i =
      λ i. ap (λ (xs : List ℕ). bytes_of xs i) e in
    be64_ext p (bytes_of (be64_bytes v)) (at 0) (at 1) (at 2) (at 3) (at 4) (at 5) (at 6) (at 7)
    ∙ omega
        (arith, be64_sum (bytes_of (be64_bytes v)) (bytes_of-IsByte (be64_bytes v) (omega arith)))

be16_back : (p : Bytes) (v : ℕ) → v < 2 ^ 16 → p 0 ≡ v / 2 ^ 8 % 256 → p 1 ≡ v % 256 → be16 p ≡ v
be16_back p v lt high low =
    be16_ext p (bytes_of (be16_bytes v)) high low
    ∙ omega
        (arith, be16_sum (bytes_of (be16_bytes v)) (bytes_of-IsByte (be16_bytes v) (omega arith)))

pub receive_packet-datagram :
    (s : UdpServer) (ms : List (List ℕ)) (r : UdpReceiver)
    → IsPending s ms
    → Joins r (first_seq s)
    → receive_packet r (bytes_of (datagram s)) (length (datagram s))
      ≡ put_seq (u64 (first_seq s + s.packet_msgs)) (handle_all r ms)
unfolding receive_packet datagram IsPending
receive_packet-datagram s ms r (packet, msgs, few, shorts) joins =
    let head = session ++ (be64_bytes (first_seq s) ++ be16_bytes s.packet_msgs) in
    let d = datagram s in
    let n = length d in
    let buf = bytes_of d in
    let seq : be64 (advance buf 10) ≡ first_seq s =
      be64_back (advance buf 10) (first_seq s) (omega arith) refl in
    let count : be16 (advance buf 18) ≡ s.packet_msgs =
      be16_back (advance buf 18) s.packet_msgs (omega arith) refl refl in
    let x = u64 (first_seq s + s.packet_msgs) in
    let r' = record r { expected_seq = x } in
    let stands : Stands buf 20 ms =
      subst (λ (xs : List ℕ). Stands (bytes_of (head ++ xs)) 20 ms) (sym packet)
        (frames-Stands head ms) in
    let total : n ≡ 20 + length (frames ms) =
      omega (arith, ap (λ (xs : List ℕ). length xs) packet) in
    if_false {c = ltb n 20} (cut r) _ (ground (arith, total))
    ∙ ap₂ (λ (q : ℕ) (c : ℕ). message_loop buf n c 20 (track q c r)) seq count
    ∙ ap₂ (λ (c : ℕ) (t : UdpReceiver). message_loop buf n c 20 t) msgs
        (track-Joins (first_seq s) s.packet_msgs r joins)
    ∙ message_loop-handle_all buf n 20 r' ms stands shorts (omega (arith, total))
    ∙ handle_all-put_seq r ms x
