-- ===== src/Feed/Server/Packets.antt =====
-- The datagrams of `UdpServer` stay within their size, and number the messages without a gap.
use tickpipe.Base.{
  ℕ, ◌+◌, ◌^◌, ◌≤◌, ◌<◌, ◌≡◌, refl, ap, Bool, false, List, [], ◌++◌, arith, length, length-append,
  All, if_with, if_both, ltb, ◌==◌, ◌||◌, not,
}
use tickpipe.Feed.Server.{
  UdpServer, max_payload, mold_header, be16_bytes, datagram, flush, queue_message, send_message,
}

-- A datagram that can be sent: its payload fits, and its count fits 16 bits.
pub record IsPacked (s : UdpServer) : Type 0 where
  pub fits : length s.packet ≤ max_payload
  pub counted : s.packet_msgs < 2 ^ 16
  pub some_messages : s.packet_msgs ≡ 0 → s.packet ≡ []

-- What a call sends is at most a full payload behind the header.
abbrev pub Small : List ℕ → Type 0
Small d = length d ≤ mold_header + max_payload

-- The result, what was sent, and the server after a call.
pub record Keeps (r : Bool × List (List ℕ) × UdpServer) : Type 0 where
  pub packed : IsPacked r.2
  pub sent : All Small r.1

pub length-datagram : (s : UdpServer) → length (datagram s) ≡ mold_header + length s.packet
unfolding datagram
length-datagram s = omega arith

pub flush-Keeps : (sent : Bool) (s : UdpServer) → IsPacked s → Keeps (flush sent s)
unfolding flush
flush-Keeps sent s p =
    if_both Keeps (s.packet_msgs == 0) (record { packed = p; sent = tt })
      (if_both Keeps (not sent)
        (record {
          packed = record { fits = omega arith; counted = omega arith; some_messages = λ e. refl };
          sent = tt;
        })
        (record {
          packed = record { fits = omega arith; counted = omega arith; some_messages = λ e. refl };
          sent = (omega (arith, length-datagram s, p.fits), tt);
        }))

queue_message-IsPacked :
    (message : List ℕ) (s : UdpServer)
    → length s.packet + (2 + length message) ≤ max_payload
    → s.packet_msgs < 0xffff
    → IsPacked (queue_message message s)
unfolding queue_message
queue_message-IsPacked message s room few = record {
  fits = omega (arith, length-append s.packet (be16_bytes (length message) ++ message));
  counted = omega arith;
  some_messages = λ e. absurd (omega arith);
}

-- A flush leaves an empty datagram, whatever becomes of it.
pub flush-empty : (sent : Bool) (s : UdpServer) → IsPacked s → (flush sent s).2.packet_msgs ≡ 0
unfolding flush
flush-empty sent s p = ground arith

room_lem : (n m : ℕ) → (ltb max_payload n || m == 0xffff) ≡ false → n ≤ max_payload
room_lem n m h = ground arith

count_lem : (n m : ℕ) → m < 2 ^ 16 → (ltb max_payload n || m == 0xffff) ≡ false → m < 0xffff
count_lem n m lt h = ground arith

-- From a datagram within its limits, `send_message` leaves one within its limits (a payload of at
-- most 1400 bytes, a count of 16 bits), and every datagram that it sends is at most 1420 bytes
-- long, also when it flushes first.
pub send_message-Keeps :
    (sent : Bool) (message : List ℕ) (s : UdpServer)
    → IsPacked s
    → Keeps (send_message sent message s)
unfolding send_message
send_message-Keeps sent message s p =
    let f = flush-Keeps sent s p in
    let s' = (flush sent s).2 in
    let msgs = flush-empty sent s p in
    let room : length s'.packet ≡ 0 = ap length (f.packed.some_messages msgs) in
    if_with Keeps (ltb max_payload (2 + length message)) (λ big. record { packed = p; sent = tt })
      (λ small.
        if_with Keeps
          (ltb max_payload (length s.packet + (2 + length message)) || s.packet_msgs == 0xffff)
          (λ over.
            if_both Keeps (not (flush sent s).0) (record { packed = f.packed; sent = f.sent })
              (record {
                packed =
                    queue_message-IsPacked message s' (ground (arith, room)) (omega (arith, msgs));
                sent = f.sent;
              }))
          (λ under. record {
            packed =
                queue_message-IsPacked message s (room_lem _ _ under)
                  (count_lem _ _ p.counted under);
            sent = tt;
          }))
