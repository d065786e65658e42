-- ===== src/Feed/Server.antt =====
-- `UdpServer`: the messages queued in the current datagram. `packet_` is the list of its
-- `payload_len_` bytes. What `sendto` returns is an argument, and a datagram that was sent is
-- part of the result.
pub mod Packets
pub mod File
pub mod Replaying
mod Tests
use tickpipe.Base.{
  ℕ, ◌+◌, ◌/◌, ◌%◌, ◌^◌, Bool, true, false, ◌||◌, not, List, [], ◌∷◌, ◌++◌, ltb, ◌==◌,
  if◌then◌else◌, u64, inc64, sub64, length,
}

pub record UdpServer : Type 0 where
  pub packet : List ℕ
  pub packet_msgs : ℕ
  pub next_seq : ℕ
  pub packets_sent : ℕ
  pub messages_sent : ℕ
  pub bytes_sent : ℕ

abbrev pub max_payload : ℕ
max_payload = 1400

abbrev pub mold_header : ℕ
mold_header = 20

-- "TICKPIPE01"
abbrev pub session : List ℕ
session = b'T' ∷ b'I' ∷ b'C' ∷ b'K' ∷ b'P' ∷ b'I' ∷ b'P' ∷ b'E' ∷ b'0' ∷ b'1' ∷ []

unfoldable pub new : UdpServer
new = record {
  packet = [];
  packet_msgs = 0;
  next_seq = 1;
  packets_sent = 0;
  messages_sent = 0;
  bytes_sent = 0;
}

abbrev pub be16_bytes : ℕ → List ℕ
be16_bytes v = v / 2 ^ 8 % 256 ∷ v % 256 ∷ []

abbrev pub be64_bytes : ℕ → List ℕ
be64_bytes v =
    v / 2 ^ 56 % 256
    ∷ v / 2 ^ 48 % 256
    ∷ v / 2 ^ 40 % 256
    ∷ v / 2 ^ 32 % 256
    ∷ v / 2 ^ 24 % 256
    ∷ v / 2 ^ 16 % 256
    ∷ v / 2 ^ 8 % 256
    ∷ v % 256
    ∷ []

-- The datagram that `flush` builds.
unfoldable pub datagram : UdpServer → List ℕ
datagram s =
    session
    ++ (be64_bytes (sub64 s.next_seq s.packet_msgs) ++ (be16_bytes s.packet_msgs ++ s.packet))

-- The result, the datagrams that went out, and the server after it.
unfoldable pub flush : Bool → UdpServer → Bool × List (List ℕ) × UdpServer
flush sent s =
    let total = mold_header + length s.packet in
    let s1 = record s { packet = []; packet_msgs = 0 } in
    if s.packet_msgs == 0 then (true, [], s) else if not sent then (false, [], s1) else (
      true,
      datagram s ∷ [],
      record s1 { packets_sent = inc64 s.packets_sent; bytes_sent = u64 (s.bytes_sent + total) },
    )

-- The lines of `send_message` that queue a message, in a datagram that has room.
unfoldable pub queue_message : List ℕ → UdpServer → UdpServer
queue_message message s = record s {
  packet = s.packet ++ (be16_bytes (length message) ++ message);
  packet_msgs = (s.packet_msgs + 1) % 2 ^ 16;
  next_seq = inc64 s.next_seq;
  messages_sent = inc64 s.messages_sent;
}

unfoldable pub send_message : Bool → List ℕ → UdpServer → Bool × List (List ℕ) × UdpServer
send_message sent message s =
    let need = 2 + length message in
    let (flushed, out, s') = flush sent s in
    if ltb max_payload need
    then (false, [], s)
    else if ltb max_payload (length s.packet + need) || s.packet_msgs == 0xffff
    then (if not flushed then (false, out, s') else (true, out, queue_message message s'))
    else (true, [], queue_message message s)
