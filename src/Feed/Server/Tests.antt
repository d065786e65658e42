-- ===== src/Feed/Server/Tests.antt =====
-- A message sent when there is no room for it in the datagram, and a file that breaks off.
use tickpipe.Base.{ℕ, zero, suc, ◌≤◌, true, some, List, [], ◌∷◌, arith, length}
use tickpipe.Feed.Server.{UdpServer, new, send_message}
use tickpipe.Feed.Server.File.{Conditions, replay_file}
use tickpipe.Feed.Server.Replaying.{Ends, replay_file-Ends, new-IsPacked, new-IsCounted}
use tickpipe.Feed.Server.Packets.{IsPacked, Keeps, send_message-Keeps}

abbrev repeat : ℕ → List ℕ
repeat zero = []
repeat (suc n) = 7 ∷ repeat n

abbrev nearly_full : UdpServer
nearly_full = record {
  packet = repeat 1390;
  packet_msgs = 30;
  next_seq = 31;
  packets_sent = 0;
  messages_sent = 30;
  bytes_sent = 0;
}

nearly_full-IsPacked : IsPacked nearly_full
nearly_full-IsPacked = record {
  fits = size;
  counted = ground arith;
  some_messages = λ e. absurd (omega arith);
}
  where
    size : length (repeat 1390) ≤ 1400
    size = omega arith

send_message-Keeps_example : Keeps (send_message true (repeat 30) nearly_full)
send_message-Keeps_example = send_message-Keeps true (repeat 30) nearly_full nearly_full-IsPacked

-- A file with one message of two bytes and a part of another, at twice the speed.
abbrev twice : Conditions
twice = record {
  paced = true;
  speed = 2;
  wall_elapsed = λ i. i;
  pause_sent = λ i. true;
  message_sent = λ i. true;
  last_sent = true;
}

replay_file-Ends_example :
    Ends new (replay_file twice (some (0 ∷ 2 ∷ 65 ∷ 66 ∷ 0 ∷ 9 ∷ 67 ∷ [])) new)
replay_file-Ends_example =
    replay_file-Ends twice (0 ∷ 2 ∷ 65 ∷ 66 ∷ 0 ∷ 9 ∷ 67 ∷ []) new (λ paced. omega arith)
      new-IsPacked new-IsCounted
