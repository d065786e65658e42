-- ===== src/Feed/Wire/Tests.antt =====
-- Three messages to a new receiver.
use tickpipe.Base.{ℕ, ◌≡◌, refl, true, inl, some, none, List, [], ◌∷◌, arith}
use tickpipe.Itch.Order.{empty_order}
use tickpipe.Itch.Parser.{no_counts}
use tickpipe.Feed.Server.{UdpServer, new}
use tickpipe.Feed.Receiver.{UdpReceiver}
use tickpipe.Feed.Wire.{handle_all, receive_all}
use tickpipe.Feed.Server.File.{Conditions, replay_file}
use tickpipe.Feed.Wire.Frames.{frames}
use tickpipe.Feed.Wire.Replayed.{IsRecorded, replay_file-receive_all}

abbrev fresh : UdpReceiver
fresh = record {
  orders_parsed = 0;
  messages_filtered = 0;
  directory_messages = 0;
  short_packets = 0;
  gaps = 0;
  messages_lost = 0;
  out_of_order = 0;
  expected_seq = 0;
  parser = no_counts;
  order = empty_order;
  directory = none;
}

-- The deletion of an order, a message of an unknown type, and a later deletion.
abbrev deletion : ℕ → ℕ → List ℕ
deletion time ref =
    b'D' ∷ 0 ∷ 1 ∷ 0 ∷ 0 ∷ 0 ∷ 0 ∷ time ∷ 0 ∷ 0 ∷ 9 ∷ 0 ∷ 0 ∷ 0 ∷ 0 ∷ 0 ∷ 0 ∷ 0 ∷ ref ∷ []

abbrev messages : List (List ℕ)
messages = deletion 0 5 ∷ (b'?' ∷ 1 ∷ []) ∷ deletion 1 6 ∷ []

-- A replay in real time, which sleeps before the last message.
abbrev paced : Conditions
paced = record {
  paced = true;
  speed = 1;
  wall_elapsed = λ i. 0;
  pause_sent = λ i. true;
  message_sent = λ i. true;
  last_sent = true;
}

replay_file-receive_all_example :
    (ds : List (List ℕ)) × (s : UdpServer) × (replay_file paced (some (frames messages)) new
      ≡ some (ds, s))
    × ((receive_all fresh ds).0 ≡ (handle_all fresh messages).0)
    × (record ((receive_all fresh ds).1) { expected_seq = 0 }
        ≡ record ((handle_all fresh messages).1) { expected_seq = 0 })
unfolding IsRecorded
replay_file-receive_all_example =
    replay_file-receive_all paced fresh messages
      (record {
        speed = λ _. omega arith;
        pauses_sent = λ i. refl;
        messages_sent = λ i. refl;
        end_sent = refl;
      })
      ((omega arith, omega arith), ((omega arith, omega arith), ((omega arith, omega arith), tt)))
      (inl refl) (omega arith)
