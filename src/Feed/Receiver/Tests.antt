-- ===== src/Feed/Receiver/Tests.antt =====
-- Three datagrams, with two messages missing between the first two.
use tickpipe.Base.{◌+◌, ◌≡◌, none, [], ◌∷◌, arith}
use tickpipe.Itch.Order.{empty_order}
use tickpipe.Itch.Parser.{no_counts}
use tickpipe.Feed.Receiver.{UdpReceiver}
use tickpipe.Feed.Receiver.Gaps.{track_all, track_all_lem}

abbrev joined : UdpReceiver
joined = record {
  orders_parsed = 0;
  messages_filtered = 0;
  directory_messages = 0;
  short_packets = 0;
  gaps = 0;
  messages_lost = 0;
  out_of_order = 0;
  expected_seq = 10;
  parser = no_counts;
  order = empty_order;
  directory = none;
}

track_all_lem_example :
    ((track_all joined ((10, 3) ∷ (15, 2) ∷ (17, 1) ∷ [])).messages_lost + 6 + 10 ≡ 0 + 18)
    × ((track_all joined ((10, 3) ∷ (15, 2) ∷ (17, 1) ∷ [])).out_of_order ≡ 0)
track_all_lem_example =
    track_all_lem joined ((10, 3) ∷ (15, 2) ∷ (17, 1) ∷ []) (ground arith)
      (ground arith, (ground arith, (ground arith, tt))) (ground arith) (ground arith)
