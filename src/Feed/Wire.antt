-- ===== src/Feed/Wire.antt =====
-- The server and the receiver joined: messages that `UdpServer` sends, and what the book thread of
-- `UdpReceiver` makes of the datagrams when all of them arrive in order.
pub mod Within
pub mod Frames
mod Packet
pub mod Sending
pub mod Stream
pub mod Replayed
mod Tests
use tickpipe.Base.{ℕ, true, List, [], ◌∷◌, ◌++◌, bytes_of, length}
use tickpipe.Itch.Order.{Order}
use tickpipe.Feed.Server.{UdpServer, be16_bytes, flush, send_message}
use tickpipe.Feed.Receiver.{UdpReceiver, handle_message, receive_packet}

-- The messages one by one, without datagrams.
unfoldable pub handle_all : UdpReceiver → List (List ℕ) → List Order × UdpReceiver
handle_all r [] = ([], r)
handle_all r (m ∷ ms) =
    let (os, r') = handle_message r (bytes_of m) (length m) in
    let rest = handle_all r' ms in (os ++ rest.0, rest.1)

unfoldable pub receive_all : UdpReceiver → List (List ℕ) → List Order × UdpReceiver
receive_all r [] = ([], r)
receive_all r (d ∷ ds) =
    let (os, r') = receive_packet r (bytes_of d) (length d) in
    let rest = receive_all r' ds in (os ++ rest.0, rest.1)

-- The datagrams of `send_message` for each message and a `flush` behind the last, all of them sent.
unfoldable pub send_all : UdpServer → List (List ℕ) → List (List ℕ)
send_all s [] = (flush true s).1
send_all s (m ∷ ms) = let (ok, out, s') = send_message true m s in out ++ send_all s' ms
