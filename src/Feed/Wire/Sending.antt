-- ===== src/Feed/Wire/Sending.antt =====
-- `send_message` and `flush`, with all datagrams sent, on the queued messages.
use mathlib.Core.List.{append_assoc, append-nil}
use tickpipe.Base.{
  ℕ, ◌+◌, ◌<◌, ◌≡◌, ◌≢◌, refl, sym, ap, ◌∙◌, Bool, true, false, List, [], ◌∷◌, ◌++◌, ◌||◌, arith,
  ltb, ◌==◌, if◌then◌else◌, if_false, if_true, inc64, bytes_of, length, length-append, All-append,
  u64,
}
use tickpipe.Itch.Order.{Order}
use tickpipe.Feed.Server.{
  UdpServer, max_payload, mold_header, be16_bytes, datagram, flush, queue_message, send_message,
}
use tickpipe.Feed.Receiver.{UdpReceiver, handle_message}
use tickpipe.Feed.Wire.{handle_all}
use tickpipe.Feed.Wire.Frames.{frames, frames-append, IsShort}
use tickpipe.Feed.Wire.Packet.{IsPending}

-- The server after a datagram went out.
unfoldable pub emptied : UdpServer → UdpServer
emptied s = record s {
  packet = [];
  packet_msgs = 0;
  packets_sent = inc64 s.packets_sent;
  bytes_sent = u64 (s.bytes_sent + (mold_header + length s.packet));
}

pub flush_some :
    (s : UdpServer) → s.packet_msgs ≢ 0 → flush true s ≡ (true, datagram s ∷ [], emptied s)
unfolding flush emptied
flush_some s ne = if_false {c = s.packet_msgs == 0} _ _ (ground (arith, ne))

unfoldable pub is_over : List ℕ → UdpServer → Bool
is_over m s = ltb max_payload (length s.packet + (2 + length m)) || s.packet_msgs == 0xffff

pub send_under :
    (m : List ℕ) (s : UdpServer)
    → IsShort m
    → is_over m s ≡ false
    → send_message true m s ≡ (true, [], queue_message m s)
unfolding send_message is_over IsShort
send_under m s short under =
    if_false {c = ltb max_payload (2 + length m)} _ _ (ground (arith, short))
    ∙ if_false {c = is_over m s} _ _ under

pub send_over :
    (m : List ℕ) (s : UdpServer)
    → IsShort m
    → is_over m s ≡ true
    → s.packet_msgs ≢ 0
    → send_message true m s ≡ (true, datagram s ∷ [], queue_message m (emptied s))
unfolding send_message is_over IsShort
send_over m s short over ne =
    if_false {c = ltb max_payload (2 + length m)} _ _ (ground (arith, short))
    ∙ if_true {c = is_over m s} _ _ over
    ∙ ap
        (λ (f : Bool × List (List ℕ) × UdpServer).
          if (elim f.0 [ true ↦ false | false ↦ true ])
          then (false, f.1, f.2)
          else (true, f.1, queue_message m f.2))
        (flush_some s ne)

pub none_pending : (ms : List (List ℕ)) → length ms ≡ 0 → ms ≡ []
none_pending [] e = refl
none_pending (m ∷ ms) e = absurd (omega arith)

pub over-pending :
    (m : List ℕ) (s : UdpServer) (ms : List (List ℕ))
    → IsShort m
    → IsPending s ms
    → is_over m s ≡ true
    → s.packet_msgs ≢ 0
unfolding is_over IsPending IsShort frames
over-pending m s ms short (packet, msgs, few, shorts) over e =
    let empty : length s.packet ≡ 0 =
      ap length (packet ∙ ap frames (none_pending ms (omega arith))) in
    ground (arith, over, empty, short, e)

pub queue-IsPending :
    (m : List ℕ) (s : UdpServer) (ms : List (List ℕ))
    → IsShort m
    → IsPending s ms
    → is_over m s ≡ false
    → IsPending (queue_message m s) (ms ++ (m ∷ []))
unfolding is_over IsPending queue_message
queue-IsPending m s ms short (packet, msgs, few, shorts) under =
    let more = length-append ms (m ∷ []) in
    let room : s.packet_msgs < 65535 = ground (arith, under, msgs, few) in
    (
      ap (λ (xs : List ℕ). xs ++ (be16_bytes (length m) ++ m)) packet ∙ sym (frames-append ms m),
      omega (arith, more, msgs),
      omega (arith, more, msgs),
      All-append IsShort ms (m ∷ []) shorts (short, tt),
    )

pub first-IsPending :
    (m : List ℕ) (s : UdpServer) → IsShort m → IsPending (queue_message m (emptied s)) (m ∷ [])
unfolding IsPending queue_message emptied frames
first-IsPending m s short =
    (sym (append-nil (be16_bytes (length m) ++ m)), refl, omega arith, (short, tt))

-- Orders in front of those of a later step.
abbrev pub prepend : List Order → List Order × UdpReceiver → List Order × UdpReceiver
prepend os t = (os ++ t.0, t.1)

pub prepend_twice :
    (a b : List Order) (t : List Order × UdpReceiver) → prepend a (prepend b t) ≡ prepend (a ++ b) t
prepend_twice a b t = ap (λ (os : List Order). (os, t.1)) (sym (append_assoc a b t.0))

pub handle_all-append :
    (r : UdpReceiver) (xs ys : List (List ℕ))
    → handle_all r (xs ++ ys) ≡ (let (os, r') = handle_all r xs in prepend os (handle_all r' ys))
unfolding handle_all
handle_all-append r [] ys = refl
handle_all-append r (m ∷ xs) ys =
    let (os, r') = handle_message r (bytes_of m) (length m) in
    let (os', r'') = handle_all r' xs in
    ap (prepend os) (handle_all-append r' xs ys) ∙ prepend_twice os os' (handle_all r'' ys)
