-- ===== src/Feed/Receiver.antt =====
-- `UdpReceiver::receive_loop`: what the book thread does with one datagram from the ring. The
-- orders that the callback is given are a list.
pub mod Gaps
mod Tests
use tickpipe.Base.{
  ℕ, zero, suc, ◌+◌, ◌||◌, ◌&&◌, not, Option, none, some, List, [], ◌∷◌, ◌++◌, ltb, leb, ◌==◌,
  if◌then◌else◌, Bytes, advance, u64, inc64, sub64,
}
use tickpipe.Itch.Order.{Order}
use tickpipe.Itch.Parser.{Counts, be16, be64, parse}
use tickpipe.Symbols.{SymbolDirectory, feed, is_subscribed}

-- The counters of the receiver, with the parser, the order and the directory that its loop uses.
pub record UdpReceiver : Type 0 where
  pub orders_parsed : ℕ
  pub messages_filtered : ℕ
  pub directory_messages : ℕ
  pub short_packets : ℕ
  pub gaps : ℕ
  pub messages_lost : ℕ
  pub out_of_order : ℕ
  pub expected_seq : ℕ
  pub parser : Counts
  pub order : Order
  pub directory : Option SymbolDirectory

-- `parser.parse` and the callback.
unfoldable pub parse_message : UdpReceiver → Bytes → ℕ → List Order × UdpReceiver
parse_message r msg len =
    let (ok, order, counts) = parse r.parser (some msg) len r.order in
    let r' = record r { parser = counts; order = order } in
    if ok then (order ∷ [], record r' { orders_parsed = inc64 r.orders_parsed }) else ([], r')

-- The symbol filter in front of the parser.
unfoldable pub handle_known : UdpReceiver → SymbolDirectory → Bytes → ℕ → List Order × UdpReceiver
handle_known r dir msg len =
    let (consumed, dir') = feed dir (some msg) len in
    let r' = record r { directory = some dir' } in
    if consumed
    then ([], record r' { directory_messages = inc64 r.directory_messages })
    else if leb 3 len && not (is_subscribed dir' (be16 (advance msg 1)))
    then ([], record r' { messages_filtered = inc64 r.messages_filtered })
    else parse_message r' msg len

unfoldable pub handle_message : UdpReceiver → Bytes → ℕ → List Order × UdpReceiver
handle_message r msg len = elim r.directory [
  | none ↦ parse_message r msg len
  | some dir ↦ handle_known r dir msg len
]

abbrev pub short : UdpReceiver → List Order × UdpReceiver
short r = ([], record r { short_packets = inc64 r.short_packets })

-- The loop over the messages of a datagram of `n` bytes, `left` of them to come.
unfoldable pub message_loop : Bytes → ℕ → ℕ → ℕ → UdpReceiver → List Order × UdpReceiver
message_loop buf n zero off r = ([], r)
message_loop buf n (suc left) off r =
    let msg_len = be16 (advance buf off) in
    let body = off + 2 in
    let (orders, r') = handle_message r (advance buf body) msg_len in
    let (later, r'') = message_loop buf n left (body + msg_len) r' in
    let all : List Order × UdpReceiver = (orders ++ later, r'') in
    if ltb n (off + 2)
    then short r
    else if msg_len == 0 || ltb n (body + msg_len)
    then short r
    else all

-- The sequence number of a datagram against the one that is expected.
unfoldable pub track : ℕ → ℕ → UdpReceiver → UdpReceiver
track seq count r =
    let lost = sub64 seq r.expected_seq in
    let r' =
      if r.expected_seq == 0
      then r
      else if ltb r.expected_seq seq
      then record r { gaps = inc64 r.gaps; messages_lost = u64 (r.messages_lost + lost) }
      else if ltb seq r.expected_seq
      then record r { out_of_order = inc64 r.out_of_order }
      else r in
    record r' { expected_seq = u64 (seq + count) }

-- One datagram of `n` bytes.
unfoldable pub receive_packet : UdpReceiver → Bytes → ℕ → List Order × UdpReceiver
receive_packet r buf n =
    let seq = be64 (advance buf 10) in
    let count = be16 (advance buf 18) in
    if ltb n 20 then short r else message_loop buf n count 20 (track seq count r)
