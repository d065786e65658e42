-- ===== src/Feed/Wire/Stream.antt =====
-- A stream of messages through the server and the receiver.
use mathlib.Core.List.{append_assoc, append-nil}
use tickpipe.Base.{
  ℕ, suc, ◌+◌, ◌^◌, ◌≤◌, ◌<◌, ◌≡◌, refl, sym, ap, subst, ◌∙◌, inl, inr, Bool, true, false, List, [],
  ◌∷◌, ◌++◌, arith, ◌==◌, Bool-cases, ==_iff, ne_of_eq_false, if_true, length, All, u64,
}
use tickpipe.Itch.Order.{Order}
use tickpipe.Feed.Server.{UdpServer, new, datagram, flush, queue_message, send_message}
use tickpipe.Feed.Receiver.{UdpReceiver}
use tickpipe.Feed.Wire.{handle_all, receive_all, send_all}
use tickpipe.Feed.Wire.Within.{put_seq, handle_all-put_seq}
use tickpipe.Feed.Wire.Frames.{frames, IsShort}
use tickpipe.Feed.Wire.Packet.{IsPending, first_seq, Joins, receive_packet-datagram}
use tickpipe.Feed.Wire.Sending.{
  emptied, flush_some, is_over, send_under, send_over, none_pending, over-pending, queue-IsPending,
  first-IsPending, prepend, handle_all-append,
}

-- The numbers do not wrap.
abbrev pub Numbered : ℕ → UdpServer → Type 0
Numbered left s = (s.packet_msgs ≤ s.next_seq) × (s.next_seq + left < 2 ^ 64)

-- What the receiver makes of a stream, but for the number that it expects next.
abbrev pub Same : List Order × UdpReceiver → List Order × UdpReceiver → Type 0
Same t t' = put_seq 0 t ≡ put_seq 0 t'

Same-prepend :
    (os : List Order) (t t' : List Order × UdpReceiver)
    → Same t t'
    → Same (prepend os t) (prepend os t')
Same-prepend os t t' e = ap (prepend os) e

flush_none : (s : UdpServer) → (s.packet_msgs == 0) ≡ true → flush true s ≡ (true, [], s)
unfolding flush
flush_none s e = if_true {c = s.packet_msgs == 0} _ _ e

-- A datagram in front of others.
receive-cons :
    (s : UdpServer) (pend : List (List ℕ)) (r : UdpReceiver) (ds : List (List ℕ))
    → IsPending s pend
    → Joins r (first_seq s)
    → let h = handle_all r pend in
      receive_all r (datagram s ∷ ds)
      ≡ prepend h.0
          (receive_all (record (h.1) { expected_seq = u64 (first_seq s + s.packet_msgs) }) ds)
unfolding receive_all
receive-cons s pend r ds pending joins =
    ap (λ (t : List Order × UdpReceiver). prepend t.0 (receive_all t.1 ds))
      (receive_packet-datagram s pend r pending joins)

pub send_end :
    (s : UdpServer) (pend : List (List ℕ)) (r : UdpReceiver)
    → IsPending s pend
    → Joins r (first_seq s)
    → Same (receive_all r (send_all s [])) (handle_all r (pend ++ []))
unfolding send_all receive_all handle_all flush IsPending
send_end s pend r (packet, msgs, few, shorts) joins = elim (Bool-cases (s.packet_msgs == 0)) [
  | inl e ↦
      ap (λ (f : Bool × List (List ℕ) × UdpServer). put_seq 0 (receive_all r f.1))
        (if_true {c = s.packet_msgs == 0} _ _ e)
      ∙ ap (λ (q : List (List ℕ)). put_seq 0 (handle_all r (q ++ [])))
          (sym (none_pending pend (sym msgs ∙ (==_iff s.packet_msgs 0).0 e)))
  | inr ne ↦
      let h = handle_all r pend in
      ap (λ (f : Bool × List (List ℕ) × UdpServer). put_seq 0 (receive_all r f.1))
        (flush_some s (ne_of_eq_false ne))
      ∙ ap (put_seq 0) (receive-cons s pend r [] (packet, msgs, few, shorts) joins)
      ∙ ap (λ (os : List Order). put_seq 0 (os, h.1)) (append-nil h.0)
      ∙ ap (λ (q : List (List ℕ)). put_seq 0 (handle_all r q)) (sym (append-nil pend))
]

count_room :
    (m : List ℕ) (s : UdpServer) (ms : List (List ℕ))
    → IsPending s ms
    → is_over m s ≡ false
    → s.packet_msgs < 65535
unfolding is_over IsPending
count_room m s ms (packet, msgs, few, shorts) under = ground (arith, under, msgs, few)

-- The numbers of the queued messages, behind a flush and without one.
module _ (s : UdpServer) (m : List ℕ) (left : ℕ) where
  after_flush :
      s.packet_msgs ≤ s.next_seq
      → s.next_seq + suc left < 2 ^ 64
      → u64 (first_seq s + s.packet_msgs) ≡ first_seq (queue_message m (emptied s))
  unfolding queue_message emptied
  after_flush le low = omega arith

  Numbered-first :
      s.packet_msgs ≤ s.next_seq
      → s.next_seq + suc left < 2 ^ 64
      → Numbered left (queue_message m (emptied s))
  unfolding queue_message emptied
  Numbered-first le low = (omega arith, omega arith)

  first_same :
      s.packet_msgs < 65535
      → s.packet_msgs ≤ s.next_seq
      → s.next_seq + suc left < 2 ^ 64
      → first_seq (queue_message m s) ≡ first_seq s
  unfolding queue_message
  first_same few le low = omega arith

  Numbered-next :
      s.packet_msgs < 65535
      → s.packet_msgs ≤ s.next_seq
      → s.next_seq + suc left < 2 ^ 64
      → Numbered left (queue_message m s)
  unfolding queue_message
  Numbered-next few le low = (omega arith, omega arith)

-- From any server and receiver that agree on the number expected, the datagrams of `rest` give what
-- the queued messages and then `ms` give.
abbrev pub Continues : ℕ → (UdpServer → List (List ℕ)) → List (List ℕ) → Type 0
Continues left rest ms =
    (s : UdpServer) (pend : List (List ℕ)) (r : UdpReceiver)
    → IsPending s pend
    → Joins r (first_seq s)
    → Numbered left s
    → Same (receive_all r (rest s)) (handle_all r (pend ++ ms))

module _ (rest : UdpServer → List (List ℕ)) (ms : List (List ℕ)) (left : ℕ)
    (go_on : Continues left rest ms) where
  -- Behind the datagram of what is queued.
  behind :
      (s s' : UdpServer) (pend pend' : List (List ℕ)) (r : UdpReceiver)
      → IsPending s pend
      → Joins r (first_seq s)
      → IsPending s' pend'
      → u64 (first_seq s + s.packet_msgs) ≡ first_seq s'
      → Numbered left s'
      → Same (receive_all r (datagram s ∷ rest s')) (handle_all r (pend ++ (pend' ++ ms)))
  behind s s' pend pend' r pending joins pending' number numbered =
      let h = handle_all r pend in
      let x = u64 (first_seq s + s.packet_msgs) in
      let r' = record (h.1) { expected_seq = x } in
      ap (put_seq 0) (receive-cons s pend r (rest s') pending joins)
      ∙ Same-prepend h.0 (receive_all r' (rest s')) (handle_all r' (pend' ++ ms))
          (go_on s' pend' r' pending' (inr number) numbered)
      ∙ ap (λ (t : List Order × UdpReceiver). put_seq 0 (prepend h.0 t))
          (handle_all-put_seq h.1 (pend' ++ ms) x)
      ∙ ap (put_seq 0) (sym (handle_all-append r pend (pend' ++ ms)))

  -- One message more.
  pub send_message-Continues :
      (m : List ℕ)
      → IsShort m
      → Continues
          (suc left)
          (λ s. let (ok, out, s') = send_message true m s in out ++ rest s')
          (m ∷ ms)
  send_message-Continues m short s pend r pending joins (le, low) =
      elim (Bool-cases (is_over m s)) [
        | inl over ↦
            ap
              (λ (f : Bool × List (List ℕ) × UdpServer).
                put_seq 0 (receive_all r (f.1 ++ rest f.2)))
              (send_over m s short over (over-pending m s pend short pending over))
            ∙ behind s (queue_message m (emptied s)) pend (m ∷ []) r pending joins
                (first-IsPending m s short) (after_flush s m left le low)
                (Numbered-first s m left le low)
        | inr under ↦
            let few = count_room m s pend pending under in
            ap
              (λ (f : Bool × List (List ℕ) × UdpServer).
                put_seq 0 (receive_all r (f.1 ++ rest f.2)))
              (send_under m s short under)
            ∙ go_on (queue_message m s) (pend ++ (m ∷ [])) r
                (queue-IsPending m s pend short pending under)
                (subst (Joins r) (sym (first_same s m left few le low)) joins)
                (Numbered-next s m left few le low)
            ∙ ap (λ (q : List (List ℕ)). put_seq 0 (handle_all r q)) (append_assoc pend (m ∷ []) ms)
      ]

  -- A flush in between.
  pub flush-Continues : Continues left (λ s. let (ok, out, s') = flush true s in out ++ rest s') ms
  unfolding emptied IsPending frames
  flush-Continues s pend r (packet, msgs, few, shorts) joins (le, low) =
      elim (Bool-cases (s.packet_msgs == 0)) [
        | inl e ↦
            ap
              (λ (f : Bool × List (List ℕ) × UdpServer).
                put_seq 0 (receive_all r (f.1 ++ rest f.2)))
              (flush_none s e)
            ∙ go_on s pend r (packet, msgs, few, shorts) joins (le, low)
        | inr ne ↦
            ap
              (λ (f : Bool × List (List ℕ) × UdpServer).
                put_seq 0 (receive_all r (f.1 ++ rest f.2)))
              (flush_some s (ne_of_eq_false ne))
            ∙ behind s (emptied s) pend [] r (packet, msgs, few, shorts) joins
                (refl, refl, omega arith, tt) (omega arith) (omega arith, omega arith)
      ]

send_more : (ms : List (List ℕ)) → All IsShort ms → Continues (length ms) (λ s. send_all s ms) ms
unfolding send_all
send_more [] shorts = λ s pend r pending joins numbered. send_end s pend r pending joins
send_more (m ∷ ms) (short, shorts) =
    send_message-Continues (λ s. send_all s ms) ms (length ms) (send_more ms shorts) m short

-- A new server packs messages of 1 to 1398 bytes, fewer than 2 ^ 64 - 1 of them, into datagrams,
-- with a flush behind the last; all are sent and arrive in order at a receiver that expects the
-- number 1 or has joined no stream. It hands on the orders that the messages give one by one
-- without datagrams, and ends with the same counters, parser and directory; only the number that
-- it expects next is left open.
pub send_all-receive_all :
    (r : UdpReceiver) (ms : List (List ℕ))
    → Joins r 1
    → All IsShort ms
    → length ms + 1 < 2 ^ 64
    → let (os, r') = receive_all r (send_all new ms) in
      let (os', r'') = handle_all r ms in
      (os ≡ os') × (record r' { expected_seq = 0 } ≡ record r'' { expected_seq = 0 })
unfolding new IsPending frames
send_all-receive_all r ms joins shorts few =
    let e =
      send_more ms shorts new [] r (refl, refl, omega arith, tt) joins (omega arith, omega arith) in
    (ap (λ (t : List Order × UdpReceiver). t.0) e, ap (λ (t : List Order × UdpReceiver). t.1) e)
