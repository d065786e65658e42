-- ===== src/Feed/Listen/Schedule.antt =====
-- Any schedule of the socket thread and the book thread.
use tickpipe.Base.{
  ℕ, ◌+◌, ◌^◌, ◌<◌, ◌≡◌, refl, subst, true, not, Option, none, some, List, [], ◌∷◌, ◌++◌, map,
  arith, ◌==◌, if_with, if_both, Bytes, bytes_of, length, take,
}
use tickpipe.Symbols.{SymbolDirectory}
use tickpipe.Ring
use tickpipe.Ring.{push, pop}
use tickpipe.Ring.Cells.{IsRing}
use tickpipe.Ring.Fifo.{Holds, IsQueue, push-Pushed}
use tickpipe.Feed.Receiver.{UdpReceiver}
use tickpipe.Feed.Wire.{receive_all}
use tickpipe.Feed.Listen.{
  max_packet_size, new_receiver, Phase, polling, checking, finished, Listener, start, on_silence,
  on_datagram, on_recv, poll, Event, recv, round, test, round_at, test_at, step, run,
}
use tickpipe.Feed.Listen.Valid.{
  size, incoming, nothing, Taken-size, message, IsDatagram, Ends, IsValid, IsReached,
}
use tickpipe.Feed.Listen.Keeping.{store-IsValid, stopped-IsValid, fewer-IsValid, push-Stored}
use tickpipe.Feed.Listen.Rounds.{length-take, poll_empty, poll_first, check-IsValid}

module _ (k left : ℕ) (r : UdpReceiver) where
  poll-IsReached :
      (now : ℕ) (s : Listener) (handled waiting : List (List ℕ)) (n : ℕ)
      → IsValid k left r s handled waiting n
      → s.phase ≡ polling
      → IsReached k left r (poll now s)
  poll-IsReached now s handled [] n v e =
      (handled, [], n, (poll_empty k left r now s handled n v).0)
  poll-IsReached now s handled (d ∷ waiting) n v e =
      (handled ++ (d ∷ []), waiting, n, (poll_first k left r now s d handled waiting n v e).0)

  round-IsReached :
      (now : ℕ) (s : Listener) (p : Phase) (handled waiting : List (List ℕ)) (n : ℕ)
      → IsValid k left r s handled waiting n
      → s.phase ≡ p
      → IsReached k left r (round_at now s p)
  unfolding round_at
  round-IsReached now s polling handled waiting n v e = poll-IsReached now s handled waiting n v e
  round-IsReached now s checking handled waiting n v e = (handled, waiting, n, v)
  round-IsReached now s finished handled waiting n v e = (handled, waiting, n, v)

  test-IsReached :
      (s : Listener) (p : Phase) (handled waiting : List (List ℕ)) (n : ℕ)
      → IsValid k left r s handled waiting n
      → IsReached k left r (test_at s p)
  unfolding test_at
  test-IsReached s polling handled waiting n v = (handled, waiting, n, v)
  test-IsReached s checking handled waiting n v =
      (handled, waiting, n, check-IsValid k left r s handled waiting n v)
  test-IsReached s finished handled waiting n v = (handled, waiting, n, v)

  silence-IsReached :
      (s : Listener) (handled waiting : List (List ℕ)) (n : ℕ)
      → IsValid k left r s handled waiting n
      → IsReached k left r (on_silence s)
  unfolding on_silence
  silence-IsReached s handled waiting n v =
      if_both (IsReached k left r) (not s.armed) (handled, waiting, n, v)
        (handled, waiting, n, stopped-IsValid k left r s handled waiting n v)

  datagram-IsReached :
      (d : List ℕ) (s : Listener) (handled waiting : List (List ℕ)) (n : ℕ)
      → IsValid k (4 + length d + left) r s handled waiting n
      → s.running ≡ true
      → IsReached k left r (on_datagram d s)
  unfolding on_datagram IsDatagram
  datagram-IsReached d s handled waiting n v up =
      let got = take max_packet_size d in
      let (most, whole) = length-take max_packet_size d in
      if_with (IsReached k left r) (length got == 0)
        (λ _.
          silence-IsReached s handled waiting n
            (fewer-IsValid k (4 + length d + left) r s handled waiting n left (omega arith) v))
        (λ some_bytes.
          let short : IsDatagram got = (ground (arith, some_bytes), most) in
          let v' =
            fewer-IsValid k (4 + length d + left) r s handled waiting n (4 + length got + left)
              (omega (arith, whole)) v in
          let some_left = Taken-size v.losses in
          let low : s.ring.head + 4 + length got < 2 ^ 64 =
            omega (arith, v.head, some_left, v.low, whole) in
          store-IsValid k left r s handled waiting n got (push s.ring (bytes_of got) (length got))
            up short v'
            (push-Pushed k s.ring (map message waiting) (bytes_of got) (length got) v.queue short.0
              (omega (arith, most)) low)
            (push-Stored s.ring (bytes_of got) (length got) (omega (arith, most)) low))

  without :
      (s : Listener) (handled waiting : List (List ℕ)) (n : ℕ)
      → IsValid k (0 + left) r s handled waiting n
      → IsValid k left r s handled waiting n
  without s handled waiting n v =
      fewer-IsValid k (0 + left) r s handled waiting n left (omega arith) v

  step-IsReached :
      (s : Listener) (e : Event) (handled waiting : List (List ℕ)) (n : ℕ)
      → IsValid k (size (incoming (e ∷ [])) + left) r s handled waiting n
      → IsReached k left r (step s e)
  unfolding step incoming on_recv
  step-IsReached s (recv none) handled waiting n v =
      let v' = without s handled waiting n v in
      if_both (IsReached k left r) s.running (silence-IsReached s handled waiting n v')
        (handled, waiting, n, v')
  step-IsReached s (recv (some d)) handled waiting n v =
      let all = 4 + length d + 0 + left in
      if_with (IsReached k left r) s.running
        (λ up.
          datagram-IsReached d s handled waiting n
            (fewer-IsValid k all r s handled waiting n (4 + length d + left) (omega arith) v) up)
        (λ _. (handled, waiting, n, fewer-IsValid k all r s handled waiting n left (omega arith) v))
  step-IsReached s (round now) handled waiting n v =
      round-IsReached now s s.phase handled waiting n (without s handled waiting n v) refl
  step-IsReached s test handled waiting n v =
      test-IsReached s s.phase handled waiting n (without s handled waiting n v)

incoming-cons :
    (e : Event) (es : List Event)
    → size (incoming (e ∷ es)) ≡ size (incoming (e ∷ [])) + size (incoming es)
unfolding incoming
incoming-cons (recv none) es = omega arith
incoming-cons (recv (some d)) es = omega arith
incoming-cons (round now) es = omega arith
incoming-cons test es = omega arith

pub run-IsReached :
    (k left : ℕ) (r : UdpReceiver) (es : List Event) (s : Listener)
    → IsReached k (size (incoming es) + left) r s
    → IsReached k left r (run s es)
unfolding run incoming
run-IsReached k left r [] s (handled, waiting, n, v) =
    (handled, waiting, n, without k left r s handled waiting n v)
run-IsReached k left r (e ∷ es) s (handled, waiting, n, v) = run-IsReached k left r es (step s e) (
    step-IsReached k (size (incoming es) + left) r s e handled waiting n (
      subst (λ (x : ℕ). IsValid k x r s handled waiting n) {x = size (incoming (e ∷ es)) + left}
        {y = size (incoming (e ∷ [])) + (size (incoming es) + left)}
        (omega (arith, incoming-cons e es)) v))

pub start-IsValid :
    (k left now : ℕ) (cells buf : Bytes) (directory : Option SymbolDirectory)
    → left < 2 ^ 64
    → IsValid k left (new_receiver directory) (start cells buf k now directory) [] [] 0
unfolding start Ring.new IsQueue IsRing Holds Ends receive_all
start-IsValid k left now cells buf directory low = record {
  queue = ((refl, refl), omega arith, omega arith, refl);
  datagrams = tt;
  taken = refl;
  outcome = refl;
  losses = nothing;
  drops = refl;
  head = refl;
  low = omega arith;
  room = λ _. refl;
  packets = refl;
  bytes = refl;
  ends = tt;
}
