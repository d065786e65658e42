-- ===== src/Feed/Listen/Rounds.antt =====
-- A round of the book thread at an empty ring and at one that is not, and its test of the end.
use tickpipe.Base.{
  ℕ, zero, suc, ◌+◌, ◌^◌, ◌≤◌, ◌<◌, ◌≡◌, refl, sym, ap, subst, Bool, true, false, ◌&&◌, not, List,
  [], ◌∷◌, ◌++◌, map, arith, ◌==◌, if_with, if_true, if_false, Bytes, length, take,
}
use tickpipe.Ring.{SpscRing, pop, used}
use tickpipe.Ring.Cells.{at_pos}
use tickpipe.Ring.Fifo.{Message, Holds, Holds-le, IsQueue, pop-Popped}
use tickpipe.Feed.Receiver.{UdpReceiver}
use tickpipe.Feed.Listen.{
  max_packet_size, polling, checking, finished, Listener, handle, poll, check,
}
use tickpipe.Feed.Listen.Valid.{message, IsDatagram, Ends, IsValid}
use tickpipe.Feed.Listen.Keeping.{idle-IsValid, handle-IsValid, pop-Left}

pub length-take : (n : ℕ) (d : List ℕ) → (length (take n d) ≤ n) × (length (take n d) ≤ length d)
length-take zero d = (omega arith, omega arith)
length-take (suc n) [] = (omega arith, omega arith)
length-take (suc n) (x ∷ d) =
    let rest = length-take n d in (omega (arith, rest.0), omega (arith, rest.1))

-- A ring that holds nothing, and one that holds something.
empty-cursors : (k : ℕ) (r : SpscRing) → IsQueue k r [] → r.head ≡ r.tail
unfolding IsQueue Holds
empty-cursors k r (shape, within, small, holds) = sym holds

more-cursors :
    (k : ℕ) (r : SpscRing) (m : Message) (q : List Message)
    → IsQueue k r (m ∷ q)
    → (r.tail < r.head) × (r.head < 2 ^ 64)
unfolding IsQueue Holds
more-cursors k r m q (shape, within, small, (first, rest)) =
    (omega (arith, Holds-le (at_pos r) (r.tail + 4 + m.1) r.head q rest), small)

pop-empty : (r : SpscRing) (out : Bytes) (cap : ℕ) → r.head ≡ r.tail → pop r out cap ≡ (0, out, r)
unfolding pop
pop-empty r out cap e = if_true {c = r.head == r.tail} _ _ (ground (arith, e))

none_waiting :
    (k : ℕ) (r : SpscRing) (waiting : List (List ℕ))
    → IsQueue k r (map message waiting)
    → (used r == 0) ≡ true
    → waiting ≡ []
unfolding used
none_waiting k r [] queue e = refl
none_waiting k r (d ∷ waiting) queue e =
    let (lt, low) = more-cursors k r (message d) (map message waiting) queue in
    absurd (ground (arith, e, lt, low))

used-empty : (k : ℕ) (r : SpscRing) → IsQueue k r [] → (used r == 0) ≡ true
unfolding used IsQueue
used-empty k r (shape, within, small, holds) =
    let e = empty-cursors k r (shape, within, small, holds) in ground (arith, e, small)

both_true : {a b : Bool} → (a && b) ≡ true → (a ≡ true) × (b ≡ true)
both_true h = ground arith

module _ (k left : ℕ) (r : UdpReceiver) where
  -- A round of the book thread with nothing in the ring, and with a datagram there.
  pub poll_empty :
      (now : ℕ) (s : Listener) (handled : List (List ℕ)) (n : ℕ)
      → IsValid k left r s handled [] n
      → IsValid k left r (poll now s) handled [] n × ((poll now s).phase ≡ checking)
  unfolding poll handle
  poll_empty now s handled n v =
      let e : handle now (0, s.buf, s.ring) s ≡ poll now s =
        ap (λ (t : ℕ × Bytes × SpscRing). handle now t s)
          (sym (pop-empty s.ring s.buf max_packet_size (empty-cursors k s.ring v.queue))) in
      (
        subst (λ (u : Listener). IsValid k left r u handled [] n) e
            (idle-IsValid k left r s handled [] n now v),
        subst (λ (u : Listener). u.phase ≡ checking) e refl,
      )

  pub poll_first :
      (now : ℕ) (s : Listener) (d : List ℕ) (handled waiting : List (List ℕ)) (n : ℕ)
      → IsValid k left r s handled (d ∷ waiting) n
      → s.phase ≡ polling
      → IsValid k left r (poll now s) (handled ++ (d ∷ [])) waiting n
        × ((poll now s).phase ≡ polling)
  unfolding poll IsDatagram
  poll_first now s d handled waiting n v e =
      handle-IsValid k left r s handled waiting n now d (pop s.ring s.buf max_packet_size) v e
        (pop-Popped k s.ring (map message waiting) (message d) s.buf max_packet_size v.queue
          (v.datagrams.0.1))
        (pop-Left s.ring s.buf max_packet_size)

  Ends-check :
      (s : Listener) (handled waiting : List (List ℕ)) (n : ℕ)
      → IsValid k left r s handled waiting n
      → Ends s.running waiting (check s).phase
  unfolding check Ends
  Ends-check s handled waiting n v =
      if_with (Ends s.running waiting) (not s.running && (used s.ring == 0))
        (λ over.
          let (down, empty) = both_true {a = not s.running} over in
          (ground (arith, down), none_waiting k s.ring waiting v.queue empty))
        (λ _. tt)

  pub check-IsValid :
      (s : Listener) (handled waiting : List (List ℕ)) (n : ℕ)
      → IsValid k left r s handled waiting n
      → IsValid k left r (check s) handled waiting n
  unfolding check
  check-IsValid s handled waiting n v = record {
    queue = v.queue;
    datagrams = v.datagrams;
    taken = v.taken;
    outcome = v.outcome;
    losses = v.losses;
    drops = v.drops;
    head = v.head;
    low = v.low;
    room = v.room;
    packets = v.packets;
    bytes = v.bytes;
    ends = Ends-check s handled waiting n v;
  }

  pub check_ends :
      (s : Listener) (handled : List (List ℕ)) (n : ℕ)
      → IsValid k left r s handled [] n
      → s.running ≡ false
      → (check s).phase ≡ finished
  unfolding check
  check_ends s handled n v down =
      if_true {c = not s.running && (used s.ring == 0)} finished polling
        (rw down (used-empty k s.ring v.queue))

  pub check_goes_on :
      (s : Listener) (d : List ℕ) (handled waiting : List (List ℕ)) (n : ℕ)
      → IsValid k left r s handled (d ∷ waiting) n
      → (check s).phase ≡ polling
  unfolding check used
  check_goes_on s d handled waiting n v =
      let (lt, low) = more-cursors k s.ring (message d) (map message waiting) v.queue in
      if_false {c = not s.running && (used s.ring == 0)} finished polling (ground (arith, lt, low))
