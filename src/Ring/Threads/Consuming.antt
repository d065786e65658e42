-- ===== src/Ring/Threads/Consuming.antt =====
-- The steps of the book thread keep the invariant.
use tickpipe.Base.{
  ℕ, ◌+◌, ◌^◌, ◌≤◌, ◌<◌, ◌≡◌, ◌≢◌, sym, ap, ◌∙◌, subst, List, [], ◌∷◌, ◌||◌, ne_of_eq_false, arith,
  ltb, ◌==◌, if_with, Bytes, u64,
}
use tickpipe.Ring.{SpscRing, read, length_of}
use tickpipe.Ring.Cells.{IsRing, at_pos, read_in}
use tickpipe.Ring.Fifo.{Message, IsRecord, Holds, Holds-le, IsQueue, length_of-length_bytes}
use tickpipe.Ring.Threads.{
  Consumer, waiting, seen, copied, Threads, load_head, copy_record, publish_tail,
}
use tickpipe.Ring.Threads.InOrder.{Same, Delivered-receive, AllFit, IsConsumer, IsAt}
use tickpipe.Ring.Threads.Producing.{IsProducer-ring}

-- A queue is not empty when the head is not at the tail.
seen_some :
    (k h : ℕ) (r : SpscRing) (q : List Message)
    → r.head ≢ r.tail
    → IsQueue k r q
    → IsConsumer q (seen h)
unfolding IsQueue Holds IsConsumer
seen_some k h r [] ne (ok, within, small, same) = absurd (ne (sym same))
seen_some k h r (m ∷ q) ne queue = tt

-- The first message of a queue as the book thread reads it.
first_length :
    (k : ℕ) (r : SpscRing) (m : Message) (q : List Message)
    → IsQueue k r (m ∷ q)
    → length_of (read r r.tail 4 (λ _. 0)) ≡ m.1
unfolding IsQueue Holds IsRecord
first_length k r (payload, len) q (ok, within, small, ((pos, short, size, bytes), rest)) =
    let low = Holds-le (at_pos r) (r.tail + 4 + len) r.head q rest in
    length_of-length_bytes (read r r.tail 4 (λ _. 0)) len (omega arith)
      (λ i lt. read_in k r ok r.tail 4 i (λ _. 0) (omega arith) lt ∙ size i lt)

within_stream :
    (k : ℕ) (r : SpscRing) (m : Message) (q : List Message)
    → IsQueue k r (m ∷ q)
    → (0 < m.1) × (r.tail + 4 + m.1 ≤ r.head) × (r.head < 2 ^ 64)
unfolding IsQueue Holds IsRecord
within_stream k r (payload, len) q (ok, within, small, ((pos, short, size, bytes), rest)) =
    (pos, Holds-le (at_pos r) (r.tail + 4 + len) r.head q rest, small)

first_bytes :
    (k : ℕ) (r : SpscRing) (m : Message) (q : List Message) (out : Bytes) (n at4 : ℕ)
    → n ≡ m.1
    → at4 ≡ r.tail + 4
    → IsQueue k r (m ∷ q)
    → Same m (read r at4 n out, n)
unfolding IsQueue Holds IsRecord
first_bytes k r (payload, len) q out n at4 e e4
      (ok, within, small, ((pos, short, size, bytes), rest)) =
    let low = Holds-le (at_pos r) (r.tail + 4 + len) r.head q rest in
    (
      e,
      λ i lt.
          read_in k r ok at4 n i out (omega arith) (omega arith)
          ∙ ap (at_pos r) {x = at4 + i} {y = r.tail + 4 + i} (omega arith)
          ∙ bytes i lt,
    )

module _ (k out_cap left : ℕ) (q : List Message) (s : Threads) where
  load_head-by : (c : Consumer) → IsAt k out_cap left q s → IsAt k out_cap left q (load_head s c)
  unfolding load_head IsAt
  load_head-by waiting (queue, fit, sent, producing, consuming) =
      if_with (IsAt k out_cap left q) (s.ring.head == s.ring.tail)
        (λ _. (queue, fit, sent, producing, consuming))
        (λ ne.
          (queue, fit, sent, producing, seen_some k s.ring.head s.ring q (ne_of_eq_false ne) queue))
  load_head-by (seen h) at = at
  load_head-by (copied out n) at = at

  pub load_head-IsAt : IsAt k out_cap left q s → IsAt k out_cap left q (load_head s s.consumer)
  load_head-IsAt h = load_head-by s.consumer h

module _ (k out_cap left : ℕ) (s : Threads) where
  copy_record-by :
      (q : List Message) (out : Bytes) (c : Consumer)
      → IsAt k out_cap left q s
      → IsConsumer q c
      → IsAt k out_cap left q (copy_record out_cap out s c)
  unfolding copy_record IsConsumer IsAt AllFit
  copy_record-by q out waiting h consuming = h
  copy_record-by [] out (seen n) h consuming = absurd consuming
  copy_record-by (m ∷ q) out (seen n) (queue, fit, sent, producing, _) consuming =
      let r = s.ring in
      let len = length_of (read r r.tail 4 (λ _. 0)) in
      let found = first_length k r m q queue in
      let tail_ok = within_stream k r m q queue in
      if_with (IsAt k out_cap left (m ∷ q)) (len == 0 || ltb out_cap len)
        (λ bad. absurd (ground (arith, bad, found, fit.0, tail_ok)))
        (λ _. (
          queue,
          fit,
          sent,
          producing,
          first_bytes k r m q out len (u64 (r.tail + 4)) found (omega (arith, tail_ok)) queue,
        ))
  copy_record-by q out (copied b n) h consuming = h

  publish_tail-by :
      (q : List Message) (c : Consumer)
      → IsAt k out_cap left q s
      → IsConsumer q c
      → (q' : List Message) × IsAt k out_cap left q' (publish_tail s c)
  unfolding publish_tail IsConsumer IsAt AllFit IsQueue Holds IsRing at_pos
  publish_tail-by q waiting h consuming = (q, h)
  publish_tail-by q (seen n) h consuming = (q, h)
  publish_tail-by [] (copied out n) h consuming = absurd consuming
  publish_tail-by (m ∷ q) (copied out n) (queue, (m_fit, fit), sent, producing, _) (e, same) =
      let r = s.ring in
      let (pos, low, high) = within_stream k r m q queue in
      let next : r.tail + 4 + m.1 ≡ u64 (r.tail + 4 + n) = omega (arith, e) in
      let (ok, within, small, (rec, rest)) = queue in
      (
        q,
        (
          (
            ok,
            omega (arith, next),
            small,
            subst (λ (t : ℕ). Holds (at_pos r) t r.head q) next rest,
          ),
          fit,
          Delivered-receive s.sent s.received m (out, n) q sent (e, same),
          IsProducer-ring out_cap left r r.dropped (u64 (r.tail + 4 + n)) s.producer
              (omega (arith, next)) producing,
          tt,
        ),
      )

module _ (k out_cap left : ℕ) (q : List Message) (s : Threads) where
  pub copy_record-IsAt :
      (out : Bytes)
      → IsAt k out_cap left q s
      → IsAt k out_cap left q (copy_record out_cap out s s.consumer)
  unfolding IsAt
  copy_record-IsAt out h = copy_record-by k out_cap left s q out s.consumer h h.4

  pub publish_tail-IsAt :
      IsAt k out_cap left q s
      → (q' : List Message) × IsAt k out_cap left q' (publish_tail s s.consumer)
  unfolding IsAt
  publish_tail-IsAt h = publish_tail-by k out_cap left s q s.consumer h h.4
