-- ===== src/Ring/Threads/Producing.antt =====
-- The steps of the socket thread keep the invariant.
use tickpipe.Base.{
  ℕ, ◌+◌, ◌^◌, ◌≤◌, ◌<◌, ◌≡◌, sym, subst, List, [], ◌∷◌, ◌++◌, arith, ltb, if_with, Bytes, u32, u64,
  inc64,
}
use tickpipe.Ring.{SpscRing, write, used, length_bytes}
use tickpipe.Ring.Cells.{IsRing, at_pos}
use tickpipe.Ring.Fifo.{
  Message, IsRecord, Holds, Holds-le, Holds-frame, Holds-append, IsQueue, stored, stored-IsRecord,
  stored_before,
}
use tickpipe.Ring.Threads.{
  Producer, ready, checked, written, Threads, load_tail, write_record, publish_head,
}
use tickpipe.Ring.Threads.InOrder.{
  Delivered-send, AllFit-append, Room, IsProducer, IsConsumer-append, IsAt,
}

-- Fewer bytes to come.
pub IsProducer-fewer :
    (out_cap more left : ℕ) (r : SpscRing) (p : Producer)
    → IsProducer out_cap (more + left) r p
    → IsProducer out_cap left r p
unfolding IsProducer Room
IsProducer-fewer out_cap more left r ready h = omega arith
IsProducer-fewer out_cap more left r (checked payload len) (pos, le, low, room) =
    (pos, le, omega arith, room)
IsProducer-fewer out_cap more left r (written payload len) ((pos, le, low, room), rec) =
    ((pos, le, omega arith, room), rec)

-- Room stays room when the book thread moves the tail on, and what `push` counts does not matter.
pub IsProducer-ring :
    (out_cap left : ℕ) (r : SpscRing) (dropped tail : ℕ) (p : Producer)
    → r.tail ≤ tail
    → IsProducer out_cap left r p
    → IsProducer out_cap left (record r { dropped = dropped; tail = tail }) p
unfolding IsProducer Room at_pos
IsProducer-ring out_cap left r dropped tail ready le h = h
IsProducer-ring out_cap left r dropped tail (checked payload len) le (pos, fit, low, room) =
    (pos, fit, low, omega arith)
IsProducer-ring out_cap left r dropped tail (written payload len) le ((pos, fit, low, room), rec) =
    ((pos, fit, low, omega arith), rec)

-- The ring with both writes in place.
both_written :
    (k : ℕ) (r : SpscRing) (q : List Message) (payload : Bytes) (len at4 : ℕ)
    → IsQueue k r q
    → 0 < len
    → 4 + len < 2 ^ 32
    → r.head + 4 + len ≤ r.tail + r.capacity
    → at4 ≡ r.head + 4
    → let r1 = record r { buf = write r r.head (length_bytes len) 4 } in
      let r2 = record r1 { buf = write r1 at4 payload len } in
      IsQueue k r2 q × IsRecord (at_pos r2) r.head (payload, len)
unfolding IsQueue at_pos stored IsRing
both_written k r q payload len at4 (ok, within, small, holds) pos short room e4 =
    let tail_le = Holds-le (at_pos r) r.tail r.head q holds in
    let r1 = record r { buf = write r r.head (length_bytes len) 4 } in
    subst
      (λ (a : ℕ).
        let r2 = record r1 { buf = write r1 a payload len } in
        IsQueue k r2 q × IsRecord (at_pos r2) r.head (payload, len))
      (sym e4)
      (
        (
          ok,
          within,
          small,
          Holds-frame (at_pos r) (stored k r q payload len) r.tail r.head q
              (λ x ge lt. stored_before k r q payload len x ok pos lt (omega arith)) holds,
        ),
        stored-IsRecord k r q payload len ok pos short (omega arith),
      )

pub IsAt-fewer :
    (k out_cap more left : ℕ) (q : List Message) (s : Threads)
    → IsAt k out_cap (more + left) q s
    → IsAt k out_cap left q s
unfolding IsAt
IsAt-fewer k out_cap more left q s (queue, fit, sent, producing, consuming) =
    (queue, fit, sent, IsProducer-fewer out_cap more left s.ring s.producer producing, consuming)

module _ (k out_cap left : ℕ) (q : List Message) (s : Threads) (few : 4 + out_cap < 2 ^ 32) where
  load_tail-by :
      (payload : Bytes) (len : ℕ) (p : Producer)
      → 0 < len
      → len ≤ out_cap
      → IsAt k out_cap (4 + len + left) q s
      → IsProducer out_cap (4 + len + left) s.ring p
      → IsAt k out_cap left q (load_tail payload len s p)
  unfolding load_tail IsAt IsProducer IsQueue IsRing at_pos used Room
  load_tail-by payload len ready pos le
        ((ok, within, small, holds), fit, sent, producing, consuming) low =
      let r = s.ring in
      let tail_le = Holds-le (at_pos r) r.tail r.head q holds in
      let producing' = IsProducer-fewer out_cap (4 + len) left r s.producer producing in
      if_with (IsAt k out_cap left q) (ltb r.capacity (u64 (used r + u32 (4 + len))))
        (λ _. (
          (ok, within, small, holds),
          fit,
          sent,
          IsProducer-ring out_cap left r (inc64 r.dropped) r.tail s.producer (omega arith)
              producing',
          consuming,
        ))
        (λ fits. (
          (ok, within, small, holds),
          fit,
          sent,
          (pos, le, omega arith, ground (arith, fits)),
          consuming,
        ))
  load_tail-by payload len (checked b n) pos le h producing =
      IsAt-fewer k out_cap (4 + len) left q s h
  load_tail-by payload len (written b n) pos le h producing =
      IsAt-fewer k out_cap (4 + len) left q s h

  pub load_tail-IsAt :
      (payload : Bytes) (len : ℕ)
      → 0 < len
      → len ≤ out_cap
      → IsAt k out_cap (4 + len + left) q s
      → IsAt k out_cap left q (load_tail payload len s s.producer)
  unfolding IsAt
  load_tail-IsAt payload len pos le h = load_tail-by payload len s.producer pos le h h.3

  write_record-by :
      (p : Producer)
      → IsAt k out_cap left q s
      → IsProducer out_cap left s.ring p
      → IsAt k out_cap left q (write_record s p)
  unfolding write_record IsAt IsProducer Room
  write_record-by ready h producing = h
  write_record-by (checked payload len) (queue, fit, sent, producing, consuming)
        (pos, le, low, room) =
      let (queue', rec) =
        both_written k s.ring q payload len (u64 (s.ring.head + 4)) queue pos (omega arith) room
          (omega arith) in
      (queue', fit, sent, ((pos, le, low, room), rec), consuming)
  write_record-by (written payload len) h producing = h

  pub write_record-IsAt :
      IsAt k out_cap left q s → IsAt k out_cap left q (write_record s s.producer)
  unfolding IsAt
  write_record-IsAt h = write_record-by s.producer h h.3

  publish_head-by :
      (p : Producer)
      → IsAt k out_cap left q s
      → IsProducer out_cap left s.ring p
      → (q' : List Message) × IsAt k out_cap left q' (publish_head s p)
  unfolding publish_head IsAt IsProducer Room IsQueue IsRing at_pos
  publish_head-by ready h producing = (q, h)
  publish_head-by (checked payload len) h producing = (q, h)
  publish_head-by (written payload len)
        ((ok, within, small, holds), fit, sent, producing, consuming) ((pos, le, low, room), rec) =
      let r = s.ring in
      let m : Message = (payload, len) in
      let next : r.head + 4 + len ≡ u64 (r.head + u32 (4 + len)) = omega arith in
      (
        q ++ (m ∷ []),
        (
          (
            ok,
            omega arith,
            omega arith,
            subst (λ (h : ℕ). Holds (at_pos r) r.tail h (q ++ (m ∷ []))) next
                (Holds-append (at_pos r) r.tail r.head q m holds rec),
          ),
          AllFit-append out_cap q m fit le,
          Delivered-send s.sent s.received m q sent,
          omega arith,
          IsConsumer-append q m s.consumer consuming,
        ),
      )

  pub publish_head-IsAt :
      IsAt k out_cap left q s
      → (q' : List Message) × IsAt k out_cap left q' (publish_head s s.producer)
  unfolding IsAt
  publish_head-IsAt h = publish_head-by s.producer h h.3
