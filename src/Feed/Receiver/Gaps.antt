-- ===== src/Feed/Receiver/Gaps.antt =====
-- The accounting of lost messages over the sequence numbers of the datagrams.
use tickpipe.Base.{ℕ, ◌+◌, ◌-◌, ◌^◌, ◌≤◌, ◌<◌, ◌≡◌, refl, sym, ap, ◌∙◌, subst, List, [], ◌∷◌, arith}
use tickpipe.Feed.Receiver.{UdpReceiver, track}

-- The sequence number and the count of a datagram.
abbrev pub Heading : Type 0
Heading = ℕ × ℕ

unfoldable pub track_all : UdpReceiver → List Heading → UdpReceiver
track_all r [] = r
track_all r ((seq, count) ∷ ps) = track_all (track seq count r) ps

-- The messages that arrived, and the sequence number behind the last of them.
abbrev pub arrived : List Heading → ℕ
arrived [] = 0
arrived ((seq, count) ∷ ps) = count + arrived ps

abbrev pub end_from : ℕ → List Heading → ℕ
end_from e [] = e
end_from e ((seq, count) ∷ ps) = end_from (seq + count) ps

-- Every datagram starts where the last one ended, or later.
abbrev pub InOrder : ℕ → List Heading → Type 0
InOrder e [] = Unit
InOrder e ((seq, count) ∷ ps) = (e ≤ seq) × InOrder (seq + count) ps

end_from_mono : (e : ℕ) (ps : List Heading) → InOrder e ps → e ≤ end_from e ps
end_from_mono e [] h = omega arith
end_from_mono e ((seq, count) ∷ ps) h = omega (arith, h.0, end_from_mono (seq + count) ps h.1)

-- One datagram that is expected or early.
record Tracks (r : UdpReceiver) (seq count : ℕ) (r' : UdpReceiver) : Type 0 where
  expected : r'.expected_seq ≡ seq + count
  lost : r'.messages_lost ≡ r.messages_lost + (seq - r.expected_seq)
  order : r'.out_of_order ≡ r.out_of_order

track_lem :
    (r : UdpReceiver) (seq count : ℕ)
    → 0 < r.expected_seq
    → r.expected_seq ≤ seq
    → seq + count < 2 ^ 64
    → r.messages_lost + (seq - r.expected_seq) < 2 ^ 64
    → Tracks r seq count (track seq count r)
unfolding track
track_lem r seq count started late fits room = record {
  expected = ground arith;
  lost = ground arith;
  order = ground arith;
}

-- When the datagrams that arrive after the first are in order, and the sequence numbers and the
-- count of lost messages keep within 2 ^ 64, the lost messages and those that arrived make up the
-- whole stretch of sequence numbers, and none is counted as out of order.
pub track_all_lem :
    (r : UdpReceiver) (ps : List Heading)
    → 0 < r.expected_seq
    → InOrder r.expected_seq ps
    → end_from r.expected_seq ps < 2 ^ 64
    → r.messages_lost + end_from r.expected_seq ps < 2 ^ 64 + r.expected_seq
    → ((track_all r ps).messages_lost + arrived ps + r.expected_seq
        ≡ r.messages_lost + end_from r.expected_seq ps)
      × ((track_all r ps).out_of_order ≡ r.out_of_order)
unfolding track_all
track_all_lem r [] started h last room = (omega arith, refl)
track_all_lem r ((seq, count) ∷ ps) started h last room =
    let mono = end_from_mono (seq + count) ps h.1 in
    let t = track_lem r seq count started h.0 (omega (arith, mono)) (omega (arith, mono)) in
    let ordered = subst (λ e. InOrder e ps) (sym t.expected) h.1 in
    let ends = ap (λ e. end_from e ps) t.expected in
    let rest =
      track_all_lem (track seq count r) ps (omega (arith, t.expected)) ordered (omega (arith, ends))
        (omega (arith, ends, t.lost, t.expected, mono)) in
    (omega (arith, rest.0, t.lost, t.expected, ends, h.0), rest.1 ∙ t.order)
