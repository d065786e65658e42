-- ===== src/Feed/Listen/Within.antt =====
-- `receive_packet` reads a datagram and nothing behind it, so the bytes that an earlier one left in
-- the buffer do not count.
use mathlib.Core.List.{append-nil}
use tickpipe.Base.{
  ℕ, zero, suc, ◌+◌, ◌≤◌, ◌≡◌, refl, ap, ap₂, ◌∙◌, inl, inr, List, [], ◌∷◌, ◌++◌, ◌||◌, arith, ltb,
  ◌==◌, Bool-cases, if◌then◌else◌, Bytes, advance, bytes_of, length,
}
use tickpipe.Itch.Order.{Order}
use tickpipe.Itch.Parser.{be16, be64}
use tickpipe.Itch.Parser.Reads.{Agree, be16_ext, be64_ext}
use tickpipe.Feed.Receiver.{
  UdpReceiver, short as cut, handle_message, message_loop, track, receive_packet,
}
use tickpipe.Feed.Wire.{receive_all}
use tickpipe.Feed.Wire.Within.{handle_message_within}
use tickpipe.Feed.Wire.Sending.{prepend, prepend_twice}

module _ (n : ℕ) (d d' : Bytes) (same : Agree n d d') where
  word : (off : ℕ) → off + 2 ≤ n → be16 (advance d off) ≡ be16 (advance d' off)
  word off fits =
      be16_ext (advance d off) (advance d' off) (same (off + 0) (omega arith))
        (same (off + 1) (omega arith))

  message_loop_within :
      (count off : ℕ) (r : UdpReceiver)
      → message_loop d n count off r ≡ message_loop d' n count off r
  unfolding message_loop
  message_loop_within zero off r = refl
  message_loop_within (suc left) off r = elim (Bool-cases (ltb n (off + 2))) [
    | inl over ↦ rw over
    | inr fits ↦
        let e = word off (ground (arith, fits)) in
        let len = be16 (advance d' off) in
        let body = off + 2 in
        let whole : List Order × UdpReceiver → List Order × UdpReceiver = λ t.
          let rest = message_loop d' n left (body + len) t.1 in
          let all : List Order × UdpReceiver = (t.0 ++ rest.0, rest.1) in
          if ltb n (off + 2)
          then cut r
          else if len == 0 || ltb n (body + len)
          then cut r
          else all in
        let part : ℕ
            → Bytes
            → (ℕ → UdpReceiver → List Order × UdpReceiver)
            → List Order × UdpReceiver =
          λ l p go.
            let t = handle_message r (advance p body) l in
            let rest = go (body + l) t.1 in
            let all : List Order × UdpReceiver = (t.0 ++ rest.0, rest.1) in
            if ltb n (off + 2) then cut r else if l == 0 || ltb n (body + l) then cut r else all in
        ap (λ (l : ℕ). part l d (message_loop d n left)) e
        ∙ elim (Bool-cases (len == 0 || ltb n (body + len))) [
          | inl bad ↦ rw bad
          | inr good ↦
              let t = handle_message r (advance d body) len in
              ap
                (λ (rest : List Order × UdpReceiver).
                  let all : List Order × UdpReceiver = (t.0 ++ rest.0, rest.1) in
                  if ltb n (off + 2)
                  then cut r
                  else if len == 0 || ltb n (body + len)
                  then cut r
                  else all)
                (message_loop_within left (body + len) t.1)
              ∙ ap whole (
                  handle_message_within len (advance d body) (advance d' body)
                    (λ i lt. same (body + i) (ground (arith, good))) (ground (arith, good)) r)
        ]
  ]

  pub receive_packet_within : (r : UdpReceiver) → receive_packet r d n ≡ receive_packet r d' n
  unfolding receive_packet
  receive_packet_within r = elim (Bool-cases (ltb n 20)) [
    | inl under ↦ rw under
    | inr enough ↦
        let seq =
          be64_ext (advance d 10) (advance d' 10) (same 10 (ground (arith, enough)))
            (same 11 (ground (arith, enough))) (same 12 (ground (arith, enough)))
            (same 13 (ground (arith, enough))) (same 14 (ground (arith, enough)))
            (same 15 (ground (arith, enough))) (same 16 (ground (arith, enough)))
            (same 17 (ground (arith, enough))) in
        let count = word 18 (ground (arith, enough)) in
        ap₂ (λ (q : ℕ) (c : ℕ). if ltb n 20 then cut r else message_loop d n c 20 (track q c r)) seq
          count
        ∙ ap (λ (t : List Order × UdpReceiver). if ltb n 20 then cut r else t)
            (message_loop_within (be16 (advance d' 18)) 20
              (track (be64 (advance d' 10)) (be16 (advance d' 18)) r))
  ]

-- One more datagram behind others.
pub receive_all_snoc :
    (r : UdpReceiver) (ds : List (List ℕ)) (d : List ℕ)
    → receive_all r (ds ++ (d ∷ []))
      ≡ (let (os, r') = receive_all r ds in prepend os (receive_packet r' (bytes_of d) (length d)))
unfolding receive_all
receive_all_snoc r [] d =
    let (os, r') = receive_packet r (bytes_of d) (length d) in
    ap (λ (t : List Order). (t, r')) (append-nil os)
receive_all_snoc r (x ∷ ds) d =
    let (os, r') = receive_packet r (bytes_of x) (length x) in
    let (os', r'') = receive_all r' ds in
    ap (prepend os) (receive_all_snoc r' ds d)
    ∙ prepend_twice os os' (receive_packet r'' (bytes_of d) (length d))
