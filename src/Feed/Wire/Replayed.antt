-- ===== src/Feed/Wire/Replayed.antt =====
-- A file of messages through `replay_file`.
use mathlib.Core.List.{append_assoc}
use tickpipe.Itch.Order.{Order}
use tickpipe.Feed.Wire.Within.{put_seq}
use tickpipe.Base.{
  ◌-◌, ◌/◌, ◌&&◌, leb, sub64, if_with, subst, sym, ℕ, zero, suc, ◌+◌, ◌^◌, ◌≤◌, ◌<◌, ◌≡◌, refl, ap,
  ap₂, ◌∙◌, Bool, true, false, Option, none, some, ltb, List, [], ◌∷◌, ◌++◌, ◌||◌, arith, ltb, ◌==◌,
  bytes_of, length, length-append, take, drop, All,
}
use tickpipe.Itch.Parser.{be16}
use tickpipe.Itch.Parser.Words.{be16_sum}
use tickpipe.Itch.Parser.Wire.{bytes_of-IsByte}
use tickpipe.Feed.Server.{UdpServer, new, be16_bytes, flush, send_message}
use tickpipe.Feed.Server.File.{
  Conditions, max_msg_size, sleep_ns, timestamp, first_of, pause, replay_message, finish, before,
  replay_loop, replay_file,
}
use tickpipe.Feed.Receiver.{UdpReceiver}
use tickpipe.Feed.Wire.{send_all, receive_all, handle_all}
use tickpipe.Feed.Wire.Packet.{IsPending, Joins}
use tickpipe.Feed.Wire.Stream.{Continues, Same, send_end, send_message-Continues, flush-Continues}
use tickpipe.Feed.Wire.Frames.{frames, IsShort}

-- A message as a file has it: from 1 to 1024 bytes.
unfoldable pub IsRecorded : List ℕ → Type 0
IsRecorded m = (0 < length m) × (length m ≤ max_msg_size)

-- Every datagram is sent, and a pace is a speed of 1 or more.
pub record IsSending (c : Conditions) : Type 0 where
  pub speed : c.paced ≡ true → 0 < c.speed
  pub pauses_sent : (i : ℕ) → c.pause_sent i ≡ true
  pub messages_sent : (i : ℕ) → c.message_sent i ≡ true
  pub end_sent : c.last_sent ≡ true

take-append : (xs ys : List ℕ) → take (length xs) (xs ++ ys) ≡ xs
take-append [] ys = refl
take-append (x ∷ xs) ys = ap (λ (t : List ℕ). x ∷ t) (take-append xs ys)

drop-append : (xs ys : List ℕ) → drop (length xs) (xs ++ ys) ≡ ys
drop-append [] ys = refl
drop-append (x ∷ xs) ys = drop-append xs ys

test_false {ℓ} : {A : Type ℓ} {c : Bool} (x y : A) → c ≡ false → elim c [ true ↦ x | false ↦ y ] ≡ y
test_false x y h = rw h

sleep_ns-some :
    (c : Conditions) (file_elapsed wall_elapsed : ℕ)
    → 0 < c.speed
    → (ns : ℕ) × (sleep_ns c file_elapsed wall_elapsed ≡ some ns)
unfolding sleep_ns
sleep_ns-some c file_elapsed wall_elapsed pos =
    let P : Option ℕ → Type 0 = λ o. (ns : ℕ) × (o ≡ some ns) in
    if_with P (ltb wall_elapsed file_elapsed)
      (λ _.
        if_with P (c.speed == 0) (λ stopped. absurd (ground (arith, stopped, pos)))
          (λ _. ((file_elapsed - wall_elapsed) / c.speed, refl)))
      (λ _. (0, refl))

-- A pause comes to an end.
pub pause-some :
    (c : Conditions) (i : ℕ) (first : Option ℕ) (m : List ℕ)
    → (c.paced ≡ true → 0 < c.speed)
    → (p : Bool × Option ℕ) × (pause c i first m ≡ some p)
unfolding pause
pause-some c i first m speed =
    let ts = timestamp m in
    let first_ts = first_of first ts in
    let P : Option (Bool × Option ℕ) → Type 0 = λ o. (p : Bool × Option ℕ) × (o ≡ some p) in
    if_with P (c.paced && leb 11 (length m))
      (λ paced.
        let (ns, e) =
          sleep_ns-some c (sub64 ts first_ts) (c.wall_elapsed i) (speed (ground (arith, paced))) in
        (
          (ltb 200_000 ns && ltb 2_000_000 ns, some first_ts),
          ap
              (λ (o : Option ℕ). elim o [
                | none ↦ none
                | some ns ↦ some (ltb 200_000 ns && ltb 2_000_000 ns, some first_ts)
              ])
              e,
        ))
      (λ _. ((false, first), refl))

-- The datagrams of the rounds, with what the pauses do.
sends : Conditions → ℕ → Option ℕ → UdpServer → List (List ℕ) → List (List ℕ)
sends c i first s [] = (flush true s).1
sends c i first s (m ∷ ms) = elim (pause c i first m) [
  | none ↦ []
  | some (flushing, first') ↦
      let (out, s') = replay_message c i flushing m s in out ++ sends c (i + 1) first' s' ms
]

replay_message-Continues :
    (c : Conditions) (i left : ℕ) (flushing : Bool) (rest : UdpServer → List (List ℕ)) (m : List ℕ)
    (ms : List (List ℕ))
    → IsSending c
    → IsShort m
    → Continues left rest ms
    → Continues
        (suc left)
        (λ s. let (out, s') = replay_message c i flushing m s in out ++ rest s')
        (m ∷ ms)
unfolding replay_message
replay_message-Continues c i left true rest m ms u short go_on s pend r pending joins numbered =
    let later : UdpServer → List (List ℕ) =
      λ s'. let f = send_message true m s' in f.1 ++ rest f.2 in
    let f = flush true s in
    let sent =
      flush-Continues later (m ∷ ms) (suc left) (send_message-Continues rest ms left go_on m short)
        s pend r pending joins numbered in
    subst
      (λ (b : Bool).
        let f = flush b s in
        let g = send_message (c.message_sent i) m f.2 in
        Same (receive_all r ((f.1 ++ g.1) ++ rest g.2)) (handle_all r (pend ++ (m ∷ ms))))
      (sym (u.pauses_sent i))
      (subst
        (λ (b : Bool).
          let g = send_message b m f.2 in
          Same (receive_all r ((f.1 ++ g.1) ++ rest g.2)) (handle_all r (pend ++ (m ∷ ms))))
        (sym (u.messages_sent i))
        (let g = send_message true m f.2 in
          ap (λ (ds : List (List ℕ)). put_seq 0 (receive_all r ds))
            (append_assoc f.1 g.1 (rest g.2))
          ∙ sent))
replay_message-Continues c i left false rest m ms u short go_on s pend r pending joins numbered =
    subst
      (λ (b : Bool).
        let g = send_message b m s in
        Same (receive_all r (g.1 ++ rest g.2)) (handle_all r (pend ++ (m ∷ ms))))
      (sym (u.messages_sent i))
      (send_message-Continues rest ms left go_on m short s pend r pending joins numbered)

sends-Continues :
    (c : Conditions) (ms : List (List ℕ)) (i : ℕ) (first : Option ℕ)
    → IsSending c
    → All IsShort ms
    → Continues (length ms) (λ s. sends c i first s ms) ms
unfolding sends send_all
sends-Continues c [] i first u shorts =
    λ s pend r pending joins numbered. send_end s pend r pending joins
sends-Continues c (m ∷ ms) i first u (short, shorts) =
    let ((flushing, first'), e) = pause-some c i first m u.speed in
    subst
      (λ (p : Option (Bool × Option ℕ)).
        Continues (suc (length ms))
          (λ s. elim p [
            | none ↦ []
            | some (flushing, first') ↦
                let (out, s') = replay_message c i flushing m s in
                out ++ sends c (i + 1) first' s' ms
          ])
          (m ∷ ms))
      (sym e)
      (replay_message-Continues c i (length ms) flushing (λ s'. sends c (i + 1) first' s' ms) m ms u
        short (sends-Continues c ms (i + 1) first' u shorts))

Ends : Conditions → ℕ → List ℕ → ℕ → Option ℕ → UdpServer → List (List ℕ) → Type 0
Ends c fuel file i first s out =
    (s' : UdpServer) × (replay_loop c fuel file i first s ≡ some (out, s'))

finish-Ends :
    (c : Conditions) (s : UdpServer)
    → c.last_sent ≡ true
    → finish c s ≡ some ((flush true s).1, (flush true s).2)
finish-Ends c s e = ap (λ (b : Bool). some ((flush b s).1, (flush b s).2)) e

replay_loop-Ends :
    (c : Conditions) (ms : List (List ℕ)) (fuel i : ℕ) (first : Option ℕ) (s : UdpServer)
    → IsSending c
    → All IsRecorded ms
    → length (frames ms) < fuel
    → Ends c fuel (frames ms) i first s (sends c i first s ms)
unfolding replay_loop frames sends Ends IsRecorded
replay_loop-Ends c [] zero i first s u rec fits = absurd (omega arith)
replay_loop-Ends c [] (suc fuel) i first s u rec fits =
    ((flush true s).2, finish-Ends c s u.end_sent)
replay_loop-Ends c (m ∷ ms) zero i first s u rec fits = absurd (omega arith)
replay_loop-Ends c (m ∷ ms) (suc fuel) i first s u (short, rec) fits =
    let L = length m in
    let file = m ++ frames ms in
    let size : be16 (bytes_of (be16_bytes L)) ≡ L = omega (
      arith,
      be16_sum (bytes_of (be16_bytes L))
          (bytes_of-IsByte (be16_bytes L) (omega arith, (omega arith, tt))),
      short,
    ) in
    let ((flushing, first'), e) = pause-some c i first m u.speed in
    let (out, s1) = replay_message c i flushing m s in
    let (s2, rest) =
      replay_loop-Ends c ms fuel (i + 1) first' s1 u rec
        (omega (arith, fits, length-append m (frames ms))) in
    let round : List ℕ → List ℕ → Option (Bool × Option ℕ) → Option (List (List ℕ) × UdpServer) =
      λ msg tail p. elim p [
        | none ↦ none
        | some (flushing, first') ↦
            before (replay_message c i flushing msg s).0
              (replay_loop c fuel tail (i + 1) first' (replay_message c i flushing msg s).1)
      ] in
    (
      s2,
      ap
            (λ (l : ℕ). elim (l == 0 || ltb max_msg_size l || ltb (length file) l) [
              | true ↦ finish c s
              | false ↦ round (take l file) (drop l file) (pause c i first (take l file))
            ])
            size
          ∙ test_false {c = L == 0 || ltb max_msg_size L || ltb (length file) L} (finish c s) _
              (ground (arith, short, length-append m (frames ms)))
          ∙ ap₂ (λ (msg : List ℕ) (tail : List ℕ). round msg tail (pause c i first msg))
              (take-append m (frames ms)) (drop-append m (frames ms))
          ∙ ap (round m (frames ms)) e
          ∙ ap (before out) rest
          ∙ ap
              (λ (p : Option (Bool × Option ℕ)). some (
                elim p [
                  | none ↦ []
                  | some (flushing, first') ↦
                      let (out, s') = replay_message c i flushing m s in
                      out ++ sends c (i + 1) first' s' ms
                ],
                s2,
              ))
              (sym e),
    )

All-IsShort : (ms : List (List ℕ)) → All IsRecorded ms → All IsShort ms
unfolding IsRecorded IsShort
All-IsShort [] rec = tt
All-IsShort (m ∷ ms) ((pos, le), rec) = ((pos, omega arith), All-IsShort ms rec)

-- A file of messages of 1 to 1024 bytes, fewer than 2 ^ 64 - 1 of them, is replayed by a new
-- server without a pace or at a speed of 1 or more, with every datagram sent and whatever the
-- clock reads. The replay ends, and at a receiver that expects the number 1 or has joined no
-- stream its datagrams give the orders that the messages give one by one, and the same counters,
-- parser and directory; only the number that it expects next is left open.
pub replay_file-receive_all :
    (c : Conditions) (r : UdpReceiver) (ms : List (List ℕ))
    → IsSending c
    → All IsRecorded ms
    → Joins r 1
    → length ms + 1 < 2 ^ 64
    → (ds : List (List ℕ)) × (s : UdpServer) × (replay_file c (some (frames ms)) new ≡ some (ds, s))
      × ((receive_all r ds).0 ≡ (handle_all r ms).0)
      × (record ((receive_all r ds).1) { expected_seq = 0 }
          ≡ record ((handle_all r ms).1) { expected_seq = 0 })
unfolding replay_file Ends new IsPending frames
replay_file-receive_all c r ms u rec joins few =
    let (s, e) = replay_loop-Ends c ms (suc (length (frames ms))) 0 none new u rec (omega arith) in
    let same =
      sends-Continues c ms 0 none u (All-IsShort ms rec) new [] r (refl, refl, omega arith, tt)
        joins (omega arith, omega arith) in
    (
      sends c 0 none new ms,
      s,
      e,
      ap (λ (t : List Order × UdpReceiver). t.0) same,
      ap (λ (t : List Order × UdpReceiver). t.1) same,
    )
