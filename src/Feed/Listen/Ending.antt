-- ===== src/Feed/Listen/Ending.antt =====
-- Once the socket thread has ended, the book thread empties the ring and ends.
use tickpipe.Base.{
  ℕ, suc, ◌+◌, ◌^◌, ◌≤◌, ◌<◌, ◌≡◌, refl, sym, ap, subst, ◌∙◌, false, Option, List, [], ◌∷◌, ◌++◌,
  arith, ◌==◌, if_both, Bytes, length, length-append,
}
use mathlib.Core.List.{append-nil}
use tickpipe.Symbols.{SymbolDirectory}
use tickpipe.Ring.{pop, SpscRing}
use tickpipe.Feed.Receiver.{UdpReceiver}
use tickpipe.Feed.Wire.{receive_all}
use tickpipe.Feed.Listen.{
  new_receiver, Phase, polling, checking, finished, Listener, start, handle, poll, check, Event,
  round, test, round_at, test_at, step, run,
}
use tickpipe.Feed.Listen.Valid.{size, incoming, Ends, IsValid}
use tickpipe.Feed.Listen.Rounds.{poll_empty, poll_first, check-IsValid, check_ends, check_goes_on}
use tickpipe.Feed.Listen.Schedule.{run-IsReached, start-IsValid}

-- What the book thread does not touch.
record Kept (s s' : Listener) : Type 0 where
  running : s'.running ≡ s.running
  arrived : s'.arrived ≡ s.arrived
  taken : s'.taken ≡ s.taken

same : (s : Listener) → Kept s s
same s = record { running = refl; arrived = refl; taken = refl }

Kept-trans : (s s' s'' : Listener) → Kept s s' → Kept s' s'' → Kept s s''
Kept-trans s s' s'' a b = record {
  running = b.running ∙ a.running;
  arrived = b.arrived ∙ a.arrived;
  taken = b.taken ∙ a.taken;
}

handle-Kept : (now : ℕ) (t : ℕ × Bytes × SpscRing) (s : Listener) → Kept s (handle now t s)
unfolding handle
handle-Kept now (n, buf, ring) s =
    if_both (Kept s) (n == 0) (record { running = refl; arrived = refl; taken = refl })
      (record { running = refl; arrived = refl; taken = refl })

poll-Kept : (now : ℕ) (s : Listener) → Kept s (poll now s)
unfolding poll
poll-Kept now s = handle-Kept now (pop s.ring s.buf 2048) s

check-Kept : (s : Listener) → Kept s (check s)
unfolding check
check-Kept s = record { running = refl; arrived = refl; taken = refl }

-- The rounds of the book thread at these readings of the clock, each with its test of the end.
abbrev pub rounds : List ℕ → List Event
rounds [] = []
rounds (now ∷ ts) = round now ∷ test ∷ rounds ts

-- How many more of them are needed.
pub pending : Phase → List (List ℕ) → ℕ
pending polling waiting = suc (length waiting)
pending checking waiting = suc (suc (length waiting))
pending finished waiting = 0

pub record Ended (r : UdpReceiver) (s s' : Listener) : Type 0 where
  pub phase : s'.phase ≡ finished
  pub arrived : s'.arrived ≡ s.arrived
  pub taken : s'.taken ≡ s.taken
  pub outcome : receive_all r s'.taken ≡ (s'.orders, s'.receiver)

all_handled :
    (k left : ℕ) (r : UdpReceiver) (s : Listener) (handled waiting : List (List ℕ)) (n : ℕ)
    → IsValid k left r s handled waiting n
    → s.phase ≡ finished
    → receive_all r s.taken ≡ (s.orders, s.receiver)
unfolding Ends
all_handled k left r s handled waiting n v e =
    let (down, none_left) = subst (Ends s.running waiting) e v.ends in
    let all : s.taken ≡ handled =
      v.taken ∙ ap (λ (ds : List (List ℕ)). handled ++ ds) none_left ∙ append-nil handled in
    ap (receive_all r) all ∙ v.outcome

module _ (k : ℕ) (r : UdpReceiver) where
  -- The state behind a round and its test, with fewer rounds to come.
  Progress : Listener → ℕ → Listener → Type 0
  Progress s m s' =
      Kept s s'
      × (handled : List (List ℕ)) × (waiting : List (List ℕ)) × (n : ℕ) × IsValid k 0 r s' handled
          waiting n
      × (pending s'.phase waiting ≤ m)

  ended :
      (s : Listener) (handled : List (List ℕ)) (n m : ℕ)
      → s.running ≡ false
      → IsValid k 0 r s handled [] n
      → Progress s m (check s)
  unfolding pending Progress
  ended s handled n m down v =
      let over = check_ends k 0 r s handled n v down in
      (
        check-Kept s,
        handled,
        [],
        n,
        check-IsValid k 0 r s handled [] n v,
        subst (λ (p : Phase). pending p [] ≤ m) (sym over) (omega arith),
      )

  tested :
      (s : Listener) (handled waiting : List (List ℕ)) (n m : ℕ)
      → s.running ≡ false
      → IsValid k 0 r s handled waiting n
      → suc (length waiting) ≤ m
      → Progress s m (check s)
  unfolding pending Progress
  tested s handled [] n m down v le = ended s handled n m down v
  tested s handled (d ∷ waiting) n m down v le =
      let more = check_goes_on k 0 r s d handled waiting n v in
      (
        check-Kept s,
        handled,
        d ∷ waiting,
        n,
        check-IsValid k 0 r s handled (d ∷ waiting) n v,
        subst (λ (p : Phase). pending p (d ∷ waiting) ≤ m) (sym more) le,
      )

  Progress-after : (s u s' : Listener) (m : ℕ) → Kept s u → Progress u m s' → Progress s m s'
  unfolding Progress
  Progress-after s u s' m kept (kept', handled, waiting, n, v, le) =
      (Kept-trans s u s' kept kept', handled, waiting, n, v, le)

  polled :
      (now : ℕ) (s : Listener) (handled waiting : List (List ℕ)) (n m : ℕ)
      → s.running ≡ false
      → IsValid k 0 r s handled waiting n
      → s.phase ≡ polling
      → length waiting ≤ m
      → Progress s m (test_at (poll now s) (poll now s).phase)
  unfolding test_at Progress pending
  polled now s handled [] n m down v e le =
      let u = poll now s in
      let kept = poll-Kept now s in
      let (v', e') = poll_empty k 0 r now s handled n v in
      subst (λ (p : Phase). Progress s m (test_at u p)) (sym e')
        (Progress-after s u (check u) m kept (ended u handled n m (kept.running ∙ down) v'))
  polled now s handled (d ∷ waiting) n m down v e le =
      let u = poll now s in
      let (v', e') = poll_first k 0 r now s d handled waiting n v e in
      subst (λ (p : Phase). Progress s m (test_at u p)) (sym e')
        (
          poll-Kept now s,
          handled ++ (d ∷ []),
          waiting,
          n,
          v',
          subst (λ (p : Phase). pending p waiting ≤ m) (sym e') (omega (arith, le)),
        )

  in_turn :
      (now : ℕ) (s : Listener) (p : Phase) (handled waiting : List (List ℕ)) (n m : ℕ)
      → s.running ≡ false
      → IsValid k 0 r s handled waiting n
      → s.phase ≡ p
      → pending p waiting ≤ suc m
      → let u = round_at now s p in Progress s m (test_at u u.phase)
  unfolding test_at round_at pending Progress
  in_turn now s polling handled waiting n m down v e le =
      polled now s handled waiting n m down v e (omega arith)
  in_turn now s checking handled waiting n m down v e le =
      subst (λ (p : Phase). Progress s m (test_at s p)) (sym e)
        (tested s handled waiting n m down v (omega arith))
  in_turn now s finished handled waiting n m down v e le =
      subst (λ (p : Phase). Progress s m (test_at s p)) (sym e)
        (
          same s,
          handled,
          waiting,
          n,
          v,
          subst (λ (p : Phase). pending p waiting ≤ m) (sym e) (omega arith),
        )

  over :
      (s : Listener) (p : Phase) (handled waiting : List (List ℕ)) (n : ℕ)
      → IsValid k 0 r s handled waiting n
      → s.phase ≡ p
      → pending p waiting ≤ 0
      → Ended r s s
  unfolding pending
  over s polling handled waiting n v e le = absurd (omega arith)
  over s checking handled waiting n v e le = absurd (omega arith)
  over s finished handled waiting n v e le = record {
    phase = e;
    arrived = refl;
    taken = refl;
    outcome = all_handled k 0 r s handled waiting n v e;
  }

  pub rounds_lem :
      (ts : List ℕ) (s : Listener) (handled waiting : List (List ℕ)) (n : ℕ)
      → s.running ≡ false
      → IsValid k 0 r s handled waiting n
      → pending s.phase waiting ≤ length ts
      → Ended r s (run s (rounds ts))
  unfolding run step Progress pending
  rounds_lem [] s handled waiting n down v le = over s s.phase handled waiting n v refl le
  rounds_lem (now ∷ ts) s handled waiting n down v le =
      let u = round_at now s s.phase in
      let s' = test_at u u.phase in
      let (kept, handled', waiting', n', v', le') =
        in_turn now s s.phase handled waiting n (length ts) down v refl le in
      let rest = rounds_lem ts s' handled' waiting' n' (kept.running ∙ down) v' le' in
      record {
        phase = rest.phase;
        arrived = rest.arrived ∙ kept.arrived;
        taken = rest.taken ∙ kept.taken;
        outcome = rest.outcome;
      }

pending_le : (p : Phase) (waiting : List (List ℕ)) → pending p waiting ≤ length waiting + 2
unfolding pending
pending_le polling waiting = omega arith
pending_le checking waiting = omega arith
pending_le finished waiting = omega arith

-- Fewer than 2 ^ 64 bytes come in, with 4 for every datagram, over any schedule of the two
-- threads from a new receiver, at the end of which the socket thread has ended. After two more
-- rounds of the book thread than `push` took datagrams, each round with its test of the end, the
-- book thread has left its loop, and no further datagram arrived or was taken. The orders given
-- to the callback and the state of the receiver are those that the taken datagrams give one after
-- the other.
pub listening_ends :
    (k now : ℕ) (cells buf : Bytes) (directory : Option SymbolDirectory) (es : List Event)
    (ts : List ℕ)
    → size (incoming es) < 2 ^ 64
    → let s = run (start cells buf k now directory) es in
      s.running ≡ false
      → length s.taken + 2 ≤ length ts
      → Ended (new_receiver directory) s (run s (rounds ts))
listening_ends k now cells buf directory es ts low down enough =
    let r = new_receiver directory in
    let s = run (start cells buf k now directory) es in
    let (handled, waiting, n, v) =
      run-IsReached k 0 r es (start cells buf k now directory) (
        [],
        [],
        0,
        start-IsValid k (size (incoming es) + 0) now cells buf directory (omega arith),
      ) in
    let total : length s.taken ≡ length handled + length waiting =
      ap (λ (ds : List (List ℕ)). length ds) v.taken ∙ length-append handled waiting in
    rounds_lem k r ts s handled waiting n down v (omega (arith, pending_le s.phase waiting, total))
