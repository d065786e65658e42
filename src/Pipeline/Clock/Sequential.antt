-- ===== src/Pipeline/Clock/Sequential.antt =====
-- The pipeline gives what one order after the other would give.
use tickpipe.Base.{ℕ, ◌≡◌, refl, sym, ap, ◌∙◌, List, [], ◌∷◌, ◌++◌}
use tickpipe.Itch.Order.{Order, empty_order}
use tickpipe.Engine.Book.{MatchResult, no_match}
use tickpipe.Pipeline.Slots.{Window}
use tickpipe.Pipeline.Books.{PriceLevel, Books, PipelineRegister, stage3_match, stage4_execute}
use tickpipe.Pipeline.Clock.{
  FpgaPipeline, new, stage1_decode, stage2_route, stage5_respond, clock, flush,
}

-- The results of a run, and the state that it leaves.
abbrev pub Outcome : Type 0
Outcome = List MatchResult × Window × Books

abbrev pub later : MatchResult → Outcome → Outcome
later m r = (m ∷ r.0, r.1, r.2)

-- What is left to do for an order behind each stage.
unfoldable pub after3 : Books → PipelineRegister → MatchResult × Books
after3 b reg = let (r4, b') = stage4_execute b reg in ((stage5_respond r4).result, b')

unfoldable pub after2 : Books → PipelineRegister → MatchResult × Books
after2 b reg = after3 b (stage3_match b reg)

-- An order that goes through all stages before the next one enters.
unfoldable pub one_by_one : Window → Books → List Order → Outcome
one_by_one w b [] = ([], w, b)
one_by_one w b (o ∷ os) =
    let (r2, w') = stage2_route w (stage1_decode o) in
    let (m, b') = after2 b r2 in later m (one_by_one w' b' os)

-- The orders in flight, oldest first, and then the orders that follow.
unfoldable pub in_flight : FpgaPipeline → List Order → Outcome
in_flight p os =
    let m4 = (stage5_respond (p.stages 4)).result in
    let (m3, b3) = after3 p.books (p.stages 3) in
    let (m2, b2) = after2 b3 (p.stages 2) in
    let (r2, w) = stage2_route p.window (p.stages 1) in
    let (m1, b1) = after2 b2 r2 in later m4 (later m3 (later m2 (later m1 (one_by_one w b1 os))))

-- A clock brings out the oldest result and leaves the rest as it was.
clock-in_flight :
    (p : FpgaPipeline) (o : Order) (os : List Order)
    → in_flight p (o ∷ os) ≡ later (clock p o).0 (in_flight (clock p o).1 os)
unfolding in_flight clock after2 after3 one_by_one
clock-in_flight p o os = refl

-- One clock for each order.
unfoldable pub run : FpgaPipeline → List Order → List MatchResult × FpgaPipeline
run p [] = ([], p)
run p (o ∷ os) = let (m, p') = clock p o in let (ms, p'') = run p' os in (m ∷ ms, p'')

-- The results that `flush` brings out and does not return: those of its first four clocks.
unfoldable pub flushed : FpgaPipeline → List MatchResult
flushed p = (run p (empty_order ∷ empty_order ∷ empty_order ∷ empty_order ∷ [])).0

flush-in_flight :
    (p : FpgaPipeline) → in_flight p [] ≡ (flushed p, (flush p).1.window, (flush p).1.books)
unfolding in_flight flushed flush run clock after2 after3 one_by_one stage1_decode stage2_route
    stage3_match stage4_execute
flush-in_flight p = refl

abbrev pub prepend : List MatchResult → Outcome → Outcome
prepend ms r = (ms ++ r.0, r.1, r.2)

run-in_flight :
    (p : FpgaPipeline) (os : List Order)
    → in_flight p os ≡ prepend (run p os).0 (in_flight (run p os).1 [])
unfolding run
run-in_flight p [] = refl
run-in_flight p (o ∷ os) =
    clock-in_flight p o os ∙ ap (later (clock p o).0) (run-in_flight (clock p o).1 os)

in_flight-new :
    (buys sells : ℕ → PriceLevel) (os : List Order)
    → let p = new buys sells in
      in_flight p os
      ≡ prepend (no_match ∷ no_match ∷ no_match ∷ no_match ∷ []) (one_by_one p.window p.books os)
unfolding in_flight new after2 after3 stage2_route stage3_match stage4_execute stage5_respond
in_flight-new buys sells os = refl

-- A new pipeline is clocked once for each order and then flushed. The results that come out in
-- all clocks but the last are four empty ones and then those that the same stages give when each
-- order passes all of them before the next one enters; the levels and the window end as they do
-- there.
pub run_sequential :
    (buys sells : ℕ → PriceLevel) (os : List Order)
    → let p = new buys sells in
      let (ms, q) = run p os in
      (ms ++ flushed q, (flush q).1.window, (flush q).1.books)
      ≡ prepend (no_match ∷ no_match ∷ no_match ∷ no_match ∷ []) (one_by_one p.window p.books os)
run_sequential buys sells os =
    let p = new buys sells in
    sym (ap (prepend (run p os).0) (flush-in_flight (run p os).1))
    ∙ sym (run-in_flight p os)
    ∙ in_flight-new buys sells os

-- `flush` returns an empty result, whatever is in flight.
pub flush-no_match : (p : FpgaPipeline) → (flush p).0 ≡ no_match
unfolding flush clock stage1_decode stage2_route stage3_match stage4_execute stage5_respond
flush-no_match p = refl
