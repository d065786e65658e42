-- ===== src/Bench/Engines.antt =====
-- The comparison at the software engine comes to an end, with a book that is in order.
use tickpipe.Base.{
  ℕ, zero, suc, ◌+◌, ◌<◌, ◌≡◌, refl, ap, ◌∙◌, inl, inr, Option, none, some, Bool-cases, arith,
}
use tickpipe.Itch.Order.{Order, is_buy}
use tickpipe.Engine.Book.{MatchResult, Engine, cleared, submit}
use tickpipe.Engine.Book.Valid.{IsValid, cleared-IsValid}
use tickpipe.Engine.Book.Matching.{Uncrossed, submit-buy_lem, submit-sell_lem}
use tickpipe.Bench.{make_order, submit_orders, bench_engine, compare_engine}

-- An engine in order, and a run that ends with one.
pub record InOrder (s : Engine) : Type 0 where
  pub valid : IsValid s
  pub uncrossed : Uncrossed s

module _ (s : Engine) (o : Order) where
  -- What `submit` leaves, for a buy order and for any other.
  record Submits : Type 0 where
    result : MatchResult
    engine : Engine
    returned : submit s o ≡ some (result, engine)
    order : InOrder engine

  submit-Submits : InOrder s → 0 < o.quantity → Submits
  submit-Submits i h = elim (Bool-cases (is_buy o.side)) [
    | inl b ↦
        let r = submit-buy_lem s o i.valid i.uncrossed h b in
        record {
          result = r.result;
          engine = r.engine;
          returned = r.returned;
          order = record { valid = r.valid; uncrossed = r.uncrossed };
        }
    | inr b ↦
        let r = submit-sell_lem s o i.valid i.uncrossed h b in
        record {
          result = r.result;
          engine = r.engine;
          returned = r.returned;
          order = record { valid = r.valid; uncrossed = r.uncrossed };
        }
  ]

Runs : Option (ℕ × Engine) → Type 0
Runs out = (seed : ℕ) × (s : Engine) × (out ≡ some (seed, s)) × InOrder s

submit_orders-Runs :
    (base count id seed : ℕ) (s : Engine) → InOrder s → Runs (submit_orders base count id seed s)
unfolding submit_orders Runs make_order
submit_orders-Runs base zero id seed s i = (seed, s, refl, i)
submit_orders-Runs base (suc count) id seed s i =
    let (o, seed') = make_order base seed id in
    let t = submit-Submits s o i (omega arith) in
    let (last, s', e, i') = submit_orders-Runs base count (id + 1) seed' t.engine t.order in
    (
      last,
      s',
      ap
            (λ (r : Option (MatchResult × Engine)). elim r [
              | none ↦ none
              | some (m, u) ↦ submit_orders base count (id + 1) seed' u
            ])
            t.returned
          ∙ e,
      i',
    )

then_some :
    (f : ℕ → Engine → Option (ℕ × Engine)) (o : Option (ℕ × Engine))
    → Runs o
    → ((seed : ℕ) (s : Engine) → InOrder s → Runs (f seed s))
    → (s : Engine) × (elim o [
      | none ↦ none
      | some (seed, s') ↦ elim (f seed s') [ none ↦ none | some (seed', s'') ↦ some s'' ]
    ]
        ≡ some s)
      × InOrder s
unfolding Runs
then_some f o (seed, s, e, i) next =
    let (seed', s', e', i') = next seed s i in
    (
      s',
      ap
            (λ (r : Option (ℕ × Engine)). elim r [
              | none ↦ none
              | some (x, u) ↦ elim (f x u) [ none ↦ none | some (y, v) ↦ some v ]
            ])
            e
          ∙ ap (λ (r : Option (ℕ × Engine)). elim r [ none ↦ none | some (y, v) ↦ some v ]) e',
      i',
    )

cleared-InOrder : InOrder cleared
cleared-InOrder = record { valid = cleared-IsValid; uncrossed = tt }

-- From an empty engine every `submit` of the 1010000 orders of bench/benchmark.cpp, and of those
-- of src/main.cpp, is defined; the engine at the end is valid and uncrossed.
pub engines_end :
    ((s : Engine) × (bench_engine cleared ≡ some s) × InOrder s)
    × ((s : Engine) × (compare_engine cleared ≡ some s) × InOrder s)
unfolding bench_engine compare_engine
engines_end = (
  then_some (λ seed s. submit_orders 2_000_000 1_000_000 0 seed s) _
      (submit_orders-Runs 2_000_000 10_000 0 999 cleared cleared-InOrder)
      (λ seed s i. submit_orders-Runs 2_000_000 1_000_000 0 seed s i),
  then_some (λ seed s. submit_orders 1_500_000 1_000_000 10_000 seed s) _
      (submit_orders-Runs 1_500_000 10_000 0 999 cleared cleared-InOrder)
      (λ seed s i. submit_orders-Runs 1_500_000 1_000_000 10_000 seed s i),
)
