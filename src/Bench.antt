-- ===== src/Bench.antt =====
-- What bench/benchmark.cpp, bench/validate_microstructure.cpp and the comparison of the engines in
-- src/main.cpp feed to the parts: the generators of their inputs and the steps that they time. What
-- they measure and print is left out.
pub mod Orders
pub mod Engines
pub mod Messages
pub mod Quotes
mod Tests
use tickpipe.Base.{
  ℕ, zero, suc, ◌+◌, ◌*◌, ◌%◌, Bool, true, false, Option, none, some, ◌==◌, if◌then◌else◌, u32,
}
use tickpipe.Itch.Order.{Side, buy, sell, Order, empty_order}
use tickpipe.Engine.Book.{Engine, submit}
use tickpipe.Pipeline.Clock.{FpgaPipeline, clock}

-- `s * 1664525u + 1013904223u` in 32 bits; the result is the new seed.
unfoldable pub lcg : ℕ → ℕ
lcg s = u32 (s * 1_664_525 + 1_013_904_223)

-- `make_order`, whose lowest price is 2000000 in bench/benchmark.cpp and 1500000 in src/main.cpp,
-- with the new seed.
unfoldable pub make_order : ℕ → ℕ → ℕ → Order × ℕ
make_order base seed id =
    let seed' = lcg seed in
    (
      record empty_order {
        order_ref = id;
        price = base + seed' % 200 * 100;
        quantity = 100;
        side = if id % 2 == 1 then buy else sell;
        valid = 1;
      },
      seed',
    )

-- `count` steps of the pipeline, with the ids from `id` on, and the seed behind them.
unfoldable pub clock_orders : ℕ → ℕ → ℕ → ℕ → FpgaPipeline → ℕ × FpgaPipeline
clock_orders base zero id seed p = (seed, p)
clock_orders base (suc count) id seed p =
    let (o, seed') = make_order base seed id in clock_orders base count (id + 1) seed' (clock p o).1

-- The warm-up and the batches of bench/benchmark.cpp, where the ids start anew behind the warm-up,
-- and those of src/main.cpp, where they go on.
unfoldable pub bench_pipeline : FpgaPipeline → FpgaPipeline
bench_pipeline p =
    let (seed, p') = clock_orders 2_000_000 10_000 0 999 p in
    (clock_orders 2_000_000 1_000_000 0 seed p').1

unfoldable pub compare_pipeline : FpgaPipeline → FpgaPipeline
compare_pipeline p =
    let (seed, p') = clock_orders 1_500_000 10_000 0 999 p in
    (clock_orders 1_500_000 1_000_000 10_000 seed p').1

-- The same orders at the software engine; `none` for what `submit` leaves undefined.
unfoldable pub submit_orders : ℕ → ℕ → ℕ → ℕ → Engine → Option (ℕ × Engine)
submit_orders base zero id seed s = some (seed, s)
submit_orders base (suc count) id seed s =
    let (o, seed') = make_order base seed id in
    elim (submit s o) [ none ↦ none | some (m, s') ↦ submit_orders base count (id + 1) seed' s' ]

unfoldable pub bench_engine : Engine → Option Engine
bench_engine s = elim (submit_orders 2_000_000 10_000 0 999 s) [
  | none ↦ none
  | some (seed, s') ↦ elim (submit_orders 2_000_000 1_000_000 0 seed s') [
    | none ↦ none
    | some (seed', s'') ↦ some s''
  ]
]

unfoldable pub compare_engine : Engine → Option Engine
compare_engine s = elim (submit_orders 1_500_000 10_000 0 999 s) [
  | none ↦ none
  | some (seed, s') ↦ elim (submit_orders 1_500_000 1_000_000 10_000 seed s') [
    | none ↦ none
    | some (seed', s'') ↦ some s''
  ]
]
