-- ===== src/Bench/Tests.antt =====
-- Five rounds of the harness.
use tickpipe.Base.{arith}
use tickpipe.Bench.Quotes.{start, rounds, IsSound, rounds_lem}

rounds_lem_example : IsSound 5 (rounds 5 start)
rounds_lem_example = rounds_lem 5 (omega arith)
