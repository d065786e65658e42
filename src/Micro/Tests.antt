-- ===== src/Micro/Tests.antt =====
-- A square root, and an update with a book of two prices.
use tickpipe.Base.{◌*◌, ◌+◌, ◌≤◌, ◌<◌, arith}
use tickpipe.Micro.{isqrt128}
use tickpipe.Micro.Root.{isqrt128_lem}

isqrt128_lem_example :
    (isqrt128 1_000_001 * isqrt128 1_000_001 ≤ 1_000_001)
    × (1_000_001 < (isqrt128 1_000_001 + 1) * (isqrt128 1_000_001 + 1))
isqrt128_lem_example = isqrt128_lem 1_000_001 (ground arith)
