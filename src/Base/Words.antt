-- ===== src/Base/Words.antt =====
-- Machine words as native numbers.
use Prim.Native.Nat.{ℕ, ◌+◌, ◌-◌, ◌%◌, ◌^◌}

abbrev pub u16 : ℕ → ℕ
u16 n = n % 2 ^ 16

abbrev pub u32 : ℕ → ℕ
u32 n = n % 2 ^ 32

abbrev pub u64 : ℕ → ℕ
u64 n = n % 2 ^ 64

-- `++x` and `--x` on a uint64_t
abbrev pub inc64 : ℕ → ℕ
inc64 n = u64 (n + 1)

abbrev pub dec64 : ℕ → ℕ
dec64 n = u64 (n + 2 ^ 64 - 1)

-- `a - b` on uint32_t and uint64_t
abbrev pub sub32 : ℕ → ℕ → ℕ
sub32 a b = u32 (a + 2 ^ 32 - b)

abbrev pub sub64 : ℕ → ℕ → ℕ
sub64 a b = u64 (a + 2 ^ 64 - b)
