-- ===== src/Book/Digest.antt =====
-- The FNV-1a digest that `BookState::fold` and `SoftwareEngine::book_digest` keep.
use tickpipe.Base.{ℕ, zero, suc, ◌+◌, ◌*◌, ◌/◌, ◌^◌, bit_and, bit_xor, u64}

abbrev pub fnv_offset : ℕ
fnv_offset = 0xcbf2_9ce4_8422_2325

abbrev pub fnv_prime : ℕ
fnv_prime = 0x100_0000_01b3

-- The loop of `fold`, `n` rounds before its end; `i` is the byte that is folded next.
unfoldable pub fold_loop : ℕ → ℕ → ℕ → ℕ → ℕ
fold_loop zero i v h = h
fold_loop (suc n) i v h =
    fold_loop n (i + 1) v (u64 (bit_xor h (bit_and (v / 2 ^ (i * 8)) 0xff) * fnv_prime))

unfoldable pub fold : ℕ → ℕ → ℕ
unfolding fold_loop
fold h v = fold_loop 8 0 v h
