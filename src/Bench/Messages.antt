-- ===== src/Bench/Messages.antt =====
-- The pool of ITCH messages of `bench_itch_parser`, and the parser that is timed on it.
use tickpipe.Base.{
  ℕ, zero, suc, ◌+◌, ◌/◌, ◌%◌, ◌^◌, ◌≤◌, ◌<◌, ◌≡◌, refl, sym, ap, subst, ◌∙◌, some, [], ◌∷◌, arith,
  ◌-◌, bit_and, bit_and_mask, ltb, ◌==◌, if◌then◌else◌, if_both, Bytes, bytes_of, update,
  update_self, update_ne, memcpy, Bool-cases, inl, inr,
}
use tickpipe.Itch.Order.{Order, empty_order}
use tickpipe.Itch.Parser.{Counts, no_counts, expected_length, is_book_message, parse}
use tickpipe.Itch.Parser.Outcome.{Accepts, total, parse-true_iff, parse_counts}
use tickpipe.Bench.{lcg}

-- The loop of `put64`, `n` bytes before its end: the low byte of `v` goes last.
unfoldable pub put64_loop : ℕ → Bytes → ℕ → ℕ → Bytes
put64_loop zero m off v = m
put64_loop (suc k) m off v = put64_loop k (update m (off + k) (bit_and v 255)) off (v / 2 ^ 8)

unfoldable pub put64 : Bytes → ℕ → ℕ → Bytes
put64 m off v = put64_loop 8 m off v

unfoldable pub put32 : Bytes → ℕ → ℕ → Bytes
put32 m off v =
    let m0 = update m off (v / 2 ^ 24 % 256) in
    let m1 = update m0 (off + 1) (v / 2 ^ 16 % 256) in
    let m2 = update m1 (off + 2) (v / 2 ^ 8 % 256) in update m2 (off + 3) (v % 256)

abbrev pub pool_size : ℕ
pool_size = 4096

-- Six bytes of a timestamp, `n` of them to come, with the new seed.
unfoldable pub stamp : ℕ → ℕ → Bytes → ℕ → Bytes × ℕ
stamp zero k m seed = (m, seed)
stamp (suc n) k m seed = stamp n (k + 1) (update m (5 + k) (lcg seed % 256)) (lcg seed)

abbrev pub ticker : Bytes
ticker = bytes_of (b'A' ∷ b'A' ∷ b'P' ∷ b'L' ∷ b' ' ∷ b' ' ∷ b' ' ∷ b' ' ∷ [])

-- A message with its length, and the new seed.
abbrev pub Made : Type 0
Made = Bytes × ℕ × ℕ

unfoldable pub make_add : Bytes → ℕ → ℕ → ℕ → Made
make_add m ref r seed =
    let s1 = lcg seed in
    let s2 = lcg s1 in
    let m1 = put64 (update m 0 b'A') 11 ref in
    let m2 = update m1 19 (if r % 2 == 1 then b'B' else b'S') in
    let m3 = put32 m2 20 (100 + s1 % 900) in
    let m4 = memcpy m3 24 ticker 8 in (put32 m4 32 (2_000_000 + s2 % 200_000), 36, s2)

unfoldable pub make_executed : Bytes → ℕ → ℕ → ℕ → Made
make_executed m ref i seed =
    let m1 = put64 (update m 0 b'E') 11 ref in (put64 (put32 m1 19 100) 23 i, 31, seed)

unfoldable pub make_replace : Bytes → ℕ → ℕ → Made
make_replace m ref seed =
    let m1 = put64 (update m 0 b'U') 11 ref in
    let m2 = put64 m1 19 (ref + pool_size) in (put32 (put32 m2 27 200) 31 2_050_000, 35, seed)

-- Message `i` of the pool.
unfoldable pub make_message : ℕ → ℕ → Made
make_message i seed =
    let s = lcg seed in
    let r = s % 100 in
    let ref = 1000 + i in
    let (m, seed') = stamp 6 0 (update (update (λ _. 0) 1 0) 2 1) s in
    if ltb r 45
    then make_add m ref r seed'
    else if ltb r 65
    then (put64 (update m 0 b'D') 11 ref, 19, seed')
    else if ltb r 80
    then make_executed m ref i seed'
    else if ltb r 90
    then make_replace m ref seed'
    else (put32 (put64 (update m 0 b'X') 11 ref) 19 50, 23, seed')

-- The pool from entry `i` on, `n` entries to come.
unfoldable pub fill_pool : ℕ → ℕ → ℕ → (ℕ → Bytes × ℕ) → ℕ → Bytes × ℕ
fill_pool zero i seed pool = pool
fill_pool (suc n) i seed pool =
    let (m, len, seed') = make_message i seed in fill_pool n (i + 1) seed' (update pool i (m, len))

unfoldable pub pool : (ℕ → Bytes × ℕ) → ℕ → Bytes × ℕ
pool memory = fill_pool pool_size 0 12_345 memory

-- `step(i)`, `n` times from `i` on.
unfoldable pub parse_pool : (ℕ → Bytes × ℕ) → ℕ → ℕ → Counts → Order → Order × Counts
parse_pool msgs zero i c order = (order, c)
parse_pool msgs (suc n) i c order =
    let (m, len) = msgs (bit_and i (pool_size - 1)) in
    let (ok, order', c') = parse c (some m) len order in parse_pool msgs n (i + 1) c' order'

-- The warm-up, the counters set back, and the batches.
unfoldable pub bench_itch_parser : (ℕ → Bytes × ℕ) → Counts
bench_itch_parser memory =
    let msgs = pool memory in
    let warm = parse_pool msgs 100_000 0 no_counts empty_order in
    (parse_pool msgs 2_000_000 0 no_counts warm.0).1

-- A message that `parse` accepts.
IsAccepted : Bytes × ℕ → Type 0
IsAccepted (m, len) = Accepts (some m) len

MadeWell : Made → Type 0
MadeWell (m, len, seed) = Accepts (some m) len

make_message-MadeWell : (i seed : ℕ) → MadeWell (make_message i seed)
unfolding make_message make_add make_executed make_replace put64 put64_loop put32 MadeWell
    is_book_message expected_length
make_message-MadeWell i seed =
    let s = lcg seed in
    let r = s % 100 in
    if_both MadeWell (ltb r 45) (refl, refl)
      (if_both MadeWell (ltb r 65) (refl, refl)
        (if_both MadeWell (ltb r 80) (refl, refl)
          (if_both MadeWell (ltb r 90) (refl, refl) (refl, refl))))

fill_pool_before :
    (n i seed k : ℕ) (msgs : ℕ → Bytes × ℕ) → k < i → fill_pool n i seed msgs k ≡ msgs k
unfolding fill_pool
fill_pool_before zero i seed k msgs lt = refl
fill_pool_before (suc n) i seed k msgs lt =
    let (m, len, seed') = make_message i seed in
    fill_pool_before n (i + 1) seed' k (update msgs i (m, len)) (omega arith)
    ∙ update_ne msgs {i = i} {j = k} (m, len) (ground arith)

fill_pool-IsAccepted :
    (n i seed k : ℕ) (msgs : ℕ → Bytes × ℕ)
    → i ≤ k
    → k < i + n
    → IsAccepted (fill_pool n i seed msgs k)
unfolding fill_pool IsAccepted MadeWell
fill_pool-IsAccepted zero i seed k msgs le lt = absurd (omega arith)
fill_pool-IsAccepted (suc n) i seed k msgs le lt =
    let (m, len, seed') = make_message i seed in
    let next = update msgs i (m, len) in
    elim (Bool-cases (k == i)) [
      | inl e ↦
          let here : k ≡ i = ground (arith, e) in
          subst IsAccepted
            (sym (ap next here ∙ update_self msgs i (m, len))
              ∙ sym (fill_pool_before n (i + 1) seed' k next (omega (arith, here))))
            (make_message-MadeWell i seed)
      | inr ne ↦ fill_pool-IsAccepted n (i + 1) seed' k next (ground (arith, ne)) (omega arith)
    ]

pool-IsAccepted :
    (memory : ℕ → Bytes × ℕ) (i : ℕ) → IsAccepted (pool memory (bit_and i (pool_size - 1)))
unfolding pool
pool-IsAccepted memory i =
    fill_pool-IsAccepted pool_size 0 12_345 (bit_and i (pool_size - 1)) memory (omega arith)
      (omega (arith, bit_and_mask 12 i))

-- A parser that has been handed nothing but messages that it accepts.
parse_pool_counts :
    (memory : ℕ → Bytes × ℕ) (n i : ℕ) (c : Counts) (order : Order)
    → total c + n < 2 ^ 64
    → let c' = (parse_pool (pool memory) n i c order).1 in
      (total c' ≡ total c + n) × (c'.parsed ≡ c.parsed + n)
unfolding parse_pool IsAccepted
parse_pool_counts memory zero i c order room = (omega arith, omega arith)
parse_pool_counts memory (suc n) i c order room =
    let (m, len) = pool memory (bit_and i (pool_size - 1)) in
    let (ok, order', c') = parse c (some m) len order in
    let (all, taken, refused) = parse_counts c (some m) len order (omega arith) in
    let accepted = (parse-true_iff c (some m) len order).1 (pool-IsAccepted memory i) in
    let (one, valid) = taken accepted in
    let rest = parse_pool_counts memory n (i + 1) c' order' (omega (arith, all)) in
    (omega (arith, rest.0, all), omega (arith, rest.1, one))

-- The parser accepts every message of the pool.
pub bench_itch_parser_lem :
    (memory : ℕ → Bytes × ℕ)
    → let c = bench_itch_parser memory in
      (c.parsed ≡ 2_000_000) × (c.ignored ≡ 0) × (c.malformed ≡ 0) × (c.unknown ≡ 0)
unfolding bench_itch_parser
bench_itch_parser_lem memory =
    let warm = parse_pool (pool memory) 100_000 0 no_counts empty_order in
    let (all, parsed) = parse_pool_counts memory 2_000_000 0 no_counts warm.0 (omega arith) in
    (
      omega (arith, parsed),
      omega (arith, all, parsed),
      omega (arith, all, parsed),
      omega (arith, all, parsed),
    )
