-- ===== src/Itch/Parser/Words.antt =====
-- What the big-endian reads of `ItchParser` return, as sums over the bytes.
use tickpipe.Base.{
  ℕ, zero, suc, ◌+◌, ◌*◌, ◌^◌, ◌≤◌, ◌<◌, ◌≡◌, refl, ap, arith, Bytes, IsByte, bit_or-add, u64, u32,
  bit_or,
}
use native.Mathlib.Nat.{pow-suc, one-le-pow}
use tickpipe.Itch.Parser.{be16, be32, be_loop, be48, be64}

-- The bytes from `i` on, read in base 256 behind `v`.
abbrev pub horner : ℕ → ℕ → Bytes → ℕ → ℕ
horner zero i p v = v
horner (suc n) i p v = horner n (i + 1) p (v * 256 + p i)

fits : (k q r x : ℕ) → x ≡ q * 2 ^ k → r < 2 ^ k → bit_or x r ≡ x + r
fits k q r x e h = rw e (bit_or-add k q r h)

-- One round of the loop, on a value that has room for eight more bits.
push_byte : (v b : ℕ) → v < 2 ^ 56 → b < 256 → bit_or (u64 (v * 2 ^ 8)) b ≡ v * 256 + b
push_byte v b h hb = omega (arith, fits 8 v b (u64 (v * 2 ^ 8)) (omega arith) hb)

room : (n v : ℕ) → (v + 1) * 256 ^ suc n ≤ 2 ^ 64 → v < 2 ^ 56
room n v h = grind (arith, one-le-pow n 256, pow-suc 256 n)

scale : (x m y : ℕ) → x ≤ m → x * y ≤ m * y
scale x m y h = grind arith

room_after :
    (n v b : ℕ) → (v + 1) * 256 ^ suc n ≤ 2 ^ 64 → b < 256 → (v * 256 + b + 1) * 256 ^ n ≤ 2 ^ 64
room_after n v b h hb = omega (
  arith,
  scale (v * 256 + b + 1) ((v + 1) * 256) (256 ^ n) (omega arith),
  ap (λ (t : ℕ). (v + 1) * t) (pow-suc 256 n),
)

module _ (p : Bytes) (bytes : (i : ℕ) → IsByte (p i)) where
  pub be16_sum : be16 p ≡ p 0 * 256 + p 1
  unfolding be16
  be16_sum = rw (bit_or-add 8 (p 0) (p 1) (bytes 1)) (omega (arith, bytes 0, bytes 1))

  pub be32_sum : be32 p ≡ p 0 * 2 ^ 24 + p 1 * 2 ^ 16 + p 2 * 2 ^ 8 + p 3
  unfolding be32
  be32_sum =
      let w0 : u32 (p 0 * 2 ^ 24) ≡ p 0 * 2 ^ 24 = omega (arith, bytes 0) in
      let w1 : u32 (p 1 * 2 ^ 16) ≡ p 1 * 2 ^ 16 = omega (arith, bytes 1) in
      let w2 : u32 (p 2 * 2 ^ 8) ≡ p 2 * 2 ^ 8 = omega (arith, bytes 2) in
      let f3 = fits 24 (p 0) (p 1 * 2 ^ 16) (p 0 * 2 ^ 24) refl (omega (arith, bytes 1)) in
      let f2 =
        fits 16 (p 0 * 256 + p 1) (p 2 * 2 ^ 8) (p 0 * 2 ^ 24 + p 1 * 2 ^ 16) (omega arith)
          (omega (arith, bytes 2)) in
      let f1 =
        fits 8 (p 0 * 65536 + p 1 * 256 + p 2) (p 3) (p 0 * 2 ^ 24 + p 1 * 2 ^ 16 + p 2 * 2 ^ 8)
          (omega arith) (bytes 3) in
      rw (w0, w1, w2, f3, f2, f1)

  be_loop_sum : (n i v : ℕ) → (v + 1) * 256 ^ n ≤ 2 ^ 64 → be_loop n i p v ≡ horner n i p v
  unfolding be_loop
  be_loop_sum zero i v h = refl
  be_loop_sum (suc n) i v h =
      rw (push_byte v (p i) (room n v h) (bytes i))
        (be_loop_sum n (i + 1) (v * 256 + p i) (room_after n v (p i) h (bytes i)))

  pub be48_sum : be48 p ≡ horner 6 0 p 0
  unfolding be48
  be48_sum = be_loop_sum 6 0 0 (omega arith)

  pub be64_sum : be64 p ≡ horner 8 0 p 0
  unfolding be64
  be64_sum = be_loop_sum 8 0 0 (omega arith)
