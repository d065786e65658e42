-- ===== src/Pipeline/Slots/Bits.antt =====
-- The bits of a bitmap, one by one, under `set_bit` and `clear_bit`.
use Prim.Native.Nat.{bit_and-bitwise}
use native.Mathlib.Nat.{div-div-eq-div-mul, div-one, pow-suc, pow-le-pow_right}
use tickpipe.Base.{
  ℕ, zero, suc, ◌-◌, ◌*◌, ◌/◌, ◌%◌, ◌^◌, ◌<◌, ◌≡◌, refl, sym, ap, ap₂, ◌∙◌, inl, inr, Bool, false,
  arith, bit_or, bit_and, or_halve, and_halve, bit_and_mask, max, min, ◌==◌, if◌then◌else◌, update,
  Bool-cases, ==_iff, ne_of_eq_false, subst, if_true, if_false, if_both, ◌≢◌,
}
use tickpipe.Pipeline.Slots.{Bitmap, set_bit, clear_bit}

-- Bit `i` of a word.
abbrev pub bit : ℕ → ℕ → ℕ
bit w i = w / 2 ^ i % 2

bit_zero : (w : ℕ) → bit w 0 ≡ w % 2
bit_zero w = ap (λ n. n % 2) (div-one w)

pub bit-suc : (w i : ℕ) → bit w (suc i) ≡ bit (w / 2) i
bit-suc w i =
    let power : 2 ^ suc i ≡ 2 * 2 ^ i = omega (arith, pow-suc 2 i) in
    ap (λ n. w / n % 2) power ∙ ap (λ n. n % 2) (sym (div-div-eq-div-mul w 2 (2 ^ i)))

bit_or-bit : (i x y : ℕ) → bit (bit_or x y) i ≡ max (bit x i) (bit y i)
bit_or-bit zero x y = ground (arith, bit_zero x, bit_zero y, bit_zero (bit_or x y), or_halve x y)
bit_or-bit (suc i) x y =
    let half : bit_or x y / 2 ≡ bit_or (x / 2) (y / 2) = omega (arith, or_halve x y) in
    bit-suc (bit_or x y) i
    ∙ ap (λ n. bit n i) half
    ∙ bit_or-bit i (x / 2) (y / 2)
    ∙ ap₂ max (sym (bit-suc x i)) (sym (bit-suc y i))

bit_and-bit : (i x y : ℕ) → bit (bit_and x y) i ≡ min (bit x i) (bit y i)
bit_and-bit zero x y = ground (arith, bit_zero x, bit_zero y, bit_zero (bit_and x y), and_halve x y)
bit_and-bit (suc i) x y =
    let half : bit_and x y / 2 ≡ bit_and (x / 2) (y / 2) = omega (arith, and_halve x y) in
    bit-suc (bit_and x y) i
    ∙ ap (λ n. bit n i) half
    ∙ bit_and-bit i (x / 2) (y / 2)
    ∙ ap₂ min (sym (bit-suc x i)) (sym (bit-suc y i))

pub no_bit : (i : ℕ) → bit 0 i ≡ 0
no_bit zero = refl
no_bit (suc i) = bit-suc 0 i ∙ no_bit i

-- One power of two has one bit; the complement has the others.
bit-pow : (k i : ℕ) → bit (2 ^ k) i ≡ (if i == k then 1 else 0)
bit-pow zero zero = refl
bit-pow zero (suc i) = bit-suc 1 i ∙ no_bit i ∙ ground arith
bit-pow (suc k) zero = bit_zero (2 ^ suc k) ∙ ground (arith, pow-suc 2 k)
bit-pow (suc k) (suc i) =
    let half : 2 ^ suc k / 2 ≡ 2 ^ k = omega (arith, pow-suc 2 k) in
    bit-suc (2 ^ suc k) i ∙ ap (λ n. bit n i) half ∙ bit-pow k i ∙ ground arith

bit-complement : (n x i : ℕ) → x < 2 ^ n → i < n → bit (2 ^ n - 1 - x) i ≡ 1 - bit x i
bit-complement zero x i h lt = absurd (omega arith)
bit-complement (suc n) x zero h lt =
    bit_zero (2 ^ suc n - 1 - x) ∙ omega (arith, pow-suc 2 n, bit_zero x)
bit-complement (suc n) x (suc i) h lt =
    let half : (2 ^ suc n - 1 - x) / 2 ≡ 2 ^ n - 1 - x / 2 = omega (arith, pow-suc 2 n) in
    bit-suc (2 ^ suc n - 1 - x) i
    ∙ ap (λ m. bit m i) half
    ∙ bit-complement n (x / 2) i (omega (arith, pow-suc 2 n)) (omega arith)
    ∙ ap (λ b. 1 - b) (sym (bit-suc x i))

zero_or : (x y : ℕ) → x ≡ 0 → y ≡ 0 → bit_or x y ≡ 0
zero_or x y hx hy = ap₂ bit_or hx hy

zero_and : (x y : ℕ) → x ≡ 0 → bit_and x y ≡ 0
zero_and zero y hx = bit_and-bitwise 0 y
zero_and (suc x) y hx = absurd (omega arith)

bit_or-small : (n x y : ℕ) → x < 2 ^ n → y < 2 ^ n → bit_or x y < 2 ^ n
bit_or-small zero x y hx hy =
    subst (λ n. n < 1) (sym (zero_or x y (omega arith) (omega arith))) (omega arith)
bit_or-small (suc n) x y hx hy = omega (
  arith,
  pow-suc 2 n,
  or_halve x y,
  bit_or-small n (x / 2) (y / 2) (omega (arith, pow-suc 2 n)) (omega (arith, pow-suc 2 n)),
)

bit_and-small : (n x y : ℕ) → x < 2 ^ n → bit_and x y < 2 ^ n
bit_and-small zero x y hx = omega (arith, zero_and x y (omega arith))
bit_and-small (suc n) x y hx = omega (
  arith,
  pow-suc 2 n,
  and_halve x y,
  bit_and-small n (x / 2) (y / 2) (omega (arith, pow-suc 2 n)),
)

-- A word without bits is 0.
pub no_bits : (n w : ℕ) → w < 2 ^ n → ((i : ℕ) → i < n → bit w i ≡ 0) → w ≡ 0
no_bits zero w h none_set = omega arith
no_bits (suc n) w h none_set =
    let low : w % 2 ≡ 0 = sym (bit_zero w) ∙ none_set 0 (omega arith) in
    let high : w / 2 ≡ 0 =
      no_bits n (w / 2) (omega (arith, pow-suc 2 n))
        (λ i lt. sym (bit-suc w i) ∙ none_set (suc i) (omega arith)) in
    omega arith

-- The bit of a slot.
abbrev pub bit_of : Bitmap → ℕ → ℕ
bit_of bits slot = bit (bits (slot / 64)) (slot % 64)

unfoldable pub IsBitmap : Bitmap → Type 0
IsBitmap bits = (w : ℕ) → bits w < 2 ^ 64

pow_small : (k : ℕ) → k < 64 → 2 ^ k < 2 ^ 64
pow_small k h =
    omega (arith, pow-suc 2 k, pow-le-pow_right {n = 2} (omega arith) {i = suc k} {j = 64} h)

-- A word in place of another: the bits of its slots, and those of the other slots.
same_word : (s t : ℕ) → t / 64 ≡ s / 64 → (t % 64 == s % 64) ≡ (t == s)
same_word s t h = ground arith

other_word : (s t : ℕ) → t / 64 ≢ s / 64 → (t == s) ≡ false
other_word s t h = ground arith

low_bits : (s : ℕ) → bit_and s 63 ≡ s % 64
low_bits s = bit_and_mask 6 s

bit_of-update :
    (bits : Bitmap) (s t v b : ℕ)
    → ((i : ℕ) → i < 64 → bit v i ≡ (if i == s % 64 then b else bit (bits (s / 64)) i))
    → bit_of (update bits (s / 64) v) t ≡ (if t == s then b else bit_of bits t)
bit_of-update bits s t v b h = elim (Bool-cases (t / 64 == s / 64)) [
  | inl same ↦
      let e = (==_iff (t / 64) (s / 64)).0 same in
      ap (λ (w : ℕ). bit w (t % 64)) (if_true v (bits (t / 64)) same)
      ∙ h (t % 64) (omega arith)
      ∙ ap₂ (λ (c : Bool) (w : ℕ). if c then b else bit (bits w) (t % 64)) (same_word s t e) (sym e)
  | inr other ↦
      ap (λ (w : ℕ). bit w (t % 64)) (if_false v (bits (t / 64)) other)
      ∙ sym (if_false b (bit_of bits t) (other_word s t (ne_of_eq_false other)))
]

pub set_bit-bit_of :
    (bits : Bitmap) (s t : ℕ) → bit_of (set_bit bits s) t ≡ (if t == s then 1 else bit_of bits t)
unfolding set_bit
set_bit-bit_of bits s t =
    bit_of-update bits s t (bit_or (bits (s / 64)) (2 ^ bit_and s 63)) 1 (λ i lt.
      bit_or-bit i (bits (s / 64)) (2 ^ bit_and s 63)
      ∙ ap (max (bit (bits (s / 64)) i)) (bit-pow (bit_and s 63) i)
      ∙ ap (λ (k : ℕ). max (bit (bits (s / 64)) i) (if i == k then 1 else 0)) (low_bits s)
      ∙ ground arith)

pub clear_bit-bit_of :
    (bits : Bitmap) (s t : ℕ) → bit_of (clear_bit bits s) t ≡ (if t == s then 0 else bit_of bits t)
unfolding clear_bit
clear_bit-bit_of bits s t =
    bit_of-update bits s t (bit_and (bits (s / 64)) (2 ^ 64 - 1 - 2 ^ bit_and s 63)) 0 (λ i lt.
      bit_and-bit i (bits (s / 64)) (2 ^ 64 - 1 - 2 ^ bit_and s 63)
      ∙ ap (min (bit (bits (s / 64)) i)) (
          bit-complement 64 (2 ^ bit_and s 63) i
            (pow_small (bit_and s 63) (omega (arith, low_bits s))) lt
          ∙ ap (λ (b : ℕ). 1 - b) (bit-pow (bit_and s 63) i))
      ∙ ap (λ (k : ℕ). min (bit (bits (s / 64)) i) (1 - (if i == k then 1 else 0))) (low_bits s)
      ∙ ground arith)

IsBitmap-update :
    (bits : Bitmap) (s v : ℕ) → IsBitmap bits → v < 2 ^ 64 → IsBitmap (update bits s v)
unfolding IsBitmap
IsBitmap-update bits s v h lt w = if_both (λ (x : ℕ). x < 2 ^ 64) (w == s) lt (h w)

pub set_bit-IsBitmap : (bits : Bitmap) (s : ℕ) → IsBitmap bits → IsBitmap (set_bit bits s)
unfolding set_bit IsBitmap
set_bit-IsBitmap bits s h = IsBitmap-update bits (s / 64) _ h (
    bit_or-small 64 (bits (s / 64)) (2 ^ bit_and s 63) (h (s / 64))
      (pow_small (bit_and s 63) (omega (arith, low_bits s))))

pub clear_bit-IsBitmap : (bits : Bitmap) (s : ℕ) → IsBitmap bits → IsBitmap (clear_bit bits s)
unfolding clear_bit IsBitmap
clear_bit-IsBitmap bits s h =
    IsBitmap-update bits (s / 64) _ h
      (bit_and-small 64 (bits (s / 64)) (2 ^ 64 - 1 - 2 ^ bit_and s 63) (h (s / 64)))
