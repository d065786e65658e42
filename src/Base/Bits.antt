-- ===== src/Base/Bits.antt =====
-- `|` of disjoint fields and `&` with a low mask, as arithmetic, at every width.
use Prim.Native.Nat.{
  ℕ, zero, suc, ◌+◌, ◌-◌, ◌*◌, ◌/◌, ◌%◌, ◌^◌, ◌≤◌, ◌<◌, min, max, bit_and, bit_or, digits,
  bit_and-bitwise, bit_or-bitwise,
}
use mathlib.Core.Path.{◌≡◌, refl, ap}
use native.Mathlib.Nat.{pow-suc, one-le-pow}
use native.Mathlib.Omega.{arith}

-- The fuel of the digit recursion does not matter once it covers the first number.
fuel_irrelevant :
    (z : ℕ → ℕ) (op : ℕ → ℕ → ℕ) (k l x y : ℕ)
    → x ≤ k
    → x ≤ l
    → digits z op k x y ≡ digits z op l x y
fuel_irrelevant z op zero zero x y p q = refl
fuel_irrelevant z op zero (suc l) zero y p q = refl
fuel_irrelevant z op zero (suc l) (suc x) y p q = absurd (omega arith)
fuel_irrelevant z op (suc k) zero zero y p q = refl
fuel_irrelevant z op (suc k) zero (suc x) y p q = absurd (omega arith)
fuel_irrelevant z op (suc k) (suc l) zero y p q = refl
fuel_irrelevant z op (suc k) (suc l) (suc x) y p q =
    rw (fuel_irrelevant z op k l (suc x / 2) (y / 2) (omega arith) (omega arith))

-- The lowest digit, and the rest.
pub or_halve : (x y : ℕ) → bit_or x y ≡ 2 * bit_or (x / 2) (y / 2) + max (x % 2) (y % 2)
or_halve zero y = omega (arith, bit_or-bitwise 0 y, bit_or-bitwise 0 (y / 2))
or_halve (suc x) y = omega (
  arith,
  bit_or-bitwise (suc x) y,
  bit_or-bitwise (suc x / 2) (y / 2),
  fuel_irrelevant (λ b. b) max x (suc x / 2) (suc x / 2) (y / 2) (omega arith) (omega arith),
)

pub and_halve : (x y : ℕ) → bit_and x y ≡ 2 * bit_and (x / 2) (y / 2) + min (x % 2) (y % 2)
and_halve zero y = omega (arith, bit_and-bitwise 0 y, bit_and-bitwise 0 (y / 2))
and_halve (suc x) y = omega (
  arith,
  bit_and-bitwise (suc x) y,
  bit_and-bitwise (suc x / 2) (y / 2),
  fuel_irrelevant (λ b. zero) min x (suc x / 2) (suc x / 2) (y / 2) (omega arith) (omega arith),
)

or_zero_upto : (n x : ℕ) → x ≤ n → bit_or x 0 ≡ x
or_zero_upto zero zero h = refl
or_zero_upto zero (suc x) h = absurd (omega arith)
or_zero_upto (suc n) zero h = refl
or_zero_upto (suc n) (suc x) h =
    omega (arith, or_halve (suc x) 0, or_zero_upto n (suc x / 2) (omega arith))

and_zero_upto : (n x : ℕ) → x ≤ n → bit_and x 0 ≡ 0
and_zero_upto zero zero h = refl
and_zero_upto zero (suc x) h = absurd (omega arith)
and_zero_upto (suc n) zero h = refl
and_zero_upto (suc n) (suc x) h =
    omega (arith, and_halve (suc x) 0, and_zero_upto n (suc x / 2) (omega arith))

double_shift : (q k : ℕ) → q * 2 ^ suc k ≡ 2 * (q * 2 ^ k)
double_shift q k = omega (arith, ap (λ (t : ℕ). q * t) (pow-suc 2 k))

-- `(q << k) | r` is a sum when `r` has `k` bits.
pub bit_or-add : (k q r : ℕ) → r < 2 ^ k → bit_or (q * 2 ^ k) r ≡ q * 2 ^ k + r
bit_or-add zero q r h = ground (arith, or_zero_upto q q (omega arith))
bit_or-add (suc k) q r h = ground (
  arith,
  pow-suc 2 k,
  or_halve (q * 2 ^ suc k) r,
  double_shift q k,
  bit_or-add k q (r / 2) (omega (arith, pow-suc 2 k)),
)

and_split : (k q r : ℕ) → r < 2 ^ k → bit_and (q * 2 ^ k + r) (2 ^ k - 1) ≡ r
and_split zero q r h = ground (arith, and_zero_upto (q * 1 + r) (q * 1 + r) (omega arith))
and_split (suc k) q r h = ground (
  arith,
  and_halve (q * 2 ^ suc k + r) (2 ^ suc k - 1),
  double_shift q k,
  pow-suc 2 k,
  one-le-pow k 2,
  and_split k q (r / 2) (omega (arith, pow-suc 2 k)),
)

-- A mask of `k` low bits is the remainder by `2 ^ k`.
pub bit_and_mask : (k x : ℕ) → bit_and x (2 ^ k - 1) ≡ x % 2 ^ k
bit_and_mask k x = ground (arith, one-le-pow k 2, and_split k (x / 2 ^ k) (x % 2 ^ k))
