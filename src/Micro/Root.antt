-- ===== src/Micro/Root.antt =====
-- `isqrt128` is the integer square root.
use native.Mathlib.Nat.{div-div-eq-div-mul, pow-suc, mul-le-mul, div-le_self, div-one}
use tickpipe.Base.{
  ℕ, zero, suc, ◌+◌, ◌-◌, ◌*◌, ◌/◌, ◌%◌, ◌^◌, ◌≤◌, ◌<◌, ◌≡◌, refl, sym, ap, ◌∙◌, inl, inr, true,
  false, bit_and, bit_or, bit_or-add, bit_and_mask, ltb, ◌==◌, Bool-cases, if◌then◌else◌, if_true,
  if_false, ap₂, arith, u64, subst, ltb→lt,
}
use tickpipe.Micro.{u128, isqrt_loop, isqrt128}

-- `s` is the root of `p` with the remainder `rem`.
pub record IsRoot (p s rem : ℕ) : Type 0 where
  pub square : s * s + rem ≡ p
  pub below : rem ≤ 2 * s

-- The two bits that a round takes from `v`.
abbrev digit : ℕ → ℕ → ℕ
digit v i = v / 2 ^ (i * 2) % 4

-- The remainder and the root as a round of the loop computes them.
round_rem :
    (v i rem : ℕ)
    → rem < 2 ^ 66
    → bit_or (u128 (rem * 2 ^ 2)) (bit_and (v / 2 ^ (i * 2)) 3) ≡ rem * 4 + digit v i
round_rem v i rem h =
    ground (
      arith,
      bit_and_mask 2 (v / 2 ^ (i * 2)),
      bit_or-add 2 rem (v / 2 ^ (i * 2) % 4) (omega arith),
    )

round_root : (s : ℕ) → s < 2 ^ 64 → u128 (2 * s * 2) ≡ s * 4
round_root s h = omega arith

root_one : (s : ℕ) → bit_or (s * 4) 1 ≡ s * 4 + 1
root_one s = bit_or-add 2 s 1 (omega arith)

root_two : (s : ℕ) → bit_or (s * 4) 2 ≡ s * 4 + 2
root_two s = bit_or-add 2 s 2 (omega arith)

-- One more digit, taken or not.
IsRoot-taken :
    (p s rem d : ℕ)
    → IsRoot p s rem
    → s * 4 < rem * 4 + d
    → d < 4
    → IsRoot (p * 4 + d) (2 * s + 1) (rem * 4 + d - (s * 4 + 1))
IsRoot-taken p s rem d r h hd = record { square = grind arith; below = omega arith }

IsRoot-kept :
    (p s rem d : ℕ)
    → IsRoot p s rem
    → rem * 4 + d ≤ s * 4
    → IsRoot (p * 4 + d) (2 * s) (rem * 4 + d)
IsRoot-kept p s rem d r h = record { square = grind arith; below = omega arith }

power_step : (i : ℕ) → 2 ^ (suc i * 2) ≡ 2 ^ (i * 2) * 4
power_step i =
    let twice : suc i * 2 ≡ suc (suc (i * 2)) = omega arith in
    ap (λ n. 2 ^ n) twice
    ∙ pow-suc 2 (suc (i * 2))
    ∙ ap (λ n. n * 2) (pow-suc 2 (i * 2))
    ∙ omega arith

-- One more digit of `v` belongs to the part of `v` above position `i`.
prefix_step : (v i : ℕ) → v / 2 ^ (suc i * 2) * 4 + digit v i ≡ v / 2 ^ (i * 2)
prefix_step v i =
    let q = v / 2 ^ (i * 2) in
    let parts : v / 2 ^ (suc i * 2) ≡ q / 4 =
      ap (λ n. v / n) (power_step i) ∙ sym (div-div-eq-div-mul v (2 ^ (i * 2)) 4) in
    ap (λ n. n * 4 + digit v i) parts ∙ omega arith

root_small : (v p s rem : ℕ) → v < 2 ^ 128 → p ≤ v → IsRoot p s rem → s < 2 ^ 64
root_small v p s rem h le r = elim (Bool-cases (ltb s (2 ^ 64))) [
  | inl lt ↦ ltb→lt _ _ lt
  | inr ge ↦
      let big : 2 ^ 64 * 2 ^ 64 ≤ s * s =
        mul-le-mul {n₁ = 2 ^ 64} {m₁ = 2 ^ 64} {n₂ = s} {m₂ = s} (ground arith) (ground arith) in
      absurd (omega (arith, big, r.square))
]

-- What the loop returns for the root of the part of `v` above position `i`.
record IsDouble (v out : ℕ) : Type 0 where
  half : ℕ
  even : out ≡ 2 * half
  rest : ℕ
  root : IsRoot v half rest
  small : half < 2 ^ 64

-- The branch of a round, on its two numbers.
abbrev branch : ℕ → ℕ → ℕ → ℕ → ℕ
branch i v root1 rem1 =
    if ltb root1 rem1
    then isqrt_loop i v (rem1 - bit_or root1 1) (bit_or root1 2)
    else isqrt_loop i v rem1 root1

round :
    (i v s rem : ℕ)
    → s < 2 ^ 64
    → rem < 2 ^ 66
    → isqrt_loop (suc i) v rem (2 * s) ≡ branch i v (s * 4) (rem * 4 + digit v i)
unfolding isqrt_loop
round i v s rem hs hr = ap₂ (branch i v) (round_root s hs) (round_rem v i rem hr)

branch-taken :
    (i v s r : ℕ)
    → ltb (s * 4) r ≡ true
    → isqrt_loop i v (r - (s * 4 + 1)) (2 * (2 * s + 1)) ≡ branch i v (s * 4) r
branch-taken i v s r h =
    let double : 2 * (2 * s + 1) ≡ s * 4 + 2 = omega arith in
    sym
      (if_true _ _ h ∙ ap₂ (λ a b. isqrt_loop i v (r - a) b) (root_one s) (root_two s ∙ sym double))

branch-kept :
    (i v s r : ℕ) → ltb (s * 4) r ≡ false → isqrt_loop i v r (2 * (2 * s)) ≡ branch i v (s * 4) r
branch-kept i v s r h =
    let double : s * 4 ≡ 2 * (2 * s) = omega arith in
    sym (if_false _ _ h ∙ ap (isqrt_loop i v r) double)

isqrt_loop_lem :
    (i v s rem : ℕ)
    → v < 2 ^ 128
    → IsRoot (v / 2 ^ (i * 2)) s rem
    → IsDouble v (isqrt_loop i v rem (2 * s))
unfolding isqrt_loop
isqrt_loop_lem zero v s rem h r = record {
  half = s;
  even = refl;
  rest = rem;
  root = subst (λ p. IsRoot p s rem) (div-one v) r;
  small = root_small v _ s rem h (div-le_self v 1) r;
}
isqrt_loop_lem (suc i) v s rem h r =
    let p = v / 2 ^ (suc i * 2) in
    let small : s < 2 ^ 64 = root_small v p s rem h (div-le_self v _) r in
    let eq = round i v s rem small (omega (arith, small, r.below)) in
    elim (Bool-cases (ltb (s * 4) (rem * 4 + digit v i))) [
      | inl lt ↦
          let next =
            subst (λ n. IsRoot n (2 * s + 1) (rem * 4 + digit v i - (s * 4 + 1))) (prefix_step v i)
              (IsRoot-taken p s rem (digit v i) r (ltb→lt _ _ lt) (omega arith)) in
          subst (IsDouble v) (branch-taken i v s _ lt ∙ sym eq)
            (isqrt_loop_lem i v (2 * s + 1) _ h next)
      | inr ge ↦
          let next =
            subst (λ n. IsRoot n (2 * s) (rem * 4 + digit v i)) (prefix_step v i)
              (IsRoot-kept p s rem (digit v i) r (ground arith)) in
          subst (IsDouble v) (branch-kept i v s _ ge ∙ sym eq) (isqrt_loop_lem i v (2 * s) _ h next)
    ]

-- `isqrt128` returns the integer square root of every number below 2 ^ 128.
pub isqrt128_lem :
    (v : ℕ)
    → v < 2 ^ 128
    → (isqrt128 v * isqrt128 v ≤ v) × (v < (isqrt128 v + 1) * (isqrt128 v + 1))
unfolding isqrt128
isqrt128_lem v h = elim (Bool-cases (v == 0)) [
  | inl e ↦ ground arith
  | inr e ↦
      let start : IsRoot (v / 2 ^ (64 * 2)) 0 0 = record {
        square = ground arith;
        below = omega arith;
      } in
      let d = isqrt_loop_lem 64 v 0 0 h start in
      let value : isqrt128 v ≡ d.half =
        if_false _ _ e ∙ ap (λ n. u64 (n / 2)) d.even ∙ omega (arith, d.small) in
      subst (λ n. (n * n ≤ v) × (v < (n + 1) * (n + 1))) (sym value)
        (omega (arith, d.root.square), grind (arith, d.root.square, d.root.below))
]
