-- ===== src/Book/Table/Probe.antt =====
-- Where the probe sequence of a key goes, and what `find_loop` and `insert_loop` say of it.
use native.Mathlib.Nat.{mod-add-mod, mod-eq_of_lt}
use tickpipe.Base.{
  ℕ, zero, suc, ◌+◌, ◌-◌, ◌%◌, ◌^◌, ◌≤◌, ◌<◌, ◌≡◌, sym, ap, ◌∙◌, ◌≢◌, inl, inr, none, some, arith,
  bit_and_mask, Bool-cases, subst, leb,
}
use tickpipe.Book.Table.{Book, empty, occupied, hash_ref, home, next, find_loop}

-- The capacity is a power of two and the mask is one less.
pub record IsMasked (b : Book) : Type 0 where
  pub power : ℕ
  pub capacity : b.capacity ≡ 2 ^ power
  pub mask : b.mask ≡ 2 ^ power - 1
  pub nonempty : 0 < b.capacity

-- The slot at distance `d` from the home slot of `ref`.
unfoldable pub at : Book → ℕ → ℕ → ℕ
at b ref d = (hash_ref ref + d) % b.capacity

module _ (b : Book) (m : IsMasked b) where
  pub at-lt : (ref d : ℕ) → at b ref d < b.capacity
  unfolding at
  at-lt ref d = omega (arith, m.nonempty)

  pub home-at : (ref : ℕ) → home b ref ≡ at b ref 0
  unfolding home at
  home-at ref =
      rw (m.mask, m.capacity, bit_and_mask m.power (hash_ref ref))
        (ap (λ k. k % 2 ^ m.power) (omega arith))

  pub next-at : (ref d : ℕ) → next b (at b ref d) ≡ at b ref (d + 1)
  unfolding next at
  next-at ref d =
      rw
        (
          m.mask,
          m.capacity,
          bit_and_mask m.power ((hash_ref ref + d) % 2 ^ m.power + 1),
          mod-add-mod,
        )
        (ap (λ k. k % 2 ^ m.power) (omega arith))

mod_around : (i c : ℕ) → i < c → (i + c) % c ≡ i
mod_around i c h = grind arith

-- The probe sequence comes to every slot.
pub at-covers :
    (b : Book) (ref i : ℕ) → i < b.capacity → (d : ℕ) × (d < b.capacity) × (at b ref d ≡ i)
unfolding at
at-covers b ref i h =
    let c = b.capacity in
    let s = hash_ref ref % c in
    let s-lt : s < c = omega arith in
    elim (Bool-cases (leb s i)) [
      | inl q ↦
          let le : s ≤ i = ground arith in
          let sum : s + (i - s) ≡ i = omega arith in
          (
            i - s,
            omega arith,
            sym (mod-add-mod (hash_ref ref) c (i - s)) ∙ ap (λ k. k % c) sum ∙ mod-eq_of_lt h,
          )
      | inr q ↦
          let lt : i < s = ground arith in
          let sum : s + (i + c - s) ≡ i + c = omega arith in
          (
            i + c - s,
            omega arith,
            sym (mod-add-mod (hash_ref ref) c (i + c - s)) ∙ ap (λ k. k % c) sum ∙ mod_around i c h,
          )
    ]

-- The slot `i` holds an order with the reference `ref`.
abbrev pub HasKey : Book → ℕ → ℕ → Type 0
HasKey b ref i = (b.state i ≡ occupied) × ((b.slots i).order_ref ≡ ref)

-- What a successful `find_loop` found.
pub find_loop_sound :
    (b : Book) (ref left idx probes i n : ℕ)
    → find_loop b ref left idx probes ≡ some (i, n)
    → HasKey b ref i
unfolding find_loop
find_loop_sound b ref zero idx probes i n h = cc
find_loop_sound b ref (suc left) idx probes i n h =
    ground (arith, find_loop_sound b ref left (next b idx) (probes + 1) i n)

pub find_loop_range :
    (b : Book) (m : IsMasked b) (ref left d probes i n : ℕ)
    → find_loop b ref left (at b ref d) probes ≡ some (i, n)
    → i < b.capacity
unfolding find_loop
find_loop_range b m ref zero d probes i n h = cc
find_loop_range b m ref (suc left) d probes i n h = ground (
  arith,
  at-lt b m ref d,
  next-at b m ref d,
  find_loop_range b m ref left (d + 1) (probes + 1) i n,
)

-- The slots before distance `d` on the way of `ref` are not empty.
abbrev pub Passed : Book → ℕ → ℕ → Type 0
Passed b ref d = (e : ℕ) → e < d → b.state (at b ref e) ≢ empty

-- An order at a distance that the loop reaches, behind no empty slot, is not missed.
pub find_loop_complete :
    (b : Book) (m : IsMasked b) (ref left d probes k : ℕ)
    → k < left
    → Passed b ref (d + k)
    → HasKey b ref (at b ref (d + k))
    → find_loop b ref left (at b ref d) probes ≢ none
unfolding find_loop
find_loop_complete b m ref zero d probes k h p found = absurd (omega arith)
find_loop_complete b m ref (suc left) d probes zero h p found =
    let e : at b ref (d + 0) ≡ at b ref d = ap (at b ref) (omega arith) in
    ground (arith, ap b.state e, ap (λ j. (b.slots j).order_ref) e)
find_loop_complete b m ref (suc left) d probes (suc k) h p found =
    let e : d + suc k ≡ d + 1 + k = omega arith in
    ground (
      arith,
      p d (omega arith),
      next-at b m ref d,
      find_loop_complete b m ref left (d + 1) (probes + 1) k (omega arith)
          (subst (Passed b ref) e p) (subst (λ j. HasKey b ref (at b ref j)) e found),
    )
