-- ===== src/Pipeline/Slots/Encode.antt =====
-- The priority encoders: `top_slot` and `bottom_slot` against the bits of the map.
use tickpipe.Base.{
  ℕ, zero, suc, ◌+◌, ◌-◌, ◌*◌, ◌/◌, ◌%◌, ◌^◌, ◌≤◌, ◌<◌, ◌≡◌, ◌≢◌, sym, ap, ap₂, ◌∙◌, inl, inr, true,
  Option, none, some, arith, ◌==◌, subst, Bool-cases, ltb, ltb→lt, ==_iff, ne_of_eq_false, if_with,
}
use tickpipe.Pipeline.Slots.{
  Bitmap, ladder_slots, bitmap_words, leading_zeros, trailing_zeros, clzll, ctzll, top_loop,
  top_slot, bottom_loop, bottom_slot,
}
use tickpipe.Pipeline.Slots.Bits.{bit, bit_of, IsBitmap, no_bit, no_bits}

-- The zeros in front: so many bits from `n` down are clear, and the next is set.
abbrev LeadingZeros : ℕ → ℕ → ℕ → Type 0
LeadingZeros n w z =
    (z ≤ n) × ((i : ℕ) → n ≤ i + z → i < n → bit w i ≡ 0) × (z < n → bit w (n - 1 - z) ≡ 1)

leading_zeros_lem : (n w : ℕ) → LeadingZeros n w (leading_zeros n w)
unfolding leading_zeros
leading_zeros_lem zero w = (omega arith, λ i h lt. absurd (omega arith), λ h. absurd (omega arith))
leading_zeros_lem (suc n) w =
    let (short, clear, set) = leading_zeros_lem n w in
    if_with (LeadingZeros (suc n) w) (w / 2 ^ n % 2 == 1)
      (λ one. (
        omega arith,
        λ i h lt. absurd (omega arith),
        λ h. subst (λ (k : ℕ). bit w k ≡ 1) {x = n} (omega arith) ((==_iff (bit w n) 1).0 one),
      ))
      (λ not_one. (
        omega arith,
        λ i h lt. elim (Bool-cases (i == n)) [
          | inl e ↦
              subst (λ (k : ℕ). bit w k ≡ 0) (sym ((==_iff i n).0 e))
                (ground (arith, ne_of_eq_false not_one))
          | inr ne ↦ clear i (omega arith) (omega (arith, ne_of_eq_false ne))
        ],
        λ h.
            subst (λ (k : ℕ). bit w k ≡ 1) {x = n - 1 - leading_zeros n w} (omega arith)
              (set (omega arith)),
      ))

abbrev TrailingZeros : ℕ → ℕ → ℕ → ℕ → Type 0
TrailingZeros left i w z =
    (z ≤ left) × ((j : ℕ) → i ≤ j → j < i + z → bit w j ≡ 0) × (z < left → bit w (i + z) ≡ 1)

trailing_zeros_lem : (left i w : ℕ) → TrailingZeros left i w (trailing_zeros left i w)
unfolding trailing_zeros
trailing_zeros_lem zero i w =
    (omega arith, λ j h lt. absurd (omega arith), λ h. absurd (omega arith))
trailing_zeros_lem (suc left) i w =
    let (short, clear, set) = trailing_zeros_lem left (i + 1) w in
    if_with (TrailingZeros (suc left) i w) (w / 2 ^ i % 2 == 1)
      (λ one. (
        omega arith,
        λ j h lt. absurd (omega arith),
        λ h. subst (λ (k : ℕ). bit w k ≡ 1) {x = i} (omega arith) ((==_iff (bit w i) 1).0 one),
      ))
      (λ not_one. (
        omega arith,
        λ j h lt. elim (Bool-cases (j == i)) [
          | inl e ↦
              subst (λ (k : ℕ). bit w k ≡ 0) (sym ((==_iff j i).0 e))
                (ground (arith, ne_of_eq_false not_one))
          | inr ne ↦ clear j (omega (arith, ne_of_eq_false ne)) (omega arith)
        ],
        λ h.
            subst (λ (k : ℕ). bit w k ≡ 1) {x = i + 1 + trailing_zeros left (i + 1) w} (omega arith)
              (set (omega arith)),
      ))

-- The highest set bit of the first `n`, and the lowest from `a` on; none when all are clear.
unfoldable pub IsHighest : (ℕ → ℕ) → ℕ → Option ℕ → Type 0
IsHighest f n none = (i : ℕ) → i < n → f i ≡ 0
IsHighest f n (some s) = (s < n) × (f s ≡ 1) × ((i : ℕ) → s < i → i < n → f i ≡ 0)

unfoldable pub IsLowest : (ℕ → ℕ) → ℕ → ℕ → Option ℕ → Type 0
IsLowest f a n none = (i : ℕ) → a ≤ i → i < n → f i ≡ 0
IsLowest f a n (some s) = (a ≤ s) × (s < n) × (f s ≡ 1) × ((i : ℕ) → a ≤ i → i < s → f i ≡ 0)

clzll_lem : (w : ℕ) → w < 2 ^ 64 → w ≢ 0 → IsHighest (bit w) 64 (some (63 - clzll w))
unfolding IsHighest clzll
clzll_lem w h ne =
    let (short, clear, set) = leading_zeros_lem 64 w in
    let found : leading_zeros 64 w < 64 = elim (Bool-cases (ltb (leading_zeros 64 w) 64)) [
      | inl yes_lt ↦ omega (arith, ltb→lt _ _ yes_lt)
      | inr no_lt ↦ absurd (ne (no_bits 64 w h (λ i lt. clear i (ground (arith, no_lt)) lt)))
    ] in
    (omega arith, set found, λ i gt lt. clear i (omega arith) lt)

ctzll_lem : (w : ℕ) → w < 2 ^ 64 → w ≢ 0 → IsLowest (bit w) 0 64 (some (ctzll w))
unfolding IsLowest ctzll
ctzll_lem w h ne =
    let (short, clear, set) = trailing_zeros_lem 64 0 w in
    let found : trailing_zeros 64 0 w < 64 = elim (Bool-cases (ltb (trailing_zeros 64 0 w) 64)) [
      | inl yes_lt ↦ omega (arith, ltb→lt _ _ yes_lt)
      | inr no_lt ↦
          absurd (ne (no_bits 64 w h (λ i lt. clear i (omega arith) (ground (arith, no_lt)))))
    ] in
    (
      omega arith,
      found,
      subst (λ (k : ℕ). bit w k ≡ 1) {x = 0 + trailing_zeros 64 0 w} (omega arith) (set found),
      λ i ge lt. clear i ge (omega arith),
    )

-- A slot of word `w`.
word_bit :
    (bits : Bitmap) (w t : ℕ)
    → w * 64 ≤ t
    → t < suc w * 64
    → bit_of bits t ≡ bit (bits w) (t - w * 64)
word_bit bits w t ge lt =
    ap₂ (λ (v : ℕ) (i : ℕ). bit (bits v) i) {x = t / 64} (omega arith) (omega arith)

empty_word :
    (bits : Bitmap) (w t : ℕ)
    → (bits w == 0) ≡ true
    → w * 64 ≤ t
    → t < suc w * 64
    → bit_of bits t ≡ 0
empty_word bits w t e ge lt =
    word_bit bits w t ge lt
    ∙ ap (λ (v : ℕ). bit v (t - w * 64)) ((==_iff (bits w) 0).0 e)
    ∙ no_bit (t - w * 64)

IsHighest-extend :
    (f : ℕ → ℕ) (a b : ℕ) (r : Option ℕ)
    → a ≤ b
    → ((i : ℕ) → a ≤ i → i < b → f i ≡ 0)
    → IsHighest f a r
    → IsHighest f b r
unfolding IsHighest
IsHighest-extend f a b none le clear h = λ i lt. elim (Bool-cases (ltb i a)) [
  | inl below ↦ h i (ltb→lt i a below)
  | inr above ↦ clear i (ground (arith, above)) lt
]
IsHighest-extend f a b (some s) le clear (lt, set, over) = (
  omega arith,
  set,
  λ i gt i_lt. elim (Bool-cases (ltb i a)) [
    | inl below ↦ over i gt (ltb→lt i a below)
    | inr above ↦ clear i (ground (arith, above)) i_lt
  ],
)

IsLowest-extend :
    (f : ℕ → ℕ) (a b n : ℕ) (r : Option ℕ)
    → a ≤ b
    → ((i : ℕ) → a ≤ i → i < b → f i ≡ 0)
    → IsLowest f b n r
    → IsLowest f a n r
unfolding IsLowest
IsLowest-extend f a b n none le clear h = λ i ge lt. elim (Bool-cases (ltb i b)) [
  | inl below ↦ clear i ge (ltb→lt i b below)
  | inr above ↦ h i (ground (arith, above)) lt
]
IsLowest-extend f a b n (some s) le clear (ge, lt, set, under) = (
  omega arith,
  lt,
  set,
  λ i i_ge i_lt. elim (Bool-cases (ltb i b)) [
    | inl below ↦ clear i i_ge (ltb→lt i b below)
    | inr above ↦ under i (ground (arith, above)) i_lt
  ],
)

-- The found bit of a word, as a slot.
IsHighest-slot :
    (bits : Bitmap) (w s : ℕ)
    → IsHighest (bit (bits w)) 64 (some s)
    → IsHighest (bit_of bits) (suc w * 64) (some (w * 64 + s))
unfolding IsHighest
IsHighest-slot bits w s (lt, set, over) = (
  omega arith,
  word_bit bits w (w * 64 + s) (omega arith) (omega arith)
      ∙ subst (λ (i : ℕ). bit (bits w) i ≡ 1) {x = s} (omega arith) set,
  λ i gt i_lt. word_bit bits w i (omega arith) i_lt ∙ over (i - w * 64) (omega arith) (omega arith),
)

IsLowest-slot :
    (bits : Bitmap) (w n s : ℕ)
    → suc w * 64 ≤ n
    → IsLowest (bit (bits w)) 0 64 (some s)
    → IsLowest (bit_of bits) (w * 64) n (some (w * 64 + s))
unfolding IsLowest
IsLowest-slot bits w n s le (ge, lt, set, under) = (
  omega arith,
  omega arith,
  word_bit bits w (w * 64 + s) (omega arith) (omega arith)
      ∙ subst (λ (i : ℕ). bit (bits w) i ≡ 1) {x = s} (omega arith) set,
  λ i i_ge i_lt.
      word_bit bits w i i_ge (omega arith) ∙ under (i - w * 64) (omega arith) (omega arith),
)

pub top_loop-IsHighest :
    (n : ℕ) (bits : Bitmap) → IsBitmap bits → IsHighest (bit_of bits) (n * 64) (top_loop n bits)
unfolding top_loop IsBitmap IsHighest
top_loop-IsHighest zero bits h = λ i lt. absurd (omega arith)
top_loop-IsHighest (suc w) bits h =
    if_with (IsHighest (bit_of bits) (suc w * 64)) (bits w == 0)
      (λ e.
        IsHighest-extend (bit_of bits) (w * 64) (suc w * 64) (top_loop w bits) (omega arith)
          (λ i. empty_word bits w i e) (top_loop-IsHighest w bits h))
      (λ ne.
        IsHighest-slot bits w (63 - clzll (bits w)) (clzll_lem (bits w) (h w) (ne_of_eq_false ne)))

pub bottom_loop-IsLowest :
    (left w : ℕ) (bits : Bitmap)
    → IsBitmap bits
    → IsLowest (bit_of bits) (w * 64) ((w + left) * 64) (bottom_loop left w bits)
unfolding bottom_loop IsBitmap IsLowest
bottom_loop-IsLowest zero w bits h = λ i ge lt. absurd (omega arith)
bottom_loop-IsLowest (suc left) w bits h =
    if_with (IsLowest (bit_of bits) (w * 64) ((w + suc left) * 64)) (bits w == 0)
      (λ e.
        IsLowest-extend (bit_of bits) (w * 64) ((w + 1) * 64) ((w + suc left) * 64)
          (bottom_loop left (w + 1) bits) (omega arith)
          (λ i ge lt. empty_word bits w i e ge (omega arith))
          (subst
            (λ (n : ℕ). IsLowest (bit_of bits) ((w + 1) * 64) n (bottom_loop left (w + 1) bits))
            {x = (w + 1 + left) * 64} (omega arith) (bottom_loop-IsLowest left (w + 1) bits h)))
      (λ ne.
        IsLowest-slot bits w ((w + suc left) * 64) (ctzll (bits w)) (omega arith)
          (ctzll_lem (bits w) (h w) (ne_of_eq_false ne)))

-- On words of 64 bits `top_slot` finds the highest set bit of the 2048 slots and `bottom_slot`
-- the lowest; each finds none exactly when all bits are clear.
pub encoders_lem :
    (bits : Bitmap)
    → IsBitmap bits
    → IsHighest (bit_of bits) ladder_slots (top_slot bits)
      × IsLowest (bit_of bits) 0 ladder_slots (bottom_slot bits)
unfolding top_slot bottom_slot
encoders_lem bits h =
    (top_loop-IsHighest bitmap_words bits h, bottom_loop-IsLowest bitmap_words 0 bits h)
