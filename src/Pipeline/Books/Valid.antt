-- ===== src/Pipeline/Books/Valid.antt =====
-- The price levels agree with the bitmap and lie in their slots.
use tickpipe.Base.{
  ℕ, zero, suc, ◌+◌, ◌-◌, ◌/◌, ◌≤◌, ◌<◌, ◌≡◌, refl, sym, ap, ◌∙◌, Bool, true, false, Option, none,
  some, arith, ◌==◌, if◌then◌else◌, subst, ==_iff, if_true, if_false, if_with, if_both, update,
  sub32,
}
use tickpipe.Itch.Order.{Order}
use tickpipe.Pipeline.Slots.{ladder_slots, tick, set_bit, clear_bit}
use tickpipe.Pipeline.Slots.Bits.{
  bit_of, IsBitmap, set_bit-bit_of, clear_bit-bit_of, set_bit-IsBitmap, clear_bit-IsBitmap,
}
use tickpipe.Pipeline.Books.{
  max_orders, PriceLevel, is_full, is_empty, Half, shift_loop, pop_front, take_level, take_at,
  take_best, join, rest_at,
}

-- A price in a slot of the window from `base` on.
unfoldable pub InSlot : ℕ → ℕ → ℕ → Type 0
InSlot base s price = (base ≤ price) × ((price - base) / tick ≡ s)

-- A level of slot `s` whose bit is `b`: at most 16 orders, the bit set when there are any, and
-- the price then in the slot.
unfoldable pub IsLevel : ℕ → ℕ → ℕ → PriceLevel → Type 0
IsLevel base s b l =
    (l.count ≤ max_orders)
    × (b ≡ (if is_empty l then 0 else 1))
    × (0 < l.count → InSlot base s l.price)

unfoldable pub IsHalf : ℕ → Half → Type 0
IsHalf base h =
    IsBitmap h.bits × ((s : ℕ) → s < ladder_slots → IsLevel base s (bit_of h.bits s) (h.levels s))

shift_loop_same :
    (left i : ℕ) (l : PriceLevel)
    → ((shift_loop left i l).count ≡ l.count) × ((shift_loop left i l).price ≡ l.price)
unfolding shift_loop
shift_loop_same zero i l = (refl, refl)
shift_loop_same (suc left) i l = shift_loop_same left (i + 1) (record l {
  order_refs = update l.order_refs i (l.order_refs (i + 1));
  quantities = update l.quantities i (l.quantities (i + 1));
})

-- A fill keeps the price, and takes one order at most.
TakesOne : PriceLevel → PriceLevel → Type 0
TakesOne l l' = (l'.count ≤ l.count) × (l'.price ≡ l.price)

take_level-TakesOne : (l : PriceLevel) (q : ℕ) → TakesOne l (take_level l q)
unfolding take_level pop_front TakesOne
take_level-TakesOne l q =
    let left = sub32 (l.quantities 0) q in
    let l1 = record l { quantities = update l.quantities 0 left } in
    let (count, price) = shift_loop_same (l.count - 1) 0 l1 in
    if_both (TakesOne l) (left == 0) (omega (arith, count), price) (omega arith, refl)

one_slot :
    (base s b b₀ : ℕ) (l l₀ : PriceLevel) (c : Bool)
    → (c ≡ true → IsLevel base s b l)
    → IsLevel base s b₀ l₀
    → IsLevel base s (if c then b else b₀) (if c then l else l₀)
one_slot base s b b₀ l l₀ true new old = new refl
one_slot base s b b₀ l l₀ false new old = old

-- The levels after a change at one slot.
IsHalf-update :
    (base slot : ℕ) (h : Half) (l : PriceLevel) (bits' : ℕ → ℕ) (b : ℕ)
    → IsHalf base h
    → IsBitmap bits'
    → ((s : ℕ) → bit_of bits' s ≡ (if s == slot then b else bit_of h.bits s))
    → (slot < ladder_slots → IsLevel base slot b l)
    → IsHalf base (record h { levels = update h.levels slot l; bits = bits' })
unfolding IsHalf
IsHalf-update base slot h l bits' b (bitmap, levels) bitmap' bits at_slot = (
  bitmap',
  λ s lt.
      subst (λ (v : ℕ). IsLevel base s v (update h.levels slot l s)) (sym (bits s))
        (one_slot base s b (bit_of h.bits s) l (h.levels s) (s == slot)
          (λ e.
            let same = (==_iff s slot).0 e in
            subst (λ (k : ℕ). IsLevel base k b l) (sym same)
              (at_slot (subst (λ (k : ℕ). k < ladder_slots) same lt)))
          (levels s lt)),
)

keep_bits :
    (bits : ℕ → ℕ) (slot s : ℕ)
    → bit_of bits s ≡ (if s == slot then bit_of bits slot else bit_of bits s)
keep_bits bits slot s =
    if_with (λ (v : ℕ). bit_of bits s ≡ v) (s == slot) (λ e. ap (bit_of bits) ((==_iff s slot).0 e))
      (λ _. refl)

-- A fill that leaves orders at the level, one that empties it, and an order that rests.
module _ (base slot : ℕ) (b : ℕ) (l l' : PriceLevel) where
  IsLevel-fill :
      TakesOne l l'
      → is_empty l ≡ false
      → is_empty l' ≡ false
      → IsLevel base slot b l
      → IsLevel base slot b l'
  unfolding TakesOne IsLevel
  IsLevel-fill (fewer, price) e e' (few, bit, at) = (
    omega arith,
    bit ∙ if_false 0 1 e ∙ sym (if_false 0 1 e'),
    λ _. subst (InSlot base slot) (sym price) (at (ground (arith, e))),
  )

  IsLevel-empty : is_empty l' ≡ true → IsLevel base slot 0 l'
  unfolding IsLevel
  IsLevel-empty e = (ground (arith, e), sym (if_true 0 1 e), λ some. absurd (ground (arith, e)))

pub take_best-IsHalf :
    (base : ℕ) (h : Half) (slot : Option ℕ) (q : ℕ)
    → IsHalf base h
    → IsHalf base (take_best h slot q)
unfolding take_best take_at IsHalf
take_best-IsHalf base h none q ok = ok
take_best-IsHalf base h (some slot) q ok =
    let l = h.levels slot in
    let l' = take_level l q in
    let takes = take_level-TakesOne l q in
    if_with (IsHalf base) (is_empty l) (λ _. ok)
      (λ e.
        if_with (IsHalf base) (is_empty l')
          (λ e'.
            IsHalf-update base slot h l' (clear_bit h.bits slot) 0 ok
              (clear_bit-IsBitmap h.bits slot ok.0) (clear_bit-bit_of h.bits slot)
              (λ _. IsLevel-empty base slot 0 l l' e'))
          (λ e'.
            IsHalf-update base slot h l' h.bits (bit_of h.bits slot) ok ok.0 (keep_bits h.bits slot)
              (λ lt. IsLevel-fill base slot (bit_of h.bits slot) l l' takes e e' (ok.1 slot lt))))

IsLevel-join :
    (base slot : ℕ) (l : PriceLevel) (o : Order)
    → is_full l ≡ false
    → InSlot base slot o.price
    → IsLevel base slot 1 (join l o)
unfolding join IsLevel
IsLevel-join base slot l o room at = (ground (arith, room), ground arith, λ _. at)

pub rest_at-IsHalf :
    (base : ℕ) (h : Half) (slot : ℕ) (o : Order)
    → IsHalf base h
    → InSlot base slot o.price
    → IsHalf base (rest_at h slot o)
unfolding rest_at IsHalf
rest_at-IsHalf base h slot o ok at =
    if_with (IsHalf base) (is_full (h.levels slot)) (λ _. ok)
      (λ room.
        IsHalf-update base slot h (join (h.levels slot) o) (set_bit h.bits slot) 1 ok
          (set_bit-IsBitmap h.bits slot ok.0) (set_bit-bit_of h.bits slot)
          (λ _. IsLevel-join base slot (h.levels slot) o room at))
