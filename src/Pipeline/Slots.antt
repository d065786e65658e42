-- ===== src/Pipeline/Slots.antt =====
-- The price window and the bitmaps of include/pipeline.hpp. -1 for a slot is `none`.
pub mod Bits
pub mod Encode
use tickpipe.Base.{
  ℕ, zero, suc, ◌+◌, ◌-◌, ◌*◌, ◌/◌, ◌%◌, ◌^◌, Bool, true, false, Option, none, some, bit_and,
  bit_or, ltb, ◌==◌, if◌then◌else◌, update, inc64,
}

abbrev pub tick : ℕ
tick = 100

abbrev pub ladder_slots : ℕ
ladder_slots = 2048

abbrev pub bitmap_words : ℕ
bitmap_words = 32

-- `base_price_`, `base_set_` and `window_misses_`.
pub record Window : Type 0 where
  pub base_price : ℕ
  pub base_set : Bool
  pub window_misses : ℕ

-- The window is centred on the first price seen.
unfoldable pub centred : Window → ℕ → Window
centred w price =
    let half = 1024 * tick in
    if w.base_set
    then w
    else record w { base_price = if ltb half price then price - half else 0; base_set = true }

unfoldable pub slot_in : Window → ℕ → Option ℕ
slot_in w price =
    let off = (price - w.base_price) / tick in
    if ltb price w.base_price then none else if ltb off ladder_slots then some off else none

unfoldable pub slot_of : Window → ℕ → Option ℕ × Window
slot_of w price = let w' = centred w price in (slot_in w' price, w')

abbrev pub Bitmap : Type 0
Bitmap = ℕ → ℕ

unfoldable pub set_bit : Bitmap → ℕ → Bitmap
set_bit bits slot = let w = slot / 2 ^ 6 in update bits w (bit_or (bits w) (2 ^ bit_and slot 63))

-- `~x` of a 64-bit word is `2 ^ 64 - 1 - x`.
unfoldable pub clear_bit : Bitmap → ℕ → Bitmap
clear_bit bits slot =
    let w = slot / 2 ^ 6 in update bits w (bit_and (bits w) (2 ^ 64 - 1 - 2 ^ bit_and slot 63))

-- The zeros of a word from bit `n - 1` down, and those from bit `i` up, `left` bits to look at.
unfoldable pub leading_zeros : ℕ → ℕ → ℕ
leading_zeros zero w = 0
leading_zeros (suc i) w = let rest = leading_zeros i w in if w / 2 ^ i % 2 == 1 then 0 else suc rest

unfoldable pub trailing_zeros : ℕ → ℕ → ℕ → ℕ
trailing_zeros zero i w = 0
trailing_zeros (suc left) i w =
    let rest = trailing_zeros left (i + 1) w in if w / 2 ^ i % 2 == 1 then 0 else suc rest

-- `__builtin_clzll` and `__builtin_ctzll`
unfoldable pub clzll : ℕ → ℕ
clzll w = leading_zeros 64 w

unfoldable pub ctzll : ℕ → ℕ
ctzll w = trailing_zeros 64 0 w

-- The loop of `top_slot`, with the words below `n` to look at.
unfoldable pub top_loop : ℕ → Bitmap → Option ℕ
top_loop zero bits = none
top_loop (suc w) bits =
    let rest = top_loop w bits in
    if bits w == 0 then rest else some (w * 2 ^ 6 + (63 - clzll (bits w)))

unfoldable pub top_slot : Bitmap → Option ℕ
top_slot bits = top_loop bitmap_words bits

-- The loop of `bottom_slot`, with `left` words to look at from `w` on.
unfoldable pub bottom_loop : ℕ → ℕ → Bitmap → Option ℕ
bottom_loop zero w bits = none
bottom_loop (suc left) w bits =
    let rest = bottom_loop left (w + 1) bits in
    if bits w == 0 then rest else some (w * 2 ^ 6 + ctzll (bits w))

unfoldable pub bottom_slot : Bitmap → Option ℕ
bottom_slot bits = bottom_loop bitmap_words 0 bits
