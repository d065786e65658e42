-- ===== src/Pipeline/Clock/Valid.antt =====
-- Every clock keeps the levels, the bitmaps and the orders in flight in agreement.
use tickpipe.Base.{
  ℕ, ◌%◌, ◌<◌, ◌≡◌, refl, sym, inl, inr, Bool, true, false, Option, some, List, [], ◌∷◌, arith,
  subst, Bool-cases, Option-cases, if_true, if_with, if_both, not, not_both, inc64,
}
use tickpipe.Itch.Order.{Order, empty_order, is_buy}
use tickpipe.Pipeline.Slots.{ladder_slots, Window, centred, slot_in, slot_of, top_slot, bottom_slot}
use tickpipe.Pipeline.Slots.Bits.{IsBitmap, no_bit}
use tickpipe.Pipeline.Books.{
  PriceLevel, clear, Half, Books, PipelineRegister, stage3_match, execute, stage4_execute,
}
use tickpipe.Pipeline.Books.Valid.{InSlot, IsLevel, IsHalf, take_best-IsHalf, rest_at-IsHalf}
use tickpipe.Pipeline.Clock.{FpgaPipeline, new, routed, stage2_route, clock, flush}
use tickpipe.Pipeline.Clock.Sequential.{run}

abbrev IsEmptyHalf : Half → Type 0
IsEmptyHalf h = (s : ℕ) → s < ladder_slots → (h.levels s).count ≡ 0

-- The levels of a window; they are empty until the window is centred.
unfoldable pub IsBooks : Window → Books → Type 0
IsBooks w b =
    IsHalf w.base_price b.buys
    × IsHalf w.base_price b.sells
    × (w.base_set ≡ false → IsEmptyHalf b.buys × IsEmptyHalf b.sells)

-- The order of a register past stage 2 has its slot.
unfoldable pub IsRouted : Window → PipelineRegister → Type 0
IsRouted w reg =
    reg.valid ≡ true → (w.base_set ≡ true) × InSlot w.base_price reg.level_index reg.order.price

unfoldable pub IsPipeline : FpgaPipeline → Type 0
IsPipeline p =
    IsBooks p.window p.books × IsRouted p.window (p.stages 2) × IsRouted p.window (p.stages 3)

-- A window that is centred stays where it is.
unfoldable StaysCentred : Window → Window → Type 0
StaysCentred w w' = w.base_set ≡ true → (w'.base_set ≡ true) × (w'.base_price ≡ w.base_price)

not-true : {b : Bool} → not b ≡ true → b ≡ false
not-true h = ground arith

not-false : {b : Bool} → not b ≡ false → b ≡ true
not-false h = ground arith

execute-IsBooks :
    (w : Window) (b : Books) (reg : PipelineRegister)
    → reg.valid ≡ true
    → IsRouted w reg
    → IsBooks w b
    → IsBooks w (execute b reg)
unfolding execute IsBooks IsRouted
execute-IsBooks w b reg valid routed_reg (buys, sells, unset) =
    let (set, at) = routed_reg valid in
    let base = w.base_price in
    let o = reg.order in
    let books : (n : ℕ) (hb hs : Half)
        → IsHalf base hb
        → IsHalf base hs
        → IsBooks w (record { buys = hb; sells = hs; matches_made = n }) =
      λ n hb hs buys' sells'. (buys', sells', λ clear. absurd (not_both set clear)) in
    let q = reg.result.quantity in
    let n = inc64 b.matches_made in
    if_both (IsBooks w) reg.result.matched
      (if_both (IsBooks w) (is_buy o.side)
        (books n b.buys _ buys (take_best-IsHalf base b.sells (bottom_slot b.sells.bits) q sells))
        (books n _ b.sells (take_best-IsHalf base b.buys (top_slot b.buys.bits) q buys) sells))
      (if_both (IsBooks w) (is_buy o.side)
        (books b.matches_made _ b.sells (rest_at-IsHalf base b.buys reg.level_index o buys at)
          sells)
        (books b.matches_made b.buys _ buys
          (rest_at-IsHalf base b.sells reg.level_index o sells at)))

stage4-IsBooks :
    (w : Window) (b : Books) (reg : PipelineRegister)
    → IsRouted w reg
    → IsBooks w b
    → IsBooks w (stage4_execute b reg).1
unfolding stage4_execute
stage4-IsBooks w b reg routed_reg ok =
    if_with (λ (r : PipelineRegister × Books). IsBooks w r.1) (not reg.valid) (λ _. ok)
      (λ v. execute-IsBooks w b reg (not-false v) routed_reg ok)

stage3-IsRouted :
    (w : Window) (b : Books) (reg : PipelineRegister)
    → IsRouted w reg
    → IsRouted w (stage3_match b reg)
unfolding stage3_match IsRouted
stage3-IsRouted w b reg h =
    if_both (IsRouted w) (not reg.valid) h (if_both (IsRouted w) (is_buy reg.order.side) h h)

slot_in-InSlot : (w : Window) (price s : ℕ) → slot_in w price ≡ some s → InSlot w.base_price s price
unfolding slot_in InSlot
slot_in-InSlot w price s e = ground (arith, e)

centred_lem :
    (w : Window) (price : ℕ)
    → ((centred w price).base_set ≡ true) × StaysCentred w (centred w price)
unfolding centred StaysCentred
centred_lem w price = (
  if_with (λ (v : Window). v.base_set ≡ true) w.base_set (λ e. e) (λ _. refl),
  λ e.
      subst (λ (v : Window). (v.base_set ≡ true) × (v.base_price ≡ w.base_price))
        (sym (if_true _ _ e)) (e, refl),
)

stage2_lem :
    (w : Window) (reg : PipelineRegister)
    → let (r, w') = stage2_route w reg in IsRouted w' r × StaysCentred w w'
unfolding stage2_route slot_of routed IsRouted StaysCentred
stage2_lem w reg =
    if_with (λ (r : PipelineRegister × Window). IsRouted r.1 r.0 × StaysCentred w r.1)
      (not reg.valid) (λ v. (λ valid. absurd (not_both valid (not-true v)), λ e. (e, refl)))
      (λ v.
        let price = reg.order.price in
        let (set, stays) = centred_lem w price in
        let found = slot_in (centred w price) price in
        elim (Option-cases found) [
          | inl none_found ↦
              subst
                (λ (s : Option ℕ).
                  let r = routed (record reg { stage = 2 }) (s, centred w price) in
                  IsRouted r.1 r.0 × StaysCentred w r.1)
                (sym none_found) (λ no. absurd (not_both no refl), stays)
          | inr (s, e) ↦
              subst
                (λ (s : Option ℕ).
                  let r = routed (record reg { stage = 2 }) (s, centred w price) in
                  IsRouted r.1 r.0 × StaysCentred w r.1)
                (sym e) (λ _. (set, slot_in-InSlot (centred w price) price s e), stays)
        ])

IsHalf-rebase : (base base' : ℕ) (h : Half) → IsEmptyHalf h → IsHalf base h → IsHalf base' h
unfolding IsHalf IsLevel
IsHalf-rebase base base' h empty (bitmap, levels) = (
  bitmap,
  λ s lt.
      let (few, bit, _) = levels s lt in
      (few, bit, λ some_count. absurd (omega (arith, empty s lt))),
)

IsBooks-window : (w w' : Window) (b : Books) → StaysCentred w w' → IsBooks w b → IsBooks w' b
unfolding IsBooks StaysCentred
IsBooks-window w w' b stays (buys, sells, unset) = elim (Bool-cases w.base_set) [
  | inl set ↦
      let (set', same) = stays set in
      let at : (h : Half) → IsHalf w.base_price h → IsHalf w'.base_price h =
        λ h. subst (λ (base : ℕ). IsHalf base h) (sym same) in
      (at b.buys buys, at b.sells sells, λ clear. absurd (not_both set' clear))
  | inr not_set ↦
      let (no_buys, no_sells) = unset not_set in
      (
        IsHalf-rebase w.base_price w'.base_price b.buys no_buys buys,
        IsHalf-rebase w.base_price w'.base_price b.sells no_sells sells,
        λ _. (no_buys, no_sells),
      )
]

IsRouted-window :
    (w w' : Window) (reg : PipelineRegister) → StaysCentred w w' → IsRouted w reg → IsRouted w' reg
unfolding IsRouted StaysCentred
IsRouted-window w w' reg stays h v =
    let (set, at) = h v in
    let (set', same) = stays set in
    (set', subst (λ (base : ℕ). InSlot base reg.level_index reg.order.price) (sym same) at)

-- A clock keeps the pipeline valid, whatever order comes in: at both sides a bit of the map is set
-- exactly when its level has orders, no level has more than 16, the price of a level lies in its
-- slot of the window, and an order past stage 2 has the slot of its price.
pub clock-IsPipeline : (p : FpgaPipeline) (o : Order) → IsPipeline p → IsPipeline (clock p o).1
unfolding IsPipeline clock
clock-IsPipeline p o (books, routed2, routed3) =
    let w = p.window in
    let b' = (stage4_execute p.books (p.stages 3)).1 in
    let (routed', stays) = stage2_lem w (p.stages 1) in
    let w' = (stage2_route w (p.stages 1)).1 in
    (
      IsBooks-window w w' b' stays (stage4-IsBooks w p.books (p.stages 3) routed3 books),
      routed',
      IsRouted-window w w' (stage3_match b' (p.stages 2)) stays
          (stage3-IsRouted w b' (p.stages 2) routed2),
    )

-- A new pipeline is valid.
new-IsPipeline : (buys sells : ℕ → PriceLevel) → IsPipeline (new buys sells)
unfolding new IsPipeline IsBooks IsHalf IsLevel IsRouted clear IsBitmap
new-IsPipeline buys sells =
    let half : (ls : ℕ → PriceLevel)
        → IsHalf 0 (record { levels = λ i. clear (ls i); bits = λ _. 0 }) =
      λ ls. (
        λ w. omega arith,
        λ s lt. (omega arith, no_bit (s % 64), λ some_count. absurd (omega arith)),
      ) in
    (
      (half buys, half sells, λ _. (λ s lt. refl, λ s lt. refl)),
      λ no. absurd (not_both no refl),
      λ no. absurd (not_both no refl),
    )

-- So is it after any orders.
pub run-IsPipeline : (p : FpgaPipeline) (os : List Order) → IsPipeline p → IsPipeline (run p os).1
unfolding run
run-IsPipeline p [] ok = ok
run-IsPipeline p (o ∷ os) ok = run-IsPipeline (clock p o).1 os (clock-IsPipeline p o ok)

-- A new pipeline that took any orders is valid, also after a flush: at both sides the bit of a
-- slot is set exactly when its level has orders, no level has more than 16, the price of a level
-- with orders lies in its slot of the window, an order past stage 2 has the slot of its price,
-- and nothing rests before the window is centred.
pub flush-IsPipeline :
    (buys sells : ℕ → PriceLevel) (os : List Order)
    → let p = (run (new buys sells) os).1 in IsPipeline p × IsPipeline (flush p).1
unfolding flush run
flush-IsPipeline buys sells os =
    let p = (run (new buys sells) os).1 in
    let ok = run-IsPipeline (new buys sells) os (new-IsPipeline buys sells) in
    (
      ok,
      run-IsPipeline p (empty_order ∷ empty_order ∷ empty_order ∷ empty_order ∷ empty_order ∷ [])
          ok,
    )
