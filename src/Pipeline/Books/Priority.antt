-- ===== src/Pipeline/Books/Priority.antt =====
-- Price priority: what `stage3_match` finds at the opposite side.
use tickpipe.Base.{
  ℕ, ◌≤◌, ◌<◌, ◌≡◌, sym, ap, inl, inr, Bool, true, false, Option, none, some, arith, ◌==◌, leb, ltb,
  ltb→lt, if◌then◌else◌, subst, Bool-cases, ==_iff, ne_of_eq_false, if_false, if_with, not,
}
use tickpipe.Itch.Order.{Order, is_buy}
use tickpipe.Engine.Book.{MatchResult}
use tickpipe.Pipeline.Slots.{ladder_slots, top_slot, bottom_slot}
use tickpipe.Pipeline.Slots.Bits.{bit_of}
use tickpipe.Pipeline.Slots.Encode.{IsHighest, IsLowest, encoders_lem}
use tickpipe.Pipeline.Books.{
  PriceLevel, Half, Books, PipelineRegister, offer, match_buy, match_sell, stage3_match,
}
use tickpipe.Pipeline.Books.Valid.{InSlot, IsLevel, IsHalf}

-- What a level offers: nothing when all levels are empty, else a level with orders and no worse a
-- price than any other with orders.
unfoldable pub IsBestAsk : Half → Option PriceLevel → Type 0
IsBestAsk h none = (s : ℕ) → s < ladder_slots → (h.levels s).count ≡ 0
IsBestAsk h (some l) =
    (0 < l.count)
    × ((s : ℕ) → s < ladder_slots → 0 < (h.levels s).count → l.price ≤ (h.levels s).price)

unfoldable pub IsBestBid : Half → Option PriceLevel → Type 0
IsBestBid h none = (s : ℕ) → s < ladder_slots → (h.levels s).count ≡ 0
IsBestBid h (some l) =
    (0 < l.count)
    × ((s : ℕ) → s < ladder_slots → 0 < (h.levels s).count → (h.levels s).price ≤ l.price)

-- The bit of a slot says whether its level has orders.
module _ (base : ℕ) (h : Half) (s : ℕ) where
  bit_clear : IsHalf base h → s < ladder_slots → bit_of h.bits s ≡ 0 → (h.levels s).count ≡ 0
  unfolding IsHalf IsLevel
  bit_clear (_, levels) lt clear = let (_, bit, _) = levels s lt in ground (arith, bit, clear)

  bit_set : IsHalf base h → s < ladder_slots → bit_of h.bits s ≡ 1 → 0 < (h.levels s).count
  unfolding IsHalf IsLevel
  bit_set (_, levels) lt set = let (_, bit, _) = levels s lt in ground (arith, bit, set)

  price_at :
      IsHalf base h → s < ladder_slots → 0 < (h.levels s).count → InSlot base s (h.levels s).price
  unfolding IsHalf IsLevel
  price_at (_, levels) lt some_count = let (_, _, at) = levels s lt in at some_count

offer-nonempty : (h : Half) (s : ℕ) → 0 < (h.levels s).count → offer h (some s) ≡ some (h.levels s)
unfolding offer
offer-nonempty h s lt = if_false none (some (h.levels s)) (ground arith)

-- Prices order as their slots do.
slots_order :
    (base s t p q : ℕ) → InSlot base s p → InSlot base t q → (s ≡ t → p ≡ q) → s ≤ t → p ≤ q
unfolding InSlot
slots_order base s t p q (ge, at) (ge', at') same le = elim (Bool-cases (s == t)) [
  | inl e ↦ omega (arith, same ((==_iff s t).0 e))
  | inr ne ↦ omega (arith, ne_of_eq_false ne)
]

leb-false : (a b : ℕ) → leb a b ≡ false → b < a
leb-false a b h = ground arith

ask_lem :
    (base : ℕ) (h : Half) (r : Option ℕ)
    → IsHalf base h
    → IsLowest (bit_of h.bits) 0 ladder_slots r
    → IsBestAsk h (offer h r)
unfolding IsLowest IsBestAsk offer
ask_lem base h none ok clear = λ s lt. bit_clear base h s ok lt (clear s (omega arith) lt)
ask_lem base h (some s) ok (_, lt, set, under) =
    let full = bit_set base h s ok lt set in
    subst (IsBestAsk h) (sym (offer-nonempty h s full)) (
      full,
      λ t t_lt t_full. elim (Bool-cases (ltb t s)) [
        | inl below ↦
            let empty = bit_clear base h t ok t_lt (under t (omega arith) (ltb→lt t s below)) in
            absurd (omega arith)
        | inr above ↦
            slots_order base s t (h.levels s).price (h.levels t).price
              (price_at base h s ok lt full) (price_at base h t ok t_lt t_full)
              (ap (λ (i : ℕ). (h.levels i).price)) (ground (arith, above))
      ],
    )

bid_lem :
    (base : ℕ) (h : Half) (r : Option ℕ)
    → IsHalf base h
    → IsHighest (bit_of h.bits) ladder_slots r
    → IsBestBid h (offer h r)
unfolding IsHighest IsBestBid offer
bid_lem base h none ok clear = λ s lt. bit_clear base h s ok lt (clear s lt)
bid_lem base h (some s) ok (lt, set, over) =
    let full = bit_set base h s ok lt set in
    subst (IsBestBid h) (sym (offer-nonempty h s full)) (
      full,
      λ t t_lt t_full. elim (Bool-cases (ltb s t)) [
        | inl above ↦
            let empty = bit_clear base h t ok t_lt (over t (ltb→lt s t above) t_lt) in
            absurd (omega arith)
        | inr below ↦
            slots_order base t s (h.levels t).price (h.levels s).price
              (price_at base h t ok t_lt t_full) (price_at base h s ok lt full)
              (ap (λ (i : ℕ). (h.levels i).price)) (ground (arith, below))
      ],
    )

-- The outcome of an order against one side at a price: matched within the limit at a price that no
-- other level of the side beats, or every price of the side beyond the limit.
unfoldable pub BuyOutcome : Half → Order → ℕ → Bool → Type 0
BuyOutcome h o price true =
    (price ≤ o.price)
    × ((s : ℕ) → s < ladder_slots → 0 < (h.levels s).count → price ≤ (h.levels s).price)
BuyOutcome h o price false =
    (s : ℕ) → s < ladder_slots → 0 < (h.levels s).count → o.price < (h.levels s).price

unfoldable pub SellOutcome : Half → Order → ℕ → Bool → Type 0
SellOutcome h o price true =
    (o.price ≤ price)
    × ((s : ℕ) → s < ladder_slots → 0 < (h.levels s).count → (h.levels s).price ≤ price)
SellOutcome h o price false =
    (s : ℕ) → s < ladder_slots → 0 < (h.levels s).count → (h.levels s).price < o.price

module _ (h : Half) (o : Order) (result : MatchResult) (none_yet : result.matched ≡ false) where
  match_buy-BuyOutcome :
      (r : Option PriceLevel)
      → IsBestAsk h r
      → BuyOutcome h o (match_buy o r result).price (match_buy o r result).matched
  unfolding match_buy BuyOutcome IsBestAsk
  match_buy-BuyOutcome none best =
      subst (BuyOutcome h o result.price) (sym none_yet)
        (λ s lt full. absurd (omega (arith, best s lt)))
  match_buy-BuyOutcome (some ask) (full, best) =
      if_with (λ (m : MatchResult). BuyOutcome h o m.price m.matched) (leb ask.price o.price)
        (λ c. (ground (arith, c), best))
        (λ c.
          subst (BuyOutcome h o result.price) (sym none_yet)
            (λ s lt filled. omega (arith, best s lt filled, leb-false ask.price o.price c)))

  match_sell-SellOutcome :
      (r : Option PriceLevel)
      → IsBestBid h r
      → SellOutcome h o (match_sell o r result).price (match_sell o r result).matched
  unfolding match_sell SellOutcome IsBestBid
  match_sell-SellOutcome none best =
      subst (SellOutcome h o result.price) (sym none_yet)
        (λ s lt full. absurd (omega (arith, best s lt)))
  match_sell-SellOutcome (some bid) (full, best) =
      if_with (λ (m : MatchResult). SellOutcome h o m.price m.matched) (leb o.price bid.price)
        (λ c. (ground (arith, c), best))
        (λ c.
          subst (SellOutcome h o result.price) (sym none_yet)
            (λ s lt filled. omega (arith, best s lt filled, leb-false o.price bid.price c)))

-- What stage 3 leaves for the order of a register, a buy or a sell.
unfoldable pub StageOutcome : Bool → Books → Order → MatchResult → Type 0
StageOutcome true b o r = BuyOutcome b.sells o r.price r.matched
StageOutcome false b o r = SellOutcome b.buys o r.price r.matched

of_side :
    (c : Bool) (b : Books) (o : Order) (x y : PipelineRegister)
    → StageOutcome true b o x.result
    → StageOutcome false b o y.result
    → StageOutcome c b o (if c then x else y).result
of_side true b o x y p q = p
of_side false b o x y p q = q

-- Stage 3 on a valid register without a result, on valid levels: an order that matches gets a
-- price within its limit that no level with orders at the opposite side beats; when it does not
-- match, the price of every level with orders there is beyond its limit.
pub stage3_match-StageOutcome :
    (base : ℕ) (b : Books) (reg : PipelineRegister)
    → IsHalf base b.buys
    → IsHalf base b.sells
    → reg.valid ≡ true
    → reg.result.matched ≡ false
    → StageOutcome (is_buy reg.order.side) b reg.order (stage3_match b reg).result
unfolding stage3_match StageOutcome IsHalf
stage3_match-StageOutcome base b reg buys sells valid none_yet =
    let o = reg.order in
    let best_ask = bottom_slot b.sells.bits in
    let best_bid = top_slot b.buys.bits in
    let buy_reg = record reg {
      stage = 3;
      result = match_buy o (offer b.sells best_ask) reg.result;
    } in
    let sell_reg = record reg {
      stage = 3;
      result = match_sell o (offer b.buys best_bid) reg.result;
    } in
    let chosen : PipelineRegister = if is_buy o.side then buy_reg else sell_reg in
    subst (λ (r : PipelineRegister). StageOutcome (is_buy o.side) b o r.result)
      (sym (if_false (record reg { stage = 3 }) chosen (ap not valid)))
      (of_side (is_buy o.side) b o buy_reg sell_reg
        (match_buy-BuyOutcome b.sells o reg.result none_yet (offer b.sells best_ask)
          (ask_lem base b.sells best_ask sells (encoders_lem b.sells.bits sells.0).1))
        (match_sell-SellOutcome b.buys o reg.result none_yet (offer b.buys best_bid)
          (bid_lem base b.buys best_bid buys (encoders_lem b.buys.bits buys.0).0)))
