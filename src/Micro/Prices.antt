-- ===== src/Micro/Prices.antt =====
-- What `on_book` makes of the prices of a book.
use native.Mathlib.Nat.{mul-le-mul_right, le-div_iff_mul-le, div-le_of_le-mul}
use tickpipe.Base.{
  ℕ, ◌+◌, ◌*◌, ◌≤◌, ◌<◌, ◌≡◌, refl, sym, ap, ◌∙◌, inl, inr, true, false, ◌==◌, Bool-cases, arith,
  subst, ◌||◌, leb, pos, ◌-ℤ◌, ◌+ℤ◌, if_both, if_true, if_false,
}
use tickpipe.Micro.{
  Microstructure, Metrics, microprice, on_book, price_update, flow_update, add_return, imbalance,
}

microprice_low :
    (bid_px bid_qty ask_px ask_qty : ℕ)
    → bid_px ≤ ask_px
    → 0 < bid_qty + ask_qty
    → bid_px * 10000 ≤ microprice bid_px bid_qty ask_px ask_qty
unfolding microprice
microprice_low bid_px bid_qty ask_px ask_qty h n =
    let wide = mul-le-mul_right bid_qty h in (le-div_iff_mul-le n).1 (grind (arith, wide))

microprice_high :
    (bid_px bid_qty ask_px ask_qty : ℕ)
    → bid_px ≤ ask_px
    → 0 < bid_qty + ask_qty
    → microprice bid_px bid_qty ask_px ask_qty ≤ ask_px * 10000
unfolding microprice
microprice_high bid_px bid_qty ask_px ask_qty h n =
    let wide = mul-le-mul_right ask_qty h in
    div-le_of_le-mul (bid_qty + ask_qty) (grind (arith, wide))

-- The prices that a state shows, between two prices of the feed.
pub record Shows (bid_px ask_px : ℕ) (m : Metrics) : Type 0 where
  pub price : ℕ
  pub microprice : m.microprice_1e8 ≡ pos price
  pub low : bid_px * 10000 ≤ price
  pub high : price ≤ ask_px * 10000
  pub mid : m.mid_1e8 ≡ pos ((bid_px + ask_px) * 5000)
  pub gap : m.micro_minus_mid_1e8 ≡ pos price -ℤ pos ((bid_px + ask_px) * 5000)

price_update_lem :
    (s : Microstructure) (bid_px bid_qty ask_px ask_qty : ℕ)
    → bid_px ≤ ask_px
    → 0 < bid_qty + ask_qty
    → Shows bid_px ask_px (price_update s bid_px bid_qty ask_px ask_qty).m
unfolding price_update
price_update_lem s bid_px bid_qty ask_px ask_qty h n = record {
  price = microprice bid_px bid_qty ask_px ask_qty;
  microprice = refl;
  low = microprice_low bid_px bid_qty ask_px ask_qty h n;
  high = microprice_high bid_px bid_qty ask_px ask_qty h n;
  mid = refl;
  gap = refl;
}

-- The flow part of an update leaves the prices alone.
Shows-add_return :
    {bid_px ask_px : ℕ} (s : Microstructure) (mid_x2 : ℕ)
    → Shows bid_px ask_px s.m
    → Shows bid_px ask_px (add_return s mid_x2).m
unfolding add_return
Shows-add_return s mid_x2 h = record {
  price = h.price;
  microprice = h.microprice;
  low = h.low;
  high = h.high;
  mid = h.mid;
  gap = h.gap;
}

Shows-flow_update :
    {bid_px ask_px : ℕ} (s : Microstructure) (b bq a aq : ℕ)
    → Shows bid_px ask_px s.m
    → Shows bid_px ask_px (flow_update s b bq a aq).m
unfolding flow_update
Shows-flow_update {bid_px} {ask_px} s b bq a aq h =
    let P : Microstructure → Type 0 = λ t. Shows bid_px ask_px t.m in
    let counted = record s { m = record (s.m) { ofi = s.m.ofi +ℤ imbalance s b bq a aq } } in
    let kept : P counted = record {
      price = h.price;
      microprice = h.microprice;
      low = h.low;
      high = h.high;
      mid = h.mid;
      gap = h.gap;
    } in
    if_both P s.have_prev (if_both P _ (Shows-add_return counted (b + a) kept) kept) h

flow_update-have_prev :
    (s : Microstructure) (b bq a aq : ℕ) → (flow_update s b bq a aq).have_prev ≡ true
unfolding flow_update add_return
flow_update-have_prev s b bq a aq = elim (Bool-cases s.have_prev) [
  | inl h ↦
      ap (λ (t : Microstructure). t.have_prev) (if_true _ _ h)
      ∙ if_both (λ (t : Microstructure). t.have_prev ≡ true) _ h h
  | inr h ↦ ap (λ (t : Microstructure). t.have_prev) (if_false _ _ h)
]

pub on_book_lem :
    (s : Microstructure) (bid_px bid_qty ask_px ask_qty : ℕ)
    → 0 < bid_px
    → 0 < bid_qty
    → 0 < ask_qty
    → bid_px < ask_px
    → (Shows bid_px ask_px (on_book s bid_px bid_qty ask_px ask_qty).m
        × ((on_book s bid_px bid_qty ask_px ask_qty).pb ≡ bid_px)
        × ((on_book s bid_px bid_qty ask_px ask_qty).pa ≡ ask_px)
        × ((on_book s bid_px bid_qty ask_px ask_qty).have_prev ≡ true))
unfolding on_book
on_book_lem s bid_px bid_qty ask_px ask_qty b q a h =
    let s1 = price_update s bid_px bid_qty ask_px ask_qty in
    let shows =
      Shows-flow_update s1 bid_px bid_qty ask_px ask_qty
        (price_update_lem s bid_px bid_qty ask_px ask_qty (omega arith) (omega arith)) in
    let prev = flow_update-have_prev s1 bid_px bid_qty ask_px ask_qty in
    let two_sided : (bid_px == 0 || ask_px == 0 || bid_qty == 0 || ask_qty == 0) ≡ false =
      ground arith in
    let uncrossed : leb ask_px bid_px ≡ false = ground arith in
    subst
      (λ (t : Microstructure).
        Shows bid_px ask_px t.m × (t.pb ≡ bid_px) × (t.pa ≡ ask_px) × (t.have_prev ≡ true))
      (sym (if_false _ _ two_sided ∙ if_false _ _ uncrossed)) (shows, refl, refl, prev)
