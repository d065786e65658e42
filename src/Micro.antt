-- ===== src/Micro.antt =====
-- Market microstructure metrics: include/microstructure.hpp and src/microstructure.cpp.
-- `__int128` intermediates are integers; the casts to 64 bits are written out.
pub mod Root
pub mod Prices
mod Tests
use tickpipe.Base.{
  ℕ, zero, suc, ◌+◌, ◌-◌, ◌*◌, ◌/◌, ◌%◌, ◌^◌, Bool, true, false, ◌||◌, ◌&&◌, not, bit_and, bit_or,
  ltb, leb, ◌==◌, if◌then◌else◌, u64, inc64, ℤ, pos, negsuc, pos_part, neg_part, sub_ℕ, ◌+ℤ◌, ◌-ℤ◌,
  ◌*ℤ◌, ◌/ℤ◌, ltb_ℤ,
}

pub record Metrics : Type 0 where
  pub microprice_1e8 : ℤ
  pub mid_1e8 : ℤ
  pub micro_minus_mid_1e8 : ℤ
  pub ofi : ℤ
  pub effective_spread_sum_1e4 : ℕ
  pub effective_spread_n : ℕ
  pub realized_vol_1e9 : ℕ
  pub return_samples : ℕ
  pub kyle_lambda_1e12 : ℤ
  pub book_updates : ℕ
  pub trades : ℕ
  pub degenerate_books : ℕ

-- `prev_mid_1e4_x2_` and `prev_trade_mid_x2_` hold 0 or a sum of two prices.
pub record Microstructure : Type 0 where
  pub m : Metrics
  pub pb : ℕ
  pub qb : ℕ
  pub pa : ℕ
  pub qa : ℕ
  pub have_prev : Bool
  pub sum_sq_ret : ℕ
  pub sum_dp_v : ℤ
  pub sum_v_sq : ℕ
  pub prev_mid_x2 : ℕ
  pub prev_trade_mid_x2 : ℕ

unfoldable pub reset : Microstructure
reset = record {
  m = record {
    microprice_1e8 = pos 0;
    mid_1e8 = pos 0;
    micro_minus_mid_1e8 = pos 0;
    ofi = pos 0;
    effective_spread_sum_1e4 = 0;
    effective_spread_n = 0;
    realized_vol_1e9 = 0;
    return_samples = 0;
    kyle_lambda_1e12 = pos 0;
    book_updates = 0;
    trades = 0;
    degenerate_books = 0;
  };
  pb = 0;
  qb = 0;
  pa = 0;
  qa = 0;
  have_prev = false;
  sum_sq_ret = 0;
  sum_dp_v = pos 0;
  sum_v_sq = 0;
  prev_mid_x2 = 0;
  prev_trade_mid_x2 = 0;
}

-- The 64-bit pattern of an integer, and the integer that a pattern stands for.
abbrev pub bits64 : ℤ → ℕ
bits64 (pos n) = n % 2 ^ 64
bits64 (negsuc n) = 2 ^ 64 - 1 - n % 2 ^ 64

-- `static_cast<int64_t>`
unfoldable pub to_int64 : ℤ → ℤ
to_int64 a = let w = bits64 a in if ltb w (2 ^ 63) then pos w else negsuc (2 ^ 64 - w - 1)

unfoldable pub log1p_1e12 : ℤ → ℤ
log1p_1e12 x =
    let scale : ℕ = 1_000_000_000_000 in
    let x2 = x *ℤ x /ℤ scale in
    let x3 = x2 *ℤ x /ℤ scale in
    let x4 = x3 *ℤ x /ℤ scale in to_int64 (x -ℤ x2 /ℤ 2 +ℤ x3 /ℤ 3 -ℤ x4 /ℤ 4)

abbrev pub u128 : ℕ → ℕ
u128 n = n % 2 ^ 128

-- The loop of `isqrt128`; `n` is `i + 1`.
unfoldable pub isqrt_loop : ℕ → ℕ → ℕ → ℕ → ℕ
isqrt_loop zero v rem root = root
isqrt_loop (suc i) v rem root =
    let root1 = u128 (root * 2) in
    let rem1 = bit_or (u128 (rem * 2 ^ 2)) (bit_and (v / 2 ^ (i * 2)) 3) in
    let taken = isqrt_loop i v (rem1 - bit_or root1 1) (bit_or root1 2) in
    let kept = isqrt_loop i v rem1 root1 in if ltb root1 rem1 then taken else kept

unfoldable pub isqrt128 : ℕ → ℕ
isqrt128 v = if v == 0 then 0 else u64 (isqrt_loop 64 v 0 0 / 2)

-- The order flow imbalance of one update.
unfoldable pub imbalance : Microstructure → ℕ → ℕ → ℕ → ℕ → ℤ
imbalance s bid_px bid_qty ask_px ask_qty =
    let e1 = if leb s.pb bid_px then pos 0 +ℤ pos bid_qty else pos 0 in
    let e2 = if leb bid_px s.pb then e1 -ℤ pos s.qb else e1 in
    let e3 = if leb ask_px s.pa then e2 -ℤ pos ask_qty else e2 in
    if leb s.pa ask_px then e3 +ℤ pos s.qa else e3

-- The return of one update enters the realized volatility.
unfoldable pub add_return : Microstructure → ℕ → Microstructure
add_return s mid_x2 =
    let d = pos mid_x2 -ℤ pos s.prev_mid_x2 in
    let x = to_int64 (d *ℤ pos 1_000_000_000_000 /ℤ s.prev_mid_x2) in
    let r = log1p_1e12 x in
    let sum = u128 (s.sum_sq_ret + pos_part (r *ℤ r)) in
    record s {
      sum_sq_ret = sum;
      m = record (s.m) {
        return_samples = inc64 s.m.return_samples;
        realized_vol_1e9 = isqrt128 sum / 1000;
      };
    }

-- The microprice, as the division gives it.
unfoldable pub microprice : ℕ → ℕ → ℕ → ℕ → ℕ
microprice bid_px bid_qty ask_px ask_qty =
    (bid_px * ask_qty + ask_px * bid_qty) * 10000 / (bid_qty + ask_qty)

-- The update of a two-sided, uncrossed book, before the new top of book is kept.
unfoldable pub price_update : Microstructure → ℕ → ℕ → ℕ → ℕ → Microstructure
price_update s bid_px bid_qty ask_px ask_qty =
    let micro = pos (microprice bid_px bid_qty ask_px ask_qty) in
    let mid = pos ((bid_px + ask_px) * 5000) in
    record s {
      m = record (s.m) {
        book_updates = inc64 s.m.book_updates;
        microprice_1e8 = micro;
        mid_1e8 = mid;
        micro_minus_mid_1e8 = micro -ℤ mid;
      };
    }

-- `if (have_prev_) { … } else { … }`
unfoldable pub flow_update : Microstructure → ℕ → ℕ → ℕ → ℕ → Microstructure
flow_update s bid_px bid_qty ask_px ask_qty =
    let mid_x2 = bid_px + ask_px in
    let e = imbalance s bid_px bid_qty ask_px ask_qty in
    let s1 = record s { m = record (s.m) { ofi = s.m.ofi +ℤ e } } in
    let s2 =
      if ltb 0 s.prev_mid_x2 && not (mid_x2 == s.prev_mid_x2) then add_return s1 mid_x2 else s1 in
    if s.have_prev
    then record s2 { prev_mid_x2 = mid_x2 }
    else record s { prev_mid_x2 = mid_x2; have_prev = true }

unfoldable pub on_book : Microstructure → ℕ → ℕ → ℕ → ℕ → Microstructure
on_book s bid_px bid_qty ask_px ask_qty =
    if bid_px == 0 || ask_px == 0 || bid_qty == 0 || ask_qty == 0
    then s
    else if leb ask_px bid_px
    then record s { m = record (s.m) { degenerate_books = inc64 s.m.degenerate_books } }
    else let s1 = price_update s bid_px bid_qty ask_px ask_qty in
      let s2 = flow_update s1 bid_px bid_qty ask_px ask_qty in
      record s2 { pb = bid_px; qb = bid_qty; pa = ask_px; qa = ask_qty }

-- The magnitude of an integer.
abbrev pub magnitude : ℤ → ℕ
magnitude a = pos_part a + neg_part a

-- Kyle's lambda, with the mid of the trade before.
unfoldable pub add_impact : Microstructure → ℕ → ℤ → Microstructure
add_impact s mid_x2 v =
    let dp = pos mid_x2 -ℤ pos s.prev_trade_mid_x2 in
    let sum_dp_v = s.sum_dp_v +ℤ dp *ℤ v in
    let sum_v_sq = u128 (s.sum_v_sq + pos_part (v *ℤ v)) in
    let s1 = record s { sum_dp_v = sum_dp_v; sum_v_sq = sum_v_sq } in
    if ltb 0 sum_v_sq
    then record s1 {
      m = record (s.m) { kyle_lambda_1e12 = to_int64 (sum_dp_v *ℤ pos 50000000 /ℤ sum_v_sq) };
    }
    else s1

-- Twice the distance of the trade price from the mid.
unfoldable pub spread_of : Microstructure → ℕ → ℕ
spread_of s px = magnitude (pos (2 * px) -ℤ pos (s.pb + s.pa))

unfoldable pub on_trade : Microstructure → ℕ → ℕ → Bool → Microstructure
on_trade s px qty buyer_initiated =
    if not s.have_prev || s.pb == 0 || s.pa == 0
    then s
    else let mid_x2 = s.pb + s.pa in
      let v = if buyer_initiated then pos qty else pos 0 -ℤ pos qty in
      let s1 = record s {
        m = record (s.m) {
          trades = inc64 s.m.trades;
          effective_spread_sum_1e4 = u64 (s.m.effective_spread_sum_1e4 + spread_of s px);
          effective_spread_n = inc64 s.m.effective_spread_n;
        };
      } in
      let s2 = if ltb 0 s.prev_trade_mid_x2 then add_impact s1 mid_x2 v else s1 in
      record s2 { prev_trade_mid_x2 = mid_x2 }
