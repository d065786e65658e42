-- ===== src/Risk/Trading.antt =====
-- The risk engine over a run of orders, their fills and reference prices.
use tickpipe.Base.{
  ℕ, ◌≤◌, ◌≡◌, refl, true, ◌||◌, List, [], ◌∷◌, ltb, leb, ◌==◌, if◌then◌else◌, if_both, if_with,
  not_both, ltb_ℤ, pos, ◌+ℤ◌, ◌-ℤ◌,
}
use tickpipe.Itch.Order.{Order}
use tickpipe.Risk.{
  RiskResult, accepted, exceeds_max_size, exceeds_position, price_out_of_band, invalid_order,
  RiskEngine, max_order_size, max_price_band, max_net_position, find_or_create, reject, distance,
  signed_quantity, check_position, check_entry, check, on_fill, set_reference_price,
}
use tickpipe.Risk.Limits.{IsValid, find_or_create_lem}
use tickpipe.Risk.Accept.{is_accepted}
use tickpipe.Risk.Exposure.{InLimits, find_or_create-InLimits, check-on_fill-InLimits}

-- A call from outside: an order to check, with the shares that it is filled for before the next
-- call if it is accepted, or a new reference price.
pub data Event : Type 0 where
  order_event : Order → ℕ → Event
  price_event : List ℕ → ℕ → Event

unfoldable pub trade : RiskEngine → Order → ℕ → RiskEngine
trade r o q =
    let (why, r') = check r o in if is_accepted why then on_fill r' o.stock o.side q else r'

unfoldable pub run : RiskEngine → List Event → RiskEngine
run r [] = r
run r (order_event o q ∷ es) = run (trade r o q) es
run r (price_event stock price ∷ es) = run (set_reference_price r stock price) es

-- No order is filled for more shares than it is for.
abbrev pub AreFills : List Event → Type 0
AreFills [] = Unit
AreFills (order_event o q ∷ es) = (q ≤ o.quantity) × AreFills es
AreFills (price_event stock price ∷ es) = AreFills es

pub record IsSafe (r : RiskEngine) : Type 0 where
  pub valid : IsValid r
  pub limits : InLimits r

After : RiskResult × RiskEngine → Type 0
After (why, r) = IsSafe r

rejected-IsSafe : (why : RiskResult) (r : RiskEngine) → IsSafe r → After (reject why r)
unfolding After InLimits
rejected-IsSafe why r s = record { valid = record { few = s.valid.few }; limits = s.limits }

check_position-IsSafe :
    (r : RiskEngine) (idx : ℕ) (o : Order) → IsSafe r → After (check_position r idx o)
unfolding After check_position InLimits
check_position-IsSafe r idx o s =
    let projected = (r.positions idx).net_position +ℤ signed_quantity o in
    if_both After
      (ltb_ℤ (pos max_net_position) projected || ltb_ℤ projected (pos 0 -ℤ pos max_net_position))
      (rejected-IsSafe exceeds_position r s)
      (record { valid = record { few = s.valid.few }; limits = s.limits })

check_entry-IsSafe : (r : RiskEngine) (idx : ℕ) (o : Order) → IsSafe r → After (check_entry r idx o)
unfolding check_entry
check_entry-IsSafe r idx o s =
    let ref = r.ref_prices idx in
    if_both After (ltb 0 ref)
      (if_both After (leb max_price_band (distance o.price ref))
        (rejected-IsSafe price_out_of_band r s) (check_position-IsSafe r idx o s))
      (check_position-IsSafe r idx o s)

find_or_create-IsSafe :
    (r : RiskEngine) (stock : List ℕ) → IsSafe r → IsSafe (find_or_create r stock).1
find_or_create-IsSafe r stock s = record {
  valid = (find_or_create_lem stock s.valid).valid;
  limits = find_or_create-InLimits stock s.valid s.limits;
}

check-IsSafe : (r : RiskEngine) (o : Order) → IsSafe r → After (check r o)
unfolding check
check-IsSafe r o s =
    if_both After (o.quantity == 0 || o.price == 0) (rejected-IsSafe invalid_order r s) (
      if_both After (ltb max_order_size o.quantity) (rejected-IsSafe exceeds_max_size r s)
        (check_entry-IsSafe _ _ o (find_or_create-IsSafe r o.stock s)))

on_fill-IsValid :
    (r : RiskEngine) (o : Order) (q : ℕ) → IsValid r → IsValid (on_fill r o.stock o.side q)
unfolding on_fill
on_fill-IsValid r o q v = record { few = (find_or_create_lem o.stock v).valid.few }

accepted_lem : (why : RiskResult) → is_accepted why ≡ true → why ≡ accepted
unfolding is_accepted
accepted_lem accepted h = refl
accepted_lem exceeds_max_size h = absurd (not_both h refl)
accepted_lem exceeds_position h = absurd (not_both h refl)
accepted_lem price_out_of_band h = absurd (not_both h refl)
accepted_lem invalid_order h = absurd (not_both h refl)

trade-IsSafe :
    (r : RiskEngine) (o : Order) (q : ℕ) → q ≤ o.quantity → IsSafe r → IsSafe (trade r o q)
unfolding trade After
trade-IsSafe r o q le s =
    let checked = check-IsSafe r o s in
    if_with IsSafe (is_accepted (check r o).0)
      (λ yes. record {
        valid = on_fill-IsValid (check r o).1 o q checked.valid;
        limits = check-on_fill-InLimits o q s.valid s.limits (accepted_lem (check r o).0 yes) le;
      })
      (λ no. checked)

set_reference_price-IsSafe :
    (r : RiskEngine) (stock : List ℕ) (price : ℕ)
    → IsSafe r
    → IsSafe (set_reference_price r stock price)
unfolding set_reference_price InLimits
set_reference_price-IsSafe r stock price s =
    let f = find_or_create-IsSafe r stock s in
    record { valid = record { few = f.valid.few }; limits = f.limits }

-- A run of orders and reference prices, in which each accepted order is filled for at most its
-- shares before the next call, keeps the engine safe: at most 128 instruments are in use, and all
-- positions are within the limit.
pub run-IsSafe : (es : List Event) (r : RiskEngine) → AreFills es → IsSafe r → IsSafe (run r es)
unfolding run
run-IsSafe [] r fills s = s
run-IsSafe (order_event o q ∷ es) r (le, fills) s =
    run-IsSafe es (trade r o q) fills (trade-IsSafe r o q le s)
run-IsSafe (price_event stock price ∷ es) r fills s =
    run-IsSafe es (set_reference_price r stock price) fills
      (set_reference_price-IsSafe r stock price s)
