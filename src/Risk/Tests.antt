-- ===== src/Risk/Tests.antt =====
-- The risk checks on an empty table.
use tickpipe.Base.{◌≡◌, ◌↔◌, refl, arith, List, [], ◌∷◌, pos, ◌+ℤ◌, ◌-ℤ◌}
use tickpipe.Itch.Order.{Order, empty_order, buy, no_stock, same_stock}
use tickpipe.Risk.{
  RiskEngine, fill, new, accepted, check, on_fill, find_or_create, create, scan, check_entry,
  check_position,
}
use tickpipe.Risk.Limits.{IsValid, Finds, find_or_create_lem}
use tickpipe.Risk.Accept.{Admits, check-accepted_iff}
use tickpipe.Risk.Exposure.{InLimits, InLimit-zero}
use tickpipe.Risk.Trading.{Event, order_event, price_event, run, IsSafe, run-IsSafe}

abbrev order : Order
order = record empty_order { order_ref = 1; quantity = 500; price = 1_502_500; side = buy }

new-IsValid : IsValid new
unfolding new
new-IsValid = record { few = ground arith }

new-InLimits : InLimits new
unfolding new InLimits
new-InLimits = λ k lt. InLimit-zero

order_accepted : (check new order).0 ≡ accepted
unfolding check new find_or_create create scan check_entry check_position ◌+ℤ◌ ◌-ℤ◌
order_accepted = refl

find_or_create_lem_example : Finds new no_stock (find_or_create new no_stock)
find_or_create_lem_example = find_or_create_lem no_stock new-IsValid

check-accepted_iff_example : ((check new order).0 ≡ accepted) ↔ Admits new order
check-accepted_iff_example = check-accepted_iff new order

-- An order that is filled in part, a reference price, and an order far from it.
abbrev events : List Event
events =
    order_event order 300
    ∷ price_event no_stock 1_500_000
    ∷ order_event (record order { price = 9_000_000 }) 500
    ∷ []

new-IsSafe : IsSafe new
new-IsSafe = record { valid = new-IsValid; limits = new-InLimits }

run-IsSafe_example : IsSafe (run new events)
run-IsSafe_example = run-IsSafe events new (ground arith, (omega arith, tt)) new-IsSafe

-- Two orders that are accepted before either is filled take the position out of the limit.
abbrev block : Order
block = record order { quantity = 5_000 }

abbrev long : RiskEngine
long = on_fill new no_stock buy 95_000

both_accepted :
    ((check long block).0 ≡ accepted) × ((check (check long block).1 block).0 ≡ accepted)
unfolding on_fill fill check new find_or_create create scan check_entry check_position same_stock
    ◌+ℤ◌ ◌-ℤ◌
both_accepted = (refl, refl)

out_of_limit :
    let r = (check (check long block).1 block).1 in
    ((on_fill (on_fill r no_stock buy 5_000) no_stock buy 5_000).positions 0).net_position
    ≡ pos 105_000
unfolding on_fill fill check new find_or_create create scan check_entry check_position same_stock
    ◌+ℤ◌ ◌-ℤ◌
out_of_limit = refl
