-- ===== src/Book/Table/New.antt =====
-- The table that the constructor and `reset` build.
use tickpipe.Base.{ℕ, ◌≡◌, refl, none, arith}
use native.Mathlib.Nat.{one-le-pow}
use tickpipe.Book.Table.{Book, RestingOrder, new, reset}
use tickpipe.Book.Table.Invariant.{IsValid}
use tickpipe.Book.Table.Lookup.{view, view-absent}

-- The constructor builds a valid table in which no reference has an order.
pub new-IsValid : (slots : ℕ → RestingOrder) (p : ℕ) → IsValid (new slots p)
unfolding new
new-IsValid slots p = record {
  masked = record {
    power = p;
    capacity = refl;
    mask = refl;
    nonempty = one-le-pow p 2 (omega arith);
  };
  placed = λ i h o. cc (o);
  unique = λ i j h k o. cc (o);
}

pub view-new : (slots : ℕ → RestingOrder) (p ref : ℕ) → view (new slots p) ref ≡ none
unfolding new
view-new slots p ref = view-absent _ (new-IsValid slots p).masked ref (λ i h k. cc (k.0))

-- `reset` makes any valid table a valid one in which no reference has an order.
pub reset-IsValid : {b : Book} → IsValid b → IsValid (reset b)
unfolding reset
reset-IsValid v = record {
  masked = record {
    power = v.masked.power;
    capacity = v.masked.capacity;
    mask = v.masked.mask;
    nonempty = v.masked.nonempty;
  };
  placed = λ i h o. cc (o);
  unique = λ i j h k o. cc (o);
}
