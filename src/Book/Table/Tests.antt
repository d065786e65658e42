-- ===== src/Book/Table/Tests.antt =====
-- The table on a book of four slots and on one of a single slot.
use tickpipe.Base.{ℕ, ◌<◌, ◌≡◌, ◌↔◌, ◌≢◌, false}
use tickpipe.Itch.Order.{buy, no_stock}
use tickpipe.Book.Table.{Book, RestingOrder, empty, new, insert, erase}
use tickpipe.Book.Table.Probe.{HasKey}
use tickpipe.Book.Table.Invariant.{IsValid}
use tickpipe.Book.Table.Insert.{Inserts, insert-Inserts, insert-fails_iff}
use tickpipe.Book.Table.Erase.{Erases, erase-Erases}
use tickpipe.Book.Table.New.{new-IsValid}

abbrev order : RestingOrder
order = record { order_ref = 1; quantity = 100; price = 1_502_500; side = buy; stock = no_stock }

abbrev other : RestingOrder
other = record order { order_ref = 2 }

abbrev four_slots : Book
four_slots = new (λ _. order) 2

-- One slot, in which an order stood that was erased.
abbrev used_up : Book
used_up = (erase (insert (new (λ _. order) 0) order).1 1).1

insert-Inserts_example : Inserts four_slots order (insert four_slots order)
insert-Inserts_example = insert-Inserts (new-IsValid (λ _. order) 2) order

erase-Erases_example : Erases (insert four_slots order).1 1 (erase (insert four_slots order).1 1)
erase-Erases_example = erase-Erases (insert-Inserts (new-IsValid (λ _. order) 2) order).valid 1

used_up-IsValid : IsValid used_up
used_up-IsValid = (erase-Erases (insert-Inserts (new-IsValid (λ _. order) 0) order).valid 1).valid

insert-fails_iff_example : ((insert used_up other).0 ≡ false) ↔ (
    ((i : ℕ) → i < used_up.capacity → used_up.state i ≢ empty)
    × ((i : ℕ) → i < used_up.capacity → ¬ HasKey used_up 2 i))
insert-fails_iff_example = insert-fails_iff used_up-IsValid other
