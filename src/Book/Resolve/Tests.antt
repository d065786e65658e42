-- ===== src/Book/Resolve/Tests.antt =====
-- `resolve` of an execution on a book with one order.
use tickpipe.Base.{
  ◌<◌, ◌^◌, ◌≡◌, refl, sym, ◌∙◌, true, none, some, arith, ◌==◌, inl, inr, Bool-cases, if_true,
  if_false,
}
use tickpipe.Itch.Order.{Order, empty_order, execute, buy, no_stock}
use tickpipe.Book.Table.{
  Book, RestingOrder, new, insert, insert_loop, insert_at, home, hash_ref, place, target,
  longer_probe,
}
use tickpipe.Book.Table.Lookup.{view}
use tickpipe.Book.Table.Insert.{Inserts, insert-Inserts}
use tickpipe.Book.Table.New.{new-IsValid, view-new}
use tickpipe.Book.Resolve.{resolve}
use tickpipe.Book.Resolve.Spec.{spec, Does, HasRoom, IsSized}
use tickpipe.Book.Resolve.Refine.{resolve_refines}

abbrev resting : RestingOrder
resting = record { order_ref = 1; quantity = 100; price = 1_502_500; side = buy; stock = no_stock }

abbrev one_order : Book
one_order = (insert (new (λ _. resting) 2) resting).1

abbrev execution_message : Order
execution_message = record empty_order {
  action = execute;
  order_ref = 1;
  quantity = 40;
  match_number = 5;
}

inserted : Inserts (new (λ _. resting) 2) resting (insert (new (λ _. resting) 2) resting)
inserted = insert-Inserts (new-IsValid (λ _. resting) 2) resting

insert_succeeds : (insert (new (λ _. resting) 2) resting).0 ≡ true
unfolding insert insert_loop insert_at home hash_ref place target longer_probe new
insert_succeeds = refl

sized_lem : (ro : RestingOrder) → some ro ≡ some resting → ro.quantity < 2 ^ 32
sized_lem ro e = ground (arith, e)

none_lem : {ro : RestingOrder} → some ro ≡ none → ⊥
none_lem e = cc (e)

one_order-HasRoom : HasRoom one_order
unfolding insert insert_loop insert_at home hash_ref place target longer_probe new
one_order-HasRoom = (3, ground arith, refl)

one_order-IsSized : IsSized one_order
one_order-IsSized ref ro e =
    let reads = inserted.stored insert_succeeds ref in
    elim (Bool-cases (ref == 1)) [
      | inl h ↦ sized_lem ro (sym e ∙ reads ∙ if_true _ _ h)
      | inr h ↦ absurd (none_lem (sym e ∙ reads ∙ if_false _ _ h ∙ view-new (λ _. resting) 2 ref))
    ]

resolve_refines_example :
    Does (resolve one_order execution_message) (spec execute execution_message (view one_order))
resolve_refines_example =
    resolve_refines inserted.valid execution_message one_order-IsSized one_order-HasRoom
