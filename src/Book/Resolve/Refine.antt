-- ===== src/Book/Resolve/Refine.antt =====
-- `BookState::resolve` does what the abstract book says.
use tickpipe.Base.{
  ℕ, ◌^◌, ◌≤◌, ◌<◌, ◌≡◌, refl, sym, ap, ◌∙◌, ◌≢◌, inl, inr, Bool, true, Option, none, some, List,
  arith, ◌==◌, Bool-cases, subst, if◌then◌else◌, if_true, if_false, not, min, update_ne,
}
use tickpipe.Itch.Order.{Action, no_action, add, execute, cancel, delete, replace, trade, Order}
use tickpipe.Book.Table.{
  Book, RestingOrder, Stats, tombstone, find, insert, erase, seek, longer_probe,
}
use tickpipe.Book.Table.Probe.{HasKey}
use tickpipe.Book.Table.Invariant.{IsValid}
use tickpipe.Book.Table.Lookup.{view, view-cases}
use tickpipe.Book.Table.Update.{counted-IsValid, view-counted}
use tickpipe.Book.Table.Insert.{Inserts, insert-Inserts, insert-fails_iff}
use tickpipe.Book.Table.Erase.{Erases, erase-Erases, erase-some}
use tickpipe.Book.Resolve.{
  ResolvedOp, Resolved, fewer, removal, take_shares, execute_at, cancel_at, delete_at, replace_at,
  resolve_add, resolve_trade, with_slot, on_resting, resolve_case, resolve_impl, resolve, fold_ops,
}
use tickpipe.Book.Resolve.Effect.{remaining, put_at, Takes, take_shares-Takes}
use tickpipe.Book.Resolve.Spec.{resting_of, replacement, spec_at, spec, Does, HasRoom, IsSized}

fewer-min : (a b : ℕ) → fewer a b ≡ min a b
fewer-min a b = ground arith

put_at_congr :
    {f g : ℕ → Option RestingOrder}
    → ((r : ℕ) → f r ≡ g r)
    → (ref : ℕ) (o : Option RestingOrder) (r : ℕ) → put_at f ref o r ≡ put_at g ref o r
put_at_congr h ref o r = ap (λ x. if r == ref then o else x) (h r)

-- A result with other counters agrees with the same.
recount :
    (r : Resolved) (s : Bool × List ResolvedOp × (ℕ → Option RestingOrder)) (stats : Stats)
    (digest : ℕ)
    → Does r s
    → Does (r.0, r.1, record (r.2) { stats = stats; digest = digest }) s
recount r s stats digest d = record {
  ok = d.ok;
  ops = d.ops;
  valid = counted-IsValid d.valid stats digest;
  reads = λ ref. view-counted d.valid stats digest ref ∙ d.reads ref;
}

-- An order with room is stored.
room_inserts : {b : Book} (v : IsValid b) (ro : RestingOrder) → HasRoom b → (insert b ro).0 ≡ true
room_inserts {b} v ro (i, lt, e) = elim (Bool-cases (insert b ro).0) [
  | inl t ↦ t
  | inr f ↦ absurd (((insert-fails_iff v ro).0 f).0 i lt e)
]

room_after_erase : {b : Book} (v : IsValid b) (ref : ℕ) → HasRoom b → HasRoom (erase b ref).1
room_after_erase {b} v ref (j, lt, e) = elim (view-cases b v.masked ref) [
  | inl (absent, _) ↦ subst (λ x. HasRoom x.1) (sym ((erase-Erases v ref).fails absent)) (j, lt, e)
  | inr (i, n, s, _, found, _) ↦
      let apart : j ≢ i = λ p. cc (e, p, found.0) in
      subst (λ x. HasRoom x.1) (sym (erase-some b ref i n s))
        (j, lt, update_ne b.state tombstone apart ∙ e)
]

module _ {b : Book} (v : IsValid b) (msg : Order) (i n : ℕ) (s : seek b msg.order_ref ≡ some (i, n))
    (lt : i < b.capacity) (found : HasKey b msg.order_ref i)
    (small : (b.slots i).quantity < 2 ^ 32) where
  abbrev ro : RestingOrder
  ro = b.slots i

  abbrev b1 : Book
  b1 = longer_probe b n

  v1 : IsValid b1
  v1 = counted-IsValid v _ b.digest

  view1 : (r : ℕ) → view b1 r ≡ view b r
  view1 = view-counted v _ b.digest

  taken :
      (q : ℕ)
      → q ≤ ro.quantity
      → Takes b1 msg.order_ref (remaining ro q) (take_shares b1 i msg.order_ref q)
  taken q h = take_shares-Takes v1 msg.order_ref i q lt found small h

  execute-Does : Does (execute_at b1 msg i) (spec_at execute msg (some ro) (view b))
  unfolding execute_at
  execute-Does =
      let q = fewer msg.quantity ro.quantity in
      let t = taken q (ground arith) in
      record {
        ok = refl;
        ops = ground (arith, found.1);
        valid = counted-IsValid t.valid _ _;
        reads = λ r.
            view-counted t.valid _ _ r
            ∙ t.reads r
            ∙ put_at_congr view1 msg.order_ref _ r
            ∙ ap (λ k. put_at (view b) msg.order_ref (remaining ro k) r)
                (fewer-min msg.quantity ro.quantity);
      }

  cancel-Does : Does (cancel_at b1 msg i) (spec_at cancel msg (some ro) (view b))
  unfolding cancel_at
  cancel-Does =
      let q = fewer msg.quantity ro.quantity in
      let t = taken q (ground arith) in
      record {
        ok = refl;
        ops = ground (arith, found.1);
        valid = counted-IsValid t.valid _ _;
        reads = λ r.
            view-counted t.valid _ _ r
            ∙ t.reads r
            ∙ put_at_congr view1 msg.order_ref _ r
            ∙ ap (λ k. put_at (view b) msg.order_ref (remaining ro k) r)
                (fewer-min msg.quantity ro.quantity);
      }

  erased : Erases b1 msg.order_ref (erase b1 msg.order_ref)
  erased = erase-Erases v1 msg.order_ref

  delete-Does : Does (delete_at b1 msg i) (spec_at delete msg (some ro) (view b))
  unfolding delete_at removal
  delete-Does = record {
    ok = refl;
    ops = ground (arith, found.1);
    valid = counted-IsValid erased.valid _ _;
    reads = λ r.
        view-counted erased.valid _ _ r ∙ erased.erased r ∙ put_at_congr view1 msg.order_ref none r;
  }

  module _ (room : HasRoom b) where
    new_order :
        Inserts
          (erase b1 msg.order_ref).1
          (replacement msg ro)
          (insert (erase b1 msg.order_ref).1 (replacement msg ro))
    new_order = insert-Inserts erased.valid (replacement msg ro)

    stored : (insert (erase b1 msg.order_ref).1 (replacement msg ro)).0 ≡ true
    stored = room_inserts erased.valid (replacement msg ro) (room_after_erase v1 msg.order_ref room)

    replace-Does : Does (replace_at b1 msg i) (spec_at replace msg (some ro) (view b))
    unfolding replace_at removal
    replace-Does =
        subst (λ x. Does x (spec_at replace msg (some ro) (view b)))
          (sym (if_false _ _ (ap not stored)))
          (record {
            ok = refl;
            ops = ground (arith, found.1);
            valid = counted-IsValid new_order.valid _ _;
            reads = λ r.
                view-counted new_order.valid _ _ r
                ∙ new_order.stored stored r
                ∙ put_at_congr erased.erased msg.new_order_ref _ r
                ∙ put_at_congr (put_at_congr view1 msg.order_ref none) msg.new_order_ref _ r;
          })

find-some :
    (b : Book) (ref i n : ℕ) → seek b ref ≡ some (i, n) → find b ref ≡ (some i, longer_probe b n)
unfolding find
find-some b ref i n s = ground arith

find-none : (b : Book) (ref : ℕ) → seek b ref ≡ none → find b ref ≡ (none, b)
unfolding find
find-none b ref s = ground arith

module _ {b : Book} (v : IsValid b) (msg : Order) where
  -- A handler of resting orders, given what it does with the slot that is found.
  on_resting-Does :
      (a : Action) (act : Book → Order → ℕ → Resolved)
      → ((i n : ℕ)
          → seek b msg.order_ref ≡ some (i, n)
          → i < b.capacity
          → HasKey b msg.order_ref i
          → view b msg.order_ref ≡ some (b.slots i)
          → Does (act (longer_probe b n) msg i) (spec_at a msg (some (b.slots i)) (view b)))
      → Does (on_resting b msg act) (spec_at a msg (view b msg.order_ref) (view b))
  unfolding on_resting
  on_resting-Does a act does = elim (view-cases b v.masked msg.order_ref) [
    | inl (absent, s) ↦
        subst (λ o. Does (on_resting b msg act) (spec_at a msg o (view b))) (sym absent)
          (subst (λ x. Does x (spec_at a msg none (view b)))
            (sym (ap (with_slot msg act) (find-none b msg.order_ref s)))
            (record {
              ok = refl;
              ops = refl;
              valid = counted-IsValid v _ _;
              reads = view-counted v _ _;
            }))
    | inr (i, n, s, lt, found, e) ↦
        subst (λ o. Does (on_resting b msg act) (spec_at a msg o (view b))) (sym e)
          (subst (λ x. Does x (spec_at a msg (some (b.slots i)) (view b)))
            (sym (ap (with_slot msg act) (find-some b msg.order_ref i n s)))
            (does i n s lt found e))
  ]

  folded :
      (r : Resolved)
      → Does r (spec msg.action msg (view b))
      → Does
          (if r.0 then (r.0, r.1, record (r.2) { digest = fold_ops r.2.digest r.1 }) else r)
          (spec msg.action msg (view b))
  folded r d = elim (Bool-cases r.0) [
    | inl t ↦
        subst (λ x. Does x (spec msg.action msg (view b))) (sym (if_true _ _ t))
          (recount r (spec msg.action msg (view b)) r.2.stats (fold_ops r.2.digest r.1) d)
    | inr f ↦ subst (λ x. Does x (spec msg.action msg (view b))) (sym (if_false _ _ f)) d
  ]

  module _ (sized : IsSized b) (room : HasRoom b) where
    trade-Does : Does (resolve_trade b msg) (spec trade msg (view b))
    unfolding resolve_trade
    trade-Does = record {
      ok = refl;
      ops = refl;
      valid = counted-IsValid v _ _;
      reads = view-counted v _ _;
    }

    add-Does : Does (resolve_add b msg) (spec add msg (view b))
    unfolding resolve_add
    add-Does =
        let new = resting_of msg in
        let w = insert-Inserts v new in
        let stored = room_inserts v new room in
        subst (λ x. Does x (spec add msg (view b))) (sym (if_false _ _ (ap not stored)))
          (record {
            ok = refl;
            ops = refl;
            valid = counted-IsValid w.valid _ _;
            reads = λ r. view-counted w.valid _ _ r ∙ w.stored stored r;
          })

    case-Does : (a : Action) → Does (resolve_case a b msg) (spec a msg (view b))
    unfolding resolve_case
    case-Does no_action = record { ok = refl; ops = refl; valid = v; reads = λ r. refl }
    case-Does trade = trade-Does
    case-Does add = add-Does
    case-Does execute =
        on_resting-Does execute execute_at
          (λ i n s lt found e. execute-Does v msg i n s lt found (sized _ _ e))
    case-Does cancel =
        on_resting-Does cancel cancel_at
          (λ i n s lt found e. cancel-Does v msg i n s lt found (sized _ _ e))
    case-Does delete =
        on_resting-Does delete delete_at
          (λ i n s lt found e. delete-Does v msg i n s lt found (sized _ _ e))
    case-Does replace =
        on_resting-Does replace replace_at
          (λ i n s lt found e. replace-Does v msg i n s lt found (sized _ _ e) room)

    -- On a valid table with an unused slot and resting quantities of 32 bits, `resolve`
    -- returns the flag and the operations of the abstract book, for a message of any action;
    -- it leaves a valid table, which reads as the abstract book does after the message.
    pub resolve_refines : Does (resolve b msg) (spec msg.action msg (view b))
    unfolding resolve resolve_impl
    resolve_refines = folded (resolve_case msg.action b msg) (case-Does msg.action)
