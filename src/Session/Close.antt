-- ===== src/Session/Close.antt =====
-- The snapshot at the close.
use tickpipe.Base.{
  ℕ, ◌≤◌, ◌<◌, ◌≡◌, refl, ap, ◌∙◌, arith, Bool, true, false, Option, none, some, List, [], ◌∷◌,
  ◌++◌, ◌&&◌, not, leb, if_both, if_true, if_false, All,
}
use tickpipe.Itch.Order.{Order}
use tickpipe.Book.Resolve.{ResolvedOp, resolve}
use tickpipe.Engine.Book.{best_bid, best_ask}
use tickpipe.Session.{
  market_close, Snapshot, ReplayCtx, snapshot, take_close, on_op, on_ops, observe_top, observe,
  on_message,
}

unfoldable pub on_messages : List Order → ReplayCtx → ReplayCtx
on_messages [] c = c
on_messages (msg ∷ msgs) c = on_messages msgs (on_message msg c)

-- Whether the snapshot was taken, and the snapshot.
abbrev closing : ReplayCtx → Bool × Snapshot
closing c = (c.close_taken, c.close)

closing-on_op : (op : ResolvedOp) (c : ReplayCtx) → closing (on_op op c) ≡ closing c
unfolding on_op
closing-on_op op c = if_both (λ (t : ReplayCtx). closing t ≡ closing c) _ refl refl

closing-on_ops : (ops : List ResolvedOp) (c : ReplayCtx) → closing (on_ops ops c) ≡ closing c
unfolding on_ops
closing-on_ops [] c = refl
closing-on_ops (op ∷ ops) c = closing-on_ops ops (on_op op c) ∙ closing-on_op op c

closing-observe_top :
    (c : ReplayCtx) (bid ask : Option (ℕ × ℕ)) → closing (observe_top c bid ask) ≡ closing c
unfolding observe_top
closing-observe_top c none ask = refl
closing-observe_top c (some bid) none = refl
closing-observe_top c (some bid) (some ask) =
    if_both (λ (t : ReplayCtx). closing t ≡ closing c) _ refl refl

-- Only the start of `on_message` takes it.
closing-on_message :
    (msg : Order) (c : ReplayCtx)
    → closing (on_message msg c) ≡ closing (take_close c msg.timestamp_ns)
unfolding on_message observe
closing-on_message msg c =
    let c1 = take_close c msg.timestamp_ns in
    let (ok, ops, book) = resolve c1.book msg in
    let c2 = record c1 { book = book } in
    let c3 = on_ops ops c2 in
    if_both (λ (t : ReplayCtx). closing t ≡ closing c1) (not ok) refl
      (closing-observe_top c3 (best_bid c3.engine) (best_ask c3.engine) ∙ closing-on_ops ops c2)

-- Before the close it is not taken, and once it is taken it stays.
before_close :
    (msg : Order) (c : ReplayCtx)
    → msg.timestamp_ns < market_close
    → closing (on_message msg c) ≡ closing c
unfolding take_close
before_close msg c early =
    closing-on_message msg c
    ∙ ap closing (
        if_false {c = not c.close_taken && leb market_close msg.timestamp_ns}
          (record c { close_taken = true; close = snapshot c }) c (ground (arith, early)))

taken_stays :
    (msg : Order) (c : ReplayCtx) → c.close_taken ≡ true → closing (on_message msg c) ≡ closing c
unfolding take_close
taken_stays msg c taken =
    closing-on_message msg c
    ∙ ap closing (
        if_false {c = not c.close_taken && leb market_close msg.timestamp_ns}
          (record c { close_taken = true; close = snapshot c }) c (ground (arith, taken)))

at_close :
    (msg : Order) (c : ReplayCtx)
    → c.close_taken ≡ false
    → market_close ≤ msg.timestamp_ns
    → closing (on_message msg c) ≡ (true, snapshot c)
unfolding take_close
at_close msg c open_still late =
    closing-on_message msg c
    ∙ ap closing (
        if_true {c = not c.close_taken && leb market_close msg.timestamp_ns}
          (record c { close_taken = true; close = snapshot c }) c
          (ground (arith, open_still, late)))

stays_untaken :
    (msgs : List Order) (c : ReplayCtx)
    → All (λ (m : Order). m.timestamp_ns < market_close) msgs
    → closing (on_messages msgs c) ≡ closing c
unfolding on_messages
stays_untaken [] c early = refl
stays_untaken (m ∷ ms) c (first, rest) =
    stays_untaken ms (on_message m c) rest ∙ before_close m c first

all_stays :
    (msgs : List Order) (c : ReplayCtx)
    → c.close_taken ≡ true
    → closing (on_messages msgs c) ≡ closing c
unfolding on_messages
all_stays [] c taken = refl
all_stays (m ∷ ms) c taken =
    let stays = taken_stays m c taken in
    all_stays ms (on_message m c) (ap (λ (t : Bool × Snapshot). t.0) stays ∙ taken) ∙ stays

on_messages-append :
    (xs ys : List Order) (c : ReplayCtx)
    → on_messages (xs ++ ys) c ≡ on_messages ys (on_messages xs c)
unfolding on_messages
on_messages-append [] ys c = refl
on_messages-append (x ∷ xs) ys c = on_messages-append xs ys (on_message x c)

-- The replay of a session, with no snapshot taken, is handed messages before 16:00, then one at
-- or past it, and then any others. At the end the snapshot is taken, and it is that of the state
-- in which the messages before 16:00 left the replay.
pub close_once :
    (early : List Order) (msg : Order) (later : List Order) (c : ReplayCtx)
    → c.close_taken ≡ false
    → All (λ (m : Order). m.timestamp_ns < market_close) early
    → market_close ≤ msg.timestamp_ns
    → let c' = on_messages (early ++ (msg ∷ later)) c in
      (c'.close_taken ≡ true) × (c'.close ≡ snapshot (on_messages early c))
unfolding on_messages
close_once early msg later c not_taken before late =
    let c1 = on_messages early c in
    let taken =
      at_close msg c1 (ap (λ (t : Bool × Snapshot). t.0) (stays_untaken early c before) ∙ not_taken)
        late in
    let all =
      ap closing (on_messages-append early (msg ∷ later) c)
      ∙ all_stays later (on_message msg c1) (ap (λ (t : Bool × Snapshot). t.0) taken)
      ∙ taken in
    (ap (λ (t : Bool × Snapshot). t.0) all, ap (λ (t : Bool × Snapshot). t.1) all)
