-- ===== src/Book/Resolve/Effect.antt =====
-- What taking shares off a resting order does to the table.
use tickpipe.Base.{
  ℕ, ◌-◌, ◌^◌, ◌≤◌, ◌<◌, ◌≡◌, sym, inl, inr, true, false, Option, none, some, arith, ◌==◌,
  Bool-cases, subst, if◌then◌else◌, if_true, if_false, update, sub32, ltb,
}
use tickpipe.Book.Table.{Book, RestingOrder}
use tickpipe.Book.Table.Probe.{HasKey}
use tickpipe.Book.Table.Invariant.{IsValid}
use tickpipe.Book.Table.Lookup.{view}
use tickpipe.Book.Table.Update.{overwritten-IsValid, view-overwritten}
use tickpipe.Book.Table.Erase.{erase-Erases}
use tickpipe.Book.Resolve.{take_shares}

-- What is left of a resting order after `q` of its shares.
abbrev pub remaining : RestingOrder → ℕ → Option RestingOrder
remaining ro q = if ltb q ro.quantity then some (record ro { quantity = ro.quantity - q }) else none

-- The abstract book with another value under one reference.
abbrev pub put_at : (ℕ → Option RestingOrder) → ℕ → Option RestingOrder → ℕ → Option RestingOrder
put_at f ref o r = if r == ref then o else f r

pub record Takes (b : Book) (ref : ℕ) (o : Option RestingOrder) (b' : Book) : Type 0 where
  pub valid : IsValid b'
  pub reads : (r : ℕ) → view b' r ≡ put_at (view b) ref o r

module _ {b : Book} (v : IsValid b) (ref i q : ℕ) (lt : i < b.capacity) (found : HasKey b ref i)
    (small : (b.slots i).quantity < 2 ^ 32) (enough : q ≤ (b.slots i).quantity) where
  abbrev left : ℕ
  left = sub32 (b.slots i).quantity q

  abbrev smaller : RestingOrder
  smaller = record (b.slots i) { quantity = left }

  abbrev shrunk : Book
  shrunk = record b { slots = update b.slots i smaller }

  shrunk-IsValid : IsValid shrunk
  shrunk-IsValid = overwritten-IsValid v ref i smaller found.1 lt b.stats b.digest found

  view-shrunk : (r : ℕ) → view shrunk r ≡ put_at (view b) ref (some smaller) r
  view-shrunk = view-overwritten v ref i smaller found.1 lt b.stats b.digest found

  left_lem : left ≡ (b.slots i).quantity - q
  left_lem = omega arith

  Takes-all : (left == 0) ≡ true → Takes b ref none (take_shares b i ref q)
  unfolding take_shares
  Takes-all z =
      let e = erase-Erases shrunk-IsValid ref in
      subst (Takes b ref none) (sym (if_true _ _ z))
        (record { valid = e.valid; reads = λ r. ground (arith, e.erased r, view-shrunk r) })

  Takes-some : (left == 0) ≡ false → Takes b ref (some smaller) (take_shares b i ref q)
  unfolding take_shares
  Takes-some z =
      subst (Takes b ref (some smaller)) (sym (if_false _ _ z))
        (record { valid = shrunk-IsValid; reads = view-shrunk })

  -- `take_shares` leaves the order with the shares that remain, and removes it when none do.
  pub take_shares-Takes : Takes b ref (remaining (b.slots i) q) (take_shares b i ref q)
  take_shares-Takes = elim (Bool-cases (left == 0)) [
    | inl z ↦ subst (λ o. Takes b ref o (take_shares b i ref q)) (ground arith) (Takes-all z)
    | inr z ↦ subst (λ o. Takes b ref o (take_shares b i ref q)) (ground arith) (Takes-some z)
  ]
