-- ===== src/Book/Table/Lookup.antt =====
-- The abstract view of the table: a function from references to orders.
use tickpipe.Base.{
  ℕ, ◌<◌, ◌≡◌, sym, ap, ◌∙◌, ◌⊎◌, inl, inr, Option, none, some, arith, Option-cases,
}
use mathlib.Core.Option
use tickpipe.Book.Table.{Book, RestingOrder, find_loop, seek, home, find}
use tickpipe.Book.Table.Probe.{IsMasked, HasKey, home-at, find_loop_sound, find_loop_range}
use tickpipe.Book.Table.Invariant.{IsValid, seek_complete}

-- What the table holds under a reference.
pub view : Book → ℕ → Option RestingOrder
view b ref = elim (seek b ref) [ none ↦ none | some (i, _) ↦ some (b.slots i) ]

-- A slot that `find` returns is in the table and holds the reference.
pub seek_sound :
    (b : Book) (m : IsMasked b) (ref i n : ℕ)
    → seek b ref ≡ some (i, n)
    → (i < b.capacity) × HasKey b ref i
seek_sound b m ref i n h = (
  find_loop_range b m ref b.capacity 0 0 i n
      (ap (λ j. find_loop b ref b.capacity j 0) (sym (home-at b m ref)) ∙ h),
  find_loop_sound b ref b.capacity (home b ref) 0 i n h,
)

view_of_seek : (b : Book) (ref i n : ℕ) → seek b ref ≡ some (i, n) → view b ref ≡ some (b.slots i)
unfolding view
view_of_seek b ref i n h = ground arith

view_of_seek-none : (b : Book) (ref : ℕ) → seek b ref ≡ none → view b ref ≡ none
unfolding view
view_of_seek-none b ref h = ground arith

-- On a valid table the view at a reference is the one order that holds it.
pub view-held :
    {b : Book}
    → IsValid b
    → (ref i : ℕ) → i < b.capacity
    → HasKey b ref i
    → view b ref ≡ some (b.slots i)
view-held {b} v ref i h found = elim (Option-cases (seek b ref)) [
  | inl e ↦ absurd (seek_complete v ref i h found e)
  | inr ((j, n), e) ↦
      let (lt, held) = seek_sound b v.masked ref j n e in
      view_of_seek b ref j n e
      ∙ ap (λ k. some (b.slots k)) (v.unique j i lt h held.0 found.0 (held.1 ∙ sym found.1))
]

pub view-absent :
    (b : Book) (m : IsMasked b) (ref : ℕ)
    → ((i : ℕ) → i < b.capacity → ¬ HasKey b ref i)
    → view b ref ≡ none
view-absent b m ref h = elim (Option-cases (seek b ref)) [
  | inl e ↦ view_of_seek-none b ref e
  | inr ((j, n), e) ↦ let (lt, held) = seek_sound b m ref j n e in absurd (h j lt held)
]

-- Conversely, a reference with an order stands in some slot.
pub view-cases :
    (b : Book) (m : IsMasked b) (ref : ℕ)
    → (view b ref ≡ none) × (seek b ref ≡ none)
      ⊎ ((i : ℕ) × (n : ℕ) × (seek b ref ≡ some (i, n))
          × (i < b.capacity)
          × HasKey b ref i
          × (view b ref ≡ some (b.slots i)))
view-cases b m ref = elim (Option-cases (seek b ref)) [
  | inl e ↦ inl (view_of_seek-none b ref e, e)
  | inr ((j, n), e) ↦
      let (lt, held) = seek_sound b m ref j n e in inr (j, n, e, lt, held, view_of_seek b ref j n e)
]

-- A reference with no order stands in no slot.
pub absent_of_none :
    {b : Book}
    → IsValid b
    → (ref : ℕ) → view b ref ≡ none
    → (i : ℕ) → i < b.capacity
    → ¬ HasKey b ref i
absent_of_none v ref e i h found = cc (e, view-held v ref i h found)

-- Two valid tables that hold the same order under a reference read the same there.
pub view-transfer :
    {b b' : Book}
    → IsValid b
    → IsValid b'
    → (ref : ℕ) → b'.capacity ≡ b.capacity
    → ((i : ℕ) → HasKey b ref i → HasKey b' ref i × (b'.slots i ≡ b.slots i))
    → ((i : ℕ) → HasKey b' ref i → HasKey b ref i)
    → view b' ref ≡ view b ref
view-transfer {b} {b'} v v' ref cap there back = elim (view-cases b v.masked ref) [
  | inl (e, _) ↦
      view-absent b' v'.masked ref
        (λ i h found. absent_of_none v ref e i (omega arith) (back i found))
      ∙ sym e
  | inr (i, n, _, h, found, e) ↦
      let (found', same_slot) = there i found in
      view-held v' ref i (omega arith) found' ∙ ap some same_slot ∙ sym e
]

-- `find` returns a null pointer exactly for a reference with no order, and otherwise the slot of
-- that order; only `max_probe` changes.
pub find_lem :
    (b : Book) (ref : ℕ)
    → let (slot, b') = find b ref in
      (Option.map b.slots slot ≡ view b ref)
      × (b'.slots ≡ b.slots)
      × (b'.state ≡ b.state)
      × (b'.digest ≡ b.digest)
unfolding find view
find_lem b ref = ground arith
