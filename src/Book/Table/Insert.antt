-- ===== src/Book/Table/Insert.antt =====
-- `BookState::insert` against the abstract view.
use tickpipe.Base.{
  ℕ, ◌<◌, ◌≡◌, refl, ◌≢◌, ◌↔◌, Bool, true, false, some, ◌==◌, subst, inc64, if◌then◌else◌,
}
use tickpipe.Book.Table.{
  Book, RestingOrder, empty, Scan, same, free, full, target, place, insert, insert_at, longer_probe,
  counted_live,
}
use tickpipe.Book.Table.Probe.{at-covers, at-lt, HasKey}
use tickpipe.Book.Table.Invariant.{IsValid, ScanEnds, insert_scan, target-free, free-absent}
use tickpipe.Book.Table.Lookup.{view}
use tickpipe.Book.Table.Update.{
  overwritten-IsValid, view-overwritten, placed_at-IsValid, view-placed_at, counted-IsValid,
  view-counted,
}

-- A write of `ro` that succeeded or failed.
pub record Inserts (b : Book) (ro : RestingOrder) (r : Bool × Book) : Type 0 where
  pub valid : IsValid r.1
  pub stored :
      r.0 ≡ true → (ref : ℕ) → view r.1 ref ≡ (if ref == ro.order_ref then some ro else view b ref)
  pub kept : r.0 ≡ false → (ref : ℕ) → view r.1 ref ≡ view b ref

module _ {b : Book} (v : IsValid b) (ro : RestingOrder) where
  insert_at-Inserts : (s : Scan) → ScanEnds b ro.order_ref s → Inserts b ro (insert_at b ro s)
  unfolding insert_at place
  insert_at-Inserts (same i) (lt, found) = record {
    valid = overwritten-IsValid v ro.order_ref i ro refl lt b.stats b.digest found;
    stored = λ _. view-overwritten v ro.order_ref i ro refl lt b.stats b.digest found;
    kept = λ e. cc (e);
  }
  insert_at-Inserts (free i n reuse) (d, lt, e, c, s) =
      let (way, unused) = target-free b ro.order_ref d i reuse lt e c s in
      let absent = free-absent v ro.order_ref d i reuse e c s in
      let (k, k-lt, k-at, _) = way in
      let t = target i reuse in
      let t-lt : t < b.capacity =
        subst (λ j. j < b.capacity) k-at (at-lt b v.masked ro.order_ref k) in
      let stats = counted_live (longer_probe b n).stats in
      record {
        valid = placed_at-IsValid v ro.order_ref t ro refl t-lt stats b.digest way unused absent;
        stored = λ _. view-placed_at v ro.order_ref t ro refl t-lt stats b.digest way unused absent;
        kept = λ x. cc (x);
      }
  insert_at-Inserts full (reuse, s) =
      let stats = record (b.stats) { table_full = inc64 b.stats.table_full } in
      record {
        valid = counted-IsValid v stats b.digest;
        stored = λ x. cc (x);
        kept = λ _. view-counted v stats b.digest;
      }

  -- `insert` keeps a valid table valid. When it succeeds, the order is found under its
  -- reference and every other reference reads as before; when it fails, every reference reads
  -- as before.
  pub insert-Inserts : Inserts b ro (insert b ro)
  unfolding insert
  insert-Inserts = insert_at-Inserts _ (insert_scan b v.masked ro.order_ref)

  abbrev NoRoom : Type 0
  NoRoom =
      ((i : ℕ) → i < b.capacity → b.state i ≢ empty)
      × ((i : ℕ) → i < b.capacity → ¬ HasKey b ro.order_ref i)

  fails_only : (s : Scan) → ScanEnds b ro.order_ref s → (insert_at b ro s).0 ≡ false → NoRoom
  unfolding insert_at
  fails_only (same i) ends h = cc (h)
  fails_only (free i n reuse) ends h = cc (h)
  fails_only full (reuse, s) h = (
    λ i lt.
        let (d, d-lt, e) = at-covers b ro.order_ref i lt in
        subst (λ j. b.state j ≢ empty) e (s.passed d d-lt),
    λ i lt.
        let (d, d-lt, e) = at-covers b ro.order_ref i lt in
        subst (λ j. ¬ HasKey b ro.order_ref j) e (s.absent d d-lt),
  )

  fails : (s : Scan) → ScanEnds b ro.order_ref s → NoRoom → (insert_at b ro s).0 ≡ false
  unfolding insert_at
  fails (same i) (lt, found) (taken, absent) = absurd (absent i lt found)
  fails (free i n reuse) (d, lt, e, c, s) (taken, absent) =
      absurd (taken i (subst (λ j. j < b.capacity) e (at-lt b v.masked ro.order_ref d)) c)
  fails full ends h = refl

  -- On a valid table `insert` fails exactly when the reference has no order and no slot is
  -- empty, however many slots are tombstones.
  pub insert-fails_iff : ((insert b ro).0 ≡ false) ↔ (
      ((i : ℕ) → i < b.capacity → b.state i ≢ empty)
      × ((i : ℕ) → i < b.capacity → ¬ HasKey b ro.order_ref i))
  unfolding insert
  insert-fails_iff =
      let ends = insert_scan b v.masked ro.order_ref in (fails_only _ ends, fails _ ends)
