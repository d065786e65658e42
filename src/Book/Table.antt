-- ===== src/Book/Table.antt =====
-- The open-addressing table of `BookState`: its arrays, `find`, `insert` and `erase`.
-- A pointer into `slots_` is its index. Both arrays have `capacity` elements, allocated once.
pub mod Probe
pub mod Invariant
pub mod Lookup
pub mod Update
pub mod Insert
pub mod New
pub mod Erase
mod Tests
use tickpipe.Base.{
  ℕ, zero, suc, ◌+◌, ◌-◌, ◌*◌, ◌/◌, ◌^◌, Bool, true, false, ◌&&◌, Option, none, some, List, bit_and,
  bit_xor, ltb, ◌==◌, if◌then◌else◌, u64, inc64, dec64, update,
}
use tickpipe.Itch.Order.{Side, no_side, no_stock}
use tickpipe.Book.Digest.{fnv_offset}

pub record RestingOrder : Type 0 where
  pub order_ref : ℕ
  pub quantity : ℕ
  pub price : ℕ
  pub side : Side
  pub stock : List ℕ

-- The three values of a byte of `state_`.
pub data SlotState : Type 0 where
  empty occupied tombstone : SlotState

pub record Stats : Type 0 where
  pub adds : ℕ
  pub executes : ℕ
  pub cancels : ℕ
  pub deletes : ℕ
  pub replaces : ℕ
  pub trades : ℕ
  pub unresolved : ℕ
  pub table_full : ℕ
  pub live : ℕ
  pub peak_live : ℕ
  pub max_probe : ℕ

-- `Stats{}`
abbrev pub no_stats : Stats
no_stats = record {
  adds = 0;
  executes = 0;
  cancels = 0;
  deletes = 0;
  replaces = 0;
  trades = 0;
  unresolved = 0;
  table_full = 0;
  live = 0;
  peak_live = 0;
  max_probe = 0;
}

pub record Book : Type 0 where
  pub slots : ℕ → RestingOrder
  pub state : ℕ → SlotState
  pub capacity : ℕ
  pub mask : ℕ
  pub stats : Stats
  pub digest : ℕ

-- The constructor. `slots` is what the allocation holds, which is never read before it is written.
unfoldable pub new : (ℕ → RestingOrder) → ℕ → Book
new slots capacity_pow2 = record {
  slots = slots;
  state = λ _. empty;
  capacity = 2 ^ capacity_pow2;
  mask = 2 ^ capacity_pow2 - 1;
  stats = no_stats;
  digest = fnv_offset;
}

unfoldable pub reset : Book → Book
reset b = record b { state = λ _. empty; stats = no_stats; digest = fnv_offset }

abbrev shift_xor : ℕ → ℕ
shift_xor r = bit_xor r (r / 2 ^ 33)

unfoldable pub hash_ref : ℕ → ℕ
hash_ref ref =
    shift_xor
      (u64 (shift_xor (u64 (shift_xor ref * 0xff51_afd7_ed55_8ccd)) * 0xc4ce_b9fe_1a85_ec53))

-- `hash_ref(ref) & mask_`
unfoldable pub home : Book → ℕ → ℕ
home b ref = bit_and (hash_ref ref) b.mask

-- `(idx + 1) & mask_`. An index is at most the mask, so the sum does not wrap.
unfoldable pub next : Book → ℕ → ℕ
next b idx = bit_and (idx + 1) b.mask

-- The loop of `find`, which `erase` repeats: the index of the order and the probes made. `left` is
-- `capacity_ - probes`, so the loop breaks at `zero`.
unfoldable pub find_loop : Book → ℕ → ℕ → ℕ → ℕ → Option (ℕ × ℕ)
find_loop b ref zero idx probes = none
find_loop b ref (suc left) idx probes = elim (b.state idx) [
  | empty ↦ none
  | occupied ↦ elim ((b.slots idx).order_ref == ref) [
    | true ↦ some (idx, probes)
    | false ↦ find_loop b ref left (next b idx) (probes + 1)
  ]
  | tombstone ↦ find_loop b ref left (next b idx) (probes + 1)
]

abbrev pub seek : Book → ℕ → Option (ℕ × ℕ)
seek b ref = find_loop b ref b.capacity (home b ref) 0

abbrev pub longer_probe : Book → ℕ → Book
longer_probe b probes = record b {
  stats = record (b.stats) {
    max_probe = if ltb b.stats.max_probe probes then probes else b.stats.max_probe;
  };
}

-- `none` is the null pointer.
unfoldable pub find : Book → ℕ → Option ℕ × Book
find b ref = elim (seek b ref) [
  | none ↦ (none, b)
  | some (idx, probes) ↦ (some idx, longer_probe b probes)
]

-- How the loop of `insert` ends: at a slot with the same reference, at an empty slot, with the
-- probes made and the first tombstone met, or after `capacity_` probes.
pub data Scan : Type 0 where
  same : ℕ → Scan
  free : ℕ → ℕ → Option ℕ → Scan
  full : Scan

-- `if (state_[idx] == TOMBSTONE && reuse < 0) reuse = idx`
abbrev pub first_tombstone : Option ℕ → ℕ → Option ℕ
first_tombstone none idx = some idx
first_tombstone (some r) idx = some r

unfoldable pub insert_loop : Book → ℕ → ℕ → ℕ → ℕ → Option ℕ → Scan
insert_loop b ref zero idx probes reuse = full
insert_loop b ref (suc left) idx probes reuse = elim (b.state idx) [
  | empty ↦ free idx probes reuse
  | occupied ↦ elim ((b.slots idx).order_ref == ref) [
    | true ↦ same idx
    | false ↦ insert_loop b ref left (next b idx) (probes + 1) reuse
  ]
  | tombstone ↦ insert_loop b ref left (next b idx) (probes + 1) (first_tombstone reuse idx)
]

-- `if (reuse >= 0) idx = reuse`
abbrev pub target : ℕ → Option ℕ → ℕ
target idx none = idx
target idx (some r) = r

abbrev pub counted_live : Stats → Stats
counted_live s =
    let live = inc64 s.live in
    record s { live = live; peak_live = if ltb s.peak_live live then live else s.peak_live }

-- A new order in a slot that was not occupied.
unfoldable pub place : Book → RestingOrder → ℕ → ℕ → Book
place b ro idx probes =
    let b' = longer_probe b probes in
    record b' {
      slots = update b.slots idx ro;
      state = update b.state idx occupied;
      stats = counted_live b'.stats;
    }

-- The lines of `insert` behind its loop, for each way in which that ends.
unfoldable pub insert_at : Book → RestingOrder → Scan → Bool × Book
insert_at b ro (same idx) = (true, record b { slots = update b.slots idx ro })
insert_at b ro full =
    (false, record b { stats = record (b.stats) { table_full = inc64 b.stats.table_full } })
insert_at b ro (free idx probes reuse) = (true, place b ro (target idx reuse) probes)

unfoldable pub insert : Book → RestingOrder → Bool × Book
insert b ro = insert_at b ro (insert_loop b ro.order_ref b.capacity (home b ro.order_ref) 0 none)

unfoldable pub erase : Book → ℕ → Bool × Book
erase b ref = elim (seek b ref) [
  | none ↦ (false, b)
  | some (idx, _) ↦ (
    true,
    record b {
      state = update b.state idx tombstone;
      stats = record (b.stats) { live = dec64 b.stats.live };
    },
  )
]
