-- ===== src/Ring.antt =====
-- The byte ring between the socket thread and the book thread: include/spsc_ring.hpp. `len` is
-- stored in the machine's byte order, which the header's comment says is little-endian.
pub mod Cells
pub mod Fifo
pub mod Threads
mod Tests
use tickpipe.Base.{
  ℕ, ◌+◌, ◌-◌, ◌*◌, ◌/◌, ◌%◌, ◌^◌, Bool, true, false, ◌||◌, [], ◌∷◌, bit_and, ltb, leb, ◌==◌,
  if◌then◌else◌, Bytes, advance, memcpy, bytes_of, u32, u64, inc64, sub64,
}

pub record SpscRing : Type 0 where
  pub capacity : ℕ
  pub mask : ℕ
  pub buf : Bytes
  pub head : ℕ
  pub tail : ℕ
  pub dropped : ℕ
  pub high_water : ℕ

unfoldable pub new : Bytes → ℕ → SpscRing
new buf capacity_pow2 = record {
  capacity = 2 ^ capacity_pow2;
  mask = 2 ^ capacity_pow2 - 1;
  buf = buf;
  head = 0;
  tail = 0;
  dropped = 0;
  high_water = 0;
}

-- How many of `n` bytes from `off` on come before the end of the buffer.
abbrev pub first_part : SpscRing → ℕ → ℕ → ℕ
first_part r off n = if leb (off + n) r.capacity then n else r.capacity - off

unfoldable pub write : SpscRing → ℕ → Bytes → ℕ → Bytes
write r at src n =
    let off = bit_and at r.mask in
    let first = first_part r off n in
    let b = memcpy r.buf off src first in
    if ltb first n then memcpy b 0 (advance src first) (n - first) else b

-- The bytes that `read` copies to `dst`.
unfoldable pub read : SpscRing → ℕ → ℕ → Bytes → Bytes
read r at n dst =
    let off = bit_and at r.mask in
    let first = first_part r off n in
    let d = memcpy dst 0 (advance r.buf off) first in
    if ltb first n then memcpy d first r.buf (n - first) else d

-- `reinterpret_cast<const uint8_t*>(&len)`
abbrev pub length_bytes : ℕ → Bytes
length_bytes len =
    bytes_of (len % 256 ∷ len / 2 ^ 8 % 256 ∷ len / 2 ^ 16 % 256 ∷ len / 2 ^ 24 % 256 ∷ [])

abbrev pub length_of : Bytes → ℕ
length_of p = p 0 + p 1 * 2 ^ 8 + p 2 * 2 ^ 16 + p 3 * 2 ^ 24

unfoldable pub used : SpscRing → ℕ
used r = sub64 r.head r.tail

-- `4 + len` is a sum of uint32_t.
unfoldable pub push : SpscRing → Bytes → ℕ → Bool × SpscRing
push r payload len =
    let need = u32 (4 + len) in
    let have = used r in
    if ltb r.capacity (u64 (have + need))
    then (false, record r { dropped = inc64 r.dropped })
    else let r1 = record r { high_water = if ltb r.high_water have then have else r.high_water } in
      let r2 = record r1 { buf = write r1 r.head (length_bytes len) 4 } in
      let r3 = record r2 { buf = write r2 (u64 (r.head + 4)) payload len } in
      (true, record r3 { head = u64 (r.head + need) })

-- The record's length and bytes; `out` keeps its own bytes behind them.
unfoldable pub pop : SpscRing → Bytes → ℕ → ℕ × Bytes × SpscRing
pop r out out_cap =
    let len = length_of (read r r.tail 4 (λ _. 0)) in
    if r.head == r.tail
    then (0, out, r)
    else if len == 0 || ltb out_cap len
    then (0, out, record r { tail = r.head })
    else (len, read r (u64 (r.tail + 4)) len out, record r { tail = u64 (r.tail + 4 + len) })
