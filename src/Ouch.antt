-- ===== src/Ouch.antt =====
-- The OUCH serializer: include/ouch.hpp and src/ouch.cpp. A function that writes through `buf`
-- returns the memory behind the pointer beside the length; a null pointer stays null.
pub mod Frame
mod Tests
use tickpipe.Base.{
  ℕ, ◌+◌, ◌/◌, ◌^◌, Bool, Option, none, some, List, bit_and, ltb, if◌then◌else◌, Bytes, update,
  memcpy, bytes_of, inc64, u32,
}
use tickpipe.Itch.Order.{Order, side_code}
use tickpipe.Engine.Book.{MatchResult}

pub data OuchMsgType : Type 0 where
  order_accepted order_rejected order_executed order_cancelled : OuchMsgType

abbrev pub type_code : OuchMsgType → ℕ
type_code order_accepted = b'A'
type_code order_rejected = b'J'
type_code order_executed = b'E'
type_code order_cancelled = b'C'

-- `write_u32(buf + off, v)`
unfoldable pub write_u32 : Bytes → ℕ → ℕ → Bytes
write_u32 buf off v =
    let b0 = update buf off (bit_and (v / 2 ^ 24) 0xff) in
    let b1 = update b0 (off + 1) (bit_and (v / 2 ^ 16) 0xff) in
    let b2 = update b1 (off + 2) (bit_and (v / 2 ^ 8) 0xff) in update b2 (off + 3) (bit_and v 0xff)

unfoldable pub write_u64 : Bytes → ℕ → ℕ → Bytes
write_u64 buf off v =
    write_u32 (write_u32 buf off (u32 (v / 2 ^ 32))) (off + 4) (bit_and v 0xffff_ffff)

unfoldable pub accepted_bytes : Bytes → Order → ℕ → Bytes
accepted_bytes buf o timestamp =
    let b0 = update buf 0 (type_code order_accepted) in
    let b1 = write_u64 b0 1 timestamp in
    let b2 = write_u64 b1 9 o.order_ref in
    let b3 = update b2 17 (side_code o.side) in
    let b4 = write_u32 b3 18 o.quantity in
    let b5 = write_u32 b4 22 o.price in memcpy b5 26 (bytes_of o.stock) 8

unfoldable pub rejected_bytes : Bytes → Order → ℕ → ℕ → Bytes
rejected_bytes buf o reason timestamp =
    let b0 = update buf 0 (type_code order_rejected) in
    let b1 = write_u64 b0 1 timestamp in
    let b2 = write_u64 b1 9 o.order_ref in let b3 = update b2 17 reason in update b3 18 0

unfoldable pub executed_bytes : Bytes → Order → MatchResult → ℕ → ℕ → Bytes
executed_bytes buf o result match_id timestamp =
    let b0 = update buf 0 (type_code order_executed) in
    let b1 = write_u64 b0 1 timestamp in
    let b2 = write_u64 b1 9 o.order_ref in
    let b3 = write_u32 b2 17 result.quantity in
    let b4 = write_u32 b3 21 result.price in let b5 = write_u64 b4 25 match_id in update b5 33 0

-- `if (!buf || buf_len < MSG_LEN) return 0;`
abbrev pub guarded : ℕ → ℕ → (Bytes → Bytes) → Option Bytes → ℕ × Option Bytes
guarded msg_len buf_len write none = (0, none)
guarded msg_len buf_len write (some buf) =
    if ltb buf_len msg_len then (0, some buf) else (msg_len, some (write buf))

unfoldable pub write_accepted : Option Bytes → ℕ → Order → ℕ → ℕ × Option Bytes
write_accepted buf buf_len o timestamp = guarded 32 buf_len (λ b. accepted_bytes b o timestamp) buf

unfoldable pub write_rejected : Option Bytes → ℕ → Order → ℕ → ℕ → ℕ × Option Bytes
write_rejected buf buf_len o reason timestamp =
    guarded 19 buf_len (λ b. rejected_bytes b o reason timestamp) buf

unfoldable pub write_executed : Option Bytes → ℕ → Order → MatchResult → ℕ → ℕ → ℕ × Option Bytes
write_executed buf buf_len o result match_id timestamp =
    guarded 34 buf_len (λ b. executed_bytes b o result match_id timestamp) buf

-- The first byte, as the value of an enumerator.
unfoldable pub peek : Option Bytes → ℕ
peek none = type_code order_rejected
peek (some buf) = buf 0

-- The static counter: its new value is also what is returned.
unfoldable pub next_match_id : ℕ → ℕ
next_match_id id = inc64 id
