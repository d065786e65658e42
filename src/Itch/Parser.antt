-- ===== src/Itch/Parser.antt =====
-- `ItchParser`. A message is a pointer, null or not, with a length; what `parse` writes through
-- `out` and into its counters is returned.
pub mod Words
pub mod Outcome
pub mod Reads
pub mod Wire
mod Tests
use tickpipe.Base.{
  ℕ, zero, suc, ◌+◌, ◌*◌, ◌^◌, Bool, true, false, ◌||◌, not, Option, none, some, List, [], ◌∷◌,
  bit_or, ltb, ◌==◌, if◌then◌else◌, Bytes, advance, u16, u32, u64, inc64,
}
use tickpipe.Itch.Order.{
  Side, buy, sell, Action, add, execute, cancel, delete, replace, trade, Order, empty_order,
}

pub record Counts : Type 0 where
  pub parsed : ℕ
  pub ignored : ℕ
  pub malformed : ℕ
  pub unknown : ℕ

abbrev pub no_counts : Counts
no_counts = record { parsed = 0; ignored = 0; malformed = 0; unknown = 0 }

unfoldable pub be16 : Bytes → ℕ
be16 p = u16 (bit_or (p 0 * 2 ^ 8) (p 1))

unfoldable pub be32 : Bytes → ℕ
be32 p =
    bit_or (bit_or (bit_or (u32 (p 0 * 2 ^ 24)) (u32 (p 1 * 2 ^ 16))) (u32 (p 2 * 2 ^ 8))) (p 3)

-- The loop of `be48` and `be64`, `n` rounds before its end.
unfoldable pub be_loop : ℕ → ℕ → Bytes → ℕ → ℕ
be_loop zero i p v = v
be_loop (suc n) i p v = be_loop n (i + 1) p (bit_or (u64 (v * 2 ^ 8)) (p i))

unfoldable pub be48 : Bytes → ℕ
unfolding be_loop
be48 p = be_loop 6 0 p 0

unfoldable pub be64 : Bytes → ℕ
unfolding be_loop
be64 p = be_loop 8 0 p 0

-- `memcpy(out.stock, p, 8)`
abbrev pub copy8 : Bytes → List ℕ
copy8 p = p 0 ∷ p 1 ∷ p 2 ∷ p 3 ∷ p 4 ∷ p 5 ∷ p 6 ∷ p 7 ∷ []

-- 0 stands for an unknown type.
unfoldable pub expected_length : ℕ → ℕ
expected_length t =
    if t == b'S'
    then 12
    else if t == b'R'
    then 39
    else if t == b'H'
    then 25
    else if t == b'Y'
    then 20
    else if t == b'L'
    then 26
    else if t == b'V'
    then 35
    else if t == b'W'
    then 12
    else if t == b'K'
    then 28
    else if t == b'J'
    then 35
    else if t == b'h'
    then 21
    else if t == b'A'
    then 36
    else if t == b'F'
    then 40
    else if t == b'E'
    then 31
    else if t == b'C'
    then 36
    else if t == b'X'
    then 23
    else if t == b'D'
    then 19
    else if t == b'U'
    then 35
    else if t == b'P'
    then 44
    else if t == b'Q'
    then 40
    else if t == b'B'
    then 19
    else if t == b'I'
    then 50
    else if t == b'N'
    then 20
    else 0

unfoldable pub is_book_message : ℕ → Bool
is_book_message t =
    t == b'A'
    || t == b'F'
    || t == b'E'
    || t == b'C'
    || t == b'X'
    || t == b'D'
    || t == b'U'
    || t == b'P'

abbrev pub side_of : ℕ → Side
side_of b = if b == b'B' then buy else sell

-- The cases of the switch on the type, each on the order with its header filled in.
unfoldable pub decode_add : Bytes → Order → Order
decode_add d out = record out {
  action = add;
  order_ref = be64 (advance d 11);
  side = side_of (d 19);
  quantity = be32 (advance d 20);
  stock = copy8 (advance d 24);
  price = be32 (advance d 32);
}

unfoldable pub decode_executed : Bytes → Order → Order
decode_executed d out = record out {
  action = execute;
  order_ref = be64 (advance d 11);
  quantity = be32 (advance d 19);
  match_number = be64 (advance d 23);
}

-- A trade that does not print loses its match number.
unfoldable pub decode_executed_price : Bytes → Order → Order
decode_executed_price d out = record out {
  action = execute;
  order_ref = be64 (advance d 11);
  quantity = be32 (advance d 19);
  match_number = if not (d 31 == b'Y') then 0 else be64 (advance d 23);
  price = be32 (advance d 32);
}

unfoldable pub decode_cancel : Bytes → Order → Order
decode_cancel d out = record out {
  action = cancel;
  order_ref = be64 (advance d 11);
  quantity = be32 (advance d 19);
}

unfoldable pub decode_delete : Bytes → Order → Order
decode_delete d out = record out { action = delete; order_ref = be64 (advance d 11) }

unfoldable pub decode_replace : Bytes → Order → Order
decode_replace d out = record out {
  action = replace;
  order_ref = be64 (advance d 11);
  new_order_ref = be64 (advance d 19);
  quantity = be32 (advance d 27);
  price = be32 (advance d 31);
}

unfoldable pub decode_trade : Bytes → Order → Order
decode_trade d out = record out {
  action = trade;
  order_ref = be64 (advance d 11);
  side = side_of (d 19);
  quantity = be32 (advance d 20);
  stock = copy8 (advance d 24);
  price = be32 (advance d 32);
  match_number = be64 (advance d 36);
}

-- The switch; `none` is its default case.
unfoldable pub decode : ℕ → Bytes → Order → Option Order
decode t d out =
    if t == b'A' || t == b'F'
    then some (decode_add d out)
    else if t == b'E'
    then some (decode_executed d out)
    else if t == b'C'
    then some (decode_executed_price d out)
    else if t == b'X'
    then some (decode_cancel d out)
    else if t == b'D'
    then some (decode_delete d out)
    else if t == b'U'
    then some (decode_replace d out)
    else if t == b'P'
    then some (decode_trade d out)
    else none

-- `out = Order{}` and the fields that every message has.
unfoldable pub header : Bytes → Order
header d = record empty_order {
  stock_locate = be16 (advance d 1);
  timestamp_ns = be48 (advance d 5);
}

-- The switch on the header, and the lines behind it.
unfoldable pub parse_body : Counts → Bytes → Order → Bool × Order × Counts
parse_body c d out = elim (decode (d 0) d (header d)) [
  | none ↦ (false, header d, record c { ignored = inc64 c.ignored })
  | some o ↦ (true, record o { valid = 1 }, record c { parsed = inc64 c.parsed })
]

unfoldable pub parse : Counts → Option Bytes → ℕ → Order → Bool × Order × Counts
parse c none len out = (false, out, record c { malformed = inc64 c.malformed })
parse c (some d) len out =
    let expect = expected_length (d 0) in
    if ltb len 11
    then (false, out, record c { malformed = inc64 c.malformed })
    else if expect == 0
    then (false, out, record c { unknown = inc64 c.unknown })
    else if not (len == expect)
    then (false, out, record c { malformed = inc64 c.malformed })
    else if not (is_book_message (d 0))
    then (false, out, record c { ignored = inc64 c.ignored })
    else parse_body c d out
