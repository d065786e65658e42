-- ===== src/Itch/Parser/Reads.antt =====
-- `ItchParser::parse` reads the message and nothing behind it.
use tickpipe.Base.{ℕ, ◌+◌, ◌≤◌, ◌<◌, ◌≡◌, ap, true, some, arith, Bytes, advance}
use tickpipe.Itch.Order.{Order}
use tickpipe.Itch.Parser.{
  Counts, be16, be32, be48, be64, expected_length, is_book_message, header, decode_add,
  decode_executed, decode_executed_price, decode_cancel, decode_delete, decode_replace,
  decode_trade, decode, parse_body, parse,
}
use tickpipe.Itch.Parser.Outcome.{expected_length_book}

module _ (p q : Bytes) where
  pub be16_ext : p 0 ≡ q 0 → p 1 ≡ q 1 → be16 p ≡ be16 q
  unfolding be16
  be16_ext e0 e1 = rw (e0, e1)

  pub be32_ext : p 0 ≡ q 0 → p 1 ≡ q 1 → p 2 ≡ q 2 → p 3 ≡ q 3 → be32 p ≡ be32 q
  unfolding be32
  be32_ext e0 e1 e2 e3 = rw (e0, e1, e2, e3)

  pub be48_ext :
      p 0 ≡ q 0 → p 1 ≡ q 1 → p 2 ≡ q 2 → p 3 ≡ q 3 → p 4 ≡ q 4 → p 5 ≡ q 5 → be48 p ≡ be48 q
  unfolding be48
  be48_ext e0 e1 e2 e3 e4 e5 = rw (e0, e1, e2, e3, e4, e5)

  pub be64_ext :
      p 0 ≡ q 0
      → p 1 ≡ q 1
      → p 2 ≡ q 2
      → p 3 ≡ q 3
      → p 4 ≡ q 4
      → p 5 ≡ q 5
      → p 6 ≡ q 6
      → p 7 ≡ q 7
      → be64 p ≡ be64 q
  unfolding be64
  be64_ext e0 e1 e2 e3 e4 e5 e6 e7 = rw (e0, e1, e2, e3, e4, e5, e6, e7)

-- Two memories that hold the same message of `len` bytes.
abbrev pub Agree : ℕ → Bytes → Bytes → Type 0
Agree len d d' = (i : ℕ) → i < len → d i ≡ d' i

module _ (len : ℕ) (d d' : Bytes) (same : Agree len d d') where
  at : (off i : ℕ) → off + i < len → advance d off i ≡ advance d' off i
  at off i h = same (off + i) h

  ref64 : (off : ℕ) → off + 8 ≤ len → be64 (advance d off) ≡ be64 (advance d' off)
  ref64 off h =
      be64_ext (advance d off) (advance d' off) (at off 0 (omega arith)) (at off 1 (omega arith))
        (at off 2 (omega arith)) (at off 3 (omega arith)) (at off 4 (omega arith))
        (at off 5 (omega arith)) (at off 6 (omega arith)) (at off 7 (omega arith))

  word32 : (off : ℕ) → off + 4 ≤ len → be32 (advance d off) ≡ be32 (advance d' off)
  word32 off h =
      be32_ext (advance d off) (advance d' off) (at off 0 (omega arith)) (at off 1 (omega arith))
        (at off 2 (omega arith)) (at off 3 (omega arith))

  header_within : 11 ≤ len → header d ≡ header d'
  unfolding header
  header_within h = rw (
    be16_ext (advance d 1) (advance d' 1) (at 1 0 (omega arith)) (at 1 1 (omega arith)),
    be48_ext (advance d 5) (advance d' 5) (at 5 0 (omega arith)) (at 5 1 (omega arith))
        (at 5 2 (omega arith)) (at 5 3 (omega arith)) (at 5 4 (omega arith)) (at 5 5 (omega arith)),
  )

  module _ (o : Order) where
    add_within : 36 ≤ len → decode_add d o ≡ decode_add d' o
    unfolding decode_add
    add_within h = cc (
      ref64 11 (omega arith),
      word32 20 (omega arith),
      word32 32 (omega arith),
      same 19 (omega arith),
      same 24 (omega arith),
      same 25 (omega arith),
      same 26 (omega arith),
      same 27 (omega arith),
      same 28 (omega arith),
      same 29 (omega arith),
      same 30 (omega arith),
      same 31 (omega arith),
    )

    executed_within : 31 ≤ len → decode_executed d o ≡ decode_executed d' o
    unfolding decode_executed
    executed_within h = cc (ref64 11 (omega arith), word32 19 (omega arith), ref64 23 (omega arith))

    executed_price_within : 36 ≤ len → decode_executed_price d o ≡ decode_executed_price d' o
    unfolding decode_executed_price
    executed_price_within h = rw (
      ref64 11 (omega arith),
      word32 19 (omega arith),
      ref64 23 (omega arith),
      word32 32 (omega arith),
      same 31 (omega arith),
    )

    cancel_within : 23 ≤ len → decode_cancel d o ≡ decode_cancel d' o
    unfolding decode_cancel
    cancel_within h = cc (ref64 11 (omega arith), word32 19 (omega arith))

    delete_within : 19 ≤ len → decode_delete d o ≡ decode_delete d' o
    unfolding decode_delete
    delete_within h = cc (ref64 11 (omega arith))

    replace_within : 35 ≤ len → decode_replace d o ≡ decode_replace d' o
    unfolding decode_replace
    replace_within h = cc (
      ref64 11 (omega arith),
      ref64 19 (omega arith),
      word32 27 (omega arith),
      word32 31 (omega arith),
    )

    trade_within : 44 ≤ len → decode_trade d o ≡ decode_trade d' o
    unfolding decode_trade
    trade_within h = cc (
      ref64 11 (omega arith),
      ref64 36 (omega arith),
      word32 20 (omega arith),
      word32 32 (omega arith),
      same 19 (omega arith),
      same 24 (omega arith),
      same 25 (omega arith),
      same 26 (omega arith),
      same 27 (omega arith),
      same 28 (omega arith),
      same 29 (omega arith),
      same 30 (omega arith),
      same 31 (omega arith),
    )

    decode_within : (t : ℕ) → expected_length t ≤ len → decode t d o ≡ decode t d' o
    unfolding decode expected_length
    decode_within t h = ground (
      arith, add_within, executed_within, executed_price_within, cancel_within, delete_within,
      replace_within, trade_within,
    )

  body_within :
      (c : Counts) (o : Order)
      → is_book_message (d 0) ≡ true
      → len ≡ expected_length (d 0)
      → parse_body c d o ≡ parse_body c d' o
  unfolding parse_body
  body_within c o book e =
      let long = expected_length_book (d 0) book in
      ground (
        arith,
        header_within (omega arith),
        same 0 (omega arith),
        decode_within (header d') (d' 0) (omega (arith, ap expected_length (same 0 (omega arith)))),
      )

  -- `parse` gives the same for two memories that agree on the message, whatever lies behind it:
  -- it reads no byte past `len`.
  pub parse-reads_within :
      (c : Counts) (out : Order) → parse c (some d) len out ≡ parse c (some d') len out
  unfolding parse
  parse-reads_within c out = ground (arith, same 0, body_within c out)
