-- ===== src/Itch/Parser/Outcome.antt =====
-- When `ItchParser::parse` accepts a message, and which counter each call advances.
use tickpipe.Base.{
  ℕ, ◌+◌, ◌^◌, ◌≤◌, ◌<◌, ◌≡◌, ◌↔◌, ◌≢◌, Option-cases, true, false, Option, none, some, arith, Bytes,
  inl, inr,
}
use tickpipe.Itch.Order.{Order}
use tickpipe.Itch.Parser.{
  Counts, expected_length, is_book_message, decode, parse_body, parse, header,
}

decode-ne-none : (t : ℕ) (d : Bytes) (o : Order) → is_book_message t ≡ true → decode t d o ≢ none
unfolding is_book_message decode
decode-ne-none t d o h = ground arith

-- Every book message has a case of the switch.
pub decode_book :
    (t : ℕ) (d : Bytes) (o : Order)
    → is_book_message t ≡ true
    → (o' : Order) × (decode t d o ≡ some o')
decode_book t d o h = elim (Option-cases (decode t d o)) [
  | inl e ↦ absurd (decode-ne-none t d o h e)
  | inr found ↦ found
]

-- A book message has a known length, of at least the 11 bytes of the header.
pub expected_length_book :
    (t : ℕ) → is_book_message t ≡ true → (19 ≤ expected_length t) × (expected_length t ≤ 44)
unfolding is_book_message expected_length
expected_length_book t h = ground arith

-- The number of messages that the parser has seen.
abbrev pub total : Counts → ℕ
total c = c.parsed + c.ignored + c.malformed + c.unknown

abbrev pub Accepts : Option Bytes → ℕ → Type 0
Accepts none len = ⊥
Accepts (some d) len = (is_book_message (d 0) ≡ true) × (len ≡ expected_length (d 0))

parse_body_accepts :
    (c : Counts) (d : Bytes) (out : Order)
    → is_book_message (d 0) ≡ true
    → ((parse_body c d out).0 ≡ true) × ((parse_body c d out).1.valid ≡ 1)
unfolding parse_body
parse_body_accepts c d out h = ground (arith, decode_book (d 0) d (header d) h)

parse_body_counts :
    (c : Counts) (d : Bytes) (out : Order)
    → total c + 1 < 2 ^ 64
    → is_book_message (d 0) ≡ true
    → let (accepted, out', c') = parse_body c d out in
      (total c' ≡ total c + 1) × (accepted ≡ true) × (c'.parsed ≡ c.parsed + 1) × (out'.valid ≡ 1)
unfolding parse_body
parse_body_counts c d out room h = ground (arith, decode_book (d 0) d (header d) h)

-- `parse` returns true exactly for a message of a book type with that type's length.
pub parse-true_iff :
    (c : Counts) (ptr : Option Bytes) (len : ℕ) (out : Order)
    → ((parse c ptr len out).0 ≡ true) ↔ Accepts ptr len
unfolding parse
parse-true_iff c none len out = ground arith
parse-true_iff c (some d) len out =
    ground (arith, expected_length_book (d 0), parse_body_accepts c d out)

-- While the counters stay below 2 ^ 64, one call advances them by one in all; `parsed` advances
-- when the message is accepted, and the order is then marked valid; otherwise `parsed` and the
-- caller's order stay as they were.
pub parse_counts :
    (c : Counts) (ptr : Option Bytes) (len : ℕ) (out : Order)
    → total c + 1 < 2 ^ 64
    → let (accepted, out', c') = parse c ptr len out in
      (total c' ≡ total c + 1)
      × (accepted ≡ true → (c'.parsed ≡ c.parsed + 1) × (out'.valid ≡ 1))
      × (accepted ≡ false → (c'.parsed ≡ c.parsed) × (out' ≡ out))
unfolding parse
parse_counts c none len out h = ground arith
parse_counts c (some d) len out h =
    ground (arith, expected_length_book (d 0), parse_body_counts c d out h)
