-- ===== src/Itch/Parser/Wire.antt =====
-- ITCH 5.0 book messages as the exchange writes them, after the layout comments of itch_parser.cpp,
-- and what `ItchParser::parse` makes of them.
use tickpipe.Base.{
  ℕ, zero, suc, ◌*◌, ◌/◌, ◌%◌, ◌^◌, ◌<◌, ◌≡◌, refl, ap, ◌∙◌, Bool, true, false, ◌==◌, if◌then◌else◌,
  some, List, [], ◌∷◌, length, All, arith, Bytes, IsByte, bytes_of, advance, inc64, not,
}
use tickpipe.Itch.Order.{
  buy, sell, Action, add, execute, cancel, delete, replace, trade, Order, empty_order,
}
use tickpipe.Itch.Parser.{
  Counts, be16, be32, be48, be64, copy8, side_of, expected_length, is_book_message, header,
  decode_add, decode_executed, decode_executed_price, decode_cancel, decode_delete, decode_replace,
  decode_trade, decode, parse_body, parse,
}
use tickpipe.Itch.Parser.Words.{be16_sum, be32_sum, be48_sum, be64_sum}
use tickpipe.Itch.Parser.Reads.{be16_ext, be32_ext, be48_ext, be64_ext}

abbrev byte : ℕ → ℕ → ℕ
byte k v = v / 2 ^ (8 * k) % 256

-- The bytes that say whether an order buys, and whether a trade prints.
sides : (y : Bool) → side_of (if y then b'B' else b'S') ≡ (if y then buy else sell)
sides true = refl
sides false = refl

prints :
    (y : Bool) (v : ℕ)
    → (if not ((if y then b'Y' else b'N') == b'Y') then 0 else v) ≡ (if y then v else 0)
prints true v = refl
prints false v = refl

-- Big-endian words in front of more bytes.
abbrev pub put16 : ℕ → List ℕ → List ℕ
put16 v rest = byte 1 v ∷ byte 0 v ∷ rest

abbrev pub put32 : ℕ → List ℕ → List ℕ
put32 v rest = byte 3 v ∷ byte 2 v ∷ byte 1 v ∷ byte 0 v ∷ rest

abbrev pub put48 : ℕ → List ℕ → List ℕ
put48 v rest = byte 5 v ∷ byte 4 v ∷ put32 v rest

abbrev pub put64 : ℕ → List ℕ → List ℕ
put64 v rest = byte 7 v ∷ byte 6 v ∷ put48 v rest

pub bytes_of-IsByte : (xs : List ℕ) → All IsByte xs → (i : ℕ) → IsByte (bytes_of xs i)
bytes_of-IsByte [] h i = omega arith
bytes_of-IsByte (x ∷ xs) h zero = h.0
bytes_of-IsByte (x ∷ xs) h (suc i) = bytes_of-IsByte xs h.1 i

module _ (p : Bytes) (v : ℕ) where
  -- A read gives back the word whose bytes stand where it reads.
  be16-put16 : v < 2 ^ 16 → p 0 ∷ p 1 ∷ [] ≡ put16 v [] → be16 p ≡ v
  be16-put16 h e =
      be16_ext p (bytes_of (put16 v [])) (ap (λ xs. bytes_of xs 0) e) (ap (λ xs. bytes_of xs 1) e)
      ∙ omega (arith, be16_sum _ (bytes_of-IsByte (put16 v []) (omega arith)))

  be32-put32 : v < 2 ^ 32 → p 0 ∷ p 1 ∷ p 2 ∷ p 3 ∷ [] ≡ put32 v [] → be32 p ≡ v
  be32-put32 h e =
      be32_ext p (bytes_of (put32 v [])) (ap (λ xs. bytes_of xs 0) e) (ap (λ xs. bytes_of xs 1) e)
        (ap (λ xs. bytes_of xs 2) e) (ap (λ xs. bytes_of xs 3) e)
      ∙ omega (arith, be32_sum _ (bytes_of-IsByte (put32 v []) (omega arith)))

  be48-put48 : v < 2 ^ 48 → p 0 ∷ p 1 ∷ p 2 ∷ p 3 ∷ p 4 ∷ p 5 ∷ [] ≡ put48 v [] → be48 p ≡ v
  be48-put48 h e =
      be48_ext p (bytes_of (put48 v [])) (ap (λ xs. bytes_of xs 0) e) (ap (λ xs. bytes_of xs 1) e)
        (ap (λ xs. bytes_of xs 2) e) (ap (λ xs. bytes_of xs 3) e) (ap (λ xs. bytes_of xs 4) e)
        (ap (λ xs. bytes_of xs 5) e)
      ∙ omega (arith, be48_sum _ (bytes_of-IsByte (put48 v []) (omega arith)))

  be64-put64 : v < 2 ^ 64 → copy8 p ≡ put64 v [] → be64 p ≡ v
  be64-put64 h e =
      be64_ext p (bytes_of (put64 v [])) (ap (λ xs. bytes_of xs 0) e) (ap (λ xs. bytes_of xs 1) e)
        (ap (λ xs. bytes_of xs 2) e) (ap (λ xs. bytes_of xs 3) e) (ap (λ xs. bytes_of xs 4) e)
        (ap (λ xs. bytes_of xs 5) e) (ap (λ xs. bytes_of xs 6) e) (ap (λ xs. bytes_of xs 7) e)
      ∙ omega (arith, be64_sum _ (bytes_of-IsByte (put64 v []) (omega arith)))

-- The fields of the book messages. The parser keeps neither the tracking number nor the mpid.
pub record Fields : Type 0 where
  pub locate : ℕ
  pub tracking : ℕ
  pub time : ℕ
  pub ref : ℕ
  pub new_ref : ℕ
  pub match_ref : ℕ
  pub shares : ℕ
  pub price : ℕ
  pub buying : Bool
  pub printable : Bool
  pub stock : Bytes
  pub mpid : ℕ

pub data Kind : Type 0 where
  add_order add_mpid executed executed_price cancelled deleted replaced traded : Kind

abbrev put_head : ℕ → Fields → List ℕ → List ℕ
put_head t m rest = t ∷ put16 m.locate (put16 m.tracking (put48 m.time rest))

abbrev put_stock : Bytes → List ℕ → List ℕ
put_stock s rest = s 0 ∷ s 1 ∷ s 2 ∷ s 3 ∷ s 4 ∷ s 5 ∷ s 6 ∷ s 7 ∷ rest

abbrev put_order : Fields → List ℕ → List ℕ
put_order m rest =
    put64 m.ref
      ((if m.buying then b'B' else b'S') ∷ put32 m.shares (put_stock m.stock (put32 m.price rest)))

-- The body of a message, type byte first.
abbrev pub wire : Kind → Fields → List ℕ
wire add_order m = put_head b'A' m (put_order m [])
wire add_mpid m = put_head b'F' m (put_order m (put32 m.mpid []))
wire executed m = put_head b'E' m (put64 m.ref (put32 m.shares (put64 m.match_ref [])))
wire executed_price m = put_head b'C' m (
    put64 m.ref (
      put32 m.shares (put64 m.match_ref ((if m.printable then b'Y' else b'N') ∷ put32 m.price []))))
wire cancelled m = put_head b'X' m (put64 m.ref (put32 m.shares []))
wire deleted m = put_head b'D' m (put64 m.ref [])
wire replaced m =
    put_head b'U' m (put64 m.ref (put64 m.new_ref (put32 m.shares (put32 m.price []))))
wire traded m = put_head b'P' m (put_order m (put64 m.match_ref []))

abbrev head_of : Fields → Order
head_of m = record empty_order { stock_locate = m.locate; timestamp_ns = m.time; valid = 1 }

abbrev order_of : Fields → Action → Order
order_of m a = record (head_of m) {
  action = a;
  order_ref = m.ref;
  side = if m.buying then buy else sell;
  quantity = m.shares;
  stock = copy8 m.stock;
  price = m.price;
}

-- The order that a message stands for. An execution that does not print has no match number.
abbrev pub meaning : Kind → Fields → Order
meaning add_order m = order_of m add
meaning add_mpid m = order_of m add
meaning executed m = record (head_of m) {
  action = execute;
  order_ref = m.ref;
  quantity = m.shares;
  match_number = m.match_ref;
}
meaning executed_price m = record (head_of m) {
  action = execute;
  order_ref = m.ref;
  quantity = m.shares;
  match_number = if m.printable then m.match_ref else 0;
  price = m.price;
}
meaning cancelled m = record (head_of m) { action = cancel; order_ref = m.ref; quantity = m.shares }
meaning deleted m = record (head_of m) { action = delete; order_ref = m.ref }
meaning replaced m = record (head_of m) {
  action = replace;
  order_ref = m.ref;
  new_order_ref = m.new_ref;
  quantity = m.shares;
  price = m.price;
}
meaning traded m = record (order_of m trade) { match_number = m.match_ref }

pub record Fits (m : Fields) : Type 0 where
  pub locate : m.locate < 2 ^ 16
  pub time : m.time < 2 ^ 48
  pub ref : m.ref < 2 ^ 64
  pub new_ref : m.new_ref < 2 ^ 64
  pub match_ref : m.match_ref < 2 ^ 64
  pub shares : m.shares < 2 ^ 32
  pub price : m.price < 2 ^ 32

module _ (m : Fields) (fit : Fits m) where
  head_wire :
      (t : ℕ) (rest : List ℕ)
      → header (bytes_of (put_head t m rest))
        ≡ record empty_order { stock_locate = m.locate; timestamp_ns = m.time }
  unfolding header
  head_wire t rest =
      let d = bytes_of (put_head t m rest) in
      rw (
        be16-put16 (advance d 1) m.locate fit.locate refl,
        be48-put48 (advance d 5) m.time fit.time refl,
      )

  module _ (c : Counts) (out : Order) where
    abbrev Returns : Kind → Type 0
    Returns k =
        parse c (some (bytes_of (wire k m))) (length (wire k m)) out
        ≡ (true, meaning k m, record c { parsed = inc64 c.parsed })

    add_order_wire : Returns add_order
    unfolding parse parse_body expected_length is_book_message decode decode_add
    add_order_wire =
        let d = bytes_of (wire add_order m) in
        rw (
          head_wire b'A' (put_order m []),
          be64-put64 (advance d 11) m.ref fit.ref refl,
          be32-put32 (advance d 20) m.shares fit.shares refl,
          be32-put32 (advance d 32) m.price fit.price refl,
          sides m.buying,
        )

    add_mpid_wire : Returns add_mpid
    unfolding parse parse_body expected_length is_book_message decode decode_add
    add_mpid_wire =
        let d = bytes_of (wire add_mpid m) in
        rw (
          head_wire b'F' (put_order m (put32 m.mpid [])),
          be64-put64 (advance d 11) m.ref fit.ref refl,
          be32-put32 (advance d 20) m.shares fit.shares refl,
          be32-put32 (advance d 32) m.price fit.price refl,
          sides m.buying,
        )

    traded_wire : Returns traded
    unfolding parse parse_body expected_length is_book_message decode decode_trade
    traded_wire =
        let d = bytes_of (wire traded m) in
        rw (
          head_wire b'P' (put_order m (put64 m.match_ref [])),
          be64-put64 (advance d 11) m.ref fit.ref refl,
          be32-put32 (advance d 20) m.shares fit.shares refl,
          be32-put32 (advance d 32) m.price fit.price refl,
          be64-put64 (advance d 36) m.match_ref fit.match_ref refl,
          sides m.buying,
        )

    executed_wire : Returns executed
    unfolding parse parse_body expected_length is_book_message decode decode_executed
    executed_wire =
        let d = bytes_of (wire executed m) in
        rw (
          head_wire b'E' (put64 m.ref (put32 m.shares (put64 m.match_ref []))),
          be64-put64 (advance d 11) m.ref fit.ref refl,
          be32-put32 (advance d 19) m.shares fit.shares refl,
          be64-put64 (advance d 23) m.match_ref fit.match_ref refl,
        )

    cancelled_wire : Returns cancelled
    unfolding parse parse_body expected_length is_book_message decode decode_cancel
    cancelled_wire =
        let d = bytes_of (wire cancelled m) in
        rw (
          head_wire b'X' (put64 m.ref (put32 m.shares [])),
          be64-put64 (advance d 11) m.ref fit.ref refl,
          be32-put32 (advance d 19) m.shares fit.shares refl,
        )

    deleted_wire : Returns deleted
    unfolding parse parse_body expected_length is_book_message decode decode_delete
    deleted_wire =
        let d = bytes_of (wire deleted m) in
        rw (head_wire b'D' (put64 m.ref []), be64-put64 (advance d 11) m.ref fit.ref refl)

    replaced_wire : Returns replaced
    unfolding parse parse_body expected_length is_book_message decode decode_replace
    replaced_wire =
        let d = bytes_of (wire replaced m) in
        rw (
          head_wire b'U' (put64 m.ref (put64 m.new_ref (put32 m.shares (put32 m.price [])))),
          be64-put64 (advance d 11) m.ref fit.ref refl,
          be64-put64 (advance d 19) m.new_ref fit.new_ref refl,
          be32-put32 (advance d 27) m.shares fit.shares refl,
          be32-put32 (advance d 31) m.price fit.price refl,
        )

    executed_price_wire : Returns executed_price
    unfolding parse parse_body expected_length is_book_message decode decode_executed_price
    executed_price_wire =
        let d = bytes_of (wire executed_price m) in
        rw (
          head_wire b'C' (
              put64 m.ref (
                put32 m.shares
                  (put64 m.match_ref ((if m.printable then b'Y' else b'N') ∷ put32 m.price [])))),
          be64-put64 (advance d 11) m.ref fit.ref refl,
          be32-put32 (advance d 19) m.shares fit.shares refl,
          be64-put64 (advance d 23) m.match_ref fit.match_ref refl,
          be32-put32 (advance d 32) m.price fit.price refl,
          prints m.printable m.match_ref,
        )

    -- `parse` on the bytes of a book message whose fields fit their widths returns the order
    -- that the message stands for, and counts it as parsed.
    pub parse-wire : (k : Kind) → Returns k
    parse-wire add_order = add_order_wire
    parse-wire add_mpid = add_mpid_wire
    parse-wire executed = executed_wire
    parse-wire executed_price = executed_price_wire
    parse-wire cancelled = cancelled_wire
    parse-wire deleted = deleted_wire
    parse-wire replaced = replaced_wire
    parse-wire traded = traded_wire
