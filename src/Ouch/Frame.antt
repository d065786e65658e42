-- ===== src/Ouch/Frame.antt =====
-- What the OUCH writers leave in the buffer, as the big-endian reads of the parser see it.
use tickpipe.Base.{
  ℕ, zero, suc, ◌+◌, ◌*◌, ◌/◌, ◌^◌, ◌≤◌, ◌<◌, ◌≡◌, refl, ◌∙◌, false, some, List, [], ◌∷◌, arith,
  ltb, if_false, Bytes, IsByte, advance, bytes_of, bit_and, bit_and_mask, u32,
}
use tickpipe.Itch.Order.{Order, side_code}
use tickpipe.Itch.Parser.{be32, be64, copy8}
use tickpipe.Itch.Parser.Words.{be32_sum, be64_sum}
use tickpipe.Engine.Book.{MatchResult}
use tickpipe.Ouch.{
  write_u32, write_u64, executed_bytes, accepted_bytes, rejected_bytes, write_executed,
  write_accepted, write_rejected,
}

abbrev word32 : ℕ → List ℕ → List ℕ
word32 v rest =
    bit_and (v / 2 ^ 24) 0xff
    ∷ bit_and (v / 2 ^ 16) 0xff
    ∷ bit_and (v / 2 ^ 8) 0xff
    ∷ bit_and v 0xff
    ∷ rest

low_byte : (v : ℕ) → bit_and v 0xff < 256
low_byte v = omega (arith, bit_and_mask 8 v)

word32_bytes :
    (v : ℕ) (rest : List ℕ)
    → ((i : ℕ) → IsByte (bytes_of rest i))
    → (i : ℕ) → IsByte (bytes_of (word32 v rest) i)
word32_bytes v rest h zero = low_byte _
word32_bytes v rest h (suc zero) = low_byte _
word32_bytes v rest h (suc (suc zero)) = low_byte _
word32_bytes v rest h (suc (suc (suc zero))) = low_byte _
word32_bytes v rest h (suc (suc (suc (suc i)))) = h i

empty_bytes : (i : ℕ) → IsByte (bytes_of [] i)
empty_bytes zero = omega arith
empty_bytes (suc i) = omega arith

word_sum :
    (v : ℕ)
    → v < 2 ^ 32
    → bit_and (v / 2 ^ 24) 0xff * 2 ^ 24
        + bit_and (v / 2 ^ 16) 0xff * 2 ^ 16
        + bit_and (v / 2 ^ 8) 0xff * 2 ^ 8
        + bit_and v 0xff
      ≡ v
word_sum v h = omega (
  arith,
  bit_and_mask 8 v,
  bit_and_mask 8 (v / 2 ^ 8),
  bit_and_mask 8 (v / 2 ^ 16),
  bit_and_mask 8 (v / 2 ^ 24),
)

-- A number that is written big-endian is read back.
be32_word : (v : ℕ) → v < 2 ^ 32 → be32 (bytes_of (word32 v [])) ≡ v
be32_word v h = be32_sum _ (word32_bytes v [] empty_bytes) ∙ word_sum v h

abbrev word64 : ℕ → List ℕ
word64 v = word32 (u32 (v / 2 ^ 32)) (word32 (bit_and v 0xffff_ffff) [])

halves_sum : (v : ℕ) → v < 2 ^ 64 → u32 (v / 2 ^ 32) * 2 ^ 32 + bit_and v 0xffff_ffff ≡ v
halves_sum v h = omega (arith, bit_and_mask 32 v)

be64_word : (v : ℕ) → v < 2 ^ 64 → be64 (bytes_of (word64 v)) ≡ v
be64_word v h =
    let low : bit_and v 0xffff_ffff < 2 ^ 32 = omega (arith, bit_and_mask 32 v) in
    let high : u32 (v / 2 ^ 32) < 2 ^ 32 = omega arith in
    let bytes =
      word32_bytes (u32 (v / 2 ^ 32)) (word32 (bit_and v 0xffff_ffff) [])
        (word32_bytes (bit_and v 0xffff_ffff) [] empty_bytes) in
    be64_sum _ bytes ∙ omega (arith, halves_sum v h, word_sum _ low, word_sum _ high)

not_short : (n len : ℕ) → n ≤ len → ltb len n ≡ false
not_short n len h = ground arith

-- The execution message in `out`, with `buf` unchanged behind it.
pub record Executed (buf out : Bytes) (o : Order) (r : MatchResult) (id ts : ℕ) : Type 0 where
  pub kind : out 0 ≡ b'E'
  pub timestamp : be64 (advance out 1) ≡ ts
  pub order_ref : be64 (advance out 9) ≡ o.order_ref
  pub quantity : be32 (advance out 17) ≡ r.quantity
  pub price : be32 (advance out 21) ≡ r.price
  pub match_id : be64 (advance out 25) ≡ id
  pub behind : (j : ℕ) → 34 ≤ j → out j ≡ buf j

executed_bytes_lem :
    (buf : Bytes) (o : Order) (r : MatchResult) (id ts : ℕ)
    → ts < 2 ^ 64
    → o.order_ref < 2 ^ 64
    → r.quantity < 2 ^ 32
    → r.price < 2 ^ 32
    → id < 2 ^ 64
    → Executed buf (executed_bytes buf o r id ts) o r id ts
unfolding executed_bytes write_u64 write_u32 be64 be32
executed_bytes_lem buf o r id ts ht ho hq hp hi = record {
  kind = refl;
  timestamp = be64_word ts ht;
  order_ref = be64_word o.order_ref ho;
  quantity = be32_word r.quantity hq;
  price = be32_word r.price hp;
  match_id = be64_word id hi;
  behind = λ j h. ground arith;
}

-- The rejection message in `out`, with `buf` unchanged behind it.
pub record Rejected (buf out : Bytes) (o : Order) (why ts : ℕ) : Type 0 where
  pub kind : out 0 ≡ b'J'
  pub timestamp : be64 (advance out 1) ≡ ts
  pub order_ref : be64 (advance out 9) ≡ o.order_ref
  pub reason : out 17 ≡ why
  pub behind : (j : ℕ) → 19 ≤ j → out j ≡ buf j

rejected_bytes_lem :
    (buf : Bytes) (o : Order) (reason ts : ℕ)
    → ts < 2 ^ 64
    → o.order_ref < 2 ^ 64
    → Rejected buf (rejected_bytes buf o reason ts) o reason ts
unfolding rejected_bytes write_u64 write_u32 be64 be32
rejected_bytes_lem buf o reason ts ht ho = record {
  kind = refl;
  timestamp = be64_word ts ht;
  order_ref = be64_word o.order_ref ho;
  reason = refl;
  behind = λ j h. ground arith;
}

-- The acceptance message in `out`: it ends with the symbol's eighth byte at offset 33.
pub record Accepted (buf out : Bytes) (o : Order) (ts : ℕ) : Type 0 where
  pub kind : out 0 ≡ b'A'
  pub timestamp : be64 (advance out 1) ≡ ts
  pub order_ref : be64 (advance out 9) ≡ o.order_ref
  pub side : out 17 ≡ side_code o.side
  pub quantity : be32 (advance out 18) ≡ o.quantity
  pub price : be32 (advance out 22) ≡ o.price
  pub stock : copy8 (advance out 26) ≡ copy8 (bytes_of o.stock)
  pub behind : (j : ℕ) → 34 ≤ j → out j ≡ buf j

accepted_bytes_lem :
    (buf : Bytes) (o : Order) (ts : ℕ)
    → ts < 2 ^ 64
    → o.order_ref < 2 ^ 64
    → o.quantity < 2 ^ 32
    → o.price < 2 ^ 32
    → Accepted buf (accepted_bytes buf o ts) o ts
unfolding accepted_bytes write_u64 write_u32 be64 be32
accepted_bytes_lem buf o ts ht ho hq hp = record {
  kind = refl;
  timestamp = be64_word ts ht;
  order_ref = be64_word o.order_ref ho;
  side = refl;
  quantity = be32_word o.quantity hq;
  price = be32_word o.price hp;
  stock = refl;
  behind = λ j h. ground arith;
}

-- In a buffer of 34 bytes or more `write_executed` writes a message of 34 bytes from which the
-- timestamp, the reference, the quantity, the price and the match number are read back, if they
-- fit their widths; it changes nothing behind them.
pub write_executed_lem :
    (buf : Bytes) (buf_len : ℕ) (o : Order) (r : MatchResult) (id ts : ℕ)
    → 34 ≤ buf_len
    → ts < 2 ^ 64
    → o.order_ref < 2 ^ 64
    → r.quantity < 2 ^ 32
    → r.price < 2 ^ 32
    → id < 2 ^ 64
    → (out : Bytes) × (write_executed (some buf) buf_len o r id ts ≡ (34, some out))
      × Executed buf out o r id ts
unfolding write_executed
write_executed_lem buf buf_len o r id ts len ht ho hq hp hi = (
  executed_bytes buf o r id ts,
  if_false _ _ (not_short 34 buf_len len),
  executed_bytes_lem buf o r id ts ht ho hq hp hi,
)

-- In a buffer of 19 bytes or more `write_rejected` writes a message of 19 bytes from which the
-- timestamp, the reference and the reason are read back, if they fit their widths; it changes
-- nothing behind them.
pub write_rejected_lem :
    (buf : Bytes) (buf_len : ℕ) (o : Order) (reason ts : ℕ)
    → 19 ≤ buf_len
    → ts < 2 ^ 64
    → o.order_ref < 2 ^ 64
    → (out : Bytes) × (write_rejected (some buf) buf_len o reason ts ≡ (19, some out))
      × Rejected buf out o reason ts
unfolding write_rejected
write_rejected_lem buf buf_len o reason ts len ht ho = (
  rejected_bytes buf o reason ts,
  if_false _ _ (not_short 19 buf_len len),
  rejected_bytes_lem buf o reason ts ht ho,
)

-- `write_accepted` takes a buffer of 32 bytes and reports 32 bytes, but the message it writes has
-- 34, from which all fields are read back if they fit their widths: the last two bytes of the
-- symbol stand at the offsets 32 and 33. Nothing behind them changes.
pub write_accepted_lem :
    (buf : Bytes) (buf_len : ℕ) (o : Order) (ts : ℕ)
    → 32 ≤ buf_len
    → ts < 2 ^ 64
    → o.order_ref < 2 ^ 64
    → o.quantity < 2 ^ 32
    → o.price < 2 ^ 32
    → (out : Bytes) × (write_accepted (some buf) buf_len o ts ≡ (32, some out))
      × Accepted buf out o ts
unfolding write_accepted
write_accepted_lem buf buf_len o ts len ht ho hq hp = (
  accepted_bytes buf o ts,
  if_false _ _ (not_short 32 buf_len len),
  accepted_bytes_lem buf o ts ht ho hq hp,
)
