-- ===== src/Wal/Amd64.antt =====
-- A `WalEntry` of include/wal.hpp as a compiler for x86-64 lays it out: little-endian words, the
-- order at byte 64 and the result at byte 128, with zeros for the padding.
use tickpipe.Base.{
  ℕ, zero, suc, ◌+◌, ◌*◌, ◌/◌, ◌%◌, ◌<◌, ◌≡◌, refl, sym, subst, ◌∙◌, Bool, true, false, List, [],
  ◌∷◌, ◌++◌, length, get_or, take, drop, arith, ◌==◌, if◌then◌else◌, All, All-append, IsByte,
}
use tickpipe.Itch.Order.{
  Order, Side, no_side, buy, sell, Action, no_action, add, execute, cancel, delete, replace, trade,
  side_code, action_code,
}
use tickpipe.Engine.Book.{MatchResult}
use tickpipe.Wal.{
  WalEntryType, order_submitted, order_matched, order_rejected, WalEntry, FitsOrder, IsEntry,
  Layout,
}

unfoldable pub le : ℕ → ℕ → List ℕ
le zero v = []
le (suc n) v = v % 256 ∷ le n (v / 256)

unfoldable pub of_le : List ℕ → ℕ
of_le [] = 0
of_le (b ∷ bs) = b + 256 * of_le bs

abbrev bound : ℕ → ℕ
bound zero = 1
bound (suc n) = 256 * bound n

of_le-le : (n v : ℕ) → v < bound n → of_le (le n v) ≡ v
unfolding le of_le
of_le-le zero v h = omega arith
of_le-le (suc n) v h = omega (arith, of_le-le n (v / 256) (omega arith))

le-IsByte : (n v : ℕ) → All IsByte (le n v)
unfolding le
le-IsByte zero v = tt
le-IsByte (suc n) v = (omega arith, le-IsByte n (v / 256))

abbrev kind_code : WalEntryType → ℕ
kind_code order_submitted = 1
kind_code order_matched = 2
kind_code order_rejected = 3

abbrev kind_at : ℕ → WalEntryType
kind_at n = if n == 1 then order_submitted else if n == 2 then order_matched else order_rejected

kind_back : (k : WalEntryType) → kind_at (kind_code k) ≡ k
kind_back order_submitted = refl
kind_back order_matched = refl
kind_back order_rejected = refl

abbrev side_at : ℕ → Side
side_at n = if n == b'B' then buy else if n == b'S' then sell else no_side

side_back : (s : Side) → side_at (side_code s) ≡ s
side_back no_side = refl
side_back buy = refl
side_back sell = refl

abbrev action_at : ℕ → Action
action_at n =
    if n == 1
    then add
    else if n == 2
    then execute
    else if n == 3
    then cancel
    else if n == 4
    then delete
    else if n == 5
    then replace
    else if n == 6
    then trade
    else no_action

action_back : (a : Action) → action_at (action_code a) ≡ a
action_back no_action = refl
action_back add = refl
action_back execute = refl
action_back cancel = refl
action_back delete = refl
action_back replace = refl
action_back trade = refl

abbrev flag_number : Bool → ℕ
flag_number true = 1
flag_number false = 0

abbrev flag_at : ℕ → Bool
flag_at n = n == 1

flag_back : (b : Bool) → flag_at (flag_number b) ≡ b
flag_back true = refl
flag_back false = refl

code_bytes :
    (k : WalEntryType) (s : Side) (a : Action) (b : Bool)
    → (kind_code k < 256) × (side_code s < 256) × (action_code a < 256) × (flag_number b < 256)
code_bytes k s a b = (kinds k, sides s, actions a, flags b)
  where
    kinds : (k : WalEntryType) → kind_code k < 256
    kinds order_submitted = omega arith
    kinds order_matched = omega arith
    kinds order_rejected = omega arith

    sides : (s : Side) → side_code s < 256
    sides no_side = omega arith
    sides buy = omega arith
    sides sell = omega arith

    actions : (a : Action) → action_code a < 256
    actions no_action = omega arith
    actions add = omega arith
    actions execute = omega arith
    actions cancel = omega arith
    actions delete = omega arith
    actions replace = omega arith
    actions trade = omega arith

    flags : (b : Bool) → flag_number b < 256
    flags true = omega arith
    flags false = omega arith

abbrev zeros : ℕ → List ℕ
zeros zero = []
zeros (suc n) = 0 ∷ zeros n

zeros-IsByte : (n : ℕ) → All IsByte (zeros n)
zeros-IsByte zero = tt
zeros-IsByte (suc n) = (omega arith, zeros-IsByte n)

abbrev eight : List ℕ → List ℕ
eight s =
    get_or s 0 0
    ∷ get_or s 1 0
    ∷ get_or s 2 0
    ∷ get_or s 3 0
    ∷ get_or s 4 0
    ∷ get_or s 5 0
    ∷ get_or s 6 0
    ∷ get_or s 7 0
    ∷ []

eight_lem : (s : List ℕ) → length s ≡ 8 → eight s ≡ s
eight_lem [] h = absurd (omega arith)
eight_lem (a ∷ []) h = absurd (omega arith)
eight_lem (a ∷ b ∷ []) h = absurd (omega arith)
eight_lem (a ∷ b ∷ c ∷ []) h = absurd (omega arith)
eight_lem (a ∷ b ∷ c ∷ d ∷ []) h = absurd (omega arith)
eight_lem (a ∷ b ∷ c ∷ d ∷ e ∷ []) h = absurd (omega arith)
eight_lem (a ∷ b ∷ c ∷ d ∷ e ∷ f ∷ []) h = absurd (omega arith)
eight_lem (a ∷ b ∷ c ∷ d ∷ e ∷ f ∷ g ∷ []) h = absurd (omega arith)
eight_lem (a ∷ b ∷ c ∷ d ∷ e ∷ f ∷ g ∷ i ∷ []) h = refl
eight_lem (a ∷ b ∷ c ∷ d ∷ e ∷ f ∷ g ∷ i ∷ j ∷ s) h = absurd (omega arith)

abbrev order_bytes : Order → List ℕ
order_bytes o =
    le 8 o.timestamp_ns
    ++ (le 8 o.order_ref
        ++ (le 8 o.new_order_ref
            ++ (le 8 o.match_number
                ++ (le 4 o.quantity
                    ++ (le 4 o.price
                        ++ (le 2 o.stock_locate
                            ++ ((side_code o.side ∷ action_code o.action ∷ [])
                                ++ (le 1 o.valid ++ (eight o.stock ++ zeros 11)))))))))

abbrev result_bytes : MatchResult → List ℕ
result_bytes r =
    le 8 r.buy_order_ref
    ++ (le 8 r.sell_order_ref
        ++ (le 4 r.price ++ (le 4 r.quantity ++ (flag_number r.matched ∷ zeros 39))))

unfoldable pub amd64_bytes : WalEntry → List ℕ
amd64_bytes e =
    le 8 e.sequence
    ++ (le 8 e.timestamp_ns
        ++ ((kind_code e.kind ∷ zeros 47) ++ (order_bytes e.order ++ result_bytes e.result)))

-- `n` bytes from `at` on.
unfoldable pub word : ℕ → ℕ → List ℕ → ℕ
word at n bytes = of_le (take n (drop at bytes))

unfoldable pub byte : ℕ → List ℕ → ℕ
byte at bytes = get_or bytes at 0

unfoldable pub text : List ℕ → List ℕ
text bytes = take 8 (drop 109 bytes)

abbrev amd64_entry : List ℕ → WalEntry
amd64_entry xs = record {
  sequence = word 0 8 xs;
  timestamp_ns = word 8 8 xs;
  kind = kind_at (byte 16 xs);
  order = record {
    timestamp_ns = word 64 8 xs;
    order_ref = word 72 8 xs;
    new_order_ref = word 80 8 xs;
    match_number = word 88 8 xs;
    quantity = word 96 4 xs;
    price = word 100 4 xs;
    stock_locate = word 104 2 xs;
    side = side_at (byte 106 xs);
    action = action_at (byte 107 xs);
    valid = word 108 1 xs;
    stock = text xs;
  };
  result = record {
    buy_order_ref = word 128 8 xs;
    sell_order_ref = word 136 8 xs;
    price = word 144 4 xs;
    quantity = word 148 4 xs;
    matched = flag_at (byte 152 xs);
  };
}

-- The words of an entry stand where they are read.
record Words (e : WalEntry) : Type 0 where
  sequence : word 0 8 (amd64_bytes e) ≡ of_le (le 8 e.sequence)
  now : word 8 8 (amd64_bytes e) ≡ of_le (le 8 e.timestamp_ns)
  timestamp_ns : word 64 8 (amd64_bytes e) ≡ of_le (le 8 e.order.timestamp_ns)
  order_ref : word 72 8 (amd64_bytes e) ≡ of_le (le 8 e.order.order_ref)
  new_order_ref : word 80 8 (amd64_bytes e) ≡ of_le (le 8 e.order.new_order_ref)
  match_number : word 88 8 (amd64_bytes e) ≡ of_le (le 8 e.order.match_number)
  quantity : word 96 4 (amd64_bytes e) ≡ of_le (le 4 e.order.quantity)
  price : word 100 4 (amd64_bytes e) ≡ of_le (le 4 e.order.price)
  stock_locate : word 104 2 (amd64_bytes e) ≡ of_le (le 2 e.order.stock_locate)
  valid : word 108 1 (amd64_bytes e) ≡ of_le (le 1 e.order.valid)
  buy_order_ref : word 128 8 (amd64_bytes e) ≡ of_le (le 8 e.result.buy_order_ref)
  sell_order_ref : word 136 8 (amd64_bytes e) ≡ of_le (le 8 e.result.sell_order_ref)
  traded_price : word 144 4 (amd64_bytes e) ≡ of_le (le 4 e.result.price)
  traded : word 148 4 (amd64_bytes e) ≡ of_le (le 4 e.result.quantity)
  kind : byte 16 (amd64_bytes e) ≡ kind_code e.kind
  side : byte 106 (amd64_bytes e) ≡ side_code e.order.side
  action : byte 107 (amd64_bytes e) ≡ action_code e.order.action
  matched : byte 152 (amd64_bytes e) ≡ flag_number e.result.matched
  stock : text (amd64_bytes e) ≡ eight e.order.stock

words : (e : WalEntry) → Words e
unfolding word byte text amd64_bytes le
words e = record {
  sequence = refl;
  now = refl;
  timestamp_ns = refl;
  order_ref = refl;
  new_order_ref = refl;
  match_number = refl;
  quantity = refl;
  price = refl;
  stock_locate = refl;
  valid = refl;
  buy_order_ref = refl;
  sell_order_ref = refl;
  traded_price = refl;
  traded = refl;
  kind = refl;
  side = refl;
  action = refl;
  matched = refl;
  stock = refl;
}

pub amd64_back : (e : WalEntry) → IsEntry e → amd64_entry (amd64_bytes e) ≡ e
amd64_back e h =
    let w = words e in
    let o = h.order in
    let r = h.result in
    rw (
      w.sequence ∙ of_le-le 8 _ h.sequence,
      w.now ∙ of_le-le 8 _ h.timestamp_ns,
      w.timestamp_ns ∙ of_le-le 8 _ o.timestamp_ns,
      w.order_ref ∙ of_le-le 8 _ o.order_ref,
      w.new_order_ref ∙ of_le-le 8 _ o.new_order_ref,
      w.match_number ∙ of_le-le 8 _ o.match_number,
      w.quantity ∙ of_le-le 4 _ o.quantity,
      w.price ∙ of_le-le 4 _ o.price,
      w.stock_locate ∙ of_le-le 2 _ o.stock_locate,
      w.valid ∙ of_le-le 1 _ o.valid,
      w.buy_order_ref ∙ of_le-le 8 _ r.buy_order_ref,
      w.sell_order_ref ∙ of_le-le 8 _ r.sell_order_ref,
      w.traded_price ∙ of_le-le 4 _ r.price,
      w.traded ∙ of_le-le 4 _ r.quantity,
      w.kind,
      kind_back e.kind,
      w.side,
      side_back e.order.side,
      w.action,
      action_back e.order.action,
      w.matched,
      flag_back e.result.matched,
      w.stock,
      eight_lem e.order.stock o.eight,
    )

pub amd64_size : (e : WalEntry) → length (amd64_bytes e) ≡ 192
unfolding amd64_bytes le
amd64_size e = refl

-- All of them are bytes.
unfoldable AreBytes : List ℕ → Type 0
AreBytes bs = All IsByte bs

word_then : (n v : ℕ) (ys : List ℕ) → AreBytes ys → AreBytes (le n v ++ ys)
unfolding AreBytes
word_then n v ys h = All-append IsByte (le n v) ys (le-IsByte n v) h

then_bytes : (xs ys : List ℕ) → All IsByte xs → AreBytes ys → AreBytes (xs ++ ys)
unfolding AreBytes
then_bytes xs ys h h' = All-append IsByte xs ys h h'

result_bytes-AreBytes : (r : MatchResult) → AreBytes (result_bytes r)
unfolding AreBytes
result_bytes-AreBytes r =
    let (_, _, _, flag) = code_bytes order_submitted no_side no_action r.matched in
    let last : AreBytes (flag_number r.matched ∷ zeros 39) = (flag, zeros-IsByte 39) in
    word_then 8 r.buy_order_ref
      (le 8 r.sell_order_ref
        ++ (le 4 r.price ++ (le 4 r.quantity ++ (flag_number r.matched ∷ zeros 39))))
      (word_then 8 r.sell_order_ref
        (le 4 r.price ++ (le 4 r.quantity ++ (flag_number r.matched ∷ zeros 39)))
        (word_then 4 r.price (le 4 r.quantity ++ (flag_number r.matched ∷ zeros 39))
          (word_then 4 r.quantity (flag_number r.matched ∷ zeros 39) last)))

order_then : (o : Order) (ys : List ℕ) → FitsOrder o → AreBytes ys → AreBytes (order_bytes o ++ ys)
unfolding AreBytes
order_then o ys h rest =
    let (_, side, action, _) = code_bytes order_submitted o.side o.action true in
    let stock : All IsByte (eight o.stock) =
      subst (All IsByte) (sym (eight_lem o.stock h.eight)) h.characters in
    let t4 = eight o.stock ++ zeros 11 in
    let t3 = le 1 o.valid ++ t4 in
    let t2 = (side_code o.side ∷ action_code o.action ∷ []) ++ t3 in
    let t1 = le 4 o.quantity ++ (le 4 o.price ++ (le 2 o.stock_locate ++ t2)) in
    let b4 : AreBytes t4 = then_bytes (eight o.stock) (zeros 11) stock (zeros-IsByte 11) in
    let b3 : AreBytes t3 = word_then 1 o.valid t4 b4 in
    let b2 : AreBytes t2 = (side, (action, b3)) in
    let b1 : AreBytes t1 =
      word_then 4 o.quantity (le 4 o.price ++ (le 2 o.stock_locate ++ t2))
        (word_then 4 o.price (le 2 o.stock_locate ++ t2) (word_then 2 o.stock_locate t2 b2)) in
    let all : AreBytes (order_bytes o) =
      word_then 8 o.timestamp_ns
        (le 8 o.order_ref ++ (le 8 o.new_order_ref ++ (le 8 o.match_number ++ t1)))
        (word_then 8 o.order_ref (le 8 o.new_order_ref ++ (le 8 o.match_number ++ t1)) (
          word_then 8 o.new_order_ref (le 8 o.match_number ++ t1)
            (word_then 8 o.match_number t1 b1))) in
    then_bytes (order_bytes o) ys all rest

pub amd64-IsByte : (e : WalEntry) → IsEntry e → All IsByte (amd64_bytes e)
unfolding amd64_bytes AreBytes
amd64-IsByte e h =
    let (kind, _, _, _) = code_bytes e.kind no_side no_action true in
    let t2 = order_bytes e.order ++ result_bytes e.result in
    let t1 = (kind_code e.kind ∷ zeros 47) ++ t2 in
    let b2 : AreBytes t2 =
      order_then e.order (result_bytes e.result) h.order (result_bytes-AreBytes e.result) in
    let b1 : AreBytes t1 = then_bytes (kind_code e.kind ∷ zeros 47) t2 (kind, zeros-IsByte 47) b2 in
    word_then 8 e.sequence (le 8 e.timestamp_ns ++ t1) (word_then 8 e.timestamp_ns t1 b1)

unfoldable pub amd64 : Layout
amd64 = record {
  to_bytes = amd64_bytes;
  of_bytes = amd64_entry;
  size = amd64_size;
  bytes = amd64-IsByte;
  read_back = amd64_back;
}
