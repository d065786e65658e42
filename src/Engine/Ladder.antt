-- ===== src/Engine/Ladder.antt =====
-- One side of the book. `std::map<price, std::deque<(ref, quantity)>>` is a list of levels in the
-- order in which the map iterates; `before` is the map's comparison.
pub mod Sorted
pub mod Shares
pub mod Capped
use tickpipe.Base.{
  ℕ, suc, ◌+◌, ◌-◌, ◌^◌, Bool, true, false, Option, none, some, List, [], ◌∷◌, ◌++◌, ltb, leb, ◌==◌,
  if◌then◌else◌, min, u32, length,
}
use mathlib.Core.Option
use tickpipe.Book.Digest.{fold}

abbrev pub Entry : Type 0
Entry = ℕ × ℕ

abbrev pub Level : Type 0
Level = List Entry

abbrev pub Ladder : Type 0
Ladder = List (ℕ × Level)

-- `std::greater` for bids, `std::less` for asks.
abbrev pub descending : ℕ → ℕ → Bool
descending a b = ltb b a

abbrev pub ascending : ℕ → ℕ → Bool
ascending a b = ltb a b

-- `book[price].push_back(e)`
unfoldable pub push_back : (ℕ → ℕ → Bool) → ℕ → Entry → Ladder → Ladder
push_back before price e [] = (price, e ∷ []) ∷ []
push_back before price e ((p, q) ∷ rest) =
    if price == p
    then (p, q ++ e ∷ []) ∷ rest
    else if before price p
    then (price, e ∷ []) ∷ (p, q) ∷ rest
    else (p, q) ∷ push_back before price e rest

-- `if (q.empty()) book.erase(lit)`, for the level that stands before `rest`.
unfoldable pub keep_level : ℕ → Level → Ladder → Ladder
keep_level p [] rest = rest
keep_level p (e ∷ q) rest = (p, e ∷ q) ∷ rest

-- An entry less `qty` shares, erased when none are left.
unfoldable pub shrink_entry : ℕ → ℕ → ℕ → Level → Level
shrink_entry ref have qty rest =
    let left = have - min qty have in if left == 0 then rest else (ref, left) ∷ rest

-- The search for `ref` in a queue; `none` when it is not there.
unfoldable pub reduce_level : ℕ → ℕ → Level → Option Level
reduce_level ref qty [] = none
reduce_level ref qty ((r, have) ∷ rest) =
    if r == ref
    then some (shrink_entry r have qty rest)
    else Option.map (λ q. (r, have) ∷ q) (reduce_level ref qty rest)

unfoldable pub remove_level : ℕ → Level → Option Level
remove_level ref [] = none
remove_level ref ((r, have) ∷ rest) =
    if r == ref then some rest else Option.map (λ q. (r, have) ∷ q) (remove_level ref rest)

-- `book.find(price)`, and a search in that level; `none` stands for false.
unfoldable pub at_level : (Level → Option Level) → ℕ → Ladder → Option Ladder
at_level change price [] = none
at_level change price ((p, q) ∷ rest) =
    if p == price
    then Option.map (λ q'. keep_level p q' rest) (change q)
    else Option.map (λ l. (p, q) ∷ l) (at_level change price rest)

-- `shrink` of `reduce_ref` and `strip` of `remove_ref`
unfoldable pub shrink : ℕ → ℕ → ℕ → Ladder → Option Ladder
shrink price ref qty = at_level (reduce_level ref qty) price

unfoldable pub strip : ℕ → ℕ → Ladder → Option Ladder
strip price ref = at_level (remove_level ref) price

-- `scan` of `apply`: the first level that holds the reference.
unfoldable pub scan : ℕ → ℕ → Ladder → Option Ladder
scan ref qty [] = none
scan ref qty ((p, q) ∷ rest) =
    let later = Option.map (λ l. (p, q) ∷ l) (scan ref qty rest) in
    elim (reduce_level ref qty q) [ some q' ↦ some (keep_level p q' rest) | none ↦ later ]

-- `for (const auto& e : queue) qty += e.second` on a uint32_t
unfoldable pub sum_from : ℕ → Level → ℕ
sum_from qty [] = qty
sum_from qty ((ref, have) ∷ rest) = sum_from (u32 (qty + have)) rest

pub record DepthLevel : Type 0 where
  pub price : ℕ
  pub quantity : ℕ
  pub orders : ℕ

-- `walk` of `depth`, with `n` levels written.
unfoldable pub depth_walk : ℕ → ℕ → Ladder → List DepthLevel
depth_walk max n [] = []
depth_walk max n ((px, queue) ∷ rest) =
    let qty = sum_from 0 queue in
    let level : DepthLevel = record { price = px; quantity = qty; orders = u32 (length queue) } in
    let skip = depth_walk max n rest in
    let more = level ∷ depth_walk max (n + 1) rest in
    if leb max n then [] else if qty == 0 then skip else more

-- `best_bid` and `best_ask`
unfoldable pub best : Ladder → Option (ℕ × ℕ)
best [] = none
best ((px, queue) ∷ rest) = some (px, sum_from 0 queue)

-- `walk` of `book_digest`
unfoldable pub digest_level : ℕ → Level → ℕ
digest_level h [] = h
digest_level h ((ref, have) ∷ rest) = digest_level (fold (fold h ref) have) rest

unfoldable pub digest_ladder : ℕ → Ladder → ℕ
digest_ladder h [] = h
digest_ladder h ((px, queue) ∷ rest) = digest_ladder (digest_level (fold h px) queue) rest
