-- ===== src/Itch/Order.antt =====
-- The decoded message of include/itch_parser.hpp. `char stock[8]` is a list of eight bytes.
use tickpipe.Base.{ℕ, Bool, true, false, List, [], ◌∷◌, ◌&&◌, ◌==◌, ◌≡◌, refl, arith}

pub data Side : Type 0 where
  no_side buy sell : Side

pub data Action : Type 0 where
  no_action add execute cancel delete replace trade : Action

pub record Order : Type 0 where
  pub timestamp_ns : ℕ
  pub order_ref : ℕ
  pub new_order_ref : ℕ
  pub match_number : ℕ
  pub quantity : ℕ
  pub price : ℕ
  pub stock_locate : ℕ
  pub side : Side
  pub action : Action
  pub valid : ℕ
  pub stock : List ℕ

-- The values that the enumerators stand for.
abbrev pub side_code : Side → ℕ
side_code no_side = 0
side_code buy = b'B'
side_code sell = b'S'

abbrev pub action_code : Action → ℕ
action_code no_action = 0
action_code add = 1
action_code execute = 2
action_code cancel = 3
action_code delete = 4
action_code replace = 5
action_code trade = 6

abbrev pub is_buy : Side → Bool
is_buy buy = true
is_buy _ = false

abbrev pub no_stock : List ℕ
no_stock = 0 ∷ 0 ∷ 0 ∷ 0 ∷ 0 ∷ 0 ∷ 0 ∷ 0 ∷ []

-- `Order{}`
abbrev pub empty_order : Order
empty_order = record {
  timestamp_ns = 0;
  order_ref = 0;
  new_order_ref = 0;
  match_number = 0;
  quantity = 0;
  price = 0;
  stock_locate = 0;
  side = no_side;
  action = no_action;
  valid = 0;
  stock = no_stock;
}

-- `memcmp(a, b, 8) == 0`, on two symbols.
unfoldable pub same_stock : List ℕ → List ℕ → Bool
same_stock [] [] = true
same_stock [] (y ∷ ys) = false
same_stock (x ∷ xs) [] = false
same_stock (x ∷ xs) (y ∷ ys) = x == y && same_stock xs ys

pub same_stock_refl : (s : List ℕ) → same_stock s s ≡ true
unfolding same_stock
same_stock_refl [] = refl
same_stock_refl (c ∷ s) = ground (arith, same_stock_refl s)
