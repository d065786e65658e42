-- ===== src/Engine/Book/Matching.antt =====
-- `submit`: an order is matched at the best price of the other side, or rests.
use tickpipe.Base.{
  ℕ, ◌+◌, ◌≤◌, ◌<◌, ◌≡◌, refl, sym, ◌⊎◌, inl, inr, true, false, Option, some, [], ◌∷◌, arith, leb,
  if_true, if_false, Bool-cases, subst, min, inc64,
}
use tickpipe.Itch.Order.{Order, is_buy}
use tickpipe.Engine.Ladder.{Level, Ladder, descending, ascending, keep_level, shrink_entry}
use tickpipe.Engine.Ladder.Sorted.{
  IsLadder, Behind, shrink_entry-Positive, keep_level-IsLadder, descending-IsOrder,
  ascending-IsOrder, push_back-IsLadder,
}
use tickpipe.Engine.Ladder.Shares.{
  shares, shares-push_back, shares-fill, AllPrices, AllPrices-weaken, AllPrices-both,
  AllPrices-push_back, AllPrices-keep_level, Behind-above, Behind-below,
}
use tickpipe.Engine.Book.{
  MatchResult, no_match, Engine, print_trade, rest_bid, rest_ask, try_match_buy, try_match_sell,
  submit,
}
use tickpipe.Engine.Book.Valid.{IsValid}

-- Every bid is below every ask.
abbrev pub Uncrossed : Engine → Type 0
Uncrossed s = AllPrices (λ b. AllPrices (λ a. b < a) s.asks) s.bids

-- A buy order was matched at the lowest ask; the shares come off the asks.
pub record BuyMatched (bids asks : Ladder) (o : Order) (m : MatchResult) (s' : Engine)
    : Type 0 where
  pub matched : m.matched ≡ true
  pub buyer : m.buy_order_ref ≡ o.order_ref
  pub limit : m.price ≤ o.price
  pub best : AllPrices (λ a. m.price ≤ a) asks
  pub some_shares : 0 < m.quantity
  pub no_more : m.quantity ≤ o.quantity
  pub taken : shares s'.asks + m.quantity ≡ shares asks
  pub other_side : s'.bids ≡ bids

-- A buy order rests below every ask.
pub record BuyRests (bids asks : Ladder) (o : Order) (m : MatchResult) (s' : Engine) : Type 0 where
  pub unmatched : m ≡ no_match
  pub below_asks : AllPrices (λ a. o.price < a) asks
  pub added : shares s'.bids ≡ shares bids + o.quantity
  pub other_side : s'.asks ≡ asks

pub record SellMatched (bids asks : Ladder) (o : Order) (m : MatchResult) (s' : Engine)
    : Type 0 where
  pub matched : m.matched ≡ true
  pub seller : m.sell_order_ref ≡ o.order_ref
  pub limit : o.price ≤ m.price
  pub best : AllPrices (λ b. b ≤ m.price) bids
  pub some_shares : 0 < m.quantity
  pub no_more : m.quantity ≤ o.quantity
  pub taken : shares s'.bids + m.quantity ≡ shares bids
  pub other_side : s'.asks ≡ asks

pub record SellRests (bids asks : Ladder) (o : Order) (m : MatchResult) (s' : Engine) : Type 0 where
  pub unmatched : m ≡ no_match
  pub above_bids : AllPrices (λ b. b < o.price) bids
  pub added : shares s'.asks ≡ shares asks + o.quantity
  pub other_side : s'.bids ≡ bids

-- `submit` returns: the engine is valid and uncrossed again.
pub record Returns (P : MatchResult → Engine → Type 0) (out : Option (MatchResult × Engine))
    : Type 0 where
  pub result : MatchResult
  pub engine : Engine
  pub returned : out ≡ some (result, engine)
  pub valid : IsValid engine
  pub uncrossed : Uncrossed engine
  pub does : P result engine

pub Buys : Engine → Order → MatchResult → Engine → Type 0
Buys s o m s' = BuyMatched s.bids s.asks o m s' ⊎ BuyRests s.bids s.asks o m s'

pub Sells : Engine → Order → MatchResult → Engine → Type 0
Sells s o m s' = SellMatched s.bids s.asks o m s' ⊎ SellRests s.bids s.asks o m s'

rest_bid_lem :
    (s : Engine) (o : Order)
    → IsValid s
    → Uncrossed s
    → 0 < o.quantity
    → AllPrices (λ a. o.price < a) s.asks
    → Returns (Buys s o) (some (no_match, rest_bid s o))
unfolding rest_bid Buys
rest_bid_lem s o v u h below = record {
  result = no_match;
  engine = rest_bid s o;
  returned = refl;
  valid = record {
    bids =
        push_back-IsLadder descending descending-IsOrder o.price o.order_ref o.quantity s.bids h
          v.bids;
    asks = v.asks;
  };
  uncrossed =
      AllPrices-push_back (λ b. AllPrices (λ a. b < a) s.asks) descending o.price _ s.bids below u;
  does = inr (record {
    unmatched = refl;
    below_asks = below;
    added = shares-push_back descending o.price o.order_ref o.quantity s.bids;
    other_side = refl;
  });
}

-- What every ask is above when the first is, and from what price on they are.
asks_above :
    (p px : ℕ) (q : Level) (rest : Ladder)
    → p < px
    → Behind ascending px rest
    → AllPrices (λ a. p < a) ((px, q) ∷ rest)
asks_above p px q rest h b =
    (h, AllPrices-weaken rest (λ a lt. omega arith) (Behind-above px rest b))

asks_from :
    (px : ℕ) (q : Level) (rest : Ladder)
    → Behind ascending px rest
    → AllPrices (λ a. px ≤ a) ((px, q) ∷ rest)
asks_from px q rest b =
    (omega arith, AllPrices-weaken rest (λ a lt. omega arith) (Behind-above px rest b))

bids_below :
    (p px : ℕ) (q : Level) (rest : Ladder)
    → px < p
    → Behind descending px rest
    → AllPrices (λ b. b < p) ((px, q) ∷ rest)
bids_below p px q rest h b =
    (h, AllPrices-weaken rest (λ a lt. omega arith) (Behind-below px rest b))

bids_upto :
    (px : ℕ) (q : Level) (rest : Ladder)
    → Behind descending px rest
    → AllPrices (λ b. b ≤ px) ((px, q) ∷ rest)
bids_upto px q rest b =
    (omega arith, AllPrices-weaken rest (λ a lt. omega arith) (Behind-below px rest b))

buy_matched :
    (s : Engine) (o : Order) (px ref qty : ℕ) (queue : Level) (rest : Ladder)
    → s.asks ≡ (px, (ref, qty) ∷ queue) ∷ rest
    → IsLadder ascending ((px, (ref, qty) ∷ queue) ∷ rest)
    → IsValid s
    → Uncrossed s
    → 0 < o.quantity
    → px ≤ o.price
    → Returns (Buys s o) (
        some (
          record {
            buy_order_ref = o.order_ref;
            sell_order_ref = ref;
            price = px;
            quantity = min o.quantity qty;
            matched = true;
          },
          print_trade
              (min o.quantity qty)
              px
              (record s { asks = keep_level px (shrink_entry ref qty o.quantity queue) rest }),
        ))
unfolding IsLadder Buys
buy_matched s o px ref qty queue rest e l v u h near = record {
  result = _;
  engine = _;
  returned = refl;
  valid = record {
    bids = v.bids;
    asks =
        keep_level-IsLadder ascending px (shrink_entry ref qty o.quantity queue) rest
          (shrink_entry-Positive ref qty o.quantity queue l.1.1) l.2 l.3;
  };
  uncrossed =
      AllPrices-weaken s.bids
        (λ b above.
          let all = subst (AllPrices (λ a. b < a)) e above in
          AllPrices-keep_level (λ a. b < a) px (shrink_entry ref qty o.quantity queue) rest all.0
            all.1)
        u;
  does = inl (record {
    matched = refl;
    buyer = refl;
    limit = near;
    best = subst (AllPrices (λ a. px ≤ a)) (sym e) (asks_from px ((ref, qty) ∷ queue) rest l.2);
    some_shares = omega (arith, l.1.0);
    no_more = omega arith;
    taken =
        subst
          (λ t.
            shares (keep_level px (shrink_entry ref qty o.quantity queue) rest) + min o.quantity qty
            ≡ shares t)
          (sym e) (shares-fill px ref qty o.quantity queue rest);
    other_side = refl;
  });
}

try_match_buy_lem :
    (s : Engine) (o : Order) (l : Ladder)
    → s.asks ≡ l
    → IsLadder ascending l
    → IsValid s
    → Uncrossed s
    → 0 < o.quantity
    → Returns (Buys s o) (try_match_buy s o l)
unfolding try_match_buy IsLadder
try_match_buy_lem s o [] e l v u h =
    rest_bid_lem s o v u h (subst (AllPrices (λ a. o.price < a)) (sym e) tt)
try_match_buy_lem s o ((px, []) ∷ rest) e l v u h = absurd l.0
try_match_buy_lem s o ((px, (ref, qty) ∷ queue) ∷ rest) e l v u h =
    elim (Bool-cases (leb px o.price)) [
      | inr far ↦ subst (Returns (Buys s o)) (sym (if_false _ _ far)) (
          rest_bid_lem s o v u h (
            subst (AllPrices (λ a. o.price < a)) (sym e)
              (asks_above o.price px ((ref, qty) ∷ queue) rest (ground arith) l.2)))
      | inl near ↦
          subst (Returns (Buys s o)) (sym (if_true _ _ near))
            (buy_matched s o px ref qty queue rest e l v u h (ground arith))
    ]

rest_ask_lem :
    (s : Engine) (o : Order)
    → IsValid s
    → Uncrossed s
    → 0 < o.quantity
    → AllPrices (λ b. b < o.price) s.bids
    → Returns (Sells s o) (some (no_match, rest_ask s o))
unfolding rest_ask Sells
rest_ask_lem s o v u h above = record {
  result = no_match;
  engine = rest_ask s o;
  returned = refl;
  valid = record {
    bids = v.bids;
    asks =
        push_back-IsLadder ascending ascending-IsOrder o.price o.order_ref o.quantity s.asks h
          v.asks;
  };
  uncrossed =
      AllPrices-both s.bids
        (λ b below all. AllPrices-push_back (λ a. b < a) ascending o.price _ s.asks below all) above
        u;
  does = inr (record {
    unmatched = refl;
    above_bids = above;
    added = shares-push_back ascending o.price o.order_ref o.quantity s.asks;
    other_side = refl;
  });
}

sell_matched :
    (s : Engine) (o : Order) (px ref qty : ℕ) (queue : Level) (rest : Ladder)
    → s.bids ≡ (px, (ref, qty) ∷ queue) ∷ rest
    → IsLadder descending ((px, (ref, qty) ∷ queue) ∷ rest)
    → IsValid s
    → Uncrossed s
    → 0 < o.quantity
    → o.price ≤ px
    → Returns (Sells s o) (
        some (
          record {
            buy_order_ref = ref;
            sell_order_ref = o.order_ref;
            price = px;
            quantity = min o.quantity qty;
            matched = true;
          },
          print_trade
              (min o.quantity qty)
              px
              (record s { bids = keep_level px (shrink_entry ref qty o.quantity queue) rest }),
        ))
unfolding IsLadder Sells
sell_matched s o px ref qty queue rest e l v u h near = record {
  result = _;
  engine = _;
  returned = refl;
  valid = record {
    bids =
        keep_level-IsLadder descending px (shrink_entry ref qty o.quantity queue) rest
          (shrink_entry-Positive ref qty o.quantity queue l.1.1) l.2 l.3;
    asks = v.asks;
  };
  uncrossed =
      let all = subst (AllPrices (λ b. AllPrices (λ a. b < a) s.asks)) e u in
      AllPrices-keep_level (λ b. AllPrices (λ a. b < a) s.asks) px
        (shrink_entry ref qty o.quantity queue) rest all.0 all.1;
  does = inl (record {
    matched = refl;
    seller = refl;
    limit = near;
    best = subst (AllPrices (λ b. b ≤ px)) (sym e) (bids_upto px ((ref, qty) ∷ queue) rest l.2);
    some_shares = omega (arith, l.1.0);
    no_more = omega arith;
    taken =
        subst
          (λ t.
            shares (keep_level px (shrink_entry ref qty o.quantity queue) rest) + min o.quantity qty
            ≡ shares t)
          (sym e) (shares-fill px ref qty o.quantity queue rest);
    other_side = refl;
  });
}

try_match_sell_lem :
    (s : Engine) (o : Order) (l : Ladder)
    → s.bids ≡ l
    → IsLadder descending l
    → IsValid s
    → Uncrossed s
    → 0 < o.quantity
    → Returns (Sells s o) (try_match_sell s o l)
unfolding try_match_sell IsLadder
try_match_sell_lem s o [] e l v u h =
    rest_ask_lem s o v u h (subst (AllPrices (λ b. b < o.price)) (sym e) tt)
try_match_sell_lem s o ((px, []) ∷ rest) e l v u h = absurd l.0
try_match_sell_lem s o ((px, (ref, qty) ∷ queue) ∷ rest) e l v u h =
    elim (Bool-cases (leb o.price px)) [
      | inr far ↦ subst (Returns (Sells s o)) (sym (if_false _ _ far)) (
          rest_ask_lem s o v u h (
            subst (AllPrices (λ b. b < o.price)) (sym e)
              (bids_below o.price px ((ref, qty) ∷ queue) rest (ground arith) l.2)))
      | inl near ↦
          subst (Returns (Sells s o)) (sym (if_true _ _ near))
            (sell_matched s o px ref qty queue rest e l v u h (ground arith))
    ]

-- `++orders_processed_`
abbrev counted : Engine → Engine
counted s = record s { orders_processed = inc64 s.orders_processed }

counted-IsValid : (s : Engine) → IsValid s → IsValid (counted s)
counted-IsValid s v = record { bids = v.bids; asks = v.asks }

pub submit-buy_lem :
    (s : Engine) (o : Order)
    → IsValid s
    → Uncrossed s
    → 0 < o.quantity
    → is_buy o.side ≡ true
    → Returns (Buys s o) (submit s o)
unfolding submit Buys
submit-buy_lem s o v u h b =
    subst (Returns (Buys s o)) (sym (if_true _ _ b))
      (try_match_buy_lem (counted s) o s.asks refl v.asks (counted-IsValid s v) u h)

pub submit-sell_lem :
    (s : Engine) (o : Order)
    → IsValid s
    → Uncrossed s
    → 0 < o.quantity
    → is_buy o.side ≡ false
    → Returns (Sells s o) (submit s o)
unfolding submit Sells
submit-sell_lem s o v u h b =
    subst (Returns (Sells s o)) (sym (if_false _ _ b))
      (try_match_sell_lem (counted s) o s.bids refl v.bids (counted-IsValid s v) u h)
