-- ===== src/Symbols/Waiting.antt =====
-- A name between its `subscribe` and its directory message, whatever is fed and subscribed there.
use tickpipe.Base.{
  ℕ, zero, suc, ◌+◌, ◌-◌, ◌≤◌, ◌<◌, ◌≡◌, refl, sym, ap, ◌∙◌, ◌⊎◌, inl, inr, Bool, true, false, ◌||◌,
  not, Option, none, some, List, [], ◌∷◌, arith, leb, ◌==◌, if_both, if_with, Bool-cases, Bytes,
  advance, update, update_self, update_ne, subst, test_cases, ==_iff, ne_of_eq_false, not_both,
  if◌then◌else◌,
}
use tickpipe.Itch.Order.{same_stock, same_stock_refl}
use tickpipe.Itch.Parser.{be16, copy8}
use tickpipe.Symbols.{
  SymbolDirectory, max_pending, pad8, mark, resolve_pending, learn, feed, wait, subscribe_at,
  subscribe, count32,
}
use tickpipe.Symbols.Subscribe.{
  IsDirectory, names, Subscribes, now, later, never, subscribe_lem, mark-subscribed, mark-keeps,
  learn-keeps, learn_lem, feed_lem,
}

-- A call: of `feed` with a message and its length, or of `subscribe`.
pub data Event : Type 0 where
  feeding : Option Bytes → ℕ → Event
  subscribing : Option (List ℕ) → Event

unfoldable pub step : Event → SymbolDirectory → SymbolDirectory
step (feeding d len) s = (feed s d len).1
step (subscribing name) s = (subscribe s name).1

unfoldable pub run : SymbolDirectory → List Event → SymbolDirectory
run s [] = s
run s (e ∷ es) = run (step e s) es

-- A directory message with this symbol and locate code.
abbrev pub IsFor : Bytes → ℕ → List ℕ → ℕ → Type 0
IsFor d len want l =
    (len ≡ 39) × (symbol : List ℕ) × IsDirectory d l symbol × (same_stock want symbol ≡ true)

abbrev pub Names : Event → List ℕ → ℕ → Type 0
Names (feeding none len) want l = ⊥
Names (feeding (some d) len) want l = IsFor d len want l
Names (subscribing name) want l = ⊥

-- One of the calls feeds such a message.
abbrev pub Feeds : List Event → List ℕ → ℕ → Type 0
Feeds [] want l = ⊥
Feeds (e ∷ es) want l = Names e want l ⊎ Feeds es want l

Waits : SymbolDirectory → List ℕ → Type 0
Waits s want = (k : ℕ) × (k < s.pending_count) × (s.pending k ≡ want)

-- It waits still, or a message of this call has come for it.
Tracked : SymbolDirectory → List ℕ → (ℕ → Type 0) → Type 0
Tracked s want Source = Waits s want ⊎ (l : ℕ) × (s.subscribed l ≡ true) × Source l

-- The last name takes the place of the removed one.
removed :
    (s : SymbolDirectory) (want : List ℕ) (i k : ℕ)
    → k < s.pending_count
    → s.pending k ≡ want
    → i < s.pending_count
    → (k == i) ≡ false
    → Waits
        (record s {
          pending = update s.pending i (s.pending (s.pending_count - 1));
          pending_count = s.pending_count - 1;
        })
        want
unfolding Waits
removed s want i k lt at in_range ne = elim (Bool-cases (k == s.pending_count - 1)) [
  | inl last ↦ (
    i,
    ground (arith, last, ne),
    update_self s.pending i (s.pending (s.pending_count - 1))
        ∙ ap s.pending (sym ((==_iff _ _).0 last))
        ∙ at,
  )
  | inr inner ↦ (
    k,
    ground (arith, inner),
    update_ne s.pending (s.pending (s.pending_count - 1)) (ne_of_eq_false ne) ∙ at,
  )
]

mark-pending :
    (s : SymbolDirectory) (l i k : ℕ) (want : List ℕ)
    → k < s.pending_count
    → s.pending k ≡ want
    → i < s.pending_count
    → let t = mark s l in (k < t.pending_count) × (t.pending k ≡ want) × (i < t.pending_count)
unfolding mark
mark-pending s l i k want lt at in_range =
    if_both
      (λ (t : SymbolDirectory).
        (k < t.pending_count) × (t.pending k ≡ want) × (i < t.pending_count))
      (s.subscribed l) (lt, at, in_range) (lt, at, in_range)

resolve_pending-Tracked :
    (s : SymbolDirectory) (want : List ℕ) (l left i k : ℕ)
    → i + left ≤ s.pending_count
    → k < s.pending_count
    → s.pending k ≡ want
    → Tracked
        (resolve_pending s l left i)
        want
        (λ j. (j ≡ l) × (same_stock want (s.symbols l) ≡ true))
unfolding resolve_pending Tracked Waits
resolve_pending-Tracked s want l zero i k h lt at = inl (k, lt, at)
resolve_pending-Tracked s want l (suc left) i k h lt at =
    test_cases
      (λ (t : SymbolDirectory).
        Tracked t want (λ j. (j ≡ l) × (same_stock want (s.symbols l) ≡ true)))
      (same_stock (s.pending i) (s.symbols l))
      (λ e. elim (Bool-cases (k == i)) [
        | inl same ↦ inr (
          l,
          mark-subscribed s l,
          (
            refl,
            subst (λ (w : List ℕ). same_stock w (s.symbols l) ≡ true)
                (ap s.pending (sym ((==_iff k i).0 same)) ∙ at) e,
          ),
        )
        | inr ne ↦
            let (lt', at', in_range) = mark-pending s l i k want lt at (omega arith) in
            inl (removed (mark s l) want i k lt' at' in_range ne)
      ])
      (λ e. resolve_pending-Tracked s want l left (i + 1) k (omega arith) lt at)

learn-Tracked :
    (s : SymbolDirectory) (want : List ℕ) (l : ℕ) (symbol : List ℕ)
    → Waits s want
    → Tracked (learn s l symbol) want (λ j. (j ≡ l) × (same_stock want symbol ≡ true))
unfolding learn Waits
learn-Tracked s want l symbol (k, lt, at) =
    subst
      (λ (t : List ℕ). Tracked (learn s l symbol) want (λ j. (j ≡ l) × (same_stock want t ≡ true)))
      (update_self s.symbols l symbol)
      (resolve_pending-Tracked
        (record s {
          known_count = if s.known l then s.known_count else count32 s.known_count;
          symbols = update s.symbols l symbol;
          known = update s.known l true;
        })
        want l s.pending_count 0 k (omega arith) lt at)

feed-Tracked :
    (s : SymbolDirectory) (want : List ℕ) (d : Option Bytes) (len : ℕ)
    → Waits s want
    → Tracked (feed s d len).1 want (Names (feeding d len) want)
unfolding feed Tracked
feed-Tracked s want none len w = inl w
feed-Tracked s want (some d) len w =
    let l = be16 (advance d 1) in
    let symbol = copy8 (advance d 11) in
    if_with (λ (r : Bool × SymbolDirectory). Tracked r.1 want (λ j. IsFor d len want j))
      (not (len == 39) || not (d 0 == b'R')) (λ other. inl w)
      (λ known. elim (learn-Tracked s want l symbol w) [
        | inl still ↦ inl still
        | inr (j, subscribed, (same, found)) ↦ inr (
          j,
          subscribed,
          (
            ground (arith, known),
            symbol,
            record { kind = ground (arith, known); locate = sym same; stock = refl },
            found,
          ),
        )
      ])

wait-Waits :
    (s : SymbolDirectory) (want other : List ℕ) → Waits s want → Waits (wait s other).1 want
unfolding wait Waits
wait-Waits s want other (k, lt, at) =
    if_both
      (λ (r : Bool × SymbolDirectory). (j : ℕ) × (j < r.1.pending_count) × (r.1.pending j ≡ want))
      (leb max_pending s.pending_count) (k, lt, at)
      (k, omega (arith, lt), update_ne s.pending other (omega (arith, lt)) ∙ at)

subscribe_at-Waits :
    (s : SymbolDirectory) (want other : List ℕ) (o : Option ℕ)
    → Waits s want
    → Waits (subscribe_at s other o).1 want
unfolding subscribe_at Waits
subscribe_at-Waits s want other none w = wait-Waits s want other w
subscribe_at-Waits s want other (some l) (k, lt, at) =
    let (lt', at', _) = mark-pending s l k k want lt at lt in (k, lt', at')

step-Tracked :
    (s : SymbolDirectory) (want : List ℕ) (e : Event)
    → Waits s want
    → Tracked (step e s) want (Names e want)
unfolding step subscribe Tracked
step-Tracked s want (feeding d len) w = feed-Tracked s want d len w
step-Tracked s want (subscribing none) w = inl w
step-Tracked s want (subscribing (some name)) w = inl (subscribe_at-Waits s want (pad8 name) _ w)

wait-keeps :
    (s : SymbolDirectory) (other : List ℕ) (k : ℕ)
    → s.subscribed k ≡ true
    → (wait s other).1.subscribed k ≡ true
unfolding wait
wait-keeps s other k h =
    if_both (λ (r : Bool × SymbolDirectory). r.1.subscribed k ≡ true)
      (leb max_pending s.pending_count) h h

subscribe_at-keeps :
    (s : SymbolDirectory) (other : List ℕ) (o : Option ℕ) (k : ℕ)
    → s.subscribed k ≡ true
    → (subscribe_at s other o).1.subscribed k ≡ true
unfolding subscribe_at
subscribe_at-keeps s other none k h = wait-keeps s other k h
subscribe_at-keeps s other (some l) k h = mark-keeps s l k h

feed-keeps :
    (s : SymbolDirectory) (d : Option Bytes) (len k : ℕ)
    → s.subscribed k ≡ true
    → (feed s d len).1.subscribed k ≡ true
unfolding feed
feed-keeps s none len k h = h
feed-keeps s (some d) len k h =
    if_both (λ (r : Bool × SymbolDirectory). r.1.subscribed k ≡ true)
      (not (len == 39) || not (d 0 == b'R')) h
      (learn-keeps s (be16 (advance d 1)) (copy8 (advance d 11)) k h)

step-keeps :
    (s : SymbolDirectory) (e : Event) (k : ℕ)
    → s.subscribed k ≡ true
    → (step e s).subscribed k ≡ true
unfolding step subscribe
step-keeps s (feeding d len) k h = feed-keeps s d len k h
step-keeps s (subscribing none) k h = h
step-keeps s (subscribing (some name)) k h = subscribe_at-keeps s (pad8 name) _ k h

run-keeps :
    (es : List Event) (s : SymbolDirectory) (k : ℕ)
    → s.subscribed k ≡ true
    → (run s es).subscribed k ≡ true
unfolding run
run-keeps [] s k h = h
run-keeps (e ∷ es) s k h = run-keeps es (step e s) k (step-keeps s e k h)

run-Tracked :
    (es : List Event) (s : SymbolDirectory) (want : List ℕ)
    → Waits s want
    → Tracked (run s es) want (Feeds es want)
unfolding run Tracked
run-Tracked [] s want w = inl w
run-Tracked (e ∷ es) s want w = elim (step-Tracked s want e w) [
  | inl still ↦ elim (run-Tracked es (step e s) want still) [
    | inl waits ↦ inl waits
    | inr (l, subscribed, source) ↦ inr (l, subscribed, inr source)
  ]
  | inr (l, subscribed, source) ↦ inr (l, run-keeps es (step e s) l subscribed, inl source)
]

-- Why a locate code is subscribed for a name: it was known under the name before, a call in between
-- fed its directory message, or it is that of the last message.
pub SubscribedAs : SymbolDirectory → List ℕ → List Event → ℕ → SymbolDirectory → Type 0
SubscribedAs s want es l s' =
    (k : ℕ) × (s'.subscribed k ≡ true) × ((names s want k ≡ true) ⊎ (Feeds es want k ⊎ (k ≡ l)))

learn-Subscribes :
    (s s' : SymbolDirectory) (want : List ℕ) (es : List Event) (l : ℕ) (ok : Bool)
    → Subscribes s want ok s'
    → ok ≡ true
    → SubscribedAs s want es l (learn (run s' es) l want)
unfolding SubscribedAs Tracked Waits
learn-Subscribes s s' want es l true (now k h h') e =
    (k, learn-keeps (run s' es) l want k (run-keeps es s' k h'), inl h)
learn-Subscribes s s' want es l true (later none_known room at count) e =
    elim (run-Tracked es s' want (s.pending_count, omega (arith, count), at)) [
      | inl (k, lt, at') ↦ (
        l,
        (learn_lem (run s' es) l want).resolved k lt
            (subst (λ (t : List ℕ). same_stock t want ≡ true) (sym at') (same_stock_refl want)),
        inr (inr refl),
      )
      | inr (k, subscribed, source) ↦
          (k, learn-keeps (run s' es) l want k subscribed, inr (inl source))
    ]
learn-Subscribes s s' want es l false (never h h') e = absurd (not_both e refl)

-- A name that `subscribe` took is subscribed once a directory message with that symbol was fed,
-- any calls of `feed` and `subscribe` coming in between: under a locate code that was known for
-- it before, that of a directory message in between with that symbol, or that of the message.
pub feed-subscribe_lem :
    (s : SymbolDirectory) (name : List ℕ) (es : List Event) (d : Bytes) (l : ℕ)
    → (subscribe s (some name)).0 ≡ true
    → IsDirectory d l (pad8 name)
    → SubscribedAs s (pad8 name) es l (feed (run (subscribe s (some name)).1 es) (some d) 39).1
feed-subscribe_lem s name es d l ok h =
    subst (λ (r : Bool × SymbolDirectory). SubscribedAs s (pad8 name) es l r.1)
      (sym (feed_lem (run (subscribe s (some name)).1 es) d l (pad8 name) h))
      (learn-Subscribes s _ (pad8 name) es l _ (subscribe_lem s name) ok)
